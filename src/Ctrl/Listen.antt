-- ===== src/Ctrl/Listen.antt =====
-- The control socket of the porter: `porter_ctrl_listen` of c_src/porter/wm_porter_ctrl.cpp. The
-- answers of the system calls are an argument, and the calls are noted in their order.
pub mod Held
use swm_core.Prelude.{
  ◌*◌, ℕ, Bool, true, false, ◌&&◌, ◌||◌, not, List, [], ◌∷◌, ◌++◌, is_empty, Option, none, some,
  ◌==◌, if◌then◌else◌, Bytes, codes, length, ltb,
}
use swm_core.Porter.Text.{rfind}
use swm_core.SafeFile.{slash, Effect, Os, job_runtime_dir, ensure_private_dir}

-- The calls with their arguments, and their answer where it matters behind them.
pub data Call : Type 0 where
  mkdtemp : Call
  files : List Effect → Call
  unlink : Bytes → Call
  socket : Option ℕ → Call
  bind : ℕ → Bytes → Bool → Call
  chmod : Bytes → ℕ → Bool → Call
  chown : Bytes → ℕ → ℕ → Bool → Call
  listen : ℕ → ℕ → Bool → Call
  close get_flags set_nonblocking : ℕ → Call

-- What the system answers; `socket` and `mkdtemp` are `none` when they fail.
pub record Net : Type 0 where
  pub os : Os
  pub spool : Option Bytes
  pub temporary : Option Bytes
  pub socket_fd : Option ℕ
  pub bind_ok : Bool
  pub listen_ok : Bool
  pub flags_ok : Bool

-- The path that is returned, the out parameter, -1 being `none`, and the calls.
pub record Listening : Type 0 where
  pub path : Bytes
  pub listen_fd : Option ℕ
  pub calls : List Call

-- `sizeof(addr.sun_path)`.
abbrev pub sun_path_size : ℕ
sun_path_size = 108

-- 0600: the owner reads and writes, nobody else does anything.
abbrev pub owner_only : ℕ
owner_only = 6 * 8 * 8

-- How many clients may wait.
abbrev pub backlog : ℕ
backlog = 4

pub make_ctrl_path : Net → Bytes → Bytes × List Call
make_ctrl_path net job_id =
    let dir = job_runtime_dir job_id net.spool in
    let file = λ (d : Bytes). d ++ codes "/ctrl.sock" in
    if is_empty dir
    then (elim net.temporary [ none ↦ ([], mkdtemp ∷ []) | some d ↦ (file d, mkdtemp ∷ []) ])
    else (file dir, [])

-- A call more in front.
abbrev pub behind : List Call → Listening → Listening
behind cs l = record l { calls = cs ++ l.calls }

-- A failure: the empty text, and no socket.
abbrev pub fails : List Call → Listening
fails cs = record { path = []; listen_fd = none; calls = cs }

-- From listen(2) on.
unfoldable start_listening : Net → ℕ → Bytes → Listening
start_listening net fd path =
    if net.listen_ok
    then record {
      path = path;
      listen_fd = some fd;
      calls =
          listen fd backlog true
          ∷ get_flags fd
          ∷ (if net.flags_ok then set_nonblocking fd ∷ [] else []);
    }
    else fails (listen fd backlog false ∷ close fd ∷ unlink path ∷ [])

-- Whether the socket is handed to another user.
abbrev pub handed_over : ℕ → ℕ → Bool
handed_over uid gid = not (uid == 0) || not (gid == 0)

-- The mode and the owner of the socket.
unfoldable set_owner : Net → ℕ → Bytes → ℕ → ℕ → Listening
set_owner net fd path uid gid =
    let rest = start_listening net fd path in
    if not (net.os.chmod_ok path)
    then fails (chmod path owner_only false ∷ close fd ∷ unlink path ∷ [])
    else if not (handed_over uid gid)
    then behind (chmod path owner_only true ∷ []) rest
    else if net.os.chown_ok path
    then behind (chmod path owner_only true ∷ chown path uid gid true ∷ []) rest
    else fails (chmod path owner_only true ∷ chown path uid gid false ∷ close fd ∷ unlink path ∷ [])

-- The address of the socket.
unfoldable bind_socket : Net → ℕ → Bytes → ℕ → ℕ → Listening
bind_socket net fd path uid gid =
    if not (ltb (length path) sun_path_size)
    then fails (close fd ∷ [])
    else if net.bind_ok
    then behind (bind fd path true ∷ []) (set_owner net fd path uid gid)
    else fails (bind fd path false ∷ close fd ∷ [])

unfoldable open_socket : Net → Bytes → ℕ → ℕ → Listening
open_socket net path uid gid = elim net.socket_fd [
  | none ↦ fails (unlink path ∷ socket none ∷ [])
  | some fd ↦ behind (unlink path ∷ socket (some fd) ∷ []) (bind_socket net fd path uid gid)
]

-- Root lets the user of the job into the directory.
unfoldable enter_dir : Net → Bytes → Bytes → ℕ → ℕ → Listening
enter_dir net dir path uid gid =
    let rest = open_socket net path uid gid in
    if not (net.os.euid == 0 && not (uid == 0))
    then rest
    else if net.os.chown_ok dir
    then behind (chown dir uid gid true ∷ []) rest
    else fails (chown dir uid gid false ∷ [])

-- The directory of the path.
unfoldable prepare_dir : Net → Bytes → ℕ → ℕ → Listening
prepare_dir net path uid gid = elim (rfind slash path) [
  | none ↦ fails []
  | some (dir, file) ↦
      let (ok, es) = ensure_private_dir net.os dir uid in
      if is_empty dir
      then fails []
      else if ok
      then behind (files es ∷ []) (enter_dir net dir path uid gid)
      else fails (files es ∷ [])
]

pub porter_ctrl_listen : Net → Bytes → ℕ → ℕ → Listening
porter_ctrl_listen net job_id uid gid =
    let (path, cs) = make_ctrl_path net job_id in behind cs (prepare_dir net path uid gid)
