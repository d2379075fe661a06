-- ===== src/SafeFile.antt =====
-- Private directories and files of a job: c_src/lib/wm_safe_file.cpp. The answers of the system calls
-- are an argument, and the calls that change something are noted in their order.
pub mod Exclusive
use swm_core.Prelude.{
  ℕ, zero, suc, ◌+◌, Bool, true, false, ◌&&◌, ◌||◌, not, List, [], ◌∷◌, ◌++◌, is_empty, Option,
  none, some, ◌==◌, if◌then◌else◌, Bytes, codes, bytes_eq,
}
use swm_core.WriteLoop.{WriteResult, write_all}

abbrev pub slash : ℕ
slash = b'/'

-- The text without the slashes at its end: `pop_back` while the last byte is a slash.
trim : Bytes → Bytes
trim [] = []
trim (c ∷ s) = let rest = trim s in if is_empty rest && c == slash then [] else c ∷ rest

-- The second argument is SWM_SPOOL. The empty text is the failure.
unfoldable pub job_runtime_dir : Bytes → Option Bytes → Bytes
unfolding trim
job_runtime_dir job_id none = []
job_runtime_dir job_id (some spool) =
    if is_empty job_id || is_empty spool then [] else trim spool ++ (codes "/job/" ++ job_id)

-- The flags of open(2) that are used, each of them set or not; the file is opened for writing.
pub record OpenFlags : Type 0 where
  pub o_creat : Bool
  pub o_excl : Bool
  pub o_nofollow : Bool
  pub o_cloexec : Bool

pub data Effect : Type 0 where
  mkdir chmod chown unlink : Bytes → Effect
  create : Bytes → OpenFlags → ℕ → Effect
  fill : Bytes → Effect
  fchmod : ℕ → Effect
  fchown : ℕ → ℕ → Effect
  close : Effect

-- Whether each call succeeds; a directory that is already there counts as success of mkdir(2).
pub record Os : Type 0 where
  pub euid : ℕ
  pub mkdir_ok : Bytes → Bool
  pub chmod_ok : Bytes → Bool
  pub chown_ok : Bytes → Bool
  pub open_ok : Bytes → OpenFlags → ℕ → Bool
  pub writes : List WriteResult
  pub fchmod_ok : Bool
  pub fchown_ok : Bool
  pub close_ok : Bool

-- The parts between the slashes.
unfoldable parts : Bytes → Bytes → List Bytes
parts cur [] = cur ∷ []
parts cur (c ∷ s) =
    let cut = cur ∷ parts [] s in
    let more = parts (cur ++ c ∷ []) s in if c == slash then cut else more

ends_with_slash : Bytes → Bool
ends_with_slash [] = false
ends_with_slash (c ∷ []) = c == slash
ends_with_slash (c ∷ d ∷ s) = ends_with_slash (d ∷ s)

-- `cur` with the next part.
unfoldable extend : Bytes → Bytes → Bytes
unfolding ends_with_slash
extend cur part =
    (if not (bytes_eq cur (codes "/")) && (not (is_empty cur) && not (ends_with_slash cur))
      then cur ++ slash ∷ []
      else cur)
    ++ part

-- The loop: each directory on the way is made.
unfoldable make_dirs : Os → Bytes → List Bytes → Bool × List Effect
unfolding extend
make_dirs os cur [] = (true, [])
make_dirs os cur (p ∷ ps) =
    let same = make_dirs os cur ps in
    let (ok, es) = make_dirs os (extend cur p) ps in
    if is_empty p
    then same
    else if os.mkdir_ok (extend cur p)
    then (ok, mkdir (extend cur p) ∷ es)
    else (false, mkdir (extend cur p) ∷ [])

-- The text from which the loop starts, and the parts behind it.
start_dirs : Os → Bytes → Bool × List Effect
start_dirs os [] = (true, [])
start_dirs os (c ∷ s) =
    if c == slash then make_dirs os (codes "/") (parts [] s) else make_dirs os [] (parts [] (c ∷ s))

-- Root that is to hand the directory to another user leaves the owner as it is.
abbrev pub owner_matters : ℕ → ℕ → Bool
owner_matters euid uid = not (euid == 0) || uid == 0

-- Behind the loop: the mode, and the owner.
set_private : Os → Bytes → ℕ → Bool × List Effect
set_private os dir uid =
    if os.chmod_ok dir
    then (if owner_matters os.euid uid
        then (os.chown_ok dir, chmod dir ∷ chown dir ∷ [])
        else (true, chmod dir ∷ []))
    else (false, chmod dir ∷ [])

unfoldable pub ensure_private_dir : Os → Bytes → ℕ → Bool × List Effect
unfolding start_dirs set_private make_dirs parts
ensure_private_dir os dir uid =
    let (made, es) = start_dirs os dir in
    let (ok, fs) = set_private os dir uid in
    if is_empty dir || bytes_eq dir (codes "/")
    then (false, [])
    else if made
    then (ok, es ++ fs)
    else (false, es)

-- Whether the name has a slash in it, or names a directory.
contains_slash : Bytes → Bool
contains_slash [] = false
contains_slash (c ∷ s) = c == slash || contains_slash s

unfoldable pub bad_name : Bytes → Bool
unfolding contains_slash
bad_name name =
    is_empty name
    || (contains_slash name || (bytes_eq name (codes ".") || bytes_eq name (codes "..")))

-- What is asked of a file: its owner, its group and its mode.
pub record Owner : Type 0 where
  pub uid : ℕ
  pub gid : ℕ
  pub mode : ℕ

-- What is left to do when the content is written.
seal : Os → Bytes → Owner → Bytes × List Effect
seal os path o =
    let given = fchown o.uid o.gid in
    if not os.fchmod_ok
    then ([], fchmod o.mode ∷ close ∷ unlink path ∷ [])
    else if not os.fchown_ok && owner_matters os.euid o.uid
    then ([], fchmod o.mode ∷ given ∷ close ∷ unlink path ∷ [])
    else if os.close_ok
    then (path, fchmod o.mode ∷ given ∷ close ∷ [])
    else ([], fchmod o.mode ∷ given ∷ close ∷ unlink path ∷ [])

-- The loop that writes has ended; `none` while it is still in a call.
unfoldable pub written : Os → Bytes → Owner → Bytes × Option Bool → Option (Bytes × List Effect)
unfolding seal
written os path o (out, none) = none
written os path o (out, some false) = some ([], fill out ∷ close ∷ unlink path ∷ [])
written os path o (out, some true) = some ((seal os path o).0, fill out ∷ (seal os path o).1)

-- The flags for a new file.
pub open_flags : OpenFlags
open_flags = record { o_creat = true; o_excl = true; o_nofollow = true; o_cloexec = true }

-- The directory is there.
unfoldable pub create_file : Os → Bytes → Bytes → Owner → Option (Bytes × List Effect)
unfolding open_flags
create_file os path content o =
    if os.open_ok path open_flags o.mode
    then (elim (written os path o (write_all os.writes content)) [
      | none ↦ none
      | some (p, es) ↦ some (p, create path open_flags o.mode ∷ es)
    ])
    else some ([], [])

-- The path of the new file, or the empty text; and what was done.
unfoldable pub safe_write_exclusive :
    Os → Bytes → Bytes → Bytes → Owner → Option (Bytes × List Effect)
safe_write_exclusive os dir name content o =
    let (ok, es) = ensure_private_dir os dir o.uid in
    if is_empty dir || bad_name name
    then some ([], [])
    else if ok
    then (elim (create_file os (dir ++ slash ∷ name) content o) [
      | none ↦ none
      | some (p, fs) ↦ some (p, es ++ fs)
    ])
    else some ([], es)
