-- ===== src/Pmix/Server.antt =====
-- The commands of swm-pmix: the loop over the lines of the standard input in `main` of
-- c_src/pmix/pmix_server_main.cpp, and what it does with the PMIx library, which is not part of the
-- repository.
pub mod Life
use swm_core.Prelude.{
  ℕ, zero, suc, ◌-◌, ◌%◌, ◌^◌, ◌||◌, ◌<◌, Bool, true, false, List, [], ◌∷◌, ◌++◌, is_empty, drop,
  Option, none, some, ltb, ◌==◌, if◌then◌else◌, Bytes, codes, bytes_eq, starts_with, ℤ, pos, negsuc,
}
use swm_core.Numbers.{print_nat, print_int, stoi, stoul}
use swm_core.Pmix.Register.{Register, rank_list, ranks_of, read_register}
use swm_core.Pmix.Fence.{Fences, Event, line, Contribution, handle_fence_out}

-- A call of the library that is waited for: `nlocalprocs`, the sizes and the peers of a namespace, or a
-- rank. `wait_call` has the answer PMIX_SUCCESS or another.
pub data LibCall : Type 0 where
  deregister_nspace setup_application setup_local_support : LibCall
  register_nspace : ℕ → ℕ → ℕ → Bytes → LibCall
  register_client : ℕ → LibCall

-- The globals and the calls that were made, the last one first.
pub record Server : Type 0 where
  pub fences : Fences
  pub nspace_registered : Bool
  pub calls : List LibCall

-- What a process of the job is given: the server's URI, and the variables.
pub record ForkEnv : Type 0 where
  pub uri : Bytes
  pub vars : List (Bytes × Bytes)

-- The text before the first `=` and behind it.
unfoldable cut : Bytes → Option (Bytes × Bytes)
cut [] = none
cut (c ∷ s) = elim (cut s) [
  | none ↦ if c == b'=' then some ([], s) else none
  | some (k, v) ↦ if c == b'=' then some ([], s) else some (c ∷ k, v)
]

abbrev uri_name : Bytes
uri_name = codes "PMIX_SERVER_URI"

unfoldable fork_vars : List Bytes → ForkEnv → ForkEnv
unfolding cut
fork_vars [] f = f
fork_vars (e ∷ es) f = elim (cut e) [
  | none ↦ fork_vars es f
  | some (k, v) ↦
      let uri = if starts_with uri_name k then (if is_empty f.uri then v else f.uri) else f.uri in
      fork_vars es (record { uri = uri; vars = f.vars ++ (k, v) ∷ [] })
]

abbrev has_uri : List (Bytes × Bytes) → Bool
has_uri [] = false
has_uri ((k, v) ∷ kvs) = bytes_eq k uri_name || has_uri kvs

-- The environment that the library gives for a rank; `none` is a failure or the null pointer.
unfoldable server_fork_env : Option (List Bytes) → ForkEnv
unfolding fork_vars
server_fork_env none = record { uri = []; vars = [] }
server_fork_env (some env) =
    let f = fork_vars env (record { uri = []; vars = [] }) in
    if is_empty f.uri || has_uri f.vars
    then f
    else record f { vars = f.vars ++ (uri_name, f.uri) ∷ [] }

unfoldable env_lines : List (Bytes × Bytes) → List Event
env_lines [] = line (codes "FORK_ENV_DONE") ∷ []
env_lines ((k, v) ∷ kvs) = line (codes "ENV " ++ (k ++ (b'=' ∷ v))) ∷ env_lines kvs

-- A rank as an `int`.
abbrev as_int : ℕ → ℤ
as_int n = if ltb n (2 ^ 31) then pos n else negsuc (2 ^ 32 - 1 - n)

-- What a line asks for; `unread` is a CONTRIB_ID without a number.
pub data Command : Type 0 where
  register : Register → Command
  contrib_id : ℤ → Command
  setup_fork : ℕ → Command
  fence_out : Bytes → Command
  stop_server ping unread other : Command

abbrev pub stops : Command → Bool
stops stop_server = true
stops _ = false

-- The rank of SETUP_FORK is 0 where it is no number.
fork_rank : Bytes → ℕ
fork_rank s = elim (stoul s) [ none ↦ 0 | some (n, rest) ↦ n % 2 ^ 32 ]

unfoldable read_command : Bytes → Command
unfolding fork_rank
read_command l =
    if starts_with (codes "REGISTER ") l
    then register (read_register (drop 9 l))
    else if starts_with (codes "CONTRIB_ID ") l
    then elim (stoi (drop 11 l)) [ none ↦ unread | some z ↦ contrib_id z ]
    else if starts_with (codes "SETUP_FORK ") l
    then setup_fork (fork_rank (drop 11 l))
    else if starts_with (codes "FENCE_OUT ") l
    then fence_out l
    else if bytes_eq l (codes "STOP")
    then stop_server
    else if bytes_eq l (codes "PING")
    then ping
    else other

-- `succeeds` is the answer of the library to a call behind those that were made; `env` is the
-- environment for a rank.
module _ (succeeds : List LibCall → LibCall → Bool)
    (env : List LibCall → ℕ → Option (List Bytes)) where
  unfoldable lib : LibCall → Server → Bool × Server
  lib c s = (succeeds s.calls c, record s { calls = c ∷ s.calls })

  unfoldable register_clients : List ℕ → Server → Bool × Server
  unfolding lib
  register_clients [] s = (true, s)
  register_clients (r ∷ rs) s =
      let (ok, t) = lib (register_client r) s in
      let (oks, u) = register_clients rs t in (if ok then oks else false, u)

  -- An earlier registration is taken back first.
  unfoldable deregistered : Server → Server
  unfolding lib
  deregistered s =
      if s.nspace_registered
      then record (lib deregister_nspace s).1 { nspace_registered = false }
      else s

  -- The sizes have 32 bits. A failed setup is only reported.
  unfoldable register_job : ℕ → ℕ → Bytes → Server → Bool × Server
  unfolding lib deregistered
  register_job nprocs local peers s =
      let size =
        if local == 0 || ltb nprocs local then (if nprocs == 0 then 1 else nprocs) else local in
      let list = if is_empty peers then rank_list size 0 else peers in
      let (ok, t) =
        lib (register_nspace (size % 2 ^ 32) (nprocs % 2 ^ 32) (size % 2 ^ 32) list)
          (deregistered s) in
      if ok
      then (let (app, u) = lib setup_application (record t { nspace_registered = true }) in
          let (support, v) = lib setup_local_support u in (true, v))
      else (false, t)

  unfoldable do_register : Register → Server → Server × List Event
  unfolding register_job register_clients
  do_register r s =
      let (ok, t) = register_job r.nprocs r.local r.peers s in
      let (oks, u) = register_clients (ranks_of r.peers) t in
      let done =
        codes "OK REGISTER "
        ++ (print_nat r.nprocs
            ++ (codes " local=" ++ (print_nat r.local ++ (codes " peers=" ++ r.peers)))) in
      if ok
      then (u, line (if oks then done else codes "ERR REGISTER") ∷ [])
      else (t, line (codes "ERR REGISTER") ∷ [])

  unfoldable do_setup_fork : ℕ → Server → Server × List Event
  unfolding register_clients env_lines server_fork_env
  do_setup_fork rank s =
      let (ok, t) =
        register_clients (rank ∷ [])
          (record s { fences = record (s.fences) { contrib = as_int rank } }) in
      let f = server_fork_env (env t.calls rank) in
      let head = codes "OK SETUP_FORK rank=" ++ (print_nat rank ++ (codes " uri=" ++ f.uri)) in
      (t, line head ∷ env_lines f.vars)

  module _ (pmix_success pmix_error : ℤ) where
    -- A command but STOP.
    unfoldable obey : Command → Server → Server × List Event
    unfolding do_register do_setup_fork
    obey (register r) s = do_register r s
    obey (contrib_id z) s = (
      record s { fences = record (s.fences) { contrib = z } },
      line (codes "OK CONTRIB_ID " ++ print_int z) ∷ [],
    )
    obey (setup_fork rank) s = do_setup_fork rank s
    obey (fence_out l) s =
        let (f, es) = handle_fence_out pmix_success pmix_error s.fences l in
        (record s { fences = f }, es)
    obey stop_server s = (s, [])
    obey ping s = (s, line (codes "PONG") ∷ [])
    obey unread s = (s, line (codes "ERR CONTRIB_ID") ∷ [])
    obey other s = (s, [])
