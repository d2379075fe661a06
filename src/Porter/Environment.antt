-- ===== src/Porter/Environment.antt =====
-- What the porter prepares for the job's process: `set_env` and its helpers, and the path of a log
-- file, in c_src/porter/porter.cpp. An environment is the list of its variables.
pub mod Path
pub mod Precedence
use swm_core.Prelude.{
  ℕ, ◌&&◌, Bool, true, false, not, List, [], ◌∷◌, ◌++◌, is_empty, length, map, Option, none, some,
  ◌==◌, if◌then◌else◌, Bytes, codes, bytes_eq, until, find_after, join,
}
use swm_core.Numbers.{print_nat}
use swm_core.Ei.{Ei}
use swm_core.Decode.{to_str}
use swm_core.Entity.Resource.{Resource, Resources, resource_of}
use swm_core.Entity.Job.{Job}
use swm_core.Porter.Text.{rfind, replace_first}

abbrev pub Environment : Type 0
Environment = List (Bytes × Bytes)

-- `getenv`.
abbrev pub lookup : Bytes → Environment → Option Bytes
lookup k [] = none
lookup k ((j, v) ∷ e) = let later = lookup k e in if bytes_eq j k then some v else later

abbrev replaced : Bytes → Bytes → Environment → Environment
replaced k v [] = (k, v) ∷ []
replaced k v ((j, w) ∷ e) =
    let later = (j, w) ∷ replaced k v e in if bytes_eq j k then (k, v) ∷ e else later

abbrev pub has_equals : Bytes → Bool
has_equals [] = false
has_equals (c ∷ s) = let later = has_equals s in if c == b'=' then true else later

-- `setenv` with overwriting: a name that is empty or has `=` in it is refused. Strings end at their
-- first zero byte.
unfoldable setenv : Bytes → Bytes → Environment → Environment
setenv name value e =
    let k = until 0 name in
    if is_empty k then e else if has_equals k then e else replaced k (until 0 value) e

unfoldable set_all : List (Bytes × Bytes) → Environment → Environment
unfolding setenv
set_all [] e = e
set_all ((k, v) ∷ kvs) e = set_all kvs (setenv k v e)

-- The members of `passwd` that are used.
pub record Passwd : Type 0 where
  pub pw_name : Bytes
  pub pw_dir : Bytes

abbrev pub yes_no : Bytes → Bytes
yes_no s = if bytes_eq s (codes "true") then codes "YES" else codes "NO"

abbrev pub swm_bin : Bytes
swm_bin = codes "/opt/swm/current/bin"

-- `exe` is what readlink(2) gives for /proc/self/exe, if it gives more than nothing.
pub swm_path_dirs : Option Bytes → List Bytes
swm_path_dirs none = swm_bin ∷ []
swm_path_dirs (some exe) = elim (rfind b'/' (until 0 exe)) [
  | none ↦ swm_bin ∷ []
  | some (dir, rest) ↦
      if is_empty dir
      then swm_bin ∷ []
      else if bytes_eq dir swm_bin
      then swm_bin ∷ []
      else swm_bin ∷ dir ∷ []
]

abbrev colon : Bytes → Bytes → Bytes
colon path more = if is_empty path then more else path ++ b':' ∷ more

unfoldable add_dirs : Bytes → List Bytes → Bytes
add_dirs path [] = path
add_dirs path (d ∷ ds) = add_dirs (colon path d) ds

-- `PATH`: the working directory, the directories, and the path that is there.
pub job_path : Bytes → List Bytes → Option Bytes → Bytes
unfolding add_dirs
job_path cwd dirs old =
    let path = add_dirs cwd dirs in
    elim old [ none ↦ path | some s ↦ if is_empty s then path else colon path s ]

-- The variables that are set last.
unfoldable computed : Bytes → Bytes → List (Bytes × Bytes)
computed cwd path = (codes "PATH", path) ∷ (if is_empty cwd then [] else (codes "PWD", cwd) ∷ [])

module _ (E : Ei) where
  -- The first property `value` whose term is a text that can be read.
  unfoldable port_value : List (Bytes × Option E.Buf) → Option Bytes
  port_value [] = none
  port_value ((name, none) ∷ ps) = port_value ps
  port_value ((name, some c) ∷ ps) =
      let later = port_value ps in
      let r = to_str E c 0 [] in
      if bytes_eq name (codes "value") && r.ok then some r.value else later

  unfoldable ports_from_request : List (Resource E.Buf) → Bytes
  unfolding port_value
  ports_from_request [] = []
  ports_from_request (resource_of name count hooks properties prices usage_time inner ∷ rs) =
      let later = ports_from_request rs in
      let found = port_value properties in
      if bytes_eq name (codes "ports") then (elim found [ none ↦ later | some v ↦ v ]) else later

  -- The variables that are set behind those of the job, in their order.
  unfoldable exports : Job E.Buf → Bytes → List (Bytes × Bytes)
  unfolding ports_from_request
  exports job ctrl_path =
      (codes "SWM_JOB_ID", job.id)
      ∷ (codes "SWM_JOB_NAME", job.name)
      ∷ (codes "SWM_JOB_ACCOUNT", job.account_id)
      ∷ (codes "SWM_JOB_NODES", join b',' job.nodes)
      ∷ (codes "SWM_JOB_NODES_NUMBER", print_nat (length job.nodes))
      ∷ (codes "SWM_JOB_COMMENT", job.comment)
      ∷ (codes "SWM_JOB_INPUT_FILES", join b',' job.input_files)
      ∷ (codes "SWM_JOB_OUTPUT_FILES", join b',' job.output_files)
      ∷ (codes "SWM_JOB_PORTS", ports_from_request job.request)
      ∷ (codes "SWM_RELOCATABLE", yes_no job.relocatable)
      ∷ (codes "SWM_KEEP_RESOURCES", yes_no job.keep_resources)
      ∷ (if is_empty ctrl_path then [] else (codes "SWM_PORTER_CTRL", ctrl_path) ∷ [])

  abbrev named_only : List (Bytes × Bytes) → List (Bytes × Bytes)
  named_only [] = []
  named_only ((k, v) ∷ kvs) =
      let rest = named_only kvs in if is_empty k then rest else (k, v) ∷ rest

  -- What is set first: the user's variables, and those of the job.
  abbrev pub own : Passwd → Job E.Buf → List (Bytes × Bytes)
  own pw job = (codes "HOME", pw.pw_dir) ∷ (codes "USER", pw.pw_name) ∷ named_only job.env

  -- `PATH` is read when the job's own variables are set.
  pub set_env : Passwd → Job E.Buf → Bytes → Option Bytes → Environment → Environment
  unfolding set_all exports swm_path_dirs job_path computed
  set_env pw job ctrl_path exe e =
      let f = set_all (exports job ctrl_path) (set_all (own pw job) e) in
      let path = job_path job.workdir (swm_path_dirs exe) (lookup (codes "PATH") f) in
      set_all (computed job.workdir path) f

-- The path in `open_job_log_fd`: `id` for the first `%j`, and the number of the task, if there is one,
-- before the last dot.
unfoldable log_path : Bytes → Bytes → Option Bytes → Bytes
log_path path id task_num =
    let p = replace_first (codes "%j") id path in
    let tail = λ (n : Bytes). codes "-task" ++ n in
    elim task_num [
      | none ↦ p
      | some n ↦ if is_empty n then p else (elim (rfind b'.' p) [
        | none ↦ p ++ tail n
        | some (front, back) ↦ front ++ tail n ++ back
      ])
    ]
