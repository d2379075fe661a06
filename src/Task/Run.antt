-- ===== src/Task/Run.antt =====
-- `main` and `run_via_porter` of swm-task, over the results of the system calls.
use swm_core.Prelude.{
  ℕ, Bool, true, false, ◌&&◌, not, List, [], is_empty, length, Option, none, some, ltb,
  if◌then◌else◌, Bytes, ℤ, pos,
}
use swm_core.WriteLoop.{WriteResult, write_all}
use swm_core.Task.{spawn_request}
use swm_core.Task.Args.{help, no_command, unknown, run, read_args}
use swm_core.Task.Reply.{ReadResult, await_reply}

-- `ctrl` is SWM_PORTER_CTRL. The flags tell whether socket(2) and connect(2) succeed.
pub record Env : Type 0 where
  pub ctrl : Option Bytes
  pub has_socket : Bool
  pub connects : Bool
  pub writes : List WriteResult
  pub reads : List ReadResult

-- What was written to the socket, and the exit code; `none` while the process waits.
pub record Outcome : Type 0 where
  pub sent : Bytes
  pub code : Option ℤ

abbrev pub exits : ℕ → Outcome
exits n = record { sent = []; code = some (pos n) }

-- The bytes of `sun_path`.
abbrev pub sun_path_size : ℕ
sun_path_size = 108

unfoldable pub connect_porter_ctrl : Env → Bytes → Bool
connect_porter_ctrl e path = e.has_socket && (ltb (length path) sun_path_size && e.connects)

unfoldable pub after_write : Env → Bytes × Option Bool → Outcome
after_write e (out, none) = record { sent = out; code = none }
after_write e (out, some false) = record { sent = out; code = some (pos 2) }
after_write e (out, some true) = record { sent = out; code = await_reply e.reads }

unfoldable pub run_via_porter : Env → Bool → List Bytes → Outcome
unfolding after_write connect_porter_ctrl
run_via_porter e pmix argv = elim e.ctrl [
  | none ↦ exits 2
  | some path ↦
      if not (is_empty path) && connect_porter_ctrl e path
      then after_write e (write_all e.writes (spawn_request pmix argv))
      else exits 2
]

unfoldable main : Env → List Bytes → Outcome
unfolding run_via_porter
main e args = elim (read_args false args) [
  | help ↦ exits 0
  | no_command ↦ exits 2
  | unknown a ↦ exits 2
  | run pmix argv ↦ run_via_porter e pmix argv
]
