-- ===== src/Task/Reply.antt =====
-- How swm-task waits for the porter's answer: `read_line` and the reply loop of `run_via_porter`.
use swm_core.Prelude.{
  ℕ, zero, suc, List, [], ◌∷◌, ◌++◌, drop, is_empty, length, Option, none, some, ◌==◌,
  if◌then◌else◌, Bytes, codes, starts_with, ℤ, pos,
}
use swm_core.Numbers.{stoi}
use swm_core.Ctrl.{newline}

-- The result of reading one byte; `interrupted` is -1 with EINTR, `failed` any other error.
pub data ReadResult : Type 0 where
  got : ℕ → ReadResult
  eof interrupted failed : ReadResult

-- `waiting` while the loop is still in a call; `closed` is the answer false.
pub data LineResult : Type 0 where
  line : Bytes → List ReadResult → LineResult
  closed waiting : LineResult

unfoldable pub read_line : List ReadResult → Bytes → LineResult
read_line [] out = waiting
read_line (got c ∷ rs) out =
    let more = read_line rs (out ++ c ∷ []) in if c == newline then line out rs else more
read_line (eof ∷ rs) out = if is_empty out then closed else line out rs
read_line (interrupted ∷ rs) out = read_line rs out
read_line (failed ∷ rs) out = closed

-- The exit code that a line decides; `none` goes on to the next line.
unfoldable pub verdict : Bytes → Option ℤ
verdict l =
    if starts_with (codes "OK ") l
    then none
    else if starts_with (codes "DONE ") l
    then elim (stoi (drop 5 l)) [ none ↦ some (pos 1) | some z ↦ some z ]
    else if starts_with (codes "ERR ") l
    then some (pos 1)
    else none

-- The loop, with one unit of fuel for each line.
unfoldable pub await_lines : ℕ → List ReadResult → Option ℤ
await_lines zero rs = none
await_lines (suc f) rs = elim (read_line rs []) [
  | waiting ↦ none
  | closed ↦ some (pos 1)
  | line l rest ↦ elim (verdict l) [ none ↦ await_lines f rest | some z ↦ some z ]
]

-- A line takes at least one result, so the results bound the lines.
unfoldable pub await_reply : List ReadResult → Option ℤ
unfolding await_lines read_line verdict
await_reply rs = await_lines (suc (length rs)) rs
