-- ===== src/Ctrl/Write.antt =====
-- A line for a client of the control socket: `porter_ctrl_write_line` of
-- c_src/porter/wm_porter_ctrl.cpp, over the results of write(2).
use swm_core.Prelude.{
  ◌+◌, ◌≤◌, Bool, true, List, [], ◌∷◌, ◌++◌, Option, some, ◌==◌, if◌then◌else◌, Bytes, Lacks, All,
  length, length-append, ◌≡◌, refl, ap, arith,
}
use swm_core.WriteLoop.{WriteResult, write_all, GetsOn, writes, write_all_total}
use swm_core.Ctrl.{newline}

-- The text with a newline at its end.
unfoldable with_newline : Bytes → Bytes
with_newline [] = newline ∷ []
with_newline (c ∷ []) = if c == newline then c ∷ [] else c ∷ newline ∷ []
with_newline (c ∷ d ∷ s) = c ∷ with_newline (d ∷ s)

-- What reaches the client, and the answer.
pub porter_ctrl_write_line : List WriteResult → Bytes → Bytes × Option Bool
porter_ctrl_write_line ws line = write_all ws (with_newline line)

with_newline-Lacks : (s : Bytes) → Lacks newline s → with_newline s ≡ s ++ newline ∷ []
unfolding with_newline
with_newline-Lacks [] h = refl
with_newline-Lacks (c ∷ []) (h, hs) = ground arith
with_newline-Lacks (c ∷ d ∷ s) (h, hs) = ap (λ t. c ∷ t) (with_newline-Lacks (d ∷ s) hs)

-- If no call of write(2) fails and there are as many writing calls as the line has bytes and one more,
-- then a line with no newline in it reaches the client whole, with one newline at its end, however
-- the calls split it.
pub porter_ctrl_write_line_total :
    (ws : List WriteResult) (line : Bytes)
    → All GetsOn ws
    → Lacks newline line
    → length line + 1 ≤ writes ws
    → porter_ctrl_write_line ws line ≡ (line ++ newline ∷ [], some true)
unfolding porter_ctrl_write_line
porter_ctrl_write_line_total ws line h no_newline enough =
    rw (with_newline-Lacks line no_newline) (
      write_all_total ws (line ++ newline ∷ []) h
        (omega (arith, length-append line (newline ∷ []))))
