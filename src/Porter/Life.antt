-- ===== src/Porter/Life.antt =====
-- What the Erlang side sees of a job: its process infos, and the end of the porter.
use swm_core.Prelude.{
  ℕ, zero, suc, Bool, List, [], ◌∷◌, All, Option, none, some, ◌≡◌, refl, sym, ◌∙◌, ap, Bytes, inl,
  inr,
}
use swm_core.Ei.{Ei}
use swm_core.Metrics.Window.{Doubles}
use swm_core.Metrics.Cycle.{maybe_send}
use swm_core.Porter.Info.{process_info}
use swm_core.Porter.Rounds.{
  Wait-cases, process_infos, Serves, look-running, look-wait_error, look-ended, step-look,
  loop-stops, loop-goes_on,
}
use swm_core.Porter.{
  Status, Wait, wait_error, running, ended, Round, Setup, finished_info, State, loop, exited,
  signaled, stopped, End, exits, awaits_child, wait_returns,
}
use swm_core.Prelude.{Bool, true, false, if◌then◌else◌, ℤ, pos, negsuc, codes, ◌%◌, ◌^◌}
use swm_core.Ei.Item.{Item, version, tuple_header, atom, str, ulong, long}

-- A process info, field by field.
abbrev pub process_items : ℕ → Bytes → ℤ → ℤ → Bytes → List Item
process_items pid state code sig comment =
    version
    ∷ tuple_header 6
    ∷ atom (codes "process")
    ∷ ulong (pid % 2 ^ 64)
    ∷ str state
    ∷ long code
    ∷ long sig
    ∷ str comment
    ∷ []

abbrev pub error_items : ℕ → List Item
error_items pid = process_items pid (codes "E") (negsuc 0) (negsuc 0) (codes "waitpid error")

abbrev pub running_items : ℕ → List Item
running_items pid = process_items pid (codes "R") (negsuc 0) (negsuc 0) []

-- The exit code of a child that exited, or the signal that ended or stopped it.
abbrev pub finished_items : ℕ → Status → List Item
finished_items pid (exited n) = process_items pid (codes "F") (pos n) (pos 0) []
finished_items pid (signaled s) = process_items pid (codes "F") (negsuc 0) (pos s) []
finished_items pid (stopped s later) = process_items pid (codes "F") (negsuc 0) (pos s) []

-- How the porter ends behind a child: behind one that is stopped for good it does not.
abbrev pub end_behind : Status → End
end_behind (exited n) = exits 0
end_behind (signaled s) = exits 0
end_behind (stopped s true) = exits 0
end_behind (stopped s false) = awaits_child

finished_items_lem :
    (pid : ℕ) (st : Status) → process_info (finished_info pid st) ≡ finished_items pid st
unfolding process_info
finished_items_lem pid (exited n) = refl
finished_items_lem pid (signaled s) = refl
finished_items_lem pid (stopped s later) = refl

end_behind_lem : (st : Status) → (if wait_returns st then exits 0 else awaits_child) ≡ end_behind st
end_behind_lem (exited n) = refl
end_behind_lem (signaled s) = refl
end_behind_lem (stopped s true) = refl
end_behind_lem (stopped s false) = refl

-- A job as the Erlang side sees it: a process info for each look at the child, the last of them with
-- the child's end, and nothing behind it; and the end of the porter.
pub life : ℕ → List Wait → List (List Item) × Option End
life pid [] = ([], none)
life pid (wait_error ∷ ws) = (error_items pid ∷ [], some (exits 1))
life pid (running ∷ ws) = let (is, end) = life pid ws in (running_items pid ∷ is, end)
life pid (ended st ∷ ws) = (finished_items pid st ∷ [], some (end_behind st))

-- What waitpid(2) says, round by round.
abbrev pub waits_of : List Round → List Wait
waits_of [] = []
waits_of (r ∷ rs) = r.waited ∷ waits_of rs

-- The child runs for some rounds, and ends.
abbrev pub runs_then : ℕ → Status → List Wait → List Wait
runs_then zero st ws = ended st ∷ ws
runs_then (suc n) st ws = running ∷ runs_then n st ws

abbrev pub infos_until : ℕ → ℕ → Status → List (List Item)
infos_until pid zero st = finished_items pid st ∷ []
infos_until pid (suc n) st = running_items pid ∷ infos_until pid n st

module _ (F : Doubles) (E : Ei) (make_ref : ℕ → Bytes) (sends : ℕ → Bool) where
  -- If the encoder gets its memory in every round, no round waits for the rest of a reply frame and no
  -- client that is written to is gone, the process infos that the porter writes, field by field, and
  -- its end are those of the life of the job, and depend on nothing else but what waitpid(2) says: not
  -- on the lines of the clients, the replies, the metrics or the clock. Behind a child that is only
  -- stopped the porter waits until that child ends.
  pub loop-life :
      (job : Setup) (s : State F) (rs : List Round)
      → All Serves rs
      → (process_infos F (loop F E make_ref sends job s rs).0
          ≡ (life job.child_pid (waits_of rs)).0)
        × ((loop F E make_ref sends job s rs).1 ≡ (life job.child_pid (waits_of rs)).1)
  unfolding life process_info
  loop-life job s [] hs = unfold loop in (refl, refl)
  loop-life job s (r ∷ rs) (h, hs) =
      let told = λ (w : Wait). (life job.child_pid (w ∷ waits_of rs)).0 in
      let leaves = λ (w : Wait). (life job.child_pid (w ∷ waits_of rs)).1 in
      let (relay, seen) = step-look F E make_ref sends job s r h in
      elim (Wait-cases r.waited) [
        | inl w ↦
            let look = look-wait_error F job (record s { relay = relay }) r w h.info_encodes in
            let (is, end) = loop-stops F E make_ref sends job s r rs _ _ (seen ∙ look) in
            (is ∙ ap told (sym w), end ∙ ap leaves (sym w))
        | inr (inl w) ↦
            let look =
              look-running F job (record s { relay = relay }) r w h.info_encodes h.metrics_encode in
            let sent = maybe_send F r.sees job.metrics_cfg s.metrics_state r.now_ms in
            let s' : State F = record { relay = relay; metrics_state = sent.state } in
            let (is, end) = loop-goes_on F E make_ref sends job s s' r rs _ (seen ∙ look) in
            let (js, end') = loop-life job s' rs hs in
            (
              is ∙ (ap (λ x. running_items job.child_pid ∷ x) js ∙ ap told (sym w)),
              end ∙ (end' ∙ ap leaves (sym w)),
            )
        | inr (inr (st, w)) ↦
            let look = look-ended F job (record s { relay = relay }) r st w h.info_encodes in
            let (is, end) = loop-stops F E make_ref sends job s r rs _ _ (seen ∙ look) in
            (
              is ∙ (ap (λ x. x ∷ []) (finished_items_lem job.child_pid st) ∙ ap told (sym w)),
              end ∙ (ap some (end_behind_lem st) ∙ ap leaves (sym w)),
            )
      ]
