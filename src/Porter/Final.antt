-- ===== src/Porter/Final.antt =====
-- The last word on a job.
use swm_core.Prelude.{
  ℕ, ◌+◌, Bool, List, [], ◌∷◌, ◌++◌, map, Option, none, some, ◌==◌, if◌then◌else◌, ◌≡◌, refl, ◌∙◌,
  ap, arith, Bytes, codes, bytes_eq, inl, inr,
}
use swm_core.Ei.{Ei}
use swm_core.Ei.Item.{Item, str}
use swm_core.Relay.{Event, reply, request, try_read_ctrl_client}
use swm_core.Relay.Reply.{try_read_stdin_reply}
use swm_core.Metrics.Window.{Doubles}
use swm_core.Metrics.Report.{Report}
use swm_core.Metrics.Cycle.{maybe_send, flush}
use swm_core.Porter.Rounds.{Wait-cases, Next-cases}
use swm_core.Prelude.{Option-cases, Bool-cases}
use swm_core.Porter.Info.{process_info, send_process_info}
use swm_core.Porter.{
  Round, Setup, finished_info, accept, Output, event, info, metrics, State, Next, goes_on, stops,
  End, exits, waits, awaits_child, killed, wait_returns, deliver, sent_or_exit, look_at_child, step,
  loop,
}

-- The state in a process info, its first string.
abbrev pub state_of : List Item → Bytes
state_of [] = []
state_of (str s ∷ is) = s
state_of (_ ∷ is) = state_of is

abbrev pub is_final : List Item → Bool
is_final i = bytes_eq (state_of i) (codes "F")

-- The final infos that an end of the porter stands for.
abbrev pub final_infos : End → ℕ
final_infos (exits n) = if n == 0 then 1 else 0
final_infos awaits_child = 1
final_infos waits = 0
final_infos killed = 0

abbrev pub ends : Option End → ℕ
ends none = 0
ends (some e) = final_infos e

module _ (F : Doubles) where
  -- The process infos with the state FINISHED.
  abbrev pub finals : List (Output F) → ℕ
  finals [] = 0
  finals (event e ∷ os) = finals os
  finals (info i ∷ os) = (if is_final i then 1 else 0) + finals os
  finals (metrics m ∷ os) = finals os

  finals-append : (os ps : List (Output F)) → finals (os ++ ps) ≡ finals os + finals ps
  finals-append [] ps = omega arith
  finals-append (event e ∷ os) ps = finals-append os ps
  finals-append (info i ∷ os) ps = omega (arith, finals-append os ps)
  finals-append (metrics m ∷ os) ps = finals-append os ps

  finals-deliver : (gone : ℕ → Bool) (es : List Event) → finals (deliver F gone es).0 ≡ 0
  unfolding deliver
  finals-deliver gone [] = refl
  finals-deliver gone (reply fd text ∷ es) = ground (arith, finals-deliver gone es)
  finals-deliver gone (request ref s ∷ es) = finals-deliver gone es

  finals-metrics : (ms : List (Report F)) → finals (map metrics ms) ≡ 0
  finals-metrics [] = refl
  finals-metrics (m ∷ ms) = finals-metrics ms

  abbrev due : Next F → ℕ
  due (goes_on s) = 0
  due (stops e) = final_infos e

  look-finals :
      (job : Setup) (s : State F) (r : Round)
      → finals (look_at_child F job s r).0 ≡ due (look_at_child F job s r).1
  unfolding look_at_child send_process_info sent_or_exit process_info
  look-finals job s r = elim (Wait-cases r.waited) [
    | inl w ↦ rw (w, look_at_child) (ground arith)
    | inr (inl w) ↦
        let m = maybe_send F r.sees job.metrics_cfg s.metrics_state r.now_ms in
        rw (w, look_at_child) (ground (arith, finals-metrics m.sent))
    | inr (inr (st, w)) ↦
        let m = flush F r.sees job.metrics_cfg s.metrics_state r.now_ms in
        let out =
          (sent_or_exit F (send_process_info r.encodes (finished_info job.child_pid st))
            (stops (if wait_returns st then exits 0 else awaits_child))).0 in
        rw (w, look_at_child)
          (ground (arith, finals-append (map metrics m.sent) out, finals-metrics m.sent))
  ]

  module _ (E : Ei) (make_ref : ℕ → Bytes) (sends : ℕ → Bool) where
    step-finals :
        (job : Setup) (s : State F) (r : Round)
        → finals (step F E make_ref sends job s r).0 ≡ due (step F E make_ref sends job s r).1
    unfolding step
    step-finals job s r =
        let (relay, cs) =
          try_read_ctrl_client make_ref sends (accept job s.relay r.accepted) r.from_client in
        let first = finals-deliver r.gone cs in
        elim (Bool-cases (deliver F r.gone cs).1) [
          | inr dead ↦ rw dead first
          | inl served ↦ elim (Option-cases (try_read_stdin_reply E relay r.from_stdin)) [
            | inl e ↦ rw (served, e, step) first
            | inr ((relay', es, rest), e) ↦
                let s' : State F = record { relay = relay'; metrics_state = s.metrics_state } in
                let out = (look_at_child F job s' r).0 in
                let (os, answered) = deliver F r.gone es in
                let second = finals-deliver r.gone es in
                elim (Bool-cases answered) [
                  | inr dead ↦
                      rw (served, e, step, dead)
                        (omega (arith, finals-append (deliver F r.gone cs).0 os, first, second))
                  | inl heard ↦
                      rw (served, e, step, heard)
                        (omega (
                          arith,
                          finals-append (deliver F r.gone cs).0 (os ++ out),
                          finals-append os out,
                          first,
                          second,
                          look-finals job s' r,
                        ))
                ]
          ]
        ]

    -- In every run, however its calls fail, the porter sends a process info with the state FINISHED
    -- exactly once if it exits with 0 or waits for a child that is stopped, and never if it exits with
    -- another code, is killed by a write to a client that is gone, waits for the rest of a frame, or
    -- goes on.
    pub loop-finals :
        (job : Setup) (s : State F) (rs : List Round)
        → finals (loop F E make_ref sends job s rs).0 ≡ ends (loop F E make_ref sends job s rs).1
    unfolding loop
    loop-finals job s [] = refl
    loop-finals job s (r ∷ rs) =
        let now = step-finals job s r in
        elim (Next-cases (step F E make_ref sends job s r).1) [
          | inl (s', e) ↦
              rw (e, loop)
                (omega (
                  arith,
                  now,
                  ap due e,
                  finals-append (step F E make_ref sends job s r).0
                      (loop F E make_ref sends job s' rs).0,
                  loop-finals job s' rs,
                ))
          | inr (end, e) ↦ rw (e, loop) (now ∙ ap due e)
        ]
