-- ===== src/Porter/Rounds.antt =====
-- What one round of the porter's loop does for the Erlang side.
use swm_core.Prelude.{
  if◌then◌else◌, ℕ, Bool, true, false, List, [], ◌∷◌, ◌++◌, append-nil, map, some, ◌≡◌, ◌≢◌, ◌⊎◌,
  refl, sym, ◌∙◌, ap, arith, Bytes, ℤ, inl, inr,
}
use swm_core.Ei.{Ei}
use swm_core.Ei.Item.{Item}
use swm_core.Relay.{Event, reply, request, Relay, ReadCall, try_read_ctrl_client}
use swm_core.Relay.Stdin.{Reading, nothing, frame, waiting, read_frame}
use swm_core.Relay.Reply.{handle_reply, try_read_stdin_reply}
use swm_core.Metrics.Config.{MetricsConfig}
use swm_core.Metrics.Window.{Doubles}
use swm_core.Metrics.Sample.{MetricsState}
use swm_core.Metrics.Report.{Report, send_aggregated}
use swm_core.Metrics.Cycle.{Surroundings, flush_window, sampled, started, maybe_send, flush}
use swm_core.Porter.Info.{process_info, send_process_info}
use swm_core.Porter.{
  Status, Wait, wait_error, running, ended, Round, Setup, error_info, running_info, finished_info,
  accept, Output, event, info, metrics, State, Next, goes_on, stops, End, exits, awaits_child,
  wait_returns, deliver, sent_or_exit, look_at_child, step, loop,
}

pub Wait-cases : (w : Wait) → (w ≡ wait_error) ⊎ ((w ≡ running) ⊎ ((st : Status) × (w ≡ ended st)))
Wait-cases wait_error = inl refl
Wait-cases running = inr (inl refl)
Wait-cases (ended st) = inr (inr (st, refl))

pub Next-cases :
    {F : Doubles} (x : Next F) → ((s : State F) × (x ≡ goes_on s)) ⊎ ((e : End) × (x ≡ stops e))
Next-cases (goes_on s) = inl (s, refl)
Next-cases (stops e) = inr (e, refl)

Reading-cases :
    (x : Reading)
    → x ≢ waiting
    → ((rest : List ReadCall) × (x ≡ nothing rest))
      ⊎ ((buf : Bytes) × (rest : List ReadCall) × (x ≡ frame buf rest))
Reading-cases (nothing rest) h = inl (rest, refl)
Reading-cases (frame buf rest) h = inr (buf, rest, refl)
Reading-cases waiting h = absurd (h refl)

-- A round in which the encoder gets its memory, the standard input gives no part of a frame that is
-- not completed, and no client that is written to is gone.
pub record Serves (r : Round) : Type 0 where
  pub info_encodes : r.encodes ≡ true
  pub metrics_encode : r.sees.encodes ≡ true
  pub whole : read_frame r.from_stdin ≢ waiting
  pub heard : (fd : ℕ) → r.gone fd ≡ false

module _ (F : Doubles) where
  -- The process infos among what was written.
  abbrev pub process_infos : List (Output F) → List (List Item)
  process_infos [] = []
  process_infos (event e ∷ os) = process_infos os
  process_infos (info i ∷ os) = i ∷ process_infos os
  process_infos (metrics m ∷ os) = process_infos os

  process_infos-append :
      (os ps : List (Output F)) → process_infos (os ++ ps) ≡ process_infos os ++ process_infos ps
  process_infos-append [] ps = refl
  process_infos-append (event e ∷ os) ps = process_infos-append os ps
  process_infos-append (info i ∷ os) ps = ap (λ x. i ∷ x) (process_infos-append os ps)
  process_infos-append (metrics m ∷ os) ps = process_infos-append os ps

  process_infos-event :
      (es : List Event) (os : List (Output F))
      → process_infos (map event es ++ os) ≡ process_infos os
  process_infos-event [] os = refl
  process_infos-event (e ∷ es) os = process_infos-event es os

  process_infos-metrics :
      (ms : List (Report F)) (os : List (Output F))
      → process_infos (map metrics ms ++ os) ≡ process_infos os
  process_infos-metrics [] os = refl
  process_infos-metrics (m ∷ ms) os = process_infos-metrics ms os

  -- What a look at the child does for the Erlang side.
  abbrev pub view : List (Output F) × Next F → List (List Item) × Next F
  view (os, next) = (process_infos os, next)

  flush_window_ok :
      (e : Surroundings) (s : MetricsState F) (now_ms : ℤ)
      → e.encodes ≡ true
      → (flush_window F e s now_ms).ok ≡ true
  unfolding flush_window send_aggregated
  flush_window_ok e s now_ms h = ground arith

  maybe_send_ok :
      (e : Surroundings) (c : MetricsConfig) (s : MetricsState F) (now_ms : ℤ)
      → e.encodes ≡ true
      → (maybe_send F e c s now_ms).ok ≡ true
  unfolding maybe_send
  maybe_send_ok e c s now_ms h =
      ground (arith, flush_window_ok e (sampled F c e.host (started F s now_ms) now_ms) now_ms h)

  pub look-running :
      (job : Setup) (s : State F) (r : Round)
      → r.waited ≡ running
      → r.encodes ≡ true
      → r.sees.encodes ≡ true
      → view (look_at_child F job s r) ≡ (
        process_info (running_info job.child_pid) ∷ [],
        goes_on (record s {
          metrics_state = (maybe_send F r.sees job.metrics_cfg s.metrics_state r.now_ms).state;
        }),
      )
  unfolding look_at_child send_process_info
  look-running job s r w e m =
      let sent = maybe_send F r.sees job.metrics_cfg s.metrics_state r.now_ms in
      let ok = maybe_send_ok r.sees job.metrics_cfg s.metrics_state r.now_ms m in
      rw (w, look_at_child)
        (rw (e, ok)
          (ap
            (λ is. (
              process_info (running_info job.child_pid) ∷ is,
              goes_on (record s { metrics_state = sent.state }),
            ))
            (ap process_infos (sym (append-nil (map metrics sent.sent)))
              ∙ process_infos-metrics sent.sent [])))

  pub look-wait_error :
      (job : Setup) (s : State F) (r : Round)
      → r.waited ≡ wait_error
      → r.encodes ≡ true
      → view (look_at_child F job s r)
        ≡ (process_info (error_info job.child_pid) ∷ [], stops (exits 1))
  unfolding look_at_child send_process_info sent_or_exit
  look-wait_error job s r w e = rw (w, look_at_child) (rw e)

  pub look-ended :
      (job : Setup) (s : State F) (r : Round) (st : Status)
      → r.waited ≡ ended st
      → r.encodes ≡ true
      → view (look_at_child F job s r) ≡ (
        process_info (finished_info job.child_pid st) ∷ [],
        stops (if wait_returns st then exits 0 else awaits_child),
      )
  unfolding look_at_child send_process_info sent_or_exit
  look-ended job s r st w e =
      let sent = flush F r.sees job.metrics_cfg s.metrics_state r.now_ms in
      rw (w, look_at_child)
        (rw e (
          ap (λ is. (is, stops (if wait_returns st then exits 0 else awaits_child)))
            (process_infos-metrics sent.sent
              (info (process_info (finished_info job.child_pid st)) ∷ []))))

  deliver_all :
      (gone : ℕ → Bool) (es : List Event)
      → ((fd : ℕ) → gone fd ≡ false)
      → deliver F gone es ≡ (map event es, true)
  unfolding deliver
  deliver_all gone [] h = refl
  deliver_all gone (reply fd text ∷ es) h = rw (h fd) (rw (deliver_all gone es h))
  deliver_all gone (request ref s ∷ es) h = rw (deliver_all gone es h)

  module _ (E : Ei) (make_ref : ℕ → Bytes) (sends : ℕ → Bool) where
    replies :
        (relay : Relay) (calls : List ReadCall)
        → read_frame calls ≢ waiting
        → (relay' : Relay) × (es : List Event) × (rest : List ReadCall) × (try_read_stdin_reply E
              relay calls
            ≡ some (relay', es, rest))
    unfolding try_read_stdin_reply
    replies relay calls h = elim (Reading-cases (read_frame calls) h) [
      | inl (rest, e) ↦ (relay, [], rest, rw (e, try_read_stdin_reply))
      | inr (buf, rest, e) ↦
          let (q, es) = handle_reply E (E.of_bytes buf) relay.requests in
          (record relay { requests = q }, es, rest, rw (e, try_read_stdin_reply))
    ]

    -- What a round writes: for the client and for the frames, and behind them for the child.
    pub step-event :
        (job : Setup) (s : State F) (r : Round)
        → Serves r
        → (relay : Relay) × (cs : List Event) × (es : List Event) × (step F E make_ref sends job s r
            ≡ (
              map event cs
                  ++ (map event es ++ (look_at_child F job (record s { relay = relay }) r).0),
              (look_at_child F job (record s { relay = relay }) r).1,
            ))
    unfolding step
    step-event job s r h =
        let (relay, cs) =
          try_read_ctrl_client make_ref sends (accept job s.relay r.accepted) r.from_client in
        let (relay', es, rest, e) = replies relay r.from_stdin h.whole in
        (
          relay',
          cs,
          es,
          rw (deliver_all r.gone cs h.heard, e, deliver_all r.gone es h.heard, step)
              (rw (deliver_all r.gone cs h.heard)),
        )

    -- Serving the client and the standard input plays no part in what is seen of the job.
    pub step-look :
        (job : Setup) (s : State F) (r : Round)
        → Serves r
        → (relay : Relay) × (view (step F E make_ref sends job s r)
            ≡ view (look_at_child F job (record s { relay = relay }) r))
    step-look job s r h =
        let (relay, cs, es, e) = step-event job s r h in
        let (out, next) = look_at_child F job (record s { relay = relay }) r in
        (
          relay,
          ap view e
              ∙ ap (λ is. (is, next))
                  (process_infos-event cs (map event es ++ out) ∙ process_infos-event es out),
        )

    -- A round, and the look at the child behind it.
    pub loop-stops :
        (job : Setup) (s : State F) (r : Round) (rs : List Round) (is : List (List Item)) (n : End)
        → view (step F E make_ref sends job s r) ≡ (is, stops n)
        → process_infos (loop F E make_ref sends job s (r ∷ rs)).0 ≡ is
          × ((loop F E make_ref sends job s (r ∷ rs)).1 ≡ some n)
    unfolding loop
    loop-stops job s r rs is n e =
        let next : (step F E make_ref sends job s r).1 ≡ stops n = ap (λ p. p.1) e in
        rw (next, loop) (ap (λ p. p.0) e, refl)

    pub loop-goes_on :
        (job : Setup) (s s' : State F) (r : Round) (rs : List Round) (is : List (List Item))
        → view (step F E make_ref sends job s r) ≡ (is, goes_on s')
        → (process_infos (loop F E make_ref sends job s (r ∷ rs)).0
            ≡ is ++ process_infos (loop F E make_ref sends job s' rs).0)
          × ((loop F E make_ref sends job s (r ∷ rs)).1 ≡ (loop F E make_ref sends job s' rs).1)
    unfolding loop
    loop-goes_on job s s' r rs is e =
        let next : (step F E make_ref sends job s r).1 ≡ goes_on s' = ap (λ p. p.1) e in
        rw (next, loop)
          (
            process_infos-append (step F E make_ref sends job s r).0
                  (loop F E make_ref sends job s' rs).0
                ∙ ap (λ js. js ++ process_infos (loop F E make_ref sends job s' rs).0)
                    (ap (λ p. p.0) e),
            refl,
          )
