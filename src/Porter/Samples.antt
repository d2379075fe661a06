-- ===== src/Porter/Samples.antt =====
-- The metrics of a job in the life of the porter.
use swm_core.Prelude.{
  All, zero, suc, pos, not, ◌+◌, ◌≤◌, if◌then◌else◌, ◌&&◌, ◌^◌, ◌<◌, length, ℕ, Bool, true, List,
  [], ◌∷◌, ◌++◌, append-nil, map, ◌≡◌, ◌≢◌, refl, sym, ◌∙◌, ap, arith, Bytes,
}
use swm_core.Ei.{Ei}
use swm_core.Relay.{Event, Relay}
use swm_core.Metrics.Config.{MetricsConfig}
use swm_core.Metrics.Window.{Doubles}
use swm_core.Metrics.Sample.{MetricsState}
use swm_core.Metrics.Report.{Report}
use swm_core.Metrics.Cycle.{maybe_send, flush}
use swm_core.Porter.Info.{send_process_info}
use swm_core.Porter.{
  Status, Wait, wait_error, running, ended, Round, Setup, Output, event, info, metrics, State, Next,
  goes_on, stops, End, exits, awaits_child, wait_returns, sent_or_exit, look_at_child, step, loop,
}
use swm_core.Metrics.Config.{enabled}
use swm_core.Metrics.Cycle.{too_early}
use swm_core.Metrics.Cycle.Samples.{reported, IsStarted, taken, maybe_send-samples}
use swm_core.Metrics.Cycle.Timing.{flush_samples}
use swm_core.Metrics.Cycle.Started.{maybe_send-IsStarted}
use swm_core.Porter.Rounds.{Serves, look-running, look-ended, step-event}
use swm_core.Porter.Life.{runs_then, waits_of}

-- The clock does not stand at 0.
abbrev pub Ticks : Round → Type 0
Ticks r = r.now_ms ≢ pos 0

module _ (F : Doubles) where
  -- The reports among what was written.
  abbrev pub reports : List (Output F) → List (Report F)
  reports [] = []
  reports (event e ∷ os) = reports os
  reports (info i ∷ os) = reports os
  reports (metrics m ∷ os) = m ∷ reports os

  reports-event :
      (es : List Event) (os : List (Output F)) → reports (map event es ++ os) ≡ reports os
  reports-event [] os = refl
  reports-event (e ∷ es) os = reports-event es os

  reports-metrics :
      (ms : List (Report F)) (os : List (Output F))
      → reports (map metrics ms ++ os) ≡ ms ++ reports os
  reports-metrics [] os = refl
  reports-metrics (m ∷ ms) os = ap (λ (rs : List (Report F)). m ∷ rs) (reports-metrics ms os)

  reports-append : (os ps : List (Output F)) → reports (os ++ ps) ≡ reports os ++ reports ps
  reports-append [] ps = refl
  reports-append (event e ∷ os) ps = reports-append os ps
  reports-append (info i ∷ os) ps = reports-append os ps
  reports-append (metrics m ∷ os) ps = ap (λ (rs : List (Report F)). m ∷ rs) (reports-append os ps)

  reported-append :
      (rs ss : List (Report F)) → reported F (rs ++ ss) ≡ reported F rs + reported F ss
  reported-append [] ss = omega arith
  reported-append (r ∷ rs) ss = omega (arith, reported-append rs ss)

  -- One if a sample with a value is due and taken.
  abbrev pub due : MetricsConfig → MetricsState F → Round → ℕ
  due c s r =
      if enabled c && not (too_early F c s r.now_ms) then taken F c r.sees.host s r.now_ms else 0

  due-small : (c : MetricsConfig) (s : MetricsState F) (r : Round) → due c s r ≤ 1
  due-small c s r = ground arith

  -- The samples that are taken when they are due, round by round, the last of them at the child's end.
  abbrev pub taken_in : MetricsConfig → MetricsState F → List Round → ℕ
  taken_in c s [] = 0
  taken_in c s (r ∷ rs) =
      let later = taken_in c (maybe_send F r.sees c s r.now_ms).state rs in
      let now = taken F c r.sees.host s r.now_ms in
      elim r.waited [ wait_error ↦ 0 | running ↦ due c s r + later | ended st ↦ now ]

  taken_in-running :
      (c : MetricsConfig) (s : MetricsState F) (r : Round) (rs : List Round)
      → r.waited ≡ running
      → taken_in c s (r ∷ rs) ≡ due c s r + taken_in c (maybe_send F r.sees c s r.now_ms).state rs
  taken_in-running c s r rs w = rw w refl

  reports-look-running :
      (job : Setup) (s : State F) (r : Round)
      → r.waited ≡ running
      → r.encodes ≡ true
      → reports (look_at_child F job s r).0
        ≡ (maybe_send F r.sees job.metrics_cfg s.metrics_state r.now_ms).sent
  unfolding look_at_child send_process_info
  reports-look-running job s r w e =
      let sent = (maybe_send F r.sees job.metrics_cfg s.metrics_state r.now_ms).sent in
      rw (w, look_at_child)
        (rw e (
          ap reports (sym (append-nil (map metrics sent)))
          ∙ (reports-metrics sent [] ∙ append-nil sent)))

  reports-look-ended :
      (job : Setup) (s : State F) (r : Round) (st : Status)
      → r.waited ≡ ended st
      → r.encodes ≡ true
      → reports (look_at_child F job s r).0
        ≡ (flush F r.sees job.metrics_cfg s.metrics_state r.now_ms).sent
  unfolding look_at_child send_process_info sent_or_exit
  reports-look-ended job s r st w e =
      let sent = (flush F r.sees job.metrics_cfg s.metrics_state r.now_ms).sent in
      rw (w, look_at_child) (rw e (reports-metrics sent _ ∙ append-nil sent))

  module _ (E : Ei) (make_ref : ℕ → Bytes) (sends : ℕ → Bool) where
    -- What the loop writes behind a round that goes on, and behind one that exits.
    loop-next :
        (job : Setup) (s s' : State F) (r : Round) (rs : List Round)
        → (step F E make_ref sends job s r).1 ≡ goes_on s'
        → (loop F E make_ref sends job s (r ∷ rs)).0
          ≡ (step F E make_ref sends job s r).0 ++ (loop F E make_ref sends job s' rs).0
    unfolding loop
    loop-next job s s' r rs e = rw (e, loop)

    loop-last :
        (job : Setup) (s : State F) (r : Round) (rs : List Round) (n : End)
        → (step F E make_ref sends job s r).1 ≡ stops n
        → (loop F E make_ref sends job s (r ∷ rs)).0 ≡ (step F E make_ref sends job s r).0
    unfolding loop
    loop-last job s r rs n e = rw (e, loop)

    -- The metrics of a round: what is reported, and the state behind it.
    step-running :
        (job : Setup) (s : State F) (r : Round)
        → Serves r
        → r.waited ≡ running
        → (reports (step F E make_ref sends job s r).0
            ≡ (maybe_send F r.sees job.metrics_cfg s.metrics_state r.now_ms).sent)
          × (relay : Relay) × ((step F E make_ref sends job s r).1
              ≡ goes_on (record {
                relay = relay;
                metrics_state =
                    (maybe_send F r.sees job.metrics_cfg s.metrics_state r.now_ms).state;
              }))
    step-running job s r h w =
        let (relay, cs, es, e) = step-event F E make_ref sends job s r h in
        let t : State F = record s { relay = relay } in
        let out = (look_at_child F job t r).0 in
        (
          ap (λ (p : List (Output F) × Next F). reports p.0) e
              ∙ (reports-event cs (map event es ++ out)
                  ∙ (reports-event es out ∙ reports-look-running job t r w h.info_encodes)),
          relay,
          ap (λ (p : List (Output F) × Next F). p.1) e
              ∙ ap (λ p. p.1) (look-running F job t r w h.info_encodes h.metrics_encode),
        )

    step-ended :
        (job : Setup) (s : State F) (r : Round) (st : Status)
        → Serves r
        → r.waited ≡ ended st
        → (reports (step F E make_ref sends job s r).0
            ≡ (flush F r.sees job.metrics_cfg s.metrics_state r.now_ms).sent)
          × ((step F E make_ref sends job s r).1
              ≡ stops (if wait_returns st then exits 0 else awaits_child))
    step-ended job s r st h w =
        let (relay, cs, es, e) = step-event F E make_ref sends job s r h in
        let t : State F = record s { relay = relay } in
        let out = (look_at_child F job t r).0 in
        (
          ap (λ (p : List (Output F) × Next F). reports p.0) e
              ∙ (reports-event cs (map event es ++ out)
                  ∙ (reports-event es out ∙ reports-look-ended job t r st w h.info_encodes)),
          ap (λ (p : List (Output F) × Next F). p.1) e
              ∙ ap (λ p. p.1) (look-ended F job t r st w h.info_encodes),
        )

    -- Every sample of a job is reported once. If the metrics run, the encoder gets its memory in every
    -- round, no round waits for the rest of a reply frame and no client that is written to is gone, the clock does not stand at 0, the window
    -- was started or is empty, and its counter has room for a sample in each round, then what is
    -- reported in the life of a child that ends is what the window held at the beginning and every
    -- sample that was taken, the one at the child's end included.
    pub loop-samples :
        (job : Setup) (s : State F) (rs : List Round) (n : ℕ) (st : Status) (ws : List Wait)
        → enabled job.metrics_cfg ≡ true
        → All Serves rs
        → All Ticks rs
        → waits_of rs ≡ runs_then n st ws
        → IsStarted F s.metrics_state
        → s.metrics_state.window.samples + length rs < 2 ^ 32
        → reported F (reports (loop F E make_ref sends job s rs).0)
          ≡ s.metrics_state.window.samples + taken_in job.metrics_cfg s.metrics_state rs
    loop-samples job s [] zero st ws on hs ts e i fits = absurd (cc)
    loop-samples job s [] (suc n) st ws on hs ts e i fits = absurd (cc)
    loop-samples job s (r ∷ rs) zero st ws on (h, hs) (t, ts) e i fits =
        let w : r.waited ≡ ended st = cc in
        let (out, last) = step-ended job s r st h w in
        let (done, all, empty) =
          flush_samples F r.sees job.metrics_cfg s.metrics_state r.now_ms on h.metrics_encode i
            (omega (arith, fits)) in
        rw (loop-last job s r rs _ last, out, w) all
    loop-samples job s (r ∷ rs) (suc n) st ws on (h, hs) (t, ts) e i fits =
        let w : r.waited ≡ running = cc in
        let e' : waits_of rs ≡ runs_then n st ws = cc in
        let m = s.metrics_state in
        let (out, relay, next) = step-running job s r h w in
        let told = maybe_send F r.sees job.metrics_cfg m r.now_ms in
        let s' : State F = record { relay = relay; metrics_state = told.state } in
        let kept = maybe_send-samples F r.sees job.metrics_cfg m r.now_ms i (omega (arith, fits)) in
        let one = due-small job.metrics_cfg m r in
        let later =
          loop-samples job s' rs n st ws on hs ts e'
            (maybe_send-IsStarted F r.sees job.metrics_cfg m r.now_ms t i)
            (omega (arith, fits, kept, one)) in
        let os = (step F E make_ref sends job s r).0 in
        let all =
          ap (reported F) (reports-append os (loop F E make_ref sends job s' rs).0)
          ∙ (reported-append (reports os) (reports (loop F E make_ref sends job s' rs).0)
              ∙ ap (λ (k : ℕ). k + reported F (reports (loop F E make_ref sends job s' rs).0))
                  (ap (reported F) out)) in
        ap (λ os. reported F (reports os)) (loop-next job s s' r rs next)
        ∙ omega (arith, all, later, kept, taken_in-running job.metrics_cfg m r rs w)
