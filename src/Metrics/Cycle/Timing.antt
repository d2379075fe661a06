-- ===== src/Metrics/Cycle/Timing.antt =====
-- When a report is sent, and what the last call of a job leaves.
use swm_core.Prelude.{
  ◌+◌, ◌-◌, ◌^◌, ◌<◌, true, false, [], ℤ, ◌-ℤ◌, ◌≤ℤ◌, ◌≡◌, ◌≢◌, refl, ◌∙◌, ap, arith,
}
use swm_core.Metrics.Config.{MetricsConfig, enabled}
use swm_core.Metrics.Window.{Doubles, MetricsSample, MetricsWindow, reset, add_sample, ready}
use swm_core.Metrics.Sample.{Host, MetricsState, take_sample, take_sample_lem}
use swm_core.Metrics.Report.{send_aggregated}
use swm_core.Metrics.Cycle.{
  Surroundings, flush_window, started, sampled, too_early, maybe_send, flush,
}
use swm_core.Metrics.Cycle.Samples.{
  reported, IsStarted, taken, samples-sampled, flush_window-samples,
}

module _ (F : Doubles) where
  start-add_sample :
      (w : MetricsWindow F) (x : MetricsSample F) → (add_sample F w x).start_ms ≡ w.start_ms
  unfolding add_sample
  start-add_sample w x = ground arith

  pub start-sampled :
      (c : MetricsConfig) (h : Host) (s : MetricsState F) (now_ms : ℤ)
      → (sampled F c h s now_ms).window.start_ms ≡ s.window.start_ms
  unfolding sampled
  start-sampled c h s now_ms =
      let t = take_sample F c h s now_ms in
      start-add_sample t.1.window t.0 ∙ ap (λ w. w.start_ms) (take_sample_lem F c h s now_ms).0

  -- A window that starts now is not old enough.
  ready-started :
      (c : MetricsConfig) (h : Host) (s : MetricsState F) (now_ms : ℤ)
      → ready F (sampled F c h (started F s now_ms) now_ms).window now_ms c.report_interval_ms
        ≡ true
      → c.report_interval_ms ≤ℤ now_ms -ℤ s.window.start_ms
  unfolding ready started reset
  ready-started c h s now_ms r = ground (arith, start-sampled c h (started F s now_ms) now_ms)

  flush_window_sent :
      (e : Surroundings) (s : MetricsState F) (now_ms : ℤ)
      → (flush_window F e s now_ms).sent ≢ []
      → (flush_window F e s now_ms).state.window ≡ reset F now_ms
  unfolding flush_window send_aggregated
  flush_window_sent e s now_ms h = ground arith

  -- A report is sent only if the metrics run, the sample interval has elapsed since the last sample
  -- and the window is at least one report interval old; the window then starts anew at this time.
  pub maybe_send_sent :
      (e : Surroundings) (c : MetricsConfig) (s : MetricsState F) (now_ms : ℤ)
      → (maybe_send F e c s now_ms).sent ≢ []
      → (enabled c ≡ true)
        × (too_early F c s now_ms ≡ false)
        × (c.report_interval_ms ≤ℤ now_ms -ℤ s.window.start_ms)
        × ((maybe_send F e c s now_ms).state.window ≡ reset F now_ms)
  unfolding maybe_send
  maybe_send_sent e c s now_ms h = ground (
    arith,
    ready-started c e.host s now_ms,
    flush_window_sent e (sampled F c e.host (started F s now_ms) now_ms) now_ms,
  )

  flush_window_done :
      (e : Surroundings) (s : MetricsState F) (now_ms : ℤ)
      → e.encodes ≡ true
      → ((flush_window F e s now_ms).ok ≡ true)
        × ((flush_window F e s now_ms).state.window ≡ reset F now_ms)
  unfolding flush_window send_aggregated
  flush_window_done e s now_ms h = ground arith

  -- At the end of a job everything is reported: if the metrics run, the encoder gets its memory, and
  -- the window was started, or is empty, and its counter has room for one sample more,
  -- the flush succeeds, its report speaks of all samples in the window and of the last one, taken now,
  -- and the window is empty.
  pub flush_samples :
      (e : Surroundings) (c : MetricsConfig) (s : MetricsState F) (now_ms : ℤ)
      → enabled c ≡ true
      → e.encodes ≡ true
      → IsStarted F s
      → s.window.samples < 2 ^ 32 - 1
      → ((flush F e c s now_ms).ok ≡ true)
        × (reported F (flush F e c s now_ms).sent ≡ s.window.samples + taken F c e.host s now_ms)
        × ((flush F e c s now_ms).state.window ≡ reset F now_ms)
  unfolding flush
  flush_samples e c s now_ms on ok h fits =
      let t = sampled F c e.host (started F s now_ms) now_ms in
      let done = flush_window_done e t now_ms ok in
      let all = flush_window-samples F e t now_ms in
      let count = samples-sampled F c e.host s now_ms h fits in
      let empty : (flush_window F e t now_ms).state.window.samples ≡ 0 =
        ap (λ w. w.samples) done.1 ∙ (unfold reset in refl) in
      rw on (done.0, omega (arith, all, count, empty), done.1)
