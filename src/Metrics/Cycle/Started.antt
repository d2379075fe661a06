-- ===== src/Metrics/Cycle/Started.antt =====
-- A window that never started is empty, at every time but 0.
use swm_core.Prelude.{ℤ, pos, ◌≢◌, sym, ◌∙◌, arith}
use swm_core.Metrics.Config.{MetricsConfig}
use swm_core.Metrics.Window.{Doubles, reset}
use swm_core.Metrics.Sample.{MetricsState}
use swm_core.Metrics.Cycle.{Surroundings, flush_window, started, sampled, maybe_send}
use swm_core.Metrics.Cycle.Samples.{IsStarted}
use swm_core.Metrics.Cycle.Timing.{start-sampled}

module _ (F : Doubles) where
  start-started :
      (s : MetricsState F) (now_ms : ℤ)
      → now_ms ≢ pos 0
      → (started F s now_ms).window.start_ms ≢ pos 0
  unfolding started reset
  start-started s now_ms h e = absurd (ground arith)

  start-flush_window :
      (e : Surroundings) (s : MetricsState F) (now_ms : ℤ)
      → now_ms ≢ pos 0
      → s.window.start_ms ≢ pos 0
      → (flush_window F e s now_ms).state.window.start_ms ≢ pos 0
  unfolding flush_window reset
  start-flush_window e s now_ms h k same = absurd (ground arith)

  -- A call keeps it that a window that never started is empty.
  pub maybe_send-IsStarted :
      (e : Surroundings) (c : MetricsConfig) (s : MetricsState F) (now_ms : ℤ)
      → now_ms ≢ pos 0
      → IsStarted F s
      → IsStarted F (maybe_send F e c s now_ms).state
  unfolding maybe_send
  maybe_send-IsStarted e c s now_ms h k same =
      let t = sampled F c e.host (started F s now_ms) now_ms in
      let begun : t.window.start_ms ≢ pos 0 = λ z.
        start-started s now_ms h (sym (start-sampled F c e.host (started F s now_ms) now_ms) ∙ z) in
      ground (arith, start-flush_window e t now_ms h begun)
