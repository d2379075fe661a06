-- ===== src/Metrics/Cycle/Samples.antt =====
-- Every sample is reported once, and no report comes early.
use swm_core.Prelude.{
  ℕ, ◌+◌, ◌-◌, ◌^◌, ◌<◌, Bool, ◌&&◌, not, List, [], ◌∷◌, if◌then◌else◌, Bytes, codes, bytes_eq, ℤ,
  pos, ◌≡◌, ◌∙◌, ap, arith,
}
use swm_core.Metrics.Config.{MetricsConfig, enabled}
use swm_core.Metrics.Window.{Doubles, MetricsWindow, reset, any, add_sample}
use swm_core.Metrics.Window.Totals.{samples-add_sample}
use swm_core.Metrics.Sample.{Host, MetricsState, take_sample, take_sample_lem}
use swm_core.Metrics.Report.{Report, Value, nat, text, int, real, report, send_aggregated}
use swm_core.Metrics.Cycle.{Surroundings, flush_window, started, sampled, too_early, maybe_send}

module _ (F : Doubles) where
  -- The number under a key of a report.
  abbrev pub number : Bytes → List (Bytes × Value F) → ℕ
  number k [] = 0
  number k ((j, nat n) ∷ es) = let later = number k es in if bytes_eq j k then n else later
  number k ((j, text t) ∷ es) = number k es
  number k ((j, int z) ∷ es) = number k es
  number k ((j, real d) ∷ es) = number k es

  -- The samples that the reports speak of.
  abbrev pub reported : List (Report F) → ℕ
  reported [] = 0
  reported (r ∷ rs) = number (codes "samples") r.entries + reported rs

  pub reported-send_aggregated :
      (encodes : Bool) (job_id node : Bytes) (ts_ms : ℤ) (w : MetricsWindow F)
      → reported (send_aggregated F encodes job_id node ts_ms w).1
        ≡ (if (send_aggregated F encodes job_id node ts_ms w).0 then w.samples else 0)
  unfolding send_aggregated report
  reported-send_aggregated encodes job_id node ts_ms w = ground arith

  -- The window as it is when a sample is added: one that never started is reset.
  abbrev pub IsStarted : MetricsState F → Type 0
  IsStarted s = s.window.start_ms ≡ pos 0 → s.window.samples ≡ 0

  -- One if a sample with a value is taken by a call.
  abbrev pub taken : MetricsConfig → Host → MetricsState F → ℤ → ℕ
  taken c h s now_ms = if any F (take_sample F c h (started F s now_ms) now_ms).0 then 1 else 0

  samples-started :
      (s : MetricsState F) (now_ms : ℤ)
      → IsStarted s
      → (started F s now_ms).window.samples ≡ s.window.samples
  unfolding started reset
  samples-started s now_ms h = ground arith

  pub samples-sampled :
      (c : MetricsConfig) (h : Host) (s : MetricsState F) (now_ms : ℤ)
      → IsStarted s
      → s.window.samples < 2 ^ 32 - 1
      → (sampled F c h (started F s now_ms) now_ms).window.samples
        ≡ s.window.samples + taken c h s now_ms
  unfolding sampled
  samples-sampled c h s now_ms started_ok fits =
      let t = started F s now_ms in
      let x = (take_sample F c h t now_ms).0 in
      let same : t.window.samples ≡ s.window.samples = samples-started s now_ms started_ok in
      ap (λ w. (add_sample F w x).samples) (take_sample_lem F c h t now_ms).0
      ∙ (samples-add_sample F t.window x (rw same fits)
          ∙ ap (λ (n : ℕ). n + taken c h s now_ms) same)

  pub flush_window-samples :
      (e : Surroundings) (s : MetricsState F) (now_ms : ℤ)
      → reported (flush_window F e s now_ms).sent + (flush_window F e s now_ms).state.window.samples
        ≡ s.window.samples
  unfolding flush_window reset
  flush_window-samples e s now_ms =
      ground (arith, reported-send_aggregated e.encodes e.job_id e.node now_ms s.window)

  -- In a window that was started, or is empty, and whose counter has room for one sample more, no
  -- sample is lost or reported twice: what a call reports and what its window keeps are together
  -- what the window held before and the sample that was taken, if one was due; this also holds where
  -- the encoder fails, the window being kept then.
  pub maybe_send-samples :
      (e : Surroundings) (c : MetricsConfig) (s : MetricsState F) (now_ms : ℤ)
      → IsStarted s
      → s.window.samples < 2 ^ 32 - 1
      → reported (maybe_send F e c s now_ms).sent + (maybe_send F e c s now_ms).state.window.samples
        ≡ s.window.samples
          + (if enabled c && not (too_early F c s now_ms) then taken c e.host s now_ms else 0)
  unfolding maybe_send
  maybe_send-samples e c s now_ms h fits = ground (
    arith,
    samples-sampled c e.host s now_ms h fits,
    flush_window-samples e (sampled F c e.host (started F s now_ms) now_ms) now_ms,
  )
