-- ===== src/Metrics/Cycle.antt =====
-- When samples are taken and reports are sent: `porter_metrics_maybe_send` and `porter_metrics_flush`.
pub mod Samples
pub mod Timing
pub mod Started
use swm_core.Prelude.{
  ℕ, zero, suc, ◌+◌, ◌-◌, ◌^◌, ◌<◌, Bool, true, false, ◌&&◌, ◌||◌, not, List, [], ◌∷◌, ◌++◌, Option,
  none, some, ltb, leb, ◌==◌, if◌then◌else◌, Bytes, ℤ, pos, negsuc, int_eq, int_leb, int_ltb, ◌-ℤ◌,
  ◌≤ℤ◌, ◌≡◌, ◌≢◌, refl, sym, ◌∙◌, ap, arith, Bool-cases, inl, inr,
}
use swm_core.Metrics.Config.{MetricsConfig, enabled}
use swm_core.Metrics.Window.{Doubles, MetricsSample, MetricsWindow, reset, any, add_sample, ready}
use swm_core.Metrics.Sample.{Host, MetricsState, take_sample, take_sample_lem}
use swm_core.Metrics.Report.{Report, report, send_aggregated}

-- What a call sees: the host, whether the encoder gets its memory, the job's id and the node's name.
pub record Surroundings : Type 0 where
  pub host : Host
  pub encodes : Bool
  pub job_id : Bytes
  pub node : Bytes

module _ (F : Doubles) where
  pub record Result : Type 0 where
    pub state : MetricsState F
    pub ok : Bool
    pub sent : List (Report F)

  abbrev pub idle : MetricsState F → Result
  idle s = record { state = s; ok = true; sent = [] }

  unfoldable pub flush_window : Surroundings → MetricsState F → ℤ → Result
  flush_window e s now_ms =
      let (ok, sent) = send_aggregated F e.encodes e.job_id e.node now_ms s.window in
      record {
        state = if ok then record s { window = reset F now_ms } else s;
        ok = ok;
        sent = sent;
      }

  unfoldable pub started : MetricsState F → ℤ → MetricsState F
  started s now_ms =
      if int_eq s.window.start_ms (pos 0) then record s { window = reset F now_ms } else s

  -- `state.window.add(take_sample(...))`.
  unfoldable pub sampled : MetricsConfig → Host → MetricsState F → ℤ → MetricsState F
  sampled c h s now_ms =
      let (x, t) = take_sample F c h s now_ms in record t { window = add_sample F t.window x }

  -- The sample interval has not elapsed.
  abbrev pub too_early : MetricsConfig → MetricsState F → ℤ → Bool
  too_early c s now_ms =
      not (int_eq s.last_sample_ms (pos 0))
      && int_ltb (now_ms -ℤ s.last_sample_ms) c.sample_interval_ms

  unfoldable pub maybe_send : Surroundings → MetricsConfig → MetricsState F → ℤ → Result
  maybe_send e c s now_ms =
      let t = sampled c e.host (started s now_ms) now_ms in
      if not (enabled c)
      then idle s
      else if too_early c s now_ms
      then idle s
      else if ready F t.window now_ms c.report_interval_ms
      then flush_window e t now_ms
      else idle t

  unfoldable pub flush : Surroundings → MetricsConfig → MetricsState F → ℤ → Result
  flush e c s now_ms =
      if not (enabled c)
      then idle s
      else flush_window e (sampled c e.host (started s now_ms) now_ms) now_ms
