-- ===== src/Metrics/Report.antt =====
-- The report of a window: `send_aggregated_metrics`. A report is the tuple `porter_metrics` with a map;
-- it is the size in the map's header and the pairs that are written behind it.
use swm_core.Prelude.{
  ℕ, ◌+◌, Bool, true, false, List, [], ◌∷◌, ◌++◌, ltb, if◌then◌else◌, length, Bytes, codes, ℤ, pos,
  int_ltb, ◌-ℤ◌, ◌≡◌, arith,
}
use swm_core.Metrics.Window.{Doubles, MetricsWindow, is_empty_window}

module _ (F : Doubles) where
  open F use {Double, zero_d, of_nat, div, llround}

  pub data Value : Type 0 where
    text : Bytes → Value
    int : ℤ → Value
    nat : ℕ → Value
    real : Double → Value

  pub record Report : Type 0 where
    pub arity : ℕ
    pub entries : List (Bytes × Value)

  -- `have_cpu`, `have_mem` and `have_gpu`.
  abbrev pub have : ℕ → Bool
  have n = ltb 0 n

  average : Double → ℕ → Double
  average sum n = if have n then div sum (of_nat n) else zero_d

  rounded : Double → ℕ → ℕ
  rounded sum n = if have n then llround (div sum (of_nat n)) else 0

  general : Bytes → Bytes → ℤ → MetricsWindow F → List (Bytes × Value)
  general job_id node ts_ms w =
      (codes "job_id", text job_id)
      ∷ (codes "node", text node)
      ∷ (codes "ts", int ts_ms)
      ∷ (codes "samples", nat w.samples)
      ∷ (
        codes "window_ms",
        int (if int_ltb (pos 0) (ts_ms -ℤ w.start_ms) then ts_ms -ℤ w.start_ms else pos 0),
      )
      ∷ []

  cpu_entries : MetricsWindow F → List (Bytes × Value)
  cpu_entries w =
      if have w.cpu_samples
      then (codes "cpu_percent", real (average w.cpu_sum w.cpu_samples))
        ∷ (codes "cpu_percent_max", real w.cpu_max)
        ∷ []
      else []

  mem_entries : MetricsWindow F → List (Bytes × Value)
  mem_entries w =
      if have w.mem_samples
      then (codes "mem_bytes", nat (rounded w.mem_sum w.mem_samples))
        ∷ (codes "mem_bytes_max", nat w.mem_max)
        ∷ []
      else []

  gpu_entries : MetricsWindow F → List (Bytes × Value)
  gpu_entries w =
      if have w.gpu_samples
      then (codes "gpu_util_percent", real (average w.gpu_util_sum w.gpu_samples))
        ∷ (codes "gpu_util_percent_max", real w.gpu_util_max)
        ∷ (codes "gpu_mem_bytes", nat (rounded w.gpu_mem_sum w.gpu_samples))
        ∷ (codes "gpu_mem_bytes_max", nat w.gpu_mem_max)
        ∷ []
      else []

  unfoldable pub report : Bytes → Bytes → ℤ → MetricsWindow F → Report
  unfolding average rounded general cpu_entries mem_entries gpu_entries
  report job_id node ts_ms w = record {
    arity =
        5
        + (if have w.cpu_samples then 2 else 0)
        + (if have w.mem_samples then 2 else 0)
        + (if have w.gpu_samples then 4 else 0);
    entries = general job_id node ts_ms w ++ (cpu_entries w ++ (mem_entries w ++ gpu_entries w));
  }

  -- The answer, and what was written. `encodes` tells whether the encoder gets its memory. An empty
  -- window is not reported, which is no failure.
  unfoldable pub send_aggregated : Bool → Bytes → Bytes → ℤ → MetricsWindow F → Bool × List Report
  send_aggregated encodes job_id node ts_ms w =
      if is_empty_window F w
      then (true, [])
      else if encodes
      then (true, report job_id node ts_ms w ∷ [])
      else (false, [])

  -- The size in the header of the map is the number of the pairs behind it, for every window.
  pub report_arity :
      (job_id node : Bytes) (ts_ms : ℤ) (w : MetricsWindow F)
      → length (report job_id node ts_ms w).entries ≡ (report job_id node ts_ms w).arity
  unfolding report
  report_arity job_id node ts_ms w = ground arith
