-- ===== src/Metrics/Window.antt =====
-- The aggregation window: `PorterMetricsWindow`. The counters are `unsigned`, of 32 bits.
pub mod Totals
use swm_core.Prelude.{
  ℕ, zero, suc, ◌+◌, ◌%◌, ◌^◌, ◌≤◌, ◌<◌, Bool, true, false, ◌&&◌, ◌||◌, not, List, [], ◌∷◌, ◌++◌,
  Option, none, some, ltb, leb, ◌==◌, if◌then◌else◌, ℤ, pos, negsuc, int_leb, int_ltb, int_eq, ◌-ℤ◌,
  ◌≡◌, refl, arith, length,
}

-- The operations on doubles that the metrics use.
pub record Doubles : Type 1 where
  pub Double : Type 0
  pub zero_d : Double
  pub of_nat : ℕ → Double
  pub add : Double → Double → Double
  pub mul : Double → Double → Double
  pub div : Double → Double → Double
  -- Whether the first is greater.
  pub gt : Double → Double → Bool
  pub llround : Double → ℕ

-- A pre-increment of an `unsigned`.
abbrev pub up : ℕ → ℕ
up n = (n + 1) % 2 ^ 32

abbrev pub present {ℓ} : {A : Type ℓ} → Option A → Bool
present none = false
present (some a) = true

module _ (F : Doubles) where
  open F use {Double, zero_d, of_nat, add, gt}

  -- `PorterMetricsSample`.
  pub record MetricsSample : Type 0 where
    pub cpu_percent : Option Double
    pub mem_bytes : Option ℕ
    pub gpu_util_percent : Option Double
    pub gpu_mem_bytes : Option ℕ

  pub record MetricsWindow : Type 0 where
    pub start_ms : ℤ
    pub samples : ℕ
    pub cpu_samples : ℕ
    pub mem_samples : ℕ
    pub gpu_samples : ℕ
    pub cpu_sum : Double
    pub cpu_max : Double
    pub mem_sum : Double
    pub mem_max : ℕ
    pub gpu_util_sum : Double
    pub gpu_util_max : Double
    pub gpu_mem_sum : Double
    pub gpu_mem_max : ℕ

  -- `PorterMetricsWindow {}` with a start.
  unfoldable pub reset : ℤ → MetricsWindow
  reset now_ms = record {
    start_ms = now_ms;
    samples = 0;
    cpu_samples = 0;
    mem_samples = 0;
    gpu_samples = 0;
    cpu_sum = zero_d;
    cpu_max = zero_d;
    mem_sum = zero_d;
    mem_max = 0;
    gpu_util_sum = zero_d;
    gpu_util_max = zero_d;
    gpu_mem_sum = zero_d;
    gpu_mem_max = 0;
  }

  abbrev pub any : MetricsSample → Bool
  any s =
      present s.cpu_percent
      || (present s.mem_bytes || (present s.gpu_util_percent || present s.gpu_mem_bytes))

  add_cpu : Option Double → MetricsWindow → MetricsWindow
  add_cpu none w = w
  add_cpu (some c) w = record w {
    cpu_sum = add w.cpu_sum c;
    cpu_max = if w.cpu_samples == 0 || gt c w.cpu_max then c else w.cpu_max;
    cpu_samples = up w.cpu_samples;
  }

  add_mem : Option ℕ → MetricsWindow → MetricsWindow
  add_mem none w = w
  add_mem (some m) w = record w {
    mem_sum = add w.mem_sum (of_nat m);
    mem_max = if ltb w.mem_max m then m else w.mem_max;
    mem_samples = up w.mem_samples;
  }

  add_gpu_util : Option Double → MetricsWindow → MetricsWindow
  add_gpu_util none w = w
  add_gpu_util (some u) w = record w {
    gpu_util_sum = add w.gpu_util_sum u;
    gpu_util_max = if w.gpu_samples == 0 || gt u w.gpu_util_max then u else w.gpu_util_max;
  }

  add_gpu_mem : Option ℕ → MetricsWindow → MetricsWindow
  add_gpu_mem none w = w
  add_gpu_mem (some m) w = record w {
    gpu_mem_sum = add w.gpu_mem_sum (of_nat m);
    gpu_mem_max = if ltb w.gpu_mem_max m then m else w.gpu_mem_max;
  }

  add_gpu : Option Double → Option ℕ → MetricsWindow → MetricsWindow
  unfolding add_gpu_util add_gpu_mem
  add_gpu util mem w =
      if present util || present mem
      then (let v = add_gpu_mem mem (add_gpu_util util w) in
          record v { gpu_samples = up v.gpu_samples })
      else w

  unfoldable pub add_sample : MetricsWindow → MetricsSample → MetricsWindow
  unfolding add_cpu add_mem add_gpu
  add_sample w s =
      if not (any s)
      then w
      else add_gpu s.gpu_util_percent s.gpu_mem_bytes
          (add_mem s.mem_bytes (add_cpu s.cpu_percent (record w { samples = up w.samples })))

  abbrev pub is_empty_window : MetricsWindow → Bool
  is_empty_window w = w.samples == 0

  unfoldable pub ready : MetricsWindow → ℤ → ℤ → Bool
  ready w now_ms report_interval_ms =
      int_ltb (pos 0) report_interval_ms
      && (int_ltb (pos 0) w.start_ms && int_leb report_interval_ms (now_ms -ℤ w.start_ms))
