-- ===== src/Metrics/Window/Totals.antt =====
-- What a window holds behind a list of samples.
use Prim.Native.Nat.{max}
use swm_core.Prelude.{
  ℕ, ◌+◌, ◌-◌, ◌^◌, ◌≤◌, ◌<◌, Bool, ◌||◌, List, [], ◌∷◌, Option, none, some, if◌then◌else◌, ◌≡◌,
  arith, length,
}
use swm_core.Metrics.Window.{Doubles, MetricsSample, MetricsWindow, present, any, add_sample}

module _ (F : Doubles) where
  abbrev pub add_all : MetricsWindow F → List (MetricsSample F) → MetricsWindow F
  add_all w [] = w
  add_all w (s ∷ ss) = add_all (add_sample F w s) ss

  -- How many samples pass a test.
  abbrev pub count : (MetricsSample F → Bool) → List (MetricsSample F) → ℕ
  count p [] = 0
  count p (s ∷ ss) = (if p s then 1 else 0) + count p ss

  abbrev pub has_cpu : MetricsSample F → Bool
  has_cpu s = present s.cpu_percent

  abbrev pub has_mem : MetricsSample F → Bool
  has_mem s = present s.mem_bytes

  abbrev pub has_gpu : MetricsSample F → Bool
  has_gpu s = present s.gpu_util_percent || present s.gpu_mem_bytes

  abbrev pub value_or : Option ℕ → ℕ
  value_or none = 0
  value_or (some n) = n

  -- The largest value of a field.
  abbrev pub largest : (MetricsSample F → Option ℕ) → List (MetricsSample F) → ℕ
  largest f [] = 0
  largest f (s ∷ ss) = max (value_or (f s)) (largest f ss)

  -- The samples that have a value at all.
  abbrev pub with_values : List (MetricsSample F) → List (MetricsSample F)
  with_values [] = []
  with_values (s ∷ ss) = let rest = with_values ss in if any F s then s ∷ rest else rest

  -- A sum with a value added, if there is one; and with those of a field, one by one.
  abbrev pub plus : Option F.Double → F.Double → F.Double
  plus none d = d
  plus (some x) d = F.add d x

  abbrev pub of_nat? : Option ℕ → Option F.Double
  of_nat? none = none
  of_nat? (some n) = some (F.of_nat n)

  abbrev pub sum :
      (MetricsSample F → Option F.Double) → F.Double → List (MetricsSample F) → F.Double
  sum f d [] = d
  sum f d (s ∷ ss) = sum f (plus (f s) d) ss

  -- The sums behind one sample.
  record Summed (w : MetricsWindow F) (s : MetricsSample F) (v : MetricsWindow F) : Type 0 where
    cpu_plus : v.cpu_sum ≡ plus s.cpu_percent w.cpu_sum
    mem_plus : v.mem_sum ≡ plus (of_nat? s.mem_bytes) w.mem_sum
    gpu_plus : v.gpu_util_sum ≡ plus s.gpu_util_percent w.gpu_util_sum
    gpu_mem_plus : v.gpu_mem_sum ≡ plus (of_nat? s.gpu_mem_bytes) w.gpu_mem_sum

  -- What the sums of `v` are by the samples `ss`.
  pub record Sums (w : MetricsWindow F) (ss : List (MetricsSample F)) (v : MetricsWindow F)
      : Type 0 where
    pub cpu_total : v.cpu_sum ≡ sum (λ s. s.cpu_percent) w.cpu_sum ss
    pub mem_total : v.mem_sum ≡ sum (λ s. of_nat? s.mem_bytes) w.mem_sum ss
    pub gpu_total : v.gpu_util_sum ≡ sum (λ s. s.gpu_util_percent) w.gpu_util_sum ss
    pub gpu_mem_total : v.gpu_mem_sum ≡ sum (λ s. of_nat? s.gpu_mem_bytes) w.gpu_mem_sum ss

  count-le : (p : MetricsSample F → Bool) (ss : List (MetricsSample F)) → count p ss ≤ length ss
  count-le p [] = omega arith
  count-le p (s ∷ ss) = ground (arith, count-le p ss)

  -- The fields behind one sample, with room in the counters.
  record Added (w : MetricsWindow F) (s : MetricsSample F) (v : MetricsWindow F) : Type 0 where
    start : v.start_ms ≡ w.start_ms
    all : v.samples ≡ w.samples + (if any F s then 1 else 0)
    cpu : v.cpu_samples ≡ w.cpu_samples + (if has_cpu s then 1 else 0)
    mem : v.mem_samples ≡ w.mem_samples + (if has_mem s then 1 else 0)
    gpu : v.gpu_samples ≡ w.gpu_samples + (if has_gpu s then 1 else 0)
    mem_top : v.mem_max ≡ max w.mem_max (value_or s.mem_bytes)
    gpu_top : v.gpu_mem_max ≡ max w.gpu_mem_max (value_or s.gpu_mem_bytes)

  -- The counters are below `n`.
  record Fits (n : ℕ) (w : MetricsWindow F) : Type 0 where
    all_fit : w.samples < n
    cpu_fit : w.cpu_samples < n
    mem_fit : w.mem_samples < n
    gpu_fit : w.gpu_samples < n

  -- What the window `v` adds to `w` by the samples `ss`.
  pub record Totals (w : MetricsWindow F) (ss : List (MetricsSample F)) (v : MetricsWindow F)
      : Type 0 where
    pub start : v.start_ms ≡ w.start_ms
    pub all : v.samples ≡ w.samples + count (any F) ss
    pub cpu : v.cpu_samples ≡ w.cpu_samples + count has_cpu ss
    pub mem : v.mem_samples ≡ w.mem_samples + count has_mem ss
    pub gpu : v.gpu_samples ≡ w.gpu_samples + count has_gpu ss
    pub mem_top : v.mem_max ≡ max w.mem_max (largest (λ s. s.mem_bytes) ss)
    pub gpu_top : v.gpu_mem_max ≡ max w.gpu_mem_max (largest (λ s. s.gpu_mem_bytes) ss)

  pub samples-add_sample :
      (w : MetricsWindow F) (s : MetricsSample F)
      → w.samples < 2 ^ 32 - 1
      → (add_sample F w s).samples ≡ w.samples + (if any F s then 1 else 0)
  unfolding add_sample
  samples-add_sample w s h = ground arith
