-- ===== src/Metrics/Config.antt =====
-- The configuration that a job's environment gives: `porter_metrics_config_from_job`.
use swm_core.Prelude.{
  ℕ, zero, suc, ◌^◌, Bool, true, false, ◌&&◌, ◌||◌, List, [], ◌∷◌, Option, none, some, ltb, leb,
  ◌==◌, if◌then◌else◌, Bytes, codes, bytes_eq, ℤ, pos, negsuc, int_ltb, ◌≤ℤ◌, ◌≡◌, arith,
  Bool-cases, ◌⊎◌, inl, inr,
}
use swm_core.Numbers.{read_nat}

pub record MetricsConfig : Type 0 where
  pub sample_interval_ms : ℤ
  pub report_interval_ms : ℤ
  pub collect_gpu : Bool

abbrev pub default : MetricsConfig
default = record {
  sample_interval_ms = pos 15000;
  report_interval_ms = pos 120000;
  collect_gpu = false;
}

-- The first value of the key in `job.env`.
pub env_value : List (Bytes × Bytes) → Bytes → Option Bytes
env_value [] key = none
env_value ((k, v) ∷ env) key =
    let later = env_value env key in if bytes_eq k key then some v else later

-- The values of `int64_t`.
abbrev in_i64 : Bool → ℕ → Option ℤ
in_i64 true zero = some (pos 0)
in_i64 true (suc n) = if leb (suc n) (2 ^ 63) then some (negsuc n) else none
in_i64 false n = if ltb n (2 ^ 63) then some (pos n) else none

-- All of the text is a number: an optional minus and digits.
whole : Bool → Option (ℕ × Bytes) → Option ℤ
whole minus none = none
whole minus (some (n, [])) = in_i64 minus n
whole minus (some (n, c ∷ rest)) = none

-- `std::from_chars`, which takes neither spaces nor a plus.
unfoldable parse_i64 : Bytes → Option ℤ
unfolding whole read_nat
parse_i64 [] = none
parse_i64 (c ∷ s) = if c == b'-' then whole true (read_nat s) else whole false (read_nat (c ∷ s))

-- A setting that is missing or is no number leaves the default.
pub setting : Option Bytes → ℤ → ℤ
setting none d = d
setting (some v) d = elim (parse_i64 v) [ none ↦ d | some z ↦ z ]

clamp : MetricsConfig → MetricsConfig
clamp c =
    if int_ltb (pos 0) c.report_interval_ms && int_ltb c.report_interval_ms c.sample_interval_ms
    then record c { sample_interval_ms = c.report_interval_ms }
    else c

gpu_setting : Option Bytes → Bool
gpu_setting none = false
gpu_setting (some v) =
    bytes_eq v (codes "1") || bytes_eq v (codes "true") || bytes_eq v (codes "yes")

pub config_from_env : List (Bytes × Bytes) → MetricsConfig
unfolding env_value setting clamp gpu_setting parse_i64
config_from_env env =
    let sample =
      setting (env_value env (codes "SWM_METRICS_INTERVAL_MS")) default.sample_interval_ms in
    let report =
      setting (env_value env (codes "SWM_METRICS_REPORT_MS")) default.report_interval_ms in
    let c = clamp (record default { sample_interval_ms = sample; report_interval_ms = report }) in
    record c { collect_gpu = gpu_setting (env_value env (codes "SWM_METRICS_GPU")) }

-- The metrics run at all.
abbrev pub enabled : MetricsConfig → Bool
enabled c = int_ltb (pos 0) c.sample_interval_ms && int_ltb (pos 0) c.report_interval_ms

clamp_lem :
    (c : MetricsConfig)
    → (enabled (clamp c) ≡ enabled c)
      × ((clamp c).report_interval_ms ≡ c.report_interval_ms)
      × (enabled c ≡ true → (clamp c).sample_interval_ms ≤ℤ c.report_interval_ms)
      × ((clamp c).sample_interval_ms ≤ℤ c.sample_interval_ms)
unfolding clamp
clamp_lem c = (ground arith, ground arith, ground arith, ground arith)

-- What the environment asks for.
abbrev pub asked_sample : List (Bytes × Bytes) → ℤ
asked_sample env =
    setting (env_value env (codes "SWM_METRICS_INTERVAL_MS")) default.sample_interval_ms

abbrev pub asked_report : List (Bytes × Bytes) → ℤ
asked_report env =
    setting (env_value env (codes "SWM_METRICS_REPORT_MS")) default.report_interval_ms

-- For every environment: the metrics run exactly if both intervals asked for are positive; the
-- report interval is the one asked for; the sample interval is never longer than the one asked for,
-- and if the metrics run it is never longer than the report interval.
pub config_from_env_lem :
    (env : List (Bytes × Bytes))
    → (enabled (config_from_env env)
        ≡ (int_ltb (pos 0) (asked_sample env) && int_ltb (pos 0) (asked_report env)))
      × ((config_from_env env).report_interval_ms ≡ asked_report env)
      × ((config_from_env env).sample_interval_ms ≤ℤ asked_sample env)
      × ((enabled (config_from_env env) ≡ false)
          ⊎ ((config_from_env env).sample_interval_ms ≤ℤ (config_from_env env).report_interval_ms))
unfolding config_from_env clamp
config_from_env_lem env =
    let l = clamp_lem (record default {
      sample_interval_ms = asked_sample env;
      report_interval_ms = asked_report env;
    }) in
    (
      l.0,
      l.1,
      l.3,
      elim (Bool-cases (enabled (config_from_env env))) [
        | inl on ↦ inr (ground (arith, l.1, l.2))
        | inr off ↦ inl off
      ],
    )
