-- ===== src/Tests/Metrics.antt =====
-- The metrics of a job, with natural numbers in place of doubles.
use swm_core.Prelude.{
  ℕ, ◌+◌, ◌*◌, ◌/◌, true, false, ◌&&◌, List, [], ◌∷◌, length, is_empty, Option, some, none, ltb,
  ◌≡◌, ◌≢◌, ◌⊎◌, refl, arith, Bytes, codes, pos, int_ltb, ◌≤ℤ◌, ◌-ℤ◌,
}
use swm_core.Metrics.Config.{
  MetricsConfig, config_from_env, enabled, asked_sample, asked_report, config_from_env_lem,
}
use swm_core.Metrics.Window.{Doubles, MetricsSample, MetricsWindow, reset, add_sample, ready}
use swm_core.Metrics.Window.Totals.{Totals}
use swm_core.Metrics.Sample.{Host, MetricsState, read_usage_usec, take_sample}
use swm_core.Metrics.Report.{report, report_arity, send_aggregated}
use swm_core.Metrics.Cycle.{
  Surroundings, flush_window, started, sampled, too_early, maybe_send, flush,
}
use swm_core.Metrics.Cycle.Samples.{reported, IsStarted, taken, maybe_send-samples}
use swm_core.Metrics.Cycle.Timing.{maybe_send_sent, flush_samples}

abbrev pub naturals : Doubles
naturals = record {
  Double = ℕ;
  zero_d = 0;
  of_nat = λ n. n;
  add = λ a b. a + b;
  mul = λ a b. a * b;
  div = λ a b. a / b;
  gt = λ a b. ltb b a;
  llround = λ n. n;
}

abbrev env : List (Bytes × Bytes)
env =
    (codes "SWM_METRICS_INTERVAL_MS", codes "60000")
    ∷ (codes "SWM_METRICS_REPORT_MS", codes "30000")
    ∷ (codes "SWM_METRICS_GPU", codes "1")
    ∷ []

config_from_env_lem_example :
    (enabled (config_from_env env)
      ≡ (int_ltb (pos 0) (asked_sample env) && int_ltb (pos 0) (asked_report env)))
    × ((config_from_env env).report_interval_ms ≡ asked_report env)
    × ((config_from_env env).sample_interval_ms ≤ℤ asked_sample env)
    × ((enabled (config_from_env env) ≡ false)
        ⊎ ((config_from_env env).sample_interval_ms ≤ℤ (config_from_env env).report_interval_ms))
config_from_env_lem_example = config_from_env_lem env

abbrev sample_of : Option ℕ → Option ℕ → MetricsSample naturals
sample_of cpu mem = record {
  cpu_percent = cpu;
  mem_bytes = mem;
  gpu_util_percent = none;
  gpu_mem_bytes = none;
}

abbrev samples : List (MetricsSample naturals)
samples = sample_of (some 40) (some 900) ∷ sample_of none none ∷ sample_of none (some 500) ∷ []

-- A window with three samples, two minutes old at 200000.
abbrev window : MetricsWindow naturals
window = record {
  start_ms = pos 80000;
  samples = 3;
  cpu_samples = 2;
  mem_samples = 3;
  gpu_samples = 0;
  cpu_sum = 90;
  cpu_max = 60;
  mem_sum = 3000;
  mem_max = 1200;
  gpu_util_sum = 0;
  gpu_util_max = 0;
  gpu_mem_sum = 0;
  gpu_mem_max = 0;
}

report_arity_example :
    length (report naturals (codes "job") (codes "node") (pos 9) window).entries
    ≡ (report naturals (codes "job") (codes "node") (pos 9) window).arity
report_arity_example = report_arity naturals (codes "job") (codes "node") (pos 9) window

abbrev host : Host
host = record {
  v2 = true;
  self_cgroup = some (codes "0::/job" ∷ []);
  cpu_stat = λ p. some ((codes "usage_usec", 5000) ∷ []);
  memory_current = λ p. some 1000;
  online = pos 4;
  devices = none;
  device = λ i. none;
}

abbrev pub surroundings : Surroundings
surroundings = record { host = host; encodes = true; job_id = codes "job"; node = codes "node" }

abbrev pub config : MetricsConfig
config = record {
  sample_interval_ms = pos 15000;
  report_interval_ms = pos 120000;
  collect_gpu = false;
}

abbrev pub state : MetricsState naturals
state = record {
  cgroup_v2_ok = true;
  cgroup_checked = true;
  warned_no_v2 = false;
  cgroup_path = codes "/sys/fs/cgroup/job";
  last_usage_usec = 1000;
  last_sample_ms = pos 180000;
  have_cpu_baseline = true;
  window = window;
}

pub state-IsStarted : IsStarted naturals state
state-IsStarted h = absurd (ground arith)

maybe_send-samples_example :
    reported naturals (maybe_send naturals surroundings config state (pos 200000)).sent
      + (maybe_send naturals surroundings config state (pos 200000)).state.window.samples
    ≡ 3 + taken naturals config host state (pos 200000)
maybe_send-samples_example =
    maybe_send-samples naturals surroundings config state (pos 200000) state-IsStarted (omega arith)

not_empty : {A : Type 0} (xs : List A) → is_empty xs ≡ false → xs ≢ []
not_empty [] e h = absurd (cc)
not_empty (x ∷ xs) e h = absurd (cc)

state_sends : (maybe_send naturals surroundings config state (pos 200000)).sent ≢ []
unfolding maybe_send flush_window send_aggregated sampled started take_sample add_sample ready
    read_usage_usec
state_sends = not_empty (maybe_send naturals surroundings config state (pos 200000)).sent refl

maybe_send_sent_example :
    (enabled config ≡ true)
    × (too_early naturals config state (pos 200000) ≡ false)
    × (pos 120000 ≤ℤ pos 200000 -ℤ pos 80000)
    × ((maybe_send naturals surroundings config state (pos 200000)).state.window
        ≡ reset naturals (pos 200000))
maybe_send_sent_example =
    maybe_send_sent naturals surroundings config state (pos 200000) state_sends

flush_samples_example :
    ((flush naturals surroundings config state (pos 200000)).ok ≡ true)
    × (reported naturals (flush naturals surroundings config state (pos 200000)).sent
        ≡ 3 + taken naturals config host state (pos 200000))
    × ((flush naturals surroundings config state (pos 200000)).state.window
        ≡ reset naturals (pos 200000))
flush_samples_example =
    flush_samples naturals surroundings config state (pos 200000) refl refl state-IsStarted
      (omega arith)
