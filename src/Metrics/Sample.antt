-- ===== src/Metrics/Sample.antt =====
-- One local sample: the cgroup files and NVML, and `take_sample`. What the host answers is an argument.
use swm_core.Prelude.{
  ℕ, zero, suc, ◌+◌, ◌-◌, ◌%◌, ◌^◌, Bool, true, false, ◌&&◌, not, List, [], ◌∷◌, ◌++◌, drop,
  is_empty, Option, none, some, leb, ◌==◌, if◌then◌else◌, Bytes, codes, bytes_eq, starts_with, ℤ,
  pos, negsuc, int_ltb, ◌-ℤ◌, pos_part, ◌≡◌, arith,
}
use swm_core.Metrics.Config.{MetricsConfig}
use swm_core.Metrics.Window.{Doubles, MetricsSample, MetricsWindow}

-- The host: whether the file cgroup.controllers is there, the lines of /proc/self/cgroup, the pairs
-- of a cpu.stat and the number of a memory.current as far as they can be read, the CPUs online, and
-- the GPUs: NVML loads with so many devices, and each gives its utilisation and used memory.
pub record Host : Type 0 where
  pub v2 : Bool
  pub self_cgroup : Option (List Bytes)
  pub cpu_stat : Bytes → Option (List (Bytes × ℕ))
  pub memory_current : Bytes → Option ℕ
  pub online : ℤ
  pub devices : Option ℕ
  pub device : ℕ → Option (ℕ × ℕ)

-- The part of a line behind `0::`, as an absolute path.
rooted : Bytes → Bytes
rooted [] = codes "/"
rooted (c ∷ rel) = if c == b'/' then c ∷ rel else b'/' ∷ c ∷ rel

v2_path : List Bytes → Bytes
v2_path [] = []
v2_path (l ∷ ls) =
    let later = v2_path ls in
    if starts_with (codes "0::") l then codes "/sys/fs/cgroup" ++ rooted (drop 3 l) else later

pub read_self_cgroup_v2_path : Option (List Bytes) → Bytes
unfolding v2_path rooted
read_self_cgroup_v2_path none = []
read_self_cgroup_v2_path (some ls) = v2_path ls

usage_in : List (Bytes × ℕ) → Option ℕ
usage_in [] = none
usage_in ((k, v) ∷ rest) =
    let later = usage_in rest in if bytes_eq k (codes "usage_usec") then some v else later

unfoldable pub read_usage_usec : Option (List (Bytes × ℕ)) → Option ℕ
unfolding usage_in
read_usage_usec none = none
read_usage_usec (some pairs) = usage_in pairs

pub ncpus : ℤ → ℕ
ncpus (pos zero) = 1
ncpus (pos (suc n)) = suc n
ncpus (negsuc n) = 1

module _ (F : Doubles) where
  open F use {Double, zero_d, of_nat, add, mul, div, gt}

  pub record MetricsState : Type 0 where
    pub cgroup_v2_ok : Bool
    pub cgroup_checked : Bool
    pub warned_no_v2 : Bool
    pub cgroup_path : Bytes
    pub last_usage_usec : ℕ
    pub last_sample_ms : ℤ
    pub have_cpu_baseline : Bool
    pub window : MetricsWindow F

  -- The loop of `query_gpu_nvml` over the devices from `i`, `left` of them: the sum of the
  -- utilisations, of the memory, and the number of devices that answered.
  gpu_sums : Host → ℕ → ℕ → Double → ℕ → ℕ → Double × ℕ × ℕ
  gpu_sums h zero i util mem ok = (util, mem, ok)
  gpu_sums h (suc left) i util mem ok = elim (h.device i) [
    | none ↦ gpu_sums h left (i + 1) util mem ok
    | some (u, m) ↦ gpu_sums h left (i + 1) (add util (of_nat u)) ((mem + m) % 2 ^ 64) (ok + 1)
  ]

  -- The average utilisation and the memory in use.
  pub query_gpu_nvml : Host → Option (Double × ℕ)
  unfolding gpu_sums
  query_gpu_nvml h = elim h.devices [
    | none ↦ none
    | some count ↦
        let (util, mem, ok) = gpu_sums h count 0 zero_d 0 0 in
        if ok == 0 then none else some (div util (of_nat ok), mem)
  ]

  pub ensure_cgroup : Host → MetricsState → MetricsState
  ensure_cgroup h s =
      let path = read_self_cgroup_v2_path h.self_cgroup in
      if s.cgroup_checked
      then s
      else if h.v2
      then record s {
        cgroup_checked = true;
        cgroup_v2_ok = true;
        cgroup_path = if is_empty path then codes "/sys/fs/cgroup" else path;
      }
      else record s { cgroup_checked = true; cgroup_v2_ok = false; warned_no_v2 = true }

  -- The share of the CPUs since the last sample, in percent.
  cpu_share : Host → MetricsState → ℤ → ℕ → Option Double
  cpu_share h s now_ms usage =
      let dt_ms = now_ms -ℤ s.last_sample_ms in
      let dt_usec = mul (of_nat (pos_part dt_ms)) (of_nat 1000) in
      let cpu =
        div (mul (of_nat 100) (of_nat (usage - s.last_usage_usec)))
          (mul dt_usec (of_nat (ncpus h.online))) in
      if (s.have_cpu_baseline && int_ltb (pos 0) s.last_sample_ms)
        && (int_ltb (pos 0) dt_ms && leb s.last_usage_usec usage)
      then some (if gt zero_d cpu then zero_d else cpu)
      else none

  abbrev no_values : MetricsSample F
  no_values = record {
    cpu_percent = none;
    mem_bytes = none;
    gpu_util_percent = none;
    gpu_mem_bytes = none;
  }

  sample_cpu : Host → MetricsState → ℤ → MetricsSample F × MetricsState
  unfolding cpu_share
  sample_cpu h s now_ms = elim (read_usage_usec (h.cpu_stat s.cgroup_path)) [
    | none ↦ (no_values, s)
    | some usage ↦ (
      record no_values { cpu_percent = cpu_share h s now_ms usage },
      record s { last_usage_usec = usage; have_cpu_baseline = true },
    )
  ]

  sample_cgroup : Host → MetricsState → ℤ → MetricsSample F × MetricsState
  unfolding sample_cpu
  sample_cgroup h s now_ms =
      let (x, t) = sample_cpu h s now_ms in
      if s.cgroup_v2_ok && not (is_empty s.cgroup_path)
      then (record x { mem_bytes = h.memory_current s.cgroup_path }, t)
      else (no_values, s)

  sample_gpu : MetricsConfig → Host → MetricsSample F → MetricsSample F
  sample_gpu c h x =
      if c.collect_gpu
      then elim (query_gpu_nvml h) [
        | none ↦ x
        | some (util, mem) ↦ record x { gpu_util_percent = some util; gpu_mem_bytes = some mem }
      ]
      else x

  unfoldable pub take_sample :
      MetricsConfig → Host → MetricsState → ℤ → MetricsSample F × MetricsState
  unfolding sample_cgroup sample_gpu ensure_cgroup
  take_sample c h s now_ms =
      let (x, t) = sample_cgroup h (ensure_cgroup h s) now_ms in
      (sample_gpu c h x, record t { last_sample_ms = now_ms })

  -- Sampling leaves the window alone and notes its time.
  pub take_sample_lem :
      (c : MetricsConfig) (h : Host) (s : MetricsState) (now_ms : ℤ)
      → ((take_sample c h s now_ms).1.window ≡ s.window)
        × ((take_sample c h s now_ms).1.last_sample_ms ≡ now_ms)
  unfolding take_sample
  take_sample_lem c h s now_ms = ground arith
