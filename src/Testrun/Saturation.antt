-- ===== src/Testrun/Saturation.antt =====
-- The stop conditions of `sample` in internal/testrun/runner.go: a metric that is over its threshold
-- in three samples in a row stops the test.
use swarmdialer.Prelude.{
  ℕ, zero, suc, ◌+◌, ◌-◌, ◌*◌, ◌≤◌, ◌<◌, ◌≡◌, ◌≢◌, ◌↔◌, refl, sym, subst, ◌∙◌, ap, String, ◌==s◌,
  eq_iff, eq_refl, Bool, true, false, Option, none, some, List, [], ◌∷◌, ◌++◌, arith, leb, ltb,
  if◌then◌else◌, Bool-cases, Option-cases, fun_ext, inl, inr, ◌⊎◌, All,
}
use swarmdialer.Testrun.Samples.{
  Metric, host_cpu, host_mem, tool_cpu, vps_cpu, vps_mem, same_metric, StopReason, host_cpu_100,
  host_ram_100, vps_cpu_limit, vps_ram_limit, swarmdialer_overloaded, StopDetail, over_threshold,
  VpsMetrics, VpsLimits, Sample,
}
pub mod InARow
pub mod Distinct

abbrev pub saturated_pct : ℕ
saturated_pct = 9500

abbrev pub saturated_samples : ℕ
saturated_samples = 3

abbrev pub swarmdialer_max_pct : ℕ
swarmdialer_max_pct = 8000

-- A call of `check`.
pub record Check : Type 0 where
  pub metric : Metric
  pub is_over : Bool
  pub reason : StopReason
  pub value : ℕ

abbrev pub megabytes : ℕ → ℕ
megabytes n = n * 1_048_576

unfoldable pub vps_checks : (String → VpsLimits) → List (String × VpsMetrics) → List Check
vps_checks limits [] = []
vps_checks limits ((role, v) ∷ vps) =
    let rest = vps_checks limits vps in
    let mem = megabytes (limits role).mem_limit_mb in
    let with_mem : List Check =
      if ltb 0 (limits role).mem_limit_mb
      then record {
        metric = vps_mem role;
        is_over = leb (saturated_pct * mem) (10_000 * v.mem_bytes);
        reason = vps_ram_limit;
        value = v.mem_bytes;
      }
        ∷ rest
      else rest in
    if ltb 0 (limits role).cpu_limit
    then record {
      metric = vps_cpu role;
      is_over = leb (saturated_pct * (limits role).cpu_limit) v.cpu_pct;
      reason = vps_cpu_limit;
      value = v.cpu_pct;
    }
      ∷ with_mem
    else with_mem

-- The calls of `check` in their order.
unfoldable pub checks_of : (String → VpsLimits) → Sample → List Check
unfolding vps_checks
checks_of limits s =
    record {
      metric = host_cpu;
      is_over = leb saturated_pct s.host.cpu_pct;
      reason = host_cpu_100;
      value = s.host.cpu_pct;
    }
    ∷ record {
      metric = host_mem;
      is_over = leb saturated_pct s.host.mem_pct;
      reason = host_ram_100;
      value = s.host.mem_pct;
    }
    ∷ (vps_checks limits s.vps
        ++ record {
          metric = tool_cpu;
          is_over = leb swarmdialer_max_pct s.local_cpu_pct;
          reason = swarmdialer_overloaded;
          value = s.local_cpu_pct;
        }
          ∷ [])

abbrev pub put_count : Metric → ℕ → (Metric → ℕ) → Metric → ℕ
put_count k n counts m = if same_metric k m then n else counts m

abbrev pub next_count : Check → (Metric → ℕ) → ℕ
next_count c counts = if c.is_over then suc (counts c.metric) else 0

-- The checks until one stops the test: its reason and detail, and the counts.
unfoldable pub run_checks :
    List Check → (Metric → ℕ) → Option (StopReason × StopDetail) × (Metric → ℕ)
run_checks [] counts = (none, counts)
run_checks (c ∷ cs) counts =
    let n = next_count c counts in
    let rest = run_checks cs (put_count c.metric n counts) in
    if leb saturated_samples n
    then (some (c.reason, over_threshold c.metric c.value), put_count c.metric n counts)
    else rest

-- The samples of a test, the first one first, until one stops it.
unfoldable pub watch :
    List (List Check) → (Metric → ℕ) → Option (StopReason × StopDetail) × (Metric → ℕ)
watch [] counts = (none, counts)
watch (cs ∷ css) counts =
    let rest = watch css (run_checks cs counts).1 in
    elim (run_checks cs counts).0 [
      | none ↦ rest
      | some stop ↦ (some stop, (run_checks cs counts).1)
    ]
