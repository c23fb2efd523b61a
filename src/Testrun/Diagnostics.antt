-- ===== src/Testrun/Diagnostics.antt =====
-- internal/testrun/diagnostics.go, `diagnoseSample`, `atStop`, `cleanStatus` and the failures of
-- `finishDiagnostics`; and the cap on a test's events.
use swarmdialer.Prelude.{
  ℕ, zero, suc, ◌+◌, ◌-◌, ◌*◌, ◌/◌, ◌≤◌, ◌<◌, ◌≡◌, refl, sym, ◌∙◌, ap, String, Bool, true, false,
  ◌&&◌, ◌||◌, not, Option, none, some, List, [], ◌∷◌, ◌++◌, map, arith, leb, ltb, ◌==◌,
  if◌then◌else◌, length, All,
}
use swarmdialer.Text.{Bytes, bytes, bytes_eq}
use swarmdialer.Health.{split_failure_key}
use swarmdialer.Testrun.Samples.{
  Phase, baseline, ramping, holding, rolling_on, stopping, cooldown, Metric, host_cpu, host_mem,
  tool_cpu, vps_cpu, vps_mem, same_metric, Event, EventCode, threshold_near, failures_started,
  registration_lost, send_drops, VpsMetrics, VpsLimits, Sample, HealthView, Diag, TestState,
  log_event, max_events,
}
use swarmdialer.Testrun.Saturation.{saturated_pct, swarmdialer_max_pct, megabytes}
pub mod Failures
pub mod Status

-- A call of `near` in `diagnoseSample`: whether the value is within 80% of the threshold, and what it is
-- (a VPS's as it was measured, before the division by its limit).
pub record Nearing : Type 0 where
  pub metric : Metric
  pub is_near : Bool
  pub value : ℕ

-- pct >= 0.8 * threshold
abbrev pub within_near : ℕ → ℕ → Bool
within_near pct threshold = leb (8 * threshold) (10 * pct)

unfoldable pub near_vps : (String → VpsLimits) → List (String × VpsMetrics) → List Nearing
near_vps limits [] = []
near_vps limits ((role, v) ∷ vps) =
    let rest = near_vps limits vps in
    let cores = (limits role).cpu_limit in
    let mem = megabytes (limits role).mem_limit_mb in
    let with_mem : List Nearing =
      if ltb 0 (limits role).mem_limit_mb
      then record {
        metric = vps_mem role;
        is_near = within_near (10_000 * v.mem_bytes) (saturated_pct * mem);
        value = v.mem_bytes;
      }
        ∷ rest
      else rest in
    if ltb 0 cores
    then record {
      metric = vps_cpu role;
      is_near = within_near v.cpu_pct (saturated_pct * cores);
      value = v.cpu_pct;
    }
      ∷ with_mem
    else with_mem

unfoldable pub nearings : (String → VpsLimits) → Sample → List Nearing
unfolding near_vps
nearings limits s =
    record {
      metric = host_cpu;
      is_near = within_near s.host.cpu_pct saturated_pct;
      value = s.host.cpu_pct;
    }
    ∷ record {
      metric = host_mem;
      is_near = within_near s.host.mem_pct saturated_pct;
      value = s.host.mem_pct;
    }
    ∷ (near_vps limits s.vps
        ++ record {
          metric = tool_cpu;
          is_near = within_near s.local_cpu_pct swarmdialer_max_pct;
          value = s.local_cpu_pct;
        }
          ∷ [])

unfoldable pub note_near : Sample → List Nearing → TestState → TestState
unfolding log_event
note_near s [] st = st
note_near s (n ∷ ns) st = note_near s ns (
    if n.is_near && not (st.diag.near n.metric)
    then log_event
        (record { ts = s.at; calls = s.concurrent_calls; code = threshold_near n.metric n.value })
        (record st {
          diag = record (st.diag) {
            near = λ m. if same_metric n.metric m then true else st.diag.near m;
          };
        })
    else st)

unfoldable pub note_drops : Sample → TestState → TestState
unfolding log_event
note_drops s st =
    if ltb 0 s.udp_send_drops && not st.diag.drops_seen
    then log_event
        (record { ts = s.at; calls = s.concurrent_calls; code = send_drops s.udp_send_drops })
        (record st { diag = record (st.diag) { drops_seen = true } })
    else st

-- A counter passes its value at the start between the sample before and this one.
abbrev pub begins : ℕ → ℕ → ℕ → Bool
begins start prev now = ltb start now && leb prev start

-- A failure cause that begins: noted and logged.
unfoldable pub note_failure : Sample → Bytes → ℕ → ℕ → ℕ → TestState → TestState
unfolding log_event split_failure_key
note_failure s key start prev now st =
    if begins start prev now
    then log_event
        (record {
          ts = s.at;
          calls = s.concurrent_calls;
          code = failures_started (split_failure_key key).0 (split_failure_key key).1;
        })
        (record st {
          diag = record (st.diag) {
            first_failure = λ k.
                if bytes_eq key k then some (s.concurrent_calls, s.at) else st.diag.first_failure k;
          };
        })
    else st

-- The loop over the failure keys.
unfoldable pub note_failures : Sample → List Bytes → HealthView → TestState → TestState
unfolding note_failure
note_failures s [] h st = st
note_failures s (key ∷ keys) h st = note_failures s keys h (
    note_failure s key (st.diag.start.health.failures key) (st.diag.prev.health.failures key)
      (h.health.failures key) st)

unfoldable pub note_lost : Sample → HealthView → TestState → TestState
unfolding log_event
note_lost s h st =
    if ltb st.diag.prev.not_registered h.not_registered
    then log_event
        (record {
          ts = s.at;
          calls = s.concurrent_calls;
          code = registration_lost (h.not_registered - st.diag.prev.not_registered);
        })
        st
    else st

abbrev pub set_prev : HealthView → TestState → TestState
set_prev h st = record st { diag = record (st.diag) { prev = h } }

-- `diagnoseSample`; `keys` are those of the health's failures, in the order they are ranged over.
unfoldable pub diagnose_sample :
    (String → VpsLimits) → List Bytes → HealthView → Sample → TestState → TestState
unfolding note_near nearings note_drops note_failures note_failure note_lost
diagnose_sample limits keys h s st =
    let st₁ = note_drops s (note_near s (nearings limits s) st) in
    elim st₁.diag.at_stop [
      | some stop ↦ set_prev h st₁
      | none ↦
          let st₂ = note_failures s keys h st₁ in
          let st₃ =
            note_failure s (bytes "dropped") st₂.diag.start.health.dropped
              st₂.diag.prev.health.dropped h.health.dropped st₂ in
          let st₄ =
            note_failure s (bytes "no_audio") st₃.diag.start.health.no_audio
              st₃.diag.prev.health.no_audio h.health.no_audio st₃ in
          set_prev h (note_lost s h st₄)
    ]

-- The sample of `atStop`: the last one under load.
abbrev pub is_load : Phase → Bool
is_load baseline = false
is_load cooldown = false
is_load stopping = false
is_load _ = true

unfoldable pub at_stop_sample : List Sample → Option Sample
at_stop_sample [] = none
at_stop_sample (s ∷ ss) =
    let rest = at_stop_sample ss in
    elim rest [ some t ↦ some t | none ↦ if is_load s.phase then some s else none ]
