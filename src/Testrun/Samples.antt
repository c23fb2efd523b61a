-- ===== src/Testrun/Samples.antt =====
-- internal/testrun/runner.go and diagnostics.go: what one sample holds, the events of a test, and the
-- bookkeeping of a running test (`Sample`, `Event`, `testState`, `diag`, and `Result` as far as it is
-- filled in while the test runs). Percentages are hundredths. Maps by role are lists in the order in
-- which they are ranged over. `Reading` is what the monitor and the session answer at one sample.
use swarmdialer.Prelude.{
  ℕ, String, ◌==s◌, Bool, true, false, Option, none, some, List, [], ◌∷◌, ◌++◌, ltb, if◌then◌else◌,
  length,
}
use swarmdialer.Text.{Bytes}
use swarmdialer.Health.{Health}
use swarmdialer.Testrun.Profile.{Test}

pub data Phase : Type 0 where
  baseline ramping holding rolling_on stopping cooldown : Phase

-- The keys of `saturated` and of `near`; a role is "MT" or "CC".
pub data Metric : Type 0 where
  host_cpu host_mem tool_cpu : Metric
  vps_cpu vps_mem : String → Metric

abbrev pub same_metric : Metric → Metric → Bool
same_metric host_cpu host_cpu = true
same_metric host_mem host_mem = true
same_metric tool_cpu tool_cpu = true
same_metric (vps_cpu r) (vps_cpu s) = r ==s s
same_metric (vps_mem r) (vps_mem s) = r ==s s
same_metric _ _ = false

pub data Source : Type 0 where
  prometheus_host prometheus_vps pbxware_cdr pbxware_mos : Source

abbrev pub same_api : Source → Source → Bool
same_api prometheus_host prometheus_host = true
same_api prometheus_vps prometheus_vps = true
same_api pbxware_cdr pbxware_cdr = true
same_api pbxware_mos pbxware_mos = true
same_api _ _ = false

pub data StopReason : Type 0 where
  target_reached target_not_reached host_cpu_100 host_ram_100 vps_cpu_limit vps_ram_limit
        swarmdialer_overloaded cancelled error :
      StopReason

-- `StopDetail`, by the values that its text is formatted from.
pub data StopDetail : Type 0 where
  no_detail no_free_extensions every_call_ended : StopDetail
  over_threshold : Metric → ℕ → StopDetail
  ran_at_once : ℕ → ℕ → StopDetail

-- `QualityDegradedReason`: new failures of new calls, or the setup time in milliseconds.
pub data Degraded : Type 0 where
  new_failed : ℕ → ℕ → Degraded
  slow_setup : ℕ → Degraded

pub data EventCode : Type 0 where
  threshold_near : Metric → ℕ → EventCode
  quality_degraded : Degraded → EventCode
  failures_started : Bytes → ℕ → EventCode
  ramdisk_full : ℕ → EventCode
  registration_lost : ℕ → EventCode
  api_error : Source → EventCode
  stopped : StopReason → EventCode
  send_drops : ℕ → EventCode

pub record Event : Type 0 where
  pub ts : ℕ
  pub calls : ℕ
  pub code : EventCode

pub record HostMetrics : Type 0 where
  pub cpu_pct : ℕ
  pub mem_pct : ℕ
  pub iowait_pct : ℕ

pub record VpsMetrics : Type 0 where
  pub cpu_pct : ℕ  -- of one core
  pub mem_bytes : ℕ
  pub asterisk_cpu_pct : ℕ
  pub pbx_calls : Option ℕ

pub record VpsLimits : Type 0 where
  pub cpu_limit : ℕ
  pub mem_limit_mb : ℕ
  pub callrec_ram_mb : ℕ

pub record UdpCounters : Type 0 where
  pub out_datagrams : ℕ
  pub sndbuf_errors : ℕ
  pub rcvbuf_errors : ℕ
  pub in_errors : ℕ

pub record Sample : Type 0 where
  pub at : ℕ
  pub phase : Phase
  pub host : HostMetrics
  pub vps : List (String × VpsMetrics)
  pub local_cpu_pct : ℕ
  pub concurrent_calls : ℕ
  pub started : ℕ
  pub answered : ℕ
  pub failed : ℕ
  pub setup_p95_ms : ℕ
  pub ramdisk_est : ℕ  -- hundredths of a megabyte
  pub cps : ℕ
  pub udp_send_drops : ℕ

-- What `Session.Health` returns.
pub record HealthView : Type 0 where
  pub health : Health
  pub extensions : ℕ
  pub not_registered : ℕ
  pub refresh_failures : ℕ

-- An active call's age and setup time, in milliseconds.
pub record LiveCall : Type 0 where
  pub age : ℕ
  pub setup_ms : ℕ

-- Times are seconds since the test started. `failure_keys` are the keys of the health's failures.
pub record Reading : Type 0 where
  pub at : ℕ
  pub local_cpu_pct : ℕ
  pub udp : Option UdpCounters
  pub host : HostMetrics
  pub is_host_failed : Bool
  pub vps : List (String × VpsMetrics)
  pub is_vps_failed : Bool
  pub active : List LiveCall
  pub started : ℕ
  pub answered : ℕ
  pub failed : ℕ
  pub health : HealthView
  pub failure_keys : List Bytes

pub record Diag : Type 0 where
  pub start : HealthView
  pub prev : HealthView
  pub at_stop : Option HealthView
  pub udp_start : UdpCounters
  pub udp_prev : UdpCounters
  pub udp_ok : Bool
  pub drops_seen : Bool
  pub near : Metric → Bool
  pub api_err_seen : Source → Bool
  pub first_failure : Bytes → Option (ℕ × ℕ)  -- calls, seconds

pub record TestState : Type 0 where
  pub test : Test
  pub samples : List Sample
  pub max_concurrent : ℕ
  pub events : List Event
  pub ramdisk_full_at : Option (ℕ × ℕ)  -- calls, when
  pub degraded_at : Option (ℕ × Degraded)
  pub stop_detail : StopDetail
  pub ramdisk_mb : ℕ
  pub saturated : Metric → ℕ
  pub last_failed : ℕ
  pub last_answered : ℕ
  pub cps : ℕ
  pub diag : Diag

abbrev pub max_events : ℕ
max_events = 100

unfoldable pub log_event : Event → TestState → TestState
log_event e st =
    if ltb (length st.events) max_events then record st { events = st.events ++ e ∷ [] } else st

unfoldable pub last_sample : List Sample → Option Sample
last_sample [] = none
last_sample (s ∷ []) = some s
last_sample (s ∷ t ∷ ss) = last_sample (t ∷ ss)

-- `apiError`
unfoldable pub note_api_error : ℕ → Source → TestState → TestState
unfolding log_event last_sample
note_api_error now source st =
    let calls : ℕ = elim (last_sample st.samples) [ none ↦ 0 | some s ↦ s.concurrent_calls ] in
    if st.diag.api_err_seen source
    then st
    else log_event (record { ts = now; calls = calls; code = api_error source })
        (record st {
          diag = record (st.diag) {
            api_err_seen = λ s. if same_api source s then true else st.diag.api_err_seen s;
          };
        })
