-- ===== src/Testrun/Sampling.antt =====
-- `sample` of internal/testrun/runner.go: one sample of a running test, from what the monitor and the
-- session answer to the reason to stop. A child shows what the bookkeeping keeps.
use swarmdialer.Prelude.{
  ℕ, zero, suc, ◌+◌, ◌-◌, ◌*◌, ◌/◌, ◌%◌, ◌^◌, ◌≤◌, ◌<◌, ◌≡◌, refl, sym, ◌∙◌, ap, String, Bool, true,
  false, ◌&&◌, ◌||◌, not, Option, none, some, List, [], ◌∷◌, ◌++◌, map, arith, leb, ltb, ◌==◌,
  if◌then◌else◌, length, All,
}
use swarmdialer.Text.{Bytes}
use swarmdialer.Testrun.Profile.{off, recording_bytes_per_second}
use swarmdialer.Testrun.Stats.{stats_of}
use swarmdialer.Testrun.Samples.{
  Phase, baseline, ramping, holding, rolling_on, stopping, cooldown, Source, prometheus_host,
  prometheus_vps, StopReason, StopDetail, Degraded, new_failed, slow_setup, quality_degraded,
  ramdisk_full, Event, VpsLimits, UdpCounters, Metric, Sample, HealthView, LiveCall, Reading, Diag,
  TestState, log_event, note_api_error,
}
use swarmdialer.Testrun.Saturation.{checks_of, run_checks}
use swarmdialer.Testrun.Diagnostics.{diagnose_sample, is_load}
pub mod Logs
pub mod Bookkeeping
pub mod Watched
pub mod Third

-- Subtraction of uint64.
abbrev pub sub_u64 : ℕ → ℕ → ℕ
sub_u64 a b = (a + 2 ^ 64 - b) % 2 ^ 64

abbrev pub drops_between : UdpCounters → UdpCounters → ℕ
drops_between prev u =
    if leb prev.sndbuf_errors u.sndbuf_errors then u.sndbuf_errors - prev.sndbuf_errors else 0

-- `UDPSendDrops`
unfoldable pub send_drops_of : Option UdpCounters → Diag → ℕ
send_drops_of none d = 0
send_drops_of (some u) d = if d.udp_ok then drops_between d.udp_prev u else 0

unfoldable pub set_udp : Option UdpCounters → Diag → Diag
set_udp none d = d
set_udp (some u) d = if d.udp_ok then record d { udp_prev = u } else d

unfoldable pub note_errors : Reading → TestState → TestState
unfolding note_api_error
note_errors r st =
    let st₁ = if r.is_host_failed then note_api_error r.at prometheus_host st else st in
    if r.is_vps_failed then note_api_error r.at prometheus_vps st₁ else st₁

-- The setup times of the calls placed in the last thirty seconds.
unfoldable pub recent_setups : List LiveCall → List ℕ
recent_setups [] = []
recent_setups (c ∷ cs) =
    let rest = recent_setups cs in if ltb c.age 30_000 then c.setup_ms ∷ rest else rest

-- What the active calls have recorded so far, in ten thousandths of a byte: `rate` is in tenths of a
-- byte per second and an age in milliseconds.
unfoldable pub recorded : ℕ → List LiveCall → ℕ
recorded rate [] = 0
recorded rate (c ∷ cs) = rate * c.age + recorded rate cs

-- round2 of megabytes: hundredths, halves up.
abbrev pub ramdisk_estimate : ℕ → ℕ
ramdisk_estimate bytes = (2 * 100 * bytes + 10_485_760_000) / 20_971_520_000

unfoldable pub make_sample : Phase → Reading → ℕ → TestState → Sample
unfolding recent_setups recorded stats_of recording_bytes_per_second
make_sample phase r drops st =
    let rate = recording_bytes_per_second st.test.recording st.test.recording_format in
    record {
      at = r.at;
      phase = phase;
      host = r.host;
      vps = r.vps;
      local_cpu_pct = r.local_cpu_pct;
      concurrent_calls = length r.active;
      started = r.started;
      answered = r.answered;
      failed = r.failed;
      setup_p95_ms = (stats_of (recent_setups r.active)).p95;
      ramdisk_est = if ltb 0 rate then ramdisk_estimate (recorded rate r.active) else 0;
      cps = st.cps;
      udp_send_drops = drops;
    }

unfoldable pub add_sample : Sample → TestState → TestState
add_sample s st = record st {
  samples = st.samples ++ s ∷ [];
  max_concurrent =
      if ltb st.max_concurrent s.concurrent_calls then s.concurrent_calls else st.max_concurrent;
}

-- The recording RAM disk is estimated 95% full for the first time: noted.
unfoldable pub note_ramdisk : Sample → TestState → TestState
unfolding log_event recording_bytes_per_second
note_ramdisk s st = elim st.ramdisk_full_at [
  | some x ↦ st
  | none ↦
      if ltb 0 (recording_bytes_per_second st.test.recording st.test.recording_format)
        && (ltb 0 st.ramdisk_mb && leb (95 * st.ramdisk_mb) s.ramdisk_est)
      then log_event
          (record { ts = s.at; calls = s.concurrent_calls; code = ramdisk_full s.ramdisk_est })
          (record st { ramdisk_full_at = some (s.concurrent_calls, s.at) })
      else st
]

abbrev pub degrade_setup_p95_ms : ℕ
degrade_setup_p95_ms = 500

-- Why the quality of new calls is degraded: over one in a hundred has failed, or their setup is slow.
unfoldable pub degraded_by : ℕ → ℕ → ℕ → Option Degraded
degraded_by failed total setup_p95_ms =
    if ltb 0 total && ltb total (100 * failed)
    then some (new_failed failed total)
    else (if ltb degrade_setup_p95_ms setup_p95_ms then some (slow_setup setup_p95_ms) else none)

-- The first sample at which the quality is degraded: noted.
unfoldable pub note_degraded : Sample → Option Degraded → TestState → TestState
unfolding log_event
note_degraded s why st = elim st.degraded_at [
  | some x ↦ st
  | none ↦ elim why [
    | none ↦ st
    | some d ↦
        log_event (record { ts = s.at; calls = s.concurrent_calls; code = quality_degraded d })
          (record st { degraded_at = some (s.concurrent_calls, d) })
  ]
]

abbrev pub set_last : Sample → TestState → TestState
set_last s st = record st { last_failed = s.failed; last_answered = s.answered }

unfoldable pub note_quality : Sample → TestState → TestState
unfolding note_degraded degraded_by
note_quality s st =
    let failed = sub_u64 s.failed st.last_failed in
    let total = (failed + sub_u64 s.answered st.last_answered) % 2 ^ 64 in
    note_degraded s (degraded_by failed total s.setup_p95_ms) (set_last s st)

abbrev pub set_checked : Option (StopReason × StopDetail) × (Metric → ℕ) → TestState → TestState
set_checked (none, counts) st = record st { saturated = counts }
set_checked (some (reason, detail), counts) st = record st {
  saturated = counts;
  stop_detail = detail;
}

abbrev pub reason_of : Option (StopReason × StopDetail) → Option StopReason
reason_of none = none
reason_of (some (reason, _)) = some reason

-- The part of `sample` that is for the phases under load.
unfoldable pub judge : (String → VpsLimits) → Sample → TestState → TestState × Option StopReason
unfolding note_quality note_ramdisk checks_of run_checks
judge limits s st =
    let found = run_checks (checks_of limits s) st.saturated in
    (set_checked found (note_quality s (note_ramdisk s st)), reason_of found.0)

-- The sample taken in a phase, and the state with it.
unfoldable pub sampled : Phase → Reading → TestState → Sample × TestState
unfolding send_drops_of set_udp note_errors make_sample add_sample
sampled phase r st =
    let st₁ = note_errors r (record st { diag = set_udp r.udp st.diag }) in
    let s = make_sample phase r (send_drops_of r.udp st.diag) st₁ in (s, add_sample s st₁)

unfoldable pub diagnosed : (String → VpsLimits) → Phase → Reading → Sample → TestState → TestState
unfolding diagnose_sample
diagnosed limits baseline r s st = st
diagnosed limits phase r s st = diagnose_sample limits r.failure_keys r.health s st

unfoldable pub sample :
    (String → VpsLimits) → Phase → Reading → TestState → TestState × Option StopReason
unfolding sampled diagnosed judge
sample limits phase r st =
    let (s, st₁) = sampled phase r st in
    let st₂ = diagnosed limits phase r s st₁ in
    if is_load phase then judge limits s st₂ else (st₂, none)
