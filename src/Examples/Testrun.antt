-- ===== src/Examples/Testrun.antt =====
-- A recorded ramp test to three calls: two samples under load, three samples of a busy host, a run that
-- is cancelled in its second test, and the recordings of three calls.
use swarmdialer.Prelude.{
  ◌∙◌, ℕ, ◌≡◌, ◌↔◌, ◌≢◌, refl, String, Bool, true, false, none, some, List, [], ◌∷◌, ◌++◌,
  if◌then◌else◌, arith,
}
use swarmdialer.Text.{Bytes, bytes, bytes_eq}
use swarmdialer.Health.{no_health}
use swarmdialer.Testrun.Profile.{Test, stereo, off, ramp}
use swarmdialer.Testrun.Samples.{
  Phase, ramping, holding, Metric, Source, target_reached, host_cpu_100, no_detail, VpsLimits,
  UdpCounters, HealthView, Reading, Diag, TestState,
}
use swarmdialer.Testrun.Saturation.{watch, run_checks, checks_of}
use swarmdialer.Testrun.Saturation.InARow.{AnyThird, in_a_row}
use swarmdialer.Testrun.Sampling.Third.{sample-AnyThird}
use swarmdialer.Testrun.Ramp.{Round, RampEnd, RampPlan, run_ramp}
use swarmdialer.Testrun.Ramp.Ends.{run_ramp-ends}
use swarmdialer.Testrun.Sampling.{sample, sampled, reason_of}
use swarmdialer.Testrun.Sampling.Bookkeeping.{IsSound, most_calls, sample-IsSound}
use swarmdialer.Testrun.Sampling.Watched.{load_samples, checks_in, load_samples-watch}
use swarmdialer.Testrun.Script.{Meets, run, set_recording}
use swarmdialer.Testrun.Script.Trunks.{free, follow, run-frees}
use swarmdialer.Testrun.Recordings.{Poller}

abbrev test₁ : Test
test₁ = record {
  id = "ramp_stereo_low";
  mode = ramp;
  caller_codec = "ulaw";
  callee_codec = "ulaw";
  recording = stereo;
  recording_format = "wav49";
  call_duration = 600_000;
  target = 3;
  dial_interval = 800;
  hold = 5_000;
  rolling_cps = [];
  step_duration = 0;
}

abbrev limits : String → VpsLimits
limits role = record { cpu_limit = 2; mem_limit_mb = 4096; callrec_ram_mb = 512 }

abbrev view : ℕ → HealthView
view busy = record {
  health = record no_health {
    failures = λ key. if bytes_eq key (bytes "rejected_486") then busy else 0;
  };
  extensions = 10;
  not_registered = 0;
  refresh_failures = 0;
}

abbrev udp : UdpCounters
udp = record { out_datagrams = 0; sndbuf_errors = 0; rcvbuf_errors = 0; in_errors = 0 }

abbrev diag : Diag
diag = record {
  start = view 0;
  prev = view 0;
  at_stop = none;
  udp_start = udp;
  udp_prev = udp;
  udp_ok = true;
  drops_seen = false;
  near = λ (m : Metric). false;
  api_err_seen = λ (x : Source). false;
  first_failure = λ (key : Bytes). none;
}

abbrev state : TestState
state = record {
  test = test₁;
  samples = [];
  max_concurrent = 0;
  events = [];
  ramdisk_full_at = none;
  degraded_at = none;
  stop_detail = no_detail;
  ramdisk_mb = 512;
  saturated = λ (m : Metric). 0;
  last_failed = 0;
  last_answered = 0;
  cps = 0;
  diag = diag;
}

abbrev reading : ℕ → ℕ → Reading
reading now cpu = record {
  at = now;
  local_cpu_pct = 1_000;
  udp = some (record udp { sndbuf_errors = 2 });
  host = record { cpu_pct = cpu; mem_pct = 2_000; iowait_pct = 0 };
  is_host_failed = false;
  vps =
      (
        "MT",
        record {
          cpu_pct = 5_000;
          mem_bytes = 1_000_000;
          asterisk_cpu_pct = 4_000;
          pbx_calls = none;
        },
      )
      ∷ [];
  is_vps_failed = true;
  active = record { age = 4_000; setup_ms = 700 } ∷ record { age = 40_000; setup_ms = 90 } ∷ [];
  started = 3;
  answered = 2;
  failed = 1;
  health = view 1;
  failure_keys = bytes "rejected_486" ∷ [];
}

abbrev readings : List (Phase × Reading)
readings =
    (ramping, reading 10 9_600) ∷ (ramping, reading 15 9_500) ∷ (holding, reading 20 10_000) ∷ []

sample-IsSound_example : IsSound (sample limits ramping (reading 10 9_600) state).0
unfolding most_calls
sample-IsSound_example = sample-IsSound limits ramping (reading 10 9_600) state (refl, omega arith)

-- The load of three readings is host_cpu_100.
sample_test : reason_of (watch (checks_in limits readings) state.saturated).0 ≡ some host_cpu_100
unfolding watch checks_in run_checks
sample_test = refl

abbrev plan : RampPlan
plan = record { target = 3; hold = 5; started = 3; done_before = 0 }

abbrev round : ℕ → ℕ → Round
round now calls = record {
  is_cancelled = false;
  stop = none;
  calls = calls;
  answered = calls;
  failed = 0;
  now = now;
}

run_ramp-ends_example :
    (e : RampEnd) × (run_ramp plan 0 ((round 5 1 ∷ []) ++ round 10 3 ∷ round 15 3 ∷ round 20 3 ∷ [])
      ≡ some e)
run_ramp-ends_example =
    run_ramp-ends plan (round 5 1 ∷ []) (round 10 3) (round 15 3 ∷ round 20 3 ∷ []) 0 0
      (omega arith, (omega arith, (omega arith, (omega arith, tt)))) refl (omega arith)

abbrev meets : Bool → Bool → Meets
meets gone prepared = record {
  is_cancelled = gone;
  can_record = true;
  can_prepare = prepared;
  is_baseline_done = true;
  load = target_reached;
  answered = 3;
}

abbrev tests : List (Test × Meets)
tests = (test₁, meets false true) ∷ (test₁, meets false false) ∷ (test₁, meets true true) ∷ []

run-frees_example :
    (follow (run true tests).1 (some free) ≡ some free)
    × (es : _) × ((run true tests).1 ≡ es ++ set_recording off "wav49" ∷ [])
run-frees_example = run-frees true tests

abbrev poller : Poller
poller = record {
  from = 100;
  cdrs =
      ("a", record { unique_id = "a"; start_unix = 100; duration = 60; available = true })
      ∷ ("b", record { unique_id = "b"; start_unix = 110; duration = 60; available = false })
      ∷ ("c", record { unique_id = "c"; start_unix = 120; duration = 2; available = false })
      ∷ [];
  first_avail = ("a", 170) ∷ [];
}

abbrev before_third : List (Phase × Reading)
before_third = (ramping, reading 10 9_600) ∷ (ramping, reading 15 9_500) ∷ []

quiet_test : reason_of (watch (checks_in limits before_third) state.saturated).0 ≡ none
unfolding watch checks_in run_checks
quiet_test = refl

sample-AnyThird_example :
    ((sample limits holding (reading 20 10_000) (load_samples limits before_third state).0).1
      ≢ none)
    ↔ AnyThird
        (λ m. in_a_row m (checks_in limits before_third) 0)
        (checks_of limits
          (sampled holding (reading 20 10_000) (load_samples limits before_third state).0).0)
sample-AnyThird_example =
    sample-AnyThird limits before_third holding (reading 20 10_000) state refl (refl, (refl, tt))
      ((tt, tt), ((tt, tt), tt)) refl (tt, tt)
      (load_samples-watch limits before_third state (refl, (refl, tt)) ∙ quiet_test)
