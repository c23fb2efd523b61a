-- ===== src/Testrun/Profile.antt =====
-- internal/testrun/profile.go, and `EstimatedDuration` of internal/testrun/runner.go. Durations are
-- milliseconds, rates are tenths of a call per second, byte rates are tenths of a byte per second.
use swarmdialer.Prelude.{
  ℕ, suc, ◌+◌, ◌*◌, ◌/◌, ◌≡◌, ◌∙◌, String, ◌==s◌, false, ◌&&◌, not, List, [], ◌∷◌, arith,
  if◌then◌else◌, length, All, Bool-cases, inl, inr,
}

pub data Recording : Type 0 where
  off mono stereo : Recording

pub data Mode : Type 0 where
  ramp rolling : Mode

-- `cps` is the list of rates of a rolling test.
pub record Test : Type 0 where
  pub id : String
  pub mode : Mode
  pub caller_codec : String
  pub callee_codec : String
  pub recording : Recording
  pub recording_format : String
  pub call_duration : ℕ
  pub target : ℕ
  pub dial_interval : ℕ
  pub hold : ℕ
  pub rolling_cps : List ℕ
  pub step_duration : ℕ

pub record Profile : Type 0 where
  pub name : String
  pub version : ℕ
  pub baseline : ℕ
  pub cooldown : ℕ
  pub tests : List Test

abbrev pub standard_target : ℕ
standard_target = 512

abbrev pub ramp_test : String → String → String → Recording → Test
ramp_test id caller callee recording = record {
  id = id;
  mode = ramp;
  caller_codec = caller;
  callee_codec = callee;
  recording = recording;
  recording_format = "wav49";
  call_duration = 600_000;
  target = standard_target;
  dial_interval = 800;
  hold = 60_000;
  rolling_cps = [];
  step_duration = 0;
}

-- math.Round of tenths of a call, for a duration in milliseconds.
abbrev pub rolling_target : ℕ → ℕ → ℕ
rolling_target max_cps call_duration = (max_cps * call_duration + 5_000) / 10_000

abbrev pub rolling_test : ℕ → ℕ → List ℕ → ℕ → Test
rolling_test call_duration max_cps cps step = record {
  id = "rolling_stereo";
  mode = rolling;
  caller_codec = "ulaw";
  callee_codec = "ulaw";
  recording = stereo;
  recording_format = "wav49";
  call_duration = call_duration;
  target = rolling_target max_cps call_duration;
  dial_interval = 0;
  hold = 0;
  rolling_cps = cps;
  step_duration = step;
}

abbrev pub standard : Profile
standard = record {
  name = "standard";
  version = 1;
  baseline = 60_000;
  cooldown = 120_000;
  tests =
      ramp_test "ramp_norec_low" "ulaw" "ulaw" off
      ∷ ramp_test "ramp_norec_high" "opus" "ulaw" off
      ∷ ramp_test "ramp_mono_low" "ulaw" "ulaw" mono
      ∷ ramp_test "ramp_mono_high" "opus" "ulaw" mono
      ∷ ramp_test "ramp_stereo_low" "ulaw" "ulaw" stereo
      ∷ ramp_test "ramp_stereo_high" "opus" "ulaw" stereo
      ∷ rolling_test 60_000 85 (20 ∷ 40 ∷ 60 ∷ 85 ∷ []) 90_000
      ∷ [];
}

abbrev pub short : Test → Test
short t = record t { call_duration = 120_000; target = 10; hold = 20_000 }

abbrev pub smoke : Profile
smoke = record {
  name = "smoke";
  version = 1;
  baseline = 10_000;
  cooldown = 15_000;
  tests =
      short (ramp_test "ramp_norec_low" "ulaw" "ulaw" off)
      ∷ short (ramp_test "ramp_stereo_high" "opus" "ulaw" stereo)
      ∷ rolling_test 20_000 10 (5 ∷ 10 ∷ []) 30_000
      ∷ [];
}

abbrev pub hardware : Profile
hardware = record { name = "hardware"; version = 1; baseline = 0; cooldown = 0; tests = [] }

unfoldable pub recording_bytes_per_second : Recording → String → ℕ
recording_bytes_per_second stereo format = 290 * 1024
recording_bytes_per_second mono format =
    if format ==s "wav" then 160 * 1024 else (if format ==s "ogg" then 20 * 1024 else 16_896)
recording_bytes_per_second off format = 0

-- How long a test's calls take to be placed, and held.
abbrev pub load_time : Test → ℕ
load_time t = elim t.mode [
  | ramp ↦ t.target * t.dial_interval + t.hold
  | rolling ↦ length t.rolling_cps * t.step_duration
]

-- The loop of `EstimatedDuration`, with the total and the codec before.
unfoldable pub estimate : Profile → List Test → ℕ → String → ℕ
estimate p [] total prev = total
estimate p (t ∷ ts) total prev =
    let changed = not (t.callee_codec ==s prev) && not (prev ==s "") in
    estimate p ts
      (total + (p.baseline + p.cooldown + 15_000) + (if changed then 65_000 else 0) + load_time t)
      t.callee_codec

unfoldable pub estimated_duration : Profile → ℕ
unfolding estimate
estimated_duration p = estimate p p.tests 60_000 ""

-- How often one test's codec differs from that of the test before.
unfoldable pub codec_changes : List Test → ℕ
codec_changes [] = 0
codec_changes (t ∷ []) = 0
codec_changes (t ∷ u ∷ ts) =
    let rest = codec_changes (u ∷ ts) in
    if u.callee_codec ==s t.callee_codec then rest else suc rest

unfoldable pub load_times : List Test → ℕ
load_times [] = 0
load_times (t ∷ ts) = load_time t + load_times ts

estimate-after :
    (p : Profile) (t : Test) (ts : List Test) (total : ℕ)
    → (t.callee_codec ==s "") ≡ false
    → All (λ (u : Test). (u.callee_codec ==s "") ≡ false) ts
    → estimate p ts total t.callee_codec
      ≡ total
        + length ts * (p.baseline + p.cooldown + 15_000)
        + codec_changes (t ∷ ts) * 65_000
        + load_times ts
unfolding estimate codec_changes load_times
estimate-after p t [] total h a = omega arith
estimate-after p t (u ∷ ts) total h a = elim (Bool-cases (u.callee_codec ==s t.callee_codec)) [
  | inl e ↦ rw (h, e) (estimate-after p u ts _ a.0 a.1 ∙ grind arith)
  | inr e ↦ rw (h, e) (estimate-after p u ts _ a.0 a.1 ∙ grind arith)
]

-- The estimate of a profile whose tests name their codecs is a minute, for each test its idle times,
-- fifteen seconds and the time of its calls, and 65 seconds for each change of the codec.
pub estimated_duration_lem :
    (p : Profile)
    → All (λ (u : Test). (u.callee_codec ==s "") ≡ false) p.tests
    → estimated_duration p
      ≡ 60_000
        + length p.tests * (p.baseline + p.cooldown + 15_000)
        + codec_changes p.tests * 65_000
        + load_times p.tests
unfolding estimated_duration estimate load_times codec_changes
estimated_duration_lem p named = from_none p.tests named
  where
    from_none :
        (ts : List Test)
        → All (λ (u : Test). (u.callee_codec ==s "") ≡ false) ts
        → estimate p ts 60_000 ""
          ≡ 60_000
            + length ts * (p.baseline + p.cooldown + 15_000)
            + codec_changes ts * 65_000
            + load_times ts
    from_none [] a = omega arith
    from_none (t ∷ ts) a = rw (a.0, estimate) (estimate-after p t ts _ a.0 a.1 ∙ grind arith)
