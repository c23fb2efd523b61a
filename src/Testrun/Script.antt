-- ===== src/Testrun/Script.antt =====
-- `Run` and `runTest` of internal/testrun/runner.go: what a run asks of its environment, in its order,
-- and the results it keeps. What the environment, the session and the ramp or rolling load answer is
-- given for each test. Log lines, the live status and the times are left out.
use swarmdialer.Prelude.{
  ℕ, zero, suc, ◌+◌, ◌-◌, ◌*◌, ◌/◌, ◌≤◌, ◌<◌, ◌≡◌, refl, sym, ◌∙◌, ap, String, Bool, true, false,
  ◌&&◌, not, Option, none, some, List, [], ◌∷◌, ◌++◌, map, arith, leb, ltb, ◌==◌, if◌then◌else◌,
  length, All, Bool-cases, inl, inr,
}
use swarmdialer.Testrun.Profile.{Recording, off, Mode, ramp, rolling, Test}
use swarmdialer.Testrun.Samples.{StopReason, cancelled, error}
pub mod Trunks
pub mod Spread

pub data Effect : Type 0 where
  set_recording : Recording → String → Effect
  prepare_codec : String → Bool → Effect  -- and whether it works
  release_trunk reset_peaks idle_baseline place_calls stop_calls idle_cooldown finish_diagnostics :
      Effect
  start_poller : Effect
  finish_poller : ℕ → Effect  -- the shortest call that counts, in seconds
  look_up_mos : List ℕ → Effect  -- the calls, by their index among the answered ones

-- What a test meets. `is_cancelled` is what the run's context says before it.
pub record Meets : Type 0 where
  pub is_cancelled : Bool
  pub can_record : Bool
  pub can_prepare : Bool
  pub is_baseline_done : Bool
  pub load : StopReason  -- of `runRamp` or `runRolling`
  pub answered : ℕ  -- the calls that were answered, in the end

pub record TestResult : Type 0 where
  pub test : Test
  pub stop_reason : StopReason
  pub has_error : Bool

abbrev pub mos_sample_size : ℕ
mos_sample_size = 200

-- 0, …, n - 1
unfoldable pub range_from : ℕ → ℕ → List ℕ
range_from i zero = []
range_from i (suc n) = i ∷ range_from (suc i) n

-- int(float64(i) * step) without rounding, for step = n / mosSampleSize
abbrev pub spread_index : ℕ → ℕ → ℕ
spread_index n i = i * n / mos_sample_size

-- The answered calls whose MOS is looked up, by index.
unfoldable pub mos_sample : ℕ → List ℕ
unfolding range_from
mos_sample n =
    if ltb mos_sample_size n
    then map (spread_index n) (range_from 0 mos_sample_size)
    else range_from 0 n

abbrev pub is_recorded : Test → Bool
is_recorded t = elim t.recording [ off ↦ false | _ ↦ true ]

-- The shortest call whose recording counts: in a rolling test those that ran their full length.
abbrev pub min_duration : Test → ℕ
min_duration t = elim t.mode [ ramp ↦ 0 | rolling ↦ t.call_duration / 1000 - 2 ]

unfoldable pub poll_from : Test → List Effect
poll_from t = if is_recorded t then start_poller ∷ [] else []

unfoldable pub poll_to : Test → List Effect
poll_to t = if is_recorded t then finish_poller (min_duration t) ∷ [] else []

unfoldable pub mos_of : ℕ → List Effect
unfolding mos_sample
mos_of answered = if ltb 0 answered then look_up_mos (mos_sample answered) ∷ [] else []

-- From the first call to the result.
unfoldable pub load_test : Test → ℕ → List Effect
unfolding poll_from poll_to mos_of
load_test t answered =
    poll_from t
    ++ (place_calls
        ∷ stop_calls
        ∷ release_trunk
        ∷ idle_cooldown
        ∷ (poll_to t ++ finish_diagnostics ∷ mos_of answered))

-- With the trunk prepared: the idle baseline first.
unfoldable pub baseline_test : Test → Meets → StopReason × List Effect
unfolding load_test
baseline_test t m =
    if m.is_baseline_done
    then (m.load, reset_peaks ∷ idle_baseline ∷ load_test t m.answered)
    else (cancelled, reset_peaks ∷ idle_baseline ∷ release_trunk ∷ [])

unfoldable pub run_test : Test → Meets → TestResult × List Effect
unfolding baseline_test
run_test t m =
    let first = set_recording t.recording t.recording_format in
    let prepare = prepare_codec t.callee_codec m.can_prepare in
    let (reason, effects) = baseline_test t m in
    let failed : TestResult = record { test = t; stop_reason = error; has_error = true } in
    if not m.can_record
    then (failed, first ∷ [])
    else (if not m.can_prepare then (failed, first ∷ prepare ∷ []) else (
      record { test = t; stop_reason = reason; has_error = false },
      first ∷ prepare ∷ effects,
    ))

-- The loop over the profile's tests.
unfoldable pub run_tests : List (Test × Meets) → List TestResult × List Effect
unfolding run_test
run_tests [] = ([], [])
run_tests ((t, m) ∷ tests) =
    let (results, effects) = run_tests tests in
    let (result, own) = run_test t m in
    if m.is_cancelled then ([], []) else (result ∷ results, own ++ effects)

-- The run: whether its session can be prepared, its results, and its effects with the deferred one.
unfoldable pub run : Bool → List (Test × Meets) → List TestResult × List Effect
unfolding run_tests
run has_session tests =
    let (results, effects) = run_tests tests in
    let last = set_recording off "wav49" ∷ [] in
    if has_session then (results, effects ++ last) else ([], last)
