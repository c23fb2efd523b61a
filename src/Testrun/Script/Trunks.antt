-- ===== src/Testrun/Script/Trunks.antt =====
-- The trunk and the recording over a whole run.
use swarmdialer.Prelude.{
  ℕ, ◌≡◌, refl, sym, ◌∙◌, ap, Bool, true, false, ◌||◌, not, Option, none, some, List, [], ◌∷◌, ◌++◌,
  map, ltb, if◌then◌else◌, Bool-cases, inl, inr,
}
use swarmdialer.Testrun.Profile.{off, Test}
use swarmdialer.Testrun.Samples.{cancelled, error}
use swarmdialer.Testrun.Script.{
  Effect, set_recording, prepare_codec, release_trunk, reset_peaks, idle_baseline, place_calls,
  stop_calls, idle_cooldown, finish_diagnostics, start_poller, finish_poller, look_up_mos, Meets,
  TestResult, is_recorded, poll_from, poll_to, mos_of, load_test, baseline_test, run_test,
  run_tests, run,
}

-- A run's use of the trunk: free, held for a test, or carrying its calls.
pub data TrunkUse : Type 0 where
  free held calling : TrunkUse

-- The use of the trunk after an effect that is allowed, none for one that is not: calls are placed on
-- a trunk that is held, and a trunk is given back once its calls are stopped.
abbrev pub use_after : Effect → TrunkUse → Option TrunkUse
use_after (set_recording r f) free = some free
use_after (prepare_codec codec true) free = some held
use_after (prepare_codec codec false) free = some free
use_after reset_peaks held = some held
use_after idle_baseline held = some held
use_after start_poller held = some held
use_after place_calls held = some calling
use_after stop_calls calling = some held
use_after release_trunk held = some free
use_after idle_cooldown free = some free
use_after (finish_poller d) free = some free
use_after finish_diagnostics free = some free
use_after (look_up_mos calls) free = some free
use_after _ _ = none

unfoldable pub follow : List Effect → Option TrunkUse → Option TrunkUse
follow [] u = u
follow (e ∷ es) none = none
follow (e ∷ es) (some u) = follow es (use_after e u)

follow-none : (es : List Effect) → follow es none ≡ none
unfolding follow
follow-none [] = refl
follow-none (e ∷ es) = refl

follow-append :
    (es fs : List Effect) (u : Option TrunkUse) → follow (es ++ fs) u ≡ follow fs (follow es u)
unfolding follow
follow-append [] fs u = refl
follow-append (e ∷ es) fs none = sym (follow-none fs)
follow-append (e ∷ es) fs (some u) = follow-append es fs (use_after e u)

poll_from-held : (t : Test) → follow (poll_from t) (some held) ≡ some held
unfolding poll_from follow
poll_from-held t = elim (Bool-cases (is_recorded t)) [ inl e ↦ rw e refl | inr e ↦ rw e refl ]

poll_to-free : (t : Test) → follow (poll_to t) (some free) ≡ some free
unfolding poll_to follow
poll_to-free t = elim (Bool-cases (is_recorded t)) [ inl e ↦ rw e refl | inr e ↦ rw e refl ]

mos_of-free : (n : ℕ) → follow (mos_of n) (some free) ≡ some free
unfolding mos_of follow
mos_of-free n = elim (Bool-cases (ltb 0 n)) [ inl e ↦ rw e refl | inr e ↦ rw e refl ]

load_test-frees : (t : Test) (n : ℕ) → follow (load_test t n) (some held) ≡ some free
unfolding load_test follow
load_test-frees t n =
    let rest = finish_diagnostics ∷ mos_of n in
    follow-append (poll_from t) _ (some held)
    ∙ ap (follow (place_calls ∷ stop_calls ∷ release_trunk ∷ idle_cooldown ∷ (poll_to t ++ rest)))
        (poll_from-held t)
    ∙ follow-append (poll_to t) rest (some free)
    ∙ ap (follow rest) (poll_to-free t)
    ∙ mos_of-free n

run_test-frees : (t : Test) (m : Meets) → follow (run_test t m).1 (some free) ≡ some free
unfolding run_test follow baseline_test
run_test-frees t m = elim (Bool-cases m.can_record) [
  | inr r ↦ rw (r, run_test) refl
  | inl r ↦ elim (Bool-cases m.can_prepare) [
    | inr p ↦ rw (r, p, run_test) refl
    | inl p ↦ elim (Bool-cases m.is_baseline_done) [
      | inl b ↦ rw (r, p, b, run_test, baseline_test) (load_test-frees t m.answered)
      | inr b ↦ rw (r, p, b, run_test, baseline_test) refl
    ]
  ]
]

run_tests-frees : (tests : List (Test × Meets)) → follow (run_tests tests).1 (some free) ≡ some free
unfolding run_tests follow
run_tests-frees [] = refl
run_tests-frees ((t, m) ∷ tests) = elim (Bool-cases m.is_cancelled) [
  | inl e ↦ rw (e, run_tests) refl
  | inr e ↦
      rw (e, run_tests)
        (follow-append (run_test t m).1 (run_tests tests).1 (some free)
          ∙ ap (follow (run_tests tests).1) (run_test-frees t m)
          ∙ run_tests-frees tests)
]

-- However a run goes (no session, an error, a cancel at any test or in its baseline), every trunk that
-- is prepared is given back once, with its calls stopped before; calls are placed on a prepared trunk
-- only; and the run's last act is to turn recording off, with no trunk held.
pub run-frees :
    (has_session : Bool) (tests : List (Test × Meets))
    → (follow (run has_session tests).1 (some free) ≡ some free)
      × (es : List Effect) × ((run has_session tests).1 ≡ es ++ set_recording off "wav49" ∷ [])
unfolding run follow
run-frees true tests = (
  follow-append (run_tests tests).1 _ (some free)
      ∙ ap (follow (set_recording off "wav49" ∷ [])) (run_tests-frees tests),
  (run_tests tests).1,
  refl,
)
run-frees false tests = (refl, [], refl)

-- The tests before the first one that the run is cancelled at.
unfoldable pub begun : List (Test × Meets) → List (Test × Meets)
begun [] = []
begun ((t, m) ∷ tests) = let rest = begun tests in if m.is_cancelled then [] else (t, m) ∷ rest

abbrev pub is_refused : Meets → Bool
is_refused m = not m.can_record || not m.can_prepare

-- The reason of a test, by what it meets.
abbrev pub expected : Test × Meets → TestResult
expected (t, m) = record {
  test = t;
  stop_reason = if is_refused m then error else (if m.is_baseline_done then m.load else cancelled);
  has_error = is_refused m;
}

run_test-expected : (t : Test) (m : Meets) → (run_test t m).0 ≡ expected (t, m)
unfolding run_test baseline_test
run_test-expected t m = elim (Bool-cases m.can_record) [
  | inr r ↦ rw (r, run_test) refl
  | inl r ↦ elim (Bool-cases m.can_prepare) [
    | inr p ↦ rw (r, p, run_test) refl
    | inl p ↦ elim (Bool-cases m.is_baseline_done) [
      | inl b ↦ rw (r, p, b, run_test, baseline_test) refl
      | inr b ↦ rw (r, p, b, run_test, baseline_test) refl
    ]
  ]
]

if_map :
    {A B : Type 0} (f : A → B) (b : Bool) (x y : A)
    → f (if b then x else y) ≡ (if b then f x else f y)
if_map f true x y = refl
if_map f false x y = refl

run_tests-expected :
    (tests : List (Test × Meets)) → (run_tests tests).0 ≡ map expected (begun tests)
unfolding run_tests begun
run_tests-expected [] = refl
run_tests-expected ((t, m) ∷ tests) =
    if_map (λ (x : List TestResult × List Effect). x.0) m.is_cancelled _ _
    ∙ rw (run_test-expected t m, run_tests-expected tests) refl
    ∙ sym (if_map (map expected) m.is_cancelled [] ((t, m) ∷ begun tests))

-- A run with a session keeps one result for each test that it begins, in their order: those before the
-- first that finds the run cancelled. A result has an error exactly when the recording could not be
-- set or the trunk not be prepared, and its stop reason is then "error", else "cancelled" if the
-- baseline was cut short, and otherwise that of its load.
pub run-expected : (tests : List (Test × Meets)) → (run true tests).0 ≡ map expected (begun tests)
unfolding run
run-expected tests = run_tests-expected tests
