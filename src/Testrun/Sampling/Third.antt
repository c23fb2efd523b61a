-- ===== src/Testrun/Sampling/Third.antt =====
-- A test is stopped by its third sample in a row over a threshold.
use swarmdialer.Prelude.{
  ℕ, ◌≡◌, refl, sym, ◌∙◌, ap, String, true, Option, none, some, List, [], ◌∷◌, All,
}
use swarmdialer.Testrun.Samples.{
  Phase, StopReason, StopDetail, VpsLimits, Metric, Reading, TestState,
}
use swarmdialer.Testrun.Saturation.{checks_of, run_checks}
use swarmdialer.Testrun.Diagnostics.{is_load}
use swarmdialer.Prelude.{Option-cases, inl, inr}
use swarmdialer.Testrun.Samples.{Metric}
use swarmdialer.Testrun.Saturation.{watch}
use swarmdialer.Testrun.Sampling.{make_sample, sampled, sample, reason_of}
use swarmdialer.Prelude.{◌≢◌, ◌↔◌}
use swarmdialer.Testrun.Saturation.InARow.{AllApart, AnyThird, in_a_row, stops_iff}
use swarmdialer.Testrun.Saturation.Distinct.{HasRoles, checks_of-AllApart}
use swarmdialer.Testrun.Sampling.Watched.{
  load_samples, seen, checks_in, AllLoad, load_samples-on, load_samples-stop, load_samples-watch,
  watch-on, sample-checked,
}

some-ne-none {ℓ} : {A : Type ℓ} {x : A} → some x ≢ none
some-ne-none h = cc

-- The counts after samples that did not stop the test.
load_samples-counts :
    (limits : String → VpsLimits) (rs : List (Phase × Reading)) (st : TestState)
    → AllLoad rs
    → (load_samples limits rs st).1 ≡ none
    → (load_samples limits rs st).0.saturated ≡ (watch (checks_in limits rs) st.saturated).1
unfolding load_samples checks_in watch sampled make_sample checks_of
load_samples-counts limits [] st h n = refl
load_samples-counts limits ((phase, r) ∷ rs) st h n =
    let cs = checks_of limits (sampled phase r st).0 in
    let (why, counts) = sample-checked limits phase r st h.0 in
    elim (Option-cases (run_checks cs st.saturated).0) [
      | inr (x, e) ↦ absurd (
          some-ne-none
            (sym (load_samples-stop limits phase r rs st x.0 (why ∙ ap reason_of e)) ∙ n))
      | inl e ↦
          let on = load_samples-on limits phase r rs st (why ∙ ap reason_of e) in
          let st' = (sample limits phase r st).0 in
          ap (λ (x : TestState × Option StopReason). x.0.saturated) on
          ∙ load_samples-counts limits rs st' h.1
              (sym (ap (λ (x : TestState × Option StopReason). x.1) on) ∙ n)
          ∙ ap (λ (c : Metric → ℕ). (watch (checks_in limits rs) c).1) counts
          ∙ sym (
              ap (λ (x : Option (StopReason × StopDetail) × (Metric → ℕ)). x.1)
                (watch-on cs (checks_in limits rs) st.saturated e))
    ]

-- One entry for each role in every reading.
abbrev pub AllRoles : List (Phase × Reading) → Type 0
AllRoles rs = All (λ (x : Phase × Reading). HasRoles x.1.vps) rs

checks_in-AllApart :
    (limits : String → VpsLimits) (rs : List (Phase × Reading))
    → AllRoles rs
    → All AllApart (checks_in limits rs)
unfolding checks_in
checks_in-AllApart limits [] h = tt
checks_in-AllApart limits ((phase, r) ∷ rs) h =
    (checks_of-AllApart limits (seen phase r) h.0, checks_in-AllApart limits rs h.1)

sampled-AllApart :
    (limits : String → VpsLimits) (phase : Phase) (r : Reading) (st : TestState)
    → HasRoles r.vps
    → AllApart (checks_of limits (sampled phase r st).0)
unfolding sampled make_sample
sampled-AllApart limits phase r st h = checks_of-AllApart limits (sampled phase r st).0 h

reason_of-none : (o : Option (StopReason × StopDetail)) → (reason_of o ≢ none) ↔ (o ≢ none)
reason_of-none none = ((λ h. absurd (h refl)), (λ h. absurd (h refl)))
reason_of-none (some x) = ((λ h. some-ne-none), (λ h. some-ne-none))

reason_of-nothing : (o : Option (StopReason × StopDetail)) → reason_of o ≡ none → o ≡ none
reason_of-nothing none h = refl
reason_of-nothing (some x) h = absurd (some-ne-none h)

-- From a fresh test, after any samples under load that did not stop it, the next sample under load
-- stops it exactly when it finds some metric over its threshold for at least the third time in a row,
-- counting the samples that have a value for that metric. (A reading has one entry for each role.)
pub sample-AnyThird :
    (limits : String → VpsLimits) (rs : List (Phase × Reading)) (phase : Phase) (r : Reading)
    (st : TestState)
    → st.saturated ≡ (λ m. 0)
    → AllLoad rs
    → AllRoles rs
    → is_load phase ≡ true
    → HasRoles r.vps
    → (load_samples limits rs st).1 ≡ none
    → let st' = (load_samples limits rs st).0 in
      ((sample limits phase r st').1 ≢ none)
      ↔ AnyThird
          (λ m. in_a_row m (checks_in limits rs) 0)
          (checks_of limits (sampled phase r st').0)
sample-AnyThird limits rs phase r st fresh load roles now own on =
    let st' = (load_samples limits rs st).0 in
    let cs = checks_of limits (sampled phase r st').0 in
    let css = checks_in limits rs in
    let (why, _) = sample-checked limits phase r st' now in
    let counts : st'.saturated ≡ (watch css (λ m. 0)).1 =
      load_samples-counts limits rs st load on ∙ ap (λ (c : Metric → ℕ). (watch css c).1) fresh in
    let quiet : (watch css (λ m. 0)).0 ≡ none =
      ap (λ (c : Metric → ℕ). (watch css c).0) (sym fresh)
      ∙ reason_of-nothing _ (sym (load_samples-watch limits rs st load) ∙ on) in
    let third =
      stops_iff css cs (checks_in-AllApart limits rs roles)
        (sampled-AllApart limits phase r st' own) quiet in
    let same = why ∙ ap (λ (c : Metric → ℕ). reason_of (run_checks cs c).0) counts in
    let (to, back) = reason_of-none (run_checks cs (watch css (λ m. 0)).1).0 in
    ((λ h. third.0 (to (λ e. h (same ∙ e)))), (λ h e. back (third.1 h) (sym same ∙ e)))
