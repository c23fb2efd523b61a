-- ===== src/Testrun/Sampling/Watched.antt =====
-- The samples under load: what stops a test is what `watch` finds in the values they read.
use swarmdialer.Prelude.{
  ℕ, ◌≡◌, refl, sym, ◌∙◌, ap, String, true, Option, none, some, List, [], ◌∷◌, All,
}
use swarmdialer.Testrun.Samples.{
  Sample, Phase, StopReason, StopDetail, VpsLimits, Metric, Reading, TestState,
}
use swarmdialer.Testrun.Saturation.{checks_of, run_checks}
use swarmdialer.Testrun.Diagnostics.{is_load}
use swarmdialer.Prelude.{Option-cases, inl, inr}
use swarmdialer.Testrun.Samples.{Metric}
use swarmdialer.Testrun.Saturation.{Check, watch}
use swarmdialer.Testrun.Sampling.{
  diagnosed, make_sample, add_sample, set_checked, judge, sampled, sample, reason_of,
}
use swarmdialer.Testrun.Sampling.Logs.{diagnosed-OnlyLogs}
use swarmdialer.Testrun.Sampling.Bookkeeping.{OnlyLogs-Kept, before_add, before_add-OnlyLogs}

-- Samples in phases under load, until one is a reason to stop.
unfoldable pub load_samples :
    (String → VpsLimits) → List (Phase × Reading) → TestState → TestState × Option StopReason
unfolding sample
load_samples limits [] st = (st, none)
load_samples limits ((phase, r) ∷ rs) st =
    let (st', why) = sample limits phase r st in
    let rest = load_samples limits rs st' in elim why [ some x ↦ (st', some x) | none ↦ rest ]

-- A sample that holds only what the monitor read.
abbrev pub seen : Phase → Reading → Sample
seen phase r = record {
  at = r.at;
  phase = phase;
  host = r.host;
  vps = r.vps;
  local_cpu_pct = r.local_cpu_pct;
  concurrent_calls = 0;
  started = 0;
  answered = 0;
  failed = 0;
  setup_p95_ms = 0;
  ramdisk_est = 0;
  cps = 0;
  udp_send_drops = 0;
}

-- The checks of such samples.
unfoldable pub checks_in : (String → VpsLimits) → List (Phase × Reading) → List (List Check)
unfolding checks_of
checks_in limits [] = []
checks_in limits ((phase, r) ∷ rs) = checks_of limits (seen phase r) ∷ checks_in limits rs

set_checked-saturated :
    (x : Option (StopReason × StopDetail) × (Metric → ℕ)) (st : TestState)
    → (set_checked x st).saturated ≡ x.1
set_checked-saturated (none, counts) st = refl
set_checked-saturated (some y, counts) st = refl

module _ (limits : String → VpsLimits) (phase : Phase) (r : Reading) (st : TestState) where
  diagnosed_state : TestState
  diagnosed_state = diagnosed limits phase r (sampled phase r st).0 (sampled phase r st).1

  -- The counts that the checks of a sample begin with are those of the sample before.
  diagnosed_state-saturated : diagnosed_state.saturated ≡ st.saturated
  unfolding diagnosed_state sampled before_add add_sample
  diagnosed_state-saturated =
      let st₁ = (sampled phase r st).1 in
      let (_, _, late, _, _) =
        OnlyLogs-Kept st₁ _ (diagnosed-OnlyLogs limits phase r (sampled phase r st).0 st₁) in
      let (_, _, early, _, _) = OnlyLogs-Kept st _ (before_add-OnlyLogs r st) in late ∙ early

  pub sample-checked :
      is_load phase ≡ true
      → ((sample limits phase r st).1
          ≡ reason_of (run_checks (checks_of limits (sampled phase r st).0) st.saturated).0)
        × ((sample limits phase r st).0.saturated
            ≡ (run_checks (checks_of limits (sampled phase r st).0) st.saturated).1)
  unfolding sample judge diagnosed_state
  sample-checked e =
      let checks = checks_of limits (sampled phase r st).0 in
      let same = diagnosed_state-saturated in
      (
        rw (e, sample) (ap (λ (c : Metric → ℕ). reason_of (run_checks checks c).0) same),
        rw (e, sample)
            (set_checked-saturated (run_checks checks diagnosed_state.saturated) _
              ∙ ap (λ (c : Metric → ℕ). (run_checks checks c).1) same),
      )

abbrev pub AllLoad : List (Phase × Reading) → Type 0
AllLoad rs = All (λ (x : Phase × Reading). is_load x.0 ≡ true) rs

module _ (limits : String → VpsLimits) (phase : Phase) (r : Reading) (rs : List (Phase × Reading))
    (st : TestState) where
  pub load_samples-on :
      (sample limits phase r st).1 ≡ none
      → load_samples limits ((phase, r) ∷ rs) st
        ≡ load_samples limits rs (sample limits phase r st).0
  unfolding load_samples
  load_samples-on e = rw (e, load_samples) refl

  pub load_samples-stop :
      (x : StopReason)
      → (sample limits phase r st).1 ≡ some x
      → (load_samples limits ((phase, r) ∷ rs) st).1 ≡ some x
  unfolding load_samples
  load_samples-stop x e = rw (e, load_samples) refl

module _ (cs : List Check) (css : List (List Check)) (counts : Metric → ℕ) where
  pub watch-on :
      (run_checks cs counts).0 ≡ none → watch (cs ∷ css) counts ≡ watch css (run_checks cs counts).1
  unfolding watch
  watch-on e = rw (e, watch) refl

  watch-stop :
      (x : StopReason × StopDetail)
      → (run_checks cs counts).0 ≡ some x
      → (watch (cs ∷ css) counts).0 ≡ some x
  unfolding watch
  watch-stop x e = rw (e, watch) refl

-- The reason that the samples under load stop a test for, if any, is the one that `watch`, which runs the
-- same checks and keeps nothing but their counts, gives for the values they check.
pub load_samples-watch :
    (limits : String → VpsLimits) (rs : List (Phase × Reading)) (st : TestState)
    → AllLoad rs
    → (load_samples limits rs st).1 ≡ reason_of (watch (checks_in limits rs) st.saturated).0
unfolding load_samples checks_in watch sampled make_sample checks_of
load_samples-watch limits [] st h = refl
load_samples-watch limits ((phase, r) ∷ rs) st h =
    let cs = checks_of limits (sampled phase r st).0 in
    let (why, counts) = sample-checked limits phase r st h.0 in
    elim (Option-cases (run_checks cs st.saturated).0) [
      | inl e ↦
          ap (λ (x : TestState × Option StopReason). x.1)
            (load_samples-on limits phase r rs st (why ∙ ap reason_of e))
          ∙ load_samples-watch limits rs (sample limits phase r st).0 h.1
          ∙ ap (λ (c : Metric → ℕ). reason_of (watch (checks_in limits rs) c).0) counts
          ∙ sym (
              ap (λ (x : Option (StopReason × StopDetail) × (Metric → ℕ)). reason_of x.0)
                (watch-on cs (checks_in limits rs) st.saturated e))
      | inr (x, e) ↦
          load_samples-stop limits phase r rs st x.0 (why ∙ ap reason_of e)
          ∙ sym (ap reason_of (watch-stop cs (checks_in limits rs) st.saturated x e))
    ]
