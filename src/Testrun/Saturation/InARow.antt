-- ===== src/Testrun/Saturation/InARow.antt =====
-- Three samples in a row, and nothing less, stop a test.
use swarmdialer.Prelude.{
  ℕ, suc, ◌≤◌, ◌≡◌, ◌≢◌, ◌↔◌, refl, sym, subst, ◌∙◌, ap, eq_iff, eq_refl, true, false, none, some,
  List, [], ◌∷◌, arith, leb, if◌then◌else◌, Bool-cases, Option-cases, fun_ext, inl, inr, ◌⊎◌, All,
}
use swarmdialer.Testrun.Samples.{
  Metric, host_cpu, host_mem, tool_cpu, vps_cpu, vps_mem, same_metric, over_threshold,
}
use swarmdialer.Testrun.Saturation.{
  saturated_samples, Check, put_count, next_count, run_checks, watch,
}

same_metric_refl : (m : Metric) → same_metric m m ≡ true
same_metric_refl host_cpu = refl
same_metric_refl host_mem = refl
same_metric_refl tool_cpu = refl
same_metric_refl (vps_cpu r) = eq_refl r
same_metric_refl (vps_mem r) = eq_refl r

same_metric→eq : (m k : Metric) → same_metric m k ≡ true → m ≡ k
same_metric→eq (vps_cpu r) (vps_cpu s) h = ground (arith, eq_iff r s)
same_metric→eq (vps_mem r) (vps_mem s) h = ground (arith, eq_iff r s)
same_metric→eq host_cpu k h = ground arith
same_metric→eq host_mem k h = ground arith
same_metric→eq tool_cpu k h = ground arith
same_metric→eq m k h = ground arith

same_metric-flip : (m k : Metric) → same_metric m k ≡ true → same_metric k m ≡ true
same_metric-flip m k h = rw (same_metric→eq m k h) (same_metric_refl k)

some-ne-none {ℓ} : {A : Type ℓ} {x : A} → some x ≢ none
some-ne-none h = cc

abbrev pub Apart : Metric → List Check → Type 0
Apart m cs = All (λ (c : Check). same_metric c.metric m ≡ false) cs

-- No metric is checked twice in a sample.
abbrev pub AllApart : List Check → Type 0
AllApart [] = Unit
AllApart (c ∷ cs) = Apart c.metric cs × AllApart cs

-- A metric's count after a sample that does not stop the test: one more if it is over, none if it is
-- not, and as before if the sample does not have it.
unfoldable pub counted : Metric → List Check → ℕ → ℕ
counted m [] n = n
counted m (c ∷ cs) n =
    let rest = counted m cs n in
    if same_metric c.metric m then (if c.is_over then suc n else 0) else rest

counted-Apart : (m : Metric) (cs : List Check) (n : ℕ) → Apart m cs → counted m cs n ≡ n
unfolding counted
counted-Apart m [] n h = refl
counted-Apart m (c ∷ cs) n h = ground (arith, counted-Apart m cs n h.1)

module _ (c : Check) (cs : List Check) (counts : Metric → ℕ) where
  run_checks-halt :
      leb saturated_samples (next_count c counts) ≡ true
      → run_checks (c ∷ cs) counts ≡ (
        some (c.reason, over_threshold c.metric c.value),
        put_count c.metric (next_count c counts) counts,
      )
  unfolding run_checks
  run_checks-halt e = rw e refl

  run_checks-go :
      leb saturated_samples (next_count c counts) ≡ false
      → run_checks (c ∷ cs) counts ≡ run_checks cs (put_count c.metric (next_count c counts) counts)
  unfolding run_checks
  run_checks-go e = rw e refl

  counted-step :
      (m : Metric)
      → Apart c.metric cs
      → counted m cs (put_count c.metric (next_count c counts) counts m)
        ≡ counted m (c ∷ cs) (counts m)
  unfolding counted
  counted-step m a = elim (Bool-cases (same_metric c.metric m)) [
    | inl f ↦
        let same = same_metric→eq c.metric m f in
        let apart : Apart m cs = subst (λ (k : Metric). Apart k cs) same a in
        counted-Apart m cs (put_count c.metric (next_count c counts) counts m) apart
        ∙ rw (f, counted) (rw same refl)
    | inr f ↦ rw (f, counted) refl
  ]

run_checks-counted :
    (cs : List Check) (counts : Metric → ℕ) (m : Metric)
    → AllApart cs
    → (run_checks cs counts).0 ≡ none
    → (run_checks cs counts).1 m ≡ counted m cs (counts m)
unfolding run_checks counted
run_checks-counted [] counts m a h = refl
run_checks-counted (c ∷ cs) counts m a h =
    elim (Bool-cases (leb saturated_samples (next_count c counts))) [
      | inl e ↦ absurd (some-ne-none (sym (ap (λ r. r.0) (run_checks-halt c cs counts e)) ∙ h))
      | inr e ↦
          let q = run_checks-go c cs counts e in
          let counts' = put_count c.metric (next_count c counts) counts in
          ap (λ r. r.1 m) q
          ∙ run_checks-counted cs counts' m a.1 (sym (ap (λ r. r.0) q) ∙ h)
          ∙ counted-step c cs counts m a.0
    ]

-- Some check of the sample finds its metric over, for at least the third time in a row.
abbrev pub AnyThird : (Metric → ℕ) → List Check → Type 0
AnyThird counts [] = ⊥
AnyThird counts (c ∷ cs) = ((c.is_over ≡ true) × (2 ≤ counts c.metric)) ⊎ AnyThird counts cs

-- Counts that agree on the metrics of some checks.
AnyThird-agree :
    (cs : List Check) (k : Metric) (n : ℕ) (counts : Metric → ℕ)
    → Apart k cs
    → AnyThird (put_count k n counts) cs ↔ AnyThird counts cs
AnyThird-agree [] k n counts a = ((λ h. h), (λ h. h))
AnyThird-agree (c ∷ cs) k n counts a =
    let ih = AnyThird-agree cs k n counts a.1 in
    let other : same_metric k c.metric ≡ false = elim (Bool-cases (same_metric k c.metric)) [
      | inl e ↦ absurd (ground (arith, a.0, same_metric-flip k c.metric e))
      | inr e ↦ e
    ] in
    (
      (λ h. elim h [ inl (o, m) ↦ inl (o, rw other at m) | inr r ↦ inr (ih.0 r) ]),
      (λ h. elim h [ inl (o, m) ↦ inl (o, rw other m) | inr r ↦ inr (ih.1 r) ]),
    )

-- A sample stops the test exactly when it finds some metric over its threshold that the counts say
-- was over it twice before.
run_checks_iff :
    (cs : List Check) (counts : Metric → ℕ)
    → AllApart cs
    → ((run_checks cs counts).0 ≢ none) ↔ AnyThird counts cs
unfolding run_checks
run_checks_iff [] counts a = ((λ h. h refl), (λ h. absurd h))
run_checks_iff (c ∷ cs) counts a = elim (Bool-cases (leb saturated_samples (next_count c counts))) [
  | inl e ↦
      let q = ap (λ r. r.0) (run_checks-halt c cs counts e) in
      ((λ h. inl (ground arith)), (λ h k. some-ne-none (sym q ∙ k)))
  | inr e ↦
      let q = ap (λ r. r.0) (run_checks-go c cs counts e) in
      let ih = run_checks_iff cs (put_count c.metric (next_count c counts) counts) a.1 in
      let agree = AnyThird-agree cs c.metric (next_count c counts) counts a.0 in
      (
        (λ h. inr (agree.0 (ih.0 (λ k. h (q ∙ k))))),
        (λ h. elim h [
          | inl (o, m) ↦ absurd (ground arith)
          | inr r ↦ λ k. ih.1 (agree.1 r) (sym q ∙ k)
        ]),
      )
]

-- How many samples in a row, up to the last, have found a metric over its threshold, of those that
-- had a value for it.
unfoldable pub in_a_row : Metric → List (List Check) → ℕ → ℕ
unfolding counted
in_a_row m [] n = n
in_a_row m (cs ∷ css) n = in_a_row m css (counted m cs n)

watch-in_a_row :
    (css : List (List Check)) (counts : Metric → ℕ) (m : Metric)
    → All AllApart css
    → (watch css counts).0 ≡ none
    → (watch css counts).1 m ≡ in_a_row m css (counts m)
unfolding watch in_a_row
watch-in_a_row [] counts m a h = refl
watch-in_a_row (cs ∷ css) counts m a h = elim (Option-cases (run_checks cs counts).0) [
  | inl e ↦
      rw (e, watch)
        (watch-in_a_row css (run_checks cs counts).1 m a.1 (rw (e, watch) at h)
          ∙ ap (in_a_row m css) (run_checks-counted cs counts m a.0 e))
  | inr (r, e) ↦ absurd (some-ne-none (rw (e, watch) at h))
]

-- After any samples that did not stop the test, the next one stops it exactly when it finds some
-- metric over its threshold for at least the third time in a row (of the samples that had a value for
-- that metric). No sample checks a metric twice.
pub stops_iff :
    (css : List (List Check)) (cs : List Check)
    → All AllApart css
    → AllApart cs
    → (watch css (λ m. 0)).0 ≡ none
    → ((run_checks cs (watch css (λ m. 0)).1).0 ≢ none) ↔ AnyThird (λ m. in_a_row m css 0) cs
stops_iff css cs a b h =
    let counts = (watch css (λ m. 0)).1 in
    let same : counts ≡ (λ m. in_a_row m css 0) =
      fun_ext (λ m. watch-in_a_row css (λ k. 0) m a h) in
    subst (λ (f : Metric → ℕ). ((run_checks cs counts).0 ≢ none) ↔ AnyThird f cs) same
      (run_checks_iff cs counts b)
