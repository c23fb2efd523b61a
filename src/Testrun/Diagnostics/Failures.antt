-- ===== src/Testrun/Diagnostics/Failures.antt =====
-- The failures of `finishDiagnostics` in internal/testrun/diagnostics.go. The health's counters only
-- grow, so that no difference of them is negative. sort.Slice leaves the order of equal counts open:
-- here the one read first comes first.
use swarmdialer.Prelude.{
  ℕ, ◌+◌, ◌-◌, ◌≤◌, ◌<◌, ◌≡◌, refl, ◌∙◌, ap, Option, none, some, List, [], ◌∷◌, ◌++◌, map, arith,
  leb, ◌==◌, if◌then◌else◌, All, Bool-cases, inl, inr,
}
use swarmdialer.Text.{Bytes, bytes}
use swarmdialer.Health.{split_failure_key}
use swarmdialer.Testrun.Samples.{HealthView, Diag}

pub record Failure : Type 0 where
  pub cause : Bytes
  pub sip_code : ℕ
  pub count : ℕ
  pub after_stop : ℕ
  pub first_at : Option (ℕ × ℕ)  -- calls, seconds

-- One failure counter: at the start of the test, at its stop, and in the end.
pub record Counter : Type 0 where
  pub key : Bytes
  pub at_start : ℕ
  pub at_stop : ℕ
  pub at_end : ℕ

abbrev pub failure_counter : Diag → HealthView → HealthView → Bytes → Counter
failure_counter d stop end key = record {
  key = key;
  at_start = d.start.health.failures key;
  at_stop = stop.health.failures key;
  at_end = end.health.failures key;
}

abbrev pub stop_health : Diag → HealthView → HealthView
stop_health d end = elim d.at_stop [ none ↦ end | some h ↦ h ]

-- The calls of `add`, in their order; `keys` are those of the failures in the end.
unfoldable pub counters_of : Diag → HealthView → List Bytes → List Counter
counters_of d end keys =
    map (failure_counter d (stop_health d end) end) keys
    ++ record {
      key = bytes "dropped";
      at_start = d.start.health.dropped;
      at_stop = (stop_health d end).health.dropped;
      at_end = end.health.dropped;
    }
      ∷ record {
        key = bytes "no_audio";
        at_start = d.start.health.no_audio;
        at_stop = (stop_health d end).health.no_audio;
        at_end = end.health.no_audio;
      }
      ∷ []

unfoldable pub add_failures : (Bytes → Option (ℕ × ℕ)) → List Counter → List Failure
unfolding split_failure_key
add_failures first [] = []
add_failures first (c ∷ cs) =
    let rest = add_failures first cs in
    if c.at_end - c.at_start == 0
    then rest
    else record {
      cause = (split_failure_key c.key).0;
      sip_code = (split_failure_key c.key).1;
      count = c.at_end - c.at_start;
      after_stop = c.at_end - c.at_stop;
      first_at = first c.key;
    }
      ∷ rest

unfoldable pub insert_failure : Failure → List Failure → List Failure
insert_failure f [] = f ∷ []
insert_failure f (g ∷ gs) =
    let rest = insert_failure f gs in if leb g.count f.count then f ∷ g ∷ gs else g ∷ rest

unfoldable pub sort_failures : List Failure → List Failure
unfolding insert_failure
sort_failures [] = []
sort_failures (f ∷ fs) = insert_failure f (sort_failures fs)

unfoldable pub report_failures : Diag → HealthView → List Bytes → List Failure
unfolding counters_of add_failures sort_failures
report_failures d end keys = sort_failures (add_failures d.first_failure (counters_of d end keys))

abbrev pub IsSorted : List Failure → Type 0
IsSorted [] = Unit
IsSorted (f ∷ []) = Unit
IsSorted (f ∷ g ∷ fs) = (g.count ≤ f.count) × IsSorted (g ∷ fs)

-- The counters never fall.
abbrev pub Growing : List Counter → Type 0
Growing cs = All (λ (c : Counter). (c.at_start ≤ c.at_stop) × (c.at_stop ≤ c.at_end)) cs

-- Something failed, and no more of it after the stop than in all.
abbrev pub IsCounted : Failure → Type 0
IsCounted f = (0 < f.count) × (f.after_stop ≤ f.count)

unfoldable pub counts : List Failure → ℕ
counts [] = 0
counts (f ∷ fs) = f.count + counts fs

unfoldable pub increases : List Counter → ℕ
increases [] = 0
increases (c ∷ cs) = (c.at_end - c.at_start) + increases cs

insert_failure-IsSorted :
    (f : Failure) (fs : List Failure) → IsSorted fs → IsSorted (insert_failure f fs)
unfolding insert_failure
insert_failure-IsSorted f [] h = tt
insert_failure-IsSorted f (g ∷ []) h = ground arith
insert_failure-IsSorted f (g ∷ k ∷ fs) h = ground (arith, insert_failure-IsSorted f (k ∷ fs))

insert_failure-All :
    (P : Failure → Type 0) (f : Failure) (fs : List Failure)
    → P f
    → All P fs
    → All P (insert_failure f fs)
unfolding insert_failure
insert_failure-All P f [] p h = (p, tt)
insert_failure-All P f (g ∷ fs) p h = elim (Bool-cases (leb g.count f.count)) [
  | inl e ↦ rw e (p, h)
  | inr e ↦ rw e (h.0, insert_failure-All P f fs p h.1)
]

insert_failure-counts :
    (f : Failure) (fs : List Failure) → counts (insert_failure f fs) ≡ f.count + counts fs
unfolding insert_failure counts
insert_failure-counts f [] = refl
insert_failure-counts f (g ∷ fs) = ground (arith, insert_failure-counts f fs)

sort_failures_lem :
    (fs : List Failure)
    → All IsCounted fs
    → IsSorted (sort_failures fs)
      × All IsCounted (sort_failures fs)
      × (counts (sort_failures fs) ≡ counts fs)
unfolding sort_failures counts
sort_failures_lem [] h = (tt, tt, refl)
sort_failures_lem (f ∷ fs) h =
    let (a, b, c) = sort_failures_lem fs h.1 in
    (
      insert_failure-IsSorted f (sort_failures fs) a,
      insert_failure-All IsCounted f (sort_failures fs) h.0 b,
      insert_failure-counts f (sort_failures fs) ∙ ap (λ (n : ℕ). f.count + n) c,
    )

add_failures_lem :
    (first : Bytes → Option (ℕ × ℕ)) (cs : List Counter)
    → Growing cs
    → All IsCounted (add_failures first cs) × (counts (add_failures first cs) ≡ increases cs)
unfolding add_failures counts increases
add_failures_lem first [] h = (tt, refl)
add_failures_lem first (c ∷ cs) h =
    let (a, b) = add_failures_lem first cs h.1 in
    elim (Bool-cases (c.at_end - c.at_start == 0)) [
      | inl e ↦ rw e (a, ground arith)
      | inr e ↦ rw e (((ground arith, omega arith), a), omega (arith, b))
    ]

-- The report's failures are the causes that have failed calls, the largest first; their counts add up
-- to all the failures counted since the test started, and none has more after the stop than in all.
-- (The counters never fall.)
pub report_failures_lem :
    (d : Diag) (end : HealthView) (keys : List Bytes)
    → Growing (counters_of d end keys)
    → let fs = report_failures d end keys in
      IsSorted fs × All IsCounted fs × (counts fs ≡ increases (counters_of d end keys))
unfolding report_failures
report_failures_lem d end keys h =
    let (a, b) = add_failures_lem d.first_failure (counters_of d end keys) h in
    let (x, y, z) = sort_failures_lem (add_failures d.first_failure (counters_of d end keys)) a in
    (x, y, z ∙ b)
