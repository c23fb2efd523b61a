-- ===== src/Wizard/Rounds.antt =====
-- The loop of `provisionExtensions`: its invariant, and the fuel that is enough.
use swarmdialer.Prelude.{
  ℕ, zero, suc, ◌+◌, ◌*◌, min, ◌≤◌, ◌<◌, ◌≡◌, refl, ap, arith, Bool, ◌&&◌, Option, List, ◌∷◌,
  length, length-map, count_if, ind, ltb, leb, Bool-cases, Option-cases, inl, inr, ltb→ge, ltb→lt,
}
use swarmdialer.Text.{Bytes}
use swarmdialer.Wizard.Batch.{max_reserved_skips, Work, make_batch}
use swarmdialer.Wizard.Extensions.{round_size, run_round, provision_loop}
use swarmdialer.Wizard.Items.{
  OnOk, OnOk-then, times, numbers, ids, requested, Named, Adds, take_items-Adds,
}
use swarmdialer.Wizard.{Result, ExtensionCreate, BatchItem, Existing}

-- PBXware answers each request of a batch once, in whatever order.
abbrev pub IsAnswered : List ExtensionCreate → List BatchItem → Type 0
IsAnswered batch items =
    ((k : ℕ) → times k (ids items) ≡ times k (requested batch)) × (length items ≡ length batch)

-- Whether a number is one of `n` from `c` on.
abbrev pub within : ℕ → ℕ → ℕ → Bool
within c n k = leb c k && ltb k (c + n)

abbrev IsBatch : ℕ → ℕ → List ExtensionCreate → Type 0
IsBatch c n batch = ((k : ℕ) → times k (requested batch) ≤ ind (within c n k)) × (length batch ≡ n)

times-within :
    (k c n : ℕ) (ns : List ℕ)
    → times k ns ≤ ind (within (suc c) n k)
    → times k (c ∷ ns) ≤ ind (within c (suc n) k)
unfolding times count_if
times-within k c n ns h = ground arith

make_batch-IsBatch :
    (secret : ℕ → Option Bytes) (limit n c draw : ℕ)
    → OnOk (IsBatch c n) (make_batch secret limit n c draw)
unfolding make_batch
make_batch-IsBatch secret limit zero c draw = ((λ k. unfold times count_if in omega arith), refl)
make_batch-IsBatch secret limit (suc n) c draw = elim (Option-cases (secret draw)) [
  | inl q ↦ rw (q, make_batch) tt
  | inr (s, q) ↦ elim (Option-cases (secret (draw + 1))) [
    | inl q' ↦ rw (q, q', make_batch) tt
    | inr (p, q') ↦
        rw (q, q', make_batch)
          (OnOk-then (IsBatch (suc c) n) (IsBatch c (suc n))
            (make_batch secret limit n (suc c) (draw + 2)) _
            (make_batch-IsBatch secret limit n (suc c) (draw + 2))
            (λ es h. ((λ k. times-within k c n (requested es) (h.0 k)), ap suc h.1)))
  ]
]

-- The extensions are of different numbers from `base` on, and every number tried is theirs or taken.
abbrev pub IsSound : ℕ → ℕ → Work → Type 0
IsSound base count w =
    ((k : ℕ) → times k (numbers w.extensions) ≤ ind (leb base k && ltb k w.candidate))
    × (w.candidate ≡ base + length w.extensions + w.skips)
    × (w.skips ≤ max_reserved_skips)
    × Named w.prefix w.extensions
    × (length w.extensions ≤ count)

-- A round keeps the invariant and makes the number of extensions and skips grow.
abbrev pub Goes : ℕ → ℕ → Work → Work → Type 0
Goes base count w v =
    IsSound base count v × (length w.extensions + w.skips < length v.extensions + v.skips)

-- The loop ends with as many extensions as asked for, or with an error of a step.
abbrev pub IsDone : ℕ → ℕ → Work → Type 0
IsDone base count w = IsSound base count w × (length w.extensions ≡ count)

module _ (over : ℕ → Bool) (secret : ℕ → Option Bytes) (read_back : ℕ → ℕ → Option Existing)
    (create : ℕ → List ExtensionCreate → Result (List BatchItem)) (count limit : ℕ)
    (answers : (round : ℕ) (batch : List ExtensionCreate)
      → OnOk (IsAnswered batch) (create round batch)) where
  merge_times :
      (base c n k a b : ℕ)
      → base ≤ c
      → a ≤ ind (leb base k && ltb k c)
      → b ≤ ind (within c n k)
      → a + b ≤ ind (leb base k && ltb k (c + n))
  merge_times base c n k a b low h g = ground arith

  round-Goes :
      (base n : ℕ) (batch : List ExtensionCreate) (items : List BatchItem) (w v : Work)
      → n ≡ round_size count w
      → length w.extensions < count
      → IsSound base count w
      → IsBatch w.candidate n batch
      → IsAnswered batch items
      → Adds (ids items) (record w { candidate = w.candidate + n; secrets = w.secrets + 2 * n }) v
      → Goes base count w (record v { created = length v.extensions })
  unfolding round_size
  round-Goes base n batch items w v hn room h made got adds =
      let long : length (ids items) ≡ length items = length-map (λ (r : BatchItem). r.id) items in
      (
        (
          (λ k.
              let bound =
                merge_times base w.candidate n k _ _ (omega (arith, h.1)) (h.0 k) (made.0 k) in
              rw adds.5 (omega (arith, adds.0 k, got.0 k, bound))),
          omega (arith, long, adds.5, adds.1, h.1, made.1, got.1),
          adds.3 h.2,
          adds.4 h.3,
          omega (arith, long, adds.1, adds.2, got.1, made.1, hn, h.4),
        ),
        omega (arith, long, adds.1, got.1, made.1, hn),
      )

  pub run_round-Goes :
      (base round : ℕ) (w : Work)
      → length w.extensions < count
      → IsSound base count w
      → OnOk (Goes base count w) (run_round over secret read_back create count limit round w)
  unfolding run_round round_size
  run_round-Goes base round w room h = elim (Bool-cases (over round)) [
    | inl stop ↦ rw (stop, run_round) tt
    | inr go ↦
        rw (go, run_round)
          (let n = round_size count w in
            OnOk-then (IsBatch w.candidate n) (Goes base count w) _ _
              (make_batch-IsBatch secret (min limit 999) n w.candidate w.secrets)
              (λ batch made.
                OnOk-then (IsAnswered batch) (Goes base count w) _ _ (answers round batch)
                  (λ items got.
                    OnOk-then
                      (Adds (ids items)
                        (record w { candidate = w.candidate + n; secrets = w.secrets + 2 * n }))
                      (Goes base count w) _ _ (take_items-Adds read_back batch items _)
                      (λ v adds. round-Goes base n batch items w v refl room h made got adds))))
  ]

  pub provision_loop-IsDone :
      (base fuel round : ℕ) (w : Work)
      → IsSound base count w
      → OnOk
          (IsDone base count)
          (provision_loop over secret read_back create count limit fuel round w)
  unfolding provision_loop
  provision_loop-IsDone base zero round w h = elim (Bool-cases (ltb (length w.extensions) count)) [
    | inl more ↦ rw (more, provision_loop) tt
    | inr full ↦ rw (full, provision_loop) (h, omega (arith, h.4, ltb→ge _ _ full))
  ]
  provision_loop-IsDone base (suc fuel) round w h =
      elim (Bool-cases (ltb (length w.extensions) count)) [
        | inl more ↦
            rw (more, provision_loop)
              (OnOk-then (Goes base count w) (IsDone base count) _ _
                (run_round-Goes base round w (ltb→lt _ _ more) h)
                (λ v goes. provision_loop-IsDone base fuel (suc round) v goes.0))
        | inr full ↦ rw (full, provision_loop) (h, omega (arith, h.4, ltb→ge _ _ full))
      ]
