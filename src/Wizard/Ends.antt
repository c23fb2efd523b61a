-- ===== src/Wizard/Ends.antt =====
-- The wizard's loops end: what they give is never the mark of used up fuel.
use swarmdialer.Prelude.{
  ℕ, zero, suc, ◌+◌, ◌*◌, min, ◌≤◌, ◌<◌, ◌≡◌, ◌≢◌, refl, arith, Bool, false, Option, none, some,
  List, [], ◌∷◌, length, ltb, if◌then◌else◌, Bool-cases, Option-cases, inl, inr, ge→ltb, subst,
  ltb→lt,
}
use swarmdialer.Text.{Bytes}
use swarmdialer.Wizard.Batch.{
  max_reserved_skips, Work, make_batch, sip_username_prefix, keep_extension, keep_with, adopt,
  take_item, take_items,
}
use swarmdialer.Wizard.Extensions.{
  create_loop, create_batch_with_retry, round_size, run_round, provision_loop,
}
use swarmdialer.Wizard.Items.{OnOk}
use swarmdialer.Wizard.Rounds.{IsAnswered, IsSound, Goes, run_round-Goes}
use swarmdialer.Wizard.{Result, ok, fail, ◌>>=◌, out_of_fuel, ExtensionCreate, BatchItem, Existing}

abbrev pub Ends {ℓ} : {A : Type ℓ} → Result A → Type ℓ
Ends r = r ≢ fail out_of_fuel

pub ok-Ends {ℓ} : {A : Type ℓ} (a : A) → Ends (ok a)
ok-Ends a = λ q. cc

pub Ends-then {ℓ κ} :
    {A : Type ℓ} {B : Type κ} (r : Result A) (f : A → Result B)
    → Ends r
    → ((a : A) → r ≡ ok a → Ends (f a))
    → Ends (r >>= f)
Ends-then (ok a) f h g = g a refl
Ends-then (fail e) f h g = λ q. h (let p : e ≡ out_of_fuel = cc in cc)

module _ (post : ℕ → List ExtensionCreate → Option (List BatchItem)) (took : ℕ → ℕ)
    (stopped : ℕ → Bool) where
  create_loop-Ends :
      (fuel attempt now backoff deadline : ℕ) (batch : List ExtensionCreate)
      → 2 ≤ backoff
      → now ≤ deadline
      → deadline < now + fuel
      → Ends (create_loop post took stopped fuel attempt now backoff deadline batch)
  unfolding create_loop
  create_loop-Ends zero attempt now backoff deadline batch hb hn hf = absurd (omega arith)
  create_loop-Ends (suc fuel) attempt now backoff deadline batch hb hn hf = ground (
    arith,
    create_loop-Ends fuel (suc attempt) (now + took attempt + backoff)
        (if ltb backoff 30 then backoff * 2 else backoff) deadline batch,
  )

  -- The retries of a batch end: each waits two seconds at least, and none waits past the deadline.
  pub create_batch_with_retry-Ends :
      (max_wait : ℕ) (batch : List ExtensionCreate)
      → Ends (create_batch_with_retry post took stopped max_wait batch)
  unfolding create_batch_with_retry
  create_batch_with_retry-Ends max_wait batch =
      create_loop-Ends (suc max_wait) 0 0 2 max_wait batch (omega arith) (omega arith) (omega arith)

make_batch-Ends :
    (secret : ℕ → Option Bytes) (limit n c draw : ℕ) → Ends (make_batch secret limit n c draw)
unfolding make_batch
make_batch-Ends secret limit zero c draw = λ q. cc
make_batch-Ends secret limit (suc n) c draw = elim (Option-cases (secret draw)) [
  | inl q ↦ rw (q, make_batch) (λ e. cc)
  | inr (s, q) ↦ elim (Option-cases (secret (draw + 1))) [
    | inl q' ↦ rw (q, q', make_batch) (λ e. cc)
    | inr (p, q') ↦
        rw (q, q', make_batch)
          (Ends-then _ _ (make_batch-Ends secret limit n (suc c) (draw + 2)) (λ es h e. cc))
  ]
]

module _ (read_back : ℕ → ℕ → Option Existing) where
  keep_with-Ends :
      (o : Option Bytes) (number id : ℕ) (sec : Bytes) (w : Work)
      → Ends (keep_with read_back o number id sec w)
  unfolding keep_with sip_username_prefix
  keep_with-Ends (some p) number id sec w = λ q. cc
  keep_with-Ends none number id sec w = ground arith

  take_item-Ends :
      (batch : List ExtensionCreate) (w : Work) (r : BatchItem)
      → Ends (take_item read_back batch w r)
  unfolding take_item keep_extension adopt
  take_item-Ends batch w r = grind (arith, keep_with-Ends)

  take_items-Ends :
      (batch : List ExtensionCreate) (rs : List BatchItem) (w : Work)
      → Ends (take_items read_back batch rs w)
  unfolding take_items
  take_items-Ends batch [] w = λ q. cc
  take_items-Ends batch (r ∷ rs) w =
      Ends-then _ _ (take_item-Ends batch w r) (λ v h. take_items-Ends batch rs v)

module _ (over : ℕ → Bool) (secret : ℕ → Option Bytes) (read_back : ℕ → ℕ → Option Existing)
    (create : ℕ → List ExtensionCreate → Result (List BatchItem)) (count limit : ℕ)
    (answers : (round : ℕ) (batch : List ExtensionCreate)
      → OnOk (IsAnswered batch) (create round batch))
    (create_ends : (round : ℕ) (batch : List ExtensionCreate) → Ends (create round batch)) where
  run_round-Ends :
      (round : ℕ) (w : Work) → Ends (run_round over secret read_back create count limit round w)
  unfolding run_round
  run_round-Ends round w = elim (Bool-cases (over round)) [
    | inl stop ↦ rw (stop, run_round) (λ q. cc)
    | inr go ↦
        rw (go, run_round)
          (Ends-then (make_batch secret (min limit 999) (round_size count w) w.candidate w.secrets)
            _ (make_batch-Ends secret (min limit 999) (round_size count w) w.candidate w.secrets)
            (λ batch _. Ends-then (create round batch) _ (create_ends round batch) (λ items _.
              Ends-then
                (take_items read_back batch items (record w {
                  candidate = w.candidate + round_size count w;
                  secrets = w.secrets + 2 * round_size count w;
                }))
                _ (take_items-Ends read_back batch items _) (λ v _. ok-Ends _))))
  ]

  pub provision_loop-Ends :
      (base fuel round : ℕ) (w : Work)
      → IsSound base count w
      → count + max_reserved_skips < fuel + (length w.extensions + w.skips)
      → Ends (provision_loop over secret read_back create count limit fuel round w)
  unfolding provision_loop
  provision_loop-Ends base zero round w h hf =
      let full : ltb (length w.extensions) count ≡ false = ge→ltb _ _ (omega (arith, h.2)) in
      rw (full, provision_loop) (ok-Ends w)
  provision_loop-Ends base (suc fuel) round w h hf =
      elim (Bool-cases (ltb (length w.extensions) count)) [
        | inl more ↦
            rw (more, provision_loop)
              (Ends-then _ _ (run_round-Ends round w) (λ v e.
                let goes = subst (OnOk (Goes base count w)) e (
                  run_round-Goes over secret read_back create count limit answers base round w
                    (ltb→lt _ _ more) h) in
                provision_loop-Ends base fuel (suc round) v goes.0 (omega (arith, goes.1))))
        | inr full ↦ rw (full, provision_loop) (ok-Ends w)
      ]
