-- ===== src/Wizard/Outcome.antt =====
-- What `provisionExtensions` promises about the extensions it gives back.
use swarmdialer.Prelude.{
  OnSome, ℕ, zero, suc, ◌+◌, ◌≤◌, ◌<◌, ◌≡◌, refl, sym, subst, Bool-cases, Option-cases, inl, inr,
  ◌∙◌, arith, Bool, ◌*◌, if◌then◌else◌, Option, none, some, List, [], ◌∷◌, ltb, length, All,
}
use swarmdialer.Text.{Bytes}
use swarmdialer.Wizard.Batch.{max_reserved_skips, ext_base, Work}
use swarmdialer.Wizard.Ends.{
  Ends, ok-Ends, Ends-then, create_batch_with_retry-Ends, provision_loop-Ends,
}
use swarmdialer.Wizard.Extensions.{
  create_loop, create_batch_with_retry, provision_extensions, ext_number, sort_extensions, new_work,
}
use swarmdialer.Wizard.Items.{OnOk, OnOk-then, times, times-cons, numbers, IsNamed, Named}
use swarmdialer.Wizard.Order.{IsAscending, sort-IsAscending, All-sort, length-sort_extensions}
use swarmdialer.Wizard.Rounds.{IsAnswered, IsSound, IsDone, provision_loop-IsDone}
use swarmdialer.Wizard.{ExtensionCreate, BatchItem, Existing, Extension}

-- As many extensions as asked for, ascending from the first number of the length, with at most twenty
-- numbers left out, and all of them under one user name prefix.
abbrev pub IsAsked : ℕ → ℕ → List Extension → Type 0
IsAsked base count es =
    (length es ≡ count)
    × IsAscending es
    × All (λ e. (base ≤ ext_number e) × (ext_number e < base + count + max_reserved_skips)) es
    × ((p : Bytes) × All (IsNamed p) es)

times-All :
    (P : ℕ → Type 0) (es : List Extension)
    → ((k : ℕ) → 1 ≤ times k (numbers es) → P k)
    → All (λ e. P (ext_number e)) es
times-All P [] h = tt
times-All P (x ∷ xs) h = (
  h (ext_number x) (ground (arith, times-cons (ext_number x) (ext_number x) (numbers xs))),
  times-All P xs (λ k seen. h k (omega (arith, times-cons k (ext_number x) (numbers xs)))),
)

-- A prefix that all have, whichever it is.
some_prefix :
    (o : Option Bytes) (es : List Extension) → Named o es → (p : Bytes) × All (IsNamed p) es
some_prefix none es h = ([], subst (All (IsNamed [])) (sym h) tt)
some_prefix (some p) es h = (p, h)

IsDone-IsAsked :
    (base count : ℕ) (w : Work)
    → IsSound base count w
    → length w.extensions ≡ count
    → IsAsked base count (sort_extensions w.extensions)
IsDone-IsAsked base count w h full =
    let (p, named) = some_prefix w.prefix w.extensions h.3 in
    (
      length-sort_extensions w.extensions ∙ full,
      sort-IsAscending w.extensions (λ k. ground (arith, h.0 k)),
      All-sort _ w.extensions (
          times-All (λ k. (base ≤ k) × (k < base + count + max_reserved_skips)) w.extensions
            (λ k seen. ground (arith, h.0 k, h.1, h.2))),
      (p, All-sort (IsNamed p) w.extensions named),
    )

module _ (over : ℕ → Bool) (secret : ℕ → Option Bytes) (read_back : ℕ → ℕ → Option Existing)
    (post : ℕ → ℕ → List ExtensionCreate → Option (List BatchItem)) (took : ℕ → ℕ → ℕ)
    (stopped : ℕ → ℕ → Bool) (count limit max_wait : ℕ)
    (answers : (round attempt : ℕ) (batch : List ExtensionCreate)
      → OnSome (IsAnswered batch) (post round attempt batch)) where
  create_loop-IsAnswered :
      (round fuel attempt now backoff deadline : ℕ) (batch : List ExtensionCreate)
      → OnOk (IsAnswered batch) (
          create_loop
            (post round)
            (took round)
            (stopped round)
            fuel
            attempt
            now
            backoff
            deadline
            batch)
  unfolding create_loop
  create_loop-IsAnswered round zero attempt now backoff deadline batch = tt
  create_loop-IsAnswered round (suc fuel) attempt now backoff deadline batch =
      elim (Option-cases (post round attempt batch)) [
        | inl q ↦
            rw (q, create_loop)
              (elim (Bool-cases (ltb deadline (now + took round attempt + backoff))) [
                | inl late ↦ rw late tt
                | inr soon ↦ rw soon (elim (Bool-cases (stopped round attempt)) [
                  | inl stop ↦ rw stop tt
                  | inr go ↦ rw go (
                      create_loop-IsAnswered round fuel (suc attempt)
                        (now + took round attempt + backoff)
                        (if ltb backoff 30 then backoff * 2 else backoff) deadline batch)
                ])
              ])
        | inr (items, q) ↦
            rw (q, create_loop) (subst (OnSome (IsAnswered batch)) q (answers round attempt batch))
      ]

  create_answers :
      (round : ℕ) (batch : List ExtensionCreate)
      → OnOk
          (IsAnswered batch)
          (create_batch_with_retry (post round) (took round) (stopped round) max_wait batch)
  unfolding create_batch_with_retry
  create_answers round batch = create_loop-IsAnswered round (suc max_wait) 0 0 2 max_wait batch

  new_work-IsSound : (base : ℕ) → IsSound base count (new_work base)
  unfolding times
  new_work-IsSound base = ((λ k. omega arith), omega arith, omega arith, refl, omega arith)

  -- If PBXware answers each item of a batch once whenever it answers, the result is an error, or exactly
  -- as many extensions as asked for, with ascending numbers from the first of the length on, at most
  -- twenty numbers left out, and user names of one prefix and the number.
  pub provision_extensions-IsAsked :
      (digits : ℕ)
      → OnOk
          (IsAsked (ext_base digits) count)
          (provision_extensions over secret read_back post took stopped count limit max_wait digits)
  unfolding provision_extensions
  provision_extensions-IsAsked digits =
      OnOk-then (IsDone (ext_base digits) count) (IsAsked (ext_base digits) count) _ _
        (provision_loop-IsDone over secret read_back _ count limit create_answers (ext_base digits)
          (count + 22) 0 (new_work (ext_base digits)) (new_work-IsSound (ext_base digits)))
        (λ w done. IsDone-IsAsked (ext_base digits) count w done.0 done.1)

  -- If PBXware answers each item of a batch once whenever it answers, the fuel of a round for every
  -- extension and 22 more is never used up, nor that of a batch's retries.
  pub provision_extensions-Ends :
      (digits : ℕ)
      → Ends
          (provision_extensions over secret read_back post took stopped count limit max_wait digits)
  unfolding provision_extensions
  provision_extensions-Ends digits =
      Ends-then _ _
        (provision_loop-Ends over secret read_back _ count limit create_answers
          (λ round. create_batch_with_retry-Ends (post round) (took round) (stopped round) max_wait)
          (ext_base digits) (count + 22) 0 (new_work (ext_base digits))
          (new_work-IsSound (ext_base digits)) (omega arith))
        (λ w e. ok-Ends _)
