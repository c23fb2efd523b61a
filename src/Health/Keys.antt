-- ===== src/Health/Keys.antt =====
-- Failure keys are read back as they were written, and media totals stay sane.
use swarmdialer.Prelude.{
  ℕ, ◌+◌, ◌≤◌, ◌≡◌, refl, ◌⊎◌, inl, inr, Bool, true, false, none, some, arith, ap, sym, ◌∙◌,
  if◌then◌else◌, Option-cases,
}
use swarmdialer.Text.{Bytes, bytes_eq, scan_digits-decimal}
use swarmdialer.Health.{
  Cause, rejected, no_response, no_answer, setup_error, cause_name, AnswerError,
  classify_answer_error, failure_key, split_failure_key, MediaStats, MediaTotals, add, Health,
  count_failure,
}

-- `splitFailureKey` undoes `failureKey`: the cause, and the SIP code where the key holds one
-- (of a rejection; any other failure gives 0).
pub split_failure_key-failure_key :
    (cause : Cause) (code : ℕ)
    → split_failure_key (failure_key cause code)
      ≡ (cause_name cause, elim cause [ rejected ↦ code | _ ↦ 0 ])
unfolding split_failure_key failure_key
split_failure_key-failure_key rejected code =
    ap (λ (n : ℕ). (cause_name rejected, n)) (scan_digits-decimal code)
split_failure_key-failure_key no_response code = refl
split_failure_key-failure_key no_answer code = refl
split_failure_key-failure_key setup_error code = refl

-- Two failures share a counter exactly when they have the same cause and, if they are rejections,
-- the same SIP code.
pub failure_key-injective :
    (c d : Cause) (m n : ℕ) → failure_key c m ≡ failure_key d n → (c ≡ d) × (c ≡ rejected → m ≡ n)
failure_key-injective c d m n h = same c d (
    sym (split_failure_key-failure_key c m)
    ∙ ap split_failure_key h
    ∙ split_failure_key-failure_key d n)
  where
    same :
        (c d : Cause)
        → ◌≡◌ {A = Bytes × ℕ}
            (cause_name c, elim c [ rejected ↦ m | _ ↦ 0 ])
            (cause_name d, elim d [ rejected ↦ n | _ ↦ 0 ])
        → (c ≡ d) × (c ≡ rejected → m ≡ n)
    same c d e = ground arith

-- An error is classified as a rejection exactly when the dial timeout had not passed and the error
-- holds a final response, whose status code it then has; any other failure to be answered is
-- no_answer if PBXware had responded at all, no_response if not, with no code.
pub classify_answer_error_cases :
    (err : AnswerError) (timed_out saw_response : Bool)
    → let de = classify_answer_error err timed_out saw_response in
      ((de.cause ≡ rejected)
        × (timed_out ≡ false)
        × ((err.response_pointer ≡ some de.sip_code)
            ⊎ ((err.response_pointer ≡ none) × (err.response_value ≡ some de.sip_code))))
      ⊎ ((de.cause ≡ (if saw_response then no_answer else no_response))
          × (de.sip_code ≡ 0)
          × ((timed_out ≡ true) ⊎ ((err.response_pointer ≡ none) × (err.response_value ≡ none))))
unfolding classify_answer_error
classify_answer_error_cases err true saw = inr (refl, refl, inl refl)
classify_answer_error_cases err false saw = elim (Option-cases err.response_pointer) [
  | inr (c, e) ↦ rw e (inl (refl, refl, inl refl))
  | inl e ↦ elim (Option-cases err.response_value) [
    | inr (c, f) ↦ rw (e, f) (inl (refl, refl, inr (refl, refl)))
    | inl f ↦ rw (e, f) (inr (refl, refl, inr (refl, refl)))
  ]
]

-- Counting a failure adds one to its own key and leaves the others.
pub count_failure_lem :
    (key k : Bytes) (h : Health)
    → (count_failure key h).failures k ≡ (if bytes_eq key k then h.failures k + 1 else h.failures k)
unfolding count_failure
count_failure_lem key k h = ground arith

-- Never more received than expected, and the largest jitter is at most the sum of all.
pub record IsSane (m : MediaTotals) : Type 0 where
  pub received_le_expected : m.received ≤ m.expected
  pub max_le_sum : m.jitter_max_ms ≤ m.jitter_sum_ms
  pub calls_le_expected : m.calls ≤ m.expected

-- Adding a call's media statistics keeps the totals sane, whatever the statistics say (an RTP stream
-- with duplicates has received more packets than it expected).
pub add-IsSane : (m : MediaTotals) (s : MediaStats) → IsSane m → IsSane (add m s)
unfolding add
add-IsSane m s h = ground arith
