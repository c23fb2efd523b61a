-- ===== src/Testrun/Diagnostics/Status.antt =====
-- `cleanStatus` of internal/testrun/diagnostics.go: what of a CDR's status goes into the report. The
-- status is ASCII text; a rune outside the allowed ones is dropped either way.
use swarmdialer.Prelude.{
  ℕ, zero, suc, ◌≤◌, ◌≡◌, ◌≢◌, refl, Bool, true, ◌&&◌, ◌||◌, [], ◌∷◌, arith, leb, ltb, ◌==◌,
  if◌then◌else◌, length, All, Bool-cases, inl, inr,
}
use swarmdialer.Text.{Bytes, bytes, trim_space}
use swarmdialer.Testrun.Stats.{take}

abbrev pub is_allowed : ℕ → Bool
is_allowed c = c == b' ' || c == b'-' || (leb b'a' c && leb c b'z') || (leb b'A' c && leb c b'Z')

unfoldable pub keep_allowed : Bytes → Bytes
keep_allowed [] = []
keep_allowed (c ∷ s) = let rest = keep_allowed s in if is_allowed c then c ∷ rest else rest

abbrev pub or_unknown : Bytes → Bytes
or_unknown [] = bytes "unknown"
or_unknown (c ∷ s) = c ∷ s

unfoldable pub clean_status : Bytes → Bytes
unfolding trim_space keep_allowed take
clean_status s =
    let out = keep_allowed (trim_space s) in
    or_unknown (if ltb 30 (length out) then take 30 out else out)

-- Nothing but letters, spaces and dashes.
abbrev pub IsPlain : Bytes → Type 0
IsPlain s = All (λ (c : ℕ). is_allowed c ≡ true) s

keep_allowed-IsPlain : (s : Bytes) → IsPlain (keep_allowed s)
unfolding keep_allowed
keep_allowed-IsPlain [] = tt
keep_allowed-IsPlain (c ∷ s) = elim (Bool-cases (is_allowed c)) [
  | inl e ↦ rw e (e, keep_allowed-IsPlain s)
  | inr e ↦ rw e (keep_allowed-IsPlain s)
]

take-IsPlain : (n : ℕ) (s : Bytes) → IsPlain s → IsPlain (take n s)
unfolding take
take-IsPlain zero s h = tt
take-IsPlain (suc n) [] h = tt
take-IsPlain (suc n) (c ∷ s) h = (h.0, take-IsPlain n s h.1)

length-take-le : (n : ℕ) (s : Bytes) → length (take n s) ≤ n
unfolding take
length-take-le zero s = omega arith
length-take-le (suc n) [] = omega arith
length-take-le (suc n) (c ∷ s) = omega (arith, length-take-le n s)

or_unknown-IsPlain :
    (s : Bytes)
    → IsPlain s
    → length s ≤ 30
    → IsPlain (or_unknown s) × (length (or_unknown s) ≤ 30) × (or_unknown s ≢ [])
or_unknown-IsPlain [] h k =
    ((refl, (refl, (refl, (refl, (refl, (refl, (refl, tt))))))), omega arith, λ e. ground arith)
or_unknown-IsPlain (c ∷ s) h k = (h, k, λ e. ground arith)

-- Whatever the status that PBXware gives, the report has a word or phrase of at most thirty letters,
-- spaces and dashes, and never nothing.
pub clean_status-IsPlain :
    (s : Bytes) → IsPlain (clean_status s) × (length (clean_status s) ≤ 30) × (clean_status s ≢ [])
unfolding clean_status
clean_status-IsPlain s =
    let out = keep_allowed (trim_space s) in
    let plain = keep_allowed-IsPlain (trim_space s) in
    elim (Bool-cases (ltb 30 (length out))) [
      | inl e ↦
          rw e
            (or_unknown-IsPlain (take 30 out) (take-IsPlain 30 out plain) (length-take-le 30 out))
      | inr e ↦ rw e (or_unknown-IsPlain out plain (ground arith))
    ]
