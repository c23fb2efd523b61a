-- ===== src/Ulaw.antt =====
-- internal/sipua/speech.go, `linearToULaw`: one 16-bit PCM sample as G.711 u-law. An int16 is an
-- integer from -32768 to 32767. `s & mask` at a single bit is a quotient's parity; a shift is a
-- quotient; the or of fields on disjoint bits is a sum; the complement of a byte is taken from 255.
use swarmdialer.Prelude.{
  ℕ, zero, suc, ◌+◌, ◌-◌, ◌*◌, ◌/◌, ◌%◌, ◌^◌, ◌≤◌, ◌<◌, min, ◌≡◌, refl, ◌∙◌, ap, ◌⊎◌, inl, inr,
  arith, dec_lt, dec_le, sym, subst, ◌↔◌, ◌==◌, if◌then◌else◌,
}
use native.Mathlib.Nat.{
  div-eq_of_lt, div-eq-sub-div, one-le-pow, pow-le-pow_right, pow-suc, le_trans,
}
use swarmdialer.Prelude.Int.{ℤ, pos, negsuc}

abbrev pub bias : ℕ
bias = 0x84

abbrev pub clip : ℕ
clip = 32635

abbrev pub magnitude : ℤ → ℕ
magnitude (pos n) = n
magnitude (negsuc n) = suc n

abbrev pub sign_bit : ℤ → ℕ
sign_bit (pos n) = 0
sign_bit (negsuc n) = 0x80

-- The loop: `exp` counts down while bit `exp + 7` of `s` is clear.
unfoldable pub find_exp : ℕ → ℕ → ℕ
find_exp zero s = 0
find_exp (suc exp) s =
    let lower = find_exp exp s in if s / 2 ^ (exp + 8) % 2 == 0 then lower else suc exp

unfoldable pub biased : ℤ → ℕ
biased sample = min (magnitude sample) clip + bias

unfoldable pub linear_to_ulaw : ℤ → ℕ
unfolding find_exp biased
linear_to_ulaw sample =
    let s = biased sample in
    let exp = find_exp 7 s in
    let mantissa = s / 2 ^ (exp + 3) % 16 in 255 - (sign_bit sample + exp * 16 + mantissa)

-- G.711's decoder: the magnitude that a code stands for, and its sign.
unfoldable pub decoded : ℕ → ℕ
decoded code = let u = 255 - code in (u % 16 * 8 + bias) * 2 ^ (u / 16 % 8) - bias

-- The exponent is `e` where the biased sample is from 2 ^ (e + 7) up to 2 ^ (e + 8).
abbrev InSegment : ℕ → ℕ → Type 0
InSegment e s = (2 ^ (e + 7) ≤ s) × (s < 2 ^ (e + 8))

find_exp-clear : (k s : ℕ) → s < 2 ^ (k + 8) → find_exp (suc k) s ≡ find_exp k s
unfolding find_exp
find_exp-clear k s h = let e : s / 2 ^ (k + 8) ≡ 0 = div-eq_of_lt h in rw e

find_exp-set : (k s : ℕ) → 2 ^ (k + 8) ≤ s → s < 2 * 2 ^ (k + 8) → find_exp (suc k) s ≡ suc k
unfolding find_exp
find_exp-set k s h g =
    let pos : 0 < 2 ^ (k + 8) = one-le-pow (k + 8) 2 (omega arith) in
    let less : s - 2 ^ (k + 8) < 2 ^ (k + 8) = omega arith in
    let e : s / 2 ^ (k + 8) ≡ 1 =
      div-eq-sub-div pos h ∙ ap (λ (n : ℕ). n + 1) (div-eq_of_lt less) in
    rw e

find_exp-le : (k s : ℕ) → find_exp k s ≤ k
unfolding find_exp
find_exp-le zero s = omega arith
find_exp-le (suc k) s = ground (arith, find_exp-le k s)

find_exp-segment : (k e s : ℕ) → e ≤ k → 2 ^ (e + 7) ≤ s → s < 2 ^ (e + 8) → find_exp k s ≡ e
find_exp-segment zero e s b lo hi = unfold find_exp in omega arith
find_exp-segment (suc k) e s b lo hi = elim (dec_le e k) [
  | yes p ↦
      find_exp-clear k s (le_trans hi (pow-le-pow_right (omega arith) (omega arith)))
      ∙ find_exp-segment k e s p lo hi
  | no p ↦
      let q : e ≡ suc k = omega arith in
      let r : suc k + 7 ≡ k + 8 = omega arith in
      let r' : suc k + 8 ≡ suc (k + 8) = omega arith in
      let lo' : 2 ^ (k + 8) ≤ s = subst (λ (n : ℕ). 2 ^ n ≤ s) (ap (λ (n : ℕ). n + 7) q ∙ r) lo in
      let hi' : s < 2 ^ suc (k + 8) =
        subst (λ (n : ℕ). s < 2 ^ n) (ap (λ (n : ℕ). n + 8) q ∙ r') hi in
      find_exp-set k s lo' (omega (arith, pow-suc 2 (k + 8))) ∙ sym q
]

segment_of : (s : ℕ) → bias ≤ s → s < 2 ^ 15 → (e : ℕ) × (e < 8) × InSegment e s
segment_of s lo hi =
    if_below 256 (λ p. (0, omega arith, omega arith))
      λ p.
        if_below 512 (λ q. (1, omega arith, omega arith))
          λ p.
            if_below 1024 (λ q. (2, omega arith, omega arith))
              λ p.
                if_below 2048 (λ q. (3, omega arith, omega arith))
                  λ p.
                    if_below 4096 (λ q. (4, omega arith, omega arith))
                      λ p.
                        if_below 8192 (λ q. (5, omega arith, omega arith))
                          λ p.
                            if_below 16384 (λ q. (6, omega arith, omega arith))
                              λ p. (7, omega arith, omega arith)
  where
    if_below :
        (n : ℕ)
        → (s < n → (e : ℕ) × (e < 8) × InSegment e s)
        → (n ≤ s → (e : ℕ) × (e < 8) × InSegment e s)
        → (e : ℕ) × (e < 8) × InSegment e s
    if_below n below above = elim (dec_lt s n) [ yes p ↦ below p | no p ↦ above (omega arith) ]

-- What a code with these fields decodes to.
sign_cases : (sample : ℤ) → (sign_bit sample ≡ 0) ⊎ (sign_bit sample ≡ 0x80)
sign_cases (pos n) = inl refl
sign_cases (negsuc n) = inr refl

decoded-fields :
    (sign e m : ℕ)
    → (sign ≡ 0) ⊎ (sign ≡ 0x80)
    → e < 8
    → m < 16
    → decoded (255 - (sign + e * 16 + m)) ≡ (m * 8 + bias) * 2 ^ e - bias
unfolding decoded
decoded-fields sign e m z h k =
    let x = sign + e * 16 + m in
    let back : 255 - (255 - x) ≡ x = omega arith in
    let low : x % 16 ≡ m = omega arith in
    let mid : x / 16 % 8 ≡ e = omega arith in rw back (rw (low, mid))

-- Within a segment the decoder gives back the middle of the step that the biased sample is in.
segment_error :
    (e s : ℕ)
    → e < 8
    → InSegment e s
    → let d = (s / 2 ^ (e + 3) % 16 * 8 + bias) * 2 ^ e in
      (32 * d ≤ 32 * s + s) × (32 * s ≤ 32 * d + s) × (bias ≤ d)
segment_error zero s b h = omega arith
segment_error (suc zero) s b h = omega arith
segment_error (suc (suc zero)) s b h = omega arith
segment_error (suc (suc (suc zero))) s b h = omega arith
segment_error (suc (suc (suc (suc zero)))) s b h = omega arith
segment_error (suc (suc (suc (suc (suc zero))))) s b h = omega arith
segment_error (suc (suc (suc (suc (suc (suc zero)))))) s b h = omega arith
segment_error (suc (suc (suc (suc (suc (suc (suc zero))))))) s b h = omega arith
segment_error (suc (suc (suc (suc (suc (suc (suc (suc e)))))))) s b h = absurd (omega arith)

-- Decoding an encoded sample gives its magnitude (cut off at the clip level) to within a 32nd of
-- the magnitude plus the bias: the error of u-law's steps, at every level.
pub decoded-linear_to_ulaw :
    (sample : ℤ)
    → let x = min (magnitude sample) clip in
      let d = decoded (linear_to_ulaw sample) in
      (32 * d ≤ 32 * x + (x + bias)) × (32 * x ≤ 32 * d + (x + bias))
unfolding linear_to_ulaw
decoded-linear_to_ulaw sample =
    let s = biased sample in
    let (e, b, h) = segment_of s (unfold biased in omega arith) (unfold biased in omega arith) in
    let q : find_exp 7 s ≡ e = find_exp-segment 7 e s (omega arith) h.0 h.1 in
    let f =
      decoded-fields (sign_bit sample) e (s / 2 ^ (e + 3) % 16) (sign_cases sample) b
        (omega arith) in
    rw (q, f) (omega (arith, segment_error e s b h))

-- The top bit of the code is clear exactly for negative samples.
pub linear_to_ulaw-sign : (sample : ℤ) → (linear_to_ulaw sample < 128) ↔ (sign_bit sample ≡ 0x80)
unfolding linear_to_ulaw
linear_to_ulaw-sign (pos n) =
    (λ h. absurd (omega (arith, find_exp-le 7 (biased (pos n)))), λ h. absurd (omega arith))
linear_to_ulaw-sign (negsuc n) = (λ h. refl, λ h. omega (arith, find_exp-le 7 (biased (negsuc n))))
