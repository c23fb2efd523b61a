-- ===== src/Sdp/Lines.antt =====
-- Lines and fields that were written are read back.
use swarmdialer.Prelude.{
  ℕ, zero, suc, ◌+◌, ◌/◌, ◌%◌, ◌≡◌, ◌≢◌, refl, ◌∙◌, ap, Bool, true, false, ◌||◌, List, [], ◌∷◌,
  ◌++◌, map, arith, ltb, ◌==◌, if◌then◌else◌, Bool-cases, inl, inr, All,
}
use swarmdialer.Text.{
  Bytes, all_digits, is_space, trim_left, trim_right, trim_space, decimal, put_decimal,
  decimal-digits,
}
use swarmdialer.Sdp.{
  end_lines, cons_to_first, split_lines, drop_cr, lines, split_spaces, non_empty, fields,
}

-- Characters that are not spaces, one at least.
abbrev pub IsWord : Bytes → Type 0
IsWord s = All (λ (c : ℕ). is_space c ≡ false) s × (s ≢ [])

-- No line feed and no carriage return.
abbrev pub IsLine : Bytes → Type 0
IsLine s = All (λ (c : ℕ). ((c == 10) || (c == 13)) ≡ false) s

pub split_lines-line :
    (l rest : Bytes)
    → IsLine l
    → split_lines (l ++ 13 ∷ 10 ∷ rest) ≡ (l ++ 13 ∷ []) ∷ split_lines rest
unfolding split_lines
split_lines-line [] rest h = refl
split_lines-line (c ∷ l) rest h =
    let e : (c == 10) ≡ false = ground (arith, h.0) in
    rw (e, split_lines) (ap (cons_to_first c) (split_lines-line l rest h.1))

drop_cr-end : (l : Bytes) → drop_cr (l ++ 13 ∷ []) ≡ l
unfolding drop_cr
drop_cr-end [] = refl
drop_cr-end (c ∷ []) = refl
drop_cr-end (c ∷ d ∷ l) = ap (λ x. c ∷ x) (drop_cr-end (d ∷ l))

-- A text that begins and ends with no space.
abbrev pub IsTrimmed : Bytes → Type 0
IsTrimmed l = trim_space l ≡ l

-- The lines of a body of such lines are these lines.
pub lines-end_lines :
    (ls : List Bytes) → All IsLine ls → All IsTrimmed ls → lines (end_lines ls) ≡ ls
unfolding lines end_lines split_lines
lines-end_lines [] h t = refl
lines-end_lines (l ∷ ls) h t =
    ap (map (λ (x : Bytes). trim_space (drop_cr x))) (split_lines-line l (end_lines ls) h.0)
    ∙ rw (drop_cr-end l, t.0) (ap (λ x. l ∷ x) (lines-end_lines ls h.1 t.1))

trim_right-word : (w : Bytes) → All (λ (c : ℕ). is_space c ≡ false) w → trim_right w ≡ w
unfolding trim_right
trim_right-word [] h = refl
trim_right-word (c ∷ []) h = rw h.0 refl
trim_right-word (c ∷ d ∷ w) h = rw (trim_right-word (d ∷ w) h.1) refl

-- A text that ends with no space.
abbrev pub IsEnded : Bytes → Type 0
IsEnded s = (trim_right s ≡ s) × (s ≢ [])

pub IsWord-IsEnded : (w : Bytes) → IsWord w → IsEnded w
IsWord-IsEnded w h = (trim_right-word w h.0, h.1)

trim_right-kept :
    (c : ℕ) (s : Bytes)
    → s ≢ []
    → (elim s [ [] ↦ if is_space c then [] else c ∷ [] | d ∷ t ↦ c ∷ d ∷ t ]) ≡ c ∷ s
trim_right-kept c [] n = absurd (n refl)
trim_right-kept c (d ∷ t) n = refl

pub append-IsEnded : (p s : Bytes) → IsEnded s → IsEnded (p ++ s)
unfolding trim_right
append-IsEnded [] s h = h
append-IsEnded (c ∷ p) s h =
    let (q, n) = append-IsEnded p s h in (rw q (trim_right-kept c (p ++ s) n), λ e. ground arith)

-- A text that begins with another character and ends with no space is trimmed.
pub append-IsTrimmed :
    (c : ℕ) (p s : Bytes) → is_space c ≡ false → IsEnded s → IsTrimmed (c ∷ p ++ s)
unfolding trim_space trim_left
append-IsTrimmed c p s h k = rw (h, trim_left) (append-IsEnded (c ∷ p) s k).0

pub IsLine-append : (s t : Bytes) → IsLine s → IsLine t → IsLine (s ++ t)
IsLine-append [] t h k = k
IsLine-append (c ∷ s) t h k = (h.0, IsLine-append s t h.1 k)

word-IsLine : (w : Bytes) → All (λ (c : ℕ). is_space c ≡ false) w → IsLine w
word-IsLine [] h = tt
word-IsLine (c ∷ w) h = (ground (arith, h.0), word-IsLine w h.1)

pub IsWord-IsLine : (w : Bytes) → IsWord w → IsLine w
IsWord-IsLine w h = word-IsLine w h.0

split_spaces-word :
    (w s : Bytes)
    → All (λ (c : ℕ). is_space c ≡ false) w
    → split_spaces (w ++ b' ' ∷ s) ≡ w ∷ split_spaces s
unfolding split_spaces
split_spaces-word [] s h = refl
split_spaces-word (c ∷ w) s h =
    rw (h.0, split_spaces) (ap (cons_to_first c) (split_spaces-word w s h.1))

split_spaces-last : (w : Bytes) → All (λ (c : ℕ). is_space c ≡ false) w → split_spaces w ≡ w ∷ []
unfolding split_spaces
split_spaces-last [] h = refl
split_spaces-last (c ∷ w) h =
    rw (h.0, split_spaces) (ap (cons_to_first c) (split_spaces-last w h.1))

non_empty-word : (w : Bytes) (ls : List Bytes) → w ≢ [] → non_empty (w ∷ ls) ≡ w ∷ non_empty ls
unfolding non_empty
non_empty-word [] ls n = absurd (n refl)
non_empty-word (c ∷ w) ls n = refl

pub fields-word : (w s : Bytes) → IsWord w → fields (w ++ b' ' ∷ s) ≡ w ∷ fields s
unfolding fields
fields-word w s h = ap non_empty (split_spaces-word w s h.0) ∙ non_empty-word w (split_spaces s) h.1

pub fields-last : (w : Bytes) → IsWord w → fields w ≡ w ∷ []
unfolding fields non_empty
fields-last w h = ap non_empty (split_spaces-last w h.0) ∙ non_empty-word w [] h.1

digits-not_spaces : (s : Bytes) → all_digits s ≡ true → All (λ (c : ℕ). is_space c ≡ false) s
unfolding all_digits
digits-not_spaces [] h = tt
digits-not_spaces (c ∷ s) h = (ground (arith, h), digits-not_spaces s (ground (arith, h)))

-- Tests, for texts that are given.
abbrev pub no_space : Bytes → Bool
no_space [] = true
no_space (c ∷ s) = let rest = no_space s in if is_space c then false else rest

no_space_sound : (s : Bytes) → no_space s ≡ true → All (λ (c : ℕ). is_space c ≡ false) s
no_space_sound [] h = tt
no_space_sound (c ∷ s) h = (ground arith, no_space_sound s (ground arith))

pub no_space-IsWord : (c : ℕ) (s : Bytes) → no_space (c ∷ s) ≡ true → IsWord (c ∷ s)
no_space-IsWord c s h = (no_space_sound (c ∷ s) h, λ e. ground arith)

abbrev pub no_break : Bytes → Bool
no_break [] = true
no_break (c ∷ s) = let rest = no_break s in if (c == 10) || (c == 13) then false else rest

pub no_break-IsLine : (s : Bytes) → no_break s ≡ true → IsLine s
no_break-IsLine [] h = tt
no_break-IsLine (c ∷ s) h = (ground arith, no_break-IsLine s (ground arith))

put_decimal-ne : (fuel n c : ℕ) (rest : Bytes) → put_decimal fuel n (c ∷ rest) ≢ []
unfolding put_decimal
put_decimal-ne zero n c rest = λ e. ground arith
put_decimal-ne (suc fuel) n c rest = elim (Bool-cases (ltb n 10)) [
  | inl q ↦ rw (q, put_decimal) (λ e. ground arith)
  | inr q ↦ rw (q, put_decimal) (put_decimal-ne fuel (n / 10) (b'0' + n % 10) (c ∷ rest))
]

decimal-ne : (n : ℕ) → decimal n ≢ []
unfolding decimal put_decimal
decimal-ne n = elim (Bool-cases (ltb n 10)) [
  | inl q ↦ rw (q, put_decimal) (λ e. ground arith)
  | inr q ↦ rw (q, put_decimal) (put_decimal-ne n (n / 10) (b'0' + n % 10) [])
]

pub decimal-IsWord : (n : ℕ) → IsWord (decimal n)
decimal-IsWord n = (digits-not_spaces (decimal n) (decimal-digits n), decimal-ne n)
