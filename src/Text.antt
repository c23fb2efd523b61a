-- ===== src/Text.antt =====
-- Text as lists of byte values, as Go's strings are, and strconv's decimal numbers.
use Prim.Native.Char.{code}
use Prim.Native.String.{String}
use swarmdialer.Prelude.{
  ℕ, zero, suc, ◌+◌, ◌-◌, ◌*◌, ◌/◌, ◌%◌, ◌<◌, ◌≡◌, refl, ap, ◌∙◌, arith, Bool, true, false, ◌&&◌,
  ◌||◌, Option, none, some, List, [], ◌∷◌, ◌++◌, ltb, leb, ◌==◌, if◌then◌else◌, Bool-cases, inl,
  inr, ltb→lt, le→leb,
}

abbrev pub Bytes : Type 0
Bytes = List ℕ

-- The bytes of a text that is ASCII.
abbrev pub bytes : String → Bytes
bytes String.[] = []
bytes (String.◌∷◌ c s) = code c ∷ bytes s

unfoldable pub bytes_eq : Bytes → Bytes → Bool
bytes_eq [] [] = true
bytes_eq (a ∷ xs) (b ∷ bs) = let rest = bytes_eq xs bs in if a == b then rest else false
bytes_eq _ _ = false

pub bytes_eq_refl : (s : Bytes) → bytes_eq s s ≡ true
unfolding bytes_eq
bytes_eq_refl [] = refl
bytes_eq_refl (a ∷ xs) = ground (arith, bytes_eq_refl xs)

pub bytes_eq→eq : (s t : Bytes) → bytes_eq s t ≡ true → s ≡ t
unfolding bytes_eq
bytes_eq→eq [] [] h = refl
bytes_eq→eq [] (b ∷ bs) h = cc
bytes_eq→eq (a ∷ xs) [] h = cc
bytes_eq→eq (a ∷ xs) (b ∷ bs) h = ground (arith, bytes_eq→eq xs bs)

abbrev pub is_digit : ℕ → Bool
is_digit c = leb b'0' c && leb c b'9'

-- fmt's %d of a number below ten to the fuel, in front of `rest`.
unfoldable pub put_decimal : ℕ → ℕ → Bytes → Bytes
put_decimal zero n rest = rest
put_decimal (suc fuel) n rest =
    let longer = put_decimal fuel (n / 10) ((b'0' + n % 10) ∷ rest) in
    if ltb n 10 then (b'0' + n) ∷ rest else longer

-- A number has at most as many digits as it has units, and one at least.
unfoldable pub decimal : ℕ → Bytes
unfolding put_decimal
decimal n = put_decimal (suc n) n []

-- Reads the leading digits onto `acc`, as fmt.Sscanf's %d does.
unfoldable pub scan_digits : ℕ → Bytes → ℕ
scan_digits acc [] = acc
scan_digits acc (c ∷ cs) =
    let more = scan_digits (acc * 10 + (c - b'0')) cs in if is_digit c then more else acc

unfoldable pub all_digits : Bytes → Bool
all_digits [] = true
all_digits (c ∷ cs) = let rest = all_digits cs in if is_digit c then rest else false

-- strings.TrimSpace, at the front; the end is as the front of the reverse.
abbrev pub is_space : ℕ → Bool
is_space c = c == 32 || (leb 9 c && leb c 13)

unfoldable pub trim_left : Bytes → Bytes
trim_left [] = []
trim_left (c ∷ s) = let rest = trim_left s in if is_space c then rest else c ∷ s

-- A trailing space is one that only spaces follow.
unfoldable pub trim_right : Bytes → Bytes
trim_right [] = []
trim_right (c ∷ s) =
    let rest = trim_right s in
    elim rest [ [] ↦ if is_space c then [] else c ∷ [] | d ∷ t ↦ c ∷ d ∷ t ]

unfoldable pub trim_space : Bytes → Bytes
unfolding trim_left trim_right
trim_space s = trim_right (trim_left s)

-- strings.CutPrefix: the text behind the prefix.
unfoldable pub cut_prefix : Bytes → Bytes → Option Bytes
cut_prefix [] s = some s
cut_prefix (p ∷ ps) [] = none
cut_prefix (p ∷ ps) (c ∷ s) = let rest = cut_prefix ps s in if p == c then rest else none

pub cut_prefix-append : (p s : Bytes) → cut_prefix p (p ++ s) ≡ some s
unfolding cut_prefix
cut_prefix-append [] s = refl
cut_prefix-append (a ∷ p) s = ground (arith, cut_prefix-append p s)

pub cut_prefix_sound : (p s r : Bytes) → cut_prefix p s ≡ some r → s ≡ p ++ r
unfolding cut_prefix
cut_prefix_sound [] s r h = ground arith
cut_prefix_sound (a ∷ p) [] r h = cc
cut_prefix_sound (a ∷ p) (c ∷ s) r h = ground (arith, cut_prefix_sound p s r)

scan_digits-digit :
    (m d : ℕ) (rest : Bytes)
    → d < 10
    → scan_digits m ((b'0' + d) ∷ rest) ≡ scan_digits (m * 10 + d) rest
unfolding scan_digits
scan_digits-digit m d rest h =
    let e : m * 10 + (b'0' + d - b'0') ≡ m * 10 + d = omega arith in
    rw (le→leb b'0' (b'0' + d) (omega arith), le→leb (b'0' + d) b'9' (omega arith), e)

-- Reading what was printed gives the number back, and goes on with what follows.
pub scan_digits-put_decimal :
    (fuel n : ℕ) (rest : Bytes)
    → n < fuel
    → scan_digits 0 (put_decimal fuel n rest) ≡ scan_digits n rest
unfolding put_decimal
scan_digits-put_decimal zero n rest h = elim h [ ]
scan_digits-put_decimal (suc fuel) n rest h = elim (Bool-cases (ltb n 10)) [
  | inl small ↦ rw small (
      scan_digits-digit 0 n rest (ltb→lt n 10 small)
      ∙ ap (λ (k : ℕ). scan_digits k rest) (omega arith))
  | inr large ↦ rw large (
      scan_digits-put_decimal fuel (n / 10) ((b'0' + n % 10) ∷ rest) (ground arith)
      ∙ scan_digits-digit (n / 10) (n % 10) rest (omega arith)
      ∙ ap (λ (k : ℕ). scan_digits k rest) (omega arith))
]

pub scan_digits-decimal : (n : ℕ) → scan_digits 0 (decimal n) ≡ n
unfolding decimal scan_digits
scan_digits-decimal n = scan_digits-put_decimal (suc n) n [] (omega arith)

put_decimal-digits :
    (fuel n : ℕ) (rest : Bytes)
    → n < fuel
    → all_digits rest ≡ true
    → all_digits (put_decimal fuel n rest) ≡ true
unfolding put_decimal all_digits
put_decimal-digits zero n rest h d = elim h [ ]
put_decimal-digits (suc fuel) n rest h d = elim (Bool-cases (ltb n 10)) [
  | inl small ↦ rw small (ground (arith, ltb→lt n 10 small))
  | inr large ↦
      rw large
        (put_decimal-digits fuel (n / 10) ((b'0' + n % 10) ∷ rest) (ground arith) (ground arith))
]

pub decimal-digits : (n : ℕ) → all_digits (decimal n) ≡ true
unfolding decimal all_digits
decimal-digits n = put_decimal-digits (suc n) n [] (omega arith) refl
