-- ===== src/Retry/Secret.antt =====
-- internal/pbxware/retry.go: the random secrets. `random bound i` is the i-th number drawn below
-- `bound`, none if the system gives no randomness.
use swarmdialer.Prelude.{
  ℕ, zero, suc, ◌+◌, ◌-◌, ◌*◌, ◌≤◌, ◌<◌, ◌≡◌, refl, ap, sym, ◌∙◌, arith, ind, Bool, true, false,
  Option, none, some, List, [], ◌∷◌, ◌++◌, length, length-append, get_elem?, set, count_if,
  count_if-append, count_if-set, count_if-ge-one, get_elem?-set_ne, get_elem?-set_self, ℕ_discrete,
  subst, lt→ltb, ==_iff, ltb, leb, ◌==◌, ◌&&◌, ◌||◌, if◌then◌else◌, Bool-cases, Option-cases, inl,
  inr, All, All-get_elem?,
}
use swarmdialer.Text.{Bytes, bytes}
pub mod Rule

abbrev pub secret_upper : Bytes
secret_upper = bytes "ABCDEFGHIJKLMNOPQRSTUVWXYZ"

abbrev pub secret_lower : Bytes
secret_lower = bytes "abcdefghijklmnopqrstuvwxyz"

abbrev pub secret_digits : Bytes
secret_digits = bytes "0123456789"

abbrev pub secret_special : Bytes
secret_special = bytes "%*!_-"

abbrev pub secret_length : ℕ
secret_length = 12

abbrev pub required : List Bytes
required = secret_upper ∷ secret_lower ∷ secret_digits ∷ secret_special ∷ []

-- The characters behind the required ones, up to the length, are of any class.
abbrev pub fill : List Bytes
fill =
    let any = secret_upper ++ (secret_lower ++ (secret_digits ++ secret_special)) in
    any ∷ any ∷ any ∷ any ∷ any ∷ any ∷ any ∷ any ∷ []

-- b[i], b[j] = b[j], b[i]
unfoldable pub swap : ℕ → ℕ → Bytes → Bytes
swap i j b = elim (get_elem? b i) [
  | none ↦ b
  | some x ↦ elim (get_elem? b j) [ none ↦ b | some y ↦ set (set b i y) j x ]
]

module _ (random : ℕ → ℕ → Option ℕ) where
  unfoldable pub rand_char : Bytes → ℕ → Option ℕ
  rand_char class draw = elim (random (length class) draw) [
    | none ↦ none
    | some n ↦ get_elem? class n
  ]

  -- One character of each class of the list, in its order.
  unfoldable pub one_of_each : List Bytes → ℕ → Option Bytes
  unfolding rand_char
  one_of_each [] draw = some []
  one_of_each (class ∷ classes) draw =
      let later = one_of_each classes (suc draw) in
      elim (rand_char class draw) [
        | none ↦ none
        | some c ↦ elim later [ none ↦ none | some cs ↦ some (c ∷ cs) ]
      ]

  -- The loop of `shuffleBytes`, from the index `i` down.
  unfoldable pub shuffle_bytes : ℕ → Bytes → ℕ → Option Bytes
  unfolding swap
  shuffle_bytes zero b draw = some b
  shuffle_bytes (suc i) b draw = elim (random (suc i + 1) draw) [
    | none ↦ none
    | some j ↦ shuffle_bytes i (swap (suc i) j b) (suc draw)
  ]

  unfoldable pub generate_secret : ℕ → Option Bytes
  unfolding one_of_each shuffle_bytes
  generate_secret draw = elim (one_of_each (required ++ fill) draw) [
    | none ↦ none
    | some chars ↦ shuffle_bytes (length chars - 1) chars (draw + secret_length)
  ]
