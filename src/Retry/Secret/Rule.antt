-- ===== src/Retry/Secret/Rule.antt =====
-- The secrets satisfy PBXware's rule, and are always made while the system gives randomness.
use swarmdialer.Prelude.{
  count_if-all, OnSome, ℕ, zero, suc, ◌+◌, ◌-◌, ◌≤◌, ◌<◌, ◌≡◌, refl, ap, sym, ◌∙◌, arith, Bool,
  true, Option, none, some, List, [], ◌∷◌, ◌++◌, length, get_elem?, set, count_if, count_if-set,
  count_if-ge-one, get_elem?-set_ne, get_elem?-set_self, ℕ_discrete, subst, lt→ltb, ==_iff, ltb,
  ◌==◌, Option-cases, inl, inr, All,
}
use swarmdialer.Text.{Bytes}
use swarmdialer.Retry.Secret.{
  secret_length, required, fill, swap, rand_char, one_of_each, shuffle_bytes, generate_secret,
}

-- Whether a character is of a class, and how many of a text are.
unfoldable pub is_in : Bytes → ℕ → Bool
unfolding count_if
is_in class c = ltb 0 (count_if (λ x. x == c) class)

unfoldable pub how_many : Bytes → Bytes → ℕ
unfolding count_if
how_many class s = count_if (is_in class) s

count_if-swap : (p : ℕ → Bool) (i j : ℕ) (b : Bytes) → count_if p (swap i j b) ≡ count_if p b
unfolding swap
count_if-swap p i j b = elim (Option-cases (get_elem? b i)) [
  | inl q ↦ rw (q, swap) refl
  | inr (x, q) ↦ elim (Option-cases (get_elem? b j)) [
    | inl r ↦ rw (q, r, swap) refl
    | inr (y, r) ↦
        rw (q, r, swap)
          (let first = count_if-set p b i x y q in
            let second = count_if-set p (set b i y) j y x (read_after i j x y b q r) in
            omega (arith, first, second))
  ]
]
  where
    read_after :
        (i j x y : ℕ) (b : Bytes)
        → get_elem? b i ≡ some x
        → get_elem? b j ≡ some y
        → get_elem? (set b i y) j ≡ some y
    read_after i j x y b q r = elim (ℕ_discrete i j) [
      | yes same ↦ subst (λ k. get_elem? (set b i y) k ≡ some y) same (get_elem?-set_self b i x y q)
      | no apart ↦ get_elem?-set_ne b i j y apart ∙ r
    ]

module _ (random : ℕ → ℕ → Option ℕ) where
  count_if-shuffle :
      (p : ℕ → Bool) (i : ℕ) (b : Bytes) (draw : ℕ)
      → OnSome (λ s. count_if p s ≡ count_if p b) (shuffle_bytes random i b draw)
  unfolding shuffle_bytes
  count_if-shuffle p zero b draw = refl
  count_if-shuffle p (suc i) b draw = elim (Option-cases (random (suc i + 1) draw)) [
    | inl q ↦ rw (q, shuffle_bytes) tt
    | inr (j, q) ↦
        rw (q, shuffle_bytes)
          (subst
            (λ n.
              OnSome (λ s. count_if p s ≡ n) (shuffle_bytes random i (swap (suc i) j b) (suc draw)))
            (count_if-swap p (suc i) j b) (count_if-shuffle p i (swap (suc i) j b) (suc draw)))
  ]

  -- Character by character, one of each class.
  abbrev Picks : List Bytes → Bytes → Type 0
  Picks [] [] = Unit
  Picks [] (c ∷ cs) = ⊥
  Picks (class ∷ classes) [] = ⊥
  Picks (class ∷ classes) (c ∷ cs) = (is_in class c ≡ true) × Picks classes cs

  rand_char_lem :
      (class : Bytes) (draw c : ℕ) → rand_char random class draw ≡ some c → is_in class c ≡ true
  unfolding rand_char is_in
  rand_char_lem class draw c h = elim (Option-cases (random (length class) draw)) [
    | inl q ↦ absurd (let e : rand_char random class draw ≡ none = rw (q, rand_char) refl in cc)
    | inr (n, q) ↦
        let e : rand_char random class draw ≡ get_elem? class n = rw (q, rand_char) refl in
        lt→ltb 0 _ (count_if-ge-one (λ x. x == c) class n c (sym e ∙ h) ((==_iff c c).1 refl))
  ]

  one_of_each-Picks :
      (classes : List Bytes) (draw : ℕ) → OnSome (Picks classes) (one_of_each random classes draw)
  unfolding one_of_each
  one_of_each-Picks [] draw = tt
  one_of_each-Picks (class ∷ classes) draw = elim (Option-cases (rand_char random class draw)) [
    | inl q ↦ rw (q, one_of_each) tt
    | inr (c, q) ↦ elim (Option-cases (one_of_each random classes (suc draw))) [
      | inl r ↦ rw (q, r, one_of_each) tt
      | inr (cs, r) ↦
          rw (q, r, one_of_each)
            (
              rand_char_lem class draw c q,
              subst (OnSome (Picks classes)) r (one_of_each-Picks classes (suc draw)),
            )
    ]
  ]

  Picks-length : (classes : List Bytes) (cs : Bytes) → Picks classes cs → length cs ≡ length classes
  Picks-length [] [] h = refl
  Picks-length [] (c ∷ cs) h = absurd h
  Picks-length (class ∷ classes) [] h = absurd h
  Picks-length (class ∷ classes) (c ∷ cs) h = ap suc (Picks-length classes cs h.1)

  Picks-how_many :
      (classes : List Bytes) (cs : Bytes) (i : ℕ) (class : Bytes)
      → Picks classes cs
      → get_elem? classes i ≡ some class
      → 1 ≤ how_many class cs
  unfolding how_many count_if
  Picks-how_many [] cs i class h e = cc
  Picks-how_many (k ∷ classes) [] i class h e = absurd h
  Picks-how_many (k ∷ classes) (c ∷ cs) zero class h e =
      let same : k ≡ class = cc in
      let own : is_in class c ≡ true = subst (λ x. is_in x c ≡ true) same h.0 in ground (arith, own)
  Picks-how_many (k ∷ classes) (c ∷ cs) (suc i) class h e =
      omega (arith, Picks-how_many classes cs i class h.1 e)

  get_elem?-below {ℓ} :
      {A : Type ℓ} (xs : List A) (n : ℕ) → n < length xs → (x : A) × (get_elem? xs n ≡ some x)
  get_elem?-below [] n h = absurd (omega arith)
  get_elem?-below (x ∷ xs) zero h = (x, refl)
  get_elem?-below (x ∷ xs) (suc n) h = get_elem?-below xs n (omega arith)

  -- The system always draws a number below the bound.
  abbrev pub IsRandom : Type 0
  IsRandom = (bound i : ℕ) → 0 < bound → (n : ℕ) × (random bound i ≡ some n) × (n < bound)

  one_of_each-some :
      (classes : List Bytes) (draw : ℕ)
      → IsRandom
      → All (λ class. 0 < length class) classes
      → (cs : Bytes) × (one_of_each random classes draw ≡ some cs)
  unfolding one_of_each rand_char
  one_of_each-some [] draw r h = ([], refl)
  one_of_each-some (class ∷ classes) draw r h =
      let (n, drawn, below) = r (length class) draw h.0 in
      let (c, found) = get_elem?-below class n below in
      let (cs, later) = one_of_each-some classes (suc draw) r h.1 in
      (c ∷ cs, rw (drawn, found, later, one_of_each) refl)

  shuffle_some :
      (i : ℕ) (b : Bytes) (draw : ℕ)
      → IsRandom
      → (s : Bytes) × (shuffle_bytes random i b draw ≡ some s)
  unfolding shuffle_bytes
  shuffle_some zero b draw r = (b, refl)
  shuffle_some (suc i) b draw r =
      let (j, drawn, below) = r (suc i + 1) draw (omega arith) in
      let (s, later) = shuffle_some i (swap (suc i) j b) (suc draw) r in
      (s, rw (drawn, shuffle_bytes) later)

  module _ (cs s : Bytes) (draw : ℕ) (picks : Picks (required ++ fill) cs)
      (mixed : shuffle_bytes random (length cs - 1) cs draw ≡ some s) where
    shuffle_keeps : (p : ℕ → Bool) → count_if p s ≡ count_if p cs
    shuffle_keeps p =
        subst (OnSome (λ t. count_if p t ≡ count_if p cs)) mixed
          (count_if-shuffle p (length cs - 1) cs draw)

    shuffled-class :
        (i : ℕ) (class : Bytes) → get_elem? (required ++ fill) i ≡ some class → 1 ≤ how_many class s
    unfolding how_many
    shuffled-class i class e =
        let before = Picks-how_many (required ++ fill) cs i class picks e in
        omega (arith, shuffle_keeps (is_in class), before)

    shuffled-length : length s ≡ secret_length
    shuffled-length =
        sym (count_if-all s)
        ∙ shuffle_keeps (λ c. true)
        ∙ count_if-all cs
        ∙ Picks-length (required ++ fill) cs picks

  -- While the system draws numbers below what it is asked for, every secret is made, has twelve
  -- characters, and has at least one of each required class.
  pub generate_secret_lem :
      (draw : ℕ)
      → IsRandom
      → (s : Bytes) × (generate_secret random draw ≡ some s)
        × (length s ≡ secret_length)
        × All (λ class. 1 ≤ how_many class s) required
  unfolding generate_secret
  generate_secret_lem draw r =
      let (cs, made) = one_of_each-some (required ++ fill) draw r (ground arith) in
      let (s, mixed) = shuffle_some (length cs - 1) cs (draw + secret_length) r in
      let picks =
        subst (OnSome (Picks (required ++ fill))) made
          (one_of_each-Picks (required ++ fill) draw) in
      let class = shuffled-class cs s (draw + secret_length) picks mixed in
      (
        s,
        rw (made, generate_secret) mixed,
        shuffled-length cs s (draw + secret_length) picks mixed,
        (class 0 _ refl, (class 1 _ refl, (class 2 _ refl, (class 3 _ refl, tt)))),
      )
