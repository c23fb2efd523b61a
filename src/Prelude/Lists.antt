-- ===== src/Prelude/Lists.antt =====
-- Lists measured and indexed by native numbers, under the library's names.
use Prim.Native.Nat.{ℕ, zero, suc, ◌+◌, ◌-◌, ◌≤◌}
use mathlib.Core.Path.{◌≡◌, refl, ap, subst}
use mathlib.Core.Logic.{◌≢◌}
use mathlib.Core.Bool.{Bool, true, false}
use mathlib.Core.List.{List, [], ◌∷◌, ◌++◌, map}
use mathlib.Core.Option.{Option, none, some}
use native.Mathlib.Omega.{arith}
use swarmdialer.Prelude.Tests.{ind}

module _ {ℓ} {A : Type ℓ} where
  abbrev pub length : List A → ℕ
  length [] = 0
  length (x ∷ xs) = suc (length xs)

  abbrev pub get_elem? : List A → ℕ → Option A
  get_elem? [] i = none
  get_elem? (x ∷ xs) zero = some x
  get_elem? (x ∷ xs) (suc i) = get_elem? xs i

  -- A write out of bounds changes nothing.
  abbrev pub set : List A → ℕ → A → List A
  set [] i v = []
  set (x ∷ xs) zero v = v ∷ xs
  set (x ∷ xs) (suc i) v = x ∷ set xs i v

  abbrev pub drop : ℕ → List A → List A
  drop zero xs = xs
  drop (suc n) [] = []
  drop (suc n) (x ∷ xs) = drop n xs

  -- How many elements pass a test.
  unfoldable pub count_if : (A → Bool) → List A → ℕ
  count_if p [] = 0
  count_if p (x ∷ xs) = ind (p x) + count_if p xs

  abbrev pub All {κ} : (A → Type κ) → List A → Type κ
  All P [] = Unit
  All P (x ∷ xs) = P x × All P xs

module _ {ℓ} {A : Type ℓ} where
  pub length-append : (xs ys : List A) → length (xs ++ ys) ≡ length xs + length ys
  length-append [] ys = omega arith
  length-append (x ∷ xs) ys = omega (arith, length-append xs ys)

  pub length-drop : (n : ℕ) (xs : List A) → length (drop n xs) ≡ length xs - n
  length-drop zero xs = omega arith
  length-drop (suc n) [] = omega arith
  length-drop (suc n) (x ∷ xs) = omega (arith, length-drop n xs)

  pub count_if-nil : (p : A → Bool) → count_if p [] ≡ 0
  unfolding count_if
  count_if-nil p = refl

  pub count_if-cons :
      (p : A → Bool) (x : A) (xs : List A) → count_if p (x ∷ xs) ≡ ind (p x) + count_if p xs
  unfolding count_if
  count_if-cons p x xs = refl

  pub count_if-append :
      (p : A → Bool) (xs ys : List A) → count_if p (xs ++ ys) ≡ count_if p xs + count_if p ys
  unfolding count_if
  count_if-append p [] ys = omega arith
  count_if-append p (x ∷ xs) ys = omega (arith, count_if-append p xs ys)

  -- Replacing one element moves the count by the two tests.
  pub count_if-set :
      (p : A → Bool) (xs : List A) (i : ℕ) (x y : A)
      → get_elem? xs i ≡ some x
      → count_if p (set xs i y) + ind (p x) ≡ count_if p xs + ind (p y)
  unfolding count_if
  count_if-set p [] i x y h = ground arith
  count_if-set p (z ∷ xs) zero x y h = ground arith
  count_if-set p (z ∷ xs) (suc i) x y h = omega (arith, count_if-set p xs i x y h)

  pub count_if-le-length : (p : A → Bool) (xs : List A) → count_if p xs ≤ length xs
  unfolding count_if
  count_if-le-length p [] = omega arith
  count_if-le-length p (x ∷ xs) = ground (arith, count_if-le-length p xs)

  pub count_if-ge-one :
      (p : A → Bool) (xs : List A) (i : ℕ) (x : A)
      → get_elem? xs i ≡ some x
      → p x ≡ true
      → 1 ≤ count_if p xs
  unfolding count_if
  count_if-ge-one p [] i x h e = cc
  count_if-ge-one p (z ∷ xs) zero x h e = ground arith
  count_if-ge-one p (z ∷ xs) (suc i) x h e = omega (arith, count_if-ge-one p xs i x h e)

  pub count_if-ge-two :
      (p : A → Bool) (xs : List A) (i j : ℕ) (x y : A)
      → i ≢ j
      → get_elem? xs i ≡ some x
      → p x ≡ true
      → get_elem? xs j ≡ some y
      → p y ≡ true
      → 2 ≤ count_if p xs
  unfolding count_if
  count_if-ge-two p [] i j x y n h e k f = cc
  count_if-ge-two p (z ∷ xs) zero zero x y n h e k f = absurd (n refl)
  count_if-ge-two p (z ∷ xs) zero (suc j) x y n h e k f =
      ground (arith, count_if-ge-one p xs j y k f)
  count_if-ge-two p (z ∷ xs) (suc i) zero x y n h e k f =
      ground (arith, count_if-ge-one p xs i x h e)
  count_if-ge-two p (z ∷ xs) (suc i) (suc j) x y n h e k f =
      omega (arith, count_if-ge-two p xs i j x y (λ q. n (ap suc q)) h e k f)

  pub count_if-all : (xs : List A) → count_if (λ x. true) xs ≡ length xs
  unfolding count_if
  count_if-all [] = refl
  count_if-all (x ∷ xs) = omega (arith, count_if-all xs)

  pub count_if-none : (p : A → Bool) (xs : List A) → All (λ x. p x ≡ false) xs → count_if p xs ≡ 0
  unfolding count_if
  count_if-none p [] h = refl
  count_if-none p (x ∷ xs) h = ground (arith, count_if-none p xs h.1)

  -- An element that passes a test and stands at an index is counted at a place of its own.
  pub All-get_elem? {κ} :
      (P : A → Type κ) (xs : List A) (i : ℕ) (x : A) → All P xs → get_elem? xs i ≡ some x → P x
  All-get_elem? P [] i x h e = cc
  All-get_elem? P (z ∷ xs) zero x h e = let q : z ≡ x = cc in subst P q h.0
  All-get_elem? P (z ∷ xs) (suc i) x h e = All-get_elem? P xs i x h.1 e

  pub get_elem?-set_self :
      (xs : List A) (i : ℕ) (x y : A) → get_elem? xs i ≡ some x → get_elem? (set xs i y) i ≡ some y
  get_elem?-set_self [] i x y h = cc
  get_elem?-set_self (z ∷ xs) zero x y h = refl
  get_elem?-set_self (z ∷ xs) (suc i) x y h = get_elem?-set_self xs i x y h

  pub get_elem?-set_ne :
      (xs : List A) (i j : ℕ) (y : A) → i ≢ j → get_elem? (set xs i y) j ≡ get_elem? xs j
  get_elem?-set_ne [] i j y h = refl
  get_elem?-set_ne (z ∷ xs) zero zero y h = absurd (h refl)
  get_elem?-set_ne (z ∷ xs) zero (suc j) y h = refl
  get_elem?-set_ne (z ∷ xs) (suc i) zero y h = refl
  get_elem?-set_ne (z ∷ xs) (suc i) (suc j) y h = get_elem?-set_ne xs i j y (λ e. h (ap suc e))

  pub length-map {κ} : {B : Type κ} (f : A → B) (xs : List A) → length (map f xs) ≡ length xs
  length-map f [] = refl
  length-map f (x ∷ xs) = ap suc (length-map f xs)

  -- What holds of the new element, and of every other one at its place, holds after the write.
  pub set_elim {κ} :
      (P : ℕ → A → Type κ) (xs : List A) (i : ℕ) (x y : A)
      → get_elem? xs i ≡ some x
      → P i y
      → ((j : ℕ) (z : A) → i ≢ j → get_elem? xs j ≡ some z → P j z)
      → (j : ℕ) (z : A) → get_elem? (set xs i y) j ≡ some z
      → P j z
  set_elim P [] i x y h own other j z e = cc
  set_elim P (w ∷ xs) zero x y h own other zero z e = let q : y ≡ z = cc in subst (P 0) q own
  set_elim P (w ∷ xs) zero x y h own other (suc j) z e = other (suc j) z (λ n. omega (arith, n)) e
  set_elim P (w ∷ xs) (suc i) x y h own other zero z e = other 0 z (λ n. omega (arith, n)) e
  set_elim P (w ∷ xs) (suc i) x y h own other (suc j) z e =
      set_elim (λ k. P (suc k)) xs i x y h own
        (λ k v n. other (suc k) v (λ m. n (omega (arith, m)))) j z e
