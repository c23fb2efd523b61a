-- ===== src/Testrun/Stats.antt =====
-- `statsOf`, `trendOf` and the fixed-size sample of calls of internal/testrun/runner.go. The values are
-- natural numbers in some unit. `round2` is left out: an average is kept as a sum and a count.
use swarmdialer.Prelude.{
  ℕ, zero, suc, ◌+◌, ◌-◌, ◌*◌, ◌/◌, ◌≤◌, ◌<◌, ◌≡◌, refl, ◌∙◌, ap, Bool, ◌&&◌, Option, none, some,
  List, [], ◌∷◌, arith, if◌then◌else◌, length, get_elem?, drop, count_if, leb, ltb, All, ind,
}

-- sort.Float64s
unfoldable pub insert : ℕ → List ℕ → List ℕ
insert x [] = x ∷ []
insert x (y ∷ ys) = let rest = insert x ys in if leb x y then x ∷ y ∷ ys else y ∷ rest

unfoldable pub sort : List ℕ → List ℕ
unfolding insert
sort [] = []
sort (x ∷ xs) = insert x (sort xs)

unfoldable pub sum : List ℕ → ℕ
sum [] = 0
sum (x ∷ xs) = x + sum xs

abbrev pub at_or_zero : Option ℕ → ℕ
at_or_zero none = 0
at_or_zero (some x) = x

pub record Stats : Type 0 where
  pub n : ℕ
  pub total : ℕ  -- the average is total / n
  pub p95 : ℕ
  pub largest : ℕ

-- int(math.Ceil(0.95 * n)) - 1
abbrev pub p95_index : ℕ → ℕ
p95_index n = (95 * n + 99) / 100 - 1

unfoldable pub stats_of : List ℕ → Stats
unfolding sort sum
stats_of v =
    let s = sort v in
    record {
      n = length s;
      total = sum s;
      p95 = at_or_zero (get_elem? s (p95_index (length s)));
      largest = at_or_zero (get_elem? s (length s - 1));
    }

unfoldable pub take : ℕ → List ℕ → List ℕ
take zero xs = []
take (suc n) [] = []
take (suc n) (x ∷ xs) = x ∷ take n xs

pub data Trend : Type 0 where
  stable growing : Trend

-- `trendOf` on delays in seconds: averages of as many values are compared by their sums. last > 1.5 *
-- first, and last - first > 2.
unfoldable pub trend_of : List ℕ → Trend
unfolding take sum
trend_of delays =
    let n = length delays / 4 in
    let first = sum (take n delays) in
    let last = sum (drop (length delays - n) delays) in
    if ltb n 3
    then stable
    else (if ltb (3 * first) (2 * last) && ltb (first + 2 * n) last then growing else stable)

-- A sorted list: each value is at most the next.
abbrev pub IsSorted : List ℕ → Type 0
IsSorted [] = Unit
IsSorted (x ∷ []) = Unit
IsSorted (x ∷ y ∷ ys) = (x ≤ y) × IsSorted (y ∷ ys)

insert-IsSorted : (x : ℕ) (ys : List ℕ) → IsSorted ys → IsSorted (insert x ys)
unfolding insert
insert-IsSorted x [] h = tt
insert-IsSorted x (y ∷ []) h = ground arith
insert-IsSorted x (y ∷ z ∷ ys) h = ground (arith, insert-IsSorted x (z ∷ ys))

sort-IsSorted : (xs : List ℕ) → IsSorted (sort xs)
unfolding sort
sort-IsSorted [] = tt
sort-IsSorted (x ∷ xs) = insert-IsSorted x (sort xs) (sort-IsSorted xs)

count_if-insert :
    (p : ℕ → Bool) (x : ℕ) (ys : List ℕ) → count_if p (insert x ys) ≡ ind (p x) + count_if p ys
unfolding insert count_if
count_if-insert p x [] = ground arith
count_if-insert p x (y ∷ ys) = ground (arith, count_if-insert p x ys)

-- Sorting keeps every value as often.
count_if-sort : (p : ℕ → Bool) (xs : List ℕ) → count_if p (sort xs) ≡ count_if p xs
unfolding sort count_if
count_if-sort p [] = refl
count_if-sort p (x ∷ xs) = ground (arith, count_if-insert p x (sort xs), count_if-sort p xs)

length-insert : (x : ℕ) (ys : List ℕ) → length (insert x ys) ≡ suc (length ys)
unfolding insert
length-insert x [] = refl
length-insert x (y ∷ ys) = ground (arith, length-insert x ys)

pub length-sort : (xs : List ℕ) → length (sort xs) ≡ length xs
unfolding sort
length-sort [] = refl
length-sort (x ∷ xs) = length-insert x (sort xs) ∙ ap suc (length-sort xs)

head-le :
    (x : ℕ) (xs : List ℕ) (i v : ℕ) → IsSorted (x ∷ xs) → get_elem? (x ∷ xs) i ≡ some v → x ≤ v
head-le x xs zero v h e = ground arith
head-le x [] (suc i) v h e = ground arith
head-le x (y ∷ ys) (suc i) v h e = omega (arith, head-le y ys i v h.1 e, h.0)

-- Of a sorted list, the values up to the one at an index are at most that one.
count_if-below :
    (xs : List ℕ) (i v : ℕ)
    → IsSorted xs
    → get_elem? xs i ≡ some v
    → i + 1 ≤ count_if (λ y. leb y v) xs
unfolding count_if
count_if-below [] i v h e = ground arith
count_if-below (x ∷ xs) zero v h e = ground arith
count_if-below (x ∷ []) (suc i) v h e = ground arith
count_if-below (x ∷ y ∷ ys) (suc i) v h e =
    ground (arith, head-le x (y ∷ ys) (suc i) v h e, count_if-below (y ∷ ys) i v h.1 e)

get_elem?-some : (xs : List ℕ) (i : ℕ) → i < length xs → (v : ℕ) × (get_elem? xs i ≡ some v)
get_elem?-some [] i h = absurd (omega arith)
get_elem?-some (x ∷ xs) zero h = (x, refl)
get_elem?-some (x ∷ xs) (suc i) h = get_elem?-some xs i (omega arith)

-- At least 95 of a hundred values are at most the 95th percentile; the index it is read at is in range.
pub p95_covers :
    (v : List ℕ)
    → 0 < length v
    → (p95_index (length v) < length v)
      × (95 * length v ≤ 100 * count_if (λ y. leb y (stats_of v).p95) v)
unfolding stats_of
p95_covers v h =
    let e = length-sort v in
    let inside : p95_index (length v) < length v = omega arith in
    let (x, q) = get_elem?-some (sort v) (p95_index (length (sort v))) (rw e inside) in
    let below = count_if-below (sort v) (p95_index (length (sort v))) x (sort-IsSorted v) q in
    (inside, rw q (omega (arith, below, e, count_if-sort (λ y. leb y x) v)))

at_end :
    (x : ℕ) (xs : List ℕ)
    → IsSorted (x ∷ xs)
    → All (λ (y : ℕ). y ≤ at_or_zero (get_elem? (x ∷ xs) (length xs))) (x ∷ xs)
at_end x [] h = (omega arith, tt)
at_end x (y ∷ ys) h = let ih = at_end y ys h.1 in (omega (arith, ih.0, h.0), ih)
