-- ===== src/Session/Booking.antt =====
-- Which extensions are free: what booking a batch of pairs does to the pools.
use swarmdialer.Prelude.{
  ℕ, zero, suc, ◌+◌, ◌≤◌, ltb, ◌==s◌, ◌≡◌, refl, ◌∙◌, inl, inr, Bool, false, ◌&&◌, List, [], ◌∷◌,
  ◌++◌, arith, ind, eq_iff, eq_refl, if◌then◌else◌, count_if, count_if-append, Bool-cases,
}
use swarmdialer.Session.Pool.{
  Aor, Pool, Pools, shared, split, mark, free_list, pair_up, pair_across, book,
}
use swarmdialer.Session.State.{Task}
use swarmdialer.Session.Effects.{holds}

-- How often an extension stands in a list.
unfoldable pub times : Aor → List Aor → ℕ
times a xs = count_if (λ k. k ==s a) xs

-- An order in which a pool's map may be ranged over: each key once.
abbrev pub IsOrder : List Aor → Pool → Type 0
IsOrder order p = (a : Aor) → times a order ≡ times a p.phones

-- The keys of a map are different.
abbrev pub IsKeyed : Pools → Type 0
IsKeyed (shared p) = (a : Aor) → times a p.phones ≤ 1
IsKeyed (split p q) = ((a : Aor) → times a p.phones ≤ 1) × ((a : Aor) → times a q.phones ≤ 1)

-- How many goroutines hold the extension as their caller, and as their callee.
unfoldable pub caller_uses : Aor → List Task → ℕ
caller_uses a tasks = count_if (λ t. holds t.stage && t.caller ==s a) tasks

unfoldable pub callee_uses : Aor → List Task → ℕ
callee_uses a tasks = count_if (λ t. holds t.stage && t.callee ==s a) tasks

-- Every extension of a pool is either free or held by exactly one goroutine, on one side, and
-- nothing else is free or held.
abbrev pub IsBooked : Pools → List Task → Type 0
IsBooked (shared p) ts =
    (a : Aor) → caller_uses a ts + callee_uses a ts + ind (p.available a) ≡ times a p.phones
IsBooked (split p q) ts =
    ((a : Aor) → caller_uses a ts + ind (p.available a) ≡ times a p.phones)
    × ((a : Aor) → callee_uses a ts + ind (q.available a) ≡ times a q.phones)

-- How often an extension is a pair's caller, and a pair's callee.
unfoldable pub callers_of : Aor → List (Aor × Aor) → ℕ
callers_of a pairs = count_if (λ p. p.0 ==s a) pairs

unfoldable pub callees_of : Aor → List (Aor × Aor) → ℕ
callees_of a pairs = count_if (λ p. p.1 ==s a) pairs

-- The free list holds what is free.
pub times-free_list :
    (a : Aor) (order : List Aor) (av : Aor → Bool)
    → times a (free_list order av) ≡ (if av a then times a order else 0)
unfolding times free_list count_if
times-free_list a [] av = ground arith
times-free_list a (k ∷ order) av = elim (Bool-cases (k ==s a)) [
  | inl e ↦ rw ((eq_iff k a).0 e) (ground (arith, eq_refl a, times-free_list a order av))
  | inr e ↦ ground (arith, times-free_list a order av)
]

-- Pairing up takes each free extension at most once, and on two pools likewise.
pub pair_up_uses :
    (a : Aor) (k : ℕ) (free : List Aor)
    → callers_of a (pair_up k free) + callees_of a (pair_up k free) ≤ times a free
unfolding callers_of callees_of times pair_up count_if
pair_up_uses a zero free = omega arith
pair_up_uses a (suc k) [] = omega arith
pair_up_uses a (suc k) (x ∷ []) = omega arith
pair_up_uses a (suc k) (x ∷ y ∷ free) = omega (arith, pair_up_uses a k free)

pub pair_across_uses :
    (a : Aor) (k : ℕ) (xs ys : List Aor)
    → (callers_of a (pair_across k xs ys) ≤ times a xs)
      × (callees_of a (pair_across k xs ys) ≤ times a ys)
unfolding callers_of callees_of times pair_across count_if
pair_across_uses a zero xs ys = omega arith
pair_across_uses a (suc k) [] ys = omega arith
pair_across_uses a (suc k) (x ∷ xs) [] = omega arith
pair_across_uses a (suc k) (x ∷ xs) (y ∷ ys) = omega (arith, pair_across_uses a k xs ys)

-- Booking pairs makes their extensions unavailable, each on its own side.
pub book-shared :
    (pairs : List (Aor × Aor)) (p : Pool)
    → (q : Pool) × (book pairs (shared p) ≡ shared q)
      × (q.phones ≡ p.phones)
      × ((a : Aor)
          → ind (q.available a)
            ≡ (if ltb 0 (callers_of a pairs + callees_of a pairs) then 0 else ind (p.available a)))
unfolding book callers_of callees_of count_if
book-shared [] p = (p, refl, refl, λ a. refl)
book-shared ((c, e) ∷ pairs) p =
    let (q, same, phones, av) = book-shared pairs (mark (mark p c false) e false) in
    (q, same, phones, λ a. av a ∙ ground (arith))

pub book-split :
    (pairs : List (Aor × Aor)) (p q : Pool)
    → (p' q' : Pool) × (book pairs (split p q) ≡ split p' q')
      × (p'.phones ≡ p.phones)
      × (q'.phones ≡ q.phones)
      × ((a : Aor)
          → (ind (p'.available a) ≡ (if ltb 0 (callers_of a pairs) then 0 else ind (p.available a)))
            × (ind (q'.available a)
                ≡ (if ltb 0 (callees_of a pairs) then 0 else ind (q.available a))))
unfolding book callers_of callees_of count_if
book-split [] p q = (p, q, refl, refl, refl, λ a. (refl, refl))
book-split ((c, e) ∷ pairs) p q =
    let (p', q', same, phones, phones', av) = book-split pairs (mark p c false) (mark q e false) in
    (p', q', same, phones, phones', λ a. ground (arith, av a))

pub caller_uses-append :
    (a : Aor) (ts us : List Task) → caller_uses a (ts ++ us) ≡ caller_uses a ts + caller_uses a us
unfolding caller_uses
caller_uses-append a ts us = count_if-append _ ts us

pub callee_uses-append :
    (a : Aor) (ts us : List Task) → callee_uses a (ts ++ us) ≡ callee_uses a ts + callee_uses a us
unfolding callee_uses
callee_uses-append a ts us = count_if-append _ ts us

pub book-IsKeyed : (pairs : List (Aor × Aor)) (ps : Pools) → IsKeyed ps → IsKeyed (book pairs ps)
unfolding book
book-IsKeyed [] ps h = h
book-IsKeyed ((c, e) ∷ pairs) (shared p) h =
    book-IsKeyed pairs (shared (mark (mark p c false) e false)) h
book-IsKeyed ((c, e) ∷ pairs) (split p q) h =
    book-IsKeyed pairs (split (mark p c false) (mark q e false)) h
