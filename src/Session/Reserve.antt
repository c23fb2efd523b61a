-- ===== src/Session/Reserve.antt =====
-- `reservePairs` and `release` keep every extension free or held by one goroutine, and reserve as
-- many pairs as there are.
use swarmdialer.Prelude.{
  ℕ, ◌+◌, ◌≡◌, refl, ◌∙◌, ap, Bool, List, [], ◌∷◌, ◌++◌, map, arith, count_if,
}
use swarmdialer.Session.Pool.{
  Aor, Pools, shared, split, caller_pool, callee_pool, free_list, pair_up, pair_across, max_pairs,
  reserve_pairs,
}
use swarmdialer.Session.State.{Codec, Task}
use swarmdialer.Session.Calls.{new_task}
use swarmdialer.Session.Booking.{
  times, IsOrder, IsKeyed, IsBooked, caller_uses, callee_uses, callers_of, callees_of,
  times-free_list, pair_up_uses, pair_across_uses, book-shared, book-split, caller_uses-append,
  callee_uses-append,
}

module _ (batch gen : ℕ) (media : Bool) (codec callee_codec : Codec) where
  -- The goroutines of new pairs hold the pairs' extensions.
  caller_uses-new :
      (a : Aor) (pairs : List (Aor × Aor))
      → caller_uses a (map (new_task batch gen media codec callee_codec) pairs) ≡ callers_of a pairs
  unfolding caller_uses callers_of count_if new_task
  caller_uses-new a [] = refl
  caller_uses-new a (p ∷ pairs) = omega (arith, caller_uses-new a pairs)

  callee_uses-new :
      (a : Aor) (pairs : List (Aor × Aor))
      → callee_uses a (map (new_task batch gen media codec callee_codec) pairs) ≡ callees_of a pairs
  unfolding callee_uses callees_of count_if new_task
  callee_uses-new a [] = refl
  callee_uses-new a (p ∷ pairs) = omega (arith, callee_uses-new a pairs)

  caller_uses-more :
      (a : Aor) (ts : List Task) (pairs : List (Aor × Aor))
      → caller_uses a (ts ++ map (new_task batch gen media codec callee_codec) pairs)
        ≡ caller_uses a ts + callers_of a pairs
  caller_uses-more a ts pairs =
      caller_uses-append a ts _ ∙ ap (λ (k : ℕ). caller_uses a ts + k) (caller_uses-new a pairs)

  callee_uses-more :
      (a : Aor) (ts : List Task) (pairs : List (Aor × Aor))
      → callee_uses a (ts ++ map (new_task batch gen media codec callee_codec) pairs)
        ≡ callee_uses a ts + callees_of a pairs
  callee_uses-more a ts pairs =
      callee_uses-append a ts _ ∙ ap (λ (k : ℕ). callee_uses a ts + k) (callee_uses-new a pairs)

  -- Whatever the orders in which the maps are ranged over, and however many pairs are asked for,
  -- booking them keeps every extension free or held by exactly one goroutine.
  pub reserve_pairs-IsBooked :
      (n : ℕ) (callers callees : List Aor) (ps : Pools) (ts : List Task)
      → IsOrder callers (caller_pool ps)
      → IsOrder callees (callee_pool ps)
      → IsKeyed ps
      → IsBooked ps ts
      → let (pairs, ps') = reserve_pairs n callers callees ps in
        IsBooked ps' (ts ++ map (new_task batch gen media codec callee_codec) pairs)
  unfolding reserve_pairs
  reserve_pairs-IsBooked n callers callees (shared p) ts oc oe keyed h =
      let k =
        max_pairs n (shared p) (free_list callers p.available) (free_list callees p.available) in
      let pairs = pair_up k (free_list callers p.available) in
      let (q, same, phones, av) = book-shared pairs p in
      rw same (λ a. ground (
        arith,
        caller_uses-more a ts pairs,
        callee_uses-more a ts pairs,
        av a,
        h a,
        keyed a,
        oc a,
        ap (times a) phones,
        pair_up_uses a k (free_list callers p.available),
        times-free_list a callers p.available,
      ))
  reserve_pairs-IsBooked n callers callees (split p q) ts oc oe keyed h =
      let fc = free_list callers p.available in
      let fe = free_list callees q.available in
      let k = max_pairs n (split p q) fc fe in
      let pairs = pair_across k fc fe in
      let (p', q', same, phones, phones', av) = book-split pairs p q in
      rw same (
        λ a. ground (
          arith,
          caller_uses-more a ts pairs,
          av a,
          h.0 a,
          keyed.0 a,
          oc a,
          ap (times a) phones,
          pair_across_uses a k fc fe,
          times-free_list a callers p.available,
        ),
        λ a. ground (
          arith,
          callee_uses-more a ts pairs,
          av a,
          h.1 a,
          keyed.1 a,
          oe a,
          ap (times a) phones',
          pair_across_uses a k fc fe,
          times-free_list a callees q.available,
        ),
      )
