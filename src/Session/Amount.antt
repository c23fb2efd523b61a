-- ===== src/Session/Amount.antt =====
-- How many calls a request starts: what was asked for, or as many pairs as are free.
use swarmdialer.Prelude.{
  ℕ, zero, suc, ◌+◌, ◌/◌, ◌≤◌, min, ◌≡◌, refl, Bool, List, [], ◌∷◌, arith, length, ◌∙◌, ap, map,
  length-append, length-map,
}
use swarmdialer.Session.Pool.{
  Aor, Pools, shared, split, free_list, count_true, pair_up, pair_across, max_pairs, reserve_pairs,
}
use swarmdialer.Session.State.{Session}
use swarmdialer.Session.Calls.{Request, add_calls, new_task}

length-free_list :
    (order : List Aor) (av : Aor → Bool) → length (free_list order av) ≡ count_true order av
unfolding free_list count_true
length-free_list [] av = refl
length-free_list (a ∷ order) av = ground (arith, length-free_list order av)

length-pair_up : (k : ℕ) (free : List Aor) → k + k ≤ length free → length (pair_up k free) ≡ k
unfolding pair_up
length-pair_up zero free h = refl
length-pair_up (suc k) [] h = omega arith
length-pair_up (suc k) (a ∷ []) h = omega arith
length-pair_up (suc k) (a ∷ b ∷ free) h = omega (arith, length-pair_up k free)

length-pair_across :
    (k : ℕ) (xs ys : List Aor) → k ≤ length xs → k ≤ length ys → length (pair_across k xs ys) ≡ k
unfolding pair_across
length-pair_across zero xs ys h g = refl
length-pair_across (suc k) [] ys h g = omega arith
length-pair_across (suc k) (x ∷ xs) [] h g = omega arith
length-pair_across (suc k) (x ∷ xs) (y ∷ ys) h g = omega (arith, length-pair_across k xs ys)

-- How many pairs can be made of the free extensions.
abbrev pub free_pairs : Pools → List Aor → List Aor → ℕ
free_pairs (shared p) callers callees = count_true callers p.available / 2
free_pairs (split p q) callers callees =
    min (count_true callers p.available) (count_true callees q.available)

-- `reservePairs` makes as many pairs as were asked for, or as many as the free extensions allow,
-- whichever is less.
pub length-reserve_pairs :
    (n : ℕ) (callers callees : List Aor) (ps : Pools)
    → length (reserve_pairs n callers callees ps).0 ≡ min n (free_pairs ps callers callees)
unfolding reserve_pairs
length-reserve_pairs n callers callees (shared p) =
    let free = free_list callers p.available in
    let m : max_pairs n (shared p) free free ≡ min n (count_true callers p.available / 2) =
      unfold max_pairs in ground (arith, length-free_list callers p.available) in
    length-pair_up (max_pairs n (shared p) free free) free
      (omega (arith, m, length-free_list callers p.available))
    ∙ m
length-reserve_pairs n callers callees (split p q) =
    let xs = free_list callers p.available in
    let ys = free_list callees q.available in
    let m : max_pairs n (split p q) xs ys
        ≡ min n (min (count_true callers p.available) (count_true callees q.available)) =
      unfold max_pairs in
      ground (arith, length-free_list callers p.available, length-free_list callees q.available) in
    length-pair_across (max_pairs n (split p q) xs ys) xs ys
      (omega (arith, m, length-free_list callers p.available))
      (omega (arith, m, length-free_list callees q.available))
    ∙ m

-- `AddCallsWithCallee` returns how many calls it started: as many as were asked for or as the free
-- extensions allow. The counter of started calls and the number of goroutines grow by that many.
pub add_calls_amount :
    (r : Request) (s : Session)
    → let (started, s') = add_calls r s in
      (started ≡ min r.n (free_pairs s.pools r.callers r.callees))
      × (s'.counters.started ≡ s.counters.started + started)
      × (length s'.tasks ≡ length s.tasks + started)
unfolding add_calls
add_calls_amount r s =
    let pairs = (reserve_pairs r.n r.callers r.callees s.pools).0 in
    let make = new_task r.batch s.stop_gen r.send_media r.codec r.callee_codec in
    (
      length-reserve_pairs r.n r.callers r.callees s.pools,
      refl,
      length-append s.tasks (map make pairs)
          ∙ ap (λ (k : ℕ). length s.tasks + k) (length-map make pairs),
    )
