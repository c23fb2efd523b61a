-- ===== src/Runs/Pairs.antt =====
-- Which extensions call which, and how the pairs' states begin.
use swarmdialer.Prelude.{
  ℕ, zero, suc, ◌+◌, ◌*◌, ltb, ◌≡◌, refl, ◌∙◌, ap, String, none, some, List, [], ◌∷◌, ◌++◌, map,
  arith, if◌then◌else◌, length, get_elem?, set, length-append,
}
use swarmdialer.Runs.{
  PairState, RunState, registering, no_pair, blank_pairs, new_run_state, set_phase, update_pair,
  pending_pair, init_pair, init_pairs, begin_run, calls_begin, pairs_from, make_pairs,
}

pairs_from-at :
    (i n k : ℕ)
    → get_elem? (pairs_from i n) k
      ≡ (if ltb (2 * k + 1) n then some (i + 2 * k, i + 2 * k + 1) else none)
unfolding pairs_from
pairs_from-at i zero k = ground arith
pairs_from-at i (suc zero) k = ground arith
pairs_from-at i (suc (suc n)) zero = ground arith
pairs_from-at i (suc (suc n)) (suc k) = ground (arith, pairs_from-at (i + 2) n k)

-- The k-th pair is the extensions 2k and 2k + 1, as long as both are there; an odd one out is in no
-- pair.
pub make_pairs-at :
    (n k : ℕ)
    → get_elem? (make_pairs n) k ≡ (if ltb (2 * k + 1) n then some (2 * k, 2 * k + 1) else none)
unfolding make_pairs
make_pairs-at n k = ground (arith, pairs_from-at 0 n k)

get_elem?-middle {ℓ} :
    {A : Type ℓ} (xs : List A) (y : A) (ys : List A) → get_elem? (xs ++ y ∷ ys) (length xs) ≡ some y
get_elem?-middle [] y ys = refl
get_elem?-middle (x ∷ xs) y ys = get_elem?-middle xs y ys

set-middle {ℓ} :
    {A : Type ℓ} (xs : List A) (y z : A) (ys : List A)
    → set (xs ++ y ∷ ys) (length xs) z ≡ (xs ++ z ∷ []) ++ ys
set-middle [] y z ys = refl
set-middle (x ∷ xs) y z ys = ap (λ l. x ∷ l) (set-middle xs y z ys)

snoc_append {ℓ} :
    {A : Type ℓ} (xs : List A) (y : A) (ys : List A) → (xs ++ y ∷ []) ++ ys ≡ xs ++ y ∷ ys
snoc_append [] y ys = refl
snoc_append (x ∷ xs) y ys = ap (λ l. x ∷ l) (snoc_append xs y ys)

init_pairs_lem :
    (aors : List (String × String)) (before : List PairState) (i : ℕ) (s : RunState)
    → i ≡ length before
    → s.pairs ≡ before ++ blank_pairs (length aors)
    → init_pairs i aors s ≡ some (record s { pairs = before ++ map pending_pair aors })
unfolding init_pairs init_pair update_pair blank_pairs
init_pairs_lem [] before i s e h = ap (λ l. some (record s { pairs = l })) h
init_pairs_lem (a ∷ aors) before i s e h =
    let found : get_elem? s.pairs i ≡ some no_pair =
      rw (h, e) (get_elem?-middle before no_pair (blank_pairs (length aors))) in
    let put : set s.pairs i (pending_pair a)
        ≡ (before ++ pending_pair a ∷ []) ++ blank_pairs (length aors) =
      rw (h, e) (set-middle before no_pair (pending_pair a) (blank_pairs (length aors))) in
    let placed : init_pair i a s ≡ some (record s { pairs = set s.pairs i (pending_pair a) }) =
      rw (found, init_pair, update_pair) refl in
    rw (placed, init_pairs)
      (init_pairs_lem aors (before ++ pending_pair a ∷ []) (suc i)
          (record s { pairs = set s.pairs i (pending_pair a) })
          (omega (arith, e, length-append {0} before (pending_pair a ∷ []))) put
        ∙ ap (λ l. some (record s { pairs = l }))
            (snoc_append before (pending_pair a) (map pending_pair aors)))

-- `Run` puts every pair in its place before the calls begin: none is out of range.
pub begin_run_lem :
    (now : ℕ) (aors : List (String × String)) → begin_run now aors ≡ some (calls_begin now aors)
unfolding begin_run new_run_state set_phase
begin_run_lem now aors =
    rw
      (
        init_pairs_lem aors [] 0 (set_phase registering (new_run_state now (length aors))) refl
            refl,
        begin_run,
      )
      refl
