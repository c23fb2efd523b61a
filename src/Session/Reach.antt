-- ===== src/Session/Reach.antt =====
-- The steps of a session in any order, and what holds throughout.
use swarmdialer.Prelude.{
  ℕ, ◌+◌, ◌≤◌, ltb, ◌==s◌, ◌≡◌, refl, ◌∙◌, subst, inl, inr, Bool, Option, some, String, List, [],
  ◌∷◌, ◌++◌, map, arith, ind, eq_iff, eq_refl, if◌then◌else◌, length, count_if, count_if-append,
  Bool-cases,
}
use swarmdialer.Session.Pool.{
  Aor, Pools, caller_pool, callee_pool, new_pool, reserve_pairs, keys_of, contains,
}
use swarmdialer.Session.State.{Codec, RtpCounts, Task, Session}
use swarmdialer.Session.Calls.{
  Choice, Request, add_calls, step_task, new_task, stop, cancel_ctx, new_session,
  new_remote_session,
}
use swarmdialer.Session.Booking.{times, IsOrder, IsKeyed, caller_uses, callee_uses, book-IsKeyed}
use swarmdialer.Session.Reserve.{reserve_pairs-IsBooked}
use swarmdialer.Session.Invariant.{Inv, open_calls, in_call, entries, step_task-Inv}

-- One step of the session: a batch is added (whatever order the maps are ranged over in), a
-- goroutine takes an action, `Stop` is called, or the context is cancelled.
pub data Step : Session → Session → Type 0 where
  added :
      (s : Session) (r : Request)
      → IsOrder r.callers (caller_pool s.pools)
      → IsOrder r.callees (callee_pool s.pools)
      → Step s (add_calls r s).1
  acted :
      (s s' : Session) (i : ℕ) (choice : Choice) (now : ℕ) (rtp : RtpCounts)
      → step_task i choice now rtp s ≡ some s'
      → Step s s'
  stopped : (s : Session) → Step s (stop s)
  ended : (s : Session) → Step s (cancel_ctx s)

pub data Reach (s : Session) : Session → Type 0 where
  here : Reach s s
  next : {t u : Session} → Reach s t → Step t u → Reach s u

open_calls-new :
    (batch gen : ℕ) (media : Bool) (c d : Codec) (pairs : List (Aor × Aor))
    → open_calls (map (new_task batch gen media c d) pairs) ≡ length pairs
unfolding open_calls count_if new_task
open_calls-new batch gen media c d [] = refl
open_calls-new batch gen media c d (p ∷ pairs) =
    omega (arith, open_calls-new batch gen media c d pairs)

in_call-new :
    (id batch gen : ℕ) (media : Bool) (c d : Codec) (pairs : List (Aor × Aor))
    → in_call id (map (new_task batch gen media c d) pairs) ≡ 0
unfolding in_call count_if new_task
in_call-new id batch gen media c d [] = refl
in_call-new id batch gen media c d (p ∷ pairs) =
    omega (arith, in_call-new id batch gen media c d pairs)

open_calls-append : (ts us : List Task) → open_calls (ts ++ us) ≡ open_calls ts + open_calls us
unfolding open_calls
open_calls-append ts us = count_if-append _ ts us

in_call-append :
    (id : ℕ) (ts us : List Task) → in_call id (ts ++ us) ≡ in_call id ts + in_call id us
unfolding in_call
in_call-append id ts us = count_if-append _ ts us

-- Booking changes no pool's keys.
reserve_pairs-IsKeyed :
    (n : ℕ) (callers callees : List Aor) (ps : Pools)
    → IsKeyed ps
    → IsKeyed (reserve_pairs n callers callees ps).1
unfolding reserve_pairs
reserve_pairs-IsKeyed n callers callees ps h =
    book-IsKeyed (reserve_pairs n callers callees ps).0 ps h

-- Adding a batch keeps the session's invariant.
pub add_calls-Inv :
    (r : Request) (s : Session)
    → IsOrder r.callers (caller_pool s.pools)
    → IsOrder r.callees (callee_pool s.pools)
    → Inv s
    → Inv (add_calls r s).1
unfolding add_calls
add_calls-Inv r s oc oe inv =
    let pairs = (reserve_pairs r.n r.callers r.callees s.pools).0 in
    let fresh = map (new_task r.batch s.stop_gen r.send_media r.codec r.callee_codec) pairs in
    record {
      keyed = reserve_pairs-IsKeyed r.n r.callers r.callees s.pools inv.keyed;
      booked =
          reserve_pairs-IsBooked r.batch s.stop_gen r.send_media r.codec r.callee_codec r.n
            r.callers r.callees s.pools s.tasks oc oe inv.keyed inv.booked;
      tallied = omega (
        arith,
        inv.tallied,
        open_calls-append s.tasks fresh,
        open_calls-new r.batch s.stop_gen r.send_media r.codec r.callee_codec pairs,
      );
      listed = λ id.
          inv.listed id
          ∙ omega (
            arith,
            in_call-append id s.tasks fresh,
            in_call-new id r.batch s.stop_gen r.send_media r.codec r.callee_codec pairs,
          );
      numbered = λ id.
          subst (λ (k : ℕ). k ≤ (if ltb s.next_call_id id then 0 else 1))
            (omega (
              arith,
              in_call-append id s.tasks fresh,
              in_call-new id r.batch s.stop_gen r.send_media r.codec r.callee_codec pairs,
            ))
            (inv.numbered id);
    }

pub Step-Inv : {s t : Session} → Step s t → Inv s → Inv t
Step-Inv (added s r oc oe) inv = add_calls-Inv r s oc oe inv
Step-Inv (acted s s' i choice now rtp h) inv = step_task-Inv i choice now rtp s s' h inv
Step-Inv (stopped s) inv =
    unfold stop in
    record {
      keyed = inv.keyed;
      booked = inv.booked;
      tallied = inv.tallied;
      listed = inv.listed;
      numbered = inv.numbered;
    }
Step-Inv (ended s) inv =
    unfold cancel_ctx in
    record {
      keyed = inv.keyed;
      booked = inv.booked;
      tallied = inv.tallied;
      listed = inv.listed;
      numbered = inv.numbered;
    }

-- After any steps, in whatever order, the invariant holds.
pub Reach-Inv : {s t : Session} → Reach s t → Inv s → Inv t
Reach-Inv here inv = inv
Reach-Inv (next r st) inv = Step-Inv st (Reach-Inv r inv)

contains-times : (a : Aor) (ks : List Aor) → times a ks ≤ 1 → ind (contains ks a) ≡ times a ks
unfolding contains times count_if
contains-times a [] h = refl
contains-times a (k ∷ ks) h = ground (arith, contains-times a ks)

-- The map that `newPool` fills has each of the endpoints' AORs once.
keys_of-distinct : (a : Aor) (ks : List Aor) → times a (keys_of ks) ≤ 1
unfolding keys_of contains times count_if
keys_of-distinct a [] = omega arith
keys_of-distinct a (k ∷ ks) = elim (Bool-cases (k ==s a)) [
  | inl e ↦ rw ((eq_iff k a).0 e) (
      ground (
        arith,
        eq_refl a,
        keys_of-distinct a ks,
        contains-times a (keys_of ks) (keys_of-distinct a ks),
      ))
  | inr e ↦ ground (arith, keys_of-distinct a ks)
]

new_pool-free :
    (dest domain : String) (endpoints : List Aor) (a : Aor)
    → let p = new_pool dest domain endpoints in
      (times a p.phones ≤ 1) × (ind (p.available a) ≡ times a p.phones)
unfolding new_pool
new_pool-free dest domain endpoints a = (
  keys_of-distinct a endpoints,
  contains-times a (keys_of endpoints) (keys_of-distinct a endpoints),
)

-- A new local session satisfies the invariant.
pub new_session-Inv :
    (dest domain : String) (endpoints : List Aor) → Inv (new_session dest domain endpoints)
unfolding new_session caller_uses callee_uses count_if open_calls in_call entries
new_session-Inv dest domain endpoints = record {
  keyed = λ a. (new_pool-free dest domain endpoints a).0;
  booked = λ a. omega (arith, (new_pool-free dest domain endpoints a).1);
  tallied = omega arith;
  listed = λ id. refl;
  numbered = λ id. omega arith;
}

-- A new remote session satisfies the invariant.
pub new_remote_session-Inv :
    (dest domain dest' domain' : String) (callers callees : List Aor) (did : Aor → Option String)
    → Inv (new_remote_session dest domain dest' domain' callers callees did)
unfolding new_remote_session caller_uses callee_uses count_if open_calls in_call entries
new_remote_session-Inv dest domain dest' domain' callers callees did = record {
  keyed = (
    λ a. (new_pool-free dest domain callers a).0,
    λ a. (new_pool-free dest' domain' callees a).0,
  );
  booked = (
    λ a. omega (arith, (new_pool-free dest domain callers a).1),
    λ a. omega (arith, (new_pool-free dest' domain' callees a).1),
  );
  tallied = omega arith;
  listed = λ id. refl;
  numbered = λ id. omega arith;
}
