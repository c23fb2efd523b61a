-- ===== src/Session/Invariant.antt =====
-- What holds of a session between any two actions of its goroutines.
use swarmdialer.Prelude.{
  ℕ, ◌+◌, ◌≤◌, ltb, ◌==s◌, ◌==◌, ◌≡◌, refl, ◌∙◌, inl, inr, Bool, true, false, ◌&&◌, Option, none,
  some, List, [], ◌∷◌, ◌++◌, arith, ind, if◌then◌else◌, count_if, count_if-append, count_if-set,
  get_elem?, set, Option-cases,
}
use swarmdialer.Session.Pool.{Aor, Pools, shared, split, release}
use swarmdialer.Session.State.{RtpCounts, Task, ActiveCall, Session}
use swarmdialer.Session.Calls.{Choice, advance, step_task, remove_call, is_ready, store}
use swarmdialer.Session.Effects.{
  holds, is_open, is_listed, Ensures, Booking, Listing, advance-Booking, advance-Tally,
  advance-Listing,
}
use swarmdialer.Session.Booking.{IsKeyed, IsBooked, caller_uses, callee_uses}

-- The count of an extension's uses after one goroutine has moved on.
caller_uses-set :
    (a : Aor) (ts : List Task) (i : ℕ) (t t' : Task)
    → get_elem? ts i ≡ some t
    → caller_uses a (set ts i t') + ind (holds t.stage && t.caller ==s a)
      ≡ caller_uses a ts + ind (holds t'.stage && t'.caller ==s a)
unfolding caller_uses
caller_uses-set a ts i t t' h = count_if-set _ ts i t t' h

callee_uses-set :
    (a : Aor) (ts : List Task) (i : ℕ) (t t' : Task)
    → get_elem? ts i ≡ some t
    → callee_uses a (set ts i t') + ind (holds t.stage && t.callee ==s a)
      ≡ callee_uses a ts + ind (holds t'.stage && t'.callee ==s a)
unfolding callee_uses
callee_uses-set a ts i t t' h = count_if-set _ ts i t t' h

-- A goroutine that goes on holding its extensions changes no booking.
kept-IsBooked :
    (ps : Pools) (ts : List Task) (i : ℕ) (t t' : Task)
    → get_elem? ts i ≡ some t
    → t'.caller ≡ t.caller
    → t'.callee ≡ t.callee
    → holds t'.stage ≡ holds t.stage
    → IsBooked ps ts
    → IsBooked ps (set ts i t')
kept-IsBooked (shared p) ts i t t' e c d k h =
    λ a. ground (arith, h a, caller_uses-set a ts i t t' e, callee_uses-set a ts i t t' e)
kept-IsBooked (split p q) ts i t t' e c d k h = (
  λ a. ground (arith, h.0 a, caller_uses-set a ts i t t' e),
  λ a. ground (arith, h.1 a, callee_uses-set a ts i t t' e),
)

-- A goroutine that releases its extensions makes exactly those free again.
freed-IsBooked :
    (ps : Pools) (ts : List Task) (i : ℕ) (t t' : Task)
    → get_elem? ts i ≡ some t
    → holds t.stage ≡ true
    → holds t'.stage ≡ false
    → IsKeyed ps
    → IsBooked ps ts
    → IsBooked (release ps t.caller t.callee) (set ts i t')
unfolding release
freed-IsBooked (shared p) ts i t t' e k k' keyed h =
    λ a. ground (arith, h a, keyed a, caller_uses-set a ts i t t' e, callee_uses-set a ts i t t' e)
freed-IsBooked (split p q) ts i t t' e k k' keyed h = (
  λ a. ground (arith, h.0 a, keyed.0 a, caller_uses-set a ts i t t' e),
  λ a. ground (arith, h.1 a, keyed.1 a, callee_uses-set a ts i t t' e),
)

-- Releasing changes no pool's keys.
release-IsKeyed : (ps : Pools) (c e : Aor) → IsKeyed ps → IsKeyed (release ps c e)
unfolding release
release-IsKeyed (shared p) c e h = h
release-IsKeyed (split p q) c e h = h

-- An action that is taken is taken by the goroutine at the index, in a case of its select that is
-- ready, and its result is stored at the index.
pub step_task_cases :
    (i : ℕ) (choice : Choice) (now : ℕ) (rtp : RtpCounts) (s s' : Session)
    → step_task i choice now rtp s ≡ some s'
    → (t t' : Task) × (u : Session) × (get_elem? s.tasks i ≡ some t)
      × (is_ready choice t s ≡ true)
      × (advance t.stage choice now rtp t s ≡ some (t', u))
      × (s' ≡ store i (t', u))
unfolding step_task
step_task_cases i choice now rtp s s' h = elim (Option-cases (get_elem? s.tasks i)) [
  | inl e ↦ absurd (ground (arith, e))
  | inr (t, e) ↦
      taken t e (is_ready choice t s) refl (advance t.stage choice now rtp t s) refl
        (rw (e, step_task) at h)
]
  where
    taken :
        (t : Task)
        → get_elem? s.tasks i ≡ some t
        → (b : Bool) → is_ready choice t s ≡ b
        → (o : Option (Task × Session)) → advance t.stage choice now rtp t s ≡ o
        → (if b then elim o [ none ↦ none | some r ↦ some (store i r) ] else none) ≡ some s'
        → (t t' : Task) × (u : Session) × (get_elem? s.tasks i ≡ some t)
          × (is_ready choice t s ≡ true)
          × (advance t.stage choice now rtp t s ≡ some (t', u))
          × (s' ≡ store i (t', u))
    taken t e true r (some (t', u)) f k = (t, t', u, e, r, f, cc)
    taken t e true r none f k = cc
    taken t e false r o f k = cc

-- How many calls are not yet counted as answered, failed or cancelled.
unfoldable pub open_calls : List Task → ℕ
open_calls ts = count_if (λ t. is_open t.stage) ts

-- How many goroutines are in a call with this number, and how many entries of the list have it.
unfoldable pub in_call : ℕ → List Task → ℕ
in_call id ts = count_if (λ t. is_listed t.stage && t.call_id == id) ts

unfoldable pub entries : ℕ → List ActiveCall → ℕ
entries id calls = count_if (λ c. c.id == id) calls

pub record Inv (s : Session) : Type 0 where
  pub keyed : IsKeyed s.pools
  pub booked : IsBooked s.pools s.tasks
  pub tallied :
      s.counters.started
      ≡ s.counters.answered + s.counters.failed + s.counters.cancelled + open_calls s.tasks
  pub listed : (id : ℕ) → entries id s.calls ≡ in_call id s.tasks
  pub numbered : (id : ℕ) → in_call id s.tasks ≤ (if ltb s.next_call_id id then 0 else 1)

open_calls-set :
    (ts : List Task) (i : ℕ) (t t' : Task)
    → get_elem? ts i ≡ some t
    → open_calls (set ts i t') + ind (is_open t.stage) ≡ open_calls ts + ind (is_open t'.stage)
unfolding open_calls
open_calls-set ts i t t' h = count_if-set _ ts i t t' h

in_call-set :
    (id : ℕ) (ts : List Task) (i : ℕ) (t t' : Task)
    → get_elem? ts i ≡ some t
    → in_call id (set ts i t') + ind (is_listed t.stage && t.call_id == id)
      ≡ in_call id ts + ind (is_listed t'.stage && t'.call_id == id)
unfolding in_call
in_call-set id ts i t t' h = count_if-set _ ts i t t' h

entries-add :
    (id : ℕ) (cs : List ActiveCall) (c : ActiveCall)
    → entries id (cs ++ c ∷ []) ≡ entries id cs + ind (c.id == id)
unfolding entries count_if
entries-add id cs c = count_if-append _ cs (c ∷ []) ∙ omega arith

-- Deleting a number takes out every entry with it and no other.
entries-remove_call :
    (id k : ℕ) (cs : List ActiveCall)
    → entries id (remove_call k cs) ≡ (if k == id then 0 else entries id cs)
unfolding entries remove_call count_if
entries-remove_call id k [] = ground arith
entries-remove_call id k (c ∷ cs) = ground (arith, entries-remove_call id k cs)

abbrev Listed : Session → Type 0
Listed s =
    ((id : ℕ) → entries id s.calls ≡ in_call id s.tasks)
    × ((id : ℕ) → in_call id s.tasks ≤ (if ltb s.next_call_id id then 0 else 1))

-- An action keeps the list of calls in step with the goroutines that are in a call.
step-Listed :
    (s u : Session) (i : ℕ) (t t' : Task)
    → get_elem? s.tasks i ≡ some t
    → u.tasks ≡ s.tasks
    → Listing t.stage t s t' u
    → Listed s
    → Listed (store i (t', u))
step-Listed s u i t t' e same (inl (k, c, calls, next)) h = (
  λ id. rw (same, calls) (ground (arith, h.0 id, in_call-set id s.tasks i t t' e)),
  λ id. rw (same, next) (ground (arith, h.1 id, in_call-set id s.tasks i t t' e)),
)
step-Listed s u i t t' e same (inr (inl (k, k', c, next, (entry, numbered, calls)))) h = (
  λ id.
      rw (same, calls, entries-add id s.calls entry)
        (ground (arith, h.0 id, in_call-set id s.tasks i t t' e)),
  λ id. rw (same, next) (ground (arith, h.1 id, in_call-set id s.tasks i t t' e)),
)
step-Listed s u i t t' e same (inr (inr (k, k', c, calls, next))) h = (
  λ id.
      rw (same, calls, entries-remove_call id t.call_id s.calls)
        (ground (arith, h.0 id, h.1 id, in_call-set id s.tasks i t t' e)),
  λ id. rw (same, next) (ground (arith, h.1 id, in_call-set id s.tasks i t t' e)),
)

step-Booked :
    (s u : Session) (i : ℕ) (t t' : Task)
    → get_elem? s.tasks i ≡ some t
    → Booking t.stage t s t' u
    → IsKeyed s.pools
    → IsBooked s.pools s.tasks
    → IsKeyed u.pools × IsBooked u.pools (set u.tasks i t')
step-Booked s u i t t' e (c, d, same, inl (k, pools)) keyed h =
    rw (same, pools) (keyed, kept-IsBooked s.pools s.tasks i t t' e c d k h)
step-Booked s u i t t' e (c, d, same, inr (k, k', pools)) keyed h =
    rw (same, pools)
      (
        release-IsKeyed s.pools t.caller t.callee keyed,
        freed-IsBooked s.pools s.tasks i t t' e k k' keyed h,
      )

pub Ensures-at :
    (P : Task → Session → Type 0) (o : Option (Task × Session)) (t : Task) (s : Session)
    → Ensures P o
    → o ≡ some (t, s)
    → P t s
Ensures-at P o t s h e = rw e at h

-- Every action of every goroutine keeps the session's invariant.
pub step_task-Inv :
    (i : ℕ) (choice : Choice) (now : ℕ) (rtp : RtpCounts) (s s' : Session)
    → step_task i choice now rtp s ≡ some s'
    → Inv s
    → Inv s'
step_task-Inv i choice now rtp s s' h inv =
    let (t, t', u, e, ready, step, same) = step_task_cases i choice now rtp s s' h in
    let b = Ensures-at _ _ t' u (advance-Booking t.stage choice now rtp t s) step in
    let y = Ensures-at _ _ t' u (advance-Tally t.stage choice now rtp t s) step in
    let l = Ensures-at _ _ t' u (advance-Listing t.stage choice now rtp t s) step in
    let (keyed, booked) = step-Booked s u i t t' e b inv.keyed inv.booked in
    let (listed, numbered) = step-Listed s u i t t' e b.2 l (inv.listed, inv.numbered) in
    rw same record {
      keyed = keyed;
      booked = booked;
      tallied = rw (b.2) (omega (arith, open_calls-set s.tasks i t t' e, inv.tallied));
      listed = listed;
      numbered = numbered;
    }
