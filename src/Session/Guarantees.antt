-- ===== src/Session/Guarantees.antt =====
-- What a session promises while it runs, and once its calls are over.
use swarmdialer.Prelude.{
  ℕ, ◌+◌, ◌≤◌, ◌==s◌, ◌==◌, ◌≡◌, ◌≢◌, refl, ◌∙◌, Bool, true, false, ◌&&◌, some, List, [], ◌∷◌,
  arith, ind, eq_refl, count_if, count_if-ge-one, count_if-ge-two, count_if-none, get_elem?, All,
}
use swarmdialer.Session.Pool.{Aor, Pool, Pools, shared, split}
use swarmdialer.Session.State.{Stage, Task, ActiveCall, Session, never_dialed, finished}
use swarmdialer.Session.Effects.{holds, is_open, is_listed}
use swarmdialer.Session.Booking.{times, IsKeyed, IsBooked, caller_uses, callee_uses}
use swarmdialer.Session.Invariant.{Inv, open_calls, in_call, entries}
use swarmdialer.Session.Reach.{Reach, Reach-Inv}

-- Two goroutines that hold their extensions share none that stand in one pool.
abbrev pub AreApart : Pools → Task → Task → Type 0
AreApart (shared p) t u =
    (t.caller ≢ u.caller) × (t.callee ≢ u.callee) × (t.caller ≢ u.callee) × (t.callee ≢ u.caller)
AreApart (split p q) t u = (t.caller ≢ u.caller) × (t.callee ≢ u.callee)

module _ (a : Aor) (ts : List Task) (i j : ℕ) {t u : Task} (ne : i ≢ j)
    (e : get_elem? ts i ≡ some t) (f : get_elem? ts j ≡ some u) (h : holds t.stage ≡ true)
    (k : holds u.stage ≡ true) where
  caller_uses-two : t.caller ≡ a → u.caller ≡ a → 2 ≤ caller_uses a ts
  unfolding caller_uses
  caller_uses-two p q =
      count_if-ge-two _ ts i j t u ne e (rw (h, p) (eq_refl a)) f (rw (k, q) (eq_refl a))

  callee_uses-two : t.callee ≡ a → u.callee ≡ a → 2 ≤ callee_uses a ts
  unfolding callee_uses
  callee_uses-two p q =
      count_if-ge-two _ ts i j t u ne e (rw (h, p) (eq_refl a)) f (rw (k, q) (eq_refl a))

module _ (a : Aor) (ts : List Task) (i : ℕ) {t : Task} (e : get_elem? ts i ≡ some t)
    (h : holds t.stage ≡ true) where
  caller_uses-one : t.caller ≡ a → 1 ≤ caller_uses a ts
  unfolding caller_uses
  caller_uses-one p = count_if-ge-one _ ts i t e (rw (h, p) (eq_refl a))

  callee_uses-one : t.callee ≡ a → 1 ≤ callee_uses a ts
  unfolding callee_uses
  callee_uses-one p = count_if-ge-one _ ts i t e (rw (h, p) (eq_refl a))

pub apart_of_booked :
    (ps : Pools) (ts : List Task) (i j : ℕ) {t u : Task}
    → IsKeyed ps
    → IsBooked ps ts
    → i ≢ j
    → get_elem? ts i ≡ some t
    → get_elem? ts j ≡ some u
    → holds t.stage ≡ true
    → holds u.stage ≡ true
    → AreApart ps t u
apart_of_booked (shared p) ts i j {t} {u} keyed b ne e f h k = (
  λ s. omega (arith, keyed u.caller, b u.caller, caller_uses-two u.caller ts i j ne e f h k s refl),
  λ s. omega (arith, keyed u.callee, b u.callee, callee_uses-two u.callee ts i j ne e f h k s refl),
  λ s. omega (
    arith,
    keyed u.callee,
    b u.callee,
    caller_uses-one u.callee ts i e h s,
    callee_uses-one u.callee ts j f k refl,
  ),
  λ s. omega (
    arith,
    keyed u.caller,
    b u.caller,
    callee_uses-one u.caller ts i e h s,
    caller_uses-one u.caller ts j f k refl,
  ),
)
apart_of_booked (split p q) ts i j {t} {u} keyed b ne e f h k = (
  λ s.
      omega
        (arith, keyed.0 u.caller, b.0 u.caller, caller_uses-two u.caller ts i j ne e f h k s refl),
  λ s.
      omega
        (arith, keyed.1 u.callee, b.1 u.callee, callee_uses-two u.callee ts i j ne e f h k s refl),
)

-- In every state that a session which satisfies the invariant can reach, two different goroutines
-- that have not released their extensions share none of one pool: not as caller and caller, not as
-- callee and callee, and on a shared pool not across the sides.
pub no_double_booking :
    {s s' : Session} (i j : ℕ) {t u : Task}
    → Inv s
    → Reach s s'
    → i ≢ j
    → get_elem? s'.tasks i ≡ some t
    → get_elem? s'.tasks j ≡ some u
    → holds t.stage ≡ true
    → holds u.stage ≡ true
    → AreApart s'.pools t u
no_double_booking {s' = s'} i j inv r ne e f h k =
    let inv' = Reach-Inv r inv in
    apart_of_booked s'.pools s'.tasks i j inv'.keyed inv'.booked ne e f h k

-- A call never dials its own extension on a shared pool.
pub caller-ne-callee :
    {s s' : Session} (i : ℕ) {t : Task} {p : Pool}
    → Inv s
    → Reach s s'
    → s'.pools ≡ shared p
    → get_elem? s'.tasks i ≡ some t
    → holds t.stage ≡ true
    → t.caller ≢ t.callee
caller-ne-callee {s' = s'} i {t} {p} inv r q e h d =
    let inv' = Reach-Inv r inv in
    let keyed : IsKeyed (shared p) = rw q at inv'.keyed in
    let b : IsBooked (shared p) s'.tasks = rw q at inv'.booked in
    omega (
      arith,
      keyed t.callee,
      b t.callee,
      caller_uses-one t.callee s'.tasks i e h d,
      callee_uses-one t.callee s'.tasks i e h refl,
    )

-- Whether the goroutine has ended.
abbrev pub is_done : Stage → Bool
is_done never_dialed = true
is_done (finished r) = true
is_done _ = false

abbrev pub AllDone : List Task → Type 0
AllDone ts = All (λ (t : Task). is_done t.stage ≡ true) ts

abbrev pub AllFree : Pools → Type 0
AllFree (shared p) = (a : Aor) → ind (p.available a) ≡ times a p.phones
AllFree (split p q) =
    ((a : Aor) → ind (p.available a) ≡ times a p.phones)
    × ((a : Aor) → ind (q.available a) ≡ times a q.phones)

-- A test that fails for a goroutine that has ended counts nothing once all have.
unused :
    (p : Task → Bool) (ts : List Task)
    → ((t : Task) → is_done t.stage ≡ true → p t ≡ false)
    → AllDone ts
    → count_if p ts ≡ 0
unused p ts none_done d = count_if-none p ts (each ts d)
  where
    each : (us : List Task) → AllDone us → All (λ (t : Task). p t ≡ false) us
    each [] h = tt
    each (t ∷ us) h = (none_done t h.0, each us h.1)

done-not-holds : (st : Stage) (b : Bool) → is_done st ≡ true → (holds st && b) ≡ false
done-not-holds never_dialed b h = refl
done-not-holds st b h = ground arith

done-not-listed : (st : Stage) (b : Bool) → is_done st ≡ true → (is_listed st && b) ≡ false
done-not-listed never_dialed b h = refl
done-not-listed st b h = ground arith

done-not-open : (st : Stage) → is_done st ≡ true → is_open st ≡ false
done-not-open never_dialed h = refl
done-not-open st h = ground arith

no_entries→nil : (cs : List ActiveCall) → ((id : ℕ) → entries id cs ≡ 0) → cs ≡ []
unfolding entries count_if
no_entries→nil [] h = refl
no_entries→nil (c ∷ cs) h = absurd (ground (arith, h c.id))

module _ (ts : List Task) (d : AllDone ts) where
  caller_uses-done : (a : Aor) → caller_uses a ts ≡ 0
  unfolding caller_uses
  caller_uses-done a = unused _ ts (λ t. done-not-holds t.stage (t.caller ==s a)) d

  callee_uses-done : (a : Aor) → callee_uses a ts ≡ 0
  unfolding callee_uses
  callee_uses-done a = unused _ ts (λ t. done-not-holds t.stage (t.callee ==s a)) d

  in_call-done : (id : ℕ) → in_call id ts ≡ 0
  unfolding in_call
  in_call-done id = unused _ ts (λ t. done-not-listed t.stage (t.call_id == id)) d

  open_calls-done : open_calls ts ≡ 0
  unfolding open_calls
  open_calls-done = unused _ ts (λ t. done-not-open t.stage) d

  IsBooked-done : (ps : Pools) → IsBooked ps ts → AllFree ps
  IsBooked-done (shared p) b = λ a. omega (arith, b a, caller_uses-done a, callee_uses-done a)
  IsBooked-done (split p q) b =
      (λ a. omega (arith, b.0 a, caller_uses-done a), λ a. omega (arith, b.1 a, callee_uses-done a))

-- Once every goroutine has ended, every extension is free, no call is listed, and every call that
-- was started is counted as exactly one of answered, failed or cancelled.
pub all_settled :
    {s s' : Session}
    → Inv s
    → Reach s s'
    → AllDone s'.tasks
    → AllFree s'.pools
      × (s'.calls ≡ [])
      × (s'.counters.started ≡ s'.counters.answered + s'.counters.failed + s'.counters.cancelled)
all_settled {s' = s'} inv r d =
    let inv' = Reach-Inv r inv in
    (
      IsBooked-done s'.tasks d s'.pools inv'.booked,
      no_entries→nil s'.calls (λ id. inv'.listed id ∙ in_call-done s'.tasks d id),
      omega (arith, inv'.tallied, open_calls-done s'.tasks d),
    )
