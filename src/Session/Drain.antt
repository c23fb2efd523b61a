-- ===== src/Session/Drain.antt =====
-- internal/orchestrator/session.go: what `Stop` leaves the goroutines of the batches before it to do.
use swarmdialer.Prelude.{
  some-inj, ℕ, zero, suc, ◌+◌, ◌≤◌, ◌<◌, ltb, ◌==◌, lt→ltb, Bool-cases, inl, inr, ◌⊎◌, ◌≡◌, refl,
  Bool, true, false, none, some, List, [], ◌∷◌, ◌++◌, arith, get_elem?, get_elem?-set_self,
  get_elem?-set_ne, count_if, count_if-append, count_if-set, count_if-ge-one, map, ltb→ge, ◌∙◌, ap,
  sym, ind,
}
use swarmdialer.Session.Pool.{Aor, reserve_pairs}
use swarmdialer.Session.State.{
  RtpCounts, Stage, waiting, cancelled, dialing, dial_failed, failure_noted, failure_counted,
  answer_counted, answer_logged, talking, hung_up, end_noted, sent_counted, recv_counted,
  end_logged, unlisted, never_dialed, finished, Task, Session, Codec,
}
use swarmdialer.Session.Calls.{
  Choice, stop_closed, dial_error, proceed, advance, step_task, is_ready, store, stop, cancel_ctx,
  add_calls, new_task,
}
use swarmdialer.Session.Invariant.{step_task_cases, Ensures-at}
use swarmdialer.Session.Reach.{Step, Reach, here, next, added, acted, stopped, ended}
use swarmdialer.Session.Effects.{Ensures}
use swarmdialer.Session.Guarantees.{is_done}

-- What a goroutine can do next once its stop channel is closed, if Dial returns an error where it is in
-- Dial.
abbrev pub winding_down : Stage → Choice
winding_down waiting = stop_closed
winding_down talking = stop_closed
winding_down dialing = dial_error none
winding_down _ = proceed

-- How many actions a goroutine has left at most.
abbrev pub actions_left : Stage → ℕ
actions_left waiting = 11
actions_left cancelled = 1
actions_left dialing = 10
actions_left (dial_failed c k) = 3
actions_left (failure_noted c k) = 2
actions_left (failure_counted c k) = 1
actions_left answer_counted = 9
actions_left answer_logged = 8
actions_left talking = 7
actions_left (hung_up d c) = 6
actions_left (end_noted d c) = 5
actions_left (sent_counted d c) = 4
actions_left (recv_counted d c) = 3
actions_left (end_logged d c) = 2
actions_left (unlisted d c) = 1
actions_left _ = 0

eleven_suffice : (stage : Stage) → actions_left stage ≤ 11
eleven_suffice waiting = omega arith
eleven_suffice stage = omega arith

-- Whether a step is one of the goroutine at an index, as a number, and how many of a run's steps are.
unfoldable pub own_action : {s t : Session} → ℕ → Step s t → ℕ
own_action i (acted t u j choice now rtp step) = ind (j == i)
own_action i _ = 0

unfoldable pub own_actions : {s t : Session} → ℕ → Reach s t → ℕ
unfolding own_action
own_actions i here = 0
own_actions i (next r step) = own_actions i r + own_action i step

-- Whichever action a goroutine takes, it has fewer left afterwards, and its channel stays.
abbrev Closer : Stage → Task → Session → Task → Session → Type 0
Closer stage t s t' s' =
    (actions_left t'.stage < actions_left stage)
    × (s'.tasks ≡ s.tasks)
    × (t'.stop_ch ≡ t.stop_ch)
    × (s'.stop_gen ≡ s.stop_gen)

advance-Closer :
    (stage : Stage) (choice : Choice) (now : ℕ) (rtp : RtpCounts) (t : Task) (s : Session)
    → Ensures (Closer stage t s) (advance stage choice now rtp t s)
unfolding advance
advance-Closer waiting choice now rtp t s = ground arith
advance-Closer stage choice now rtp t s = ground arith

-- A goroutine that has not ended can act.
winding_advance :
    (stage : Stage) (now : ℕ) (rtp : RtpCounts) (t : Task) (s : Session)
    → is_done stage ≡ false
    → (t' : Task) × (s' : Session) × (advance stage (winding_down stage) now rtp t s
        ≡ some (t', s'))
unfolding advance
winding_advance waiting now rtp t s h = (_, _, refl)
winding_advance never_dialed now rtp t s h = cc
winding_advance (finished r) now rtp t s h = cc
winding_advance stage now rtp t s h = (_, _, refl)

winding-is_ready :
    (stage : Stage) (t : Task) (s : Session)
    → t.stop_ch < s.stop_gen
    → is_ready (winding_down stage) t s ≡ true
unfolding is_ready
winding-is_ready waiting t s h = lt→ltb _ _ h
winding-is_ready talking t s h = lt→ltb _ _ h
winding-is_ready stage t s h = refl

winding_step :
    (i now : ℕ) (rtp : RtpCounts) (s : Session) (t : Task)
    → get_elem? s.tasks i ≡ some t
    → is_done t.stage ≡ false
    → t.stop_ch < s.stop_gen
    → (s' : Session) × (step_task i (winding_down t.stage) now rtp s ≡ some s')
unfolding step_task
winding_step i now rtp s t e d h =
    let (t', u, step) = winding_advance t.stage now rtp t s d in
    (store i (t', u), rw (e, step_task) (rw (winding-is_ready t.stage t s h) (rw step refl)))

get_elem?-append :
    {A : Type 0} (xs ys : List A) (i : ℕ) {x : A}
    → get_elem? xs i ≡ some x
    → get_elem? (xs ++ ys) i ≡ some x
get_elem?-append [] ys i h = cc
get_elem?-append (z ∷ xs) ys zero h = h
get_elem?-append (z ∷ xs) ys (suc i) h = get_elem?-append xs ys i h

-- The goroutine at an index after a step or a run in which it took so many actions of its own.
abbrev Remains : ℕ → ℕ → Session → Task → Session → Type 0
Remains i own s t u =
    (t' : Task) × (get_elem? u.tasks i ≡ some t')
    × (own + actions_left t'.stage ≤ actions_left t.stage)
    × (t'.stop_ch ≡ t.stop_ch)
    × (s.stop_gen ≤ u.stop_gen)

acted-Remains :
    (i j : ℕ) (t x x' : Task) (s u : Session)
    → get_elem? s.tasks i ≡ some t
    → get_elem? s.tasks j ≡ some x
    → Closer x.stage x s x' u
    → Remains i (ind (j == i)) s t (store j (x', u))
acted-Remains i j t x x' s u e ex (less, tasks, ch, gen) = elim (Bool-cases (j == i)) [
  | inl own ↦
      let same : j ≡ i = ground arith in
      let one : t ≡ x = some-inj (sym e ∙ ap (get_elem? s.tasks) (sym same) ∙ ex) in
      (
        x',
        rw (tasks, sym same) (get_elem?-set_self s.tasks j x x' ex),
        rw own (rw one (omega (arith, less))),
        rw one ch,
        omega (arith, gen),
      )
  | inr other ↦ (
    t,
    rw tasks (get_elem?-set_ne s.tasks j i x' (λ q. ground arith) ∙ e),
    rw other (omega arith),
    refl,
    omega (arith, gen),
  )
]

Step-Remains :
    {s u : Session} (i : ℕ) (t : Task) (step : Step s u)
    → get_elem? s.tasks i ≡ some t
    → Remains i (own_action i step) s t u
unfolding own_action
Step-Remains i t (added s r oc oe) e =
    unfold add_calls in (t, get_elem?-append s.tasks _ i e, omega arith, refl, omega arith)
Step-Remains i t (acted s v j choice now rtp step) e =
    let (x, x', w, ex, ready, act, same) = step_task_cases j choice now rtp s v step in
    let closer =
      Ensures-at (Closer x.stage x s) _ x' w (advance-Closer x.stage choice now rtp x s) act in
    rw same (acted-Remains i j t x x' s w e ex closer)
Step-Remains i t (stopped s) e = unfold stop in (t, e, omega arith, refl, omega arith)
Step-Remains i t (ended s) e = unfold cancel_ctx in (t, e, omega arith, refl, omega arith)

Reach-Remains :
    {s u : Session} (i : ℕ) (t : Task) (r : Reach s u)
    → get_elem? s.tasks i ≡ some t
    → Remains i (own_actions i r) s t u
unfolding own_actions
Reach-Remains i t here e = (t, e, omega arith, refl, omega arith)
Reach-Remains i t (next r step) e =
    let (x, at, left, ch, gen) = Reach-Remains i t r e in
    let (y, at', left', ch', gen') = Step-Remains i x step at in
    (y, at', omega (arith, left, left'), ch' ∙ ch, omega (arith, gen, gen'))

-- Goroutines with a stop channel that does not exist yet.
unfoldable pub ahead : Session → ℕ
ahead s = count_if (λ t. ltb s.stop_gen t.stop_ch) s.tasks

new-ahead :
    (batch gen : ℕ) (media : Bool) (c d : Codec) (pairs : List (Aor × Aor))
    → count_if (λ t. ltb gen t.stop_ch) (map (new_task batch gen media c d) pairs) ≡ 0
unfolding count_if new_task
new-ahead batch gen media c d [] = refl
new-ahead batch gen media c d (p ∷ pairs) = ground (arith, new-ahead batch gen media c d pairs)

later-ahead :
    (gen : ℕ) (ts : List Task)
    → count_if (λ (t : Task). ltb (suc gen) t.stop_ch) ts
      ≤ count_if (λ (t : Task). ltb gen t.stop_ch) ts
unfolding count_if
later-ahead gen [] = omega arith
later-ahead gen (t ∷ ts) = ground (arith, later-ahead gen ts)

Step-ahead : {s t : Session} → Step s t → ahead s ≡ 0 → ahead t ≡ 0
unfolding ahead
Step-ahead (added s r oc oe) h =
    unfold add_calls in
    omega (
      arith,
      count_if-append (λ (t : Task). ltb s.stop_gen t.stop_ch) s.tasks
          (map (new_task r.batch s.stop_gen r.send_media r.codec r.callee_codec)
            (reserve_pairs r.n r.callers r.callees s.pools).0),
      new-ahead r.batch s.stop_gen r.send_media r.codec r.callee_codec
          (reserve_pairs r.n r.callers r.callees s.pools).0,
    )
Step-ahead (acted s s' i choice now rtp step) h =
    let (t, t', u, e, ready, act, same) = step_task_cases i choice now rtp s s' step in
    let (left, tasks, ch, gen) =
      Ensures-at (Closer t.stage t s) _ t' u (advance-Closer t.stage choice now rtp t s) act in
    rw (same, gen, tasks)
      (ground (arith, count_if-set (λ (x : Task). ltb s.stop_gen x.stop_ch) s.tasks i t t' e))
Step-ahead (stopped s) h = unfold stop in omega (arith, later-ahead s.stop_gen s.tasks)
Step-ahead (ended s) h = unfold cancel_ctx in h

Reach-ahead : {s t : Session} → Reach s t → ahead s ≡ 0 → ahead t ≡ 0
Reach-ahead here h = h
Reach-ahead (next r st) h = Step-ahead st (Reach-ahead r h)

behind :
    (s : Session) (i : ℕ) (t : Task)
    → ahead s ≡ 0
    → get_elem? s.tasks i ≡ some t
    → t.stop_ch ≤ s.stop_gen
unfolding ahead
behind s i t h e = elim (Bool-cases (ltb s.stop_gen t.stop_ch)) [
  | inl late ↦
      absurd
        (omega (arith, count_if-ge-one (λ (x : Task). ltb s.stop_gen x.stop_ch) s.tasks i t e late))
  | inr fine ↦ ltb→ge _ _ fine
]

-- However the session goes on after a `Stop` in a state that is reached from one in which no goroutine
-- has a stop channel that does not exist yet (as in a new session, which has no goroutine):
-- every goroutine that was there at the `Stop` takes at most eleven steps of its own, and has ended, or
-- can take its next step at once, but for one that is in Dial, which can once Dial returns an error.
pub stop_ends_calls :
    {s s' u : Session} (i now : ℕ) (rtp : RtpCounts) {t : Task}
    → ahead s ≡ 0
    → Reach s s'
    → get_elem? s'.tasks i ≡ some t
    → (after : Reach (stop s') u)
    → (own_actions i after ≤ 11)
      × ((t' : Task) × (get_elem? u.tasks i ≡ some t')
          × ((is_done t'.stage ≡ true)
              ⊎ ((v : Session) × (step_task i (winding_down t'.stage) now rtp u ≡ some v))))
unfolding stop
stop_ends_calls {s' = s'} {u = u} i now rtp {t} h r e after =
    let current : t.stop_ch ≤ s'.stop_gen = behind s' i t (Reach-ahead r h) e in
    let (t', at, left, ch, gen) = Reach-Remains {s = stop s'} i t after e in
    (
      omega (arith, left, eleven_suffice t.stage),
      (
        t',
        at,
        elim (Bool-cases (is_done t'.stage)) [
          | inl d ↦ inl d
          | inr d ↦ inr (winding_step i now rtp u t' at d (omega (arith, ch, gen, current)))
        ],
      ),
    )
