-- ===== src/Session/Preferred.antt =====
-- The codec that an answering phone was told to prefer stays that of the call it is booked for.
use swarmdialer.Prelude.{
  ℕ, zero, suc, ◌==s◌, ◌≡◌, ◌≢◌, refl, sym, ◌∙◌, ap, ◌⊎◌, inl, inr, Bool, true, false, some, List,
  [], ◌∷◌, ◌++◌, map, arith, eq_iff, eq_refl, if◌then◌else◌, get_elem?, set_elim,
}
use swarmdialer.Session.Pool.{Aor, Pools, shared, split, reserve_pairs}
use swarmdialer.Session.State.{Codec, Stage, RtpCounts, Task, Session, waiting}
use swarmdialer.Session.Calls.{Choice, timer, advance, store, stop, cancel_ctx, add_calls, new_task}
use swarmdialer.Session.Effects.{Ensures, holds}
use swarmdialer.Session.Invariant.{Inv, step_task_cases, Ensures-at}
use swarmdialer.Session.Reach.{Step, Reach, here, next, added, acted, stopped, ended, Reach-Inv}
use swarmdialer.Session.Guarantees.{AreApart, apart_of_booked}

-- Whether the goroutine has set its callee's codec and still holds the callee.
abbrev pub has_dialed : Stage → Bool
has_dialed waiting = false
has_dialed stage = holds stage

abbrev pub IsPreferred : Session → Type 0
IsPreferred s =
    (i : ℕ) (t : Task)
    → get_elem? s.tasks i ≡ some t
    → has_dialed t.stage ≡ true
    → s.preferred t.callee ≡ t.callee_codec

dialed-holds : (stage : Stage) → has_dialed stage ≡ true → holds stage ≡ true
dialed-holds waiting h = refl
dialed-holds stage h = h

-- An action leaves every phone's codec, or it is the first action of a call, which sets its callee's.
abbrev Choosing : Stage → Task → Session → Task → Session → Type 0
Choosing stage t s t' s' =
    (t'.callee ≡ t.callee)
    × (t'.callee_codec ≡ t.callee_codec)
    × (s'.tasks ≡ s.tasks)
    × (((has_dialed t'.stage ≡ true → has_dialed stage ≡ true)
          × ((a : Aor) → s'.preferred a ≡ s.preferred a))
        ⊎ ((holds stage ≡ true)
            × ((a : Aor)
                → s'.preferred a ≡ (if t.callee ==s a then t.callee_codec else s.preferred a))))

advance-Choosing :
    (stage : Stage) (choice : Choice) (now : ℕ) (rtp : RtpCounts) (t : Task) (s : Session)
    → Ensures (Choosing stage t s) (advance stage choice now rtp t s)
unfolding advance
advance-Choosing waiting timer now rtp t s = (refl, refl, refl, inr (refl, λ a. refl))
advance-Choosing waiting choice now rtp t s = ground arith
advance-Choosing stage choice now rtp t s = ground arith

apart-callees : (ps : Pools) (t u : Task) → AreApart ps t u → t.callee ≢ u.callee
apart-callees (shared p) t u h = h.1
apart-callees (split p q) t u h = h.1

step-IsPreferred :
    (s u : Session) (i : ℕ) (t t' : Task)
    → Inv s
    → get_elem? s.tasks i ≡ some t
    → Choosing t.stage t s t' u
    → IsPreferred s
    → IsPreferred (store i (t', u))
step-IsPreferred s u i t t' inv e (c, d, same, inl (k, pref)) h = rw same (
    set_elim (λ j x. has_dialed x.stage ≡ true → u.preferred x.callee ≡ x.callee_codec) s.tasks i t
      t' e (λ p. pref t'.callee ∙ ap s.preferred c ∙ h i t e (k p) ∙ sym d)
      (λ j x n f p. pref x.callee ∙ h j x f p))
step-IsPreferred s u i t t' inv e (c, d, same, inr (k, pref)) h = rw same (
    set_elim (λ j x. has_dialed x.stage ≡ true → u.preferred x.callee ≡ x.callee_codec) s.tasks i t
      t' e (λ p. pref t'.callee ∙ (rw (c, eq_refl t.callee) (sym d)))
      (λ j x n f p.
        let apart = apart-callees s.pools t x (
          apart_of_booked s.pools s.tasks i j inv.keyed inv.booked n e f k
            (dialed-holds x.stage p)) in
        pref x.callee ∙ ground (arith, eq_iff t.callee x.callee, h j x f p, apart)))

fresh-IsPreferred :
    (s : Session) (batch gen : ℕ) (media : Bool) (c d : Codec) (pairs : List (Aor × Aor))
    (ts : List Task)
    → ((i : ℕ) (t : Task)
        → get_elem? ts i ≡ some t
        → has_dialed t.stage ≡ true
        → s.preferred t.callee ≡ t.callee_codec)
    → (i : ℕ) (t : Task) → get_elem? (ts ++ map (new_task batch gen media c d) pairs) i ≡ some t
    → has_dialed t.stage ≡ true
    → s.preferred t.callee ≡ t.callee_codec
unfolding new_task
fresh-IsPreferred s batch gen media c d [] [] h i t e p = cc
fresh-IsPreferred s batch gen media c d (q ∷ pairs) [] h zero t e p = ground arith
fresh-IsPreferred s batch gen media c d (q ∷ pairs) [] h (suc i) t e p =
    fresh-IsPreferred s batch gen media c d pairs [] h i t e p
fresh-IsPreferred s batch gen media c d pairs (x ∷ ts) h zero t e p = h 0 t e p
fresh-IsPreferred s batch gen media c d pairs (x ∷ ts) h (suc i) t e p =
    fresh-IsPreferred s batch gen media c d pairs ts (λ j. h (suc j)) i t e p

Step-IsPreferred : {s t : Session} → Step s t → Inv s → IsPreferred s → IsPreferred t
Step-IsPreferred (added s r oc oe) inv h =
    unfold add_calls in
    fresh-IsPreferred s r.batch s.stop_gen r.send_media r.codec r.callee_codec
      (reserve_pairs r.n r.callers r.callees s.pools).0 s.tasks h
Step-IsPreferred (acted s s' i choice now rtp step) inv h =
    let (t, t', u, e, ready, act, same) = step_task_cases i choice now rtp s s' step in
    rw same (
      step-IsPreferred s u i t t' inv e
        (Ensures-at (Choosing t.stage t s) _ t' u (advance-Choosing t.stage choice now rtp t s) act)
        h)
Step-IsPreferred (stopped s) inv h = unfold stop in h
Step-IsPreferred (ended s) inv h = unfold cancel_ctx in h

-- From its first action until it releases its extensions, a call's answering phone has the callee
-- codec of that call: no other call, of any batch, changes it meanwhile.
pub Reach-IsPreferred : {s s' : Session} → Reach s s' → Inv s → IsPreferred s → IsPreferred s'
Reach-IsPreferred here inv h = h
Reach-IsPreferred (next r st) inv h =
    Step-IsPreferred st (Reach-Inv r inv) (Reach-IsPreferred r inv h)
