-- ===== src/Testrun/Ramp/Ends.antt =====
-- A ramp test ends, and what it means that it has reached its target.
use swarmdialer.Prelude.{
  ℕ, ◌+◌, ◌*◌, ◌≤◌, ◌<◌, ◌≡◌, ◌≢◌, refl, sym, ◌∙◌, ap, Bool, true, false, ◌&&◌, ◌||◌, Option, none,
  some, List, [], ◌∷◌, ◌++◌, arith, subst, leb, ltb, ◌==◌, length, All, Bool-cases, Option-cases,
  inl, inr, ◌⊎◌,
}
use swarmdialer.Testrun.Samples.{StopReason, target_reached, error, StopDetail, no_free_extensions}
use swarmdialer.Testrun.Ramp.{
  Round, RampEnd, RampPlan, is_dispatched, next_hold, is_past, round_end, peak, first_end,
  ramp_loop, run_ramp,
}

-- Each round's clock is at least five seconds after the one before.
abbrev pub Ticking : ℕ → List Round → Type 0
Ticking now [] = Unit
Ticking now (r ∷ rs) = (now + 5 ≤ r.now) × Ticking r.now rs

first_end-own :
    (c : Bool) (stop : Option (StopReason × StopDetail)) (own : Option RampEnd)
    → first_end c stop own ≡ none
    → own ≡ none
unfolding first_end
first_end-own true stop own h = ground arith
first_end-own false (some x) own h = ground arith
first_end-own false none own h = h

module _ (p : RampPlan) (hold_until : Option ℕ) (most : ℕ) (r : Round) (rounds : List Round) where
  own_end : Option RampEnd
  own_end = round_end p (next_hold p hold_until r) (peak most r.calls) r

  loop-ended :
      {e : RampEnd}
      → first_end r.is_cancelled r.stop own_end ≡ some e
      → ramp_loop p hold_until most (r ∷ rounds) ≡ some e
  unfolding own_end ramp_loop
  loop-ended q = rw (q, ramp_loop) refl

  loop-on :
      first_end r.is_cancelled r.stop own_end ≡ none
      → ramp_loop p hold_until most (r ∷ rounds)
        ≡ ramp_loop p (next_hold p hold_until r) (peak most r.calls) rounds
  unfolding own_end ramp_loop
  loop-on q = rw (q, ramp_loop) refl

  -- A round ends the test, or the loop goes on with what the round left.
  loop_cases :
      ((e : RampEnd) × (ramp_loop p hold_until most (r ∷ rounds) ≡ some e))
      ⊎ ((round_end p (next_hold p hold_until r) (peak most r.calls) r ≡ none)
          × (ramp_loop p hold_until most (r ∷ rounds)
              ≡ ramp_loop p (next_hold p hold_until r) (peak most r.calls) rounds))
  unfolding own_end
  loop_cases = elim (Option-cases (first_end r.is_cancelled r.stop own_end)) [
    | inr (e, q) ↦ inl (e, loop-ended q)
    | inl q ↦ inr (first_end-own r.is_cancelled r.stop own_end q, loop-on q)
  ]

past-ends :
    (p : RampPlan) (until most : ℕ) (r : Round)
    → round_end p (some until) most r ≡ none
    → r.now ≤ until
unfolding round_end
past-ends p until most r h = ground arith

-- A hold that is on ends within a round for every five seconds of it and one more.
hold_ends :
    (p : RampPlan) (until most now : ℕ) (rounds : List Round)
    → Ticking now rounds
    → until < now + 5 * length rounds
    → now ≤ until
    → (e : RampEnd) × (ramp_loop p (some until) most rounds ≡ some e)
unfolding next_hold
hold_ends p until most now [] t h b = absurd (omega arith)
hold_ends p until most now (r ∷ rounds) t h b = elim (loop_cases p (some until) most r rounds) [
  | inl e ↦ e
  | inr (q, step) ↦
      let late = past-ends p until (peak most r.calls) r q in
      let (e, k) = hold_ends p until (peak most r.calls) r.now rounds t.1 (omega arith) late in
      (e, step ∙ k)
]

-- A round after which the loop goes on, once every call has been dialed, has a hold that is on.
dispatched-holds :
    (p : RampPlan) (hold_until : Option ℕ) (most : ℕ) (r : Round)
    → is_dispatched p r ≡ true
    → round_end p (next_hold p hold_until r) most r ≡ none
    → (until : ℕ) × (next_hold p hold_until r ≡ some until) × (r.now ≤ until)
unfolding next_hold round_end
dispatched-holds p (some until) most r d h =
    (until, refl, past-ends p until most r (unfold round_end in h))
dispatched-holds p none most r d h = (r.now + p.hold, ground arith, omega arith)

-- A hold that is on ends no later than the test's hold from now.
abbrev Within : RampPlan → ℕ → Option ℕ → Type 0
Within p now none = Unit
Within p now (some until) = until ≤ now + p.hold

next_hold-Within :
    (p : RampPlan) (now : ℕ) (hold_until : Option ℕ) (r : Round)
    → now ≤ r.now
    → Within p now hold_until
    → Within p r.now (next_hold p hold_until r)
unfolding next_hold
next_hold-Within p now (some until) r t w = omega arith
next_hold-Within p now none r t w =
    elim (Bool-cases (leb p.target r.calls || (is_dispatched p r && ltb 0 r.calls))) [
      | inl e ↦ rw e (omega arith)
      | inr e ↦ rw e tt
    ]

ramp_loop-ends :
    (p : RampPlan) (before : List Round) (r : Round) (after : List Round) (hold_until : Option ℕ)
    (most now : ℕ)
    → Ticking now (before ++ r ∷ after)
    → Within p now hold_until
    → is_dispatched p r ≡ true
    → p.hold < 5 * length after
    → (e : RampEnd) × (ramp_loop p hold_until most (before ++ r ∷ after) ≡ some e)
ramp_loop-ends p [] r after hold_until most now t w d h =
    elim (loop_cases p hold_until most r after) [
      | inl e ↦ e
      | inr (q, step) ↦
          let (until, on, late) = dispatched-holds p hold_until (peak most r.calls) r d q in
          let w' : until ≤ r.now + p.hold =
            subst (Within p r.now) on
              (next_hold-Within p now hold_until r (omega (arith, t.0)) w) in
          let (e, k) = hold_ends p until (peak most r.calls) r.now after t.1 (omega arith) late in
          (e, step ∙ ap (λ u. ramp_loop p u (peak most r.calls) after) on ∙ k)
    ]
ramp_loop-ends p (b ∷ before) r after hold_until most now t w d h =
    elim (loop_cases p hold_until most b (before ++ r ∷ after)) [
      | inl e ↦ e
      | inr (q, step) ↦
          let (e, k) =
            ramp_loop-ends p before r after (next_hold p hold_until b) (peak most b.calls) b.now t.1
              (next_hold-Within p now hold_until b (omega (arith, t.0)) w) d h in
          (e, step ∙ k)
    ]

-- A ramp test comes to an end: once every call it started has been dialed, it takes at most a round
-- for every five seconds of the hold and one more, whatever its calls do in the meantime. (The rounds
-- are at least five seconds apart.)
pub run_ramp-ends :
    (p : RampPlan) (before : List Round) (r : Round) (after : List Round) (most now : ℕ)
    → Ticking now (before ++ r ∷ after)
    → is_dispatched p r ≡ true
    → p.hold < 5 * length after
    → (e : RampEnd) × (run_ramp p most (before ++ r ∷ after) ≡ some e)
unfolding run_ramp
run_ramp-ends p before r after most now t d h = elim (Bool-cases (p.started == 0)) [
  | inl e ↦ rw e (record { reason = error; detail = no_free_extensions }, refl)
  | inr e ↦ rw e (ramp_loop-ends p before r after none most now t tt d h)
]

-- Some round has the target's calls at once after a hold that lasted as long as it was to.
abbrev pub ReachedIn : RampPlan → Option ℕ → List Round → Type 0
ReachedIn p hold_until [] = ⊥
ReachedIn p hold_until (r ∷ rounds) =
    ((is_past (next_hold p hold_until r) r.now ≡ true) × (p.target ≤ r.calls))
    ⊎ ReachedIn p (next_hold p hold_until r) rounds

round_end-reached :
    (p : RampPlan) (hold : Option ℕ) (most : ℕ) (r : Round) (e : RampEnd)
    → round_end p hold most r ≡ some e
    → e.reason ≡ target_reached
    → (is_past hold r.now ≡ true) × (p.target ≤ r.calls)
unfolding round_end
round_end-reached p hold most r e h k = ground (arith, ap (λ o. o) h)

first_end-reached :
    (c : Bool) (stop : Option (StopReason × StopDetail)) (own : Option RampEnd) (e : RampEnd)
    → (stop ≢ some (target_reached, e.detail))
    → first_end c stop own ≡ some e
    → e.reason ≡ target_reached
    → own ≡ some e
unfolding first_end
first_end-reached true stop own e n h k = ground arith
first_end-reached false (some x) own e n h k = absurd (n (ground arith))
first_end-reached false none own e n h k = h

-- A ramp test is reported to have reached its target only if, in some round, the target's calls ran at
-- once after the whole hold. (The stop conditions of a sample are other reasons.)
pub target_reached-ReachedIn :
    (p : RampPlan) (hold_until : Option ℕ) (most : ℕ) (rounds : List Round) (e : RampEnd)
    → All (λ (r : Round). r.stop ≢ some (target_reached, e.detail)) rounds
    → ramp_loop p hold_until most rounds ≡ some e
    → e.reason ≡ target_reached
    → ReachedIn p hold_until rounds
unfolding own_end ramp_loop
target_reached-ReachedIn p hold_until most [] e n h k = absurd (ground arith)
target_reached-ReachedIn p hold_until most (r ∷ rounds) e n h k =
    elim (Option-cases (first_end r.is_cancelled r.stop (own_end p hold_until most r rounds))) [
      | inr (x, q) ↦
          let q' = q ∙ sym (loop-ended p hold_until most r rounds q) ∙ h in
          inl (
            round_end-reached p (next_hold p hold_until r) (peak most r.calls) r e
              (first_end-reached r.is_cancelled r.stop _ e n.0 q' k) k)
      | inl q ↦ inr (
          target_reached-ReachedIn p (next_hold p hold_until r) (peak most r.calls) rounds e n.1
            (sym (loop-on p hold_until most r rounds q) ∙ h) k)
    ]
