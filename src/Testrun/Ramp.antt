-- ===== src/Testrun/Ramp.antt =====
-- `runRamp` of internal/testrun/runner.go: a ramp test from its first call to its stop reason. Every
-- round of the loop sleeps and takes a sample; what each round meets is a list, and a run that the
-- list does not end is none. Times are seconds.
use swarmdialer.Prelude.{
  ℕ, zero, suc, ◌+◌, ◌-◌, ◌*◌, ◌/◌, ◌≤◌, ◌<◌, ◌≡◌, ◌≢◌, ◌↔◌, refl, sym, ◌∙◌, ap, Bool, true, false,
  ◌&&◌, ◌||◌, Option, none, some, List, [], ◌∷◌, ◌++◌, arith, subst, leb, ltb, ◌==◌, if◌then◌else◌,
  length, All, Bool-cases, Option-cases, inl, inr, ◌⊎◌,
}
use swarmdialer.Testrun.Samples.{
  StopReason, target_reached, target_not_reached, cancelled, error, StopDetail, no_detail,
  no_free_extensions, every_call_ended, ran_at_once,
}
pub mod Ends

-- A round: whether the sleep was cut by a cancel, the sample's stop reason, its numbers, and the clock
-- after it.
pub record Round : Type 0 where
  pub is_cancelled : Bool
  pub stop : Option (StopReason × StopDetail)
  pub calls : ℕ
  pub answered : ℕ
  pub failed : ℕ
  pub now : ℕ

pub record RampEnd : Type 0 where
  pub reason : StopReason
  pub detail : StopDetail

-- What the loop is given: the target and the hold of the test, how many calls were started, and how
-- many were over before them.
pub record RampPlan : Type 0 where
  pub target : ℕ
  pub hold : ℕ
  pub started : ℕ
  pub done_before : ℕ

-- Every call has been dialed.
abbrev pub is_dispatched : RampPlan → Round → Bool
is_dispatched p r = leb (p.done_before + p.started) (r.answered + r.failed)

-- `holdUntil` after the round's first test.
unfoldable pub next_hold : RampPlan → Option ℕ → Round → Option ℕ
next_hold p (some until) r = some until
next_hold p none r =
    if leb p.target r.calls || (is_dispatched p r && ltb 0 r.calls)
    then some (r.now + p.hold)
    else none

abbrev pub is_past : Option ℕ → ℕ → Bool
is_past none now = false
is_past (some until) now = ltb until now

-- The end of a round, if the test goes no further; `most` is MaxConcurrent.
unfoldable pub round_end : RampPlan → Option ℕ → ℕ → Round → Option RampEnd
round_end p hold_until most r =
    if is_past hold_until r.now
    then (if leb p.target r.calls
        then some (record { reason = target_reached; detail = no_detail })
        else some (record { reason = target_not_reached; detail = ran_at_once most p.target }))
    else (if is_dispatched p r && (r.calls == 0)
        then some (record { reason = target_not_reached; detail = every_call_ended })
        else none)

abbrev pub peak : ℕ → ℕ → ℕ
peak most calls = if ltb most calls then calls else most

-- What ends a round first: a cancel, the sample's stop condition, or the round's own tests.
unfoldable pub first_end : Bool → Option (StopReason × StopDetail) → Option RampEnd → Option RampEnd
first_end true stop own = some (record { reason = cancelled; detail = no_detail })
first_end false (some (reason, detail)) own = some (record { reason = reason; detail = detail })
first_end false none own = own

unfoldable pub ramp_loop : RampPlan → Option ℕ → ℕ → List Round → Option RampEnd
unfolding next_hold round_end first_end
ramp_loop p hold_until most [] = none
ramp_loop p hold_until most (r ∷ rounds) =
    let hold' = next_hold p hold_until r in
    let most' = peak most r.calls in
    let rest = ramp_loop p hold' most' rounds in
    elim (first_end r.is_cancelled r.stop (round_end p hold' most' r)) [
      | some e ↦ some e
      | none ↦ rest
    ]

unfoldable pub run_ramp : RampPlan → ℕ → List Round → Option RampEnd
unfolding ramp_loop
run_ramp p most rounds =
    if p.started == 0
    then some (record { reason = error; detail = no_free_extensions })
    else ramp_loop p none most rounds
