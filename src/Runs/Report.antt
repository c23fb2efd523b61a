-- ===== src/Runs/Report.antt =====
-- What a run reports is what its goroutines did, whatever their order.
use swarmdialer.Prelude.{
  ℕ, zero, suc, ◌+◌, ◌≤◌, ◌≡◌, refl, Bool, true, false, Option, none, some, List, [], ◌∷◌, arith,
  length, get_elem?, set, count_if, count_if-le-length, inl, inr, Option-cases, subst,
  if◌then◌else◌,
}
use swarmdialer.Runs.{
  pending, dialing, answered, failed, ended, PairState, PairStage, ramping, in_dial, holding, over,
  Signal, its_turn, ctx_done, dial_failed, dial_answered, tick, hold_over, PairResult, answered_in,
  failed_in, Run, pair_step, update_pair, run_step,
}

-- What a pair's state shows of its goroutine.
abbrev pub Shows : PairState → PairStage → Type 0
Shows p ramping = (p.status ≡ pending) × (p.rtp_sent ≡ 0) × (p.rtp_recv ≡ 0)
Shows p in_dial = (p.status ≡ dialing) × (p.rtp_sent ≡ 0) × (p.rtp_recv ≡ 0)
Shows p holding = p.status ≡ answered
Shows p (over r) =
    (p.status ≡ (if r.is_answered then ended else failed))
    × (p.rtp_sent ≡ r.rtp_sent)
    × (p.rtp_recv ≡ r.rtp_recv)

-- Every pair's state shows its own goroutine's.
abbrev pub AllShow : List PairState → List PairStage → Type 0
AllShow [] [] = Unit
AllShow (p ∷ ps) (s ∷ ss) = Shows p s × AllShow ps ss
AllShow _ _ = ⊥

-- What holds of the outcome, if there is one.
abbrev Stepped : PairState → Option (PairStage × (PairState → PairState)) → Type 0
Stepped p none = Unit
Stepped p (some (stage, mutate)) = Shows (mutate p) stage

pair_step-Stepped :
    (p : PairState) (stage : PairStage) (signal : Signal)
    → Shows p stage
    → Stepped p (pair_step stage signal)
unfolding pair_step
pair_step-Stepped p ramping its_turn h = (refl, h.1, h.2)
pair_step-Stepped p ramping (ctx_done e) h = (refl, h.1, h.2)
pair_step-Stepped p ramping signal h = ground arith
pair_step-Stepped p in_dial (dial_failed e) h = (refl, h.1, h.2)
pair_step-Stepped p in_dial dial_answered h = refl
pair_step-Stepped p in_dial signal h = ground arith
pair_step-Stepped p holding (tick sent recv) h = h
pair_step-Stepped p holding (hold_over sent recv) h = (refl, refl, refl)
pair_step-Stepped p holding signal h = ground arith
pair_step-Stepped p (over r) signal h = tt

abbrev OfSome : {A : Type 0} → (A → Type 0) → Option A → Type 0
OfSome P none = Unit
OfSome P (some x) = P x

set-AllShow :
    (ps : List PairState) (ss : List PairStage) (i : ℕ) (p p' : PairState) (s s' : PairStage)
    → get_elem? ps i ≡ some p
    → get_elem? ss i ≡ some s
    → (Shows p s → Shows p' s')
    → AllShow ps ss
    → AllShow (set ps i p') (set ss i s')
set-AllShow [] ss i p p' s s' e f k h = absurd (ground arith)
set-AllShow (q ∷ ps) [] i p p' s s' e f k h = absurd h
set-AllShow (q ∷ ps) (t ∷ ss) zero p p' s s' e f k h =
    (k (subst (OfSome (Shows p)) f (subst (OfSome (λ (x : PairState). Shows x t)) e h.0)), h.1)
set-AllShow (q ∷ ps) (t ∷ ss) (suc i) p p' s s' e f k h =
    (h.0, set-AllShow ps ss i p p' s s' e f k h.1)

abbrev Kept : Option Run → Type 0
Kept none = Unit
Kept (some r) = AllShow r.state.pairs r.stages

run_step-Kept :
    (i : ℕ) (signal : Signal) (r : Run)
    → AllShow r.state.pairs r.stages
    → Kept (run_step i signal r)
unfolding run_step
run_step-Kept i signal r h = elim (Option-cases (get_elem? r.stages i)) [
  | inl e ↦ rw (e, run_step) tt
  | inr (stage, e) ↦ elim (Option-cases (pair_step stage signal)) [
    | inl f ↦ rw (e, f, run_step) tt
    | inr (o, f) ↦ elim (Option-cases (get_elem? r.state.pairs i)) [
      | inl g ↦ rw (e, f, run_step) (rw (g, update_pair) tt)
      | inr (p, g) ↦
          rw (e, f, run_step)
            (rw (g, update_pair)
              (set-AllShow r.state.pairs r.stages i p (o.1 p) stage o.0 g e
                (λ k. subst (Stepped p) f (pair_step-Stepped p stage signal k)) h))
    ]
  ]
]

-- Every action of every goroutine keeps each pair's state in step with its goroutine: the status is
-- that of the goroutine's place, and once it is over, the packets are those of its result.
pub run_step-AllShow :
    (i : ℕ) (signal : Signal) (r r' : Run)
    → run_step i signal r ≡ some r'
    → AllShow r.state.pairs r.stages
    → AllShow r'.state.pairs r'.stages
run_step-AllShow i signal r r' e h = subst Kept e (run_step-Kept i signal r h)

-- The results of goroutines that are over.
unfoldable pub results_of : List PairStage → List PairResult
results_of [] = []
results_of (over r ∷ ss) = r ∷ results_of ss
results_of (_ ∷ ss) = results_of ss

abbrev pub is_ended : PairState → Bool
is_ended p = elim p.status [ ended ↦ true | _ ↦ false ]

abbrev pub is_over : PairStage → Bool
is_over (over r) = true
is_over _ = false

abbrev pub AllOver : List PairStage → Type 0
AllOver [] = Unit
AllOver (s ∷ ss) = (is_over s ≡ true) × AllOver ss

answered_in-le-length : (rs : List PairResult) → answered_in rs ≤ length rs
unfolding answered_in
answered_in-le-length rs = count_if-le-length _ rs

results_lem :
    (ps : List PairState) (ss : List PairStage)
    → AllShow ps ss
    → AllOver ss
    → (answered_in (results_of ss) ≡ count_if is_ended ps) × (length (results_of ss) ≡ length ps)
unfolding answered_in results_of count_if
results_lem [] [] h d = (refl, refl)
results_lem [] (s ∷ ss) h d = absurd h
results_lem (p ∷ ps) [] h d = absurd h
results_lem (p ∷ ps) (over r ∷ ss) h d = ground (arith, results_lem ps ss h.1 d.1)
results_lem (p ∷ ps) (s ∷ ss) h d = absurd (ground arith)

-- Once every goroutine of a run whose states show them is over, the result counts as answered the
-- pairs that are shown as ended, and as failed all the others.
pub results_agree :
    (ps : List PairState) (ss : List PairStage)
    → AllShow ps ss
    → AllOver ss
    → (answered_in (results_of ss) ≡ count_if is_ended ps)
      × (answered_in (results_of ss) + failed_in (results_of ss) ≡ length ps)
unfolding failed_in
results_agree ps ss h d =
    let agreed = results_lem ps ss h d in
    (agreed.0, omega (arith, agreed.1, answered_in-le-length (results_of ss)))
