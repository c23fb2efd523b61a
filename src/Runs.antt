-- ===== src/Runs.antt =====
-- internal/orchestrator/state.go and internal/orchestrator/orchestrator.go: one run over a list of
-- extensions. `Run` after the phones are set up: registration, the pairs, and each pair's goroutine
-- as a program counter. An index out of range, at which Go panics, is none. The results that the
-- goroutines write are held by their last stage.
use swarmdialer.Prelude.{
  ℕ, zero, suc, ◌+◌, ◌-◌, String, Bool, true, false, Option, none, some, List, [], ◌∷◌, map, length,
  get_elem?, set, count_if,
}
pub mod Pairs
pub mod Report

-- `unset` is the status of a pair that is not initialised, "".
pub data PairStatus : Type 0 where
  unset pending dialing answered failed ended : PairStatus

pub data Phase : Type 0 where
  setting_up registering calling done : Phase

pub record PairState : Type 0 where
  pub caller_aor : String
  pub callee_aor : String
  pub status : PairStatus
  pub err : String
  pub rtp_sent : ℕ
  pub rtp_recv : ℕ

pub record RunState : Type 0 where
  pub phase : Phase
  pub started_at : ℕ
  pub pairs : List PairState

abbrev pub no_pair : PairState
no_pair = record {
  caller_aor = "";
  callee_aor = "";
  status = unset;
  err = "";
  rtp_sent = 0;
  rtp_recv = 0;
}

unfoldable pub blank_pairs : ℕ → List PairState
blank_pairs zero = []
blank_pairs (suc n) = no_pair ∷ blank_pairs n

unfoldable pub new_run_state : ℕ → ℕ → RunState
unfolding blank_pairs
new_run_state now n = record { phase = setting_up; started_at = now; pairs = blank_pairs n }

unfoldable pub set_phase : Phase → RunState → RunState
set_phase p s = record s { phase = p }

unfoldable pub update_pair : ℕ → (PairState → PairState) → RunState → Option RunState
update_pair i mutate s = elim (get_elem? s.pairs i) [
  | none ↦ none
  | some p ↦ some (record s { pairs = set s.pairs i (mutate p) })
]

abbrev pub pending_pair : String × String → PairState
pending_pair (caller, callee) = record no_pair {
  caller_aor = caller;
  callee_aor = callee;
  status = pending;
}

unfoldable pub init_pair : ℕ → String × String → RunState → Option RunState
unfolding update_pair
init_pair i aors s = update_pair i (λ p. pending_pair aors) s

-- The loop of `makePairs`, from an even index on with so many extensions left.
unfoldable pub pairs_from : ℕ → ℕ → List (ℕ × ℕ)
pairs_from i (suc (suc left)) = (i, i + 1) ∷ pairs_from (i + 2) left
pairs_from i _ = []

unfoldable pub make_pairs : ℕ → List (ℕ × ℕ)
unfolding pairs_from
make_pairs n = pairs_from 0 n

-- What `registerAll` returns, from each phone's error: how many failed, of how many, and the first.
unfoldable pub failures_of : List (Option String) → List String
failures_of [] = []
failures_of (none ∷ errs) = failures_of errs
failures_of (some e ∷ errs) = e ∷ failures_of errs

unfoldable pub register_all : List (Option String) → Option (ℕ × ℕ × String)
unfolding failures_of
register_all errs = elim (failures_of errs) [
  | [] ↦ none
  | first ∷ more ↦ some (suc (length more), length errs, first)
]

pub record PairResult : Type 0 where
  pub is_answered : Bool
  pub err : Option String
  pub rtp_sent : ℕ
  pub rtp_recv : ℕ

-- `Result.Answered` and `Result.Failed`.
unfoldable pub answered_in : List PairResult → ℕ
answered_in rs = count_if (λ r. r.is_answered) rs

unfoldable pub failed_in : List PairResult → ℕ
unfolding answered_in
failed_in rs = length rs - answered_in rs

-- Where a pair's goroutine is.
pub data PairStage : Type 0 where
  ramping : PairStage  -- in the select on its turn
  in_dial : PairStage
  holding : PairStage  -- in the loop that holds the call
  over : PairResult → PairStage

-- What the goroutine meets next.
pub data Signal : Type 0 where
  its_turn : Signal
  ctx_done : String → Signal
  dial_failed : String → Signal
  dial_answered : Signal
  tick : ℕ → ℕ → Signal  -- the second has passed, with so many packets sent and received
  hold_over : ℕ → ℕ → Signal  -- the deadline or the context

abbrev pub unanswered : String → PairResult
unanswered err = record { is_answered = false; err = some err; rtp_sent = 0; rtp_recv = 0 }

-- The goroutine's next stage and its update of the pair's state: `runOnePair` and what goes before it.
unfoldable pub pair_step : PairStage → Signal → Option (PairStage × (PairState → PairState))
pair_step ramping its_turn = some (in_dial, λ p. record p { status = dialing })
pair_step ramping (ctx_done e) =
    some (over (unanswered e), λ p. record p { status = failed; err = e })
pair_step in_dial (dial_failed e) =
    some (over (unanswered e), λ p. record p { status = failed; err = e })
pair_step in_dial dial_answered = some (holding, λ p. record p { status = answered })
pair_step holding (tick sent recv) =
    some (holding, λ p. record p { rtp_sent = sent; rtp_recv = recv })
pair_step holding (hold_over sent recv) = some (
  over (record { is_answered = true; err = none; rtp_sent = sent; rtp_recv = recv }),
  λ p. record p { status = ended; rtp_sent = sent; rtp_recv = recv },
)
pair_step _ _ = none

-- A run in its calling phase: what a reader sees, and its goroutines.
pub record Run : Type 0 where
  pub state : RunState
  pub stages : List PairStage

unfoldable pub run_step : ℕ → Signal → Run → Option Run
unfolding pair_step update_pair
run_step i signal r = elim (get_elem? r.stages i) [
  | none ↦ none
  | some stage ↦ elim (pair_step stage signal) [
    | none ↦ none
    | some (stage', mutate) ↦ elim (update_pair i mutate r.state) [
      | none ↦ none
      | some state ↦ some (record { state = state; stages = set r.stages i stage' })
    ]
  ]
]

-- The run at the start of its calling phase.
abbrev pub calls_begin : ℕ → List (String × String) → Run
calls_begin now aors = record {
  state = record { phase = calling; started_at = now; pairs = map pending_pair aors };
  stages = map (λ a. ramping) aors;
}

-- The loop of `initPair`s, from an index on.
unfoldable pub init_pairs : ℕ → List (String × String) → RunState → Option RunState
unfolding init_pair
init_pairs i [] s = some s
init_pairs i (a ∷ aors) s = elim (init_pair i a s) [
  | none ↦ none
  | some s' ↦ init_pairs (suc i) aors s'
]

unfoldable pub begin_run : ℕ → List (String × String) → Option Run
unfolding new_run_state set_phase init_pairs
begin_run now aors =
    elim (init_pairs 0 aors (set_phase registering (new_run_state now (length aors)))) [
      | none ↦ none
      | some s ↦ some (record { state = set_phase calling s; stages = map (λ a. ramping) aors })
    ]
