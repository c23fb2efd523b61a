-- ===== src/Examples/Runs.antt =====
-- One run of two pairs, a trunk's batches, and a registration's progress.
use swarmdialer.Prelude.{
  ◌⊎◌, ◌≡◌, ℕ, refl, true, false, none, some, List, [], ◌∷◌, count_if, arith, String,
}
use swarmdialer.Runs.{
  Run, PairState, PairStage, over, its_turn, run_step, pair_step, update_pair, calls_begin,
  pending_pair, ended, failed,
}
use swarmdialer.Runs.Report.{AllShow, run_step-AllShow}
use swarmdialer.Trunk.{Answer, PairBatches, ConnectedPair, prepare_remote_batch, RegistrationSide}
use swarmdialer.Trunk.Batches.{IsSound, prepare_remote_batch-IsSound}

abbrev two_pairs : List (String × String)
two_pairs = ("100", "101") ∷ ("102", "103") ∷ []

abbrev after_turn : Run
after_turn = elim (run_step 1 its_turn (calls_begin 7 two_pairs)) [
  | none ↦ calls_begin 7 two_pairs
  | some r ↦ r
]

run_step-AllShow_example : AllShow after_turn.state.pairs after_turn.stages
run_step-AllShow_example =
    run_step-AllShow 1 its_turn (calls_begin 7 two_pairs) after_turn
      (unfold run_step pair_step update_pair in refl) ((refl, refl, refl), ((refl, refl, refl), tt))

abbrev final_pairs : List PairState
final_pairs =
    record (pending_pair ("100", "101")) { status = ended; rtp_sent = 50; rtp_recv = 49 }
    ∷ record (pending_pair ("102", "103")) { status = failed; err = "busy" }
    ∷ []

abbrev final_stages : List PairStage
final_stages =
    over (record { is_answered = true; err = none; rtp_sent = 50; rtp_recv = 49 })
    ∷ over (record { is_answered = false; err = some "busy"; rtp_sent = 0; rtp_recv = 0 })
    ∷ []

abbrev good : Answer
good = record { can_read = true; can_set = true; left = [] }

abbrev no_batches : PairBatches
no_batches = record { codec = ""; running = 0; batches = [] }

abbrev idle : ConnectedPair
idle = record {
  there = no_batches;
  back = no_batches;
  srv = record { has_trunk = true; order = "ulaw" ∷ [] };
  peer = record { has_trunk = false; order = [] };
}

idle-IsSound : IsSound idle.there idle.srv idle.peer
unfolding count_if
idle-IsSound = record { counted = refl; same_codec = tt; ordered = λ h. absurd (omega arith) }

abbrev busy_pair : ConnectedPair
busy_pair = (prepare_remote_batch "g729" good good idle).1

busy_pair-IsSound : IsSound busy_pair.there busy_pair.srv busy_pair.peer
busy_pair-IsSound = (prepare_remote_batch-IsSound "g729" good good idle idle-IsSound).0

prepare_remote_batch-IsSound_example :
    let s' = (prepare_remote_batch "opus" good good busy_pair).1 in
    IsSound s'.there s'.srv s'.peer
    × ((busy_pair.back.running ≡ 0) ⊎ (busy_pair.back.codec ≡ "opus")
        → IsSound busy_pair.back busy_pair.peer busy_pair.srv
        → IsSound s'.back s'.peer s'.srv)
prepare_remote_batch-IsSound_example =
    prepare_remote_batch-IsSound "opus" good good busy_pair busy_pair-IsSound

abbrev progress : ℕ → ℕ → RegistrationSide
progress m n = record { registered = m; failed = n; total = 10 }
