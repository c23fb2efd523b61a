-- ===== src/Examples/Calls.antt =====
-- A local session with four extensions: two calls, one of which is answered and one fails.
use swarmdialer.Prelude.{
  ℕ, ◌+◌, min, ◌≡◌, refl, true, none, some, List, [], ◌∷◌, ◌++◌, map, length, get_elem?, All, ◌≤◌,
  ◌⊎◌, Option-cases, inl, inr, arith, count_if,
}
use swarmdialer.Session.Pool.{
  Aor, shared, caller_pool, callee_pool, new_pool, keys_of, contains, reserve_pairs, mark,
  mark_caller, mark_callee, book, free_list, max_pairs, choose, pair_up, release,
}
use swarmdialer.Session.State.{Task, RtpCounts, Session, log_event, trim}
use swarmdialer.Session.Calls.{
  Request, Choice, timer, dial_ok, dial_error, proceed, add_calls, new_task, is_ready, advance,
  step_task, start_dialing, cancel, fail_dial, answer, enlist, stop, new_session,
}
use swarmdialer.Session.Booking.{IsOrder, IsBooked, times}
use swarmdialer.Session.Reserve.{reserve_pairs-IsBooked}
use swarmdialer.Session.Invariant.{Inv}
use swarmdialer.Session.Reach.{
  Reach, here, next, added, acted, add_calls-Inv, Reach-Inv, new_session-Inv,
}
use swarmdialer.Session.Guarantees.{
  AreApart, is_done, AllDone, AllFree, no_double_booking, all_settled,
}
use swarmdialer.Session.Amount.{free_pairs, add_calls_amount}
use swarmdialer.Session.Drain.{ahead, own_actions, winding_down, stop_ends_calls}
use swarmdialer.Session.Views.{snapshot, snapshot_settled}
use swarmdialer.Session.Preferred.{IsPreferred, Reach-IsPreferred}

abbrev extensions : List Aor
extensions = "1000" ∷ "1001" ∷ "1002" ∷ "1003" ∷ []

abbrev fresh : Session
fresh = new_session "10.0.0.1:5060" "" extensions

abbrev request : Request
request = record {
  n = 5;
  batch = 1;
  send_media = true;
  codec = "g729";
  callee_codec = "ulaw";
  callers = extensions;
  callees = extensions;
}

abbrev begun : Session
begun = (add_calls request fresh).1

abbrev counts : RtpCounts
counts = record {
  sent = 500;
  recv = 499;
  media = record { expected = 500; received = 499; jitter_ms = 3 };
}

-- The goroutines take these actions in turn; one that cannot be taken is passed over.
unfoldable run : List (ℕ × Choice) → Session → Session
run [] s = s
run ((i, choice) ∷ moves) s =
    run moves (elim (step_task i choice 5 counts s) [ none ↦ s | some s' ↦ s' ])

run-Reach : (moves : List (ℕ × Choice)) (s t : Session) → Reach s t → Reach s (run moves t)
unfolding run
run-Reach [] s t r = r
run-Reach ((i, choice) ∷ moves) s t r = elim (Option-cases (step_task i choice 5 counts t)) [
  | inl e ↦ rw e (run-Reach moves s t r)
  | inr (t', e) ↦ rw e (run-Reach moves s t' (next r (acted t t' i choice 5 counts e)))
]

extensions-IsOrder : IsOrder extensions (caller_pool fresh.pools)
unfolding new_session new_pool keys_of contains caller_pool times
extensions-IsOrder a = refl

extensions-IsOrder_callees : IsOrder extensions (callee_pool fresh.pools)
unfolding new_session new_pool keys_of contains callee_pool times
extensions-IsOrder_callees a = refl

begun-Reach : Reach fresh begun
begun-Reach = next here (added fresh request extensions-IsOrder extensions-IsOrder_callees)

abbrev all_moves : List (ℕ × Choice)
all_moves =
    (0, timer)
    ∷ (1, timer)
    ∷ (0, dial_ok)
    ∷ (1, dial_error none)
    ∷ (0, proceed)
    ∷ (0, proceed)
    ∷ (1, proceed)
    ∷ (1, proceed)
    ∷ (1, proceed)
    ∷ (0, timer)
    ∷ (0, proceed)
    ∷ (0, proceed)
    ∷ (0, proceed)
    ∷ (0, proceed)
    ∷ (0, proceed)
    ∷ (0, proceed)
    ∷ (1, proceed)
    ∷ []

abbrev settled : Session
settled = run all_moves begun

fresh-Inv : Inv fresh
fresh-Inv = new_session-Inv "10.0.0.1:5060" "" extensions

settled-Reach : Reach fresh settled
settled-Reach = run-Reach all_moves fresh begun begun-Reach

settled-AllDone : AllDone settled.tasks
unfolding run new_session new_pool keys_of contains add_calls reserve_pairs caller_pool callee_pool
    free_list max_pairs choose pair_up book mark mark_caller mark_callee release new_task step_task
    is_ready advance start_dialing cancel fail_dial answer enlist log_event trim
settled-AllDone = (refl, (refl, tt))

Reach-Inv_example : Inv settled
Reach-Inv_example = Reach-Inv settled-Reach fresh-Inv

begun-Inv : Inv begun
begun-Inv = add_calls-Inv request fresh extensions-IsOrder extensions-IsOrder_callees fresh-Inv

all_settled_example :
    AllFree settled.pools
    × (settled.calls ≡ [])
    × (settled.counters.started
        ≡ settled.counters.answered + settled.counters.failed + settled.counters.cancelled)
all_settled_example = all_settled fresh-Inv settled-Reach settled-AllDone

-- The goroutines of `begun`.
abbrev first : Task
first = new_task 1 0 true "g729" "ulaw" ("1000", "1001")

abbrev second : Task
second = new_task 1 0 true "g729" "ulaw" ("1002", "1003")

first_at : get_elem? begun.tasks 0 ≡ some first
unfolding run new_session new_pool keys_of contains add_calls reserve_pairs caller_pool callee_pool
    free_list max_pairs choose pair_up book mark mark_caller mark_callee release new_task step_task
    is_ready advance start_dialing cancel fail_dial answer enlist log_event trim
first_at = refl

second_at : get_elem? begun.tasks 1 ≡ some second
unfolding run new_session new_pool keys_of contains add_calls reserve_pairs caller_pool callee_pool
    free_list max_pairs choose pair_up book mark mark_caller mark_callee release new_task step_task
    is_ready advance start_dialing cancel fail_dial answer enlist log_event trim
second_at = refl

no_double_booking_example : AreApart begun.pools first second
no_double_booking_example =
    no_double_booking 0 1 fresh-Inv begun-Reach (λ h. ground arith) first_at second_at
      (unfold new_task in refl) (unfold new_task in refl)

begun_shared : begun.pools ≡ shared (caller_pool begun.pools)
unfolding run new_session new_pool keys_of contains add_calls reserve_pairs caller_pool callee_pool
    free_list max_pairs choose pair_up book mark mark_caller mark_callee release new_task step_task
    is_ready advance start_dialing cancel fail_dial answer enlist log_event trim
begun_shared = refl

reserve_pairs-IsBooked_example : IsBooked (reserve_pairs 5 extensions extensions fresh.pools).1 (
    fresh.tasks
    ++ map (new_task 1 0 true "g729" "ulaw") (reserve_pairs 5 extensions extensions fresh.pools).0)
reserve_pairs-IsBooked_example =
    reserve_pairs-IsBooked 1 0 true "g729" "ulaw" 5 extensions extensions fresh.pools fresh.tasks
      extensions-IsOrder extensions-IsOrder_callees fresh-Inv.keyed fresh-Inv.booked

-- The same moves after a `Stop`, with which the first goroutine ends.
after_stop : Reach (stop begun) (run all_moves (stop begun))
after_stop = run-Reach all_moves (stop begun) (stop begun) here

stop_ends_calls_example :
    (own_actions 0 after_stop ≤ 11)
    × ((t' : Task) × (get_elem? (run all_moves (stop begun)).tasks 0 ≡ some t')
        × ((is_done t'.stage ≡ true)
            ⊎ ((v : Session) × (step_task 0
                    (winding_down t'.stage)
                    7
                    counts
                    (run all_moves (stop begun))
                  ≡ some v))))
stop_ends_calls_example =
    stop_ends_calls {s = fresh} {s' = begun} 0 7 counts {t = first}
      (unfold ahead new_session count_if in refl) begun-Reach first_at after_stop

Reach-IsPreferred_example : IsPreferred settled
Reach-IsPreferred_example =
    Reach-IsPreferred settled-Reach fresh-Inv (unfold new_session in λ i t e. absurd (ground arith))

add_calls_amount_example :
    let (started, s') = add_calls request begun in
    (started ≡ min 5 (free_pairs begun.pools extensions extensions))
    × (s'.counters.started ≡ begun.counters.started + started)
    × (length s'.tasks ≡ length begun.tasks + started)
add_calls_amount_example = add_calls_amount request begun

snapshot_settled_example :
    let v = snapshot (λ id. (0, 0)) settled in
    (v.available_extensions ≡ v.total_extensions)
    × (v.active_calls ≡ [])
    × (v.total_rtp_sent ≡ settled.counters.rtp_sent_ended)
    × (v.total_rtp_recv ≡ settled.counters.rtp_recv_ended)
    × (v.total_calls_started
        ≡ v.total_calls_answered + v.total_calls_failed + v.total_calls_cancelled)
snapshot_settled_example = snapshot_settled (λ id. (0, 0)) fresh-Inv settled-Reach settled-AllDone

settled_batch : All (λ (t : Task). t.batch ≡ 1 → is_done t.stage ≡ true) settled.tasks
unfolding run new_session new_pool keys_of contains add_calls reserve_pairs caller_pool callee_pool
    free_list max_pairs choose pair_up book mark mark_caller mark_callee release new_task step_task
    is_ready advance start_dialing cancel fail_dial answer enlist log_event trim
settled_batch = ((λ h. refl), ((λ h. refl), tt))
