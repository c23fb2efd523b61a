-- ===== src/Session/Effects.antt =====
-- What one action of a goroutine does to the bookings, the counters and the list of calls.
use swarmdialer.Prelude.{
  ℕ, suc, ◌+◌, ◌≡◌, refl, ◌⊎◌, inl, inr, Bool, true, false, Option, none, some, arith, ind, ◌++◌,
  ◌∷◌, [],
}
use swarmdialer.Session.Pool.{release}
use swarmdialer.Session.State.{
  RtpCounts, Stage, waiting, cancelled, dialing, dial_failed, failure_noted, answer_logged, talking,
  hung_up, end_noted, sent_counted, recv_counted, end_logged, never_dialed, finished, Task,
  ActiveCall, Session,
}
use swarmdialer.Session.Calls.{Choice, proceed, advance, remove_call}

-- Whether the goroutine still holds its two extensions.
abbrev pub holds : Stage → Bool
holds cancelled = false
holds never_dialed = false
holds (finished r) = false
holds _ = true

-- Whether the call is not yet counted as answered, failed or cancelled.
abbrev pub is_open : Stage → Bool
is_open waiting = true
is_open cancelled = true
is_open dialing = true
is_open (dial_failed c k) = true
is_open (failure_noted c k) = true
is_open _ = false

-- Whether the call is in the session's list of calls.
abbrev pub is_listed : Stage → Bool
is_listed talking = true
is_listed (hung_up d c) = true
is_listed (end_noted d c) = true
is_listed (sent_counted d c) = true
is_listed (recv_counted d c) = true
is_listed (end_logged d c) = true
is_listed _ = false

-- What holds of the result of an action, if there is one.
abbrev pub Ensures {ℓ} : (Task → Session → Type ℓ) → Option (Task × Session) → Type ℓ
Ensures P none = Unit
Ensures P (some (t, s)) = P t s

-- An action keeps the two extensions, or it releases them, and then the goroutine held them before.
abbrev pub Booking : Stage → Task → Session → Task → Session → Type 0
Booking stage t s t' s' =
    (t'.caller ≡ t.caller)
    × (t'.callee ≡ t.callee)
    × (s'.tasks ≡ s.tasks)
    × (((holds t'.stage ≡ holds stage) × (s'.pools ≡ s.pools))
        ⊎ ((holds stage ≡ true)
            × (holds t'.stage ≡ false)
            × (s'.pools ≡ release s.pools t.caller t.callee)))

pub advance-Booking :
    (stage : Stage) (choice : Choice) (now : ℕ) (rtp : RtpCounts) (t : Task) (s : Session)
    → Ensures (Booking stage t s) (advance stage choice now rtp t s)
unfolding advance
advance-Booking waiting choice now rtp t s = ground arith
advance-Booking stage choice now rtp t s = ground arith

-- An action counts a call once: when it stops being open.
abbrev pub Tally : Stage → Session → Task → Session → Type 0
Tally stage s t' s' =
    (s'.counters.started ≡ s.counters.started)
    × (s'.counters.answered + s'.counters.failed + s'.counters.cancelled + ind (is_open t'.stage)
        ≡ s.counters.answered + s.counters.failed + s.counters.cancelled + ind (is_open stage))

pub advance-Tally :
    (stage : Stage) (choice : Choice) (now : ℕ) (rtp : RtpCounts) (t : Task) (s : Session)
    → Ensures (Tally stage s) (advance stage choice now rtp t s)
unfolding advance
advance-Tally waiting choice now rtp t s = ground arith
advance-Tally stage choice now rtp t s = ground arith

-- An action leaves the list of calls as it is, adds its own call under a new number, or takes its
-- own call out.
abbrev pub Listing : Stage → Task → Session → Task → Session → Type 0
Listing stage t s t' s' =
    ((is_listed t'.stage ≡ is_listed stage)
      × (t'.call_id ≡ t.call_id)
      × (s'.calls ≡ s.calls)
      × (s'.next_call_id ≡ s.next_call_id))
    ⊎ ((is_listed stage ≡ false)
        × (is_listed t'.stage ≡ true)
        × (t'.call_id ≡ suc s.next_call_id)
        × (s'.next_call_id ≡ suc s.next_call_id)
        × ((entry : ActiveCall) × (entry.id ≡ suc s.next_call_id)
            × (s'.calls ≡ s.calls ++ (entry ∷ []))))
    ⊎ ((is_listed stage ≡ true)
        × (is_listed t'.stage ≡ false)
        × (t'.call_id ≡ t.call_id)
        × (s'.calls ≡ remove_call t.call_id s.calls)
        × (s'.next_call_id ≡ s.next_call_id))

enlist-Listing :
    (now : ℕ) (rtp : RtpCounts) (t : Task) (s : Session)
    → Ensures (Listing answer_logged t s) (advance answer_logged proceed now rtp t s)
unfolding advance
enlist-Listing now rtp t s = inr (inl (refl, refl, refl, refl, (_, refl, refl)))

pub advance-Listing :
    (stage : Stage) (choice : Choice) (now : ℕ) (rtp : RtpCounts) (t : Task) (s : Session)
    → Ensures (Listing stage t s) (advance stage choice now rtp t s)
unfolding advance
advance-Listing answer_logged proceed now rtp t s = enlist-Listing now rtp t s
advance-Listing answer_logged choice now rtp t s = tt
advance-Listing waiting choice now rtp t s = ground arith
advance-Listing stage choice now rtp t s = ground arith
