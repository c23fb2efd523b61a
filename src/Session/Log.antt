-- ===== src/Session/Log.antt =====
-- internal/orchestrator/session.go: the event log that `logEvent` keeps.
use swarmdialer.Prelude.{
  ℕ, zero, suc, ◌+◌, ◌-◌, ◌≤◌, ◌≡◌, ◌∙◌, String, List, [], ◌∷◌, ◌++◌, arith, length, length-append,
  length-drop, drop, min, subst,
}
use swarmdialer.Session.Pool.{Aor}
use swarmdialer.Session.State.{Detail, Event, EventLog, trim, log_event, max_recent_events}

-- The events have the consecutive numbers that follow `seq`.
abbrev pub Follow : ℕ → List Event → Type 0
Follow seq [] = Unit
Follow seq (e ∷ es) = (e.seq ≡ suc seq) × Follow (suc seq) es

-- The log holds the last events that were numbered, in order, and no more than the limit.
pub record IsRecent (log : EventLog) : Type 0 where
  pub bounded : length log.events ≤ max_recent_events
  pub numbered : length log.events ≤ log.next_event_seq
  pub ordered : Follow (log.next_event_seq - length log.events) log.events

Follow-append :
    (seq : ℕ) (es : List Event) (e : Event)
    → Follow seq es
    → e.seq ≡ suc (seq + length es)
    → Follow seq (es ++ e ∷ [])
Follow-append seq [] e h q = (q ∙ omega arith, tt)
Follow-append seq (x ∷ es) e h q = (h.0, Follow-append (suc seq) es e h.1 (q ∙ omega arith))

Follow-drop :
    (k seq : ℕ) (es : List Event) → k ≤ length es → Follow seq es → Follow (seq + k) (drop k es)
Follow-drop zero seq es h f = subst (λ (n : ℕ). Follow n es) (omega arith) f
Follow-drop (suc k) seq [] h f = tt
Follow-drop (suc k) seq (e ∷ es) h f =
    subst (λ (n : ℕ). Follow n (drop k es)) (omega arith)
      (Follow-drop k (suc seq) es (omega arith) f.1)

length-trim : (es : List Event) → length (trim es) ≡ min max_recent_events (length es)
unfolding trim
length-trim es = length-drop (length es - max_recent_events) es ∙ omega arith

Follow-trim :
    (seq : ℕ) (es : List Event)
    → Follow seq es
    → Follow (seq + length es - length (trim es)) (trim es)
unfolding trim
Follow-trim seq es f =
    subst (λ (n : ℕ). Follow n (trim es)) (omega (arith, length-trim es))
      (Follow-drop (length es - max_recent_events) seq es (omega arith) f)

-- Logging an event keeps the log's events consecutive, the newest last, and at most 200 of them.
pub log_event-IsRecent :
    (now : ℕ) (kind : String) (caller callee : Aor) (detail : Detail) (log : EventLog)
    → IsRecent log
    → IsRecent (log_event now kind caller callee detail log)
unfolding log_event
log_event-IsRecent now kind caller callee detail log h =
    let es =
      log.events
      ++ record {
        seq = suc log.next_event_seq;
        time = now;
        kind = kind;
        caller_aor = caller;
        callee_aor = callee;
        detail = detail;
      }
        ∷ [] in
    let len : length es ≡ suc (length log.events) = length-append log.events _ ∙ omega arith in
    let f : Follow (log.next_event_seq - length log.events) es =
      Follow-append (log.next_event_seq - length log.events) log.events _ h.ordered
        (omega (arith, h.numbered)) in
    record {
      bounded = omega (arith, length-trim es);
      numbered = omega (arith, length-trim es, len, h.numbered);
      ordered =
          subst (λ (n : ℕ). Follow n (trim es)) (omega (arith, len, h.numbered))
            (Follow-trim (log.next_event_seq - length log.events) es f);
    }
