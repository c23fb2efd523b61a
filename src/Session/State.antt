-- ===== src/Session/State.antt =====
-- internal/orchestrator/session.go: the session's state (`Session`, `activeCall`, `CallRecord`,
-- `Event`), and the goroutine of one call as a program counter.
use swarmdialer.Prelude.{ℕ, suc, ◌-◌, String, Bool, Option, List, [], ◌∷◌, ◌++◌, length, drop}
use swarmdialer.Health.{Cause, MediaStats, Health}
use swarmdialer.Session.Pool.{Aor, Pools}

abbrev pub Codec : Type 0
Codec = String

pub record CallRecord : Type 0 where
  pub caller_aor : Aor
  pub callee_aor : Aor
  pub codec : Codec
  pub started_at : ℕ
  pub ended_at : ℕ
  pub answered : Bool
  pub fail_cause : Option (Cause × ℕ)  -- `FailCause` and `SIPCode`; none if the call was answered
  pub dropped : Bool
  pub setup_latency : ℕ
  pub rtp_sent : ℕ
  pub rtp_recv : ℕ

-- What a call's RTP session has counted when the call ends.
pub record RtpCounts : Type 0 where
  pub sent : ℕ
  pub recv : ℕ
  pub media : MediaStats

-- Where the goroutine of one call is: after each action that other goroutines can see.
pub data Stage : Type 0 where
  waiting : Stage  -- in the select on the ramp delay
  cancelled : Stage  -- released, before the counter
  dialing : Stage  -- in Dial
  dial_failed : Cause → ℕ → Stage  -- Dial failed and "failed" is logged
  failure_noted : Cause → ℕ → Stage  -- health updated
  failure_counted : Cause → ℕ → Stage  -- totalCallsFailed
  answer_counted : Stage  -- totalCallsAnswered
  answer_logged : Stage  -- "answered" is logged
  talking : Stage  -- in `calls`, in the select on the call's end
  hung_up : Bool → RtpCounts → Stage  -- hung up, or "dropped" is logged
  end_noted : Bool → RtpCounts → Stage  -- health updated
  sent_counted : Bool → RtpCounts → Stage  -- totalRTPSentEnded
  recv_counted : Bool → RtpCounts → Stage  -- totalRTPRecvEnded
  end_logged : Bool → RtpCounts → Stage  -- "ended" is logged
  unlisted : Bool → RtpCounts → Stage  -- deleted from `calls`
  never_dialed : Stage  -- the goroutine is done, with no record
  finished : CallRecord → Stage  -- the goroutine is done, with its record

-- One call that `AddCallsWithCallee` started, and its goroutine's local variables. `stop_ch` is the
-- stop channel that the batch was given, numbered by how many `Stop` calls came before it.
pub record Task : Type 0 where
  pub batch : ℕ
  pub caller : Aor
  pub callee : Aor
  pub stop_ch : ℕ
  pub send_media : Bool
  pub codec : Codec
  pub callee_codec : Codec
  pub stage : Stage
  pub call_id : ℕ
  pub started_at : ℕ
  pub setup_latency : ℕ

-- `Detail` of an event: the text that the source formats from these values.
pub data Detail : Type 0 where
  no_detail : Detail
  failure_detail : Cause → ℕ → Detail
  early_end : Detail
  rtp_detail : ℕ → ℕ → Detail
  batch_detail : ℕ → ℕ → ℕ → ℕ → Detail  -- requested, answered, of how many, failed
  quality : String → Detail

pub record Event : Type 0 where
  pub seq : ℕ
  pub time : ℕ
  pub kind : String
  pub caller_aor : Aor
  pub callee_aor : Aor
  pub detail : Detail

pub record ActiveCall : Type 0 where
  pub id : ℕ
  pub caller_aor : Aor
  pub callee_aor : Aor
  pub started_at : ℕ
  pub setup_latency : ℕ

abbrev pub max_recent_events : ℕ
max_recent_events = 200

pub record EventLog : Type 0 where
  pub next_event_seq : ℕ
  pub events : List Event

pub record Counters : Type 0 where
  pub started : ℕ
  pub answered : ℕ
  pub failed : ℕ
  pub cancelled : ℕ
  pub rtp_sent_ended : ℕ
  pub rtp_recv_ended : ℕ

-- `stop_gen` numbers the current `stopCh`: a channel is closed once it is no longer the current one.
-- `preferred` is the codec that each answering phone was last given. `tasks` holds every goroutine
-- that was started, the finished ones too.
pub record Session : Type 0 where
  pub ctx_done : Bool
  pub pools : Pools
  pub dial_number_for : Option (Aor → String)
  pub calls : List ActiveCall
  pub log : EventLog
  pub stop_gen : ℕ
  pub next_call_id : ℕ
  pub counters : Counters
  pub health : Health
  pub preferred : Aor → Codec
  pub tasks : List Task

-- Keeps the last `max_recent_events`.
unfoldable pub trim : List Event → List Event
trim events = drop (length events - max_recent_events) events

-- `logEvent`, run without another goroutine's event between the number and the append.
unfoldable pub log_event : ℕ → String → Aor → Aor → Detail → EventLog → EventLog
unfolding trim
log_event now kind caller callee detail log = record {
  next_event_seq = suc log.next_event_seq;
  events = trim (
      log.events
      ++ record {
        seq = suc log.next_event_seq;
        time = now;
        kind = kind;
        caller_aor = caller;
        callee_aor = callee;
        detail = detail;
      }
        ∷ []);
}
