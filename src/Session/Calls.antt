-- ===== src/Session/Calls.antt =====
-- internal/orchestrator/session.go: what a session does (`AddCallsWithCallee`, `runCall`, `Stop`,
-- `LogBatchQuality`, `Snapshot`, `NewSession`, `NewRemoteSession`). Some steps are more than one action of
-- the source, as is said above them; what other goroutines do between those actions is not modelled.
use swarmdialer.Prelude.{
  ℕ, suc, ◌+◌, ◌-◌, String, ◌==s◌, Bool, true, false, Option, none, some, List, [], ◌∷◌, ◌++◌, map,
  length, if◌then◌else◌, ltb, ◌==◌, get_elem?, set,
}
use swarmdialer.Health.{
  Cause, DialError, failure_cause, failure_key, count_failure, count_ended, no_health,
}
use swarmdialer.Session.Pool.{Aor, Pools, shared, split, release, reserve_pairs, new_pool}
use swarmdialer.Session.State.{
  Codec, CallRecord, RtpCounts, Stage, waiting, cancelled, dialing, dial_failed, failure_noted,
  failure_counted, answer_counted, answer_logged, talking, hung_up, end_noted, sent_counted,
  recv_counted, end_logged, unlisted, never_dialed, finished, Task, Detail, no_detail,
  failure_detail, early_end, rtp_detail, ActiveCall, Session, log_event,
}

-- The number that a call to this callee dials.
unfoldable pub dial_number : Session → Aor → String
dial_number s callee = elim s.dial_number_for [ none ↦ callee | some did ↦ did callee ]

unfoldable pub new_task : ℕ → ℕ → Bool → Codec → Codec → Aor × Aor → Task
new_task batch stop_ch send_media codec callee_codec (caller, callee) = record {
  batch = batch;
  caller = caller;
  callee = callee;
  stop_ch = stop_ch;
  send_media = send_media;
  codec = codec;
  callee_codec = callee_codec;
  stage = waiting;
  call_id = 0;
  started_at = 0;
  setup_latency = 0;
}

pub record Request : Type 0 where
  pub n : ℕ
  pub batch : ℕ  -- a name for this call of `AddCallsWithCallee`
  pub send_media : Bool
  pub codec : Codec
  pub callee_codec : Codec
  pub callers : List Aor  -- the orders in which the pools' maps are ranged over
  pub callees : List Aor

-- `AddCallsWithCallee` up to its return, as one step: it books pairs and starts a goroutine for each. The
-- source books under the session's lock, then reads the stop channel, and then counts and starts one
-- goroutine after the other, without the lock.
unfoldable pub add_calls : Request → Session → ℕ × Session
unfolding reserve_pairs new_task
add_calls r s =
    let (pairs, pools) = reserve_pairs r.n r.callers r.callees s.pools in
    (
      length pairs,
      record s {
        pools = pools;
        tasks =
            s.tasks ++ map (new_task r.batch s.stop_gen r.send_media r.codec r.callee_codec) pairs;
        counters = record (s.counters) { started = s.counters.started + length pairs };
      },
    )

-- What the environment does next to a goroutine: which case of a select is taken, how Dial ends.
pub data Choice : Type 0 where
  timer : Choice  -- the ramp delay or the call duration has passed
  stop_closed : Choice  -- <-stopCh
  ctx_closed : Choice  -- <-s.ctx.Done()
  dial_error : Option DialError → Choice  -- the error, if it is a DialError
  dial_ok : Choice
  remote_bye : Choice  -- <-call.RemoteHangup()
  proceed : Choice  -- the next action, where there is no choice

-- A select can take a channel's case only once the channel is closed.
unfoldable pub is_ready : Choice → Task → Session → Bool
is_ready stop_closed t s = ltb t.stop_ch s.stop_gen
is_ready ctx_closed t s = s.ctx_done
is_ready _ t s = true

abbrev pub at : Stage → Task → Task
at stage t = record t { stage = stage }

-- `logEvent` as a part of a step. The source numbers the event before it takes the lock to append it.
abbrev pub logging : ℕ → String → Task → Detail → Session → Session
logging now kind t detail s = record s { log = log_event now kind t.caller t.callee detail s.log }

-- `delete(s.calls, id)`
unfoldable pub remove_call : ℕ → List ActiveCall → List ActiveCall
remove_call id [] = []
remove_call id (c ∷ cs) = let rest = remove_call id cs in if c.id == id then rest else c ∷ rest

-- The ramp delay is over: the goroutine enters `runCall`, up to its call of Dial, as one step. The source
-- sets the callee's codec after the event is logged.
unfoldable pub start_dialing : ℕ → Task → Session → Task × Session
start_dialing now t s = (
  record t { stage = dialing; started_at = now },
  record (logging now "dialing" t no_detail s) {
    preferred = λ a. if t.callee ==s a then t.callee_codec else s.preferred a;
  },
)

unfoldable pub cancel : Task → Session → Task × Session
unfolding release
cancel t s = (at cancelled t, record s { pools = release s.pools t.caller t.callee })

unfoldable pub fail_dial : ℕ → Option DialError → Task → Session → Task × Session
unfolding failure_cause
fail_dial now err t s =
    let (cause, code) = failure_cause err in
    (
      record t { stage = dial_failed cause code; setup_latency = now - t.started_at },
      logging now "failed" t (failure_detail cause code) s,
    )

unfoldable pub answer : ℕ → Task → Session → Task × Session
answer now t s = (
  record t { stage = answer_counted; setup_latency = now - t.started_at },
  record s { counters = record (s.counters) { answered = suc s.counters.answered } },
)

-- As one step; the source takes the call's number before the lock under which it lists the call.
unfoldable pub enlist : Task → Session → Task × Session
enlist t s =
    let id = suc s.next_call_id in
    (
      record t { stage = talking; call_id = id },
      record s {
        next_call_id = id;
        calls =
            s.calls
            ++ record {
              id = id;
              caller_aor = t.caller;
              callee_aor = t.callee;
              started_at = t.started_at;
              setup_latency = t.setup_latency;
            }
              ∷ [];
      },
    )

abbrev pub failed_record : ℕ → Cause → ℕ → Task → CallRecord
failed_record now cause code t = record {
  caller_aor = t.caller;
  callee_aor = t.callee;
  codec = t.codec;
  started_at = t.started_at;
  ended_at = now;
  answered = false;
  fail_cause = some (cause, code);
  dropped = false;
  setup_latency = t.setup_latency;
  rtp_sent = 0;
  rtp_recv = 0;
}

abbrev pub answered_record : ℕ → Bool → RtpCounts → Task → CallRecord
answered_record now dropped rtp t = record {
  caller_aor = t.caller;
  callee_aor = t.callee;
  codec = t.codec;
  started_at = t.started_at;
  ended_at = now;
  answered = true;
  fail_cause = none;
  dropped = dropped;
  setup_latency = t.setup_latency;
  rtp_sent = rtp.sent;
  rtp_recv = rtp.recv;
}

unfoldable pub done : Stage → Task → Session → Task × Session
unfolding release
done stage t s = (at stage t, record s { pools = release s.pools t.caller t.callee })

-- One step of a goroutine. `rtp` is what the call's RTP session has counted when it ends. A choice
-- that the stage does not offer is none.
unfoldable pub advance : Stage → Choice → ℕ → RtpCounts → Task → Session → Option (Task × Session)
unfolding start_dialing cancel fail_dial answer enlist done remove_call
advance waiting timer now rtp t s = some (start_dialing now t s)
advance waiting stop_closed now rtp t s = some (cancel t s)
advance waiting ctx_closed now rtp t s = some (cancel t s)
advance cancelled proceed now rtp t s = some (
  at never_dialed t,
  record s { counters = record (s.counters) { cancelled = suc s.counters.cancelled } },
)
advance dialing (dial_error err) now rtp t s = some (fail_dial now err t s)
advance (dial_failed cause code) proceed now rtp t s = some (
  at (failure_noted cause code) t,
  record s { health = count_failure (failure_key cause code) s.health },
)
advance (failure_noted cause code) proceed now rtp t s = some (
  at (failure_counted cause code) t,
  record s { counters = record (s.counters) { failed = suc s.counters.failed } },
)
advance (failure_counted cause code) proceed now rtp t s =
    some (done (finished (failed_record now cause code t)) t s)
advance dialing dial_ok now rtp t s = some (answer now t s)
advance answer_counted proceed now rtp t s =
    some (at answer_logged t, logging now "answered" t no_detail s)
advance answer_logged proceed now rtp t s = some (enlist t s)
advance talking remote_bye now rtp t s =
    some (at (hung_up true rtp) t, logging now "dropped" t early_end s)
advance talking stop_closed now rtp t s = some (at (hung_up false rtp) t, s)
advance talking ctx_closed now rtp t s = some (at (hung_up false rtp) t, s)
advance talking timer now rtp t s = some (at (hung_up false rtp) t, s)
advance (hung_up dropped c) proceed now rtp t s = some (
  at (end_noted dropped c) t,
  record s { health = count_ended c.media dropped t.send_media c.sent c.recv s.health },
)
advance (end_noted dropped c) proceed now rtp t s = some (
  at (sent_counted dropped c) t,
  record s {
    counters = record (s.counters) { rtp_sent_ended = s.counters.rtp_sent_ended + c.sent };
  },
)
advance (sent_counted dropped c) proceed now rtp t s = some (
  at (recv_counted dropped c) t,
  record s {
    counters = record (s.counters) { rtp_recv_ended = s.counters.rtp_recv_ended + c.recv };
  },
)
advance (recv_counted dropped c) proceed now rtp t s =
    some (at (end_logged dropped c) t, logging now "ended" t (rtp_detail c.sent c.recv) s)
advance (end_logged dropped c) proceed now rtp t s =
    some (at (unlisted dropped c) t, record s { calls = remove_call t.call_id s.calls })
advance (unlisted dropped c) proceed now rtp t s =
    some (done (finished (answered_record now dropped c t)) t s)
advance _ _ now rtp t s = none

abbrev pub store : ℕ → Task × Session → Session
store i (t, s) = record s { tasks = set s.tasks i t }

-- The goroutine at index i takes its next action, if there is one.
unfoldable pub step_task : ℕ → Choice → ℕ → RtpCounts → Session → Option Session
unfolding is_ready advance
step_task i choice now rtp s = elim (get_elem? s.tasks i) [
  | none ↦ none
  | some t ↦
      if is_ready choice t s
      then elim (advance t.stage choice now rtp t s) [ none ↦ none | some r ↦ some (store i r) ]
      else none
]

-- `Stop`: the current stop channel is closed and a fresh one takes its place.
unfoldable pub stop : Session → Session
stop s = record s { stop_gen = suc s.stop_gen }

-- The context that the session was created with is cancelled.
unfoldable pub cancel_ctx : Session → Session
cancel_ctx s = record s { ctx_done = true }

-- The part that `NewSession` and `NewRemoteSession` share.
unfoldable pub start_session : Pools → Option (Aor → String) → Session
start_session pools dial_number_for = record {
  ctx_done = false;
  pools = pools;
  dial_number_for = dial_number_for;
  calls = [];
  log = record { next_event_seq = 0; events = [] };
  stop_gen = 0;
  next_call_id = 0;
  counters = record {
    started = 0;
    answered = 0;
    failed = 0;
    cancelled = 0;
    rtp_sent_ended = 0;
    rtp_recv_ended = 0;
  };
  health = no_health;
  preferred = λ a. "";
  tasks = [];
}

-- `NewSession` and `NewRemoteSession` once every extension has registered.
unfoldable pub new_session : String → String → List Aor → Session
unfolding start_session
new_session dial_destination sip_domain endpoints =
    start_session (shared (new_pool dial_destination sip_domain endpoints)) none

unfoldable pub new_remote_session :
    String → String → String → String → List Aor → List Aor → (Aor → Option String) → Session
unfolding start_session
new_remote_session caller_dest caller_domain callee_dest callee_domain callers callees did_for_ext =
    start_session
      (split (new_pool caller_dest caller_domain callers)
        (new_pool callee_dest callee_domain callees))
      (some (λ callee. elim (did_for_ext callee) [ some did ↦ did | none ↦ callee ]))
