-- ===== src/Session/Views.antt =====
-- internal/orchestrator/session.go and health.go: what a session shows (`Snapshot`, `Health`), and
-- the summary of a batch (`batch_done`, `LogBatchQuality`).
use swarmdialer.Prelude.{
  ℕ, ◌+◌, ◌≤◌, ◌≡◌, refl, ◌∙◌, ap, String, ◌==◌, ==_iff, Bool, true, false, ◌&&◌, List, [], ◌∷◌,
  arith, ind, eq_refl, if◌then◌else◌, length, count_if, All, Bool-cases, inl, inr,
}
use swarmdialer.Health.{Health}
use swarmdialer.Session.Pool.{
  Aor, Pools, shared, split, caller_pool, callee_pool, count_true, registration,
}
use swarmdialer.Session.State.{
  Task, Stage, finished, never_dialed, batch_detail, quality, Event, ActiveCall, Session, log_event,
}
use swarmdialer.Session.Booking.{times}
use swarmdialer.Session.Invariant.{Inv}
use swarmdialer.Session.Reach.{Reach}
use swarmdialer.Session.Guarantees.{is_done, AllDone, AllFree, all_settled}

pub record CallInfo : Type 0 where
  pub id : ℕ
  pub caller_aor : Aor
  pub callee_aor : Aor
  pub started_at : ℕ
  pub rtp_sent : ℕ
  pub rtp_recv : ℕ
  pub setup_ms : ℕ

pub record SessionSnapshot : Type 0 where
  pub total_extensions : ℕ
  pub available_extensions : ℕ
  pub active_calls : List CallInfo
  pub total_calls_started : ℕ
  pub total_calls_answered : ℕ
  pub total_calls_failed : ℕ
  pub total_calls_cancelled : ℕ
  pub total_rtp_sent : ℕ
  pub total_rtp_recv : ℕ
  pub recent_events : List Event

-- `stats` is what the RTP session of each call in the list has counted so far.
unfoldable pub call_infos : (ℕ → ℕ × ℕ) → List ActiveCall → List CallInfo
call_infos stats [] = []
call_infos stats (c ∷ cs) =
    record {
      id = c.id;
      caller_aor = c.caller_aor;
      callee_aor = c.callee_aor;
      started_at = c.started_at;
      rtp_sent = (stats c.id).0;
      rtp_recv = (stats c.id).1;
      setup_ms = c.setup_latency;
    }
    ∷ call_infos stats cs

unfoldable pub live_sent : List CallInfo → ℕ
live_sent [] = 0
live_sent (c ∷ cs) = c.rtp_sent + live_sent cs

unfoldable pub live_recv : List CallInfo → ℕ
live_recv [] = 0
live_recv (c ∷ cs) = c.rtp_recv + live_recv cs

unfoldable pub total_extensions : Pools → ℕ
total_extensions (shared p) = length p.phones
total_extensions (split p q) = length p.phones + length q.phones

unfoldable pub available_extensions : Pools → ℕ
unfolding count_true
available_extensions (shared p) = count_true p.phones p.available
available_extensions (split p q) = count_true p.phones p.available + count_true q.phones q.available

unfoldable pub snapshot : (ℕ → ℕ × ℕ) → Session → SessionSnapshot
unfolding call_infos live_sent live_recv total_extensions available_extensions
snapshot stats s =
    let calls = call_infos stats s.calls in
    record {
      total_extensions = total_extensions s.pools;
      available_extensions = available_extensions s.pools;
      active_calls = calls;
      total_calls_started = s.counters.started;
      total_calls_answered = s.counters.answered;
      total_calls_failed = s.counters.failed;
      total_calls_cancelled = s.counters.cancelled;
      total_rtp_sent = s.counters.rtp_sent_ended + live_sent calls;
      total_rtp_recv = s.counters.rtp_recv_ended + live_recv calls;
      recent_events = s.log.events;
    }

-- `Session.Health`: the totals and the registrations of the pools (of one pool, if it is shared).
unfoldable pub health_view : Session → Health × ℕ × ℕ × ℕ
unfolding registration caller_pool callee_pool
health_view s =
    let (n, failed, refreshes) = registration (caller_pool s.pools) in
    let (m, failed', refreshes') = registration (callee_pool s.pools) in
    elim s.pools [
      | shared p ↦ (s.health, n, failed, refreshes)
      | split p q ↦ (s.health, n + m, failed + failed', refreshes + refreshes')
    ]

abbrev pub is_answered : Stage → Bool
is_answered (finished r) = r.answered
is_answered _ = false

-- `batchAnswered` and `batchFailed` once the batch's goroutines have ended.
unfoldable pub batch_answered : ℕ → List Task → ℕ
batch_answered b ts = count_if (λ t. t.batch == b && is_answered t.stage) ts

abbrev pub is_unanswered : Stage → Bool
is_unanswered (finished r) = if r.answered then false else true
is_unanswered never_dialed = true
is_unanswered _ = false

unfoldable pub batch_failed : ℕ → List Task → ℕ
batch_failed b ts = count_if (λ t. t.batch == b && is_unanswered t.stage) ts

unfoldable pub batch_size : ℕ → List Task → ℕ
batch_size b ts = count_if (λ t. t.batch == b) ts

-- The goroutine that waits for the batch and logs "batch_done".
unfoldable pub log_batch_done : ℕ → ℕ → ℕ → Session → Session
unfolding batch_answered batch_failed batch_size log_event
log_batch_done now b n s = record s {
  log =
      log_event now "batch_done" "" ""
        (batch_detail n (batch_answered b s.tasks) (batch_size b s.tasks) (batch_failed b s.tasks))
        s.log;
}

unfoldable pub log_batch_quality : ℕ → String → Session → Session
unfolding log_event
log_batch_quality now detail s = record s {
  log = log_event now "batch_quality" "" "" (quality detail) s.log;
}

ended_once :
    (stage : Stage) → is_done stage ≡ true → ind (is_answered stage) + ind (is_unanswered stage) ≡ 1
ended_once never_dialed h = refl
ended_once (finished r) h = ground arith
ended_once stage h = ground arith

-- Once a batch's goroutines have ended, its "batch_done" counts each of its calls once, as answered
-- or as failed.
pub batch_adds_up :
    (b : ℕ) (ts : List Task)
    → All (λ (t : Task). t.batch ≡ b → is_done t.stage ≡ true) ts
    → batch_answered b ts + batch_failed b ts ≡ batch_size b ts
unfolding batch_answered batch_failed batch_size count_if
batch_adds_up b [] h = refl
batch_adds_up b (t ∷ ts) h = elim (Bool-cases (t.batch == b)) [
  | inl e ↦
      rw e
        (ground (arith, ended_once t.stage (h.0 ((==_iff t.batch b).0 e)), batch_adds_up b ts h.1))
  | inr e ↦ rw e (ground (arith, batch_adds_up b ts h.1))
]

all_true :
    (ks ys : List Aor) (av : Aor → Bool)
    → ((a : Aor) → ind (av a) ≡ times a ys)
    → ((a : Aor) → times a ks ≤ times a ys)
    → count_true ks av ≡ length ks
unfolding count_true times count_if
all_true [] ys av free within = refl
all_true (k ∷ ks) ys av free within =
    ground
      (arith, eq_refl k, free k, within k, all_true ks ys av free (λ a. omega (arith, within a)))

settled_pools : (ps : Pools) → AllFree ps → available_extensions ps ≡ total_extensions ps
unfolding available_extensions total_extensions
settled_pools (shared p) h = all_true p.phones p.phones p.available h (λ a. omega arith)
settled_pools (split p q) h = omega (
  arith,
  all_true p.phones p.phones p.available h.0 (λ a. omega arith),
  all_true q.phones q.phones q.available h.1 (λ a. omega arith),
)

-- In any state that is reached from a sound one (as a new session is) and in which every goroutine has
-- ended, the snapshot shows every extension available, no active call, RTP totals that are those of the
-- ended calls, and counters that add up.
pub snapshot_settled :
    {s s' : Session} (stats : ℕ → ℕ × ℕ)
    → Inv s
    → Reach s s'
    → AllDone s'.tasks
    → let v = snapshot stats s' in
      (v.available_extensions ≡ v.total_extensions)
      × (v.active_calls ≡ [])
      × (v.total_rtp_sent ≡ s'.counters.rtp_sent_ended)
      × (v.total_rtp_recv ≡ s'.counters.rtp_recv_ended)
      × (v.total_calls_started
          ≡ v.total_calls_answered + v.total_calls_failed + v.total_calls_cancelled)
unfolding snapshot
snapshot_settled {s' = s'} stats inv r d =
    let (free, empty, tally) = all_settled inv r d in
    (
      settled_pools s'.pools free,
      ap (call_infos stats) empty,
      ap (λ (cs : List ActiveCall). s'.counters.rtp_sent_ended + live_sent (call_infos stats cs))
            empty
          ∙ omega arith,
      ap (λ (cs : List ActiveCall). s'.counters.rtp_recv_ended + live_recv (call_infos stats cs))
            empty
          ∙ omega arith,
      tally,
    )
