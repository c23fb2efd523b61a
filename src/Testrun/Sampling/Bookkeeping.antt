-- ===== src/Testrun/Sampling/Bookkeeping.antt =====
-- What the samples of a test keep: the peak of its calls, its events, the first quality degradation and
-- the first full RAM disk; and that the reason to stop is that of the counts of samples over a threshold.
use swarmdialer.Prelude.{
  ℕ, ◌+◌, ◌*◌, ◌%◌, ◌^◌, ◌≤◌, ◌≡◌, refl, sym, ◌∙◌, ap, String, ◌&&◌, Option, none, some, List, [],
  ◌∷◌, ◌++◌, arith, leb, ltb, if◌then◌else◌, length,
}
use swarmdialer.Testrun.Profile.{recording_bytes_per_second}
use swarmdialer.Testrun.Samples.{
  Phase, StopReason, StopDetail, Degraded, Event, VpsLimits, Metric, Sample, Reading, TestState,
  log_event,
}
use swarmdialer.Testrun.Saturation.{checks_of, run_checks}
use swarmdialer.Testrun.Diagnostics.{is_load}
use swarmdialer.Prelude.{Bool-cases, Option-cases, inl, inr}
use swarmdialer.Testrun.Samples.{max_events, Metric}
use swarmdialer.Testrun.Sampling.{
  set_udp, note_errors, diagnosed, add_sample, note_ramdisk, note_degraded, note_quality, set_last,
  set_checked, judge, sampled, sample, sub_u64, degraded_by,
}
use swarmdialer.Testrun.Sampling.Logs.{
  OnlyLogs, OnlyLogs-keep, OnlyLogs-trans, log_event-OnlyLogs, diagnosed-OnlyLogs,
  note_errors-OnlyLogs,
}

-- The most calls at once of some samples.
unfoldable pub most_calls : List Sample → ℕ
most_calls [] = 0
most_calls (s ∷ ss) =
    let most = most_calls ss in if ltb most s.concurrent_calls then s.concurrent_calls else most

-- MaxConcurrent is the most calls of all samples, and no more events are kept than the limit.
abbrev pub IsSound : TestState → Type 0
IsSound st = (st.max_concurrent ≡ most_calls st.samples) × (length st.events ≤ max_events)

most_calls-append :
    (ss : List Sample) (s : Sample)
    → most_calls (ss ++ s ∷ [])
      ≡ (if ltb (most_calls ss) s.concurrent_calls then s.concurrent_calls else most_calls ss)
unfolding most_calls
most_calls-append [] s = ground arith
most_calls-append (t ∷ ss) s = ground (arith, most_calls-append ss s)

-- The fields that a step that only logs does not change.
abbrev pub Kept : TestState → TestState → Type 0
Kept st st' =
    (st'.samples ≡ st.samples)
    × (st'.max_concurrent ≡ st.max_concurrent)
    × (st'.saturated ≡ st.saturated)
    × (st'.degraded_at ≡ st.degraded_at)
    × (st'.ramdisk_full_at ≡ st.ramdisk_full_at)

pub OnlyLogs-Kept : (st st' : TestState) → OnlyLogs st st' → Kept st st'
unfolding OnlyLogs
OnlyLogs-Kept st st' (es, d, q, h) = (
  ap (λ (s : TestState). s.samples) q,
  ap (λ (s : TestState). s.max_concurrent) q,
  ap (λ (s : TestState). s.saturated) q,
  ap (λ (s : TestState). s.degraded_at) q,
  ap (λ (s : TestState). s.ramdisk_full_at) q,
)

OnlyLogs-IsSound : (st st' : TestState) → OnlyLogs st st' → IsSound st → IsSound st'
unfolding OnlyLogs
OnlyLogs-IsSound st st' (es, d, q, h) (m, e) =
    let events = ap (λ (s : TestState). s.events) q in
    let calls = ap (λ (s : TestState). s.max_concurrent) q in
    let all = ap (λ (s : TestState). most_calls s.samples) q in
    (calls ∙ m ∙ sym all, rw events (h e))

add_sample-IsSound : (s : Sample) (st : TestState) → IsSound st → IsSound (add_sample s st)
unfolding add_sample
add_sample-IsSound s st (m, e) = (rw (most_calls-append st.samples s, m) refl, e)

log_event-IsSound : (e : Event) (st : TestState) → IsSound st → IsSound (log_event e st)
log_event-IsSound e st h = OnlyLogs-IsSound st _ (log_event-OnlyLogs e st st.diag) h

note_ramdisk-IsSound : (s : Sample) (st : TestState) → IsSound st → IsSound (note_ramdisk s st)
unfolding note_ramdisk
note_ramdisk-IsSound s st h = elim (Option-cases st.ramdisk_full_at) [
  | inr (x, q) ↦ rw (q, note_ramdisk) h
  | inl q ↦
      elim (Bool-cases (
        ltb 0 (recording_bytes_per_second st.test.recording st.test.recording_format)
        && (ltb 0 st.ramdisk_mb && leb (95 * st.ramdisk_mb) s.ramdisk_est))) [
          | inl e ↦ rw (q, e, note_ramdisk) (log_event-IsSound _ _ h)
          | inr e ↦ rw (q, e, note_ramdisk) h
        ]
]

note_degraded-IsSound :
    (s : Sample) (why : Option Degraded) (st : TestState)
    → IsSound st
    → IsSound (note_degraded s why st)
unfolding note_degraded
note_degraded-IsSound s none st h = elim (Option-cases st.degraded_at) [
  | inr (x, q) ↦ rw (q, note_degraded) h
  | inl q ↦ rw (q, note_degraded) h
]
note_degraded-IsSound s (some d) st h = elim (Option-cases st.degraded_at) [
  | inr (x, q) ↦ rw (q, note_degraded) h
  | inl q ↦ rw (q, note_degraded) (log_event-IsSound _ _ h)
]

set_checked-IsSound :
    (x : Option (StopReason × StopDetail) × (Metric → ℕ)) (st : TestState)
    → IsSound st
    → IsSound (set_checked x st)
set_checked-IsSound (none, counts) st h = h
set_checked-IsSound (some x, counts) st h = h

judge-IsSound :
    (limits : String → VpsLimits) (s : Sample) (st : TestState)
    → IsSound st
    → IsSound (judge limits s st).0
unfolding judge note_quality
judge-IsSound limits s st h =
    set_checked-IsSound (run_checks (checks_of limits s) st.saturated) _
      (note_degraded-IsSound s _ (set_last s (note_ramdisk s st)) (note_ramdisk-IsSound s st h))

-- The state before a sample is added to it.
unfoldable pub before_add : Reading → TestState → TestState
before_add r st = note_errors r (record st { diag = set_udp r.udp st.diag })

pub before_add-OnlyLogs : (r : Reading) (st : TestState) → OnlyLogs st (before_add r st)
unfolding before_add
before_add-OnlyLogs r st =
    OnlyLogs-trans st _ (before_add r st) (OnlyLogs-keep st (set_udp r.udp st.diag))
      (note_errors-OnlyLogs r _)

sampled-IsSound :
    (phase : Phase) (r : Reading) (st : TestState) → IsSound st → IsSound (sampled phase r st).1
unfolding sampled before_add
sampled-IsSound phase r st h =
    add_sample-IsSound _ (before_add r st)
      (OnlyLogs-IsSound st (before_add r st) (before_add-OnlyLogs r st) h)

-- Every sample of a test, in any phase and with any answers, keeps that MaxConcurrent is the most calls
-- at once of all the samples taken, and that at most 100 events are kept.
pub sample-IsSound :
    (limits : String → VpsLimits) (phase : Phase) (r : Reading) (st : TestState)
    → IsSound st
    → IsSound (sample limits phase r st).0
unfolding sample
sample-IsSound limits phase r st h =
    let (s, st₁) = sampled phase r st in
    let noted =
      OnlyLogs-IsSound st₁ _ (diagnosed-OnlyLogs limits phase r s st₁)
        (sampled-IsSound phase r st h) in
    elim (Bool-cases (is_load phase)) [
      | inl e ↦ rw (e, sample) (judge-IsSound limits s (diagnosed limits phase r s st₁) noted)
      | inr e ↦ rw (e, sample) noted
    ]

-- What is set once is not set again.
abbrev pub Stays : {A : Type 0} → Option A → Option A → Type 0
Stays {A} o o' = (x : A) → o ≡ some x → o' ≡ some x

-- Both notes of a first time are still there.
abbrev pub BothStay : TestState → TestState → Type 0
BothStay st st' =
    Stays st.ramdisk_full_at st'.ramdisk_full_at × Stays st.degraded_at st'.degraded_at

note_ramdisk-BothStay : (s : Sample) (st : TestState) → BothStay st (note_ramdisk s st)
unfolding note_ramdisk log_event
note_ramdisk-BothStay s st = ground arith

note_degraded-BothStay :
    (s : Sample) (why : Option Degraded) (st : TestState) → BothStay st (note_degraded s why st)
unfolding note_degraded log_event
note_degraded-BothStay s why st = ground arith

OnlyLogs-BothStay : (st st' : TestState) → OnlyLogs st st' → BothStay st st'
OnlyLogs-BothStay st st' h =
    let (_, _, _, degraded, ramdisk) = OnlyLogs-Kept st st' h in
    ((λ x e. ramdisk ∙ e), (λ x e. degraded ∙ e))

set_checked-BothStay :
    (x : Option (StopReason × StopDetail) × (Metric → ℕ)) (st : TestState)
    → BothStay st (set_checked x st)
set_checked-BothStay (none, counts) st = ((λ x e. e), (λ x e. e))
set_checked-BothStay (some y, counts) st = ((λ x e. e), (λ x e. e))

judge-BothStay :
    (limits : String → VpsLimits) (s : Sample) (st : TestState) → BothStay st (judge limits s st).0
unfolding judge note_quality
judge-BothStay limits s st =
    let st₁ = note_ramdisk s st in
    let (ramdisk₁, degraded₁) = note_ramdisk-BothStay s st in
    let failed = sub_u64 s.failed st₁.last_failed in
    let total = (failed + sub_u64 s.answered st₁.last_answered) % 2 ^ 64 in
    let why = degraded_by failed total s.setup_p95_ms in
    let (ramdisk₂, degraded₂) = note_degraded-BothStay s why (set_last s st₁) in
    let found = run_checks (checks_of limits s) st.saturated in
    let (ramdisk₃, degraded₃) = set_checked-BothStay found (note_degraded s why (set_last s st₁)) in
    (
      (λ x e. ramdisk₃ x (ramdisk₂ x (ramdisk₁ x e))),
      (λ x e. degraded₃ x (degraded₂ x (degraded₁ x e))),
    )

-- The first quality degradation and the first full RAM disk that a test notes are kept as they are by
-- every sample after them.
pub sample-BothStay :
    (limits : String → VpsLimits) (phase : Phase) (r : Reading) (st : TestState)
    → BothStay st (sample limits phase r st).0
unfolding sample sampled before_add add_sample
sample-BothStay limits phase r st =
    let (s, st₁) = sampled phase r st in
    let (ramdisk₁, degraded₁) = OnlyLogs-BothStay st (before_add r st) (before_add-OnlyLogs r st) in
    let st₂ = diagnosed limits phase r s st₁ in
    let (ramdisk₂, degraded₂) =
      OnlyLogs-BothStay st₁ st₂ (diagnosed-OnlyLogs limits phase r s st₁) in
    let (ramdisk₃, degraded₃) = judge-BothStay limits s st₂ in
    elim (Bool-cases (is_load phase)) [
      | inl e ↦
          rw (e, sample)
            (
              (λ x e. ramdisk₃ x (ramdisk₂ x (ramdisk₁ x e))),
              (λ x e. degraded₃ x (degraded₂ x (degraded₁ x e))),
            )
      | inr e ↦
          rw (e, sample) ((λ x e. ramdisk₂ x (ramdisk₁ x e)), (λ x e. degraded₂ x (degraded₁ x e)))
    ]
