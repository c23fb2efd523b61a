-- ===== src/Testrun/Sampling/Logs.antt =====
-- The steps of a sample that only log events and keep the diagnostic record.
use swarmdialer.Prelude.{
  ℕ, ◌≤◌, ◌≡◌, refl, sym, ◌∙◌, ap, String, Bool, true, false, ◌&&◌, not, List, [], ◌∷◌, ◌++◌, arith,
  leb, ltb, if◌then◌else◌, length,
}
use swarmdialer.Text.{Bytes, bytes}
use swarmdialer.Testrun.Samples.{
  Phase, baseline, Source, prometheus_host, prometheus_vps, Event, VpsLimits, Sample, HealthView,
  Reading, Diag, TestState, log_event, note_api_error,
}
use swarmdialer.Testrun.Diagnostics.{diagnose_sample}
use swarmdialer.Prelude.{length-append, ltb→lt, Bool-cases, Option-cases, inl, inr}
use swarmdialer.Testrun.Samples.{max_events}
use swarmdialer.Testrun.Diagnostics.{
  Nearing, nearings, note_near, note_drops, note_failure, note_failures, note_lost,
}
use swarmdialer.Testrun.Sampling.{note_errors, diagnosed}

-- Events are added at the end, no more than the limit allows, and the diagnostic record may change;
-- nothing else does.
unfoldable pub OnlyLogs : TestState → TestState → Type 0
OnlyLogs st st' =
    (es : List Event) × (d : Diag) × (st' ≡ record st { events = st.events ++ es; diag = d })
    × (length st.events ≤ max_events → length (st.events ++ es) ≤ max_events)

append_nil : (es : List Event) → es ++ [] ≡ es
append_nil [] = refl
append_nil (e ∷ es) = ap (λ x. e ∷ x) (append_nil es)

append_assoc : (xs ys zs : List Event) → (xs ++ ys) ++ zs ≡ xs ++ (ys ++ zs)
append_assoc [] ys zs = refl
append_assoc (x ∷ xs) ys zs = ap (λ es. x ∷ es) (append_assoc xs ys zs)

pub OnlyLogs-keep : (st : TestState) (d : Diag) → OnlyLogs st (record st { diag = d })
unfolding OnlyLogs
OnlyLogs-keep st d =
    let q = append_nil st.events in
    ([], d, ap (λ (es : List Event). record st { events = es; diag = d }) (sym q), λ h. rw q h)

pub OnlyLogs-trans : (a b c : TestState) → OnlyLogs a b → OnlyLogs b c → OnlyLogs a c
unfolding OnlyLogs
OnlyLogs-trans a b c (es, d, q, h) (es', d', q', h') =
    let events = ap (λ (s : TestState). s.events) q in
    let assoc = append_assoc a.events es es' in
    (
      es ++ es',
      d',
      q'
          ∙ ap (λ (s : TestState). record s { events = s.events ++ es'; diag = d' }) q
          ∙ ap (λ (l : List Event). record a { events = l; diag = d' }) assoc,
      λ k. rw (sym assoc, sym events) (h' (rw events (h k))),
    )

pub log_event-OnlyLogs :
    (e : Event) (st : TestState) (d : Diag) → OnlyLogs st (log_event e (record st { diag = d }))
unfolding log_event OnlyLogs
log_event-OnlyLogs e st d = elim (Bool-cases (ltb (length st.events) max_events)) [
  | inl q ↦ rw q (
    e ∷ [],
    d,
    refl,
    λ h. omega (arith, length-append st.events (e ∷ []), ltb→lt (length st.events) max_events q),
  )
  | inr q ↦ rw q (OnlyLogs-keep st d)
]

pub if-OnlyLogs :
    (b : Bool) (st x y : TestState)
    → OnlyLogs st x
    → OnlyLogs st y
    → OnlyLogs st (if b then x else y)
if-OnlyLogs true st x y h k = h
if-OnlyLogs false st x y h k = k

note_near-OnlyLogs :
    (s : Sample) (ns : List Nearing) (st : TestState) → OnlyLogs st (note_near s ns st)
unfolding note_near
note_near-OnlyLogs s [] st = OnlyLogs-keep st st.diag
note_near-OnlyLogs s (n ∷ ns) st =
    OnlyLogs-trans st _ _
      (if-OnlyLogs (n.is_near && not (st.diag.near n.metric)) st _ st (log_event-OnlyLogs _ st _)
        (OnlyLogs-keep st st.diag))
      (note_near-OnlyLogs s ns _)

note_drops-OnlyLogs : (s : Sample) (st : TestState) → OnlyLogs st (note_drops s st)
unfolding note_drops
note_drops-OnlyLogs s st =
    if-OnlyLogs (ltb 0 s.udp_send_drops && not st.diag.drops_seen) st _ st
      (log_event-OnlyLogs _ st _) (OnlyLogs-keep st st.diag)

note_failure-OnlyLogs :
    (s : Sample) (key : Bytes) (start prev now : ℕ) (st : TestState)
    → OnlyLogs st (note_failure s key start prev now st)
unfolding note_failure
note_failure-OnlyLogs s key start prev now st =
    if-OnlyLogs (ltb start now && leb prev start) st _ st (log_event-OnlyLogs _ st _)
      (OnlyLogs-keep st st.diag)

note_failures-OnlyLogs :
    (s : Sample) (keys : List Bytes) (h : HealthView) (st : TestState)
    → OnlyLogs st (note_failures s keys h st)
unfolding note_failures
note_failures-OnlyLogs s [] h st = OnlyLogs-keep st st.diag
note_failures-OnlyLogs s (key ∷ keys) h st =
    OnlyLogs-trans st _ _
      (note_failure-OnlyLogs s key (st.diag.start.health.failures key)
        (st.diag.prev.health.failures key) (h.health.failures key) st)
      (note_failures-OnlyLogs s keys h _)

note_lost-OnlyLogs : (s : Sample) (h : HealthView) (st : TestState) → OnlyLogs st (note_lost s h st)
unfolding note_lost
note_lost-OnlyLogs s h st =
    if-OnlyLogs (ltb st.diag.prev.not_registered h.not_registered) st _ st
      (log_event-OnlyLogs _ st st.diag) (OnlyLogs-keep st st.diag)

pub diagnose_sample-OnlyLogs :
    (limits : String → VpsLimits) (keys : List Bytes) (h : HealthView) (s : Sample) (st : TestState)
    → OnlyLogs st (diagnose_sample limits keys h s st)
unfolding diagnose_sample
diagnose_sample-OnlyLogs limits keys h s st =
    let st₁ = note_drops s (note_near s (nearings limits s) st) in
    let near =
      OnlyLogs-trans st _ st₁ (note_near-OnlyLogs s (nearings limits s) st)
        (note_drops-OnlyLogs s _) in
    elim (Option-cases st₁.diag.at_stop) [
      | inr (x, q) ↦ rw (q, diagnose_sample) (OnlyLogs-trans st st₁ _ near (OnlyLogs-keep st₁ _))
      | inl q ↦
          let st₂ = note_failures s keys h st₁ in
          let a = st₂.diag.start.health.dropped in
          let b = st₂.diag.prev.health.dropped in
          let st₃ = note_failure s (bytes "dropped") a b h.health.dropped st₂ in
          let c = st₃.diag.start.health.no_audio in
          let d = st₃.diag.prev.health.no_audio in
          let st₄ = note_failure s (bytes "no_audio") c d h.health.no_audio st₃ in
          let st₅ = note_lost s h st₄ in
          let lost =
            OnlyLogs-trans st₄ st₅ _ (note_lost-OnlyLogs s h st₄)
              (OnlyLogs-keep st₅ (record (st₅.diag) { prev = h })) in
          let silent = note_failure-OnlyLogs s (bytes "no_audio") c d h.health.no_audio st₃ in
          let dropped = note_failure-OnlyLogs s (bytes "dropped") a b h.health.dropped st₂ in
          rw (q, diagnose_sample)
            (OnlyLogs-trans st st₁ _ near (
              OnlyLogs-trans st₁ st₂ _ (note_failures-OnlyLogs s keys h st₁)
                (OnlyLogs-trans st₂ st₃ _ dropped (OnlyLogs-trans st₃ st₄ _ silent lost))))
    ]

pub diagnosed-OnlyLogs :
    (limits : String → VpsLimits) (phase : Phase) (r : Reading) (s : Sample) (st : TestState)
    → OnlyLogs st (diagnosed limits phase r s st)
unfolding diagnosed
diagnosed-OnlyLogs limits baseline r s st = OnlyLogs-keep st st.diag
diagnosed-OnlyLogs limits phase r s st =
    diagnose_sample-OnlyLogs limits r.failure_keys r.health s st

note_api_error-OnlyLogs :
    (now : ℕ) (x : Source) (st : TestState) → OnlyLogs st (note_api_error now x st)
unfolding note_api_error
note_api_error-OnlyLogs now x st =
    if-OnlyLogs (st.diag.api_err_seen x) st st _ (OnlyLogs-keep st st.diag)
      (log_event-OnlyLogs _ st _)

pub note_errors-OnlyLogs : (r : Reading) (st : TestState) → OnlyLogs st (note_errors r st)
unfolding note_errors
note_errors-OnlyLogs r st =
    OnlyLogs-trans st _ _
      (if-OnlyLogs r.is_host_failed st _ st (note_api_error-OnlyLogs r.at prometheus_host st)
        (OnlyLogs-keep st st.diag))
      (if-OnlyLogs r.is_vps_failed _ _ _ (note_api_error-OnlyLogs r.at prometheus_vps _)
        (OnlyLogs-keep _ _))
