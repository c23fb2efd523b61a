-- ===== src/Health.antt =====
-- internal/orchestrator/health.go, internal/sipua/dialerror.go and `splitFailureKey` of
-- internal/testrun/diagnostics.go: the running totals of what went wrong with a session's calls.
-- A map from keys to counters is a function that is 0 off its keys. Jitter (a float in the source)
-- is a number of some fixed small unit.
use swarmdialer.Prelude.{
  ℕ, suc, ◌+◌, ◌*◌, Bool, true, false, Option, none, some, List, [], ◌∷◌, ◌++◌, ◌==◌, if◌then◌else◌,
  min, max, String,
}
use swarmdialer.Text.{Bytes, bytes, bytes_eq, decimal, cut_prefix, scan_digits}
pub mod Keys

-- The Fail* constants.
pub data Cause : Type 0 where
  rejected no_response no_answer setup_error : Cause

abbrev pub cause_name : Cause → Bytes
cause_name rejected = bytes "rejected"
cause_name no_response = bytes "no_response"
cause_name no_answer = bytes "no_answer"
cause_name setup_error = bytes "setup_error"

pub record DialError : Type 0 where
  pub cause : Cause
  pub sip_code : ℕ

-- An error as `errors.As` sees it: its final response's status code if it wraps an
-- `ErrDialogResponse` with a response, by pointer or by value.
pub record AnswerError : Type 0 where
  pub response_pointer : Option ℕ
  pub response_value : Option ℕ

unfoldable pub late : Bool → DialError
late saw_response = record { cause = if saw_response then no_answer else no_response; sip_code = 0 }

unfoldable pub classify_answer_error : AnswerError → Bool → Bool → DialError
unfolding late
classify_answer_error err timed_out saw_response =
    if timed_out then late saw_response else elim err.response_pointer [
      | some code ↦ record { cause = rejected; sip_code = code }
      | none ↦ elim err.response_value [
        | some code ↦ record { cause = rejected; sip_code = code }
        | none ↦ late saw_response
      ]
    ]

abbrev pub is_rejected : Cause → Bool
is_rejected rejected = true
is_rejected _ = false

-- An error that is no `DialError` counts as a failure of the setup.
unfoldable pub failure_cause : Option DialError → Cause × ℕ
failure_cause (some de) = (de.cause, de.sip_code)
failure_cause none = (setup_error, 0)

-- The third result of `failureKey`.
unfoldable pub failure_key : Cause → ℕ → Bytes
failure_key cause code =
    if is_rejected cause then cause_name cause ++ (bytes "_" ++ decimal code) else cause_name cause

unfoldable pub split_failure_key : Bytes → Bytes × ℕ
unfolding cut_prefix
split_failure_key key = elim (cut_prefix (cause_name rejected ++ bytes "_") key) [
  | some rest ↦ (cause_name rejected, scan_digits 0 rest)
  | none ↦ (key, 0)
]

pub record MediaStats : Type 0 where
  pub expected : ℕ
  pub received : ℕ
  pub jitter_ms : ℕ

pub record MediaTotals : Type 0 where
  pub calls : ℕ
  pub expected : ℕ
  pub received : ℕ
  pub jitter_sum_ms : ℕ
  pub jitter_max_ms : ℕ

-- A stream of which nothing was expected is left out.
unfoldable pub add : MediaTotals → MediaStats → MediaTotals
add m s = if s.expected == 0 then m else record {
  calls = suc m.calls;
  expected = m.expected + s.expected;
  received = m.received + min s.received s.expected;
  jitter_sum_ms = m.jitter_sum_ms + s.jitter_ms;
  jitter_max_ms = max m.jitter_max_ms s.jitter_ms;
}

pub record Health : Type 0 where
  pub failures : Bytes → ℕ
  pub dropped : ℕ
  pub no_audio : ℕ
  pub caller_media : MediaTotals
  pub callee_media : MediaTotals

abbrev pub no_media : MediaTotals
no_media = record { calls = 0; expected = 0; received = 0; jitter_sum_ms = 0; jitter_max_ms = 0 }

abbrev pub no_health : Health
no_health = record {
  failures = λ key. 0;
  dropped = 0;
  no_audio = 0;
  caller_media = no_media;
  callee_media = no_media;
}

-- h.Failures[key]++
unfoldable pub count_failure : Bytes → Health → Health
unfolding bytes_eq
count_failure key h = record h {
  failures = λ k. if bytes_eq key k then suc (h.failures k) else h.failures k;
}

-- The update of `runCall` when an answered call has ended.
unfoldable pub count_ended : MediaStats → Bool → Bool → ℕ → ℕ → Health → Health
unfolding add
count_ended media dropped send_media sent recv h = record h {
  caller_media = add h.caller_media media;
  dropped = if dropped then suc h.dropped else h.dropped;
  no_audio =
      if send_media
      then (if sent == 0 then h.no_audio else (if recv == 0 then suc h.no_audio else h.no_audio))
      else h.no_audio;
}

-- The function that `watchAnsweredMedia` gives the answering phones.
unfoldable pub count_answered_media : MediaStats → Health → Health
unfolding add
count_answered_media media h = record h { callee_media = add h.callee_media media }

unfoldable pub reset_media_peaks : Health → Health
reset_media_peaks h = record h {
  caller_media = record (h.caller_media) { jitter_max_ms = 0 };
  callee_media = record (h.callee_media) { jitter_max_ms = 0 };
}
