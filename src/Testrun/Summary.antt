-- ===== src/Testrun/Summary.antt =====
-- `summarize` of internal/testrun/runner.go: what a test reports of its calls, and the load that it
-- reports as the load of the test. Averages are kept as a sum and a count, but for the calls.
use swarmdialer.Prelude.{
  ℕ, zero, suc, ◌+◌, ◌-◌, ◌*◌, ◌/◌, ◌≤◌, ◌≡◌, refl, String, ◌==s◌, Bool, true, false, List, [], ◌∷◌,
  arith, ltb, if◌then◌else◌, length, drop, All, Bool-cases, inl, inr,
}
use swarmdialer.Testrun.Samples.{ramping, holding, rolling_on, VpsMetrics, Sample}
use swarmdialer.Testrun.Sampling.Bookkeeping.{most_calls}

-- orchestrator.CallRecord, as far as it is read here.
pub record EndedCall : Type 0 where
  pub answered : Bool
  pub setup_ms : ℕ
  pub rtp_sent : ℕ
  pub rtp_recv : ℕ

pub record CallTotals : Type 0 where
  pub started : ℕ
  pub answered : ℕ
  pub failed : ℕ
  pub setups : List ℕ
  pub sent : ℕ
  pub recv : ℕ

unfoldable pub call_totals : List EndedCall → CallTotals
call_totals [] = record { started = 0; answered = 0; failed = 0; setups = []; sent = 0; recv = 0 }
call_totals (c ∷ cs) =
    let t = call_totals cs in
    if c.answered
    then record {
      started = suc t.started;
      answered = suc t.answered;
      failed = t.failed;
      setups = c.setup_ms ∷ t.setups;
      sent = c.rtp_sent + t.sent;
      recv = c.rtp_recv + t.recv;
    }
    else record t { started = suc t.started; failed = suc t.failed }

abbrev pub is_hold : Sample → Bool
is_hold s = elim s.phase [ holding ↦ true | _ ↦ false ]

abbrev pub is_active : Sample → Bool
is_active s = elim s.phase [ ramping ↦ true | rolling_on ↦ true | _ ↦ false ]

unfoldable pub select : (Sample → Bool) → List Sample → List Sample
select p [] = []
select p (s ∷ ss) = let rest = select p ss in if p s then s ∷ rest else rest

-- The last minute of the active ones, if there is no hold.
unfoldable pub or_last_minute : List Sample → List Sample → List Sample
or_last_minute [] active =
    if ltb 12 (length active) then drop (length active - 12) active else active
or_last_minute (s ∷ ss) active = s ∷ ss

unfoldable pub picked : List Sample → List Sample
unfolding select or_last_minute
picked ss = or_last_minute (select is_hold ss) (select is_active ss)

unfoldable pub sum_over : (Sample → ℕ) → List Sample → ℕ
sum_over f [] = 0
sum_over f (s ∷ ss) = f s + sum_over f ss

-- A sample without the role adds nothing, but counts in the average.
unfoldable pub of_role : (VpsMetrics → ℕ) → String → List (String × VpsMetrics) → ℕ
of_role f role [] = 0
of_role f role ((r, v) ∷ vps) =
    let rest = of_role f role vps in if r ==s role then f v + rest else rest

pub record AtLoad : Type 0 where
  pub n : ℕ
  pub calls : ℕ
  pub host_cpu_sum : ℕ
  pub host_mem_sum : ℕ
  pub swarmdialer_cpu_sum : ℕ
  pub vps_cpu_sum : String → ℕ
  pub asterisk_cpu_sum : String → ℕ

unfoldable pub at_load : List Sample → AtLoad
unfolding picked sum_over of_role
at_load ss =
    let pick = picked ss in
    record {
      n = length pick;
      calls = sum_over (λ s. s.concurrent_calls) pick / length pick;
      host_cpu_sum = sum_over (λ s. s.host.cpu_pct) pick;
      host_mem_sum = sum_over (λ s. s.host.mem_pct) pick;
      swarmdialer_cpu_sum = sum_over (λ s. s.local_cpu_pct) pick;
      vps_cpu_sum = λ role. sum_over (λ s. of_role (λ v. v.cpu_pct) role s.vps) pick;
      asterisk_cpu_sum = λ role. sum_over (λ s. of_role (λ v. v.asterisk_cpu_pct) role s.vps) pick;
    }

-- No sample has more calls than this.
abbrev AtMost : ℕ → List Sample → Type 0
AtMost m ss = All (λ (s : Sample). s.concurrent_calls ≤ m) ss

most_calls-AtMost : (m : ℕ) (ss : List Sample) → most_calls ss ≤ m → AtMost m ss
unfolding most_calls
most_calls-AtMost m [] h = tt
most_calls-AtMost m (s ∷ ss) h = (ground arith, most_calls-AtMost m ss (ground arith))

select-AtMost :
    (m : ℕ) (p : Sample → Bool) (ss : List Sample) → AtMost m ss → AtMost m (select p ss)
unfolding select
select-AtMost m p [] h = tt
select-AtMost m p (s ∷ ss) h = elim (Bool-cases (p s)) [
  | inl e ↦ rw (e, select) (h.0, select-AtMost m p ss h.1)
  | inr e ↦ rw (e, select) (select-AtMost m p ss h.1)
]

drop-AtMost : (m n : ℕ) (ss : List Sample) → AtMost m ss → AtMost m (drop n ss)
drop-AtMost m zero ss h = h
drop-AtMost m (suc n) [] h = tt
drop-AtMost m (suc n) (s ∷ ss) h = drop-AtMost m n ss h.1

or_last_minute-AtMost :
    (m : ℕ) (ss active : List Sample)
    → AtMost m ss
    → AtMost m active
    → AtMost m (or_last_minute ss active)
unfolding or_last_minute
or_last_minute-AtMost m (s ∷ ss) active h k = h
or_last_minute-AtMost m [] active h k = elim (Bool-cases (ltb 12 (length active))) [
  | inl e ↦ rw (e, or_last_minute) (drop-AtMost m (length active - 12) active k)
  | inr e ↦ rw (e, or_last_minute) k
]

sum_over-le :
    (m : ℕ) (ss : List Sample) → AtMost m ss → sum_over (λ s. s.concurrent_calls) ss ≤ m * length ss
unfolding sum_over
sum_over-le m [] h = omega arith
sum_over-le m (s ∷ ss) h = grind (arith, sum_over-le m ss h.1, h.0)

average-le : (sum n m : ℕ) → sum ≤ m * n → sum / n ≤ m
average-le sum zero m h = omega arith
average-le sum (suc n) m h = grind arith

-- The calls that a test reports at load are no more than the most that it had at once.
pub at_load-calls : (ss : List Sample) → (at_load ss).calls ≤ most_calls ss
unfolding at_load picked
at_load-calls ss =
    let all = most_calls-AtMost (most_calls ss) ss (omega arith) in
    let pick =
      or_last_minute-AtMost (most_calls ss) (select is_hold ss) (select is_active ss)
        (select-AtMost _ is_hold ss all) (select-AtMost _ is_active ss all) in
    average-le _ (length (picked ss)) (most_calls ss) (sum_over-le (most_calls ss) (picked ss) pick)

-- Every call of a test counts once, as answered or failed, and the setup times are the answered ones'.
pub call_totals_lem :
    (cs : List EndedCall)
    → ((call_totals cs).started ≡ length cs)
      × ((call_totals cs).answered + (call_totals cs).failed ≡ length cs)
      × (length (call_totals cs).setups ≡ (call_totals cs).answered)
unfolding call_totals
call_totals_lem [] = (refl, refl, refl)
call_totals_lem (c ∷ cs) = let (a, b, d) = call_totals_lem cs in ground (arith, a, b, d)
