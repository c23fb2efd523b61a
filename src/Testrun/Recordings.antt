-- ===== src/Testrun/Recordings.antt =====
-- `mp3Poller` of internal/testrun/runner.go: when each call's recording first shows as available, and
-- what a test reports of that. One role's maps: `cdrs[role]` and `firstAvail[role]` are association
-- lists by unique id. Times and durations are whole seconds.
use swarmdialer.Prelude.{
  ℕ, zero, suc, ◌+◌, ◌-◌, ◌≤◌, ◌<◌, ◌≡◌, ◌≢◌, refl, sym, ◌∙◌, ap, String, ◌==s◌, Bool, true, false,
  ◌&&◌, not, Option, none, some, List, [], ◌∷◌, ◌++◌, map, arith, leb, ltb, if◌then◌else◌, length,
  All, Bool-cases, Option-cases, inl, inr, count_if,
}
use swarmdialer.Testrun.Stats.{Stats, stats_of, Trend, trend_of}
pub mod Delays

-- pbxware.RecordingCDR, without its status.
pub record RecordingCdr : Type 0 where
  pub unique_id : String
  pub start_unix : ℕ
  pub duration : ℕ
  pub available : Bool

unfoldable pub lookup {ℓ} : {A : Type ℓ} → String → List (String × A) → Option A
lookup id [] = none
lookup id ((key, x) ∷ m) = let rest = lookup id m in if key ==s id then some x else rest

-- m[id] = x
unfoldable pub put_key {ℓ} : {A : Type ℓ} → String → A → List (String × A) → List (String × A)
put_key id x [] = (id, x) ∷ []
put_key id x ((key, y) ∷ m) =
    let rest = put_key id x m in if key ==s id then (key, x) ∷ m else (key, y) ∷ rest

pub record Poller : Type 0 where
  pub from : ℕ
  pub cdrs : List (String × RecordingCdr)
  pub first_avail : List (String × ℕ)

unfoldable pub note_available : ℕ → RecordingCdr → List (String × ℕ) → List (String × ℕ)
unfolding lookup put_key
note_available now c m =
    if c.available
    then elim (lookup c.unique_id m) [ some at ↦ m | none ↦ put_key c.unique_id now m ]
    else m

-- The loop of `poll` over the role's CDRs; `now` is when the poll has its answer.
unfoldable pub poll : ℕ → List RecordingCdr → Poller → Poller
unfolding note_available put_key
poll now [] p = p
poll now (c ∷ cs) p = poll now cs (
    if ltb c.start_unix p.from then p else record p {
      cdrs = put_key c.unique_id c p.cdrs;
      first_avail = note_available now c p.first_avail;
    })

abbrev pub min_recorded_call : ℕ
min_recorded_call = 5

unfoldable pub all_in : List (String × ℕ) → List (String × RecordingCdr) → Bool
unfolding lookup
all_in first [] = true
all_in first ((id, c) ∷ m) =
    let rest = all_in first m in
    elim (lookup id first) [
      | some at ↦ rest
      | none ↦ if leb min_recorded_call c.duration then false else rest
    ]

abbrev pub all_available : Poller → Bool
all_available p = all_in p.first_avail p.cdrs

-- A call whose recording was there: when it ended, and the delay.
pub record Ready : Type 0 where
  pub end : ℕ
  pub delay : ℕ

-- The loop of `finish` over the CDRs: the calls that count, and how many recordings are missing.
unfoldable pub collect : ℕ → List (String × ℕ) → List (String × RecordingCdr) → List Ready × ℕ
unfolding lookup
collect min_dur first [] = ([], 0)
collect min_dur first ((id, c) ∷ m) =
    let (evs, missing) = collect min_dur first m in
    let end = c.start_unix + c.duration in
    if ltb c.duration min_dur then (evs, missing) else elim (lookup id first) [
      | none ↦ (evs, suc missing)
      | some at ↦ (record { end = end; delay = at - end } ∷ evs, missing)
    ]

unfoldable pub insert_ready : Ready → List Ready → List Ready
insert_ready e [] = e ∷ []
insert_ready e (f ∷ fs) =
    let rest = insert_ready e fs in if leb e.end f.end then e ∷ f ∷ fs else f ∷ rest

-- sort.Slice, which leaves open the order of calls that ended in the same second.
unfoldable pub sort_ready : List Ready → List Ready
unfolding insert_ready
sort_ready [] = []
sort_ready (e ∷ es) = insert_ready e (sort_ready es)

pub record RecordingReport : Type 0 where
  pub conversion : Stats
  pub trend : Trend
  pub missing : ℕ

-- `finish`, once polling is over.
unfoldable pub finish : ℕ → Poller → RecordingReport
unfolding collect sort_ready stats_of trend_of
finish min_dur p =
    let (evs, missing) =
      collect (if ltb min_dur min_recorded_call then min_recorded_call else min_dur) p.first_avail
        p.cdrs in
    let delays = map (λ (e : Ready). e.delay) (sort_ready evs) in
    record { conversion = stats_of delays; trend = trend_of delays; missing = missing }
