-- ===== src/Testrun/Recordings/Delays.antt =====
-- What the report on recordings accounts for, and that a recording's first time stays.
use swarmdialer.Prelude.{
  ℕ, suc, ◌+◌, ◌≤◌, ◌≡◌, refl, ◌∙◌, ap, String, Bool, true, none, some, List, [], ◌∷◌, map, arith,
  leb, ltb, if◌then◌else◌, length, length-map, Bool-cases, Option-cases, inl, inr, count_if,
}
use swarmdialer.Testrun.Stats.{stats_of, length-sort}
use swarmdialer.Testrun.Recordings.{
  RecordingCdr, lookup, put_key, Poller, note_available, poll, min_recorded_call, all_in,
  all_available, Ready, collect, insert_ready, sort_ready, finish,
}

length-insert_ready : (e : Ready) (es : List Ready) → length (insert_ready e es) ≡ suc (length es)
unfolding insert_ready
length-insert_ready e [] = refl
length-insert_ready e (f ∷ fs) = ground (arith, length-insert_ready e fs)

length-sort_ready : (es : List Ready) → length (sort_ready es) ≡ length es
unfolding sort_ready
length-sort_ready [] = refl
length-sort_ready (e ∷ es) = length-insert_ready e (sort_ready es) ∙ ap suc (length-sort_ready es)

abbrev pub is_long : ℕ → String × RecordingCdr → Bool
is_long min_dur (id, c) = leb min_dur c.duration

collect_lem :
    (min_dur : ℕ) (first : List (String × ℕ)) (m : List (String × RecordingCdr))
    → length (collect min_dur first m).0 + (collect min_dur first m).1
      ≡ count_if (is_long min_dur) m
unfolding collect count_if
collect_lem min_dur first [] = refl
collect_lem min_dur first ((id, c) ∷ m) = ground (arith, collect_lem min_dur first m)

collect-none_missing :
    (min_dur : ℕ) (first : List (String × ℕ)) (m : List (String × RecordingCdr))
    → min_recorded_call ≤ min_dur
    → all_in first m ≡ true
    → (collect min_dur first m).1 ≡ 0
unfolding collect all_in
collect-none_missing min_dur first [] h a = refl
collect-none_missing min_dur first ((id, c) ∷ m) h a =
    ground (arith, collect-none_missing min_dur first m h)

lookup-put_key :
    {A : Type 0} (id key : String) (x y : A) (m : List (String × A))
    → lookup id m ≡ some x
    → lookup key m ≡ none
    → lookup id (put_key key y m) ≡ some x
unfolding lookup put_key
lookup-put_key id key x y [] h k = absurd (ground arith)
lookup-put_key id key x y ((key', z) ∷ m) h k = ground (arith, lookup-put_key id key x y m)

note_available-stays :
    (now : ℕ) (c : RecordingCdr) (m : List (String × ℕ)) (id : String) (at : ℕ)
    → lookup id m ≡ some at
    → lookup id (note_available now c m) ≡ some at
unfolding note_available
note_available-stays now c m id at h = elim (Bool-cases c.available) [
  | inr e ↦ rw (e, note_available) h
  | inl e ↦ elim (Option-cases (lookup c.unique_id m)) [
    | inr (x, q) ↦ rw (e, q, note_available) h
    | inl q ↦ rw (e, q, note_available) (lookup-put_key id c.unique_id at now m h q)
  ]
]

-- Once a recording has been seen to be available, no later answer of the CDR API, whatever it says of
-- this or any other call, changes the time noted for it.
pub poll-stays :
    (now : ℕ) (cs : List RecordingCdr) (p : Poller) (id : String) (at : ℕ)
    → lookup id p.first_avail ≡ some at
    → lookup id (poll now cs p).first_avail ≡ some at
unfolding poll
poll-stays now [] p id at h = h
poll-stays now (c ∷ cs) p id at h = elim (Bool-cases (ltb c.start_unix p.from)) [
  | inl e ↦ rw (e, poll) (poll-stays now cs p id at h)
  | inr e ↦
      rw (e, poll) (poll-stays now cs _ id at (note_available-stays now c p.first_avail id at h))
]

abbrev pub at_least : ℕ → ℕ
at_least min_dur = if ltb min_dur min_recorded_call then min_recorded_call else min_dur

at_least-ge : (min_dur : ℕ) → min_recorded_call ≤ at_least min_dur
at_least-ge min_dur = ground arith

length-delays :
    (es : List Ready) → (stats_of (map (λ (e : Ready). e.delay) (sort_ready es))).n ≡ length es
unfolding stats_of
length-delays es =
    length-sort (map (λ (e : Ready). e.delay) (sort_ready es))
    ∙ length-map (λ (e : Ready). e.delay) (sort_ready es)
    ∙ length-sort_ready es

-- The calls long enough to count (at least five seconds, and the shortest that the test asks for) are
-- each reported with a delay or as missing; and if the wait for them ended because every recording
-- seen was available, none is missing.
pub finish_accounts :
    (min_dur : ℕ) (p : Poller)
    → ((finish min_dur p).conversion.n + (finish min_dur p).missing
        ≡ count_if (is_long (at_least min_dur)) p.cdrs)
      × (all_available p ≡ true → (finish min_dur p).missing ≡ 0)
unfolding finish
finish_accounts min_dur p =
    let evs = (collect (at_least min_dur) p.first_avail p.cdrs).0 in
    (
      rw (length-delays evs) (collect_lem (at_least min_dur) p.first_avail p.cdrs),
      λ a. collect-none_missing (at_least min_dur) p.first_avail p.cdrs (at_least-ge min_dur) a,
    )
