-- ===== src/Store/File.antt =====
-- The configuration and its file: what is saved is what the next start reads.
use swarmdialer.Prelude.{
  ◌≡◌, ◌≢◌, ◌↔◌, refl, ◌∙◌, ap, arith, true, Option, none, some, List, [], ◌∷◌, Option-cases, ◌⊎◌,
  inl, inr,
}
use swarmdialer.Store.{
  Config, Change, changed, Saving, works, write_fails, rename_fails, Outcome, saved, no_server,
  not_saved, Store, ReadError, save, change, open_store,
}

-- The config of a start that works.
abbrev pub opened : {Text : Type 0} → (Store Text) ⊎ ReadError → Option Config
opened (inl st) = some st.cfg
opened (inr e) = none

abbrev pub keep : Outcome → Config → Config → Config
keep saved new old = new
keep _ new old = old

module _ {Text : Type 0} (encode : Config → Text) where
  -- Changes one after another.
  unfoldable pub change_all : List (Saving × Text × Change) → Store Text → Store Text
  unfolding change
  change_all [] st = st
  change_all ((answer, junk, ch) ∷ chs) st = change_all chs (change encode answer junk ch st).0

  -- The config in memory at the last change that was saved; the given one if none was.
  unfoldable pub last_saved : List (Saving × Text × Change) → Store Text → Config → Config
  unfolding change
  last_saved [] st c = c
  last_saved ((answer, junk, ch) ∷ chs) st c =
      let (st', outcome) = change encode answer junk ch st in
      last_saved chs st' (keep outcome st'.cfg c)

module _ {Text : Type 0} (decode : Text → Option Config) where
  -- A start now would read this config.
  abbrev pub OnDisk : Store Text → Config → Type 0
  OnDisk st c = opened (open_store decode true st.tmp st.file) ≡ some c

  -- What a change leaves, given the config that it means: this one in memory, and on disk the same if it
  -- is saved and else what was.
  abbrev pub Leaves : Option Config → Store Text → Store Text × Outcome → Type 0
  Leaves meant st (st', outcome) =
      (outcome ≡ saved → OnDisk st' st'.cfg)
      × (outcome ≢ saved → st'.file ≡ st.file)
      × ((outcome ≡ no_server) ↔ (meant ≡ none))
      × (outcome ≡ no_server → st' ≡ st)
      × (outcome ≢ no_server → meant ≡ some st'.cfg)

  opened_lem :
      (tmp tmp' : Option Text) (file : Option Text)
      → opened (open_store decode true tmp file) ≡ opened (open_store decode true tmp' file)
  unfolding open_store
  opened_lem tmp tmp' none = refl
  opened_lem tmp tmp' (some text) = elim (Option-cases (decode text)) [
    | inl q ↦ rw (q, open_store) refl
    | inr (c, q) ↦ rw (q, open_store) refl
  ]

  same_file : (st st' : Store Text) (c : Config) → st'.file ≡ st.file → OnDisk st c → OnDisk st' c
  same_file st st' c e d =
      ap (λ (f : Option Text). opened (open_store decode true st'.tmp f)) e
      ∙ opened_lem st'.tmp st.tmp st.file
      ∙ d

  keep-OnDisk :
      (meant : Option Config) (st st' : Store Text) (outcome : Outcome) (c : Config)
      → Leaves meant st (st', outcome)
      → OnDisk st c
      → OnDisk st' (keep outcome st'.cfg c)
  keep-OnDisk meant st st' saved c h d = h.0 refl
  keep-OnDisk meant st st' no_server c h d = same_file st st' c (h.1 (λ e. ground arith)) d
  keep-OnDisk meant st st' not_saved c h d = same_file st st' c (h.1 (λ e. ground arith)) d

module _ {Text : Type 0} (encode : Config → Text) (decode : Text → Option Config)
    (round_trip : (c : Config) → decode (encode c) ≡ some c) where
  save-Leaves :
      (answer : Saving) (junk : Text) (st : Store Text) (c : Config)
      → Leaves decode (some c) st (save encode answer junk (record st { cfg = c }))
  unfolding save open_store
  save-Leaves works junk st c =
      (λ k. rw (round_trip c) refl, λ k. absurd (k refl), ground arith, ground arith, λ k. refl)
  save-Leaves write_fails junk st c =
      (λ k. absurd (ground arith), λ k. refl, ground arith, ground arith, λ k. refl)
  save-Leaves rename_fails junk st c =
      (λ k. absurd (ground arith), λ k. refl, ground arith, ground arith, λ k. refl)

  -- Whatever the file system answers: a change that returns no error is what a restart reads; one that
  -- returns an error leaves the file as it was, whole; one that finds no server changes nothing, and any
  -- other has its effect in memory, saved or not. (The JSON codec reads what it has written.)
  pub change-Leaves :
      (answer : Saving) (junk : Text) (ch : Change) (st : Store Text)
      → Leaves decode (changed ch st.cfg) st (change encode answer junk ch st)
  unfolding change
  change-Leaves answer junk ch st = elim (Option-cases (changed ch st.cfg)) [
    | inl q ↦
        rw (q, change)
          (λ k. absurd (ground arith), λ k. refl, ground arith, λ k. refl, λ k. absurd (k refl))
    | inr (c, q) ↦ rw (q, change) (save-Leaves answer junk st c)
  ]

  -- After any changes, with saves that work or fail, a restart reads the config as it was in memory at
  -- the last change that was saved (or the one that the file held, if none was), if the JSON codec
  -- reads what it has written.
  pub change_all-OnDisk :
      (chs : List (Saving × Text × Change)) (st : Store Text) (c : Config)
      → OnDisk decode st c
      → OnDisk decode (change_all encode chs st) (last_saved encode chs st c)
  unfolding change_all last_saved
  change_all-OnDisk [] st c h = h
  change_all-OnDisk ((answer, junk, ch) ∷ chs) st c h =
      let (st', outcome) = change encode answer junk ch st in
      change_all-OnDisk chs st' (keep outcome st'.cfg c) (
        keep-OnDisk decode (changed ch st.cfg) st st' outcome c (change-Leaves answer junk ch st) h)
