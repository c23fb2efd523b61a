-- ===== src/Cdr/Since.antt =====
-- Reading pages until an old record is met loses nothing, as long as the pages come newest first.
use mathlib.Core.Bool.{false≢true}
use mathlib.Core.Option.{none-ne-some}
use mathlib.Core.List.{append-nil, append_assoc}
use swarmdialer.Prelude.{
  ℕ, zero, suc, ◌≤◌, ◌≡◌, refl, sym, ap, subst, ◌∙◌, arith, Bool, true, false, ◌||◌, Option, none,
  some, List, [], ◌∷◌, ◌++◌, if◌then◌else◌, Bool-cases, Option-cases, inl, inr, All, ◌⊎◌,
}
use swarmdialer.Prelude.Int.{ℤ, pos, negsuc}
use swarmdialer.Text.{Bytes}
use swarmdialer.Cdr.{ltb_ℤ}
use swarmdialer.Cdr.Pages.{
  RecordingCdr, Page, Columns, columns, Row, skipped, panicked, cut_short, read_as, read_row,
  read_all, take_rows, read_pages, recording_cdrs_since,
}

module _ (since : ℤ) where
  abbrev pub is_old : RecordingCdr → Bool
  is_old r = ltb_ℤ r.start_unix since

  -- The records that are not too old.
  unfoldable pub fresh : List RecordingCdr → List RecordingCdr
  fresh [] = []
  fresh (r ∷ rs) = let rest = fresh rs in if is_old r then rest else r ∷ rest

  unfoldable pub any_old : List RecordingCdr → Bool
  any_old [] = false
  any_old (r ∷ rs) = let rest = any_old rs in if is_old r then true else rest

-- The records of rows; none if one of them lacks a column.
unfoldable pub records : Columns → List (List Bytes) → Option (List RecordingCdr)
unfolding read_row
records c [] = some []
records c (row ∷ rows) =
    let rest = records c rows in
    elim (read_row c row) [
      | skipped ↦ rest
      | panicked ↦ none
      | cut_short start ↦ none
      | read_as r ↦ elim rest [ none ↦ none | some rs ↦ some (r ∷ rs) ]
    ]

-- No record is newer than one in front of it.
abbrev pub IsNewestFirst : List RecordingCdr → Type 0
IsNewestFirst [] = Unit
IsNewestFirst (r ∷ rs) = All (λ s. ltb_ℤ r.start_unix s.start_unix ≡ false) rs × IsNewestFirst rs

-- The server has these pages from the n-th on, with these records in all.
pub data Serves (page : ℕ → Option Page) : ℕ → List RecordingCdr → Type 0 where
  last :
      (n : ℕ) (p : Page) (c : Columns) (row : List Bytes) (rows : List (List Bytes))
      (rs : List RecordingCdr)
      → page n ≡ some p
      → p.rows ≡ row ∷ rows
      → columns p.header ≡ some c
      → records c (row ∷ rows) ≡ some rs
      → p.next_page ≡ false
      → Serves page n rs
  more :
      (n : ℕ) (p : Page) (c : Columns) (row : List Bytes) (rows : List (List Bytes))
      (rs later : List RecordingCdr)
      → page n ≡ some p
      → p.rows ≡ row ∷ rows
      → columns p.header ≡ some c
      → records c (row ∷ rows) ≡ some rs
      → p.next_page ≡ true
      → Serves page (suc n) later
      → Serves page n (rs ++ later)

unfoldable pub page_count :
    {page : ℕ → Option Page} {n : ℕ} {rs : List RecordingCdr} → Serves page n rs → ℕ
page_count (last _ _ _ _ _ _ _ _ _ _ _) = 1
page_count (more _ _ _ _ _ _ _ _ _ _ _ _ s) = suc (page_count s)

older_than : (a b s : ℤ) → ltb_ℤ a s ≡ true → ltb_ℤ a b ≡ false → ltb_ℤ b s ≡ true
older_than (pos a) (pos b) (pos s) h k = ground arith
older_than (pos a) (negsuc b) (pos s) h k = refl
older_than (pos a) b (negsuc s) h k = cc
older_than (negsuc a) (pos b) s h k = cc
older_than (negsuc a) (negsuc b) (pos s) h k = refl
older_than (negsuc a) (negsuc b) (negsuc s) h k = ground arith

module _ (since : ℤ) where
  fresh-append :
      (rs ss : List RecordingCdr) → fresh since (rs ++ ss) ≡ fresh since rs ++ fresh since ss
  unfolding fresh
  fresh-append [] ss = refl
  fresh-append (r ∷ rs) ss = ground (arith, fresh-append rs ss)

  fresh-old :
      (r : RecordingCdr) (rs : List RecordingCdr)
      → is_old since r ≡ true
      → All (λ s. ltb_ℤ r.start_unix s.start_unix ≡ false) rs
      → fresh since rs ≡ []
  unfolding fresh
  fresh-old r [] h hs = refl
  fresh-old r (s ∷ rs) h hs =
      rw (older_than r.start_unix s.start_unix since h hs.0, fresh) (fresh-old r rs h hs.1)

  All-tail {ℓ} : {A : Type ℓ} (P : A → Type 0) (xs ys : List A) → All P (xs ++ ys) → All P ys
  All-tail P [] ys h = h
  All-tail P (x ∷ xs) ys h = All-tail P xs ys h.1

  -- Behind an old record nothing is fresh.
  fresh-behind :
      (rs later : List RecordingCdr)
      → IsNewestFirst (rs ++ later)
      → any_old since rs ≡ true
      → fresh since later ≡ []
  unfolding any_old
  fresh-behind [] later h o = absurd (false≢true o)
  fresh-behind (r ∷ rs) later h o = elim (Bool-cases (is_old since r)) [
    | inl old ↦ fresh-old r later old (All-tail _ rs later h.0)
    | inr new ↦ fresh-behind rs later h.1 (ground arith)
  ]

  IsNewestFirst-tail :
      (rs later : List RecordingCdr) → IsNewestFirst (rs ++ later) → IsNewestFirst later
  IsNewestFirst-tail [] later h = h
  IsNewestFirst-tail (r ∷ rs) later h = IsNewestFirst-tail rs later h.1

  Row-cases :
      (x : Row)
      → (x ≡ skipped)
        ⊎ ((x ≡ panicked)
            ⊎ (((t : ℤ) × (x ≡ cut_short t)) ⊎ ((r : RecordingCdr) × (x ≡ read_as r))))
  Row-cases skipped = inl refl
  Row-cases panicked = inr (inl refl)
  Row-cases (cut_short t) = inr (inr (inl (t, refl)))
  Row-cases (read_as r) = inr (inr (inr (r, refl)))

  abbrev Taken : Columns → List (List Bytes) → Bool → List RecordingCdr → List RecordingCdr → Type 0
  Taken c rows older out rs =
      take_rows c since rows older out ≡ read_all (older || any_old since rs, out ++ fresh since rs)

  -- One more record in front.
  Taken-read_as :
      (c : Columns) (row : List Bytes) (rows : List (List Bytes)) (r : RecordingCdr)
      (rs : List RecordingCdr) (older : Bool) (out : List RecordingCdr)
      → read_row c row ≡ read_as r
      → Taken c rows true out rs
      → Taken c rows older (out ++ r ∷ []) rs
      → Taken c (row ∷ rows) older out (r ∷ rs)
  unfolding take_rows fresh any_old
  Taken-read_as c row rows r rs older out q old new = elim (Bool-cases (is_old since r)) [
    | inl o ↦
        rw (q, o, take_rows, fresh, any_old)
          (old ∙ ap (λ b. read_all (b, out ++ fresh since rs)) (sym (or_true older)))
    | inr n ↦
        rw (q, n, take_rows, fresh, any_old)
          (new
            ∙ ap (λ l. read_all (older || any_old since rs, l))
                (append_assoc out (r ∷ []) (fresh since rs)))
  ]
    where
      or_true : (b : Bool) → (b || true) ≡ true
      or_true true = refl
      or_true false = refl

  take_rows_lem :
      (c : Columns) (rows : List (List Bytes)) (rs : List RecordingCdr) (older : Bool)
      (out : List RecordingCdr)
      → records c rows ≡ some rs
      → Taken c rows older out rs
  unfolding take_rows records fresh any_old
  take_rows_lem c [] rs older out h =
      let e : [] ≡ rs = cc in subst (Taken c [] older out) e (rw (append-nil, or_false older) refl)
    where
      or_false : (b : Bool) → (b || false) ≡ b
      or_false true = refl
      or_false false = refl
  take_rows_lem c (row ∷ rows) rs older out h = elim (Row-cases (read_row c row)) [
    | inl q ↦
        let h' : records c rows ≡ some rs = rw (q, records) at h in
        rw (q, take_rows) (take_rows_lem c rows rs older out h')
    | inr (inl q) ↦ let h' : none ≡ some rs = rw (q, records) at h in absurd (none-ne-some rs h')
    | inr (inr (inl (t, q))) ↦
        let h' : none ≡ some rs = rw (q, records) at h in absurd (none-ne-some rs h')
    | inr (inr (inr (r, q))) ↦ elim (Option-cases (records c rows)) [
      | inl k ↦ let h' : none ≡ some rs = rw (q, k, records) at h in absurd (none-ne-some rs h')
      | inr (ss, k) ↦
          let h' : some (r ∷ ss) ≡ some rs = rw (q, k, records) at h in
          let e : r ∷ ss ≡ rs = cc in
          subst (Taken c (row ∷ rows) older out) e (
            Taken-read_as c row rows r ss older out q (take_rows_lem c rows ss true out k)
              (take_rows_lem c rows ss older (out ++ r ∷ []) k))
    ]
  ]

  -- The fuel that a server's pages need is their number.
  read_pages_lem :
      (page : ℕ → Option Page) (n fuel : ℕ) (rs out : List RecordingCdr) (s : Serves page n rs)
      → IsNewestFirst rs
      → page_count s ≤ fuel
      → read_pages page since fuel n out ≡ read_all (out ++ fresh since rs)
  unfolding read_pages page_count
  read_pages_lem page n zero rs out (last _ _ _ _ _ _ _ _ _ _ _) h f = absurd (omega arith)
  read_pages_lem page n zero rs out (more _ _ _ _ _ _ _ _ _ _ _ _ s) h f = absurd (omega arith)
  read_pages_lem page n (suc fuel) rs out (last _ p c row rows _ hp hr hc hs hn) h f =
      rw (hp, read_pages, hr, hc, take_rows_lem c (row ∷ rows) rs false out hs, hn) refl
  read_pages_lem page n (suc fuel) _ out (more _ p c row rows rs later hp hr hc hs hn s) h f =
      elim (Bool-cases (any_old since rs)) [
        | inl o ↦
            rw
              (
                hp,
                read_pages,
                hr,
                hc,
                take_rows_lem c (row ∷ rows) rs false out hs,
                hn,
                o,
                fresh-append rs later,
                fresh-behind rs later h o,
                append-nil,
              )
              refl
        | inr o ↦
            rw (hp, read_pages, hr, hc, take_rows_lem c (row ∷ rows) rs false out hs, hn, o)
              (read_pages_lem page (suc n) fuel later (out ++ fresh since rs) s
                  (IsNewestFirst-tail rs later h) (omega arith)
                ∙ ap read_all (append_assoc out (fresh since rs) (fresh since later))
                ∙ ap (λ l. read_all (out ++ l)) (sym (fresh-append rs later)))
      ]

  -- If every page can be read and the records of all pages come newest first, the result is every record
  -- of every page that is not older than the time asked for, in their order, though the pages behind an
  -- old record are not requested; as many rounds as there are pages are enough.
  pub recording_cdrs_since-fresh :
      (page : ℕ → Option Page) (rs : List RecordingCdr) (s : Serves page 1 rs)
      → IsNewestFirst rs
      → recording_cdrs_since page since (page_count s) ≡ read_all (fresh since rs)
  unfolding recording_cdrs_since
  recording_cdrs_since-fresh page rs s h =
      read_pages_lem page 1 (page_count s) rs [] s h (omega arith)
