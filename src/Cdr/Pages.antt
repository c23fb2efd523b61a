-- ===== src/Cdr/Pages.antt =====
-- internal/pbxware/cdr.go: `RecordingCDRsSince`, which reads pages of records, newest first, until it
-- meets one that is too old. A row that lacks a column which is read makes the source panic.
use swarmdialer.Prelude.{
  ℕ, zero, suc, Bool, true, false, not, ◌||◌, Option, none, some, List, [], ◌∷◌, ◌++◌, get_elem?,
  if◌then◌else◌,
}
use swarmdialer.Prelude.Int.{ℤ}
use swarmdialer.Retry.{lower}
use swarmdialer.Text.{Bytes, bytes, bytes_eq}
use swarmdialer.Cdr.{ltb_ℤ, parsed}

-- A record of the response: `duration` is strconv.Atoi's value.
pub record RecordingCdr : Type 0 where
  pub unique_id : Bytes
  pub start_unix : ℤ
  pub duration : ℤ
  pub available : Bool
  pub status : Bytes

pub record Page : Type 0 where
  pub header : List Bytes
  pub rows : List (List Bytes)
  pub next_page : Bool

-- The last column of a name, as the map of the source keeps it.
unfoldable pub column_of : Bytes → ℕ → List Bytes → Option ℕ
unfolding bytes_eq
column_of name i [] = none
column_of name i (h ∷ hs) =
    let rest = column_of name (suc i) hs in
    elim rest [ some j ↦ some j | none ↦ if bytes_eq h name then some i else none ]

pub record Columns : Type 0 where
  pub id : ℕ
  pub start : ℕ
  pub duration : ℕ
  pub available : ℕ
  pub status : Option ℕ

unfoldable pub columns : List Bytes → Option Columns
unfolding column_of
columns header = elim (column_of (bytes "Unique ID") 0 header) [
  | none ↦ none
  | some i ↦ elim (column_of (bytes "Date/Time") 0 header) [
    | none ↦ none
    | some s ↦ elim (column_of (bytes "Total Duration") 0 header) [
      | none ↦ none
      | some d ↦ elim (column_of (bytes "Recording Available") 0 header) [
        | none ↦ none
        | some a ↦ some (record {
          id = i;
          start = s;
          duration = d;
          available = a;
          status = column_of (bytes "Status") 0 header;
        })
      ]
    ]
  ]
]

-- What a row is: without the flag, which is skipped; a record; without a start time; or of a start
-- time and without a column that is read of a row that is not too old.
pub data Row : Type 0 where
  skipped panicked : Row
  cut_short : ℤ → Row
  read_as : RecordingCdr → Row

unfoldable pub read_row : Columns → List Bytes → Row
unfolding parsed lower bytes_eq
read_row c row = elim (get_elem? row c.available) [
  | none ↦ skipped
  | some avail ↦ elim (get_elem? row c.start) [
    | none ↦ panicked
    | some start ↦ elim (get_elem? row c.id) [
      | none ↦ cut_short (parsed start)
      | some id ↦ elim (get_elem? row c.duration) [
        | none ↦ cut_short (parsed start)
        | some dur ↦ read_as (record {
          unique_id = id;
          start_unix = parsed start;
          duration = parsed dur;
          available = bytes_eq (lower avail) (bytes "true");
          status = elim c.status [
            | none ↦ []
            | some i ↦ elim (get_elem? row i) [ none ↦ [] | some s ↦ s ]
          ];
        })
      ]
    ]
  ]
]

pub data Ending (A : Type 0) : Type 0 where
  read_all : A → Ending A
  request_error missing_columns panic out_of_fuel : Ending A

-- The loop over the rows of a page, with whether one was too old, and the records so far.
unfoldable pub take_rows :
    Columns → ℤ → List (List Bytes) → Bool → List RecordingCdr → Ending (Bool × List RecordingCdr)
unfolding read_row
take_rows c since [] older out = read_all (older, out)
take_rows c since (row ∷ rows) older out = elim (read_row c row) [
  | skipped ↦ take_rows c since rows older out
  | panicked ↦ panic
  | cut_short start ↦
      let old = take_rows c since rows true out in if ltb_ℤ start since then old else panic
  | read_as r ↦
      let old = take_rows c since rows true out in
      let new = take_rows c since rows older (out ++ r ∷ []) in
      if ltb_ℤ r.start_unix since then old else new
]

-- `page` is the answer to the request of a page; a page without rows ends the loop.
unfoldable pub read_pages :
    (ℕ → Option Page) → ℤ → ℕ → ℕ → List RecordingCdr → Ending (List RecordingCdr)
unfolding take_rows columns
read_pages page since zero n out = out_of_fuel
read_pages page since (suc fuel) n out = elim (page n) [
  | none ↦ request_error
  | some p ↦ elim p.rows [
    | [] ↦ read_all out
    | row ∷ rows ↦ elim (columns p.header) [
      | none ↦ missing_columns
      | some c ↦ elim (take_rows c since (row ∷ rows) false out) [
        | read_all (older, more) ↦
            if not p.next_page || older
            then read_all more
            else read_pages page since fuel (suc n) more
        | request_error ↦ request_error
        | missing_columns ↦ missing_columns
        | panic ↦ panic
        | out_of_fuel ↦ out_of_fuel
      ]
    ]
  ]
]

unfoldable pub recording_cdrs_since : (ℕ → Option Page) → ℤ → ℕ → Ending (List RecordingCdr)
unfolding read_pages
recording_cdrs_since page since fuel = read_pages page since fuel 1 []
