-- ===== src/Cdr.antt =====
-- internal/pbxware/cdr.go: call records. Finding the record of each call, its MOS, and the records of
-- recorded calls page by page. A row is its columns, a column that is not text being empty, as the source
-- reads it. Times are Unix seconds.
use swarmdialer.Prelude.{
  ℕ, zero, suc, ◌+◌, ◌-◌, ◌*◌, ◌^◌, max, Bool, true, false, not, ◌&&◌, ◌||◌, Option, none, some,
  List, [], ◌∷◌, ◌++◌, map, length, get_elem?, ltb, leb, ◌==◌, if◌then◌else◌,
}
use swarmdialer.Prelude.Int.{ℤ, pos, negsuc}
use swarmdialer.Retry.{lower}
use swarmdialer.Sdp.Parse.{atoi}
use swarmdialer.Text.{Bytes, bytes, bytes_eq, all_digits}
pub mod Match
pub mod Pages
pub mod Since

abbrev pub ltb_ℤ : ℤ → ℤ → Bool
ltb_ℤ (pos a) (pos b) = ltb a b
ltb_ℤ (pos a) (negsuc b) = false
ltb_ℤ (negsuc a) (pos b) = true
ltb_ℤ (negsuc a) (negsuc b) = ltb b a

-- The absolute difference.
abbrev pub dist : ℤ → ℤ → ℕ
dist (pos a) (pos b) = (a - b) + (b - a)
dist (pos a) (negsuc b) = a + suc b
dist (negsuc a) (pos b) = suc a + b
dist (negsuc a) (negsuc b) = (a - b) + (b - a)

abbrev pub add_ℤ : ℤ → ℕ → ℤ
add_ℤ (pos a) n = pos (a + n)
add_ℤ (negsuc a) n = if ltb a n then pos (n - suc a) else negsuc (a - n)

abbrev pub sub_ℤ : ℤ → ℕ → ℤ
sub_ℤ (pos a) n = if ltb a n then negsuc (n - suc a) else pos (a - n)
sub_ℤ (negsuc a) n = negsuc (a + n)

abbrev is_number : Bytes → Bool
is_number [] = false
is_number (c ∷ s) = all_digits (c ∷ s)

-- The value that strconv.ParseInt gives, with an error or not: out of range it is the bound.
unfoldable pub parsed : Bytes → ℤ
unfolding atoi all_digits
parsed [] = pos 0
parsed (c ∷ s) = elim (atoi (c ∷ s)) [
  | some n ↦ n
  | none ↦
      if is_number (if c == b'-' || c == b'+' then s else c ∷ s)
      then (if c == b'-' then negsuc (2 ^ 63 - 1) else pos (2 ^ 63 - 1))
      else pos 0
]

pub record CdrEntry : Type 0 where
  pub from : Bytes
  pub start_unix : ℤ
  pub unique_id : Bytes

-- What stands in front of the first dot, if there is one.
unfoldable pub before_dot : Bytes → Option Bytes
before_dot [] = none
before_dot (c ∷ s) =
    let rest = before_dot s in
    if c == b'.' then some [] else elim rest [ none ↦ none | some t ↦ some (c ∷ t) ]

unfoldable pub is_unique_id : Bytes → Bool
unfolding before_dot atoi
is_unique_id s = elim (before_dot s) [
  | none ↦ false
  | some t ↦ elim (atoi t) [ none ↦ false | some n ↦ true ]
]

-- The first column that looks like a unique id, from the index `i` on.
unfoldable pub unique_index : ℕ → List Bytes → Option ℕ
unfolding is_unique_id
unique_index i [] = none
unique_index i (s ∷ row) =
    let rest = unique_index (suc i) row in if is_unique_id s then some i else rest

abbrev pub column : List Bytes → ℕ → Bytes
column row i = elim (get_elem? row i) [ none ↦ [] | some s ↦ s ]

-- The text behind the last opening parenthesis, if there is one.
unfoldable pub after_paren : Bytes → Option Bytes
after_paren [] = none
after_paren (c ∷ s) =
    let rest = after_paren s in
    elim rest [ some t ↦ some t | none ↦ if c == b'(' then some s else none ]

-- The text in front of a closing parenthesis at the end.
unfoldable pub before_close : Bytes → Option Bytes
before_close [] = none
before_close (c ∷ []) = if c == b')' then some [] else none
before_close (c ∷ d ∷ s) =
    let rest = before_close (d ∷ s) in elim rest [ none ↦ none | some t ↦ some (c ∷ t) ]

-- The extension of a display name, or the text as it is.
unfoldable pub caller_of : Bytes → Bytes
unfolding after_paren before_close
caller_of from = elim (after_paren from) [
  | none ↦ from
  | some t ↦ elim (before_close t) [ none ↦ from | some ext ↦ ext ]
]

unfoldable pub parse_cdr_row : List Bytes → Option CdrEntry
unfolding unique_index parsed caller_of
parse_cdr_row row = elim (unique_index 0 row) [
  | none ↦ none
  | some i ↦
      if ltb i 5
      then none
      else some (record {
        from = caller_of (column row (if leb 13 i then 1 else 0));
        start_unix = parsed (column row (i - 5));
        unique_id = column row i;
      })
]

abbrev pub tolerance : ℕ
tolerance = 15

pub record CallWindow : Type 0 where
  pub ext : Bytes
  pub start : ℤ
  pub end : ℤ

abbrev pub in_window : CallWindow → CdrEntry → Bool
in_window w e =
    not (ltb_ℤ e.start_unix (sub_ℤ w.start tolerance))
    && not (ltb_ℤ (add_ℤ w.end tolerance) e.start_unix)

-- The loop over the entries of one caller, with the best so far.
unfoldable pub closest : CallWindow → Option CdrEntry → List CdrEntry → Option CdrEntry
unfolding bytes_eq
closest w best [] = best
closest w best (e ∷ es) =
    let found = closest w (some e) es in
    let kept = closest w best es in
    if bytes_eq e.from w.ext && in_window w e
    then elim best [
      | none ↦ found
      | some b ↦ if ltb (dist e.start_unix w.start) (dist b.start_unix w.start) then found else kept
    ]
    else kept

-- `batchFindCDRUniqueIDs` for each window, once the entries are downloaded
unfoldable pub find_unique_ids : List CdrEntry → List CallWindow → List (Option Bytes)
unfolding closest
find_unique_ids es = map (λ w. elim (closest w none es) [ none ↦ none | some e ↦ some e.unique_id ])

-- MOS values are of a type of their own, of which only the zero is told apart.
module _ {M : Type 0} (is_zero : M → Bool) where
  -- The loop of `getMOSByUniqueID`, with the exact entry and the first that is not zero.
  unfoldable pub scan_mos : Bytes → Option M → Option M → List (Bytes × M) → Option M × Option M
  unfolding bytes_eq
  scan_mos id exact first [] = (exact, first)
  scan_mos id exact first ((uid, m) ∷ entries) =
      scan_mos id (if bytes_eq uid id then some m else exact)
        (elim first [ some f ↦ some f | none ↦ if is_zero m then none else some m ]) entries

  unfoldable pub mos_by_unique_id : Bytes → List (Bytes × M) → Option M
  unfolding scan_mos
  mos_by_unique_id id entries =
      let (exact, first) = scan_mos id none none entries in
      elim exact [ none ↦ first | some m ↦ if is_zero m then first else some m ]
