-- ===== src/Logstore.antt =====
-- internal/logstore/logstore.go: the names of the log files, and the paths that a request reaches. The
-- time package's stamp is given; filepath.Join of plain parts puts a slash between them.
use swarmdialer.Prelude.{
  ℕ, zero, suc, ◌+◌, ◌/◌, ◌%◌, ◌≤◌, ◌<◌, ◌≡◌, ◌≢◌, refl, sym, ◌∙◌, ap, Bool, true, false, ◌&&◌,
  ◌||◌, not, Option, none, some, List, [], ◌∷◌, ◌++◌, arith, leb, ltb, ◌==◌, if◌then◌else◌, All,
  Bool-cases, inl, inr,
}
use swarmdialer.Text.{Bytes, bytes, bytes_eq}
pub mod Names

pub data Section : Type 0 where
  local_logs remote_logs : Section

-- `safeNamePattern` is of runs of any others.
abbrev pub is_safe : ℕ → Bool
is_safe c =
    (leb b'a' c && leb c b'z')
    || (leb b'A' c && leb c b'Z')
    || (leb b'0' c && leb c b'9')
    || c == b'.'
    || c == b'_'
    || c == b'-'

-- ReplaceAllString(label, "-"); `in_run` tells that the last character was replaced.
unfoldable pub replace_runs : Bool → Bytes → Bytes
replace_runs in_run [] = []
replace_runs in_run (c ∷ s) =
    let kept = replace_runs false s in
    let run = replace_runs true s in
    if is_safe c then c ∷ kept else (if in_run then run else b'-' ∷ run)

-- strings.Trim(label, "-"): the front, and what only dashes follow.
unfoldable pub trim_front : Bytes → Bytes
trim_front [] = []
trim_front (c ∷ s) = let rest = trim_front s in if c == b'-' then rest else c ∷ s

unfoldable pub trim_back : Bytes → Bytes
trim_back [] = []
trim_back (c ∷ s) =
    let rest = trim_back s in
    elim rest [ [] ↦ if c == b'-' then [] else c ∷ [] | d ∷ t ↦ c ∷ d ∷ t ]

abbrev pub or_batch : Bytes → Bytes
or_batch [] = bytes "batch"
or_batch (c ∷ s) = c ∷ s

unfoldable pub safe_name : Bytes → Bytes
unfolding replace_runs trim_front trim_back
safe_name label = or_batch (trim_back (trim_front (replace_runs false label)))

-- `randSuffix`, by the clock's nanoseconds.
unfoldable pub rand_suffix : ℕ → Bytes
rand_suffix nanos =
    let n = nanos % 10_000 in
    (b'0' + n / 1000) ∷ (b'0' + n / 100 % 10) ∷ (b'0' + n / 10 % 10) ∷ (b'0' + n % 10) ∷ []

-- The name of `CreateBatchLog`.
unfoldable pub batch_log_name : Bytes → Bytes → ℕ → Bytes
unfolding safe_name rand_suffix
batch_log_name label stamp nanos =
    safe_name label ++ b'_' ∷ (stamp ++ b'_' ∷ (rand_suffix nanos ++ bytes ".log"))

abbrev pub is_separator : ℕ → Bool
is_separator c = c == b'/' || c == b'\\'

-- strings.ContainsAny(name, "/\\")
unfoldable pub has_separator : Bytes → Bool
has_separator [] = false
has_separator (c ∷ s) = let rest = has_separator s in if is_separator c then true else rest

abbrev pub dir_name : Section → Bytes
dir_name local_logs = bytes "local"
dir_name remote_logs = bytes "remote"

-- `path`, under the store's root; none if the name is refused.
unfoldable pub path : Bytes → Section → Bytes → Option Bytes
unfolding has_separator bytes_eq
path root section [] = none
path root section (c ∷ s) =
    if has_separator (c ∷ s) || bytes_eq (c ∷ s) (bytes ".") || bytes_eq (c ∷ s) (bytes "..")
    then none
    else some (root ++ b'/' ∷ (dir_name section ++ b'/' ∷ c ∷ s))

-- The store: what a path holds.
abbrev pub Files : Type 0
Files = Bytes → Option Bytes

abbrev pub put_file : Bytes → Option Bytes → Files → Files
put_file p x files q = if bytes_eq p q then x else files q

-- `CreateBatchLog`, with the content that its caller writes.
unfoldable pub create_batch_log :
    Bytes → Section → Bytes → Bytes → ℕ → Bytes → Files → Bytes × Files
unfolding batch_log_name
create_batch_log root section label stamp nanos content files =
    let name = batch_log_name label stamp nanos in
    (name, put_file (root ++ b'/' ∷ (dir_name section ++ b'/' ∷ name)) (some content) files)

unfoldable pub read : Bytes → Section → Bytes → Files → Option Bytes
unfolding path
read root section name files = elim (path root section name) [ none ↦ none | some p ↦ files p ]

-- `Delete`: none on an error.
unfoldable pub delete : Bytes → Section → Bytes → Files → Option Files
unfolding path
delete root section name files = elim (path root section name) [
  | none ↦ none
  | some p ↦ elim (files p) [ none ↦ none | some x ↦ some (put_file p none files) ]
]
