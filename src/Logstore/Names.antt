-- ===== src/Logstore/Names.antt =====
-- The logs that are created are the ones that can be read and deleted.
use swarmdialer.Prelude.{
  ℕ, ◌+◌, ◌/◌, ◌%◌, ◌≤◌, ◌<◌, ◌≡◌, ◌≢◌, refl, sym, ◌∙◌, ap, Bool, true, false, ◌||◌, none, some, [],
  ◌∷◌, ◌++◌, arith, ◌==◌, if◌then◌else◌, All, length, length-append, Bool-cases, inl, inr,
}
use swarmdialer.Text.{Bytes, bytes, bytes_eq, bytes_eq_refl, bytes_eq→eq}
use swarmdialer.Logstore.{
  Section, is_safe, replace_runs, trim_front, trim_back, or_batch, safe_name, rand_suffix,
  batch_log_name, has_separator, dir_name, path, Files, put_file, create_batch_log, read, delete,
}

-- Only letters, digits, dots, underscores and dashes.
abbrev pub IsSafe : Bytes → Type 0
IsSafe s = All (λ (c : ℕ). is_safe c ≡ true) s

replace_runs-IsSafe : (in_run : Bool) (s : Bytes) → IsSafe (replace_runs in_run s)
unfolding replace_runs
replace_runs-IsSafe in_run [] = tt
replace_runs-IsSafe in_run (c ∷ s) = elim (Bool-cases (is_safe c)) [
  | inl e ↦ rw e (e, replace_runs-IsSafe false s)
  | inr e ↦ elim (Bool-cases in_run) [
    | inl i ↦ rw (e, i) (replace_runs-IsSafe true s)
    | inr i ↦ rw (e, i) (refl, replace_runs-IsSafe true s)
  ]
]

trim_front-IsSafe : (s : Bytes) → IsSafe s → IsSafe (trim_front s)
unfolding trim_front
trim_front-IsSafe [] h = tt
trim_front-IsSafe (c ∷ s) h = elim (Bool-cases (c == b'-')) [
  | inl e ↦ rw e (trim_front-IsSafe s h.1)
  | inr e ↦ rw e h
]

trim_back-cons :
    (c : ℕ) (rest : Bytes)
    → is_safe c ≡ true
    → IsSafe rest
    → IsSafe (elim rest [ [] ↦ if c == b'-' then [] else c ∷ [] | d ∷ t ↦ c ∷ d ∷ t ])
trim_back-cons c [] h k = elim (Bool-cases (c == b'-')) [ inl e ↦ rw e tt | inr e ↦ rw e (h, tt) ]
trim_back-cons c (d ∷ t) h k = (h, k)

trim_back-IsSafe : (s : Bytes) → IsSafe s → IsSafe (trim_back s)
unfolding trim_back
trim_back-IsSafe [] h = tt
trim_back-IsSafe (c ∷ s) h = trim_back-cons c (trim_back s) h.0 (trim_back-IsSafe s h.1)

or_batch-IsSafe : (s : Bytes) → IsSafe s → IsSafe (or_batch s) × (or_batch s ≢ [])
or_batch-IsSafe [] h = ((refl, (refl, (refl, (refl, (refl, tt))))), λ e. ground arith)
or_batch-IsSafe (c ∷ s) h = (h, λ e. ground arith)

safe_name-IsSafe : (s : Bytes) → IsSafe (safe_name s) × (safe_name s ≢ [])
unfolding safe_name
safe_name-IsSafe s =
    or_batch-IsSafe _ (trim_back-IsSafe _ (trim_front-IsSafe _ (replace_runs-IsSafe false s)))

append-IsSafe : (s t : Bytes) → IsSafe s → IsSafe t → IsSafe (s ++ t)
append-IsSafe [] t h k = k
append-IsSafe (c ∷ s) t h k = (h.0, append-IsSafe s t h.1 k)

digit-is_safe : (n : ℕ) → n < 10 → is_safe (b'0' + n) ≡ true
digit-is_safe n h = ground arith

rand_suffix-IsSafe : (nanos : ℕ) → IsSafe (rand_suffix nanos)
unfolding rand_suffix
rand_suffix-IsSafe nanos =
    let n = nanos % 10_000 in
    (
      digit-is_safe (n / 1000) (omega arith),
      (
        digit-is_safe (n / 100 % 10) (omega arith),
        (digit-is_safe (n / 10 % 10) (omega arith), (digit-is_safe (n % 10) (omega arith), tt)),
      ),
    )

batch_log_name-IsSafe :
    (label stamp : Bytes) (nanos : ℕ) → IsSafe stamp → IsSafe (batch_log_name label stamp nanos)
unfolding batch_log_name
batch_log_name-IsSafe label stamp nanos h =
    let last =
      append-IsSafe (rand_suffix nanos) (bytes ".log") (rand_suffix-IsSafe nanos)
        (refl, (refl, (refl, (refl, tt)))) in
    append-IsSafe (safe_name label) _ (safe_name-IsSafe label).0
      (refl, append-IsSafe stamp _ h (refl, last))

length-batch_log_name :
    (label stamp : Bytes) (nanos : ℕ) → 3 ≤ length (batch_log_name label stamp nanos)
unfolding batch_log_name rand_suffix
length-batch_log_name label stamp nanos =
    let last = rand_suffix nanos ++ bytes ".log" in
    omega (
      arith,
      length-append (safe_name label) (b'_' ∷ (stamp ++ b'_' ∷ last)),
      length-append stamp (b'_' ∷ last),
    )

has_separator-safe : (s : Bytes) → IsSafe s → has_separator s ≡ false
unfolding has_separator
has_separator-safe [] h = refl
has_separator-safe (c ∷ s) h = ground (arith, has_separator-safe s h.1, h.0)

bytes_eq-short : (s t : Bytes) → length t < length s → bytes_eq s t ≡ false
bytes_eq-short s t h = elim (Bool-cases (bytes_eq s t)) [
  | inr e ↦ e
  | inl e ↦ absurd (omega (arith, ap length (bytes_eq→eq s t e)))
]

-- A name of safe characters that is longer than ".." is accepted.
path-safe :
    (root : Bytes) (section : Section) (name : Bytes)
    → IsSafe name
    → 3 ≤ length name
    → path root section name ≡ some (root ++ b'/' ∷ (dir_name section ++ b'/' ∷ name))
unfolding path
path-safe root section [] h l = absurd (omega arith)
path-safe root section (c ∷ s) h l =
    rw
      (
        has_separator-safe (c ∷ s) h,
        bytes_eq-short (c ∷ s) (bytes ".") (omega arith),
        bytes_eq-short (c ∷ s) (bytes "..") (omega arith),
      )
      refl

-- Whatever the label (a display name with slashes, dots or nothing at all), the log that is created has
-- a name under which it can be read, with its content, and deleted, and then it is gone. (The time
-- stamp is of safe characters.)
pub create_batch_log-read :
    (root : Bytes) (section : Section) (label stamp : Bytes) (nanos : ℕ) (content : Bytes)
    (files : Files)
    → IsSafe stamp
    → (read root section
          (create_batch_log root section label stamp nanos content files).0
          (create_batch_log root section label stamp nanos content files).1
        ≡ some content)
      × (files' : Files) × (delete root section
            (create_batch_log root section label stamp nanos content files).0
            (create_batch_log root section label stamp nanos content files).1
          ≡ some files')
      × (read root section (create_batch_log root section label stamp nanos content files).0 files'
          ≡ none)
unfolding create_batch_log read delete
create_batch_log-read root section label stamp nanos content files h =
    let name = batch_log_name label stamp nanos in
    let p = root ++ b'/' ∷ (dir_name section ++ b'/' ∷ name) in
    let safe =
      path-safe root section name (batch_log_name-IsSafe label stamp nanos h)
        (length-batch_log_name label stamp nanos) in
    let same = bytes_eq_refl p in
    (
      rw (safe, read) (rw same refl),
      put_file p none (put_file p (some content) files),
      rw (safe, delete) (rw same refl),
      rw (safe, read) (rw same refl),
    )

some-ne-none {ℓ} : {A : Type ℓ} {x : A} → some x ≢ none
some-ne-none h = cc

some-inj {ℓ} : {A : Type ℓ} {x y : A} → some x ≡ some y → x ≡ y
some-inj h = cc

or-false : (a b c : Bool) → (a || b || c) ≡ false → (a ≡ false) × (b ≡ false) × (c ≡ false)
or-false a b c h = ground arith

bytes_eq-apart : (s t : Bytes) → bytes_eq s t ≡ false → s ≢ t
bytes_eq-apart s t h e = absurd (ground (arith, sym (bytes_eq_refl s) ∙ ap (bytes_eq s) e))

-- A path that a request reaches is a file name's in the section's directory: the name has no separator
-- and is neither "." nor "..".
pub path-confined :
    (root : Bytes) (section : Section) (name p : Bytes)
    → path root section name ≡ some p
    → (p ≡ root ++ b'/' ∷ (dir_name section ++ b'/' ∷ name))
      × (has_separator name ≡ false)
      × (name ≢ bytes ".")
      × (name ≢ bytes "..")
      × (name ≢ [])
unfolding path
path-confined root section [] p h = absurd (ground arith)
path-confined root section (c ∷ s) p h =
    let bad =
      has_separator (c ∷ s) || bytes_eq (c ∷ s) (bytes ".") || bytes_eq (c ∷ s) (bytes "..") in
    elim (Bool-cases bad) [
      | inl e ↦ absurd (some-ne-none (sym h ∙ rw (e, path) refl))
      | inr e ↦
          let (a, b, d) =
            or-false (has_separator (c ∷ s)) (bytes_eq (c ∷ s) (bytes "."))
              (bytes_eq (c ∷ s) (bytes "..")) e in
          (
            some-inj (sym h ∙ rw (e, path) refl),
            a,
            bytes_eq-apart (c ∷ s) _ b,
            bytes_eq-apart (c ∷ s) _ d,
            λ q. ground arith,
          )
    ]
