-- ===== src/Cdr/Match.antt =====
-- The call record that a call is matched with is the closest one, and MOS data is never all zero.
use swarmdialer.Prelude.{
  ℕ, ◌≤◌, ◌≡◌, refl, Bool, true, false, ◌&&◌, Option, none, some, List, [], ◌∷◌, if◌then◌else◌,
  Bool-cases, inl, inr, All,
}
use swarmdialer.Text.{Bytes, bytes_eq}
use swarmdialer.Cdr.{CdrEntry, CallWindow, in_window, dist, scan_mos, mos_by_unique_id}

-- Whether a record can be that of the call, and how far it is from the call's start.
unfoldable pub fits : CallWindow → CdrEntry → Bool
unfolding bytes_eq
fits w e = bytes_eq e.from w.ext && in_window w e

abbrev pub away : CallWindow → CdrEntry → ℕ
away w e = dist e.start_unix w.start

-- No record that fits is closer than the one found, and none fits if none is found.
abbrev pub IsClosest : CallWindow → List CdrEntry → Option CdrEntry → Type 0
IsClosest w es none = All (λ e. fits w e ≡ false) es
IsClosest w es (some b) = (fits w b ≡ true) × All (λ e. fits w e ≡ true → away w b ≤ away w e) es

-- The loop, from the best record so far.
abbrev Improves : CallWindow → Option CdrEntry → List CdrEntry → Option CdrEntry → Type 0
Improves w none es r = IsClosest w es r
Improves w (some b) es none = ⊥
Improves w (some b) es (some r) =
    (fits w b ≡ true → fits w r ≡ true)
    × (away w r ≤ away w b)
    × All (λ e. fits w e ≡ true → away w r ≤ away w e) es

module _ {M : Type 0} (is_zero : M → Bool) where
  -- A first value that is not zero stands only for entries that are all zero, if it is missing.
  abbrev IsFirst : List (Bytes × M) → Option M → Type 0
  IsFirst es none = All (λ e. is_zero e.1 ≡ true) es
  IsFirst es (some m) = is_zero m ≡ false

  scan_mos-kept :
      (id : Bytes) (exact : Option M) (f : M) (es : List (Bytes × M))
      → (scan_mos is_zero id exact (some f) es).1 ≡ some f
  unfolding scan_mos
  scan_mos-kept id exact f [] = refl
  scan_mos-kept id exact f ((uid, m) ∷ es) =
      scan_mos-kept id (if bytes_eq uid id then some m else exact) f es

  scan_mos-IsFirst :
      (id : Bytes) (exact : Option M) (es : List (Bytes × M))
      → IsFirst es (scan_mos is_zero id exact none es).1
  unfolding scan_mos
  scan_mos-IsFirst id exact [] = tt
  scan_mos-IsFirst id exact ((uid, m) ∷ es) = elim (Bool-cases (is_zero m)) [
    | inl z ↦
        rw (z, scan_mos)
          (cons-IsFirst uid m es _ z
            (scan_mos-IsFirst id (if bytes_eq uid id then some m else exact) es))
    | inr n ↦ rw (n, scan_mos, scan_mos-kept id (if bytes_eq uid id then some m else exact) m es) n
  ]
    where
      cons-IsFirst :
          (uid : Bytes) (m : M) (es : List (Bytes × M)) (r : Option M)
          → is_zero m ≡ true
          → IsFirst es r
          → IsFirst ((uid, m) ∷ es) r
      cons-IsFirst uid m es none z h = (z, h)
      cons-IsFirst uid m es (some f) z h = h

  -- A call has no MOS only if every entry of its answer is zero, and the one it has is never zero.
  pub mos_by_unique_id-IsFirst :
      (id : Bytes) (es : List (Bytes × M)) → IsFirst es (mos_by_unique_id is_zero id es)
  unfolding mos_by_unique_id
  mos_by_unique_id-IsFirst id es =
      chosen (scan_mos is_zero id none none es).0 (scan_mos is_zero id none none es).1
        (scan_mos-IsFirst id none es)
    where
      chosen :
          (exact first : Option M)
          → IsFirst es first
          → IsFirst es (elim exact [ none ↦ first | some m ↦ if is_zero m then first else some m ])
      chosen none first h = h
      chosen (some m) first h = elim (Bool-cases (is_zero m)) [ inl z ↦ rw z h | inr n ↦ rw n n ]
