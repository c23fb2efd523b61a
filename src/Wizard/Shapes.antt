-- ===== src/Wizard/Shapes.antt =====
-- The names that the wizard makes up have the shape that PBXware asks for.
use swarmdialer.Prelude.{
  ℕ, zero, suc, ◌+◌, ◌-◌, ◌≤◌, ◌≡◌, refl, sym, ap, ◌∙◌, ◌⊎◌, arith, Bool, true, false, ◌&&◌, none,
  some, [], ◌∷◌, ◌++◌, length, length-drop, length-append, All, leb, ◌==◌, if◌then◌else◌,
  Bool-cases, inl, inr,
}
use swarmdialer.Text.{Bytes, bytes, bytes_eq, is_digit, all_digits, cut_prefix}
use swarmdialer.Wizard.Batch.{trim_suffix}
use swarmdialer.Wizard.Names.{
  cut_scheme, sip_host_from, before_last_colon, host_only, pad, did_for_10_digit_route,
  is_name_char, clean_name, trim_dashes_left, trim_dashes_right, trunk_name, cut_id, trunk_username,
}

before_last_colon-port : (h : Bytes) → before_last_colon (h ++ bytes ":5060") ≡ some h
unfolding before_last_colon
before_last_colon-port [] = refl
before_last_colon-port (c ∷ h) = rw (before_last_colon-port h)

bytes_eq-longer : (h : Bytes) → bytes_eq (h ++ b'/' ∷ []) [] ≡ false
unfolding bytes_eq
bytes_eq-longer [] = refl
bytes_eq-longer (c ∷ h) = refl

trim_suffix-slash : (h : Bytes) → trim_suffix (bytes "/") (h ++ b'/' ∷ []) ≡ some h
unfolding trim_suffix bytes_eq
trim_suffix-slash [] = refl
trim_suffix-slash (c ∷ h) = rw (bytes_eq-longer h, trim_suffix-slash h) (ground arith)

cut_scheme-https : (h : Bytes) → cut_scheme (bytes "https://" ++ h) ≡ h
unfolding cut_scheme cut_prefix
cut_scheme-https h = refl

cut_scheme-http : (h : Bytes) → cut_scheme (bytes "http://" ++ h) ≡ h
unfolding cut_scheme cut_prefix
cut_scheme-http h = refl

host_only-port : (h : Bytes) → host_only (h ++ bytes ":5060") ≡ h
unfolding host_only
host_only-port h = rw (before_last_colon-port h, host_only) refl

-- `SIPHostFrom` once the scheme is cut
abbrev with_port : Bytes → Bytes
with_port host = elim (trim_suffix (bytes "/") host) [
  | some h ↦ h ++ bytes ":5060"
  | none ↦ host ++ bytes ":5060"
]

sip_host_from-cut : (url : Bytes) → sip_host_from url ≡ with_port (cut_scheme url)
unfolding sip_host_from
sip_host_from-cut url = refl

with_port-slash : (h : Bytes) → with_port (h ++ b'/' ∷ []) ≡ h ++ bytes ":5060"
with_port-slash h = rw (trim_suffix-slash h, with_port) refl

with_port-plain : (h : Bytes) → trim_suffix (bytes "/") h ≡ none → with_port h ≡ h ++ bytes ":5060"
with_port-plain h q = rw (q, with_port) refl

host-of :
    (url h : Bytes)
    → (cut_scheme url ≡ h ++ b'/' ∷ [])
      ⊎ ((cut_scheme url ≡ h) × (trim_suffix (bytes "/") h ≡ none))
    → host_only (sip_host_from url) ≡ h
host-of url h (inl e) =
    ap host_only (sip_host_from-cut url ∙ ap with_port e ∙ with_port-slash h) ∙ host_only-port h
host-of url h (inr (e, q)) =
    ap host_only (sip_host_from-cut url ∙ ap with_port e ∙ with_port-plain h q) ∙ host_only-port h

-- The host of a trunk is the host of the URL: its scheme goes, and a slash at its end.
pub host_only-sip_host_from :
    (scheme h : Bytes)
    → (scheme ≡ bytes "https://") ⊎ (scheme ≡ bytes "http://")
    → trim_suffix (bytes "/") h ≡ none
    → (host_only (sip_host_from (scheme ++ h)) ≡ h)
      × (host_only (sip_host_from (scheme ++ (h ++ b'/' ∷ []))) ≡ h)
host_only-sip_host_from scheme h (inl e) q = rw e (
    (
      host-of _ h (inr (cut_scheme-https h, q)),
      host-of _ h (inl (cut_scheme-https (h ++ b'/' ∷ []))),
    ))
host_only-sip_host_from scheme h (inr e) q = rw e (
    (
      host-of _ h (inr (cut_scheme-http h, q)),
      host-of _ h (inl (cut_scheme-http (h ++ b'/' ∷ []))),
    ))

length-pad : (n : ℕ) (v : Bytes) → length (pad n v) ≡ n + length v
unfolding pad
length-pad zero v = omega arith
length-pad (suc n) v = omega (arith, length-pad n (b'0' ∷ v))

pad-digits : (n : ℕ) (v : Bytes) → all_digits v ≡ true → all_digits (pad n v) ≡ true
unfolding pad all_digits
pad-digits zero v h = h
pad-digits (suc n) v h = pad-digits n (b'0' ∷ v) (ground arith)

pad_inj : (n : ℕ) (v u : Bytes) → pad n v ≡ pad n u → v ≡ u
unfolding pad
pad_inj zero v u h = h
pad_inj (suc n) v u h = let e = pad_inj n (b'0' ∷ v) (b'0' ∷ u) h in cc

append-cancel : (p v u : Bytes) → p ++ v ≡ p ++ u → v ≡ u
append-cancel [] v u h = h
append-cancel (a ∷ p) v u h = append-cancel p v u (cc)

-- PBXware's default route: ten digits, the first four of them in [2-9][0-8][0-9][2-9].
abbrev pub matches_route : Bytes → Bool
matches_route (a ∷ b ∷ c ∷ d ∷ rest) =
    (leb b'2' a && leb a b'9')
    && ((leb b'0' b && leb b b'8')
        && (is_digit c && ((leb b'2' d && leb d b'9') && (all_digits rest && length rest == 6))))
matches_route _ = false

-- The DID of a padded number.
abbrev spread : Bytes → Bytes
spread [] = bytes "555"
spread (d ∷ rest) = b'5' ∷ b'5' ∷ d ∷ b'5' ∷ rest

spread-matches : (v : Bytes) → length v ≡ 7 → all_digits v ≡ true → matches_route (spread v) ≡ true
unfolding all_digits
spread-matches [] h d = absurd (omega arith)
spread-matches (a ∷ v) h d = ground arith

spread_inj : (v u : Bytes) → length v ≡ 7 → length u ≡ 7 → spread v ≡ spread u → v ≡ u
spread_inj [] u h k e = absurd (omega arith)
spread_inj (a ∷ v) [] h k e = absurd (omega arith)
spread_inj (a ∷ v) (b ∷ u) h k e = cc

did_spread :
    (code ext : Bytes)
    → did_for_10_digit_route code ext ≡ spread (pad (7 - length (code ++ ext)) (code ++ ext))
unfolding did_for_10_digit_route
did_spread code ext = refl

-- A DID of digits that fit matches the route, and different extensions of a tenant have different DIDs.
pub did_for_10_digit_route_lem :
    (code ext other : Bytes)
    → all_digits (code ++ ext) ≡ true
    → length (code ++ ext) ≤ 7
    → length other ≡ length ext
    → (matches_route (did_for_10_digit_route code ext) ≡ true)
      × (did_for_10_digit_route code ext ≡ did_for_10_digit_route code other → ext ≡ other)
did_for_10_digit_route_lem code ext other d h same =
    let long : length (code ++ other) ≡ length (code ++ ext) =
      length-append code other
      ∙ ap (λ (n : ℕ). length code + n) same
      ∙ sym (length-append code ext) in
    let n = 7 - length (code ++ ext) in
    let of_other : did_for_10_digit_route code other ≡ spread (pad n (code ++ other)) =
      did_spread code other ∙ ap (λ (k : ℕ). spread (pad (7 - k) (code ++ other))) long in
    let seven = length-pad n (code ++ ext) in
    let seven' = length-pad n (code ++ other) in
    (
      ap matches_route (did_spread code ext)
          ∙ spread-matches (pad n (code ++ ext)) (omega arith) (pad-digits n (code ++ ext) d),
      (λ e. append-cancel code ext other (
          pad_inj n (code ++ ext) (code ++ other) (
            spread_inj (pad n (code ++ ext)) (pad n (code ++ other)) (omega arith) (omega arith)
              (sym (did_spread code ext) ∙ e ∙ of_other)))),
    )

abbrev pub IsName : Bytes → Type 0
IsName = All (λ r. is_name_char r ≡ true)

clean_name-IsName : (dash : Bool) (rs : Bytes) → IsName (clean_name dash rs)
unfolding clean_name
clean_name-IsName dash [] = tt
clean_name-IsName dash (r ∷ rs) = elim (Bool-cases (is_name_char r)) [
  | inl q ↦ rw (q, clean_name) (q, clean_name-IsName false rs)
  | inr q ↦ rw (q, clean_name) (dashed dash rs (clean_name-IsName true rs))
]
  where
    dashed :
        (d : Bool) (v : Bytes)
        → IsName (clean_name true v)
        → IsName (if d then clean_name true v else b'-' ∷ clean_name true v)
    dashed true v h = h
    dashed false v h = (refl, h)

trim_dashes_left-IsName : (s : Bytes) → IsName s → IsName (trim_dashes_left s)
unfolding trim_dashes_left
trim_dashes_left-IsName [] h = tt
trim_dashes_left-IsName (c ∷ s) h = elim (Bool-cases (c == b'-')) [
  | inl q ↦ rw (q, trim_dashes_left) (trim_dashes_left-IsName s h.1)
  | inr q ↦ rw (q, trim_dashes_left) h
]

-- What a character in front of a trimmed text leaves.
abbrev in_front : ℕ → Bytes → Bytes
in_front c [] = if c == b'-' then [] else c ∷ []
in_front c (d ∷ t) = c ∷ d ∷ t

in_front-IsName : (c : ℕ) (t : Bytes) → is_name_char c ≡ true → IsName t → IsName (in_front c t)
in_front-IsName c [] h hs = elim (Bool-cases (c == b'-')) [
  | inl q ↦ rw (q, in_front) tt
  | inr q ↦ rw (q, in_front) (h, tt)
]
in_front-IsName c (d ∷ t) h hs = (h, hs)

trim_dashes_right-IsName : (s : Bytes) → IsName s → IsName (trim_dashes_right s)
unfolding trim_dashes_right
trim_dashes_right-IsName [] h = tt
trim_dashes_right-IsName (c ∷ s) h =
    in_front-IsName c (trim_dashes_right s) h.0 (trim_dashes_right-IsName s h.1)

-- The name behind the fixed part.
abbrev name_or_peer : Bytes → Bytes
name_or_peer [] = bytes "SwarmDialer-to-" ++ bytes "peer"
name_or_peer (c ∷ name) = bytes "SwarmDialer-to-" ++ (c ∷ name)

name_or_peer_lem : (s : Bytes) → IsName s → IsName (name_or_peer s) × (16 ≤ length (name_or_peer s))
name_or_peer_lem [] h = ground arith
name_or_peer_lem (c ∷ s) h = ground arith

-- A trunk's name has only characters that PBXware takes and is never empty behind its fixed part,
-- whatever the peer is called, and no trunk user name is longer than the twenty that PBXware takes.
pub trunk_names_fit :
    (peer server_id : Bytes)
    → IsName (trunk_name peer)
      × (16 ≤ length (trunk_name peer))
      × (length (trunk_username server_id) ≤ 20)
unfolding trunk_name trunk_username
trunk_names_fit peer server_id =
    let trimmed = trim_dashes_left (clean_name false peer) in
    let fits = name_or_peer_lem (trim_dashes_right trimmed) (
      trim_dashes_right-IsName trimmed
        (trim_dashes_left-IsName (clean_name false peer) (clean_name-IsName false peer))) in
    let cut = length-drop (length (cut_id server_id) - 10) (cut_id server_id) in
    (fits.0, fits.1, ground (arith, cut))
