-- ===== src/Sdp/Parse.antt =====
-- What is read of an SDP body: `parseSDPCodec`, `sdpWantsMedia` and `parseSDPMedia` of
-- internal/sipua/sdp.go.
use swarmdialer.Prelude.{
  ℕ, zero, suc, ◌+◌, ◌^◌, Bool, true, false, ◌&&◌, Option, none, some, List, [], ◌∷◌, ltb, ◌==◌,
  if◌then◌else◌,
}
use swarmdialer.Prelude.Int.{ℤ, pos, negsuc}
use swarmdialer.Text.{Bytes, bytes, bytes_eq, all_digits, scan_digits, cut_prefix, trim_space}
use swarmdialer.Retry.{lower}
use swarmdialer.Sdp.{Codec, lines, fields, before_slash, ulaw, g722, g729, opus}

-- What the scan of `parseSDPCodec` keeps: the payload types in order, and their names, the last first.
pub record Scanned : Type 0 where
  pub order : List Bytes
  pub rtpmaps : List (Bytes × Bytes)

unfoldable pub set_order : List Bytes → Scanned → Scanned
set_order (_ ∷ _ ∷ _ ∷ f ∷ fs) s = record s { order = f ∷ fs }
set_order _ s = s

unfoldable pub add_rtpmap : List Bytes → Scanned → Scanned
unfolding lower before_slash
add_rtpmap (pt ∷ name ∷ _) s = record s { rtpmaps = (pt, lower (before_slash name)) ∷ s.rtpmaps }
add_rtpmap _ s = s

unfoldable pub scan_line : Bytes → Scanned → Scanned
unfolding set_order add_rtpmap fields cut_prefix
scan_line line s = elim (cut_prefix (bytes "m=audio ") line) [
  | some rest ↦ set_order (fields line) s
  | none ↦ elim (cut_prefix (bytes "a=rtpmap:") line) [
    | some rest ↦ add_rtpmap (fields rest) s
    | none ↦ s
  ]
]

unfoldable pub scan_all : List Bytes → Scanned → Scanned
unfolding scan_line
scan_all [] s = s
scan_all (l ∷ ls) s = scan_all ls (scan_line l s)

unfoldable pub find_name : Bytes → List (Bytes × Bytes) → Option Bytes
unfolding bytes_eq
find_name pt [] = none
find_name pt ((key, name) ∷ m) =
    let rest = find_name pt m in if bytes_eq key pt then some name else rest

-- `staticNames`
abbrev pub static_names : List (Bytes × Bytes)
static_names =
    (bytes "0", bytes "pcmu") ∷ (bytes "9", bytes "g722") ∷ (bytes "18", bytes "g729") ∷ []

-- `rtpmapNameToCodec`
unfoldable pub codec_named : Bytes → Option Codec
unfolding bytes_eq
codec_named name =
    if bytes_eq name (bytes "pcmu")
    then some ulaw
    else (if bytes_eq name (bytes "g722")
        then some g722
        else (if bytes_eq name (bytes "g729")
            then some g729
            else (if bytes_eq name (bytes "opus") then some opus else none)))

-- strconv.ParseUint(s, 10, 8)
unfoldable pub parse_uint8 : Bytes → Option ℕ
unfolding all_digits scan_digits
parse_uint8 [] = none
parse_uint8 (c ∷ s) =
    let n = scan_digits 0 (c ∷ s) in if all_digits (c ∷ s) && ltb n 256 then some n else none

abbrev pub or_else : Option Bytes → Option Bytes → Option Bytes
or_else none o = o
or_else (some x) o = some x

-- The codec that a payload type of the offer stands for, and its number.
unfoldable pub offered : List (Bytes × Bytes) → Bytes → Option (Codec × ℕ)
unfolding find_name codec_named parse_uint8
offered rtpmaps pt = elim (or_else (find_name pt rtpmaps) (find_name pt static_names)) [
  | none ↦ none
  | some name ↦ elim (codec_named name) [
    | none ↦ none
    | some c ↦ elim (parse_uint8 pt) [ none ↦ none | some n ↦ some (c, n) ]
  ]
]

-- `found`
unfoldable pub found_in : List (Bytes × Bytes) → List Bytes → List (Codec × ℕ)
unfolding offered
found_in rtpmaps [] = []
found_in rtpmaps (pt ∷ pts) =
    let rest = found_in rtpmaps pts in elim (offered rtpmaps pt) [ none ↦ rest | some x ↦ x ∷ rest ]

abbrev pub same_codec : Codec → Codec → Bool
same_codec ulaw ulaw = true
same_codec g722 g722 = true
same_codec g729 g729 = true
same_codec opus opus = true
same_codec _ _ = false

abbrev pub is_preferred : Option Codec → Codec → Bool
is_preferred none c = false
is_preferred (some p) c = same_codec c p

-- The first of the preferred codec.
unfoldable pub first_preferred : Option Codec → List (Codec × ℕ) → Option (Codec × ℕ)
first_preferred prefer [] = none
first_preferred prefer ((c, n) ∷ xs) =
    let rest = first_preferred prefer xs in if is_preferred prefer c then some (c, n) else rest

unfoldable pub choose : Option Codec → List (Codec × ℕ) → Option (Codec × ℕ)
unfolding first_preferred
choose prefer [] = none
choose prefer (x ∷ xs) = elim (first_preferred prefer (x ∷ xs)) [ some y ↦ some y | none ↦ some x ]

-- `parseSDPCodec`; none is its error.
unfoldable pub parse_sdp_codec : Bytes → Option Codec → Option (Codec × ℕ)
unfolding lines scan_all found_in choose
parse_sdp_codec body prefer =
    let s = scan_all (lines body) (record { order = []; rtpmaps = [] }) in
    choose prefer (found_in s.rtpmaps s.order)

-- `sdpWantsMedia`
unfoldable pub all_active : List Bytes → Bool
unfolding bytes_eq
all_active [] = true
all_active (l ∷ ls) =
    let rest = all_active ls in if bytes_eq l (bytes "a=inactive") then false else rest

unfoldable pub sdp_wants_media : Bytes → Bool
unfolding all_active lines
sdp_wants_media body = all_active (lines body)

-- strconv.Atoi: a sign, and digits of a number that an int has room for.
unfoldable pub atoi_digits : ℕ → Bytes → Option ℕ
unfolding all_digits scan_digits
atoi_digits bound [] = none
atoi_digits bound (c ∷ s) =
    let n = scan_digits 0 (c ∷ s) in if all_digits (c ∷ s) && ltb n bound then some n else none

abbrev pub negative : ℕ → ℤ
negative zero = pos 0
negative (suc n) = negsuc n

abbrev pub map_some {ℓ} : {A B : Type ℓ} → (A → B) → Option A → Option B
map_some f none = none
map_some f (some x) = some (f x)

unfoldable pub atoi : Bytes → Option ℤ
unfolding atoi_digits
atoi [] = none
atoi (c ∷ s) =
    if c == b'-'
    then map_some negative (atoi_digits (2 ^ 63 + 1) s)
    else (if c == b'+'
        then map_some pos (atoi_digits (2 ^ 63) s)
        else map_some pos (atoi_digits (2 ^ 63) (c ∷ s)))

-- The audio port of an "m=audio" line, by its fields; none is an error.
unfoldable pub audio_port : List Bytes → Option ℤ
unfolding atoi
audio_port (_ ∷ port ∷ _) = atoi port
audio_port _ = none

-- The loop of `parseSDPMedia`; none is an error.
unfoldable pub scan_media : List Bytes → Bytes × ℤ → Option (Bytes × ℤ)
unfolding cut_prefix trim_space fields audio_port
scan_media [] (ip, port) = some (ip, port)
scan_media (l ∷ ls) (ip, port) = elim (cut_prefix (bytes "c=IN IP4 ") l) [
  | some rest ↦ scan_media ls (trim_space rest, port)
  | none ↦ elim (cut_prefix (bytes "m=audio ") l) [
    | none ↦ scan_media ls (ip, port)
    | some rest ↦ elim (audio_port (fields l)) [ none ↦ none | some p ↦ scan_media ls (ip, p) ]
  ]
]

-- An address without an IP or with port 0 is an error.
abbrev pub known : Option (Bytes × ℤ) → Option (Bytes × ℤ)
known none = none
known (some ([], port)) = none
known (some (c ∷ ip, pos zero)) = none
known (some (c ∷ ip, port)) = some (c ∷ ip, port)

unfoldable pub parse_sdp_media : Bytes → Option (Bytes × ℤ)
unfolding lines scan_media
parse_sdp_media body = known (scan_media (lines body) ([], pos 0))
