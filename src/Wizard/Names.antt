-- ===== src/Wizard/Names.antt =====
-- internal/wizard/connect.go, and SIPHostFrom of wizard.go: the host names, DIDs and trunk names and user
-- names that the wizard makes up. A text is its bytes; for a trunk's name it is its runes.
use swarmdialer.Prelude.{
  ℕ, zero, suc, ◌-◌, Bool, true, false, ◌&&◌, ◌||◌, Option, none, some, [], ◌∷◌, ◌++◌, length, drop,
  ltb, leb, ◌==◌, if◌then◌else◌,
}
use swarmdialer.Text.{Bytes, bytes, cut_prefix}
use swarmdialer.Wizard.Batch.{trim_suffix}

-- The first prefix of the two that is there is cut.
unfoldable pub cut_scheme : Bytes → Bytes
unfolding cut_prefix
cut_scheme url = elim (cut_prefix (bytes "https://") url) [
  | some host ↦ host
  | none ↦ elim (cut_prefix (bytes "http://") url) [ some host ↦ host | none ↦ url ]
]

unfoldable pub sip_host_from : Bytes → Bytes
unfolding cut_scheme trim_suffix
sip_host_from url = elim (trim_suffix (bytes "/") (cut_scheme url)) [
  | some host ↦ host ++ bytes ":5060"
  | none ↦ cut_scheme url ++ bytes ":5060"
]

-- What stands in front of the last colon, if there is one.
unfoldable pub before_last_colon : Bytes → Option Bytes
before_last_colon [] = none
before_last_colon (c ∷ s) =
    let rest = before_last_colon s in
    elim rest [ some host ↦ some (c ∷ host) | none ↦ if c == b':' then some [] else none ]

unfoldable pub host_only : Bytes → Bytes
unfolding before_last_colon
host_only s = elim (before_last_colon s) [ some host ↦ host | none ↦ s ]

-- The loop that pads to seven digits.
unfoldable pub pad : ℕ → Bytes → Bytes
pad zero v = v
pad (suc n) v = pad n (b'0' ∷ v)

unfoldable pub did_for_10_digit_route : Bytes → Bytes → Bytes
unfolding pad
did_for_10_digit_route tenant_code ext =
    elim (pad (7 - length (tenant_code ++ ext)) (tenant_code ++ ext)) [
      | [] ↦ bytes "555"
      | d ∷ rest ↦ b'5' ∷ b'5' ∷ d ∷ b'5' ∷ rest
    ]

abbrev pub is_name_char : ℕ → Bool
is_name_char r =
    (leb b'a' r && leb r b'z')
    || ((leb b'A' r && leb r b'Z')
        || ((leb b'0' r && leb r b'9') || (r == b'-' || (r == b'_' || r == b'.'))))

-- The loop of `trunkName`; `dash` says that the last character was replaced.
unfoldable pub clean_name : Bool → Bytes → Bytes
clean_name dash [] = []
clean_name dash (r ∷ rs) =
    let kept = clean_name false rs in
    let run = clean_name true rs in
    if is_name_char r then r ∷ kept else (if dash then run else b'-' ∷ run)

-- strings.Trim of dashes, at the front and at the end
unfoldable pub trim_dashes_left : Bytes → Bytes
trim_dashes_left [] = []
trim_dashes_left (c ∷ s) = let rest = trim_dashes_left s in if c == b'-' then rest else c ∷ s

unfoldable pub trim_dashes_right : Bytes → Bytes
trim_dashes_right [] = []
trim_dashes_right (c ∷ s) =
    let rest = trim_dashes_right s in
    elim rest [ [] ↦ if c == b'-' then [] else c ∷ [] | d ∷ t ↦ c ∷ d ∷ t ]

unfoldable pub trunk_name : Bytes → Bytes
unfolding clean_name trim_dashes_left trim_dashes_right
trunk_name peer = elim (trim_dashes_right (trim_dashes_left (clean_name false peer))) [
  | [] ↦ bytes "SwarmDialer-to-" ++ bytes "peer"
  | c ∷ name ↦ bytes "SwarmDialer-to-" ++ (c ∷ name)
]

unfoldable pub cut_id : Bytes → Bytes
unfolding cut_prefix
cut_id server_id = elim (cut_prefix (bytes "srv-") server_id) [ some id ↦ id | none ↦ server_id ]

unfoldable pub trunk_username : Bytes → Bytes
unfolding cut_id
trunk_username server_id =
    bytes "swarm"
    ++ (if ltb 10 (length (cut_id server_id))
        then drop (length (cut_id server_id) - 10) (cut_id server_id)
        else cut_id server_id)
