-- ===== src/Wizard/Batch.antt =====
-- internal/wizard/wizard.go: one batch of extensions, from the requests to what the answer adds.
use swarmdialer.Prelude.{
  ℕ, zero, suc, ◌+◌, ◌*◌, Bool, Option, none, some, List, [], ◌∷◌, ◌++◌, ltb, ◌==◌, if◌then◌else◌,
}
use swarmdialer.Retry.{has_text, lower}
use swarmdialer.Text.{Bytes, bytes, bytes_eq, decimal}
use swarmdialer.Wizard.{
  Result, ok, fail, ◌>>=◌, no_secret, unknown_item, read_back_failed, bad_username,
  too_many_reserved, item_failed, ExtensionCreate, BatchItem, Existing, Extension,
}

abbrev pub extension_batch_size : ℕ
extension_batch_size = 100

abbrev pub max_reserved_skips : ℕ
max_reserved_skips = 20

-- pbxware.SwarmDialerCodecsList
abbrev pub allowed_codecs : List Bytes
allowed_codecs = bytes "ulaw" ∷ bytes "alaw" ∷ bytes "g722" ∷ bytes "g729" ∷ bytes "opus" ∷ []

-- pbxware.IsReservedExtensionError
unfoldable pub is_reserved_extension_error : Bytes → Bool
unfolding has_text lower
is_reserved_extension_error msg = has_text (bytes "is reserved") (lower msg)

unfoldable pub is_own_extension : Bytes → ℕ → Bool
unfolding has_text
is_own_extension msg number =
    has_text (bytes "reserved by (Extension) SwarmDialer " ++ decimal number) msg

-- The first number of `digits` digits; no digits count as one.
unfoldable pub ext_base : ℕ → ℕ
ext_base zero = 1
ext_base (suc zero) = 1
ext_base (suc (suc digits)) = ext_base (suc digits) * 10

-- The part of `username` in front of the suffix `num`.
unfoldable pub trim_suffix : Bytes → Bytes → Option Bytes
unfolding bytes_eq
trim_suffix num [] = if bytes_eq [] num then some [] else none
trim_suffix num (c ∷ s) =
    let rest = trim_suffix num s in
    if bytes_eq (c ∷ s) num
    then some []
    else elim rest [ none ↦ none | some prefix ↦ some (c ∷ prefix) ]

-- What the loop of `provisionExtensions` holds, with the number of random secrets drawn and of
-- extensions read back so far, and the count that `progress` shows.
pub record Work : Type 0 where
  pub extensions : List Extension
  pub prefix : Option Bytes
  pub candidate : ℕ
  pub skips : ℕ
  pub secrets : ℕ
  pub reads : ℕ
  pub created : ℕ

unfoldable pub find_request : ℕ → List ExtensionCreate → Option ExtensionCreate
find_request id [] = none
find_request id (e ∷ es) = let rest = find_request id es in if e.number == id then some e else rest

-- `secret` is what a draw of a random secret gives.
module _ (secret : ℕ → Option Bytes) where
  -- One round's requests, from the first number and the first draw.
  unfoldable pub make_batch : ℕ → ℕ → ℕ → ℕ → Result (List ExtensionCreate)
  make_batch limit zero candidate draw = ok []
  make_batch limit (suc n) candidate draw =
      let later = make_batch limit n (suc candidate) (draw + 2) in
      elim (secret draw) [
        | none ↦ fail no_secret
        | some s ↦ elim (secret (draw + 1)) [
          | none ↦ fail no_secret
          | some p ↦ later >>= (λ es. ok (
              record {
                number = candidate;
                name = bytes "SwarmDialer " ++ decimal candidate;
                email = bytes "swarmdialer" ++ decimal candidate ++ bytes "@swarmdialer.local";
                secret = s;
                user_password = p;
                pin = bytes "1234";
                uad_id = 50;
                incoming_limit = limit;
                outgoing_limit = limit;
                codecs = allowed_codecs;
              }
              ∷ es))
        ]
      ]

-- The extension of a number, added behind the others.
unfoldable pub grown : ℕ → ℕ → Bytes → Bytes → Work → Work
grown number ext_id sec prefix w = record w {
  extensions =
      w.extensions
      ++ record {
        extension_id = ext_id;
        ext = decimal number;
        username = prefix ++ decimal number;
        secret = sec;
      }
        ∷ [];
  prefix = some prefix;
}

-- `read_back` is what reading a number back gives, at a read, and none if that fails.
module _ (read_back : ℕ → ℕ → Option Existing) where
  unfoldable pub sip_username_prefix : ℕ → ℕ → Result Bytes
  unfolding trim_suffix
  sip_username_prefix read number = elim (read_back read number) [
    | none ↦ fail (read_back_failed number)
    | some ext ↦ elim (trim_suffix (decimal number) (decimal ext.username)) [
      | none ↦ fail (bad_username number)
      | some prefix ↦ ok prefix
    ]
  ]

  -- The end of the loop's body: the prefix is read once, and the extension is kept.
  unfoldable pub keep_with : Option Bytes → ℕ → ℕ → Bytes → Work → Result Work
  unfolding sip_username_prefix grown
  keep_with (some prefix) number ext_id sec w = ok (grown number ext_id sec prefix w)
  keep_with none number ext_id sec w =
      sip_username_prefix w.reads number
      >>= (λ prefix. ok (grown number ext_id sec prefix (record w { reads = suc w.reads })))

  unfoldable pub keep_extension : ℕ → ℕ → Bytes → Work → Result Work
  unfolding keep_with
  keep_extension number ext_id sec w = keep_with w.prefix number ext_id sec w

  -- The number is that of an extension which an earlier attempt has made.
  unfoldable pub adopt : ℕ → Option Existing → Work → Result Work
  unfolding keep_extension
  adopt number none w = fail (read_back_failed number)
  adopt number (some existing) w =
      keep_extension number existing.id existing.secret (record w { reads = suc w.reads })

  -- One item of a batch's answer.
  unfoldable pub take_item : List ExtensionCreate → Work → BatchItem → Result Work
  unfolding find_request keep_extension adopt is_reserved_extension_error is_own_extension
  take_item batch w r = elim (find_request r.id batch) [
    | none ↦ fail (unknown_item r.id)
    | some req ↦ elim r.err [
      | none ↦ keep_extension req.number r.extension_id req.secret w
      | some msg ↦
          if is_reserved_extension_error msg
          then (if is_own_extension msg req.number
              then adopt req.number (read_back w.reads req.number) w
              else (if ltb max_reserved_skips (suc w.skips)
                  then fail (too_many_reserved msg)
                  else ok (record w { skips = suc w.skips })))
          else fail (item_failed req.number msg)
    ]
  ]

  unfoldable pub take_items : List ExtensionCreate → List BatchItem → Work → Result Work
  unfolding take_item
  take_items batch [] w = ok w
  take_items batch (r ∷ rs) w = take_item batch w r >>= take_items batch rs
