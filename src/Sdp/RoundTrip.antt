-- ===== src/Sdp/RoundTrip.antt =====
-- An SDP body that was built is read back.
use swarmdialer.Prelude.{
  ℕ, ◌<◌, ◌≡◌, ◌≢◌, refl, ◌∙◌, ap, Bool, true, false, Option, some, List, [], ◌∷◌, ◌++◌, Bool-cases,
  inl, inr, lt→ltb,
}
use swarmdialer.Text.{
  Bytes, bytes, bytes_eq, bytes_eq_refl, all_digits, scan_digits, scan_digits-decimal, decimal,
  put_decimal, decimal-digits,
}
use swarmdialer.Retry.{lower}
use swarmdialer.Sdp.{
  Codec, ulaw, g722, g729, opus, rtpmap_line, direction, sdp_lines, build_sdp, lines, fields,
  before_slash,
}
use swarmdialer.Sdp.Parse.{
  Scanned, scan_all, find_name, codec_named, parse_uint8, offered, found_in, is_preferred,
  first_preferred, choose, parse_sdp_codec, all_active, sdp_wants_media,
}
use swarmdialer.Sdp.Lines.{
  IsWord, lines-end_lines, append-IsTrimmed, append-IsEnded, IsWord-IsEnded, IsLine-append,
  IsWord-IsLine, fields-word, fields-last, no_space-IsWord, no_break, no_break-IsLine,
  decimal-IsWord,
}

-- What stands behind the payload type: the name, the rate and the channels.
abbrev pub token : Codec → Bytes
token ulaw = bytes "PCMU/8000"
token g722 = bytes "G722/8000"
token g729 = bytes "G729/8000"
token opus = bytes "opus/48000/2"

rtpmap_line_lem : (codec : Codec) (pt : ℕ) → rtpmap_line codec pt ≡ decimal pt ++ b' ' ∷ token codec
unfolding rtpmap_line decimal put_decimal
rtpmap_line_lem ulaw pt = refl
rtpmap_line_lem g722 pt = refl
rtpmap_line_lem g729 pt = refl
rtpmap_line_lem opus pt = refl

token-IsWord : (codec : Codec) → IsWord (token codec)
token-IsWord ulaw = no_space-IsWord _ _ refl
token-IsWord g722 = no_space-IsWord _ _ refl
token-IsWord g729 = no_space-IsWord _ _ refl
token-IsWord opus = no_space-IsWord _ _ refl

direction-IsWord : (send_media : Bool) → IsWord (direction send_media)
direction-IsWord true = no_space-IsWord _ _ refl
direction-IsWord false = no_space-IsWord _ _ refl

-- The body's lines, with the codec's line written out.
abbrev pub written : Bytes → ℕ → Bool → Codec → ℕ → List Bytes
written ip port send_media codec pt =
    bytes "v=0"
    ∷ (bytes "o=- 0 0 IN IP4 " ++ ip)
    ∷ bytes "s=SwarmDialer"
    ∷ (bytes "c=IN IP4 " ++ ip)
    ∷ bytes "t=0 0"
    ∷ (bytes "m=audio " ++ (decimal port ++ (bytes " RTP/AVP " ++ decimal pt)))
    ∷ (bytes "a=rtpmap:" ++ (decimal pt ++ b' ' ∷ token codec))
    ∷ (bytes "a=" ++ direction send_media)
    ∷ []

pub lines-build_sdp :
    (ip : Bytes) (port : ℕ) (send_media : Bool) (codec : Codec) (pt : ℕ)
    → IsWord ip
    → lines (build_sdp ip port send_media codec pt) ≡ written ip port send_media codec pt
unfolding build_sdp sdp_lines
lines-build_sdp ip port send_media codec pt h =
    let number = λ (n : ℕ). IsWord-IsLine (decimal n) (decimal-IsWord n) in
    let fixed = λ (s : Bytes) (e : no_break s ≡ true). no_break-IsLine s e in
    let address = IsWord-IsLine ip h in
    let spec = IsWord-IsLine (token codec) (token-IsWord codec) in
    let media_end =
      IsLine-append (bytes " RTP/AVP ") (decimal pt) (fixed (bytes " RTP/AVP ") refl) (number pt) in
    rw (rtpmap_line_lem codec pt) (
      lines-end_lines (written ip port send_media codec pt)
        (
          fixed (bytes "v=0") refl,
          (
            IsLine-append (bytes "o=- 0 0 IN IP4 ") ip (fixed (bytes "o=- 0 0 IN IP4 ") refl)
                address,
            (
              fixed (bytes "s=SwarmDialer") refl,
              (
                IsLine-append (bytes "c=IN IP4 ") ip (fixed (bytes "c=IN IP4 ") refl) address,
                (
                  fixed (bytes "t=0 0") refl,
                  (
                    IsLine-append (bytes "m=audio ") _ (fixed (bytes "m=audio ") refl)
                        (IsLine-append (decimal port) _ (number port) media_end),
                    (
                      IsLine-append (bytes "a=rtpmap:") _ (fixed (bytes "a=rtpmap:") refl) (
                          IsLine-append (decimal pt) (b' ' ∷ token codec) (number pt) (refl, spec)),
                      (
                        IsLine-append (bytes "a=") (direction send_media) (fixed (bytes "a=") refl)
                            (IsWord-IsLine (direction send_media) (direction-IsWord send_media)),
                        tt,
                      ),
                    ),
                  ),
                ),
              ),
            ),
          ),
        )
        (
          append-IsTrimmed b'v' (bytes "=") (bytes "0") refl
              (IsWord-IsEnded _ (no_space-IsWord _ _ refl)),
          (
            append-IsTrimmed b'o' (bytes "=- 0 0 IN IP4 ") ip refl (IsWord-IsEnded ip h),
            (
              append-IsTrimmed b's' (bytes "=") (bytes "SwarmDialer") refl
                  (IsWord-IsEnded _ (no_space-IsWord _ _ refl)),
              (
                append-IsTrimmed b'c' (bytes "=IN IP4 ") ip refl (IsWord-IsEnded ip h),
                (
                  append-IsTrimmed b't' (bytes "=0 ") (bytes "0") refl
                      (IsWord-IsEnded _ (no_space-IsWord _ _ refl)),
                  (
                    (append-IsTrimmed b'm' (bytes "=audio ") _ refl (
                        append-IsEnded (decimal port) _ (
                          append-IsEnded (bytes " RTP/AVP ") _
                            (IsWord-IsEnded _ (decimal-IsWord pt))))),
                    (
                      (append-IsTrimmed b'a' (bytes "=rtpmap:") _ refl (
                          append-IsEnded (decimal pt) _ (
                            append-IsEnded (bytes " ") (token codec)
                              (IsWord-IsEnded _ (token-IsWord codec))))),
                      (
                        append-IsTrimmed b'a' (bytes "=") (direction send_media) refl
                            (IsWord-IsEnded _ (direction-IsWord send_media)),
                        tt,
                      ),
                    ),
                  ),
                ),
              ),
            ),
          ),
        ))

module _ (ip : Bytes) (port : ℕ) (codec : Codec) (pt : ℕ) where
  pub media_fields :
      fields (bytes "m=audio " ++ (decimal port ++ (bytes " RTP/AVP " ++ decimal pt)))
      ≡ bytes "m=audio" ∷ decimal port ∷ bytes "RTP/AVP" ∷ decimal pt ∷ []
  media_fields =
      fields-word (bytes "m=audio") _ (no_space-IsWord _ _ refl)
      ∙ ap (λ x. bytes "m=audio" ∷ x)
          (fields-word (decimal port) _ (decimal-IsWord port)
            ∙ ap (λ x. decimal port ∷ x)
                (fields-word (bytes "RTP/AVP") (decimal pt) (no_space-IsWord _ _ refl)
                  ∙ ap (λ x. bytes "RTP/AVP" ∷ x) (fields-last (decimal pt) (decimal-IsWord pt))))

  codec_fields : fields (decimal pt ++ b' ' ∷ token codec) ≡ decimal pt ∷ token codec ∷ []
  codec_fields =
      fields-word (decimal pt) (token codec) (decimal-IsWord pt)
      ∙ ap (λ x. decimal pt ∷ x) (fields-last (token codec) (token-IsWord codec))

  scan_written :
      (send_media : Bool) (s : Scanned)
      → scan_all (written ip port send_media codec pt) s ≡ record {
        order = decimal pt ∷ [];
        rtpmaps = (decimal pt, lower (before_slash (token codec))) ∷ s.rtpmaps;
      }
  unfolding scan_all
  scan_written true s = rw (media_fields, codec_fields) refl
  scan_written false s = rw (media_fields, codec_fields) refl

parse_uint8-digits :
    (s : Bytes)
    → s ≢ []
    → all_digits s ≡ true
    → scan_digits 0 s < 256
    → parse_uint8 s ≡ some (scan_digits 0 s)
unfolding parse_uint8
parse_uint8-digits [] n d h = absurd (n refl)
parse_uint8-digits (c ∷ s) n d h = rw (d, lt→ltb (scan_digits 0 (c ∷ s)) 256 h) refl

parse_uint8-decimal : (pt : ℕ) → pt < 256 → parse_uint8 (decimal pt) ≡ some pt
parse_uint8-decimal pt h =
    let q = scan_digits-decimal pt in
    parse_uint8-digits (decimal pt) (decimal-IsWord pt).1 (decimal-digits pt) (rw q h) ∙ ap some q

codec_named-token : (codec : Codec) → codec_named (lower (before_slash (token codec))) ≡ some codec
unfolding codec_named lower before_slash
codec_named-token ulaw = refl
codec_named-token g722 = refl
codec_named-token g729 = refl
codec_named-token opus = refl

find_name-first :
    (pt name : Bytes) (m : List (Bytes × Bytes)) → find_name pt ((pt, name) ∷ m) ≡ some name
unfolding find_name
find_name-first pt name m = rw (bytes_eq_refl pt, find_name) refl

offered-decimal :
    (codec : Codec) (pt : ℕ) (m : List (Bytes × Bytes))
    → pt < 256
    → offered ((decimal pt, lower (before_slash (token codec))) ∷ m) (decimal pt) ≡ some (codec, pt)
unfolding offered
offered-decimal codec pt m h =
    let found = find_name-first (decimal pt) (lower (before_slash (token codec))) m in
    rw (found, codec_named-token codec, parse_uint8-decimal pt h, offered) refl

found_in-one :
    (m : List (Bytes × Bytes)) (pt : Bytes) (x : Codec × ℕ)
    → offered m pt ≡ some x
    → found_in m (pt ∷ []) ≡ x ∷ []
unfolding found_in
found_in-one m pt x h = rw (h, found_in) refl

choose-one : (prefer : Option Codec) (x : Codec × ℕ) → choose prefer (x ∷ []) ≡ some x
unfolding choose first_preferred
choose-one prefer (c, n) = elim (Bool-cases (is_preferred prefer c)) [
  | inl e ↦ rw (e, choose, first_preferred) refl
  | inr e ↦ rw (e, choose, first_preferred) refl
]

active_written :
    (ip : Bytes) (port : ℕ) (send_media : Bool) (codec : Codec) (pt : ℕ)
    → all_active (written ip port send_media codec pt) ≡ send_media
unfolding all_active bytes_eq
active_written ip port true codec pt = refl
active_written ip port false codec pt = refl

-- Whatever codec the reader prefers, an offer or answer that was built for an address without spaces
-- names the codec and the payload type, a byte, that it was built with, and whether media is to flow.
pub parse_sdp_codec-build_sdp :
    (ip : Bytes) (port : ℕ) (send_media : Bool) (codec : Codec) (pt : ℕ) (prefer : Option Codec)
    → IsWord ip
    → pt < 256
    → (parse_sdp_codec (build_sdp ip port send_media codec pt) prefer ≡ some (codec, pt))
      × (sdp_wants_media (build_sdp ip port send_media codec pt) ≡ send_media)
unfolding parse_sdp_codec sdp_wants_media
parse_sdp_codec-build_sdp ip port send_media codec pt prefer h k =
    let body = lines-build_sdp ip port send_media codec pt h in
    let blank : Scanned = record { order = []; rtpmaps = [] } in
    let name = lower (before_slash (token codec)) in
    (
      ap
            (λ (ls : List Bytes).
              choose prefer (found_in (scan_all ls blank).rtpmaps (scan_all ls blank).order))
            body
          ∙ ap (λ (s : Scanned). choose prefer (found_in s.rtpmaps s.order))
              (scan_written ip port codec pt send_media blank)
          ∙ ap (choose prefer) (
              found_in-one ((decimal pt, name) ∷ []) (decimal pt) (codec, pt)
                (offered-decimal codec pt [] k))
          ∙ choose-one prefer (codec, pt),
      ap all_active body ∙ active_written ip port send_media codec pt,
    )
