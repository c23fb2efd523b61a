-- ===== src/Sdp/Media.antt =====
-- The address of an SDP body that was built is read back.
use swarmdialer.Prelude.{
  ℕ, zero, suc, ◌^◌, ◌<◌, ◌≡◌, ◌≢◌, refl, ◌∙◌, ap, Bool, true, false, none, some, List, [], ◌∷◌,
  ◌++◌, arith, ◌==◌, lt→ltb,
}
use swarmdialer.Text.{
  Bytes, bytes, all_digits, scan_digits, scan_digits-decimal, cut_prefix, trim_space, trim_left,
  decimal, decimal-digits,
}
use swarmdialer.Prelude.Int.{ℤ, pos}
use swarmdialer.Sdp.{Codec, ulaw, direction, build_sdp, fields}
use swarmdialer.Sdp.Parse.{atoi_digits, atoi, audio_port, scan_media, known, parse_sdp_media}
use swarmdialer.Sdp.Lines.{IsWord, IsWord-IsEnded, decimal-IsWord}
use swarmdialer.Sdp.RoundTrip.{token, written, lines-build_sdp, media_fields}

atoi_digits-digits :
    (bound : ℕ) (s : Bytes)
    → s ≢ []
    → all_digits s ≡ true
    → scan_digits 0 s < bound
    → atoi_digits bound s ≡ some (scan_digits 0 s)
unfolding atoi_digits
atoi_digits-digits bound [] n d h = absurd (n refl)
atoi_digits-digits bound (c ∷ s) n d h = rw (d, lt→ltb (scan_digits 0 (c ∷ s)) bound h) refl

atoi-digits :
    (s : Bytes)
    → s ≢ []
    → all_digits s ≡ true
    → scan_digits 0 s < 2 ^ 63
    → atoi s ≡ some (pos (scan_digits 0 s))
unfolding atoi all_digits
atoi-digits [] n d h = absurd (n refl)
atoi-digits (c ∷ s) n d h =
    let no_minus : (c == b'-') ≡ false = ground (arith, d) in
    let no_plus : (c == b'+') ≡ false = ground (arith, d) in
    rw (no_minus, no_plus, atoi, atoi_digits-digits (2 ^ 63) (c ∷ s) n d h) refl

atoi-decimal : (n : ℕ) → n < 2 ^ 63 → atoi (decimal n) ≡ some (pos n)
atoi-decimal n h =
    let q = scan_digits-decimal n in
    atoi-digits (decimal n) (decimal-IsWord n).1 (decimal-digits n) (rw q h)
    ∙ ap (λ k. some (pos k)) q

word-IsTrimmed : (w : Bytes) → IsWord w → trim_space w ≡ w
unfolding trim_space trim_left
word-IsTrimmed [] h = refl
word-IsTrimmed (c ∷ s) h = rw (h.0.0, trim_left) (IsWord-IsEnded (c ∷ s) h).0

module _ (l : Bytes) (ls : List Bytes) (ip : Bytes) (port : ℤ) where
  scan_media-other :
      cut_prefix (bytes "c=IN IP4 ") l ≡ none
      → cut_prefix (bytes "m=audio ") l ≡ none
      → scan_media (l ∷ ls) (ip, port) ≡ scan_media ls (ip, port)
  unfolding scan_media
  scan_media-other c m = rw (c, m, scan_media) refl

  scan_media-address :
      (rest : Bytes)
      → cut_prefix (bytes "c=IN IP4 ") l ≡ some rest
      → scan_media (l ∷ ls) (ip, port) ≡ scan_media ls (trim_space rest, port)
  unfolding scan_media
  scan_media-address rest c = rw (c, scan_media) refl

  scan_media-audio :
      (rest : Bytes) (p : ℤ)
      → cut_prefix (bytes "c=IN IP4 ") l ≡ none
      → cut_prefix (bytes "m=audio ") l ≡ some rest
      → audio_port (fields l) ≡ some p
      → scan_media (l ∷ ls) (ip, port) ≡ scan_media ls (ip, p)
  unfolding scan_media
  scan_media-audio rest p c m a = rw (c, m, a, scan_media) refl

audio_port-written :
    (port pt : ℕ)
    → port < 2 ^ 63
    → audio_port (fields (bytes "m=audio " ++ (decimal port ++ (bytes " RTP/AVP " ++ decimal pt))))
      ≡ some (pos port)
unfolding audio_port
audio_port-written port pt k = ap audio_port (media_fields [] port ulaw pt) ∙ atoi-decimal port k

scan_media-written :
    (ip : Bytes) (port : ℕ) (send_media : Bool) (codec : Codec) (pt : ℕ)
    → IsWord ip
    → port < 2 ^ 63
    → scan_media (written ip port send_media codec pt) ([], pos 0) ≡ some (ip, pos port)
unfolding cut_prefix scan_media
scan_media-written ip port send_media codec pt h k =
    let media = bytes "m=audio " ++ (decimal port ++ (bytes " RTP/AVP " ++ decimal pt)) in
    let last : List Bytes =
      (bytes "a=rtpmap:" ++ (decimal pt ++ b' ' ∷ token codec))
      ∷ (bytes "a=" ++ direction send_media)
      ∷ [] in
    let rest : List Bytes = bytes "t=0 0" ∷ media ∷ last in
    scan_media-address (bytes "c=IN IP4 " ++ ip) rest [] (pos 0) ip refl
    ∙ ap (λ (x : Bytes). scan_media rest (x, pos 0)) (word-IsTrimmed ip h)
    ∙ scan_media-audio media last ip (pos 0) (decimal port ++ (bytes " RTP/AVP " ++ decimal pt))
        (pos port) refl refl (audio_port-written port pt k)

known-some :
    (ip : Bytes) (port : ℕ) → ip ≢ [] → 0 < port → known (some (ip, pos port)) ≡ some (ip, pos port)
known-some [] port n h = absurd (n refl)
known-some (c ∷ ip) zero n h = absurd (omega arith)
known-some (c ∷ ip) (suc port) n h = refl

-- The address and port that media is sent to are those that an offer or answer was built with, for an
-- address without spaces and a port of 16 bits that is not 0.
pub parse_sdp_media-build_sdp :
    (ip : Bytes) (port : ℕ) (send_media : Bool) (codec : Codec) (pt : ℕ)
    → IsWord ip
    → 0 < port
    → port < 65_536
    → parse_sdp_media (build_sdp ip port send_media codec pt) ≡ some (ip, pos port)
unfolding parse_sdp_media
parse_sdp_media-build_sdp ip port send_media codec pt h low high =
    ap (λ (ls : List Bytes). known (scan_media ls ([], pos 0)))
      (lines-build_sdp ip port send_media codec pt h)
    ∙ ap known (scan_media-written ip port send_media codec pt h (omega arith))
    ∙ known-some ip port h.1 low
