-- ===== src/Sdp.antt =====
-- internal/sipua/sdp.go and the codec table of internal/sipua/codec.go: the SDP bodies of offers and
-- answers as bytes. Text is ASCII. The buffer limit of bufio.Scanner is left out.
use swarmdialer.Prelude.{
  ℕ, zero, suc, ◌+◌, ◌*◌, ◌-◌, ◌^◌, ◌≤◌, ◌<◌, ◌≡◌, ◌≢◌, refl, sym, ◌∙◌, ap, Bool, true, false, ◌&&◌,
  ◌||◌, not, Option, none, some, List, [], ◌∷◌, ◌++◌, map, arith, leb, ltb, ◌==◌, if◌then◌else◌,
}
use swarmdialer.Prelude.Int.{ℤ, pos, negsuc}
use swarmdialer.Text.{
  Bytes, bytes, bytes_eq, decimal, is_digit, all_digits, scan_digits, cut_prefix, is_space,
  trim_space,
}
use swarmdialer.Retry.{lower}
pub mod Lines
pub mod Parse
pub mod RoundTrip
pub mod Media
pub mod Negotiation

pub data Codec : Type 0 where
  ulaw g722 g729 opus : Codec

pub record CodecSpec : Type 0 where
  pub payload_type : ℕ
  pub rtpmap_name : Bytes
  pub clock_rate_for_sdp : ℕ
  pub channels_for_sdp : ℕ
  pub samples_per_packet : ℕ

abbrev pub rtp_packet_duration_ms : ℕ
rtp_packet_duration_ms = 20

-- `codecSpecs`
abbrev pub spec_of : Codec → CodecSpec
spec_of ulaw = record {
  payload_type = 0;
  rtpmap_name = bytes "PCMU";
  clock_rate_for_sdp = 8000;
  channels_for_sdp = 0;
  samples_per_packet = rtp_packet_duration_ms * 8;
}
spec_of g722 = record {
  payload_type = 9;
  rtpmap_name = bytes "G722";
  clock_rate_for_sdp = 8000;
  channels_for_sdp = 0;
  samples_per_packet = rtp_packet_duration_ms * 8;
}
spec_of g729 = record {
  payload_type = 18;
  rtpmap_name = bytes "G729";
  clock_rate_for_sdp = 8000;
  channels_for_sdp = 0;
  samples_per_packet = rtp_packet_duration_ms * 8;
}
spec_of opus = record {
  payload_type = 111;
  rtpmap_name = bytes "opus";
  clock_rate_for_sdp = 48_000;
  channels_for_sdp = 2;
  samples_per_packet = rtp_packet_duration_ms * 48;
}

unfoldable pub rtpmap_line : Codec → ℕ → Bytes
rtpmap_line codec pt =
    let s = spec_of codec in
    let channels : Bytes =
      if ltb 0 s.channels_for_sdp then b'/' ∷ decimal s.channels_for_sdp else [] in
    decimal pt ++ b' ' ∷ (s.rtpmap_name ++ b'/' ∷ (decimal s.clock_rate_for_sdp ++ channels))

-- Each line with its "\r\n".
unfoldable pub end_lines : List Bytes → Bytes
end_lines [] = []
end_lines (l ∷ ls) = l ++ 13 ∷ 10 ∷ end_lines ls

abbrev pub direction : Bool → Bytes
direction true = bytes "sendrecv"
direction false = bytes "inactive"

unfoldable pub sdp_lines : Bytes → ℕ → Bool → Codec → ℕ → List Bytes
unfolding rtpmap_line
sdp_lines local_ip rtp_port send_media codec pt =
    bytes "v=0"
    ∷ (bytes "o=- 0 0 IN IP4 " ++ local_ip)
    ∷ bytes "s=SwarmDialer"
    ∷ (bytes "c=IN IP4 " ++ local_ip)
    ∷ bytes "t=0 0"
    ∷ (bytes "m=audio " ++ (decimal rtp_port ++ (bytes " RTP/AVP " ++ decimal pt)))
    ∷ (bytes "a=rtpmap:" ++ rtpmap_line codec pt)
    ∷ (bytes "a=" ++ direction send_media)
    ∷ []

unfoldable pub build_sdp : Bytes → ℕ → Bool → Codec → ℕ → Bytes
unfolding end_lines sdp_lines
build_sdp local_ip rtp_port send_media codec pt =
    end_lines (sdp_lines local_ip rtp_port send_media codec pt)

-- bufio.ScanLines
abbrev pub cons_to_first : ℕ → List Bytes → List Bytes
cons_to_first c [] = (c ∷ []) ∷ []
cons_to_first c (l ∷ ls) = (c ∷ l) ∷ ls

unfoldable pub split_lines : Bytes → List Bytes
split_lines [] = []
split_lines (c ∷ s) =
    let rest = split_lines s in if c == 10 then [] ∷ rest else cons_to_first c rest

unfoldable pub drop_cr : Bytes → Bytes
drop_cr [] = []
drop_cr (c ∷ []) = if c == 13 then [] else c ∷ []
drop_cr (c ∷ d ∷ s) = c ∷ drop_cr (d ∷ s)

-- The lines of a body, each trimmed.
unfoldable pub lines : Bytes → List Bytes
unfolding split_lines drop_cr trim_space
lines body = map (λ (l : Bytes). trim_space (drop_cr l)) (split_lines body)

-- strings.Fields: what stands between spaces, the empty left out.
unfoldable pub split_spaces : Bytes → List Bytes
split_spaces [] = [] ∷ []
split_spaces (c ∷ s) =
    let rest = split_spaces s in if is_space c then [] ∷ rest else cons_to_first c rest

unfoldable pub non_empty : List Bytes → List Bytes
non_empty [] = []
non_empty ([] ∷ ls) = non_empty ls
non_empty ((c ∷ l) ∷ ls) = (c ∷ l) ∷ non_empty ls

unfoldable pub fields : Bytes → List Bytes
unfolding split_spaces non_empty
fields s = non_empty (split_spaces s)

-- strings.SplitN(s, "/", 2)[0]
unfoldable pub before_slash : Bytes → Bytes
before_slash [] = []
before_slash (c ∷ s) = let rest = before_slash s in if c == b'/' then [] else c ∷ rest
