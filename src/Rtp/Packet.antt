-- ===== src/Rtp/Packet.antt =====
-- internal/sipua/rtp.go, `sendPacket` and the header that `recvLoop` reads: RTP packets as bytes.
use swarmdialer.Prelude.{
  ℕ, ◌+◌, ◌*◌, ◌/◌, ◌%◌, ◌^◌, ◌<◌, ◌≡◌, Bool, Option, none, some, List, [], ◌∷◌, arith, ◌==◌,
  if◌then◌else◌, length, get_elem?,
}
use swarmdialer.Rtp.Sequence.{u16, u32}

abbrev pub rtp_header_len : ℕ
rtp_header_len = 12

-- binary.BigEndian.PutUint16 and PutUint32 in front of the rest of a buffer.
unfoldable pub put16 : ℕ → List ℕ → List ℕ
put16 v rest = (v / 256 % 256) ∷ (v % 256) ∷ rest

unfoldable pub put32 : ℕ → List ℕ → List ℕ
put32 v rest = (v / 16777216 % 256) ∷ (v / 65536 % 256) ∷ (v / 256 % 256) ∷ (v % 256) ∷ rest

unfoldable pub be16 : ℕ → ℕ → ℕ
be16 a b = a * 256 + b

unfoldable pub be32 : ℕ → ℕ → ℕ → ℕ → ℕ
be32 a b c d = a * 16777216 + b * 65536 + c * 256 + d

-- The part of an RTP session that sending uses. `frames` is the codec's audio, never empty.
pub record Sender : Type 0 where
  pub has_remote : Bool  -- remoteAddr is known
  pub frames : List (List ℕ)
  pub frame_pos : ℕ
  pub payload_type : ℕ
  pub samples_per_packet : ℕ
  pub ssrc : ℕ
  pub seq : ℕ
  pub timestamp : ℕ
  pub rtp_time : ℕ
  pub packets_sent : ℕ
  pub octets_sent : ℕ

abbrev pub frame_at : List (List ℕ) → ℕ → List ℕ
frame_at frames i = elim (get_elem? frames i) [ none ↦ [] | some f ↦ f ]

-- The bytes that are written: version 2 with no padding, extension or CSRCs, then the fields.
unfoldable pub packet_bytes : Sender → List ℕ
unfolding put16 put32
packet_bytes s =
    0x80
    ∷ (s.payload_type % 128)
    ∷ put16 s.seq (put32 s.timestamp (put32 s.ssrc (frame_at s.frames s.frame_pos)))

-- `sendPacket`: the packet, if one is written, and the session afterwards; `written` is whether
-- WriteToUDP succeeds.
unfoldable pub send_packet : Bool → Sender → Option (List ℕ) × Sender
unfolding packet_bytes
send_packet written s =
    let s' = record s {
      frame_pos = (s.frame_pos + 1) % length s.frames;
      rtp_time = s.timestamp;
      seq = u16 (s.seq + 1);
      timestamp = u32 (s.timestamp + s.samples_per_packet);
    } in
    if s.has_remote
    then (
      some (packet_bytes s),
      if written
          then record s' {
            packets_sent = s.packets_sent + 1;
            octets_sent = s.octets_sent + length (frame_at s.frames s.frame_pos);
          }
          else s',
    )
    else (none, s)

pub record Header : Type 0 where
  pub seq : ℕ
  pub timestamp : ℕ
  pub ssrc : ℕ

-- What `recvLoop` reads of a datagram: none if it is too short or not version 2.
unfoldable pub read_header : List ℕ → Option Header
unfolding be16 be32
read_header (b0 ∷ b1 ∷ b2 ∷ b3 ∷ b4 ∷ b5 ∷ b6 ∷ b7 ∷ b8 ∷ b9 ∷ b10 ∷ b11 ∷ payload) =
    if b0 / 64 == 2
    then some (record { seq = be16 b2 b3; timestamp = be32 b4 b5 b6 b7; ssrc = be32 b8 b9 b10 b11 })
    else none
read_header _ = none

-- The fields fit their machine types.
pub record FitsWire (s : Sender) : Type 0 where
  pub seq_fits : s.seq < 2 ^ 16
  pub timestamp_fits : s.timestamp < 2 ^ 32
  pub ssrc_fits : s.ssrc < 2 ^ 32

be32-put32 :
    (v : ℕ) → v < 2 ^ 32 → be32 (v / 16777216 % 256) (v / 65536 % 256) (v / 256 % 256) (v % 256) ≡ v
unfolding be32
be32-put32 v h = omega arith

be16-put16 : (v : ℕ) → v < 2 ^ 16 → be16 (v / 256 % 256) (v % 256) ≡ v
unfolding be16
be16-put16 v h = omega arith

-- The receiver reads from a packet the sequence number, timestamp and SSRC that the sender had.
pub read_header-packet_bytes :
    (s : Sender)
    → FitsWire s
    → read_header (packet_bytes s)
      ≡ some (record { seq = s.seq; timestamp = s.timestamp; ssrc = s.ssrc })
unfolding packet_bytes read_header
read_header-packet_bytes s h =
    ground (arith, be16-put16 s.seq, be32-put32 s.timestamp, be32-put32 s.ssrc)
