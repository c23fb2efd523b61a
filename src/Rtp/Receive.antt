-- ===== src/Rtp/Receive.antt =====
-- internal/sipua/rtp.go: `rtcpReceiveState`, `onRTPReceived`, `MediaStats` and the reception report
-- of `sendRTCPReport`. The jitter estimate is a float: its type and its update are a parameter. A
-- transit time, an int32 in an int64, is kept with 2 ^ 31 added, so that it is a number below 2 ^ 32
-- in the same order; only differences of two of them are used.
use swarmdialer.Prelude.{
  ℕ, ◌+◌, ◌-◌, ◌*◌, ◌/◌, ◌%◌, Option, none, some, ltb, leb, ◌==◌, if◌then◌else◌,
}
use swarmdialer.Rtp.Sequence.{u32, SeqState, no_seq, track}

abbrev pub distance : ℕ → ℕ → ℕ
distance a b = if ltb a b then b - a else a - b

-- int64(int32(arrival - timestamp)), with 2 ^ 31 added.
unfoldable pub transit_of : ℕ → ℕ → ℕ
transit_of arrival timestamp = u32 (arrival + 4294967296 - timestamp + 2147483648)

pub record ReceiveState (J : Type 0) : Type 0 where
  pub peer_ssrc : Option ℕ
  pub sequence : SeqState
  pub packets_received : ℕ
  pub last_transit : Option ℕ
  pub jitter : J
  pub last_peer_sr : Option (ℕ × ℕ)  -- NTP time and time of receipt of the peer's last report

-- `start` is the jitter 0, and `smooth` is `jitter += (d - jitter) / 16`.
module _ {J : Type 0} (start : J) (smooth : J → ℕ → J) where
  -- The state for a new source: only the peer's last report is kept.
  unfoldable pub afresh : Option (ℕ × ℕ) → ReceiveState J
  afresh last_peer_sr = record {
    peer_ssrc = none;
    sequence = no_seq;
    packets_received = 0;
    last_transit = none;
    jitter = start;
    last_peer_sr = last_peer_sr;
  }

  -- Starts afresh if the packet's source is not the one so far.
  unfoldable pub same_source : ℕ → ReceiveState J → ReceiveState J
  unfolding afresh
  same_source ssrc st = elim st.peer_ssrc [
    | none ↦ st
    | some peer ↦ if ssrc == peer then st else afresh st.last_peer_sr
  ]

  -- A jump of more than half a second is no jitter.
  unfoldable pub next_jitter : ℕ → ℕ → ReceiveState J → J
  next_jitter clock_rate transit st = elim st.last_transit [
    | none ↦ st.jitter
    | some last ↦
        if leb (distance transit last) (clock_rate / 2)
        then smooth st.jitter (distance transit last)
        else st.jitter
  ]

  -- `arrival` is the time of arrival on the codec's clock.
  unfoldable pub on_rtp_received : ℕ → ℕ → ℕ → ℕ → ℕ → ReceiveState J → ReceiveState J
  unfolding same_source next_jitter track transit_of
  on_rtp_received clock_rate arrival seq timestamp ssrc state =
      let st = same_source ssrc state in
      record st {
        peer_ssrc = some ssrc;
        sequence = track seq st.sequence;
        packets_received = u32 (st.packets_received + 1);
        last_transit = some (transit_of arrival timestamp);
        jitter = next_jitter clock_rate (transit_of arrival timestamp) st;
      }

  -- `rtcpRecvLoop`, for one sender report.
  unfoldable pub on_sender_report : ℕ → ℕ → ReceiveState J → ReceiveState J
  on_sender_report ntp_time now st = record st { last_peer_sr = some (ntp_time, now) }

-- `MediaStats`: expected and received. (The jitter in milliseconds is a float of the estimate.)
unfoldable pub expected_of : SeqState → ℕ
expected_of q = elim q.base_seq [
  | none ↦ 0
  | some base ↦ u32 (q.highest_seq + 4294967296 - base + 1)
]

unfoldable pub media_counts : {J : Type 0} → ReceiveState J → ℕ × ℕ
media_counts st = elim st.sequence.base_seq [
  | none ↦ (0, 0)
  | some base ↦ (expected_of st.sequence, st.packets_received)
]

pub record ReceptionReport (J : Type 0) : Type 0 where
  pub ssrc : ℕ
  pub fraction_lost : ℕ
  pub total_lost : ℕ
  pub last_sequence_number : ℕ
  pub jitter : J
  pub last_sender_report : ℕ
  pub delay : ℕ

-- `totalLost * 256` is a uint32 product, and the quotient is cut to a uint8.
unfoldable pub fraction_lost : ℕ → ℕ → ℕ
fraction_lost total_lost expected = u32 (total_lost * 256) / expected % 256

-- The receiver report's block in `sendRTCPReport`, if there is a stream to report on. `dlsr` is the
-- delay since a time of receipt, in the report's unit.
unfoldable pub reception_report :
    {J : Type 0} → (ℕ → ℕ) → ReceiveState J → Option (ReceptionReport J)
unfolding expected_of fraction_lost
reception_report dlsr st = elim st.peer_ssrc [
  | none ↦ none
  | some ssrc ↦ elim st.sequence.base_seq [
    | none ↦ none
    | some base ↦
        let expected = expected_of st.sequence in
        let lost = if leb st.packets_received expected then expected - st.packets_received else 0 in
        some (record {
          ssrc = ssrc;
          fraction_lost = if ltb 0 expected then fraction_lost lost expected else 0;
          total_lost = lost;
          last_sequence_number = st.sequence.highest_seq;
          jitter = st.jitter;
          last_sender_report = elim st.last_peer_sr [ none ↦ 0 | some sr ↦ u32 (sr.0 / 65536) ];
          delay = elim st.last_peer_sr [ none ↦ 0 | some sr ↦ dlsr sr.1 ];
        })
  ]
]
