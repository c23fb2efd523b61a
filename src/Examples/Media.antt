-- ===== src/Examples/Media.antt =====
-- RTP streams, u-law samples and failure keys.
use swarmdialer.Prelude.{ℕ, ◌+◌, ◌*◌, ◌≤◌, ◌≡◌, refl, inl, true, none, some, List, [], ◌∷◌, arith}
use swarmdialer.Prelude.Int.{negsuc}
use swarmdialer.Health.{AnswerError}
use swarmdialer.Rtp.Sequence.{track, At, no_seq, late_wrap_inflates}
use swarmdialer.Rtp.Packet.{Sender}
use swarmdialer.Rtp.Receive.{ReceiveState, on_rtp_received, media_counts}
use swarmdialer.Rtp.Stream.{Arrival, span, receive, media_counts_exact}
use swarmdialer.Ulaw.{linear_to_ulaw, decoded, decoded-linear_to_ulaw}

-- After number 1 of the second cycle comes 65535 of the first, and then 2.
late_wrap_inflates_example : track 2 (track 65535 (At 65000 65537)) ≡ At 65000 131074
late_wrap_inflates_example =
    late_wrap_inflates 65000 65537 2 (omega arith) (omega arith) (omega arith) (omega arith)

abbrev sender : Sender
sender = record {
  has_remote = true;
  frames = (1 ∷ 2 ∷ []) ∷ [];
  frame_pos = 0;
  payload_type = 0;
  samples_per_packet = 160;
  ssrc = 3_000_000_000;
  seq = 65535;
  timestamp = 4_000_000_000;
  rtp_time = 7;
  packets_sent = 0;
  octets_sent = 0;
}

abbrev silent : ReceiveState ℕ
silent = record {
  peer_ssrc = none;
  sequence = no_seq;
  packets_received = 0;
  last_transit = none;
  jitter = 0;
  last_peer_sr = none;
}

-- The packets 65534, 65535, 1 and 2: number 0 is lost.
abbrev wrapping : List Arrival
wrapping =
    record { gap = 1; arrival = 20; timestamp = 160 }
    ∷ record { gap = 2; arrival = 60; timestamp = 480 }
    ∷ record { gap = 1; arrival = 80; timestamp = 640 }
    ∷ []

media_counts_exact_example :
    media_counts (
      receive 0
        (λ j d. j + d)
        8000
        99
        65534
        wrapping
        (on_rtp_received 0 (λ j d. j + d) 8000 0 65534 0 99 silent))
    ≡ (5, 4)
unfolding span
media_counts_exact_example =
    media_counts_exact 0 (λ j d. j + d) 8000 99 0 65534 0 wrapping silent (inl (refl, refl, refl))
      (omega arith, (omega arith, (omega arith, tt))) (omega arith) (omega arith) (omega arith)

decoded-linear_to_ulaw_example :
    (32 * decoded (linear_to_ulaw (negsuc 999)) ≤ 32 * 1000 + (1000 + 132))
    × (32 * 1000 ≤ 32 * decoded (linear_to_ulaw (negsuc 999)) + (1000 + 132))
decoded-linear_to_ulaw_example = decoded-linear_to_ulaw (negsuc 999)

-- A busy answer, in time.
abbrev busy : AnswerError
busy = record { response_pointer = some 486; response_value = none }
