-- ===== src/Rtp/Stream.antt =====
-- What the receive statistics say of a whole stream.
use swarmdialer.Prelude.{
  ℕ, ◌+◌, ◌^◌, ◌<◌, ◌≡◌, ◌≢◌, ◌⊎◌, refl, ◌∙◌, ap, none, some, List, [], ◌∷◌, arith, ==_iff, length,
  inl, inr,
}
use swarmdialer.Rtp.Sequence.{u16, u32, no_seq, track, At, track-ahead}
use swarmdialer.Rtp.Receive.{ReceiveState, on_rtp_received, same_source, media_counts, expected_of}

-- No packet of this source has come yet: none at all, or the last were another source's.
abbrev pub IsFresh : {J : Type 0} → ℕ → ReceiveState J → Type 0
IsFresh ssrc st =
    ((st.peer_ssrc ≡ none) × (st.sequence ≡ no_seq) × (st.packets_received ≡ 0))
    ⊎ ((other : ℕ) × (st.peer_ssrc ≡ some other) × (ssrc ≢ other))

track-first : (seq : ℕ) → seq < 65536 → track seq no_seq ≡ At seq seq
unfolding track
track-first seq h = ground arith

expected_at :
    (base h k : ℕ) → h ≡ base + k → k + 1 < 2 ^ 32 → base < 2 ^ 16 → expected_of (At base h) ≡ k + 1
unfolding expected_of
expected_at base h k e f g = omega arith

counts_at :
    {J : Type 0} (base h k n : ℕ) (st : ReceiveState J)
    → st.sequence ≡ At base h
    → st.packets_received ≡ n
    → h ≡ base + k
    → k + 1 < 2 ^ 32
    → base < 2 ^ 16
    → media_counts st ≡ (k + 1, n)
unfolding media_counts
counts_at base h k n st q r e f g = rw (q, r, expected_at base h k e f g) refl

-- A packet of a stream: how far its number is ahead of the one received before it, and its times.
pub record Arrival : Type 0 where
  pub gap : ℕ
  pub arrival : ℕ
  pub timestamp : ℕ

-- How far the last packet's number is from the first one's.
unfoldable pub span : List Arrival → ℕ
span [] = 0
span (p ∷ ps) = p.gap + span ps

-- Less than half the range is lost between one packet and the next.
abbrev pub Gapped : List Arrival → Type 0
Gapped [] = Unit
Gapped (p ∷ ps) = (p.gap < 0x8000) × Gapped ps

module _ {J : Type 0} (start : J) (smooth : J → ℕ → J) (clock_rate ssrc : ℕ) where
  -- Receives the packets of one source, from the extended number `h` on.
  unfoldable pub receive : ℕ → List Arrival → ReceiveState J → ReceiveState J
  receive h [] st = st
  receive h (p ∷ ps) st =
      receive (h + p.gap) ps
        (on_rtp_received start smooth clock_rate p.arrival (u16 (h + p.gap)) p.timestamp ssrc st)

  -- A packet of the source so far goes on with its statistics.
  on_known :
      (arrival seq timestamp : ℕ) (st : ReceiveState J)
      → st.peer_ssrc ≡ some ssrc
      → let st' = on_rtp_received start smooth clock_rate arrival seq timestamp ssrc st in
        (st'.sequence ≡ track seq st.sequence)
        × (st'.packets_received ≡ u32 (st.packets_received + 1))
        × (st'.peer_ssrc ≡ some ssrc)
  unfolding on_rtp_received
  on_known arrival seq timestamp st s = ground (arith, s)

  receive_counts :
      (base h : ℕ) (ps : List Arrival) (st : ReceiveState J)
      → Gapped ps
      → h + span ps < 2 ^ 32
      → st.packets_received + length ps < 2 ^ 32
      → st.peer_ssrc ≡ some ssrc
      → st.sequence ≡ At base h
      → let st' = receive h ps st in
        (st'.sequence ≡ At base (h + span ps))
        × (st'.packets_received ≡ st.packets_received + length ps)
        × (st'.peer_ssrc ≡ some ssrc)
  unfolding receive span
  receive_counts base h [] st g f r s q = (q ∙ ap (At base) (omega arith), omega arith, s)
  receive_counts base h (p ∷ ps) st g f r s q =
      let st₁ =
        on_rtp_received start smooth clock_rate p.arrival (u16 (h + p.gap)) p.timestamp ssrc st in
      let (a, b, c) = on_known p.arrival (u16 (h + p.gap)) p.timestamp st s in
      let (x, y, z) =
        receive_counts base (h + p.gap) ps st₁ g.1 (omega arith) (omega arith) c
          (a ∙ ap (track (u16 (h + p.gap))) q ∙ track-ahead base h p.gap g.0 (omega arith)) in
      (x ∙ ap (At base) (omega arith), y ∙ omega arith, z)

  -- Nothing is kept of another source, and there is nothing before the first one.
  same_source-fresh :
      (st : ReceiveState J)
      → IsFresh ssrc st
      → ((same_source start smooth ssrc st).sequence ≡ no_seq)
        × ((same_source start smooth ssrc st).packets_received ≡ 0)
  unfolding same_source
  same_source-fresh st (inl (n, q, r)) = rw n (q, r)
  same_source-fresh st (inr (other, p, ne)) = rw p (ground (arith, ==_iff ssrc other))

  on_fresh :
      (arrival seq timestamp : ℕ) (st : ReceiveState J)
      → seq < 65536
      → IsFresh ssrc st
      → let st' = on_rtp_received start smooth clock_rate arrival seq timestamp ssrc st in
        (st'.sequence ≡ At seq seq) × (st'.packets_received ≡ 1) × (st'.peer_ssrc ≡ some ssrc)
  unfolding on_rtp_received
  on_fresh arrival seq timestamp st h f =
      let (a, b) = same_source-fresh st f in
      (ap (track seq) a ∙ track-first seq h, ap (λ (k : ℕ). u32 (k + 1)) b, refl)

  -- For a source of which nothing was received before: after its first packet and then any others in
  -- order, of which fewer than half the range are lost at a time, the statistics say that exactly as
  -- many packets were expected as lie between the first and the last sequence number, over any
  -- number of wraps (below 2 ^ 32 in all), and that those that came were received.
  pub media_counts_exact :
      (arrival seq timestamp : ℕ) (ps : List Arrival) (st : ReceiveState J)
      → IsFresh ssrc st
      → Gapped ps
      → seq < 2 ^ 16
      → seq + span ps + 1 < 2 ^ 32
      → length ps + 1 < 2 ^ 32
      → media_counts
          (receive seq ps (on_rtp_received start smooth clock_rate arrival seq timestamp ssrc st))
        ≡ (span ps + 1, length ps + 1)
  media_counts_exact arrival seq timestamp ps st f g small fits few =
      let (a, b, c) = on_fresh arrival seq timestamp st small f in
      let (x, y, z) =
        receive_counts seq seq ps
          (on_rtp_received start smooth clock_rate arrival seq timestamp ssrc st) g (omega arith)
          (omega arith) c a in
      counts_at seq (seq + span ps) (span ps) (length ps + 1)
        (receive seq ps (on_rtp_received start smooth clock_rate arrival seq timestamp ssrc st)) x
        (y ∙ omega (arith, b)) (omega arith) (omega arith) (omega arith)
