-- ===== src/Rtp/Sequence.antt =====
-- internal/sipua/rtp.go, `onRTPReceived`: the extended sequence numbers that loss is counted from.
-- A uint16 and a uint32 are numbers below 2 ^ 16 and 2 ^ 32; what can wrap is taken modulo these.
use swarmdialer.Prelude.{
  ℕ, ◌+◌, ◌-◌, ◌*◌, ◌/◌, ◌%◌, ◌^◌, ◌≤◌, ◌<◌, ◌≡◌, ◌∙◌, ap, ◌&&◌, Option, none, some, arith, ltb,
  if◌then◌else◌,
}

abbrev pub u16 : ℕ → ℕ
u16 n = n % 65536

abbrev pub u32 : ℕ → ℕ
u32 n = n % 4294967296

-- `haveBase` and `baseSeq` are one option.
pub record SeqState : Type 0 where
  pub base_seq : Option ℕ
  pub highest_seq : ℕ
  pub cycles : ℕ

abbrev pub no_seq : SeqState
no_seq = record { base_seq = none; highest_seq = 0; cycles = 0 }

-- A smaller number that is more than half the range behind is one that has wrapped around.
unfoldable pub next_cycles : ℕ → SeqState → ℕ
next_cycles seq st =
    let prev = u16 st.highest_seq in
    if ltb seq prev && ltb 0x8000 (prev - seq) then u16 (st.cycles + 1) else st.cycles

-- The shift and the or of `cycles<<16 | seq` are on disjoint bits.
unfoldable pub extend : ℕ → ℕ → ℕ
extend cycles seq = cycles * 65536 + seq

unfoldable pub track : ℕ → SeqState → SeqState
unfolding next_cycles extend
track seq st = elim st.base_seq [
  | none ↦ record { base_seq = some seq; highest_seq = seq; cycles = st.cycles }
  | some base ↦
      let ext = extend (next_cycles seq st) seq in
      record {
        base_seq = some base;
        highest_seq = if ltb st.highest_seq ext then ext else st.highest_seq;
        cycles = next_cycles seq st;
      }
]

-- The state after packets up to the extended number `h`, of a stream that began at `base`.
abbrev pub At : ℕ → ℕ → SeqState
At base h = record { base_seq = some base; highest_seq = h; cycles = h / 65536 }

-- A packet that is `d` ahead of the highest one seen, with less than half the range lost between,
-- is placed at its true extended number, whether or not the 16-bit number wraps around.
pub track-ahead :
    (base h d : ℕ) → d < 0x8000 → h + d < 2 ^ 32 → track (u16 (h + d)) (At base h) ≡ At base (h + d)
unfolding track
track-ahead base h d half fits = ground arith

-- A packet that comes late, by at most half the range and with no wrap between, changes nothing.
pub track-late :
    (base h d : ℕ)
    → d ≤ 0x8000
    → d ≤ u16 h
    → h < 2 ^ 32
    → track (u16 (h - d)) (At base h) ≡ At base h
unfolding track
track-late base h d half inside fits = ground arith

-- A packet that comes late from before a wrap is taken for one that is ahead: the highest number
-- jumps forward by the rest of the range.
pub track-late_wrap :
    (base h d : ℕ)
    → d < 0x8000
    → u16 h < d
    → d ≤ h
    → h < 2 ^ 32
    → track (u16 (h - d)) (At base h)
      ≡ record { base_seq = some base; highest_seq = h - d + 65536; cycles = h / 65536 }
unfolding track
track-late_wrap base h d half outside back fits = ground arith

after_late_wrap :
    (base h d : ℕ)
    → d < 0x7fff
    → u16 h < d
    → d ≤ h
    → h + 65537 < 2 ^ 32
    → track
        (u16 (h + 1))
        (record { base_seq = some base; highest_seq = h - d + 65536; cycles = h / 65536 })
      ≡ At base (h + 1 + 65536)
unfolding track
after_late_wrap base h d half outside back fits = ground arith

-- After it, the next packet in order is placed a whole cycle above its true number: from then on the
-- stream looks as if 65536 more packets had been sent than were. (The packet was late by less than
-- half the range, and the numbers stay below 2 ^ 32.)
pub late_wrap_inflates :
    (base h d : ℕ)
    → d < 0x7fff
    → u16 h < d
    → d ≤ h
    → h + 65537 < 2 ^ 32
    → track (u16 (h + 1)) (track (u16 (h - d)) (At base h)) ≡ At base (h + 1 + 65536)
late_wrap_inflates base h d half outside back fits =
    ap (track (u16 (h + 1))) (track-late_wrap base h d (omega arith) outside back (omega arith))
    ∙ after_late_wrap base h d half outside back fits
