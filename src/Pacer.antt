-- ===== src/Pacer.antt =====
-- internal/sipua/pacer.go: which slot of the packet interval each running RTP session is in, and the packets
-- that one tick of each slot sends. A session is a number. `add` and `remove` are one step each, and do not
-- come between the ticks of one interval.
use mathlib.Core.Bool.{true≢false}
use swarmdialer.Prelude.{
  refl, sym, subst, zero, suc, ind, ltb, lt→ltb, ℕ, ◌+◌, ◌%◌, ◌<◌, ◌≡◌, ◌↔◌, ◌∙◌, ap, Bool, true,
  false, ◌&&◌, Option, none, some, arith, ◌==◌, if◌then◌else◌, Bool-cases, Option-cases, inl, inr,
}

abbrev pub pacer_slots : ℕ
pacer_slots = 20

-- `slots` tells whether a slot has a session; `slot` is the session's own note of it.
pub record Pacer : Type 0 where
  pub next : ℕ
  pub slots : ℕ → ℕ → Bool
  pub slot : ℕ → Option ℕ

abbrev pub start : Pacer
start = record { next = 0; slots = λ i s. false; slot = λ s. none }

abbrev pub put_member : ℕ → ℕ → Bool → (ℕ → ℕ → Bool) → ℕ → ℕ → Bool
put_member i s b slots j t = if (i == j) && (s == t) then b else slots j t

abbrev pub put_slot : ℕ → Option ℕ → (ℕ → Option ℕ) → ℕ → Option ℕ
put_slot s o slot t = if s == t then o else slot t

-- `add`
unfoldable pub add_session : ℕ → Pacer → Pacer
add_session s p = record {
  next = (p.next + 1) % pacer_slots;
  slots = put_member p.next s true p.slots;
  slot = put_slot s (some p.next) p.slot;
}

-- `remove`
unfoldable pub remove_session : ℕ → Pacer → Pacer
remove_session s p = elim (p.slot s) [
  | none ↦ record p { slot = put_slot s none p.slot }
  | some i ↦ record p { slots = put_member i s false p.slots; slot = put_slot s none p.slot }
]

-- A tick of a slot's `run`: how often it calls a session's `sendPacket`. The members are a set.
unfoldable pub slot_tick : ℕ → Pacer → ℕ → ℕ
slot_tick i p s = ind (p.slots i s)

-- The calls of a session's `sendPacket` in an interval in which each of the first n slots ticks once.
unfoldable pub packets : ℕ → Pacer → ℕ → ℕ
unfolding slot_tick
packets zero p s = 0
packets (suc n) p s = packets n p s + slot_tick n p s

-- The sessions that have been added and not been removed since.
abbrev pub put_running : ℕ → Bool → (ℕ → Bool) → ℕ → Bool
put_running s b running t = if s == t then b else running t

-- A session is a member of exactly the slot that it notes, and in an interval `sendPacket` of a running one
-- is called once, and of another one never.
abbrev pub IsPaced : (ℕ → Bool) → Pacer → Type 0
IsPaced running p =
    (p.next < pacer_slots)
    × ((s i : ℕ) → (p.slots i s ≡ true) ↔ (p.slot s ≡ some i))
    × ((s : ℕ) → packets pacer_slots p s ≡ ind (running s))

-- The noted slots are slots, and those of the running sessions.
abbrev Noted : Bool → Option ℕ → Type 0
Noted running none = running ≡ false
Noted running (some i) = (running ≡ true) × (i < pacer_slots)

abbrev Inv : (ℕ → Bool) → Pacer → Type 0
Inv running p =
    (p.next < pacer_slots)
    × ((s i : ℕ) → (p.slots i s ≡ true) ↔ (p.slot s ≡ some i))
    × ((s : ℕ) → Noted (running s) (p.slot s))

start-Inv : Inv (λ s. false) start
start-Inv = (omega arith, λ s i. ground arith, λ s. refl)

packets-none :
    (p : Pacer) (s n : ℕ)
    → ((i : ℕ) → (p.slots i s ≡ true) ↔ (p.slot s ≡ some i))
    → p.slot s ≡ none
    → packets n p s ≡ 0
unfolding packets
packets-none p s zero h e = refl
packets-none p s (suc n) h e = let rest = packets-none p s n h e in let here = h n in ground arith

packets-some :
    (p : Pacer) (s i n : ℕ)
    → ((i : ℕ) → (p.slots i s ≡ true) ↔ (p.slot s ≡ some i))
    → p.slot s ≡ some i
    → packets n p s ≡ ind (ltb i n)
unfolding packets
packets-some p s i zero h e = ground arith
packets-some p s i (suc n) h e =
    let rest = packets-some p s i n h e in let here = h n in ground arith

Inv-IsPaced : (running : ℕ → Bool) (p : Pacer) → Inv running p → IsPaced running p
Inv-IsPaced running p (n, h, k) = (
  n,
  h,
  λ s. elim (Option-cases (p.slot s)) [
    | inl e ↦
        let idle : running s ≡ false = subst (Noted (running s)) e (k s) in
        packets-none p s pacer_slots (h s) e ∙ ap ind (sym idle)
    | inr (i, e) ↦
        let (runs, low) : (running s ≡ true) × (i < pacer_slots) =
          subst (Noted (running s)) e (k s) in
        packets-some p s i pacer_slots (h s) e ∙ ap ind (lt→ltb _ _ low ∙ sym runs)
  ],
)

added :
    (n i s t : ℕ) (x : Bool) (o : Option ℕ)
    → ((s == t) ≡ true → o ≡ none)
    → ((x ≡ true) ↔ (o ≡ some i))
    → ((if (n == i) && (s == t) then true else x) ≡ true)
      ↔ ((if s == t then some n else o) ≡ some i)
added n i s t x o f h = elim (Bool-cases (s == t)) [
  | inl e ↦ let q = f e in ground (arith, h, q, e)
  | inr e ↦ ground (arith, h, e)
]

removed :
    (n i s t : ℕ) (x : Bool) (o : Option ℕ)
    → ((s == t) ≡ true → o ≡ some n)
    → ((x ≡ true) ↔ (o ≡ some i))
    → ((if (n == i) && (s == t) then false else x) ≡ true) ↔ ((if s == t then none else o) ≡ some i)
removed n i s t x o f h = elim (Bool-cases (s == t)) [
  | inl e ↦ let q = f e in ground (arith, h, q, e)
  | inr e ↦ ground (arith, h, e)
]

cleared :
    (i s t : ℕ) (x : Bool) (o : Option ℕ)
    → ((s == t) ≡ true → o ≡ none)
    → ((x ≡ true) ↔ (o ≡ some i))
    → (x ≡ true) ↔ ((if s == t then none else o) ≡ some i)
cleared i s t x o f h = elim (Bool-cases (s == t)) [
  | inl e ↦ let q = f e in ground (arith, h, q, e)
  | inr e ↦ ground (arith, h, e)
]

at_same : (p : Pacer) (s t : ℕ) (o : Option ℕ) → p.slot s ≡ o → (s == t) ≡ true → p.slot t ≡ o
at_same p s t o q e = let same : t ≡ s = ground arith in ap p.slot same ∙ q

Noted-if :
    (b x y : Bool) (o u : Option ℕ)
    → Noted x o
    → Noted y u
    → Noted (if b then x else y) (if b then o else u)
Noted-if true x y o u h k = h
Noted-if false x y o u h k = k

-- A session that is not running is in no slot.
free_slot : (x : Bool) (o : Option ℕ) → x ≡ false → Noted x o → o ≡ none
free_slot x none e h = refl
free_slot x (some i) e h = absurd (true≢false (sym h.0 ∙ e))

add_session-Inv :
    (s : ℕ) (running : ℕ → Bool) (p : Pacer)
    → running s ≡ false
    → Inv running p
    → Inv (put_running s true running) (add_session s p)
unfolding add_session
add_session-Inv s running p idle (n, h, k) =
    let free = free_slot (running s) (p.slot s) idle (k s) in
    (
      omega arith,
      (λ t i. added p.next i s t (p.slots i t) (p.slot t) (at_same p s t none free) (h t i)),
      (λ t. Noted-if (s == t) true (running t) (some p.next) (p.slot t) (refl, n) (k t)),
    )

remove_session-Inv :
    (s : ℕ) (running : ℕ → Bool) (p : Pacer)
    → Inv running p
    → Inv (put_running s false running) (remove_session s p)
unfolding remove_session
remove_session-Inv s running p (n, h, k) = elim (Option-cases (p.slot s)) [
  | inl q ↦
      rw (q, remove_session)
        (
          n,
          (λ t i. cleared i s t (p.slots i t) (p.slot t) (at_same p s t none q) (h t i)),
          (λ t. Noted-if (s == t) false (running t) none (p.slot t) refl (k t)),
        )
  | inr (j, q) ↦
      rw (q, remove_session)
        (
          n,
          (λ t i. removed j i s t (p.slots i t) (p.slot t) (at_same p s t (some j) q) (h t i)),
          (λ t. Noted-if (s == t) false (running t) none (p.slot t) refl (k t)),
        )
]

-- Starting and stopping sessions, each of which is started only while it is not running, with the
-- sessions that run afterwards.
pub data Reach : (ℕ → Bool) → Pacer → Type 0 where
  started : Reach (λ s. false) start
  after_add :
      (s : ℕ) (running : ℕ → Bool) (p : Pacer)
      → running s ≡ false
      → Reach running p
      → Reach (put_running s true running) (add_session s p)
  after_remove :
      (s : ℕ) (running : ℕ → Bool) (p : Pacer)
      → Reach running p
      → Reach (put_running s false running) (remove_session s p)

Reach-Inv : (running : ℕ → Bool) (p : Pacer) → Reach running p → Inv running p
Reach-Inv running p started = start-Inv
Reach-Inv running p (after_add s rs q idle r) = add_session-Inv s rs q idle (Reach-Inv rs q r)
Reach-Inv running p (after_remove s rs q r) = remove_session-Inv s rs q (Reach-Inv rs q r)

-- However sessions are started and stopped, each of them only while it is not running: every session is a
-- member of exactly the slot that it notes, and when each slot ticks once with no session started or
-- stopped in between, `sendPacket` is called once for each session that was added and not removed since,
-- and never for any other.
pub Reach-IsPaced : (running : ℕ → Bool) (p : Pacer) → Reach running p → IsPaced running p
Reach-IsPaced running p r = Inv-IsPaced running p (Reach-Inv running p r)
