-- ===== src/Trunk/Batches.antt =====
-- cmd/gui/trunkcodec.go: what preparing and releasing a remote batch keeps.
use swarmdialer.Prelude.{
  ℕ, zero, suc, ◌<◌, ◌≡◌, ◌≢◌, refl, subst, ◌∙◌, ◌↔◌, String, ◌==s◌, eq_iff, eq_refl, Bool, true,
  false, not, List, [], ◌∷◌, ltb, arith, get_elem?, set, All, count_if, count_if-set, Bool-cases,
  Option-cases, inl, inr, ◌⊎◌,
}
use swarmdialer.Trunk.{
  Trunk, Answer, Batch, PairBatches, ConnectedPair, busy, trunk_codec_order, same_order,
  prepare_trunk, prepare_both, prepare_remote_batch, is_member, codecs_list, release_batch,
}

-- A trunk, if there is one, has the order for the codec.
abbrev pub IsOrdered : String → Trunk → Type 0
IsOrdered codec t = t.has_trunk ≡ true → t.order ≡ trunk_codec_order codec

abbrev pub is_running : Batch → Bool
is_running b = not b.released

-- As many batches of a key run as are counted, they all have its codec, and while there are any, both
-- trunks have the order for it.
pub record IsSound (k : PairBatches) (srv peer : Trunk) : Type 0 where
  pub counted : count_if is_running k.batches ≡ k.running
  pub same_codec : All (λ (b : Batch). b.released ≡ false → b.codec ≡ k.codec) k.batches
  pub ordered : 0 < k.running → IsOrdered k.codec srv × IsOrdered k.codec peer

same_order→eq : (xs ys : List String) → same_order xs ys ≡ true → xs ≡ ys
unfolding same_order
same_order→eq [] [] h = refl
same_order→eq [] (y ∷ ys) h = absurd (ground arith)
same_order→eq (x ∷ xs) [] h = absurd (ground arith)
same_order→eq (x ∷ xs) (y ∷ ys) h = ground (arith, same_order→eq xs ys, eq_iff x y)

prepare_trunk-IsOrdered :
    (codec : String) (a : Answer) (t : Trunk)
    → (prepare_trunk (trunk_codec_order codec) a t).0 ≡ true
    → IsOrdered codec (prepare_trunk (trunk_codec_order codec) a t).1
unfolding prepare_trunk
prepare_trunk-IsOrdered codec a t h k =
    ground (arith, same_order→eq t.order (trunk_codec_order codec))

-- A trunk that has the order already keeps it, whatever the API answers.
same_order_refl : (xs : List String) → same_order xs xs ≡ true
unfolding same_order
same_order_refl [] = refl
same_order_refl (x ∷ xs) = rw (eq_refl x) (same_order_refl xs)

prepare_trunk-ordered :
    (codec : String) (a : Answer) (t : Trunk)
    → IsOrdered codec t
    → (prepare_trunk (trunk_codec_order codec) a t).1 ≡ t
unfolding prepare_trunk
prepare_trunk-ordered codec a t h = ground (arith, same_order_refl (trunk_codec_order codec))

none_running_agree :
    (codec : String) (bs : List Batch)
    → count_if is_running bs ≡ 0
    → All (λ (b : Batch). b.released ≡ false → b.codec ≡ codec) bs
unfolding count_if
none_running_agree codec [] h = tt
none_running_agree codec (b ∷ bs) h =
    ((λ k. absurd (ground arith)), none_running_agree codec bs (ground arith))

keeps-IsOrdered :
    (codec : String) (a : Answer) (s : PairBatches)
    → (s.running ≡ 0) ⊎ (s.codec ≡ codec)
    → 0 < s.running
    → (t : Trunk) → IsOrdered s.codec t
    → IsOrdered s.codec (prepare_trunk (trunk_codec_order codec) a t).1
keeps-IsOrdered codec a s (inl z) k t o = absurd (omega (arith, z, k))
keeps-IsOrdered codec a s (inr e) k t o =
    rw (prepare_trunk-ordered codec a t (subst (λ (c : String). IsOrdered c t) e o)) o

batches_agree :
    (codec : String) (s : PairBatches) (srv peer : Trunk)
    → (s.running ≡ 0) ⊎ (s.codec ≡ codec)
    → IsSound s srv peer
    → All (λ (b : Batch). b.released ≡ false → b.codec ≡ codec) s.batches
batches_agree codec s srv peer (inl z) inv = none_running_agree codec s.batches (inv.counted ∙ z)
batches_agree codec s srv peer (inr e) inv =
    subst (λ (c : String). All (λ (b : Batch). b.released ≡ false → b.codec ≡ c) s.batches) e
      inv.same_codec

prepare_both-IsSound :
    (codec : String) (a b : Answer) (s : ConnectedPair)
    → (s.there.running ≡ 0) ⊎ (s.there.codec ≡ codec)
    → IsSound s.there s.srv s.peer
    → let s' = (prepare_both codec a b s).1 in IsSound s'.there s'.srv s'.peer
unfolding prepare_both
prepare_both-IsSound codec a b s h inv =
    elim (Bool-cases (prepare_trunk (trunk_codec_order codec) a s.srv).0) [
      | inr e ↦ rw e (record {
        counted = inv.counted;
        same_codec = inv.same_codec;
        ordered =
            λ k. (keeps-IsOrdered codec a s.there h k s.srv (inv.ordered k).0, (inv.ordered k).1);
      })
      | inl e ↦ elim (Bool-cases (prepare_trunk (trunk_codec_order codec) b s.peer).0) [
        | inr f ↦
            rw (e, f)
              (record {
                counted = inv.counted;
                same_codec = inv.same_codec;
                ordered = λ k. (
                  keeps-IsOrdered codec a s.there h k s.srv (inv.ordered k).0,
                  keeps-IsOrdered codec b s.there h k s.peer (inv.ordered k).1,
                );
              })
        | inl f ↦
            rw (e, f)
              (record {
                counted = unfold count_if in omega (arith, inv.counted);
                same_codec = ((λ k. refl), batches_agree codec s.there s.srv s.peer h inv);
                ordered = λ k. (
                  prepare_trunk-IsOrdered codec a s.srv e,
                  prepare_trunk-IsOrdered codec b s.peer f,
                );
              })
      ]
    ]

-- What is done to the trunks leaves the other direction sound, if it has no batch or the same codec.
abbrev BackSound : ConnectedPair → Type 0
BackSound s = IsSound s.back s.peer s.srv

prepare_both-back :
    (codec : String) (a b : Answer) (s : ConnectedPair)
    → (s.back.running ≡ 0) ⊎ (s.back.codec ≡ codec)
    → BackSound s
    → BackSound (prepare_both codec a b s).1
unfolding prepare_both
prepare_both-back codec a b s h inv =
    let kept : IsSound s.back s.peer (prepare_trunk (trunk_codec_order codec) a s.srv).1 = record {
      counted = inv.counted;
      same_codec = inv.same_codec;
      ordered =
          λ k. ((inv.ordered k).0, keeps-IsOrdered codec a s.back h k s.srv (inv.ordered k).1);
    } in
    let both : IsSound s.back (prepare_trunk (trunk_codec_order codec) b s.peer).1
        (prepare_trunk (trunk_codec_order codec) a s.srv).1 =
      record {
        counted = inv.counted;
        same_codec = inv.same_codec;
        ordered =
            λ k. (keeps-IsOrdered codec b s.back h k s.peer (inv.ordered k).0, (kept.ordered k).1);
      } in
    elim (Bool-cases (prepare_trunk (trunk_codec_order codec) a s.srv).0) [
      | inr e ↦ rw e kept
      | inl e ↦ elim (Bool-cases (prepare_trunk (trunk_codec_order codec) b s.peer).0) [
        | inr f ↦ rw (e, f) both
        | inl f ↦ rw (e, f) both
      ]
    ]

prepare-back :
    (codec : String) (a b : Answer) (s : ConnectedPair)
    → (s.back.running ≡ 0) ⊎ (s.back.codec ≡ codec)
    → BackSound s
    → BackSound (prepare_remote_batch codec a b s).1
unfolding prepare_remote_batch
prepare-back codec a b s h inv = elim (Bool-cases (is_member codec codecs_list)) [
  | inr e ↦ rw e inv
  | inl e ↦ elim (Bool-cases (ltb 0 s.there.running)) [
    | inr f ↦ rw (e, f) (prepare_both-back codec a b s h inv)
    | inl f ↦ elim (Bool-cases (s.there.codec ==s codec)) [
      | inr g ↦ rw (e, f) (rw g inv)
      | inl g ↦ rw (e, f) (rw g (prepare_both-back codec a b s h inv))
    ]
  ]
]

-- Preparing a batch of one direction, whatever comes of it, keeps that direction sound: as many batches
-- run as are counted, they all have the one codec, and, right after it, while there are any, both trunks
-- have its order. It keeps the other direction, which uses the same trunks, sound too, if that has no
-- batch running or has the same codec; of a direction with another codec nothing is said.
pub prepare_remote_batch-IsSound :
    (codec : String) (a b : Answer) (s : ConnectedPair)
    → IsSound s.there s.srv s.peer
    → let s' = (prepare_remote_batch codec a b s).1 in
      IsSound s'.there s'.srv s'.peer
      × ((s.back.running ≡ 0) ⊎ (s.back.codec ≡ codec)
          → IsSound s.back s.peer s.srv
          → IsSound s'.back s'.peer s'.srv)
unfolding prepare_remote_batch
prepare_remote_batch-IsSound codec a b s inv = (
  elim (Bool-cases (is_member codec codecs_list)) [
    | inr e ↦ rw e inv
    | inl e ↦ elim (Bool-cases (ltb 0 s.there.running)) [
      | inr f ↦ rw (e, f) (prepare_both-IsSound codec a b s (inl (ground arith)) inv)
      | inl f ↦ elim (Bool-cases (s.there.codec ==s codec)) [
        | inr g ↦ rw (e, f) (rw g inv)
        | inl g ↦
            rw (e, f)
              (rw g (
                prepare_both-IsSound codec a b s (inr (ground (arith, eq_iff s.there.codec codec)))
                  inv))
      ]
    ]
  ],
  prepare-back codec a b s,
)

All-set {ℓ κ} :
    {A : Type ℓ} (P : A → Type κ) (xs : List A) (i : ℕ) (y : A)
    → P y
    → All P xs
    → All P (set xs i y)
All-set P [] i y p h = h
All-set P (x ∷ xs) zero y p h = (p, h.1)
All-set P (x ∷ xs) (suc i) y p h = (h.0, All-set P xs i y p h.1)

-- Releasing a batch, once or more often, keeps the batches of one key sound too.
pub release_batch-IsSound :
    (i : ℕ) (s : PairBatches) (srv peer : Trunk)
    → IsSound s srv peer
    → IsSound (release_batch i s) srv peer
unfolding release_batch
release_batch-IsSound i s srv peer inv = elim (Option-cases (get_elem? s.batches i)) [
  | inl e ↦ rw (e, release_batch) inv
  | inr (b, e) ↦ elim (Bool-cases b.released) [
    | inl f ↦ rw (e, release_batch) (rw f inv)
    | inr f ↦
        rw (e, release_batch)
          (rw f (record {
            counted = ground (
              arith,
              count_if-set is_running s.batches i b (record b { released = true }) e,
              inv.counted,
            );
            same_codec =
                All-set (λ (b : Batch). b.released ≡ false → b.codec ≡ s.codec) s.batches i _
                  (λ k. absurd (ground arith)) inv.same_codec;
            ordered = λ k. inv.ordered (omega (arith, k));
          }))
  ]
]

never_busy :
    (codec : String) (a b : Answer) (s : ConnectedPair) → (prepare_both codec a b s).0 ≢ busy
unfolding prepare_both
never_busy codec a b s h = ground arith

-- A batch is refused as busy exactly when its codec is allowed and batches of another one run.
pub busy_iff :
    (codec : String) (a b : Answer) (s : ConnectedPair)
    → ((prepare_remote_batch codec a b s).0 ≡ busy)
      ↔ ((is_member codec codecs_list ≡ true) × (0 < s.there.running) × (s.there.codec ≢ codec))
unfolding prepare_remote_batch
busy_iff codec a b s = (
  (λ h. ground (arith, never_busy codec a b s, eq_iff s.there.codec codec)),
  (λ h. ground (arith, eq_iff s.there.codec codec)),
)
