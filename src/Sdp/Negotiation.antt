-- ===== src/Sdp/Negotiation.antt =====
-- Which of the codecs that an offer lists is taken.
use swarmdialer.Prelude.{
  some-inj, ℕ, ◌≡◌, ◌≢◌, refl, sym, ◌∙◌, ap, true, false, Option, none, some, List, [], ◌∷◌, arith,
  Bool-cases, Option-cases, inl, inr, subst, ◌↔◌, ◌⊎◌,
}
use swarmdialer.Text.{Bytes}
use swarmdialer.Sdp.{Codec, ulaw, g722, g729, opus, lines}
use swarmdialer.Sdp.Parse.{
  scan_all, offered, found_in, same_codec, is_preferred, first_preferred, choose, parse_sdp_codec,
}

some-ne-none {ℓ} : {A : Type ℓ} {x : A} → some x ≢ none
some-ne-none h = cc

true-ne-false : true ≢ false
true-ne-false h = ground arith

same_codec→eq : (c d : Codec) → same_codec c d ≡ true → c ≡ d
same_codec→eq ulaw ulaw h = refl
same_codec→eq g722 g722 h = refl
same_codec→eq g729 g729 h = refl
same_codec→eq opus opus h = refl
same_codec→eq c d h = ground arith

-- Some payload type of the list stands for this codec and number.
abbrev pub IsOffered : List (Bytes × Bytes) → List Bytes → Codec × ℕ → Type 0
IsOffered m [] x = ⊥
IsOffered m (pt ∷ pts) x = (offered m pt ≡ some x) ⊎ IsOffered m pts x

-- Some pair of the list is this one.
abbrev Among : Codec × ℕ → List (Codec × ℕ) → Type 0
Among x [] = ⊥
Among x (y ∷ ys) = (y ≡ x) ⊎ Among x ys

found_in-IsOffered :
    (m : List (Bytes × Bytes)) (pts : List Bytes) (x : Codec × ℕ)
    → Among x (found_in m pts) ↔ IsOffered m pts x
unfolding found_in
found_in-IsOffered m [] x = ((λ h. h), (λ h. h))
found_in-IsOffered m (pt ∷ pts) x =
    let (to, back) = found_in-IsOffered m pts x in
    elim (Option-cases (offered m pt)) [
      | inl q ↦
          rw (q, found_in)
            ((λ h. inr (to h)), (λ h. elim h [ inl e ↦ absurd (ground arith) | inr o ↦ back o ]))
      | inr (y, q) ↦
          rw (q, found_in)
            (
              (λ h. elim h [ inl e ↦ inl (ap some e) | inr o ↦ inr (to o) ]),
              (λ h. elim h [ inl e ↦ inl (some-inj e) | inr o ↦ inr (back o) ]),
            )
    ]

first_preferred-some :
    (prefer : Option Codec) (xs : List (Codec × ℕ)) (x : Codec × ℕ)
    → first_preferred prefer xs ≡ some x
    → Among x xs × (is_preferred prefer x.0 ≡ true)
unfolding first_preferred
first_preferred-some prefer [] x h = absurd (ground arith)
first_preferred-some prefer ((c, n) ∷ xs) x h = elim (Bool-cases (is_preferred prefer c)) [
  | inl e ↦
      let q : (c, n) ≡ x = some-inj (rw (e, first_preferred) at h) in
      (inl q, ap (λ (y : Codec × ℕ). is_preferred prefer y.0) (sym q) ∙ e)
  | inr e ↦
      let (a, b) = first_preferred-some prefer xs x (rw (e, first_preferred) at h) in (inr a, b)
]

first_preferred-none :
    (prefer : Option Codec) (xs : List (Codec × ℕ)) (x : Codec × ℕ)
    → first_preferred prefer xs ≡ none
    → Among x xs
    → is_preferred prefer x.0 ≡ false
unfolding first_preferred
first_preferred-none prefer [] x h a = absurd a
first_preferred-none prefer ((c, n) ∷ xs) x h a = elim (Bool-cases (is_preferred prefer c)) [
  | inl e ↦ absurd (some-ne-none (rw (e, first_preferred) at h))
  | inr e ↦ elim a [
    | inl q ↦ ap (λ (y : Codec × ℕ). is_preferred prefer y.0) (sym q) ∙ e
    | inr b ↦ first_preferred-none prefer xs x (rw (e, first_preferred) at h) b
  ]
]

same_codec_refl : (c : Codec) → same_codec c c ≡ true
same_codec_refl ulaw = refl
same_codec_refl g722 = refl
same_codec_refl g729 = refl
same_codec_refl opus = refl

-- What is chosen of a list is in it, and of the preferred codec if the list has it.
abbrev IsChosen : Option Codec → List (Codec × ℕ) → Codec × ℕ → Type 0
IsChosen prefer xs x =
    Among x xs × ((p : Codec) (n : ℕ) → prefer ≡ some p → Among (p, n) xs → x.0 ≡ p)

choose-IsChosen :
    (prefer : Option Codec) (xs : List (Codec × ℕ)) (x : Codec × ℕ)
    → choose prefer xs ≡ some x
    → IsChosen prefer xs x
unfolding choose
choose-IsChosen prefer [] x h = absurd (ground arith)
choose-IsChosen prefer (y ∷ ys) x h = elim (Option-cases (first_preferred prefer (y ∷ ys))) [
  | inr (z, q) ↦
      let (a, b) = first_preferred-some prefer (y ∷ ys) z q in
      let e : z ≡ x = some-inj (rw (q, choose) at h) in
      (
        subst (λ (w : Codec × ℕ). Among w (y ∷ ys)) e a,
        λ p n k m.
            same_codec→eq x.0 p
              (rw k at (ap (λ (w : Codec × ℕ). is_preferred prefer w.0) (sym e) ∙ b)),
      )
  | inl q ↦
      let e : y ≡ x = some-inj (rw (q, choose) at h) in
      (
        inl e,
        λ p n k m. absurd (
            true-ne-false (
              sym (same_codec_refl p)
              ∙ ap (λ (o : Option Codec). is_preferred o p) (sym k)
              ∙ first_preferred-none prefer (y ∷ ys) (p, n) q m)),
      )
]

choose-none : (prefer : Option Codec) (xs : List (Codec × ℕ)) → choose prefer xs ≡ none → xs ≡ []
unfolding choose
choose-none prefer [] h = refl
choose-none prefer (y ∷ ys) h = elim (Option-cases (first_preferred prefer (y ∷ ys))) [
  | inr (z, q) ↦ absurd (some-ne-none (rw (q, choose) at h))
  | inl q ↦ absurd (some-ne-none (rw (q, choose) at h))
]

-- Of any body, the codec and payload type that are taken are those of one of the payload types that
-- its "m=audio" line lists and whose name is known, and of the preferred codec if one of these is of
-- that codec; and there is an error only if there are none.
pub parse_sdp_codec-IsOffered :
    (body : Bytes) (prefer : Option Codec)
    → let s = scan_all (lines body) (record { order = []; rtpmaps = [] }) in
      ((x : Codec × ℕ)
        → parse_sdp_codec body prefer ≡ some x
        → IsOffered s.rtpmaps s.order x
          × ((p : Codec) (n : ℕ) → prefer ≡ some p → IsOffered s.rtpmaps s.order (p, n) → x.0 ≡ p))
      × (parse_sdp_codec body prefer ≡ none → (x : Codec × ℕ) → ¬ IsOffered s.rtpmaps s.order x)
unfolding parse_sdp_codec
parse_sdp_codec-IsOffered body prefer =
    let s = scan_all (lines body) (record { order = []; rtpmaps = [] }) in
    let xs = found_in s.rtpmaps s.order in
    let same = λ (x : Codec × ℕ). found_in-IsOffered s.rtpmaps s.order x in
    (
      (λ x h.
          let (a, b) = choose-IsChosen prefer xs x h in
          ((same x).0 a, λ p n k m. b p n k ((same (p, n)).1 m))),
      (λ h x o.
          subst (λ (ys : List (Codec × ℕ)). Among x ys) (choose-none prefer xs h) ((same x).1 o)),
    )
