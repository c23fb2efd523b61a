-- ===== src/Wizard/Items.antt =====
-- What one batch's answer adds to the extensions that the wizard has.
use swarmdialer.Prelude.{
  ℕ, suc, ◌+◌, ◌≤◌, ◌≡◌, refl, ap, subst, sym, ◌∙◌, arith, Option, none, some, List, [], ◌∷◌, ◌++◌,
  map, length, length-append, count_if, count_if-append, All, ind, ltb, ◌==◌, Bool-cases,
  Option-cases, inl, inr, ltb→ge,
}
use swarmdialer.Text.{Bytes, decimal, scan_digits, scan_digits-decimal}
use swarmdialer.Wizard.Batch.{
  max_reserved_skips, Work, find_request, sip_username_prefix, keep_extension, keep_with, adopt,
  grown, take_item, take_items, is_reserved_extension_error, is_own_extension,
}
use swarmdialer.Wizard.Extensions.{ext_number}
use swarmdialer.Wizard.{Result, ok, fail, ◌>>=◌, ExtensionCreate, BatchItem, Existing, Extension}

abbrev pub OnOk {ℓ} : {A : Type ℓ} → (A → Type 0) → Result A → Type 0
OnOk P (ok a) = P a
OnOk P (fail e) = Unit

OnOk-any {ℓ} : {A : Type ℓ} (r : Result A) → OnOk (λ a. Unit) r
OnOk-any (ok a) = tt
OnOk-any (fail e) = tt

pub OnOk-map {ℓ} :
    {A : Type ℓ} (P Q : A → Type 0) (r : Result A) → ((a : A) → P a → Q a) → OnOk P r → OnOk Q r
OnOk-map P Q (ok a) f h = f a h
OnOk-map P Q (fail e) f h = tt

pub OnOk-then {ℓ κ} :
    {A : Type ℓ} {B : Type κ} (P : A → Type 0) (Q : B → Type 0) (r : Result A) (f : A → Result B)
    → OnOk P r
    → ((a : A) → P a → OnOk Q (f a))
    → OnOk Q (r >>= f)
OnOk-then P Q (ok a) f h g = g a h
OnOk-then P Q (fail e) f h g = tt

-- How often a number occurs.
unfoldable pub times : ℕ → List ℕ → ℕ
unfolding count_if
times k ns = count_if (λ n. n == k) ns

pub times-cons : (k n : ℕ) (ns : List ℕ) → times k (n ∷ ns) ≡ ind (n == k) + times k ns
unfolding times count_if
times-cons k n ns = refl

abbrev pub numbers : List Extension → List ℕ
numbers = map ext_number

abbrev pub ids : List BatchItem → List ℕ
ids = map (λ (r : BatchItem). r.id)

abbrev pub requested : List ExtensionCreate → List ℕ
requested = map (λ (e : ExtensionCreate). e.number)

-- Every user name is the prefix that was read once, and the number.
abbrev pub IsNamed : Bytes → Extension → Type 0
IsNamed p e = (e.username ≡ p ++ e.ext) × (e.ext ≡ decimal (ext_number e))

abbrev pub Named : Option Bytes → List Extension → Type 0
Named none es = es ≡ []
Named (some p) es = All (IsNamed p) es

-- From `w` to `v`, the answers `ns` are used up: each adds an extension of its number or a skip.
abbrev pub Adds : List ℕ → Work → Work → Type 0
Adds ns w v =
    ((k : ℕ) → times k (numbers v.extensions) ≤ times k (numbers w.extensions) + times k ns)
    × (length v.extensions + v.skips ≡ length w.extensions + w.skips + length ns)
    × (w.skips ≤ v.skips)
    × (w.skips ≤ max_reserved_skips → v.skips ≤ max_reserved_skips)
    × (Named w.prefix w.extensions → Named v.prefix v.extensions)
    × (v.candidate ≡ w.candidate)

find_request-number :
    (id : ℕ) (batch : List ExtensionCreate) (e : ExtensionCreate)
    → find_request id batch ≡ some e
    → e.number ≡ id
unfolding find_request
find_request-number id [] e h = cc
find_request-number id (x ∷ xs) e h = ground (arith, find_request-number id xs e)

pub map-append {ℓ κ} :
    {A : Type ℓ} {B : Type κ} (f : A → B) (xs ys : List A) → map f (xs ++ ys) ≡ map f xs ++ map f ys
map-append f [] ys = refl
map-append f (x ∷ xs) ys = ap (λ t. f x ∷ t) (map-append f xs ys)

times-append : (k : ℕ) (ms ns : List ℕ) → times k (ms ++ ns) ≡ times k ms + times k ns
unfolding times
times-append k = count_if-append (λ n. n == k)

All-append {ℓ} :
    {A : Type ℓ} (P : A → Type 0) (xs ys : List A) → All P xs → All P ys → All P (xs ++ ys)
All-append P [] ys h g = g
All-append P (x ∷ xs) ys h g = (h.0, All-append P xs ys h.1 g)

-- An extension of a number is added at the end.
times-add :
    (k : ℕ) (es : List Extension) (e : Extension) (n : ℕ)
    → ext_number e ≡ n
    → times k (numbers (es ++ e ∷ [])) ≡ times k (numbers es) + times k (n ∷ [])
times-add k es e n h =
    ap (times k) (map-append ext_number es (e ∷ []))
    ∙ times-append k (numbers es) (ext_number e ∷ [])
    ∙ ap (λ m. times k (numbers es) + times k (m ∷ [])) h

grown-Adds :
    (w v : Work) (number : ℕ) (p : Bytes) (e : Extension)
    → v.extensions ≡ w.extensions ++ e ∷ []
    → v.prefix ≡ some p
    → v.skips ≡ w.skips
    → v.candidate ≡ w.candidate
    → e.ext ≡ decimal number
    → e.username ≡ p ++ e.ext
    → (Named w.prefix w.extensions → All (IsNamed p) w.extensions)
    → Adds (number ∷ []) w v
grown-Adds w v number p e he hp hs hc hx hu named =
    let same : ext_number e ≡ number = ap (scan_digits 0) hx ∙ scan_digits-decimal number in
    (
      (λ k. rw he (let more = times-add k w.extensions e number same in omega (arith, more))),
      (let more = ap length he in omega (arith, more, length-append w.extensions (e ∷ []))),
      omega (arith, hs),
      (λ few. omega (arith, hs)),
      (λ old.
          rw (he, hp)
            (All-append (IsNamed p) w.extensions (e ∷ []) (named old)
              ((hu, hx ∙ ap decimal (sym same)), tt))),
      hc,
    )

grown_lem :
    (number ext_id reads : ℕ) (sec p : Bytes) (w : Work)
    → (Named w.prefix w.extensions → All (IsNamed p) w.extensions)
    → Adds (number ∷ []) w (grown number ext_id sec p (record w { reads = reads }))
unfolding grown
grown_lem number ext_id reads sec p w named =
    grown-Adds w (grown number ext_id sec p (record w { reads = reads })) number p _ refl refl refl
      refl refl refl named

skip-Adds :
    (n : ℕ) (w : Work)
    → suc w.skips ≤ max_reserved_skips
    → Adds (n ∷ []) w (record w { skips = suc w.skips })
skip-Adds n w few = ((λ k. omega arith), omega arith, omega arith, (λ _. few), (λ old. old), refl)

Adds-refl : (w : Work) → Adds [] w w
Adds-refl w = ((λ k. omega arith), omega arith, omega arith, (λ few. few), (λ old. old), refl)

Adds-trans : (ms ns : List ℕ) (w v u : Work) → Adds ms w v → Adds ns v u → Adds (ms ++ ns) w u
Adds-trans ms ns w v u one more = (
  (λ k. omega (arith, one.0 k, more.0 k, times-append k ms ns)),
  omega (arith, one.1, more.1, length-append ms ns),
  omega (arith, one.2, more.2),
  (λ few. more.3 (one.3 few)),
  (λ old. more.4 (one.4 old)),
  more.5 ∙ one.5,
)

module _ (read_back : ℕ → ℕ → Option Existing) where
  keep_with-Adds :
      (o : Option Bytes) (number ext_id : ℕ) (sec : Bytes) (w : Work)
      → w.prefix ≡ o
      → OnOk (Adds (number ∷ []) w) (keep_with read_back o number ext_id sec w)
  unfolding keep_with
  keep_with-Adds (some p) number ext_id sec w q =
      grown_lem number ext_id w.reads sec p w (λ old. subst (λ o. Named o w.extensions) q old)
  keep_with-Adds none number ext_id sec w q =
      OnOk-then (λ p. Unit) (Adds (number ∷ []) w) (sip_username_prefix read_back w.reads number) _
        (OnOk-any _)
        (λ p _. grown_lem number ext_id (suc w.reads) sec p w (λ old.
          let none_yet : w.extensions ≡ [] = subst (λ o. Named o w.extensions) q old in
          rw none_yet tt))

  adopt-Adds :
      (number : ℕ) (o : Option Existing) (w : Work)
      → OnOk (Adds (number ∷ []) w) (adopt read_back number o w)
  unfolding adopt keep_extension
  adopt-Adds number none w = tt
  adopt-Adds number (some x) w =
      keep_with-Adds w.prefix number x.id x.secret (record w { reads = suc w.reads }) refl

  take_item-Adds :
      (batch : List ExtensionCreate) (w : Work) (r : BatchItem)
      → OnOk (Adds (r.id ∷ []) w) (take_item read_back batch w r)
  unfolding take_item keep_extension
  take_item-Adds batch w r = elim (Option-cases (find_request r.id batch)) [
    | inl q ↦ rw (q, take_item) tt
    | inr (req, q) ↦
        let same = find_request-number r.id batch req q in
        elim (Option-cases r.err) [
          | inl e ↦
              rw (q, e, take_item, ← same)
                (keep_with-Adds w.prefix req.number r.extension_id req.secret w refl)
          | inr (msg, e) ↦
              rw (q, e, take_item, ← same)
                (elim (Bool-cases (is_reserved_extension_error msg)) [
                  | inl res ↦ rw res (elim (Bool-cases (is_own_extension msg req.number)) [
                    | inl own ↦ rw own (adopt-Adds req.number (read_back w.reads req.number) w)
                    | inr other ↦
                        rw other (elim (Bool-cases (ltb max_reserved_skips (suc w.skips))) [
                          | inl many ↦ rw many tt
                          | inr few ↦ rw few (skip-Adds req.number w (ltb→ge _ _ few))
                        ])
                  ])
                  | inr bad ↦ rw bad tt
                ])
        ]
  ]

  pub take_items-Adds :
      (batch : List ExtensionCreate) (rs : List BatchItem) (w : Work)
      → OnOk (Adds (ids rs) w) (take_items read_back batch rs w)
  unfolding take_items
  take_items-Adds batch [] w = Adds-refl w
  take_items-Adds batch (r ∷ rs) w =
      OnOk-then (Adds (r.id ∷ []) w) (Adds (ids (r ∷ rs)) w) (take_item read_back batch w r) _
        (take_item-Adds batch w r)
        (λ v one.
          OnOk-map (Adds (ids rs) v) (Adds (ids (r ∷ rs)) w) (take_items read_back batch rs v)
            (λ u more. Adds-trans (r.id ∷ []) (ids rs) w v u one more) (take_items-Adds batch rs v))
