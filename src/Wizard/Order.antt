-- ===== src/Wizard/Order.antt =====
-- Sorting the extensions by number: nothing is lost, and different numbers end up ascending.
use swarmdialer.Prelude.{
  ℕ, suc, ◌+◌, ◌≤◌, ◌<◌, ◌≡◌, refl, ap, sym, ◌∙◌, arith, List, [], ◌∷◌, length, count_if, All, ind,
  leb, ◌==◌, Bool-cases, inl, inr,
}
use swarmdialer.Wizard.Extensions.{ext_number, insert_extension, sort_extensions}
use swarmdialer.Wizard.Items.{times, times-cons, numbers}
use swarmdialer.Wizard.{Extension}

-- Each number is below all that follow.
abbrev pub IsAscending : List Extension → Type 0
IsAscending [] = Unit
IsAscending (x ∷ xs) = All (λ y. ext_number x < ext_number y) xs × IsAscending xs

times-insert :
    (k : ℕ) (e : Extension) (es : List Extension)
    → times k (numbers (insert_extension e es)) ≡ times k (numbers (e ∷ es))
unfolding insert_extension times count_if
times-insert k e [] = refl
times-insert k e (x ∷ xs) = ground (arith, times-insert k e xs)

pub times-sort :
    (k : ℕ) (es : List Extension) → times k (numbers (sort_extensions es)) ≡ times k (numbers es)
unfolding sort_extensions
times-sort k [] = refl
times-sort k (x ∷ xs) =
    times-insert k x (sort_extensions xs)
    ∙ times-cons k (ext_number x) (numbers (sort_extensions xs))
    ∙ ap (λ n. ind (ext_number x == k) + n) (times-sort k xs)
    ∙ sym (times-cons k (ext_number x) (numbers xs))

length-insert :
    (e : Extension) (es : List Extension) → length (insert_extension e es) ≡ suc (length es)
unfolding insert_extension
length-insert e [] = refl
length-insert e (x ∷ xs) = ground (arith, length-insert e xs)

pub length-sort_extensions : (es : List Extension) → length (sort_extensions es) ≡ length es
unfolding sort_extensions
length-sort_extensions [] = refl
length-sort_extensions (x ∷ xs) =
    length-insert x (sort_extensions xs) ∙ ap suc (length-sort_extensions xs)

All-insert :
    (P : Extension → Type 0) (e : Extension) (es : List Extension)
    → P e
    → All P es
    → All P (insert_extension e es)
unfolding insert_extension
All-insert P e [] h hs = (h, tt)
All-insert P e (x ∷ xs) h hs = elim (Bool-cases (leb (ext_number e) (ext_number x))) [
  | inl q ↦ rw (q, insert_extension) (h, hs)
  | inr q ↦ rw (q, insert_extension) (hs.0, All-insert P e xs h hs.1)
]

pub All-sort :
    (P : Extension → Type 0) (es : List Extension) → All P es → All P (sort_extensions es)
unfolding sort_extensions
All-sort P [] h = tt
All-sort P (x ∷ xs) h = All-insert P x (sort_extensions xs) h.0 (All-sort P xs h.1)

All-below :
    (a b : ℕ) (es : List Extension)
    → a < b
    → All (λ y. b < ext_number y) es
    → All (λ y. a < ext_number y) es
All-below a b [] h hs = tt
All-below a b (x ∷ xs) h hs = (omega (arith, hs.0), All-below a b xs h hs.1)

insert-IsAscending :
    (e : Extension) (es : List Extension)
    → times (ext_number e) (numbers es) ≡ 0
    → IsAscending es
    → IsAscending (insert_extension e es)
unfolding insert_extension times count_if
insert-IsAscending e [] h up = (tt, tt)
insert-IsAscending e (x ∷ xs) h up = elim (Bool-cases (leb (ext_number e) (ext_number x))) [
  | inl q ↦
      let apart : ext_number e < ext_number x = ground arith in
      rw (q, insert_extension) ((apart, All-below (ext_number e) (ext_number x) xs apart up.0), up)
  | inr q ↦
      let apart : ext_number x < ext_number e = ground arith in
      rw (q, insert_extension)
        (
          All-insert (λ y. ext_number x < ext_number y) e xs apart up.0,
          insert-IsAscending e xs (ground arith) up.1,
        )
]

pub sort-IsAscending :
    (es : List Extension) → ((k : ℕ) → times k (numbers es) ≤ 1) → IsAscending (sort_extensions es)
unfolding sort_extensions
sort-IsAscending [] h = tt
sort-IsAscending (x ∷ xs) h =
    let k = ext_number x in
    insert-IsAscending x (sort_extensions xs)
      (times-sort k xs ∙ ground (arith, h k, times-cons k k (numbers xs)))
      (sort-IsAscending xs (λ j. omega (arith, h j, times-cons j k (numbers xs))))
