-- ===== src/Wizard/Reset/Workers.antt =====
-- internal/wizard/reset.go: the workers of `deleteExtensions`, which receive extensions from a channel and
-- share a count and the warnings under a lock. Every interleaving of them is a run.
use swarmdialer.Prelude.{
  count_if-all, ℕ, suc, ◌+◌, ◌≤◌, ◌<◌, ◌≡◌, refl, ap, sym, ◌∙◌, arith, ind, Bool, true, false, List,
  [], ◌∷◌, ◌++◌, length, length-append, count_if, count_if-append, count_if-cons, count_if-nil, ◌*◌,
  not, ◌⊎◌, inl, inr,
}
use mathlib.Core.List.{append_assoc, append-nil}
use swarmdialer.Wizard.Reset.{Warning, extension_kept, warn}

List-cases {ℓ} : {A : Type ℓ} (xs : List A) → (xs ≡ []) ⊎ ((y : A) × (ys : List A) × (xs ≡ y ∷ ys))
List-cases [] = inl refl
List-cases (x ∷ xs) = inr (x, xs, refl)

abbrev pub reset_delete_workers : ℕ
reset_delete_workers = 2

-- The extensions still to be sent, those that the workers hold, and what they share. `seen` is the
-- order in which extensions were taken off.
pub record Deleting : Type 0 where
  pub to_send : List ℕ
  pub held : List ℕ
  pub finished : ℕ
  pub warnings : List Warning
  pub seen : List ℕ

unfoldable pub begin : List ℕ → Deleting
begin exts = record { to_send = exts; held = []; finished = 0; warnings = []; seen = [] }

-- `deleted` says whether `deleteExtensionWithRetry` got an extension deleted.
module _ (deleted : ℕ → Bool) where
  pub data DeleteStep : Deleting → Deleting → Type 0 where
    -- A worker that holds nothing receives the next extension.
    receive :
        (d : Deleting) (ext : ℕ) (exts : List ℕ)
        → d.to_send ≡ ext ∷ exts
        → length d.held < reset_delete_workers
        → DeleteStep d (record d { to_send = exts; held = ext ∷ d.held })
    -- A worker is through with its extension, under the lock.
    complete :
        (d : Deleting) (before : List ℕ) (ext : ℕ) (after : List ℕ)
        → d.held ≡ before ++ (ext ∷ after)
        → DeleteStep d (record d {
          held = before ++ after;
          finished = suc d.finished;
          warnings = d.warnings ++ warn (deleted ext) (extension_kept ext);
          seen = d.seen ++ ext ∷ [];
        })

  pub data DeleteRun (d : Deleting) : Deleting → Type 0 where
    here : DeleteRun d d
    next : {e f : Deleting} → DeleteRun d e → DeleteStep e f → DeleteRun d f

  -- One warning for each extension that could not be deleted, which names it, in the extensions' order.
  abbrev pub failures : List ℕ → List Warning
  failures [] = []
  failures (e ∷ es) = warn (deleted e) (extension_kept e) ++ failures es

module _ (deleted : ℕ → Bool) (exts : List ℕ) where
  -- The extensions are the ones to send, those held and those seen, and the failed ones have their
  -- warnings.
  abbrev Accounts : Deleting → Type 0
  Accounts d =
      ((p : ℕ → Bool)
        → count_if p d.to_send + count_if p d.held + count_if p d.seen ≡ count_if p exts)
      × (d.finished ≡ length d.seen)
      × (d.warnings ≡ failures deleted d.seen)
      × (length d.held ≤ reset_delete_workers)

  length-warn : (b : Bool) (x : Warning) → length (warn b x) ≡ ind (not b)
  length-warn true x = refl
  length-warn false x = refl

  failures-append :
      (es : List ℕ) (e : ℕ)
      → failures deleted es ++ warn (deleted e) (extension_kept e) ≡ failures deleted (es ++ e ∷ [])
  failures-append [] e = sym (append-nil (warn (deleted e) (extension_kept e)))
  failures-append (x ∷ es) e =
      append_assoc (warn (deleted x) (extension_kept x)) (failures deleted es)
        (warn (deleted e) (extension_kept e))
      ∙ ap (λ ws. warn (deleted x) (extension_kept x) ++ ws) (failures-append es e)

  length-failures :
      (es : List ℕ) → length (failures deleted es) ≡ count_if (λ e. not (deleted e)) es
  unfolding count_if
  length-failures [] = refl
  length-failures (e ∷ es) = omega (
    arith,
    length-append (warn (deleted e) (extension_kept e)) (failures deleted es),
    length-warn (deleted e) (extension_kept e),
    length-failures es,
    count_if-cons (λ e. not (deleted e)) e es,
  )

  count_if-single : (p : ℕ → Bool) (x : ℕ) → count_if p (x ∷ []) ≡ ind (p x)
  unfolding count_if
  count_if-single p x = omega arith

  DeleteStep-Accounts : {d e : Deleting} → DeleteStep deleted d e → Accounts d → Accounts e
  DeleteStep-Accounts (receive d ext rest send room) (all, done, warned, few) = (
    (λ p.
        let old = all p in
        let sent = ap (count_if p) send in
        omega (arith, old, sent, count_if-cons p ext rest, count_if-cons p ext d.held)),
    done,
    warned,
    omega (arith, room),
  )
  DeleteStep-Accounts (complete d before ext after held) (all, done, warned, few) = (
    (λ p.
        let old = all p in
        let had = ap (count_if p) held in
        omega (
          arith,
          old,
          had,
          count_if-append p before (ext ∷ after),
          count_if-cons p ext after,
          count_if-append p before after,
          count_if-append p d.seen (ext ∷ []),
          count_if-single p ext,
        )),
    omega (arith, done, length-append d.seen (ext ∷ [])),
    ap (λ ws. ws ++ warn (deleted ext) (extension_kept ext)) warned ∙ failures-append d.seen (ext),
    (let had = ap length held in
        omega (arith, few, had, length-append before (ext ∷ after), length-append before after)),
  )

  DeleteRun-Accounts : {d : Deleting} → DeleteRun deleted (begin exts) d → Accounts d
  unfolding begin count_if
  DeleteRun-Accounts here = ((λ p. omega arith), refl, refl, omega arith)
  DeleteRun-Accounts (next run step) = DeleteStep-Accounts step (DeleteRun-Accounts run)

  abbrev pub IsOver : Deleting → Type 0
  IsOver d = (d.to_send ≡ []) × (d.held ≡ [])

  -- Each extension is taken twice: by a worker, and off the list.
  unfoldable pub steps : {d e : Deleting} → DeleteRun deleted d e → ℕ
  steps here = 0
  steps (next run step) = suc (steps run)

  step_counts :
      {d e : Deleting}
      → DeleteStep deleted d e
      → 2 * length d.to_send + length d.held ≡ suc (2 * length e.to_send + length e.held)
  step_counts (receive d ext rest send room) = let sent = ap length send in omega (arith, sent)
  step_counts (complete d before ext after held) =
      let had = ap length held in
      omega (arith, had, length-append before (ext ∷ after), length-append before after)

  run_counts :
      {d : Deleting} (run : DeleteRun deleted (begin exts) d)
      → steps run + (2 * length d.to_send + length d.held) ≡ 2 * length exts
  unfolding steps begin
  run_counts here = omega arith
  run_counts (next run step) = omega (arith, run_counts run, step_counts step)

  -- While anything is left, some worker can go on.
  goes_on : (d : Deleting) → IsOver d ⊎ ((e : Deleting) × DeleteStep deleted d e)
  goes_on d = elim (List-cases d.held) [
    | inr (x, xs, h) ↦ inr (_, complete d [] x xs h)
    | inl none_held ↦ elim (List-cases d.to_send) [
      | inl none_left ↦ inl (none_left, none_held)
      | inr (x, xs, h) ↦ inr (_, receive d x xs h (rw none_held (omega arith)))
    ]
  ]

  -- However the two workers interleave, a run makes at most two steps for each extension, is never
  -- stuck before all of them are through, and then every extension has been seen as often as it was
  -- listed, all are counted, and the warnings are those of the seen extensions that could not be deleted,
  -- each with its own number and in the order seen, as many as such extensions were listed.
  pub delete_extensions_lem :
      {d : Deleting} (run : DeleteRun deleted (begin exts) d)
      → (steps run ≤ 2 * length exts)
        × (IsOver d ⊎ ((e : Deleting) × DeleteStep deleted d e))
        × (IsOver d
            → ((p : ℕ → Bool) → count_if p d.seen ≡ count_if p exts)
              × (d.finished ≡ length exts)
              × (d.warnings ≡ failures deleted d.seen)
              × (length d.warnings ≡ count_if (λ e. not (deleted e)) exts))
  delete_extensions_lem {d} run =
      let (all, done, warned, few) = DeleteRun-Accounts run in
      let count = run_counts run in
      (
        omega (arith, count),
        goes_on d,
        (λ (none_left, none_held).
            let same : (p : ℕ → Bool) → count_if p d.seen ≡ count_if p exts = λ p.
              let old = all p in
              let left = ap (count_if p) none_left in
              let own = ap (count_if p) none_held in
              omega (arith, old, left, own, count_if-nil p) in
            (
              same,
              done ∙ sym (count_if-all d.seen) ∙ same (λ e. true) ∙ count_if-all exts,
              warned,
              ap length warned ∙ length-failures d.seen ∙ same (λ e. not (deleted e)),
            )),
      )
