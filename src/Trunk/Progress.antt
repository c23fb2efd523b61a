-- ===== src/Trunk/Progress.antt =====
-- The progress of a registration never goes back.
use swarmdialer.Prelude.{ℕ, ◌+◌, max, ◌≡◌, refl, sym, arith, some, List, [], ◌∷◌}
use swarmdialer.Trunk.{RegistrationSide, update_side}

-- Calls of `update` with these numbers, in the order in which they take the lock.
unfoldable pub update_all : List RegistrationSide → RegistrationSide → RegistrationSide
update_all [] sd = sd
update_all (u ∷ us) sd = update_all us (update_side u.registered u.failed u.total (some sd))

abbrev pub reported : RegistrationSide → ℕ
reported sd = sd.registered + sd.failed

unfoldable pub most : List RegistrationSide → ℕ → ℕ
most [] n = n
most (u ∷ us) n = most us (max n (reported u))

update_side-reported :
    (u sd : RegistrationSide)
    → reported (update_side u.registered u.failed u.total (some sd))
      ≡ max (reported sd) (reported u)
unfolding update_side
update_side-reported u sd = ground arith

-- However the callbacks race, what is shown is the furthest progress that any of them reported.
pub update_all_lem :
    (us : List RegistrationSide) (sd : RegistrationSide)
    → reported (update_all us sd) ≡ most us (reported sd)
unfolding update_all most
update_all_lem [] sd = refl
update_all_lem (u ∷ us) sd =
    rw (sym (update_side-reported u sd))
      (update_all_lem us (update_side u.registered u.failed u.total (some sd)))
