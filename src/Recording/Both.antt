-- ===== src/Recording/Both.antt =====
-- Recording shows as on only if every instance confirms it.
use swarmdialer.Prelude.{OnSome, ◌≡◌, ◌↔◌, Bool, true, Option, none, some, List, All}
use swarmdialer.Recording.{Target, Status}

-- The answer is there, and says yes.
abbrev pub Confirms : (Status → Bool) → Option Status → Type 0
Confirms field none = ⊥
Confirms field (some st) = field st ≡ true

module _ (f : Target → Option Status) where
  -- The combined status of targets is on, or stereo, exactly when every target's answer is.
  abbrev pub IsJoint : List Target → Option Status → Type 0
  IsJoint ts = OnSome (λ st.
      ((st.enabled ≡ true) ↔ All (λ t. Confirms (λ s. s.enabled) (f t)) ts)
      × ((st.stereo_enabled ≡ true) ↔ All (λ t. Confirms (λ s. s.stereo_enabled) (f t)) ts))

  abbrev Says : (Status → Bool) → List Target → List Status → Type 0
  Says field ts sts = All (λ s. field s ≡ true) sts ↔ All (λ t. Confirms field (f t)) ts
