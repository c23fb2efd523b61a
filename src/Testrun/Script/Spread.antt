-- ===== src/Testrun/Script/Spread.antt =====
-- The calls that a test's MOS is looked up for: as many as there are, up to 200, and each once.
use swarmdialer.Prelude.{
  ℕ, zero, suc, ◌+◌, ◌≤◌, ◌<◌, ◌≡◌, refl, ◌∙◌, ap, List, [], ◌∷◌, map, arith, ltb, if◌then◌else◌,
  length, length-map, Bool-cases, inl, inr, ltb→lt,
}
use swarmdialer.Testrun.Script.{mos_sample_size, range_from, spread_index, mos_sample}

-- From `low` on, each index above the one before, and all below `n`.
abbrev pub IncreasesBelow : ℕ → ℕ → List ℕ → Type 0
IncreasesBelow n low [] = Unit
IncreasesBelow n low (i ∷ is) = (low ≤ i) × (i < n) × IncreasesBelow n (suc i) is

length-range_from : (i n : ℕ) → length (range_from i n) ≡ n
unfolding range_from
length-range_from i zero = refl
length-range_from i (suc n) = ap suc (length-range_from (suc i) n)

range_from-increases : (n i k : ℕ) → i + k ≤ n → IncreasesBelow n i (range_from i k)
unfolding range_from
range_from-increases n i zero h = tt
range_from-increases n i (suc k) h =
    (omega arith, omega arith, range_from-increases n (suc i) k (omega arith))

-- A step over one moves the index.
spread_index-lt : (n i : ℕ) → mos_sample_size ≤ n → suc (spread_index n i) ≤ spread_index n (suc i)
spread_index-lt n i h = grind arith

spread_index-below : (n i : ℕ) → i < mos_sample_size → 0 < n → spread_index n i < n
spread_index-below n i h k = grind arith

spread-increases :
    (n i k low : ℕ)
    → i + k ≤ mos_sample_size
    → mos_sample_size < n
    → low ≤ spread_index n i
    → IncreasesBelow n low (map (spread_index n) (range_from i k))
unfolding range_from
spread-increases n i zero low h b l = tt
spread-increases n i (suc k) low h b l = (
  l,
  spread_index-below n i (omega arith) (omega arith),
  spread-increases n (suc i) k (suc (spread_index n i)) (omega arith) b
      (spread_index-lt n i (omega arith)),
)

-- The looked-up calls are calls of the test, in their order and none of them twice; and they are all
-- of the answered ones if there are at most 200, and 200 of them otherwise.
pub mos_sample-increases :
    (n : ℕ)
    → IncreasesBelow n 0 (mos_sample n)
      × (length (mos_sample n) ≡ (if ltb mos_sample_size n then mos_sample_size else n))
unfolding mos_sample
mos_sample-increases n = elim (Bool-cases (ltb mos_sample_size n)) [
  | inl e ↦
      rw (e, mos_sample)
        (
          spread-increases n 0 mos_sample_size 0 (omega arith) (ltb→lt mos_sample_size n e)
              (omega arith),
          length-map (spread_index n) (range_from 0 mos_sample_size)
              ∙ length-range_from 0 mos_sample_size,
        )
  | inr e ↦ rw (e, mos_sample) (range_from-increases n 0 n (omega arith), length-range_from 0 n)
]
