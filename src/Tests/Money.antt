-- ===== src/Tests/Money.antt =====
-- app/engine/money.ts at concrete inputs.
use my_meridian.Base.{[], ◌∷◌, ◌≡◌, ◌≤◌, ◌<◌, ◌*◌, ◌+◌, refl, arith}
use my_meridian.Base.Int.{pos, negsuc, sum, ◌≤ℤ◌, ◌+ℤ◌, ◌*ℤ◌, ◌-ℤ◌, abs}
use my_meridian.Money.{allocate, round_half_away_from_zero, cost_of_units}
use my_meridian.Money.Rounding.{round_half_away_from_zero-nearest}
use my_meridian.Money.Allocate.{sum-allocate}

-- Ten cents over three equal weights, and over weights one, two and nothing.
allocate-thirds : allocate (pos 10) (pos 1 ∷ pos 1 ∷ pos 1 ∷ []) ≡ pos 4 ∷ pos 3 ∷ pos 3 ∷ []
unfolding allocate ◌+ℤ◌ ◌-ℤ◌ ◌*ℤ◌
allocate-thirds = refl

allocate-negative :
    allocate (negsuc 99) (pos 1 ∷ pos 2 ∷ pos 0 ∷ []) ≡ negsuc 32 ∷ negsuc 66 ∷ pos 0 ∷ []
unfolding allocate ◌+ℤ◌ ◌-ℤ◌ ◌*ℤ◌
allocate-negative = refl

cost_of_units-rounds : cost_of_units (pos 12_345) (pos 3) ≡ pos 370
unfolding cost_of_units ◌+ℤ◌ ◌-ℤ◌ ◌*ℤ◌
cost_of_units-rounds = refl

sum-allocate_example : sum (allocate (pos 10) (pos 1 ∷ pos 1 ∷ pos 1 ∷ [])) ≡ pos 10
sum-allocate_example = sum-allocate (pos 10) (pos 1) (pos 1 ∷ pos 1 ∷ [])

round_half_away_from_zero-nearest_example :
    let r = round_half_away_from_zero (negsuc 249) 100 in
    (2 * abs r * 100 ≤ 2 * 250 + 100)
    × (2 * 250 < 2 * abs r * 100 + 100)
    × (pos 0 ≤ℤ negsuc 249 → pos 0 ≤ℤ r)
    × (negsuc 249 ≤ℤ pos 0 → r ≤ℤ pos 0)
round_half_away_from_zero-nearest_example =
    round_half_away_from_zero-nearest (negsuc 249) 100 (omega arith)
