-- ===== src/Money.antt =====
-- app/engine/money.ts: integer money. Cents and micros are integers, a rate is an exact fraction.
pub mod Rounding
pub mod Allocate
pub mod Decimal
use my_meridian.Base.{
  ℕ, zero, suc, ◌+◌, ◌*◌, ◌/◌, Bool, true, false, ◌||◌, Option, none, some, List, [], ◌∷◌, ◌==◌,
  if◌then◌else◌, map, length, replicate, ◌%◌,
}
use my_meridian.Base.Int.{
  ℤ, pos, negsuc, ◌+ℤ◌, ◌-ℤ◌, ◌*ℤ◌, ◌==ℤ◌, leb_ℤ, ltb_ℤ, neg_part, pos_part, abs, sum,
}
use my_meridian.Base.Give.{bump}
use my_meridian.Base.Sort.{sort}
use mathlib.Core.List.{foldl}

-- A finite number `num / den`; with `den` zero, a number that is not finite.
pub record Rate : Type 0 where
  pub num : ℤ
  pub den : ℕ

-- `Math.floor(a / d)`, for d > 0.
unfoldable pub floor_div : ℤ → ℕ → ℤ
floor_div (pos n) d = pos (n / d)
floor_div (negsuc n) d = negsuc (n / d)

-- `Math.trunc(a / d)`, for d > 0.
unfoldable pub trunc_div : ℤ → ℕ → ℤ
trunc_div (pos n) d = pos (n / d)
trunc_div (negsuc n) d = pos 0 -ℤ pos (suc n / d)

-- `Math.round(a / d)`, for d > 0: a half goes up.
unfoldable pub math_round : ℤ → ℕ → ℤ
unfolding floor_div
math_round a d = floor_div (pos 2 *ℤ a +ℤ pos d) (2 * d)

unfoldable pub round_half_away_from_zero : ℤ → ℕ → ℤ
unfolding math_round
round_half_away_from_zero a d =
    if ltb_ℤ a (pos 0) then pos 0 -ℤ math_round (pos 0 -ℤ a) d else math_round a d

-- `costOfUnits`
unfoldable pub cost_of_units : ℤ → ℤ → ℤ
unfolding round_half_away_from_zero
cost_of_units unit_cost_micros quantity =
    round_half_away_from_zero (unit_cost_micros *ℤ quantity) 100

-- `applyRate`
unfoldable pub apply_rate : ℤ → Rate → ℤ
unfolding round_half_away_from_zero
apply_rate cents rate =
    if rate.den == 0 || rate.num ==ℤ pos 0
    then pos 0
    else round_half_away_from_zero (cents *ℤ rate.num) rate.den

abbrev add_cents : ℤ → ℤ → ℤ
add_cents total v = total +ℤ v

-- `sumCents`, and `reduce((a, b) => a + b, 0)`
unfoldable pub sum_cents : List ℤ → ℤ
sum_cents = foldl add_cents (pos 0)

-- `ratio`, of integers: `null` for an empty denominator.
unfoldable pub ratio : ℤ → ℤ → Option Rate
ratio numerator (pos zero) = none
ratio numerator (pos (suc d)) = some (record { num = numerator; den = suc d })
ratio numerator (negsuc d) = some (record { num = pos 0 -ℤ numerator; den = suc d })

-- The loop `for (let i = 0; remainder !== 0; i = (i + 1) % n)`.
unfoldable pub spread_even : ℕ → ℕ → ℕ → ℤ → ℤ → List ℤ → List ℤ
spread_even zero n i remainder step out = out
spread_even (suc fuel) n i remainder step out =
    let rest = spread_even fuel n ((i + 1) % n) (remainder -ℤ step) step (bump i step out) in
    if remainder ==ℤ pos 0 then out else rest

-- A place and the truncated part of its share, over the common denominator.
pub record Fraction : Type 0 where
  pub index : ℕ
  pub frac : ℕ

abbrev pub first_fraction : List Fraction → ℕ → ℕ
first_fraction [] i = 0
first_fraction (f ∷ fs) zero = f.index
first_fraction (f ∷ fs) (suc i) = first_fraction fs i

-- The loop `for (let i = 0; remainder !== 0 && order.length > 0; i++)`.
unfoldable pub spread_order : ℕ → List Fraction → ℕ → ℤ → ℤ → List ℤ → List ℤ
spread_order zero order i remainder step out = out
spread_order (suc fuel) order i remainder step out =
    let target = first_fraction order (i % length order) in
    let rest = spread_order fuel order (i + 1) (remainder -ℤ step) step (bump target step out) in
    if remainder ==ℤ pos 0 || length order == 0 then out else rest

-- `(a, b) => b.frac - a.frac`, at most zero
abbrev pub by_frac : Fraction → Fraction → Bool
by_frac a b = leb_ℤ (pos b.frac) (pos a.frac)

-- `exact.map((value, index) => ({ index, frac }))`, from an index on.
unfoldable pub fractions : ℕ → ℤ → ℕ → List ℤ → List Fraction
fractions i total weight_total [] = []
fractions i total weight_total (w ∷ ws) =
    record { index = i; frac = abs (total *ℤ w) % weight_total }
    ∷ fractions (i + 1) total weight_total ws

abbrev pub step_of : ℤ → ℤ
step_of remainder = if leb_ℤ (pos 0) remainder then pos 1 else negsuc 0

-- The branch with no meaningful weights.
unfoldable pub allocate_even : ℤ → ℕ → List ℤ
unfolding trunc_div spread_even
allocate_even total n =
    let base = trunc_div total n in
    let remainder = total -ℤ base *ℤ pos n in
    spread_even (abs remainder) n 0 remainder (step_of remainder) (replicate n base)

unfoldable pub truncated_shares : ℤ → ℕ → List ℤ → List ℤ
unfolding trunc_div
truncated_shares total weight_total = map (λ w. trunc_div (total *ℤ w) weight_total)

-- The largest-remainder branch.
unfoldable pub allocate_weighted : ℤ → ℕ → List ℤ → List ℤ
unfolding truncated_shares fractions sum_cents spread_order
allocate_weighted total weight_total weights =
    let floored = truncated_shares total weight_total weights in
    let remainder = total -ℤ sum_cents floored in
    let order = sort by_frac (fractions 0 total weight_total weights) in
    spread_order (abs remainder) order 0 remainder (step_of remainder) floored

-- `allocate`
unfoldable pub allocate : ℤ → List ℤ → List ℤ
unfolding allocate_even allocate_weighted
allocate total [] = []
allocate total (w ∷ ws) =
    let weight_total = sum_cents (w ∷ ws) in
    if leb_ℤ weight_total (pos 0)
    then allocate_even total (length (w ∷ ws))
    else allocate_weighted total (pos_part weight_total) (w ∷ ws)
