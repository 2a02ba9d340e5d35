-- ===== src/AdPlan/Backoff.antt =====
-- `retryBackoffMs` (app/lib/ad-ingestion-plan.ts) waits between half of its ceiling and all of it.
use my_meridian.Base.{ℕ, ◌+◌, ◌-◌, ◌*◌, ◌/◌, ◌≤◌, ◌<◌, ◌^◌, min, ◌≡◌, arith}
use my_meridian.Base.Int.{pos, ◌≤ℤ◌, ◌+ℤ◌, ◌*ℤ◌, *ℤ_parts, int_laws}
use my_meridian.Money.{math_round, floor_div}
use native.Mathlib.Nat.{mul-le-mul_right, div-lt_iff_lt-mul, le-div_iff_mul-le}
use my_meridian.AdPlan.{backoff_ceiling, retry_backoff_ms}

round_between :
    (h a d : ℕ)
    → 0 < d
    → h * d ≤ a
    → a ≤ 2 * (h * d)
    → (h ≤ (2 * a + d) / (2 * d)) × ((2 * a + d) / (2 * d) ≤ 2 * h)
round_between h a d pos_d low high =
    let scaled : 0 < 2 * d = omega arith in
    let over : (2 * a + d) / (2 * d) < 2 * h + 1 = (div-lt_iff_lt-mul scaled).1 (grind arith) in
    let under : h ≤ (2 * a + d) / (2 * d) = (le-div_iff_mul-le scaled).1 (grind arith) in
    (under, omega (arith, over))

-- The sum that is rounded.
blended : (h d n : ℕ) → pos (h * d) +ℤ pos n *ℤ pos h ≡ pos (h * d + n * h)
blended h d n = omega (int_laws, *ℤ_parts (pos n) (pos h))

doubled : (x : ℕ) → pos 2 *ℤ pos x ≡ pos (2 * x)
doubled x = omega (int_laws, *ℤ_parts (pos 2) (pos x))

summed : (x y : ℕ) → pos x +ℤ pos y ≡ pos (x + y)
summed x y = omega int_laws

waits :
    (h num den : ℕ)
    → 0 < den
    → num ≤ den
    → let wait = math_round (pos (h * den) +ℤ pos num *ℤ pos h) den in
      (pos h ≤ℤ wait) × (wait ≤ℤ pos (2 * h))
unfolding math_round floor_div
waits h num den some_ small =
    let a = h * den + num * h in
    let (low, high) =
      round_between h a den some_ (omega arith) (grind (arith, mul-le-mul_right h small)) in
    rw (blended h den num)
      (rw (doubled a) (rw (summed (2 * a) den) (omega (arith, low), omega (arith, high))))

-- With a random number from nought to one, the wait after the n-th attempt is at least half of a
-- ceiling (rounded down) and at most all of it; the ceiling is thirty seconds times two to the n - 1,
-- or thirty minutes if that is less.
pub retry_backoff_ms-bounds :
    (attempts num den : ℕ)
    → 0 < den
    → num ≤ den
    → let ceiling = min 1_800_000 (30_000 * 2 ^ (attempts - 1)) in
      let wait = retry_backoff_ms attempts (record { num = pos num; den = den }) in
      (pos (ceiling / 2) ≤ℤ wait) × (wait ≤ℤ pos ceiling)
unfolding retry_backoff_ms backoff_ceiling
retry_backoff_ms-bounds attempts num den some_ small =
    let half = backoff_ceiling attempts / 2 in
    let (low, high) = waits half num den some_ small in (low, omega (arith, high))
