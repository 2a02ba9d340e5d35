-- ===== src/Overhead/Bounds.antt =====
-- What a month is charged (app/engine/profit.ts), and the rounds of the loop that counts its days.
use my_meridian.Base.{
  ℕ, zero, suc, ◌+◌, ◌-◌, ◌*◌, ◌/◌, ◌≤◌, ◌<◌, ◌≡◌, refl, ap, inl, inr, min, none, some, List, leb,
  or_else, Bool-cases, false, arith, leb→le,
}
use my_meridian.Base.Int.{pos, ◌≤ℤ◌}
use my_meridian.Base.Keys.{Dict, lookup}
use my_meridian.Money.Rounding.{math_round-pos, scaled_pos, div_between}
use my_meridian.CostHistory.{Instant}
use my_meridian.Calendar.{Month, Day, month_eq, ZoneDay, days_in_calendar_month, day_ms, day_key}
use Prim.Native.Nat.add
use native.Mathlib.Nat.{div-eq_of_lt}
use my_meridian.Overhead.{cover, month_amount, covered_from}

abbrev covered_of : Dict Month ℕ → Month → ℕ
covered_of covered month = or_else (lookup month covered) 0

days_in_calendar_month-bounds :
    (m : Month) → (28 ≤ days_in_calendar_month m) × (days_in_calendar_month m ≤ 31)
unfolding days_in_calendar_month
days_in_calendar_month-bounds m = ground arith

min_of_le : (c d : ℕ) → d ≤ c → min c d ≡ d
min_of_le c d h = omega arith

min_zero : (d : ℕ) → min 0 d ≡ 0
min_zero d = omega arith

share-le : (n c d : ℕ) → 0 < d → c ≤ d → (2 * (n * c) + d) / (2 * d) ≤ n
share-le n c d h le = grind arith

month_amount-pos :
    (n : ℕ) (covered : Dict Month ℕ) (month : Month)
    → let d = days_in_calendar_month month in
      month_amount (pos n) (some covered) month
      ≡ pos ((2 * (n * min (covered_of covered month) d) + d) / (2 * d))
unfolding month_amount
month_amount-pos n covered month =
    let d = days_in_calendar_month month in
    let c = min (covered_of covered month) d in
    rw (scaled_pos n c)
      (math_round-pos (n * c) d (omega (arith, days_in_calendar_month-bounds month)))

full_month : (n c d : ℕ) → 0 < d → d ≤ c → (2 * (n * min c d) + d) / (2 * d) ≡ n
full_month n c d h le =
    rw (min_of_le c d le) (div_between (2 * (n * d) + d) n (2 * d) (omega arith) (omega arith))

no_day : (n c d : ℕ) → 0 < d → c ≡ 0 → (2 * (n * min c d) + d) / (2 * d) ≡ 0
no_day n c d h e = rw (e, min_zero d) (div-eq_of_lt (omega arith))

-- Of a monthly overhead that is not negative, a month is charged all without a range; with counted
-- days, never less than nothing or more than all, all of it if at least as many days are counted for
-- the month as it has, and nothing if no day is counted.
pub month_amount-bounds :
    (n : ℕ) (covered : Dict Month ℕ) (month : Month)
    → let amount = month_amount (pos n) (some covered) month in
      (month_amount (pos n) none month ≡ pos n)
      × (pos 0 ≤ℤ amount)
      × (amount ≤ℤ pos n)
      × (days_in_calendar_month month ≤ covered_of covered month → amount ≡ pos n)
      × (covered_of covered month ≡ 0 → amount ≡ pos 0)
unfolding month_amount
month_amount-bounds n covered month =
    let d = days_in_calendar_month month in
    let c = min (covered_of covered month) d in
    let (big, _) = days_in_calendar_month-bounds month in
    rw (month_amount-pos n covered month) (
      refl,
      omega arith,
      omega (arith, share-le n c d (omega arith) (omega arith)),
      λ full. ap pos (full_month n (covered_of covered month) d (omega arith) full),
      λ untouched. ap pos (no_day n (covered_of covered month) d (omega arith) untouched),
    )

after : (t to : Instant) → to < t → leb t to ≡ false
after t to h = ground arith

covered_from-stop :
    (zone : ZoneDay) (fuel : ℕ) (t to : Instant) (state : List Day × Dict Month ℕ)
    → to < t
    → covered_from zone fuel t to state ≡ state.1
unfolding covered_from
covered_from-stop zone zero t to state h = refl
covered_from-stop zone (suc fuel) t to state h = rw (after t to h)

-- The loop that counts the days of a range ends by its own test: more rounds than `covered_days`
-- gives it change nothing.
pub covered_from-enough :
    (zone : ZoneDay) (extra fuel : ℕ) (t to : Instant) (state : List Day × Dict Month ℕ)
    → (to - t) / day_ms < fuel
    → covered_from zone (fuel + extra) t to state ≡ covered_from zone fuel t to state
unfolding covered_from
covered_from-enough zone extra zero t to state h = absurd (omega arith)
covered_from-enough zone extra (suc fuel) t to state h =
    let next = cover zone (day_key zone t) state in
    rw (add.suc fuel extra) (elim (Bool-cases (leb t to)) [
      | inl go ↦ elim (Bool-cases (leb (t + day_ms) to)) [
        | inl again ↦
            let le = leb→le (t + day_ms) to again in
            rw go (covered_from-enough zone extra fuel (t + day_ms) to next (omega arith))
        | inr last ↦
            let past : to < t + day_ms = ground arith in
            rw (
              go,
              covered_from-stop zone (fuel + extra) (t + day_ms) to next past,
              covered_from-stop zone fuel (t + day_ms) to next past,
            )
      ]
      | inr stop ↦ rw stop
    ])
