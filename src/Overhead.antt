-- ===== src/Overhead.antt =====
-- The overhead allocation of app/engine/profit.ts.
pub mod Bounds
use my_meridian.Base.{
  ℕ, zero, suc, ◌+◌, ◌-◌, ◌*◌, ◌/◌, min, Bool, true, false, Option, none, some, List, [], ◌∷◌, map,
  leb, if◌then◌else◌, or_else, String,
}
use my_meridian.Base.Int.{ℤ, pos, leb_ℤ, ◌*ℤ◌}
use my_meridian.Base.Keys.{Eq, Dict, lookup, insert, string_eq, ◌=?◌}
use my_meridian.Money.{allocate, math_round}
use my_meridian.Orders.{EngineOrder}
use my_meridian.Calendar.{
  Month, Day, month_eq, day_eq, ZoneDay, day_key, month_key, days_in_calendar_month, day_ms,
}
use my_meridian.CostHistory.{Instant}
use my_meridian.AdSpend.{push}

pub record Range : Type 0 where
  pub from : Instant
  pub to : Instant

-- `Set.has`
abbrev pub has : Day → List Day → Bool
has d [] = false
has d (e ∷ es) = if d =? e then true else has d es

module _ (zone : ZoneDay) where
  -- The orders of each month, in the order of the months' first orders.
  unfoldable pub by_month :
      List EngineOrder → Dict Month (List EngineOrder) → Dict Month (List EngineOrder)
  unfolding month_key
  by_month [] d = d
  by_month (order ∷ orders) d = by_month orders (push (month_key zone order.processed_at) order d)

  -- A day that was not seen before counts for its month.
  unfoldable pub cover : Day → List Day × Dict Month ℕ → List Day × Dict Month ℕ
  cover day (seen, covered) =
      if has day seen
      then (seen, covered)
      else (day ∷ seen, insert day.in_month (or_else (lookup day.in_month covered) 0 + 1) covered)

  -- The loop over `t`, a day at a time up to `range.to`, on the rounds that it has.
  unfoldable pub covered_from : ℕ → Instant → Instant → List Day × Dict Month ℕ → Dict Month ℕ
  unfolding cover day_key
  covered_from zero t to state = state.1
  covered_from (suc fuel) t to state =
      let rest = covered_from fuel (t + day_ms) to (cover (day_key zone t) state) in
      if leb t to then rest else state.1

  unfoldable pub covered_days : Range → Dict Month ℕ
  unfolding covered_from
  covered_days range =
      covered_from (suc ((range.to - range.from) / day_ms)) range.from range.to ([], [])

-- What a month is charged: all of it, or pro rata of the days that the range covers.
unfoldable pub month_amount : ℤ → Option (Dict Month ℕ) → Month → ℤ
unfolding days_in_calendar_month math_round
month_amount monthly none month = monthly
month_amount monthly (some covered) month =
    let total = days_in_calendar_month month in
    math_round (monthly *ℤ pos (min (or_else (lookup month covered) 0) total)) total

-- `monthOrders.forEach((order, i) => byOrderId.set(order.id, shares[i] ?? 0))`
unfoldable pub assign : List EngineOrder → List ℤ → Dict String ℤ → Dict String ℤ
assign [] shares d = d
assign (order ∷ orders) [] d = assign orders [] (insert order.id (pos 0) d)
assign (order ∷ orders) (s ∷ shares) d = assign orders shares (insert order.id s d)

unfoldable pub charge_months :
    ℤ → Option (Dict Month ℕ) → Dict Month (List EngineOrder) → Dict String ℤ → Dict String ℤ
unfolding allocate month_amount assign
charge_months monthly covered [] d = d
charge_months monthly covered ((month, orders) ∷ months) d =
    let shares = allocate (month_amount monthly covered month) (map (λ _. pos 1) orders) in
    charge_months monthly covered months (assign orders shares d)

-- `allocateOverhead`
unfoldable pub allocate_overhead : ZoneDay → List EngineOrder → ℤ → Option Range → Dict String ℤ
unfolding by_month covered_days charge_months
allocate_overhead zone orders monthly range =
    let covered : Option (Dict Month ℕ) = elim range [
      | none ↦ none
      | some r ↦ some (covered_days zone r)
    ] in
    if leb_ℤ monthly (pos 0) then [] else charge_months monthly covered (by_month zone orders []) []
