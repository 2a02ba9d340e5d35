-- ===== src/Period/Reconcile.antt =====
-- The roll-up of app/engine/profit.ts reconciles with the orders and with the ad spend.
use my_meridian.Base.{◌≡◌, refl, ap, Option, List, [], ◌∷◌, map, or_else, String}
use my_meridian.Base.Int.{ℤ, pos, ◌+ℤ◌, ◌-ℤ◌, sum, int_laws, parts_of_eq}
use my_meridian.Base.Keys.{Dict, lookup, string_eq}
use my_meridian.Money.Rounding.{sum_cents-eq-sum}
use my_meridian.Orders.{EngineOrder, AdSpendRow, CostRuleSet}
use my_meridian.Calendar.{ZoneDay}
use my_meridian.AdSpend.{attribute_ad_spend}
use my_meridian.AdSpend.Conservation.{
  charged, HasUniqueIds, total_spend, attribute_ad_spend-conserves,
}
use my_meridian.Overhead.{Range, allocate_overhead}
use my_meridian.Profit.{OrderProfit, compute_order_profit}
use my_meridian.Profit.Accounts.{compute_order_profit-balances}
use my_meridian.Period.{PeriodProfit, compute_orders, roll_up, compute_profit_for_period}

abbrev total_of : (OrderProfit → ℤ) → List OrderProfit → ℤ
total_of f os = sum (map f os)

module _ (ads overhead : Dict String ℤ) (rules : CostRuleSet) where
  pick-ad_cost :
      (os : List EngineOrder)
      → total_of (λ o. o.ad_cost_cents) (compute_orders ads overhead rules os) ≡ charged ads os
  unfolding compute_orders compute_order_profit
  pick-ad_cost [] = refl
  pick-ad_cost (o ∷ os) = ap (◌+ℤ◌ (or_else (lookup o.id ads) (pos 0))) (pick-ad_cost os)

  -- Over the orders, contribution less overhead is net revenue less the total cost.
  orders_balance :
      (os : List EngineOrder)
      → let ps = compute_orders ads overhead rules os in
        (total_of (λ o. o.contribution_profit_cents) ps -ℤ total_of (λ o. o.overhead_cents) ps
          ≡ total_of (λ o. o.net_profit_cents) ps)
        × (total_of (λ o. o.net_profit_cents) ps
            ≡ total_of (λ o. o.net_revenue_cents) ps -ℤ total_of (λ o. o.total_cost_cents) ps)
  unfolding compute_orders
  orders_balance [] = (omega int_laws, omega int_laws)
  orders_balance (o ∷ os) =
      let (net, contribution, _) =
        compute_order_profit-balances o rules (or_else (lookup o.id ads) (pos 0))
          (or_else (lookup o.id overhead) (pos 0)) in
      let (ih, ih') = orders_balance os in
      (
        omega (int_laws, parts_of_eq contribution, parts_of_eq ih),
        omega (int_laws, parts_of_eq net, parts_of_eq ih'),
      )

module _ (orders : List EngineOrder) (spend : List AdSpendRow) (rules : CostRuleSet)
    (zone : ZoneDay) (range : Option Range) where
  abbrev result : PeriodProfit
  result = compute_profit_for_period orders spend rules zone range

  -- The period's net profit is the sum of the orders' net profits less the spend that no order
  -- carries, and so its net revenue less the orders' total costs and that spend.
  pub compute_profit_for_period-reconciles :
      (result.net_profit_cents
        ≡ sum (map (λ o. o.net_profit_cents) result.orders) -ℤ result.unattributed_ad_cost_cents)
      × (result.net_profit_cents
          ≡ result.net_revenue_cents
            -ℤ sum (map (λ o. o.total_cost_cents) result.orders)
            -ℤ result.unattributed_ad_cost_cents)
  unfolding compute_profit_for_period roll_up
  compute_profit_for_period-reconciles =
      let a = attribute_ad_spend zone orders spend in
      let overhead = allocate_overhead zone orders rules.monthly_overhead_cents range in
      let ps = compute_orders a.by_order_id overhead rules orders in
      let (contribution, net) = orders_balance a.by_order_id overhead rules orders in
      let summed = λ (f : OrderProfit → ℤ). parts_of_eq (sum_cents-eq-sum (map f ps)) in
      (
        omega (
          int_laws,
          parts_of_eq contribution,
          summed (λ o. o.contribution_profit_cents),
          summed (λ o. o.overhead_cents),
        ),
        omega (
          int_laws,
          parts_of_eq contribution,
          parts_of_eq net,
          summed (λ o. o.contribution_profit_cents),
          summed (λ o. o.overhead_cents),
          summed (λ o. o.net_revenue_cents),
        ),
      )

  -- With ids of their own, the orders' ad costs and the unattributed spend are all of the spend.
  pub compute_profit_for_period-ad_cost :
      HasUniqueIds orders → result.total_ad_cost_cents ≡ total_spend spend
  unfolding compute_profit_for_period roll_up
  compute_profit_for_period-ad_cost unique =
      let a = attribute_ad_spend zone orders spend in
      let overhead = allocate_overhead zone orders rules.monthly_overhead_cents range in
      rw (sum_cents-eq-sum, pick-ad_cost a.by_order_id overhead rules orders)
        (attribute_ad_spend-conserves zone orders spend unique)
