-- ===== src/Period.antt =====
-- `computeProfitForPeriod` of app/engine/profit.ts.
pub mod Reconcile
use my_meridian.Base.{ℕ, zero, suc, Option, none, some, List, [], ◌∷◌, map, length, or_else, String}
use my_meridian.Base.Int.{ℤ, pos, ◌+ℤ◌, ◌-ℤ◌}
use my_meridian.Base.Keys.{Dict, lookup, string_eq}
use my_meridian.Money.{Rate, sum_cents, ratio, math_round}
use my_meridian.Orders.{EngineOrder, AdSpendRow, CostRuleSet}
use my_meridian.Calendar.{ZoneDay}
use my_meridian.AdSpend.{AdAttribution, attribute_ad_spend}
use my_meridian.Overhead.{Range, allocate_overhead}
use my_meridian.Profit.{OrderProfit, compute_order_profit}

pub record PeriodProfit : Type 0 where
  pub orders : List OrderProfit
  pub order_count : ℕ
  pub units : ℤ
  pub gross_revenue_cents : ℤ
  pub discount_cents : ℤ
  pub refund_cents : ℤ
  pub return_fees_retained_cents : ℤ
  pub shipping_revenue_cents : ℤ
  pub net_revenue_cents : ℤ
  pub cogs_cents : ℤ
  pub shipping_cost_cents : ℤ
  pub payment_fee_cents : ℤ
  pub pick_pack_cents : ℤ
  pub attributed_ad_cost_cents : ℤ
  pub unattributed_ad_cost_cents : ℤ
  pub total_ad_cost_cents : ℤ
  pub return_shipping_cost_cents : ℤ
  pub overhead_cents : ℤ
  pub contribution_profit_cents : ℤ
  pub net_profit_cents : ℤ
  pub contribution_margin_pct : Option Rate
  pub net_margin_pct : Option Rate
  pub average_order_value_cents : ℤ
  pub profit_per_order_cents : ℤ

-- `pick`
abbrev pub pick : (OrderProfit → ℤ) → List OrderProfit → ℤ
pick fn computed = sum_cents (map fn computed)

-- `orderCount ? Math.round(cents / orderCount) : 0`
abbrev pub per_order : ℤ → ℕ → ℤ
per_order cents zero = pos 0
per_order cents (suc n) = math_round cents (suc n)

-- `orders.map(order => computeOrderProfit(…))`
unfoldable pub compute_orders :
    Dict String ℤ → Dict String ℤ → CostRuleSet → List EngineOrder → List OrderProfit
unfolding compute_order_profit
compute_orders ads overhead rules [] = []
compute_orders ads overhead rules (o ∷ os) =
    compute_order_profit o rules (or_else (lookup o.id ads) (pos 0))
      (or_else (lookup o.id overhead) (pos 0))
    ∷ compute_orders ads overhead rules os

unfoldable pub roll_up : AdAttribution → List OrderProfit → PeriodProfit
unfolding sum_cents ratio math_round
roll_up attribution computed =
    let net_revenue = pick (λ o. o.net_revenue_cents) computed in
    let contribution = pick (λ o. o.contribution_profit_cents) computed in
    let attributed = pick (λ o. o.ad_cost_cents) computed in
    let overhead = pick (λ o. o.overhead_cents) computed in
    let net_profit = contribution -ℤ overhead -ℤ attribution.unattributed_cents in
    let count = length computed in
    record {
      orders = computed;
      order_count = count;
      units = pick (λ o. o.units) computed;
      gross_revenue_cents = pick (λ o. o.gross_revenue_cents) computed;
      discount_cents = pick (λ o. o.discount_cents) computed;
      refund_cents = pick (λ o. o.refund_cents) computed;
      return_fees_retained_cents = pick (λ o. o.return_fees_retained_cents) computed;
      shipping_revenue_cents = pick (λ o. o.shipping_revenue_cents) computed;
      net_revenue_cents = net_revenue;
      cogs_cents = pick (λ o. o.cogs_cents) computed;
      shipping_cost_cents = pick (λ o. o.shipping_cost_cents) computed;
      payment_fee_cents = pick (λ o. o.payment_fee_cents) computed;
      pick_pack_cents = pick (λ o. o.pick_pack_cents) computed;
      attributed_ad_cost_cents = attributed;
      unattributed_ad_cost_cents = attribution.unattributed_cents;
      total_ad_cost_cents = attributed +ℤ attribution.unattributed_cents;
      return_shipping_cost_cents = pick (λ o. o.return_shipping_cost_cents) computed;
      overhead_cents = overhead;
      contribution_profit_cents = contribution;
      net_profit_cents = net_profit;
      contribution_margin_pct = ratio contribution net_revenue;
      net_margin_pct = ratio net_profit net_revenue;
      average_order_value_cents = per_order net_revenue count;
      profit_per_order_cents = per_order net_profit count;
    }

-- `computeProfitForPeriod`
unfoldable pub compute_profit_for_period :
    List EngineOrder → List AdSpendRow → CostRuleSet → ZoneDay → Option Range → PeriodProfit
unfolding attribute_ad_spend allocate_overhead compute_orders roll_up
compute_profit_for_period orders spend rules zone range =
    let attribution = attribute_ad_spend zone orders spend in
    let overhead = allocate_overhead zone orders rules.monthly_overhead_cents range in
    roll_up attribution (compute_orders attribution.by_order_id overhead rules orders)
