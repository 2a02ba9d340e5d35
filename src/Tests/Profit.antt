-- ===== src/Tests/Profit.antt =====
-- app/engine/profit.ts at concrete inputs: two orders of one day, a campaign's spend on it and spend
-- of a channel that has no orders.
use my_meridian.Base.{
  ℕ, String, ◌+◌, ◌*◌, ◌≤◌, true, List, [], ◌∷◌, ◌≡◌, refl, some, none, Option, map, or_else, arith,
}
use my_meridian.Base.Int.{ℤ, pos, sum, ◌+ℤ◌, ◌-ℤ◌, ◌*ℤ◌, ◌≤ℤ◌}
use my_meridian.Base.Keys.{Dict, lookup}
use my_meridian.CostHistory.{Instant}
use my_meridian.Orders.{
  EngineOrder, EngineLineItem, AdSpendRow, CostRuleSet, Channel, facebook, google, zero_cost_rules,
}
use my_meridian.Calendar.{ZoneDay, days_in_calendar_month, month_eq, day_ms, Month}
use my_meridian.AdSpend.{attribute_ad_spend}
use my_meridian.AdSpend.Conservation.{
  HasUniqueIds, charged, total_spend, attribute_ad_spend-conserves,
}
use my_meridian.Overhead.{month_amount}
use my_meridian.Overhead.Bounds.{month_amount-bounds}
use my_meridian.Profit.{compute_order_profit}
use my_meridian.Profit.Refunds.{full_refund-nets-fees}
use my_meridian.Period.{compute_profit_for_period}
use my_meridian.Period.Reconcile.{
  compute_profit_for_period-reconciles, compute_profit_for_period-ad_cost,
}

abbrev noon : Instant
noon = (100_000_000 + 20_671) * day_ms + 43_200_000

abbrev utc : ZoneDay
utc t = none

abbrev shirt : EngineLineItem
shirt = record {
  item_id = "l1";
  product_id = some "p1";
  variant_id = some "v1";
  title = "Shirt";
  quantity = pos 2;
  refunded_qty = pos 0;
  unit_price_cents = pos 2500;
  discount_cents = pos 0;
  unit_cost_micros = pos 80_050;
}

-- An order of 50.00 with 5.00 of tax.
abbrev plain : EngineOrder
plain = record {
  id = "o1";
  order_number = 1001;
  processed_at = noon;
  customer_id = none;
  channel = facebook;
  campaign_id = some "c1";
  is_first_order = true;
  subtotal_cents = pos 5000;
  discount_total_cents = pos 0;
  shipping_charged_cents = pos 0;
  tax_total_cents = pos 500;
  total_cents = pos 5500;
  refunded_total_cents = pos 0;
  return_fees_retained_cents = pos 0;
  line_items = shirt ∷ [];
  actual_shipping_cost_cents = none;
  actual_pick_pack_cost_cents = none;
  return_shipping_cost_cents = pos 0;
}

-- The same, all returned: 35.00 was paid back and a fee of 20.00 kept.
abbrev returned : EngineOrder
returned = record plain {
  id = "o2";
  campaign_id = none;
  refunded_total_cents = pos 3500;
  return_fees_retained_cents = pos 2000;
}

abbrev rules : CostRuleSet
rules = record zero_cost_rules {
  payment_percent_rate = record { num = pos 29; den = 1000 };
  payment_fixed_per_order_cents = pos 30;
  monthly_overhead_cents = pos 10_000;
}

abbrev row : Channel → Option String → ℤ → AdSpendRow
row channel campaign cents = record {
  date = (100_000_000 + 20_671) * day_ms;
  spend_channel = channel;
  spend_campaign_id = campaign;
  campaign_name = none;
  spend_cents = cents;
  impressions = 0;
  clicks = 0;
  platform_conversions = 0;
  platform_revenue_cents = pos 0;
}

abbrev orders : List EngineOrder
orders = plain ∷ returned ∷ []

abbrev spend : List AdSpendRow
spend =
    row facebook (some "c1") (pos 700) ∷ row facebook none (pos 501) ∷ row google none (pos 90) ∷ []

unique : HasUniqueIds orders
unique = (refl, (refl, tt))

attributed :
    let a = attribute_ad_spend utc orders spend in
    (charged a.by_order_id (plain ∷ []) ≡ pos 951) × (a.unattributed_cents ≡ pos 90)
unfolding attribute_ad_spend ◌+ℤ◌ ◌-ℤ◌ ◌*ℤ◌
attributed = (refl, refl)

profit_of_plain : (compute_order_profit plain rules (pos 951) (pos 0)).net_profit_cents ≡ pos 2258
unfolding compute_order_profit ◌+ℤ◌ ◌-ℤ◌ ◌*ℤ◌
profit_of_plain = refl

attribute_ad_spend-conserves_example :
    let a = attribute_ad_spend utc orders spend in
    charged a.by_order_id orders +ℤ a.unattributed_cents ≡ total_spend spend
attribute_ad_spend-conserves_example = attribute_ad_spend-conserves utc orders spend unique

full_refund-nets-fees_example :
    let p = compute_order_profit returned rules (pos 0) (pos 0) in
    (p.net_revenue_cents ≡ p.return_fees_retained_cents)
    × (pos 2000 ≤ℤ pos 0 → (p.contribution_margin_pct ≡ none) × (p.net_margin_pct ≡ none))
unfolding ◌+ℤ◌ ◌-ℤ◌
full_refund-nets-fees_example =
    full_refund-nets-fees returned rules (pos 0) (pos 0) (omega arith) refl refl (omega arith)

abbrev august : Month
august = record { year = 2026; month = 8 }

abbrev covered : Dict Month ℕ
covered = (august, 10) ∷ []

month_amount-bounds_example :
    let amount = month_amount (pos 10_000) (some covered) august in
    (month_amount (pos 10_000) none august ≡ pos 10_000)
    × (pos 0 ≤ℤ amount)
    × (amount ≤ℤ pos 10_000)
    × (days_in_calendar_month august ≤ or_else (lookup august covered) 0 → amount ≡ pos 10_000)
    × (or_else (lookup august covered) 0 ≡ 0 → amount ≡ pos 0)
month_amount-bounds_example = month_amount-bounds 10_000 covered august

compute_profit_for_period-reconciles_example :
    let p = compute_profit_for_period orders spend rules utc none in
    (p.net_profit_cents
      ≡ sum (map (λ o. o.net_profit_cents) p.orders) -ℤ p.unattributed_ad_cost_cents)
    × (p.net_profit_cents
        ≡ p.net_revenue_cents
          -ℤ sum (map (λ o. o.total_cost_cents) p.orders)
          -ℤ p.unattributed_ad_cost_cents)
compute_profit_for_period-reconciles_example =
    compute_profit_for_period-reconciles orders spend rules utc none

compute_profit_for_period-ad_cost_example :
    (compute_profit_for_period orders spend rules utc none).total_ad_cost_cents ≡ total_spend spend
compute_profit_for_period-ad_cost_example =
    compute_profit_for_period-ad_cost orders spend rules utc none unique
