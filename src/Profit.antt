-- ===== src/Profit.antt =====
-- `computeOrderProfit` of app/engine/profit.ts.
pub mod Accounts
pub mod Refunds
use my_meridian.Base.{
  ℕ, Bool, true, false, not, ◌&&◌, ◌||◌, Option, none, some, List, [], ◌∷◌, if◌then◌else◌, or_else,
  String,
}
use my_meridian.Base.Int.{ℤ, pos, ◌+ℤ◌, ◌-ℤ◌, ◌*ℤ◌, ◌==ℤ◌, leb_ℤ, ltb_ℤ, max_zero, pos_part}
use my_meridian.Money.{Rate, math_round, cost_of_units, apply_rate, ratio}
use my_meridian.Orders.{EngineLineItem, EngineOrder, CostRuleSet, Channel}
use my_meridian.CostHistory.{Instant}

pub record OrderProfit : Type 0 where
  pub order_id : String
  pub order_number : ℕ
  pub processed_at : Instant
  pub channel : Channel
  pub customer_id : Option String
  pub is_first_order : Bool
  pub gross_revenue_cents : ℤ
  pub discount_cents : ℤ
  pub refund_cents : ℤ
  pub return_fees_retained_cents : ℤ
  pub shipping_revenue_cents : ℤ
  pub net_revenue_cents : ℤ
  pub cogs_cents : ℤ
  pub shipping_cost_cents : ℤ
  pub payment_fee_cents : ℤ
  pub pick_pack_cents : ℤ
  pub ad_cost_cents : ℤ
  pub overhead_cents : ℤ
  pub return_shipping_cost_cents : ℤ
  pub total_cost_cents : ℤ
  pub contribution_profit_cents : ℤ
  pub net_profit_cents : ℤ
  pub contribution_margin_pct : Option Rate
  pub net_margin_pct : Option Rate
  pub units : ℤ
  pub has_missing_cogs : Bool
  pub uses_modeled_costs : Bool
  pub uses_estimated_costs : Bool

-- What the loop over the line items adds up.
pub record LineTotals : Type 0 where
  pub cogs : ℤ
  pub sold : ℤ
  pub missing_cost : Bool

abbrev pub sold_qty : EngineLineItem → ℤ
sold_qty item = max_zero (item.quantity -ℤ item.refunded_qty)

unfoldable pub line_totals : List EngineLineItem → LineTotals → LineTotals
unfolding cost_of_units
line_totals [] t = t
line_totals (item ∷ items) t = line_totals items (record {
  cogs = t.cogs +ℤ cost_of_units item.unit_cost_micros (sold_qty item);
  sold = t.sold +ℤ sold_qty item;
  missing_cost =
      (leb_ℤ item.unit_cost_micros (pos 0) && ltb_ℤ (pos 0) (sold_qty item)) || t.missing_cost;
})

-- `exTaxShare`
abbrev pub ex_tax_share : EngineOrder → Rate
ex_tax_share o =
    if ltb_ℤ (pos 0) o.total_cents
    then record { num = o.total_cents -ℤ o.tax_total_cents; den = pos_part o.total_cents }
    else record { num = pos 1; den = 1 }

abbrev pub fees_retained : EngineOrder → ℤ
fees_retained o = max_zero o.return_fees_retained_cents

unfoldable pub refund_of : EngineOrder → ℤ
unfolding math_round
refund_of o =
    let share = ex_tax_share o in
    let fees = fees_retained o in
    max_zero (math_round ((o.refunded_total_cents +ℤ fees) *ℤ share.num) share.den -ℤ fees)

unfoldable pub net_revenue_of : EngineOrder → ℤ
unfolding refund_of
net_revenue_of o =
    o.subtotal_cents -ℤ o.discount_total_cents +ℤ o.shipping_charged_cents -ℤ refund_of o

abbrev pub is_none : Option ℤ → Bool
is_none none = true
is_none (some x) = false

abbrev pub nonzero : ℤ → Bool
nonzero a = not (a ==ℤ pos 0)

abbrev pub margin : ℤ → ℤ → Option Rate
margin profit revenue = if ltb_ℤ (pos 0) revenue then ratio profit revenue else none

unfoldable pub compute_order_profit : EngineOrder → CostRuleSet → ℤ → ℤ → OrderProfit
unfolding line_totals refund_of net_revenue_of apply_rate ratio
compute_order_profit o rules ad_cost overhead =
    let lines =
      line_totals o.line_items (record { cogs = pos 0; sold = pos 0; missing_cost = false }) in
    let refund = refund_of o in
    let net_revenue = net_revenue_of o in
    let shipping = or_else o.actual_shipping_cost_cents rules.shipping_default_per_order_cents in
    let pick_pack =
      or_else o.actual_pick_pack_cost_cents
        (rules.pick_pack_per_order_cents +ℤ rules.pick_pack_per_item_cents *ℤ lines.sold) in
    let payment =
      apply_rate o.total_cents rules.payment_percent_rate +ℤ rules.payment_fixed_per_order_cents in
    let modeled =
      nonzero payment
      || (is_none o.actual_shipping_cost_cents && nonzero shipping)
      || (is_none o.actual_pick_pack_cost_cents && nonzero pick_pack)
      || nonzero rules.monthly_overhead_cents in
    let return_shipping = o.return_shipping_cost_cents in
    let contribution =
      net_revenue -ℤ lines.cogs -ℤ shipping -ℤ payment -ℤ pick_pack -ℤ ad_cost -ℤ return_shipping in
    let net_profit = contribution -ℤ overhead in
    record {
      order_id = o.id;
      order_number = o.order_number;
      processed_at = o.processed_at;
      channel = o.channel;
      customer_id = o.customer_id;
      is_first_order = o.is_first_order;
      gross_revenue_cents = o.subtotal_cents;
      discount_cents = o.discount_total_cents;
      refund_cents = refund;
      return_fees_retained_cents = fees_retained o;
      shipping_revenue_cents = o.shipping_charged_cents;
      net_revenue_cents = net_revenue;
      cogs_cents = lines.cogs;
      shipping_cost_cents = shipping;
      payment_fee_cents = payment;
      pick_pack_cents = pick_pack;
      ad_cost_cents = ad_cost;
      overhead_cents = overhead;
      return_shipping_cost_cents = return_shipping;
      total_cost_cents =
          lines.cogs +ℤ shipping +ℤ payment +ℤ pick_pack +ℤ ad_cost +ℤ return_shipping +ℤ overhead;
      contribution_profit_cents = contribution;
      net_profit_cents = net_profit;
      contribution_margin_pct = margin contribution net_revenue;
      net_margin_pct = margin net_profit net_revenue;
      units = lines.sold;
      has_missing_cogs = lines.missing_cost;
      uses_modeled_costs = modeled;
      uses_estimated_costs = lines.missing_cost || modeled;
    }
