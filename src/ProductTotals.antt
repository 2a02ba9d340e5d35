-- ===== src/ProductTotals.antt =====
-- app/engine/products.ts: what the lines of all orders add up to for each product.
pub mod Pushed
use my_meridian.Base.{
  ℕ, suc, ◌+◌, ◌*◌, Bool, true, false, ◌&&◌, ◌||◌, Option, none, some, List, [], ◌∷◌, ◌++◌, map,
  length, ◌==◌, if◌then◌else◌, or_else, leb, ltb, String,
}
use my_meridian.Base.Int.{ℤ, pos, ◌+ℤ◌, ◌-ℤ◌, ◌*ℤ◌, ◌==ℤ◌, ltb_ℤ, leb_ℤ, pos_part}
use my_meridian.Base.Keys.{◌=?◌, string_eq, Dict, lookup, insert}
use my_meridian.Base.Sort.{sort}
use my_meridian.Money.{Rate, math_round, ratio, sum_cents}
use my_meridian.Orders.{EngineLineItem, EngineOrder}
use my_meridian.Profit.{OrderProfit}
use my_meridian.ProductLines.{LineAllocation, allocate_order_to_products}

-- `new Map(orderProfits.map((p) => [p.orderId, p]))`
unfoldable pub profit_by_order :
    List OrderProfit → Dict String OrderProfit → Dict String OrderProfit
profit_by_order [] d = d
profit_by_order (p ∷ ps) d = profit_by_order ps (insert p.order_id p d)

abbrev pub contains_id : String → List String → Bool
contains_id x [] = false
contains_id x (y ∷ s) = x =? y || contains_id x s

-- A value of `totals`.
pub record ProductTotal : Type 0 where
  pub total_gross : ℤ
  pub total_discount : ℤ
  pub total_net : ℤ
  pub total_cogs : ℤ
  pub total_units : ℤ
  pub total_shipping : ℤ
  pub total_payment : ℤ
  pub total_pick_pack : ℤ
  pub total_ad : ℤ
  pub total_missing_cogs : Bool
  pub total_modeled_costs : Bool
  pub total_orders : ℕ

abbrev pub no_total : ProductTotal
no_total = record {
  total_gross = pos 0;
  total_discount = pos 0;
  total_net = pos 0;
  total_cogs = pos 0;
  total_units = pos 0;
  total_shipping = pos 0;
  total_payment = pos 0;
  total_pick_pack = pos 0;
  total_ad = pos 0;
  total_missing_cogs = false;
  total_modeled_costs = false;
  total_orders = 0;
}

-- What a line adds to its product, which its order has shown before or not.
unfoldable pub add_to_total : Bool → LineAllocation → ProductTotal → ProductTotal
add_to_total seen l t = record {
  total_gross = t.total_gross +ℤ l.line_gross_cents;
  total_discount = t.total_discount +ℤ l.line_discount_cents;
  total_net = t.total_net +ℤ l.line_net_cents;
  total_cogs = t.total_cogs +ℤ l.line_cogs_cents;
  total_units = t.total_units +ℤ l.line_units;
  total_shipping = t.total_shipping +ℤ l.line_shipping_cents;
  total_payment = t.total_payment +ℤ l.line_payment_cents;
  total_pick_pack = t.total_pick_pack +ℤ l.line_pick_pack_cents;
  total_ad = t.total_ad +ℤ l.line_ad_cents;
  total_missing_cogs = t.total_missing_cogs || l.line_missing_cogs;
  total_modeled_costs = t.total_modeled_costs || l.line_modeled_costs;
  total_orders = if seen then t.total_orders else t.total_orders + 1;
}

-- The loop over an order's lines, with `seenInOrder`.
unfoldable pub add_lines_to_totals :
    List LineAllocation → List String → Dict String ProductTotal → Dict String ProductTotal
unfolding add_to_total
add_lines_to_totals [] seen totals = totals
add_lines_to_totals (l ∷ ls) seen totals =
    let known = contains_id l.line_product seen in
    add_lines_to_totals ls (if known then seen else l.line_product ∷ seen) (
      insert l.line_product (add_to_total known l (or_else (lookup l.line_product totals) no_total))
        totals)

-- A round of the loop over the orders.
unfoldable pub add_order :
    Option OrderProfit → EngineOrder → Dict String ProductTotal → Dict String ProductTotal
unfolding add_lines_to_totals allocate_order_to_products
add_order none order totals = totals
add_order (some profit) order totals =
    add_lines_to_totals (allocate_order_to_products order profit) [] totals

unfoldable pub collect_totals :
    Dict String OrderProfit → List EngineOrder → Dict String ProductTotal → Dict String ProductTotal
unfolding add_order
collect_totals profits [] totals = totals
collect_totals profits (order ∷ orders) totals =
    collect_totals profits orders (add_order (lookup order.id profits) order totals)
