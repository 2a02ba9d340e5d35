-- ===== src/Tests/Products.antt =====
-- app/engine/products.ts at concrete inputs: an order of two products, its costs and its customer.
use my_meridian.Base.{true, List, [], ◌∷◌, ◌≡◌, refl, some, none, map}
use my_meridian.Base.Int.{ℤ, pos, sum, ◌+ℤ◌, ◌-ℤ◌, ◌*ℤ◌}
use my_meridian.Orders.{EngineOrder, EngineLineItem, direct, zero_cost_rules}
use my_meridian.Profit.{OrderProfit, compute_order_profit}
use my_meridian.ProductLines.Pushed.{shipping}
use my_meridian.ProductTotals.{profit_by_order}
use my_meridian.ProductTotals.Pushed.{pushed_total}
use my_meridian.Products.{
  ProductProfit, ProductClass, profitable, bleeding, compute_product_profitability,
}
use my_meridian.Products.Costs.{product_cost, compute_product_profitability-costs}

abbrev mug : EngineLineItem
mug = record {
  item_id = "l1";
  product_id = some "mug";
  variant_id = none;
  title = "Mug";
  quantity = pos 1;
  refunded_qty = pos 0;
  unit_price_cents = pos 1000;
  discount_cents = pos 0;
  unit_cost_micros = pos 20_000;
}

abbrev tea : EngineLineItem
tea = record mug {
  item_id = "l2";
  product_id = some "tea";
  quantity = pos 2;
  unit_cost_micros = pos 95_000;
}

-- A line without a product bears nothing.
abbrev tip : EngineLineItem
tip = record mug { item_id = "l3"; product_id = some ""; unit_price_cents = pos 300 }

abbrev first_order : EngineOrder
first_order = record {
  id = "o1";
  order_number = 1;
  processed_at = 5;
  customer_id = some "c1";
  channel = direct;
  campaign_id = none;
  is_first_order = true;
  subtotal_cents = pos 3300;
  discount_total_cents = pos 0;
  shipping_charged_cents = pos 0;
  tax_total_cents = pos 0;
  total_cents = pos 3300;
  refunded_total_cents = pos 0;
  return_fees_retained_cents = pos 0;
  line_items = mug ∷ tip ∷ tea ∷ [];
  actual_shipping_cost_cents = some (pos 500);
  actual_pick_pack_cost_cents = none;
  return_shipping_cost_cents = pos 0;
}

abbrev profits : List OrderProfit
profits = compute_order_profit first_order zero_cost_rules (pos 0) (pos 0) ∷ []

first_order-products :
    map {B = ℤ × ProductClass}
      (λ (p : ProductProfit). (p.allocated_shipping_cents, p.classification))
      (compute_product_profitability (first_order ∷ []) profits [])
    ≡ (pos 167, profitable) ∷ (pos 333, bleeding) ∷ []
unfolding compute_product_profitability compute_order_profit ◌+ℤ◌ ◌-ℤ◌ ◌*ℤ◌
first_order-products = refl

compute_product_profitability-costs_example :
    sum (map (product_cost shipping) (compute_product_profitability (first_order ∷ []) profits []))
    ≡ pushed_total shipping (profit_by_order profits []) (first_order ∷ [])
compute_product_profitability-costs_example =
    compute_product_profitability-costs shipping (first_order ∷ []) profits []
