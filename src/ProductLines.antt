-- ===== src/ProductLines.antt =====
-- app/engine/products.ts: an order's costs on its lines, and what the customers that a product won
-- earn later.
pub mod Pushed
use my_meridian.Base.{
  ℕ, suc, ◌+◌, Bool, true, false, ◌&&◌, ◌||◌, Option, none, some, List, [], ◌∷◌, ◌++◌, map, ◌==◌,
  if◌then◌else◌, or_else, get_or, leb, String,
}
use my_meridian.Base.Int.{ℤ, pos, ◌+ℤ◌, ◌-ℤ◌, ◌*ℤ◌, max_zero, ltb_ℤ, leb_ℤ, sum}
use my_meridian.Base.Keys.{truthy, ◌=?◌, string_eq, Dict, lookup, insert}
use my_meridian.Base.Sort.{sort}
use my_meridian.Money.{allocate, cost_of_units, sum_cents, math_round}
use my_meridian.Orders.{EngineLineItem, EngineOrder}
use my_meridian.Profit.{OrderProfit, sold_qty}

pub record LineAllocation : Type 0 where
  pub line_product : String
  pub line_gross_cents : ℤ
  pub line_discount_cents : ℤ
  pub line_net_cents : ℤ
  pub line_cogs_cents : ℤ
  pub line_units : ℤ
  pub line_shipping_cents : ℤ
  pub line_payment_cents : ℤ
  pub line_pick_pack_cents : ℤ
  pub line_ad_cents : ℤ
  pub line_missing_cogs : Bool
  pub line_modeled_costs : Bool

abbrev pub keep_line :
    Option String → EngineLineItem → List (String × EngineLineItem) → List (String × EngineLineItem)
keep_line none item lines = lines
keep_line (some p) item lines = (p, item) ∷ lines

-- `order.lineItems.filter((item) => item.productId)`, each with its product's id
abbrev pub product_lines : List EngineLineItem → List (String × EngineLineItem)
product_lines [] = []
product_lines (item ∷ items) = keep_line (truthy item.product_id) item (product_lines items)

-- `lineNet`
abbrev pub line_net : EngineLineItem → ℤ
line_net item = max_zero (item.unit_price_cents *ℤ sold_qty item -ℤ item.discount_cents)

unfoldable pub line_weights : List (String × EngineLineItem) → List ℤ
unfolding sum_cents
line_weights lines =
    let nets = map (λ (l : String × EngineLineItem). line_net l.1) lines in
    if ltb_ℤ (pos 0) (sum_cents nets)
    then nets
    else map (λ (l : String × EngineLineItem). pos 1) lines

-- What `allocate` has split, by its place.
pub record OrderShares : Type 0 where
  pub shipping_shares : List ℤ
  pub payment_shares : List ℤ
  pub pick_pack_shares : List ℤ
  pub ad_shares : List ℤ
  pub discount_shares : List ℤ
  pub refund_shares : List ℤ

unfoldable pub order_shares : EngineOrder → OrderProfit → List ℤ → OrderShares
unfolding allocate
order_shares order profit weights = record {
  shipping_shares = allocate profit.shipping_cost_cents weights;
  payment_shares = allocate profit.payment_fee_cents weights;
  pick_pack_shares = allocate profit.pick_pack_cents weights;
  ad_shares = allocate profit.ad_cost_cents weights;
  discount_shares = allocate (max_zero order.discount_total_cents) weights;
  refund_shares = allocate (max_zero order.refunded_total_cents) weights;
}

unfoldable pub line_allocation :
    OrderProfit → OrderShares → ℕ → String → EngineLineItem → LineAllocation
unfolding cost_of_units
line_allocation profit shares i product item =
    let sold = sold_qty item in
    let gross = item.unit_price_cents *ℤ sold in
    let discount = item.discount_cents +ℤ get_or shares.discount_shares i (pos 0) in
    record {
      line_product = product;
      line_gross_cents = gross;
      line_discount_cents = discount;
      line_net_cents = gross -ℤ discount -ℤ get_or shares.refund_shares i (pos 0);
      line_cogs_cents = cost_of_units item.unit_cost_micros sold;
      line_units = sold;
      line_shipping_cents = get_or shares.shipping_shares i (pos 0);
      line_payment_cents = get_or shares.payment_shares i (pos 0);
      line_pick_pack_cents = get_or shares.pick_pack_shares i (pos 0);
      line_ad_cents = get_or shares.ad_shares i (pos 0);
      line_missing_cogs = leb_ℤ item.unit_cost_micros (pos 0) && ltb_ℤ (pos 0) sold;
      line_modeled_costs = profit.uses_modeled_costs;
    }

-- `lines.map((item, i) => ...)`, from an index on
unfoldable pub line_allocations :
    OrderProfit → OrderShares → ℕ → List (String × EngineLineItem) → List LineAllocation
unfolding line_allocation
line_allocations profit shares i [] = []
line_allocations profit shares i ((p, item) ∷ lines) =
    line_allocation profit shares i p item ∷ line_allocations profit shares (i + 1) lines

-- `allocateOrderToProducts`
unfoldable pub allocate_order_to_products : EngineOrder → OrderProfit → List LineAllocation
unfolding line_weights order_shares line_allocations
allocate_order_to_products order profit =
    let lines = product_lines order.line_items in
    line_allocations profit (order_shares order profit (line_weights lines)) 0 lines
