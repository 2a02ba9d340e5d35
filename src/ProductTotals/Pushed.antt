-- ===== src/ProductTotals/Pushed.antt =====
-- The totals of the products hold the costs that the orders push down (app/engine/products.ts).
use my_meridian.Base.{
  Bool, Option, none, some, List, [], ◌∷◌, ◌≡◌, refl, ap, ◌∙◌, map, String, if◌then◌else◌, or_else,
}
use my_meridian.Base.Int.{ℤ, pos, ◌+ℤ◌, sum, int_laws}
use my_meridian.Base.Keys.{string_eq, Dict, lookup, insert}
use my_meridian.Base.Sums.{dict_sum, dict_sum-update}
use my_meridian.Orders.{EngineOrder}
use my_meridian.Profit.{OrderProfit}
use my_meridian.ProductLines.{LineAllocation, product_lines, allocate_order_to_products}
use my_meridian.ProductLines.Pushed.{
  OrderCost, shipping, payment, pick_pack, ad_spend, line_cost, pushed_cost,
  allocate_order_to_products-cost,
}
use my_meridian.ProductTotals.{
  ProductTotal, no_total, contains_id, add_to_total, add_lines_to_totals, add_order, collect_totals,
}

abbrev pub total_cost : OrderCost → ProductTotal → ℤ
total_cost shipping t = t.total_shipping
total_cost payment t = t.total_payment
total_cost pick_pack t = t.total_pick_pack
total_cost ad_spend t = t.total_ad

-- What an order pushes down, if it has a profit.
abbrev pub pushed_order : OrderCost → Option OrderProfit → EngineOrder → ℤ
pushed_order k none order = pos 0
pushed_order k (some profit) order = pushed_cost k profit (product_lines order.line_items)

abbrev pub pushed_total : OrderCost → Dict String OrderProfit → List EngineOrder → ℤ
pushed_total k profits [] = pos 0
pushed_total k profits (order ∷ orders) =
    pushed_order k (lookup order.id profits) order +ℤ pushed_total k profits orders

add_to_total-cost :
    (k : OrderCost) (seen : Bool) (l : LineAllocation) (t : ProductTotal)
    → total_cost k (add_to_total seen l t) ≡ total_cost k t +ℤ line_cost k l
unfolding add_to_total
add_to_total-cost shipping seen l t = refl
add_to_total-cost payment seen l t = refl
add_to_total-cost pick_pack seen l t = refl
add_to_total-cost ad_spend seen l t = refl

no_total-cost : (k : OrderCost) → total_cost k no_total ≡ pos 0
no_total-cost shipping = refl
no_total-cost payment = refl
no_total-cost pick_pack = refl
no_total-cost ad_spend = refl

module _ (k : OrderCost) where
  add_lines_to_totals-cost :
      (ls : List LineAllocation) (seen : List String) (d : Dict String ProductTotal)
      → dict_sum (total_cost k) (add_lines_to_totals ls seen d)
        ≡ dict_sum (total_cost k) d +ℤ sum (map (line_cost k) ls)
  unfolding add_lines_to_totals
  add_lines_to_totals-cost [] seen d = omega int_laws
  add_lines_to_totals-cost (l ∷ ls) seen d =
      let known = contains_id l.line_product seen in
      let arrived =
        dict_sum-update (total_cost k) (add_to_total known l) (line_cost k l) no_total
          (add_to_total-cost k known l) (no_total-cost k) l.line_product d in
      add_lines_to_totals-cost ls (if known then seen else l.line_product ∷ seen) (
        insert l.line_product (add_to_total known l (or_else (lookup l.line_product d) no_total)) d)
      ∙ rw arrived (omega int_laws)

  add_order-cost :
      (p : Option OrderProfit) (order : EngineOrder) (d : Dict String ProductTotal)
      → dict_sum (total_cost k) (add_order p order d)
        ≡ dict_sum (total_cost k) d +ℤ pushed_order k p order
  unfolding add_order
  add_order-cost none order d = omega int_laws
  add_order-cost (some profit) order d =
      add_lines_to_totals-cost (allocate_order_to_products order profit) [] d
      ∙ ap (λ t. dict_sum (total_cost k) d +ℤ t) (allocate_order_to_products-cost k order profit)

  pub collect_totals-cost :
      (profits : Dict String OrderProfit) (orders : List EngineOrder) (d : Dict String ProductTotal)
      → dict_sum (total_cost k) (collect_totals profits orders d)
        ≡ dict_sum (total_cost k) d +ℤ pushed_total k profits orders
  unfolding collect_totals
  collect_totals-cost profits [] d = omega int_laws
  collect_totals-cost profits (order ∷ orders) d =
      let p = lookup order.id profits in
      collect_totals-cost profits orders (add_order p order d)
      ∙ rw (add_order-cost p order d) (omega int_laws)
