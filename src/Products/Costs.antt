-- ===== src/Products/Costs.antt =====
-- The products bear the orders' costs without loss (app/engine/products.ts).
use my_meridian.Base.{ℕ, List, [], ◌∷◌, ◌≡◌, refl, ap, ◌∙◌, map, length, String}
use my_meridian.Base.Int.{ℤ, ◌+ℤ◌, sum, int_laws}
use my_meridian.Base.Keys.{Dict}
use my_meridian.Base.Sort.{sum-sort}
use my_meridian.Base.Sums.{dict_sum}
use my_meridian.Money.{sum_cents}
use my_meridian.Orders.{EngineOrder}
use my_meridian.Profit.{OrderProfit}
use my_meridian.ProductLines.Pushed.{OrderCost, shipping, payment, pick_pack, ad_spend}
use my_meridian.ProductTotals.{ProductTotal, profit_by_order, collect_totals}
use my_meridian.ProductTotals.Pushed.{total_cost, pushed_total, collect_totals-cost}
use my_meridian.ProductCohorts.{DownstreamValue, compute_downstream_value}
use my_meridian.Products.{
  ProductMeta, ProductProfit, product_profit, by_contribution, compute_product_profitability,
}

abbrev pub product_cost : OrderCost → ProductProfit → ℤ
product_cost shipping p = p.allocated_shipping_cents
product_cost payment p = p.allocated_payment_fee_cents
product_cost pick_pack p = p.allocated_pick_pack_cents
product_cost ad_spend p = p.allocated_ad_cost_cents

module _ (products : Dict String ProductMeta) (value : DownstreamValue) (n : ℕ) (revenue : ℤ) where
  product_profit-cost :
      (k : OrderCost) (entry : String × ProductTotal)
      → product_cost k (product_profit products value n revenue entry) ≡ total_cost k entry.1
  unfolding product_profit
  product_profit-cost shipping (id, t) = refl
  product_profit-cost payment (id, t) = refl
  product_profit-cost pick_pack (id, t) = refl
  product_profit-cost ad_spend (id, t) = refl

  results-cost :
      (k : OrderCost) (d : Dict String ProductTotal)
      → sum (map (product_cost k) (map (product_profit products value n revenue) d))
        ≡ dict_sum (total_cost k) d
  results-cost k [] = refl
  results-cost k ((id, t) ∷ d) =
      rw (product_profit-cost k (id, t)) (ap (λ s. total_cost k t +ℤ s) (results-cost k d))

-- Of shipping, payment fees, pick and pack, and ad spend, what all products bear together is what
-- the orders with a profit and a line with a product have of it.
pub compute_product_profitability-costs :
    (k : OrderCost) (orders : List EngineOrder) (order_profits : List OrderProfit)
    (products : Dict String ProductMeta)
    → sum (map (product_cost k) (compute_product_profitability orders order_profits products))
      ≡ pushed_total k (profit_by_order order_profits []) orders
unfolding compute_product_profitability
compute_product_profitability-costs k orders order_profits products =
    let profits = profit_by_order order_profits [] in
    let value = compute_downstream_value orders profits in
    let revenue = sum_cents (map (λ (p : OrderProfit). p.net_revenue_cents) order_profits) in
    let totals = collect_totals profits orders [] in
    sum-sort by_contribution (product_cost k)
      (map (product_profit products value (length orders) revenue) totals)
    ∙ results-cost products value (length orders) revenue k totals
    ∙ collect_totals-cost k profits orders []
    ∙ omega int_laws
