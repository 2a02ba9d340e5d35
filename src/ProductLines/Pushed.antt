-- ===== src/ProductLines/Pushed.antt =====
-- The order's costs are pushed down to its product lines without loss (app/engine/products.ts).
use my_meridian.Base.{
  ℕ, zero, suc, ◌+◌, ◌≡◌, refl, sym, ap, ◌∙◌, List, [], ◌∷◌, map, length, length-map, get_or,
  String, Bool-cases, inl, inr, arith,
}
use my_meridian.Base.Int.{ℤ, pos, ◌+ℤ◌, ltb_ℤ, sum, int_laws}
use my_meridian.Money.{allocate, sum_cents}
use my_meridian.Money.Allocate.{sum-allocate, length-allocate}
use my_meridian.Orders.{EngineLineItem, EngineOrder}
use my_meridian.Profit.{OrderProfit}
use my_meridian.ProductLines.{
  LineAllocation, product_lines, line_net, line_weights, OrderShares, order_shares, line_allocation,
  line_allocations, allocate_order_to_products,
}

-- The costs of an order that its product lines share.
pub data OrderCost : Type 0 where
  shipping payment pick_pack ad_spend : OrderCost

abbrev pub order_cost : OrderCost → OrderProfit → ℤ
order_cost shipping p = p.shipping_cost_cents
order_cost payment p = p.payment_fee_cents
order_cost pick_pack p = p.pick_pack_cents
order_cost ad_spend p = p.ad_cost_cents

abbrev pub line_cost : OrderCost → LineAllocation → ℤ
line_cost shipping l = l.line_shipping_cents
line_cost payment l = l.line_payment_cents
line_cost pick_pack l = l.line_pick_pack_cents
line_cost ad_spend l = l.line_ad_cents

abbrev shares_of : OrderCost → OrderShares → List ℤ
shares_of shipping s = s.shipping_shares
shares_of payment s = s.payment_shares
shares_of pick_pack s = s.pick_pack_shares
shares_of ad_spend s = s.ad_shares

abbrev drop : ℕ → List ℤ → List ℤ
drop zero xs = xs
drop (suc n) [] = []
drop (suc n) (x ∷ xs) = drop n xs

drop-next : (i : ℕ) (xs : List ℤ) → sum (drop i xs) ≡ get_or xs i (pos 0) +ℤ sum (drop (suc i) xs)
drop-next zero [] = omega int_laws
drop-next zero (x ∷ xs) = refl
drop-next (suc i) [] = omega int_laws
drop-next (suc i) (x ∷ xs) = drop-next i xs

drop_all : (xs : List ℤ) → sum (drop (length xs) xs) ≡ pos 0
drop_all [] = refl
drop_all (x ∷ xs) = drop_all xs

line_cost-share :
    (k : OrderCost) (profit : OrderProfit) (shares : OrderShares) (i : ℕ) (p : String)
    (item : EngineLineItem)
    → line_cost k (line_allocation profit shares i p item) ≡ get_or (shares_of k shares) i (pos 0)
unfolding line_allocation
line_cost-share shipping profit shares i p item = refl
line_cost-share payment profit shares i p item = refl
line_cost-share pick_pack profit shares i p item = refl
line_cost-share ad_spend profit shares i p item = refl

module _ (k : OrderCost) (profit : OrderProfit) (shares : OrderShares) where
  costs_from :
      (i : ℕ) (lines : List (String × EngineLineItem))
      → i + length lines ≡ length (shares_of k shares)
      → sum (map (line_cost k) (line_allocations profit shares i lines))
        ≡ sum (drop i (shares_of k shares))
  unfolding line_allocations
  costs_from i [] h =
      let xs = shares_of k shares in
      let end : length xs ≡ i = omega (arith, h) in
      sym (drop_all xs) ∙ ap (λ n. sum (drop n xs)) end
  costs_from i ((p, item) ∷ lines) h =
      let xs = shares_of k shares in
      let next : i + 1 ≡ suc i = omega arith in
      rw
        (
          line_cost-share k profit shares i p item,
          costs_from (i + 1) lines (omega (arith, h)) ∙ ap (λ n. sum (drop n xs)) next,
        )
        (sym (drop-next i xs))

line_weights-length :
    (lines : List (String × EngineLineItem)) → length (line_weights lines) ≡ length lines
unfolding line_weights
line_weights-length lines =
    let nets = map (λ (l : String × EngineLineItem). line_net l.1) lines in
    elim (Bool-cases (ltb_ℤ (pos 0) (sum_cents nets))) [
      | inl t ↦ rw t (length-map (λ (l : String × EngineLineItem). line_net l.1) lines)
      | inr f ↦ rw f (length-map (λ (l : String × EngineLineItem). pos 1) lines)
    ]

sum-allocate_some :
    (total : ℤ) (ws : List ℤ) (n : ℕ) → length ws ≡ suc n → sum (allocate total ws) ≡ total
sum-allocate_some total [] n h = absurd (omega (arith, h))
sum-allocate_some total (w ∷ ws) n h = sum-allocate total w ws

module _ (order : EngineOrder) (profit : OrderProfit) (ws : List ℤ) where
  shares-length : (k : OrderCost) → length (shares_of k (order_shares order profit ws)) ≡ length ws
  unfolding order_shares
  shares-length shipping = length-allocate profit.shipping_cost_cents ws
  shares-length payment = length-allocate profit.payment_fee_cents ws
  shares-length pick_pack = length-allocate profit.pick_pack_cents ws
  shares-length ad_spend = length-allocate profit.ad_cost_cents ws

  shares-sum :
      (k : OrderCost) (n : ℕ)
      → length ws ≡ suc n
      → sum (shares_of k (order_shares order profit ws)) ≡ order_cost k profit
  unfolding order_shares
  shares-sum shipping n h = sum-allocate_some profit.shipping_cost_cents ws n h
  shares-sum payment n h = sum-allocate_some profit.payment_fee_cents ws n h
  shares-sum pick_pack n h = sum-allocate_some profit.pick_pack_cents ws n h
  shares-sum ad_spend n h = sum-allocate_some profit.ad_cost_cents ws n h

-- What an order pushes down: each cost whole, once it has a line with a product.
abbrev pub pushed_cost : OrderCost → OrderProfit → List (String × EngineLineItem) → ℤ
pushed_cost k profit [] = pos 0
pushed_cost k profit (l ∷ lines) = order_cost k profit

pub allocate_order_to_products-cost :
    (k : OrderCost) (order : EngineOrder) (profit : OrderProfit)
    → sum (map (line_cost k) (allocate_order_to_products order profit))
      ≡ pushed_cost k profit (product_lines order.line_items)
unfolding allocate_order_to_products line_allocations
allocate_order_to_products-cost k order profit = on_lines (product_lines order.line_items)
  where
    on_lines :
        (lines : List (String × EngineLineItem))
        → sum (
            map
              (line_cost k)
              (line_allocations profit (order_shares order profit (line_weights lines)) 0 lines))
          ≡ pushed_cost k profit lines
    on_lines [] = refl
    on_lines (l ∷ lines) =
        let ws = line_weights (l ∷ lines) in
        let size = line_weights-length (l ∷ lines) in
        let known = shares-length order profit ws k in
        costs_from k profit (order_shares order profit ws) 0 (l ∷ lines)
          (omega (arith, size, known))
        ∙ shares-sum order profit ws k (length lines) size
