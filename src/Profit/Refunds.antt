-- ===== src/Profit/Refunds.antt =====
-- Refunds in app/engine/profit.ts: the tax share comes out of what came back, the fee stays whole.
use my_meridian.Base.{◌≡◌, refl, sym, none, true, false, arith}
use my_meridian.Base.Int.{
  ℤ, pos, negsuc, ◌+ℤ◌, ◌-ℤ◌, ◌*ℤ◌, ◌≤ℤ◌, ◌<ℤ◌, ltb_ℤ, pos_part, max_zero, int_laws,
}
use my_meridian.Money.{math_round}
use my_meridian.Money.Rounding.{math_round-mul}
use my_meridian.Orders.{EngineOrder, CostRuleSet}
use my_meridian.Profit.{compute_order_profit, net_revenue_of, refund_of, fees_retained, margin}

ltb_ℤ-true : (a b : ℤ) → a <ℤ b → ltb_ℤ a b ≡ true
ltb_ℤ-true a b h = ground arith

pos_of_positive : (a : ℤ) → pos 0 <ℤ a → pos (pos_part a) ≡ a
pos_of_positive (pos n) h = refl
pos_of_positive (negsuc n) h = absurd (omega arith)

max_zero-id : (a : ℤ) → pos 0 ≤ℤ a → max_zero a ≡ a
max_zero-id (pos n) h = refl
max_zero-id (negsuc n) h = absurd (omega arith)

max_zero-nonpos : (a : ℤ) → a ≤ℤ pos 0 → max_zero a ≤ℤ pos 0
max_zero-nonpos (pos n) h = h
max_zero-nonpos (negsuc n) h = omega arith

margin-none : (profit revenue : ℤ) → revenue ≤ℤ pos 0 → margin profit revenue ≡ none
margin-none profit revenue h = rw (not_positive revenue h)
  where
    not_positive : (r : ℤ) → r ≤ℤ pos 0 → ltb_ℤ (pos 0) r ≡ false
    not_positive r h = ground arith

refund_of_everything :
    (o : EngineOrder)
    → pos 0 <ℤ o.total_cents
    → o.refunded_total_cents +ℤ fees_retained o ≡ o.total_cents
    → fees_retained o ≤ℤ o.total_cents -ℤ o.tax_total_cents
    → refund_of o ≡ o.total_cents -ℤ o.tax_total_cents -ℤ fees_retained o
unfolding refund_of
refund_of_everything o h e f =
    let x = o.total_cents -ℤ o.tax_total_cents in
    let t : o.total_cents ≡ pos (pos_part o.total_cents) = sym (pos_of_positive o.total_cents h) in
    rw (ltb_ℤ-true (pos 0) o.total_cents h, e)
      (rw (whole o.total_cents x h) (max_zero-id (x -ℤ fees_retained o) (omega int_laws)))
  where
    whole : (t x : ℤ) → pos 0 <ℤ t → math_round (t *ℤ x) (pos_part t) ≡ x
    whole (pos n) x h = math_round-mul x n (omega arith)
    whole (negsuc n) x h = absurd (omega arith)

net_revenue_of_everything :
    (o : EngineOrder)
    → o.total_cents
      ≡ o.subtotal_cents -ℤ o.discount_total_cents +ℤ o.shipping_charged_cents +ℤ o.tax_total_cents
    → refund_of o ≡ o.total_cents -ℤ o.tax_total_cents -ℤ fees_retained o
    → net_revenue_of o ≡ fees_retained o
unfolding net_revenue_of
net_revenue_of_everything o t r = rw (r, t) (regroup _ _ _)
  where
    regroup : (a b c : ℤ) → a -ℤ (a +ℤ b -ℤ b -ℤ c) ≡ c
    regroup a b c = omega int_laws

-- When everything comes back, paid out or kept as a fee, and the order's total is made up of goods,
-- shipping and tax, the net revenue is exactly the fee that was kept: nothing of the tax is taken
-- off the fee, and a full refund without a fee leaves no revenue and no margin.
pub full_refund-nets-fees :
    (o : EngineOrder) (rules : CostRuleSet) (ad overhead : ℤ)
    → pos 0 <ℤ o.total_cents
    → o.total_cents
      ≡ o.subtotal_cents -ℤ o.discount_total_cents +ℤ o.shipping_charged_cents +ℤ o.tax_total_cents
    → o.refunded_total_cents +ℤ fees_retained o ≡ o.total_cents
    → fees_retained o ≤ℤ o.total_cents -ℤ o.tax_total_cents
    → let p = compute_order_profit o rules ad overhead in
      (p.net_revenue_cents ≡ p.return_fees_retained_cents)
      × (o.return_fees_retained_cents ≤ℤ pos 0
          → (p.contribution_margin_pct ≡ none) × (p.net_margin_pct ≡ none))
unfolding compute_order_profit
full_refund-nets-fees o rules ad overhead h t e f =
    let n = net_revenue_of_everything o t (refund_of_everything o h e f) in
    (
      n,
      λ z.
          let low : net_revenue_of o ≤ℤ pos 0 =
            rw n (max_zero-nonpos o.return_fees_retained_cents z) in
          (margin-none _ _ low, margin-none _ _ low),
    )

-- A refund is never negative, and margins are given only for a revenue above zero.
pub compute_order_profit-refund :
    (o : EngineOrder) (rules : CostRuleSet) (ad overhead : ℤ)
    → let p = compute_order_profit o rules ad overhead in
      (pos 0 ≤ℤ p.refund_cents)
      × (p.net_revenue_cents ≤ℤ pos 0
          → (p.contribution_margin_pct ≡ none) × (p.net_margin_pct ≡ none))
unfolding compute_order_profit refund_of
compute_order_profit-refund o rules ad overhead =
    (omega arith, λ low. (margin-none _ _ low, margin-none _ _ low))
