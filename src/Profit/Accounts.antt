-- ===== src/Profit/Accounts.antt =====
-- The accounts of one order in app/engine/profit.ts balance.
use my_meridian.Base.{◌≡◌, refl}
use my_meridian.Base.Int.{ℤ, ◌+ℤ◌, ◌-ℤ◌, int_laws}
use my_meridian.Orders.{EngineOrder, CostRuleSet}
use my_meridian.Profit.{compute_order_profit, net_revenue_of}

-- Net profit is net revenue less the total cost, contribution profit is net profit before overhead,
-- and net revenue is what was sold and shipped less discounts and refunds.
pub compute_order_profit-balances :
    (o : EngineOrder) (rules : CostRuleSet) (ad overhead : ℤ)
    → let p = compute_order_profit o rules ad overhead in
      (p.net_profit_cents ≡ p.net_revenue_cents -ℤ p.total_cost_cents)
      × (p.contribution_profit_cents ≡ p.net_profit_cents +ℤ p.overhead_cents)
      × (p.net_revenue_cents
          ≡ p.gross_revenue_cents -ℤ p.discount_cents +ℤ p.shipping_revenue_cents -ℤ p.refund_cents)
unfolding compute_order_profit net_revenue_of
compute_order_profit-balances o rules ad overhead = (omega int_laws, omega int_laws, refl)
