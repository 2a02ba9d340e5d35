-- ===== src/ProductCohorts.antt =====
-- app/engine/products.ts: `computeDownstreamValue`, what the customers that a product won earn later.
use my_meridian.Base.{
  ℕ, ◌+◌, Bool, Option, none, some, List, [], ◌∷◌, ◌++◌, map, ◌==◌, if◌then◌else◌, or_else, leb,
  String,
}
use my_meridian.Base.Int.{ℤ, pos, ◌+ℤ◌}
use my_meridian.Base.Keys.{truthy, string_eq, Dict, lookup, insert}
use my_meridian.Base.Sort.{sort}
use my_meridian.Money.{math_round, sum_cents}
use my_meridian.Orders.{EngineLineItem, EngineOrder}
use my_meridian.Profit.{OrderProfit}
use my_meridian.ProductLines.{}
use my_meridian.ProductTotals.{contains_id}

pub record Cohort : Type 0 where
  pub customers : ℕ
  pub cohort_profit_cents : ℤ

pub record DownstreamValue : Type 0 where
  pub by_product : Dict String Cohort
  pub store_downstream_cents : ℤ
  pub store_customers : ℕ

-- `byCustomer`: the orders of each customer, in the order of the list
unfoldable pub by_customer :
    List EngineOrder → Dict String (List EngineOrder) → Dict String (List EngineOrder)
by_customer [] buckets = buckets
by_customer (order ∷ orders) buckets = by_customer orders (file_bucket (truthy order.customer_id))
  where
    file_bucket : Option String → Dict String (List EngineOrder)
    file_bucket none = buckets
    file_bucket (some c) = insert c (or_else (lookup c buckets) [] ++ (order ∷ [])) buckets

abbrev pub by_time : EngineOrder → EngineOrder → Bool
by_time a b = leb a.processed_at b.processed_at

-- `laterProfit`
unfoldable pub later_profit : Dict String OrderProfit → List EngineOrder → ℤ
unfolding sum_cents
later_profit profits later = sum_cents (
    map
      (λ (o : EngineOrder). elim (lookup o.id profits) [
        | none ↦ pos 0
        | some p ↦ p.contribution_profit_cents
      ])
      later)

-- `new Set(first.lineItems.map((l) => l.productId).filter(...))`
abbrev pub add_id : Option String → List String → List String
add_id none ids = ids
add_id (some p) ids = if contains_id p ids then ids else ids ++ (p ∷ [])

unfoldable pub acquiring_products : List EngineLineItem → List String → List String
acquiring_products [] ids = ids
acquiring_products (item ∷ items) ids =
    acquiring_products items (add_id (truthy item.product_id) ids)

unfoldable pub credit_products : ℤ → List String → Dict String Cohort → Dict String Cohort
credit_products later [] cohorts = cohorts
credit_products later (p ∷ ps) cohorts =
    let current =
      or_else (lookup p cohorts) (record { customers = 0; cohort_profit_cents = pos 0 }) in
    credit_products later ps (
      insert p
        (record {
          customers = current.customers + 1;
          cohort_profit_cents = current.cohort_profit_cents +ℤ later;
        })
        cohorts)

-- A customer's orders, the earliest first: counted if the window saw the customer arrive.
unfoldable pub credit_sorted :
    Dict String OrderProfit → List EngineOrder → DownstreamValue → DownstreamValue
unfolding later_profit acquiring_products credit_products
credit_sorted profits [] value = value
credit_sorted profits (first ∷ rest) value =
    let later = later_profit profits rest in
    if first.is_first_order
    then record {
      by_product = credit_products later (acquiring_products first.line_items []) value.by_product;
      store_downstream_cents = value.store_downstream_cents +ℤ later;
      store_customers = value.store_customers + 1;
    }
    else value

unfoldable pub credit_customers :
    Dict String OrderProfit → Dict String (List EngineOrder) → DownstreamValue → DownstreamValue
unfolding credit_sorted
credit_customers profits [] value = value
credit_customers profits ((c, orders) ∷ buckets) value =
    credit_customers profits buckets (credit_sorted profits (sort by_time orders) value)

-- `computeDownstreamValue`
unfoldable pub compute_downstream_value :
    List EngineOrder → Dict String OrderProfit → DownstreamValue
unfolding by_customer credit_customers
compute_downstream_value orders profits =
    credit_customers profits (by_customer orders [])
      (record { by_product = []; store_downstream_cents = pos 0; store_customers = 0 })

-- `x ? Math.round(cents / x) : 0`
unfoldable pub rounded_average : ℤ → ℕ → ℤ
unfolding math_round
rounded_average cents n = if n == 0 then pos 0 else math_round cents n
