-- ===== src/Products.antt =====
-- app/engine/products.ts: `computeProductProfitability`, the profit of products and their class.
pub mod Costs
use my_meridian.Base.{
  ℕ, suc, ◌+◌, ◌*◌, Bool, true, false, ◌&&◌, ◌||◌, Option, none, some, List, [], ◌∷◌, ◌++◌, map,
  length, ◌==◌, if◌then◌else◌, or_else, leb, ltb, String,
}
use my_meridian.Base.Int.{ℤ, pos, ◌+ℤ◌, ◌-ℤ◌, ◌*ℤ◌, ◌==ℤ◌, ltb_ℤ, leb_ℤ, pos_part}
use my_meridian.Base.Keys.{◌=?◌, string_eq, Dict, lookup, insert}
use my_meridian.Base.Sort.{sort}
use my_meridian.Money.{Rate, math_round, ratio, sum_cents}
use my_meridian.Orders.{EngineLineItem, EngineOrder}
use my_meridian.Profit.{OrderProfit}
use my_meridian.ProductTotals.{ProductTotal, profit_by_order, collect_totals}
use my_meridian.ProductCohorts.{Cohort, DownstreamValue, compute_downstream_value, rounded_average}
use my_meridian.ProductLines.{LineAllocation, allocate_order_to_products}

pub data ProductClass : Type 0 where
  profitable strategic_loss_leader bleeding thin_margin : ProductClass

-- `MIN_COHORT_FOR_STRATEGIC`
abbrev pub min_cohort_for_strategic : ℕ
min_cohort_for_strategic = 5

pub record ProductMeta : Type 0 where
  pub meta_title : String
  pub image_url : Option String
  pub product_type : Option String
  pub vendor : Option String

pub record ProductProfit : Type 0 where
  pub product_id : String
  pub product_meta : ProductMeta
  pub product_units : ℤ
  pub orders_containing : ℕ
  pub product_gross_cents : ℤ
  pub product_discount_cents : ℤ
  pub product_net_cents : ℤ
  pub product_cogs_cents : ℤ
  pub allocated_shipping_cents : ℤ
  pub allocated_payment_fee_cents : ℤ
  pub allocated_pick_pack_cents : ℤ
  pub allocated_ad_cost_cents : ℤ
  pub product_contribution_cents : ℤ
  pub margin_pct : Option Rate
  pub profit_per_unit_cents : ℤ
  pub product_missing_cogs : Bool
  pub product_modeled_costs : Bool
  pub classification : ProductClass
  pub acquired_customers : ℕ
  pub downstream_profit_cents : ℤ
  pub downstream_profit_per_customer_cents : ℤ
  pub attach_rate_pct : Option Rate
  pub revenue_share_pct : Option Rate

-- `marginPct !== null && marginPct < THIN_MARGIN_THRESHOLD`, a tenth
abbrev pub is_thin : Option Rate → Bool
is_thin none = false
is_thin (some r) = ltb_ℤ (pos 10 *ℤ r.num) (pos r.den)

-- The class of a product; the uplift threshold is five quarters.
unfoldable pub classify_product : ℤ → Option Rate → ℕ → ℤ → ℤ → ℤ → ProductClass
classify_product contribution margin acquired downstream per_customer store_average =
    if ltb_ℤ (pos 0) contribution
    then (if is_thin margin then thin_margin else profitable)
    else if leb min_cohort_for_strategic acquired
        && ltb_ℤ (pos 0 -ℤ contribution) downstream
        && ltb_ℤ (pos 5 *ℤ store_average) (pos 4 *ℤ per_customer)
    then strategic_loss_leader
    else bleeding

abbrev pub unknown_product : ProductMeta
unknown_product = record {
  meta_title = "Unknown product";
  image_url = none;
  product_type = none;
  vendor = none;
}

abbrev pub no_cohort : Cohort
no_cohort = record { customers = 0; cohort_profit_cents = pos 0 }

abbrev pub contribution_of : ProductTotal → ℤ
contribution_of t =
    t.total_net -ℤ t.total_cogs -ℤ t.total_shipping -ℤ t.total_payment -ℤ t.total_pick_pack
    -ℤ t.total_ad

-- The product of an entry of `totals`.
unfoldable pub product_profit :
    Dict String ProductMeta → DownstreamValue → ℕ → ℤ → String × ProductTotal → ProductProfit
unfolding classify_product rounded_average ratio
product_profit products value total_orders total_net_revenue (id, t) =
    let contribution = contribution_of t in
    let margin = ratio contribution t.total_net in
    let cohort = or_else (lookup id value.by_product) no_cohort in
    let per_customer = rounded_average cohort.cohort_profit_cents cohort.customers in
    let average = rounded_average value.store_downstream_cents value.store_customers in
    record {
      product_id = id;
      product_meta = or_else (lookup id products) unknown_product;
      product_units = t.total_units;
      orders_containing = t.total_orders;
      product_gross_cents = t.total_gross;
      product_discount_cents = t.total_discount;
      product_net_cents = t.total_net;
      product_cogs_cents = t.total_cogs;
      allocated_shipping_cents = t.total_shipping;
      allocated_payment_fee_cents = t.total_payment;
      allocated_pick_pack_cents = t.total_pick_pack;
      allocated_ad_cost_cents = t.total_ad;
      product_contribution_cents = contribution;
      margin_pct = margin;
      profit_per_unit_cents = rounded_average contribution (pos_part t.total_units);
      product_missing_cogs = t.total_missing_cogs;
      product_modeled_costs = t.total_modeled_costs;
      classification =
          classify_product contribution margin cohort.customers cohort.cohort_profit_cents
            per_customer average;
      acquired_customers = cohort.customers;
      downstream_profit_cents = cohort.cohort_profit_cents;
      downstream_profit_per_customer_cents = per_customer;
      attach_rate_pct = ratio (pos t.total_orders) (pos total_orders);
      revenue_share_pct = ratio t.total_net total_net_revenue;
    }

-- `(a, b) => b.contributionProfitCents - a.contributionProfitCents`, at most zero
abbrev pub by_contribution : ProductProfit → ProductProfit → Bool
by_contribution a b = leb_ℤ b.product_contribution_cents a.product_contribution_cents

-- `computeProductProfitability`
unfoldable pub compute_product_profitability :
    List EngineOrder → List OrderProfit → Dict String ProductMeta → List ProductProfit
unfolding profit_by_order collect_totals compute_downstream_value sum_cents product_profit
compute_product_profitability orders order_profits products =
    let profits = profit_by_order order_profits [] in
    let value = compute_downstream_value orders profits in
    let revenue = sum_cents (map (λ (p : OrderProfit). p.net_revenue_cents) order_profits) in
    sort by_contribution (
      map (product_profit products value (length orders) revenue)
        (collect_totals profits orders []))
