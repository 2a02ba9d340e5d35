-- ===== src/Revenue/Totals.antt =====
-- What `summariseRevenue` (app/lib/revenue.ts) counts and adds up.
use my_meridian.Base.{
  ℕ, ◌+◌, ◌*◌, ◌≡◌, refl, ◌∙◌, Bool, true, false, ◌&&◌, none, some, List, ◌==◌, if◌then◌else◌,
  arith, String,
}
use my_meridian.Base.Table.{count_where}
use my_meridian.Base.Text.{text_eq}
use my_meridian.CostHistory.{Instant}
use my_meridian.Plans.{starter, growth, scale, plan_of}
use my_meridian.Revenue.Balance.{plans_mrr, plans_heads, add_rows-Balanced}
use my_meridian.Revenue.{SubscriptionRow, PlanRevenue, no_sums, add_rows, summarise_revenue}
use my_meridian.Revenue.Charged.{
  is_charged, subscribes, is_found, is_in_trial, code_charged-is_charged, code_in_trial-is_in_trial,
}
use my_meridian.Revenue.Keys.{is_own-starter, is_own-growth, is_own-scale, plan_of-is_found}
use my_meridian.Revenue.Counting.{
  add_rows-count, tally, row_of-tally, row_of-subscribers, row_of-in_trial,
}

abbrev pub revenue_from : String → ℕ → ℕ → Instant → List SubscriptionRow → PlanRevenue
revenue_from key cents annual_cents now rows =
    let monthly = count_where (subscribes key false now) rows in
    let annual = count_where (subscribes key true now) rows in
    record {
      monthly = monthly;
      annual = annual;
      plan_mrr_cents = monthly * cents + annual * annual_cents;
    }

-- A text that `in PLANS` finds.
-- An active row that `in PLANS` finds: charged, or in its trial.
abbrev pub is_subscriber : Instant → SubscriptionRow → Bool
is_subscriber now row = is_charged now row && is_found row.plan

abbrev pub is_trialist : Instant → SubscriptionRow → Bool
is_trialist now row = is_in_trial now row && is_found row.plan

start-starter : {n : ℕ} (annual : Bool) → tally starter annual no_sums + n ≡ n
start-starter true = omega arith
start-starter false = omega arith

start-growth : {n : ℕ} (annual : Bool) → tally growth annual no_sums + n ≡ n
start-growth true = omega arith
start-growth false = omega arith

start-scale : {n : ℕ} (annual : Bool) → tally scale annual no_sums + n ≡ n
start-scale true = omega arith
start-scale false = omega arith

module _ (rows : List SubscriptionRow) (now : Instant) where
  subscribers-count : (add_rows rows now no_sums).subscribers ≡ count_where (is_subscriber now) rows
  subscribers-count =
      add_rows-count (λ s. s.subscribers) (is_subscriber now) now
        (λ row s.
          row_of-subscribers now (plan_of row.plan) row s
          ∙ rw (code_charged-is_charged now row, plan_of-is_found row.plan) refl)
        rows no_sums
      ∙ omega arith

  in_trial-count : (add_rows rows now no_sums).in_trial ≡ count_where (is_trialist now) rows
  in_trial-count =
      add_rows-count (λ s. s.in_trial) (is_trialist now) now
        (λ row s.
          row_of-in_trial now (plan_of row.plan) row s
          ∙ rw (code_in_trial-is_in_trial now row, plan_of-is_found row.plan) refl)
        rows no_sums
      ∙ omega arith

  starter-count :
      (annual : Bool)
      → tally starter annual (add_rows rows now no_sums)
        ≡ count_where (subscribes "starter" annual now) rows
  starter-count annual =
      add_rows-count (tally starter annual) (subscribes "starter" annual now) now
        (λ row s.
          row_of-tally starter annual now (plan_of row.plan) row s
          ∙ rw (code_charged-is_charged now row, is_own-starter row.plan) refl)
        rows no_sums
      ∙ start-starter annual

  growth-count :
      (annual : Bool)
      → tally growth annual (add_rows rows now no_sums)
        ≡ count_where (subscribes "growth" annual now) rows
  growth-count annual =
      add_rows-count (tally growth annual) (subscribes "growth" annual now) now
        (λ row s.
          row_of-tally growth annual now (plan_of row.plan) row s
          ∙ rw (code_charged-is_charged now row, is_own-growth row.plan) refl)
        rows no_sums
      ∙ start-growth annual

  scale-count :
      (annual : Bool)
      → tally scale annual (add_rows rows now no_sums)
        ≡ count_where (subscribes "scale" annual now) rows
  scale-count annual =
      add_rows-count (tally scale annual) (subscribes "scale" annual now) now
        (λ row s.
          row_of-tally scale annual now (plan_of row.plan) row s
          ∙ rw (code_charged-is_charged now row, is_own-scale row.plan) refl)
        rows no_sums
      ∙ start-scale annual

same_revenue :
    (r : PlanRevenue) (m a cents annual_cents : ℕ)
    → r.monthly ≡ m
    → r.annual ≡ a
    → r.plan_mrr_cents ≡ r.monthly * cents + r.annual * annual_cents
    → r ≡ record { monthly = m; annual = a; plan_mrr_cents = m * cents + a * annual_cents }
same_revenue r m a cents annual_cents p q h =
    let e : r.plan_mrr_cents ≡ m * cents + a * annual_cents = h ∙ rw (p, q) refl in
    λ i. record { monthly = p i; annual = q i; plan_mrr_cents = e i }

-- Of the rows whose status is active or accepted and whose trial, if any, is over by now, each plan
-- counts those of its key, apart by the annual interval and any other, and earns by them the monthly
-- price of 49, 149 or 399 dollars, and a rounded twelfth of the annual price of 490, 1,490 or 3,990.
-- Those of them whose plan `in PLANS` finds are the active subscribers, and such rows whose trial still
-- runs are the trialing ones. The monthly revenue is the sum of the plans', and the yearly twelve times
-- that, or both are NaN if some active subscriber is of no plan, its key being an inherited member.
pub summarise_revenue-exact :
    (rows : List SubscriptionRow) (now : Instant)
    → let r = summarise_revenue rows now in
      (r.by_plan.of_starter ≡ revenue_from "starter" 4_900 4_083 now rows)
      × (r.by_plan.of_growth ≡ revenue_from "growth" 14_900 12_417 now rows)
      × (r.by_plan.of_scale ≡ revenue_from "scale" 39_900 33_250 now rows)
      × (r.active_subscribers ≡ count_where (is_subscriber now) rows)
      × (r.trialing ≡ count_where (is_trialist now) rows)
      × (r.mrr_cents ≡ (
          if r.active_subscribers == plans_heads r.by_plan
          then some (plans_mrr r.by_plan)
          else none))
      × (r.arr_cents ≡ elim r.mrr_cents [ none ↦ none | some n ↦ some (n * 12) ])
unfolding summarise_revenue
summarise_revenue-exact rows now =
    let s = add_rows rows now no_sums in
    let b = add_rows-Balanced rows now no_sums (record {
      total = refl;
      people = omega arith;
      starter_pays = refl;
      growth_pays = refl;
      scale_pays = refl;
    }) in
    (
      same_revenue s.plans.of_starter _ _ 4_900 4_083 (starter-count rows now false)
          (starter-count rows now true) b.starter_pays,
      same_revenue s.plans.of_growth _ _ 14_900 12_417 (growth-count rows now false)
          (growth-count rows now true) b.growth_pays,
      same_revenue s.plans.of_scale _ _ 39_900 33_250 (scale-count rows now false)
          (scale-count rows now true) b.scale_pays,
      subscribers-count rows now,
      in_trial-count rows now,
      b.total,
      refl,
    )
