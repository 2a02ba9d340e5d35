-- ===== src/Tests/Revenue.antt =====
-- app/lib/revenue.ts and app/lib/plans.ts at concrete inputs.
use my_meridian.Base.{
  ◌+◌, ◌*◌, ◌==◌, if◌then◌else◌, ◌≡◌, refl, none, some, List, [], ◌∷◌, String, Option,
}
use my_meridian.Base.Text.{codes}
use my_meridian.CostHistory.{Instant}
use my_meridian.Revenue.{
  SubscriptionRow, SubscriptionEventRow, summarise_revenue, summarise_movement,
}
use my_meridian.Base.Table.{count_where}
use my_meridian.Revenue.Balance.{plans_mrr, plans_heads}
use my_meridian.Revenue.Totals.{revenue_from, is_subscriber, is_trialist, summarise_revenue-exact}

abbrev row_of : String → String → String → Option Instant → SubscriptionRow
row_of plan interval status trial_ends_at = record {
  plan = codes plan;
  interval = codes interval;
  status = codes status;
  trial_ends_at = trial_ends_at;
}

abbrev some_rows : List SubscriptionRow
some_rows =
    row_of "starter" "monthly" "active" none
    ∷ row_of "growth" "annual" "accepted" (some 500)
    ∷ row_of "scale" "monthly" "active" (some 2_000)
    ∷ row_of "scale" "monthly" "frozen" none
    ∷ []

summarise_revenue-some_rows : (summarise_revenue some_rows 1_000).mrr_cents ≡ some (4_900 + 12_417)
unfolding summarise_revenue
summarise_revenue-some_rows = refl

-- One of three ended within the window: 33.3 percent.
abbrev some_events : List SubscriptionEventRow
some_events =
    record { event_status = codes "cancelled"; occurred_at = 90_000_000 }
    ∷ record { event_status = codes "active"; occurred_at = 90_000_000 }
    ∷ record { event_status = codes "expired"; occurred_at = 10_000 }
    ∷ []

summarise_movement-some_events :
    (summarise_movement some_events 2 1 100_000_000).churn_rate ≡ some 333
unfolding summarise_movement
summarise_movement-some_events = refl

-- A plan named like a member of every object makes the monthly revenue NaN.
summarise_revenue-inherited :
    (summarise_revenue (row_of "constructor" "monthly" "active" none ∷ some_rows) 1_000).mrr_cents
    ≡ none
unfolding summarise_revenue
summarise_revenue-inherited = refl

summarise_revenue-exact_example :
    let r = summarise_revenue some_rows 1_000 in
    (r.by_plan.of_starter ≡ revenue_from "starter" 4_900 4_083 1_000 some_rows)
    × (r.by_plan.of_growth ≡ revenue_from "growth" 14_900 12_417 1_000 some_rows)
    × (r.by_plan.of_scale ≡ revenue_from "scale" 39_900 33_250 1_000 some_rows)
    × (r.active_subscribers ≡ count_where (is_subscriber 1_000) some_rows)
    × (r.trialing ≡ count_where (is_trialist 1_000) some_rows)
    × (r.mrr_cents ≡ (
        if r.active_subscribers == plans_heads r.by_plan then some (plans_mrr r.by_plan) else none))
    × (r.arr_cents ≡ elim r.mrr_cents [ none ↦ none | some n ↦ some (n * 12) ])
summarise_revenue-exact_example = summarise_revenue-exact some_rows 1_000
