-- ===== src/Revenue.antt =====
-- app/lib/revenue.ts: what the app earns from its own subscriptions, over rows that were read. The
-- plan and the interval of an event, which nothing reads, are left out.
pub mod Balance
pub mod Charged
pub mod Keys
pub mod Counting
pub mod Totals
use my_meridian.Base.{
  ℕ, ◌+◌, ◌*◌, ◌/◌, Bool, true, false, ◌||◌, Option, none, some, List, [], ◌∷◌, ltb, if◌then◌else◌,
}
use my_meridian.Base.Keys.{◌=?◌}
use my_meridian.Base.Text.{Text, text_eq, codes}
use my_meridian.Calendar.{day_ms}
use my_meridian.CostHistory.{Instant}
use my_meridian.Plans.{
  PlanId, PlanEntry, own, inherited, starter, growth, scale, price, annual_price, plan_of,
}

pub record SubscriptionRow : Type 0 where
  pub plan : Text
  pub interval : Text
  pub status : Text
  pub trial_ends_at : Option Instant

pub record SubscriptionEventRow : Type 0 where
  pub event_status : Text
  pub occurred_at : Instant

-- `ACTIVE.has(status)`, and `ENDED.has(status)`
unfoldable pub is_active : Text → Bool
is_active status = (status =? codes "active") || (status =? codes "accepted")

unfoldable pub is_ended : Text → Bool
is_ended status =
    (status =? codes "cancelled")
    || (status =? codes "canceled")
    || (status =? codes "expired")
    || (status =? codes "declined")
    || (status =? codes "frozen")

abbrev pub is_annual : Text → Bool
is_annual interval = interval =? codes "annual"

-- `Math.round(n / d)`, where n is not negative.
abbrev pub round_quotient : ℕ → ℕ → ℕ
round_quotient n d = (2 * n + d) / (2 * d)

-- `monthlyCentsFor`
unfoldable pub monthly_cents_for : PlanId → Bool → ℕ
unfolding price annual_price
monthly_cents_for plan annual =
    if annual then round_quotient (annual_price plan * 100) 12 else price plan * 100

pub record PlanRevenue : Type 0 where
  pub monthly : ℕ
  pub annual : ℕ
  pub plan_mrr_cents : ℕ

-- `RevenueSummary["byPlan"]`
pub record ByPlan : Type 0 where
  pub of_starter : PlanRevenue
  pub of_growth : PlanRevenue
  pub of_scale : PlanRevenue

-- An amount of cents is `none` where the source has NaN.
pub record RevenueSummary : Type 0 where
  pub mrr_cents : Option ℕ
  pub arr_cents : Option ℕ
  pub active_subscribers : ℕ
  pub trialing : ℕ
  pub by_plan : ByPlan

-- `byPlan[plan]`, and a write to it.
abbrev pub revenue_of : PlanId → ByPlan → PlanRevenue
revenue_of starter b = b.of_starter
revenue_of growth b = b.of_growth
revenue_of scale b = b.of_scale

abbrev pub write_revenue : PlanId → PlanRevenue → ByPlan → ByPlan
write_revenue starter r b = record b { of_starter = r }
write_revenue growth r b = record b { of_growth = r }
write_revenue scale r b = record b { of_scale = r }

-- The variables of the loop.
pub record RevenueSums : Type 0 where
  pub cents : Option ℕ
  pub subscribers : ℕ
  pub in_trial : ℕ
  pub plans : ByPlan

unfoldable pub count_plan : Bool → ℕ → PlanRevenue → PlanRevenue
count_plan true cents r = record {
  monthly = r.monthly;
  annual = r.annual + 1;
  plan_mrr_cents = r.plan_mrr_cents + cents;
}
count_plan false cents r = record {
  monthly = r.monthly + 1;
  annual = r.annual;
  plan_mrr_cents = r.plan_mrr_cents + cents;
}

-- `mrrCents += cents`
abbrev pub add_cents : ℕ → Option ℕ → Option ℕ
add_cents cents none = none
add_cents cents (some n) = some (n + cents)

unfoldable pub add_subscriber : PlanId → Bool → RevenueSums → RevenueSums
unfolding monthly_cents_for count_plan
add_subscriber plan annual s =
    let cents = monthly_cents_for plan annual in
    record {
      cents = add_cents cents s.cents;
      subscribers = s.subscribers + 1;
      in_trial = s.in_trial;
      plans = write_revenue plan (count_plan annual cents (revenue_of plan s.plans)) s.plans;
    }

-- A row whose plan is an inherited member: its price is undefined, so the sum is NaN from then on. The
-- counts that the loop writes on that member itself, which `byPlan` inherits too, are left out.
abbrev pub add_inherited : RevenueSums → RevenueSums
add_inherited s = record s { cents = none; subscribers = s.subscribers + 1 }

abbrev pub add_entry : PlanEntry → Bool → RevenueSums → RevenueSums
add_entry (own plan) annual s = add_subscriber plan annual s
add_entry inherited annual s = add_inherited s

-- `row.trialEndsAt && row.trialEndsAt.getTime() > now.getTime()`
unfoldable pub is_trialing : Option Instant → Instant → Bool
is_trialing none now = false
is_trialing (some ends_at) now = ltb now ends_at

unfoldable pub add_row_of : Option PlanEntry → SubscriptionRow → Instant → RevenueSums → RevenueSums
unfolding is_trialing add_subscriber
add_row_of none row now s = s
add_row_of (some entry) row now s =
    if is_trialing row.trial_ends_at now
    then record s { in_trial = s.in_trial + 1 }
    else add_entry entry (is_annual row.interval) s

unfoldable pub add_rows : List SubscriptionRow → Instant → RevenueSums → RevenueSums
unfolding is_active plan_of add_row_of
add_rows [] now s = s
add_rows (row ∷ rows) now s =
    add_rows rows now (if is_active row.status then add_row_of (plan_of row.plan) row now s else s)

abbrev pub no_revenue : PlanRevenue
no_revenue = record { monthly = 0; annual = 0; plan_mrr_cents = 0 }

abbrev pub no_sums : RevenueSums
no_sums = record {
  cents = some 0;
  subscribers = 0;
  in_trial = 0;
  plans = record { of_starter = no_revenue; of_growth = no_revenue; of_scale = no_revenue };
}

-- `summariseRevenue`
unfoldable pub summarise_revenue : List SubscriptionRow → Instant → RevenueSummary
unfolding add_rows
summarise_revenue rows now =
    let s = add_rows rows now no_sums in
    record {
      mrr_cents = s.cents;
      arr_cents = elim s.cents [ none ↦ none | some n ↦ some (n * 12) ];
      active_subscribers = s.subscribers;
      trialing = s.in_trial;
      by_plan = s.plans;
    }

pub record MovementSummary : Type 0 where
  pub window_days : ℕ
  pub started : ℕ
  pub ended : ℕ
  -- `churnRatePct`, in tenths of a percent.
  pub churn_rate : Option ℕ

-- The loop over the events: how many started and ended. An instant less a window is before the
-- earliest `Date` where the window is longer, so the window is added to the other side.
unfoldable pub count_movement : List SubscriptionEventRow → ℕ → Instant → ℕ × ℕ → ℕ × ℕ
unfolding is_active is_ended
count_movement [] window now n = n
count_movement (event ∷ events) window now (started, ended) = count_movement events window now (
    if ltb (event.occurred_at + window) now
    then (started, ended)
    else if is_active event.event_status
    then (started + 1, ended)
    else if is_ended event.event_status
    then (started, ended + 1)
    else (started, ended))

-- `summariseMovement`
unfoldable pub summarise_movement : List SubscriptionEventRow → ℕ → ℕ → Instant → MovementSummary
unfolding count_movement
summarise_movement events active_now window_days now =
    let (started, ended) = count_movement events (window_days * day_ms) now (0, 0) in
    let base = active_now + ended in
    record {
      window_days = window_days;
      started = started;
      ended = ended;
      churn_rate = if ltb 0 base then some (round_quotient (ended * 1_000) base) else none;
    }
