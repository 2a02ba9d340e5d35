-- ===== src/UsageMeter.antt =====
-- app/lib/usage-meter.server.ts: the meters of a shop's months, and the policy of a plan. The rows are
-- `UsageMeter` and `UsageMeterEvent` of prisma/schema.prisma; an event's own id is left out, and a
-- month stands for its first instant.
use my_meridian.Base.{
  ℕ, ◌+◌, Bool, ◌&&◌, Option, none, some, List, [], ◌∷◌, ltb, leb, ◌==◌, if◌then◌else◌, String,
  or_else,
}
use my_meridian.Base.Keys.{◌=?◌, string_eq}
use my_meridian.Calendar.{Month, month_eq, utc_day}
use my_meridian.CostHistory.{Instant}

pub data UsageMeterStatus : Type 0 where
  under_limit soft_overage cap_reached suspended : UsageMeterStatus

pub record MeterPolicy : Type 0 where
  pub soft_limit : ℕ
  pub hard_limit : ℕ

abbrev pub default_meter_policy : MeterPolicy
default_meter_policy = record { soft_limit = 1_000; hard_limit = 1_200 }

-- `POLICY_BY_PLAN[plan] ?? DEFAULT_METER_POLICY`
abbrev pub policy_by_plan : String → MeterPolicy
policy_by_plan plan =
    if plan =? "growth"
    then record { soft_limit = 5_000; hard_limit = 6_000 }
    else if plan =? "scale"
    then record { soft_limit = 20_000; hard_limit = 24_000 }
    else default_meter_policy

-- `meterPolicyForPlan`
unfoldable pub meter_policy_for_plan : Option String → MeterPolicy
meter_policy_for_plan plan_name = policy_by_plan (or_else plan_name "starter")

-- `usageMeterStatus`
unfoldable pub usage_meter_status : ℕ → ℕ → ℕ → UsageMeterStatus
usage_meter_status used soft_limit hard_limit =
    if leb hard_limit used
    then cap_reached
    else if ltb soft_limit used
    then soft_overage
    else under_limit

-- `utcMonthBounds`
unfoldable pub utc_month_bounds : Instant → Month × Month
unfolding utc_day
utc_month_bounds now =
    let m = (utc_day now).in_month in
    (
      m,
      if m.month == 12
          then record { year = m.year + 1; month = 1 }
          else record { year = m.year; month = m.month + 1 },
    )

pub record UsageMeter : Type 0 where
  pub id : ℕ
  pub shop_id : String
  pub metric : String
  pub period_start : Month
  pub period_end : Month
  pub used : ℕ
  pub soft_limit : ℕ
  pub hard_limit : ℕ
  pub status : UsageMeterStatus
  pub billed_units : ℕ
  pub billing_attempts : ℕ
  pub billing_error : Option String
  pub last_billing_attempt_at : Option Instant
  pub last_usage_record_id : Option String
  pub overage_notified_at : Option Instant
  pub cap_warning_notified_at : Option Instant

pub record UsageMeterEvent : Type 0 where
  pub event_shop_id : String
  pub meter_id : ℕ
  pub source : String
  pub source_id : String

pub record UsageTables : Type 0 where
  pub meters : List UsageMeter
  pub events : List UsageMeterEvent

-- What the transaction reads of the shop.
pub record MeterShop : Type 0 where
  pub plan_name : Option String
  pub uninstalled : Bool
  pub subscription_plan : Option String

pub record UsageRecordResult : Type 0 where
  pub counted : Bool
  pub result_meter_id : ℕ
  pub result_used : ℕ
  pub result_status : UsageMeterStatus
  pub crossed_soft_limit : Bool

abbrev pub find_meter : (UsageMeter → Bool) → List UsageMeter → Option UsageMeter
find_meter p [] = none
find_meter p (m ∷ ms) = if p m then some m else find_meter p ms

-- The unique key `shopId_metric_periodStart`.
abbrev pub of_period : String → String → Month → UsageMeter → Bool
of_period shop metric start m = m.shop_id =? shop && m.metric =? metric && m.period_start =? start

abbrev pub has_id : ℕ → UsageMeter → Bool
has_id id m = m.id == id

abbrev pub of_source : String → UsageMeterEvent → Bool
of_source source_id e = e.source_id =? source_id
