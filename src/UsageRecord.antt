-- ===== src/UsageRecord.antt =====
-- app/lib/usage-meter.server.ts: orders counted once a month and shop, as the transaction of
-- `recordOrderUsage` on the two tables, and its retries.
pub mod Counting
pub mod Retry
use my_meridian.Base.{
  ℕ, zero, suc, ◌+◌, ◌-◌, Bool, true, false, not, ◌&&◌, ◌||◌, Option, none, some, List, [], ◌∷◌,
  ltb, leb, ◌==◌, if◌then◌else◌, String, or_else,
}
use my_meridian.Base.Keys.{◌=?◌, string_eq}
use my_meridian.Base.Table.{update_many, count_where, append_row}
use my_meridian.Calendar.{Month, month_eq, utc_day}
use my_meridian.CostHistory.{Instant}
use my_meridian.UsageMeter.{
  UsageMeterStatus, MeterPolicy, default_meter_policy, policy_by_plan, meter_policy_for_plan,
  usage_meter_status, utc_month_bounds, UsageMeter, UsageMeterEvent, UsageTables, MeterShop,
  UsageRecordResult, find_meter, of_period, has_id, of_source, under_limit, soft_overage,
  cap_reached, suspended,
}

abbrev pub new_meter : ℕ → String → Instant → MeterShop → UsageMeter
new_meter id shop_id now shop =
    let policy =
      meter_policy_for_plan
        (elim shop.subscription_plan [ none ↦ shop.plan_name | some plan ↦ some plan ]) in
    record {
      id = id;
      shop_id = shop_id;
      metric = "orders";
      period_start = (utc_month_bounds now).0;
      period_end = (utc_month_bounds now).1;
      used = 0;
      soft_limit = policy.soft_limit;
      hard_limit = policy.hard_limit;
      status = if shop.uninstalled then suspended else under_limit;
      billed_units = 0;
      billing_attempts = 0;
      billing_error = none;
      last_billing_attempt_at = none;
      last_usage_record_id = none;
      overage_notified_at = none;
      cap_warning_notified_at = none;
    }

abbrev pub increment_used : UsageMeter → UsageMeter
increment_used m = record m { used = m.used + 1 }

-- `statusWhere`
abbrev pub status_where : MeterShop → UsageMeter → ℕ → UsageMeter → Bool
status_where shop meter used m =
    if shop.uninstalled
    then has_id meter.id m
    else if leb meter.hard_limit used
    then has_id meter.id m && leb meter.hard_limit m.used
    else if ltb meter.soft_limit used
    then has_id meter.id m && ltb meter.soft_limit m.used && ltb m.used meter.hard_limit
    else has_id meter.id m && leb m.used meter.soft_limit

-- `...(condition && !before ? { field: now } : {})`
abbrev pub notified : Bool → Option Instant → Instant → Option Instant → Option Instant
notified true none now field = some now
notified true (some before) now field = field
notified false before now field = field

abbrev pub with_status : MeterShop → UsageMeter → ℕ → Instant → UsageMeter → UsageMeter
with_status shop meter used now m = record m {
  status =
      if shop.uninstalled
      then suspended
      else usage_meter_status used meter.soft_limit meter.hard_limit;
  overage_notified_at =
      notified (ltb meter.soft_limit used) meter.overage_notified_at now m.overage_notified_at;
  cap_warning_notified_at =
      notified (leb meter.hard_limit used) meter.cap_warning_notified_at now
        m.cap_warning_notified_at;
}

-- The `upsert` of the meter: the row of the month, created where there is none.
unfoldable pub upsert_meter :
    ℕ → String → Instant → MeterShop → List UsageMeter → UsageMeter × List UsageMeter
unfolding meter_policy_for_plan utc_month_bounds
upsert_meter id shop_id now shop ms =
    elim (find_meter (of_period shop_id "orders" (utc_month_bounds now).0) ms) [
      | some m ↦ (m, ms)
      | none ↦ let m = new_meter id shop_id now shop in (m, append_row ms m)
    ]

-- The rest of the transaction, for an order that was not counted yet.
unfoldable pub count_event :
    String
    → String
    → Instant
    → MeterShop
    → UsageMeter
    → List UsageMeter
    → UsageTables
    → Option UsageRecordResult × UsageTables
unfolding usage_meter_status
count_event shop_id source_id now shop meter meters t =
    let event : UsageMeterEvent = record {
      event_shop_id = shop_id;
      meter_id = meter.id;
      source = "order";
      source_id = source_id;
    } in
    let incremented = update_many (has_id meter.id) increment_used meters in
    elim (find_meter (has_id meter.id) incremented) [
      | none ↦ (none, t)
      | some updated ↦ (
        some (record {
          counted = true;
          result_meter_id = updated.id;
          result_used = updated.used;
          result_status = updated.status;
          crossed_soft_limit = updated.used == meter.soft_limit + 1;
        }),
        record {
          meters =
              update_many (status_where shop meter updated.used)
                (with_status shop meter updated.used now) incremented;
          events = append_row t.events event;
        },
      )
    ]

-- What a replay returns.
abbrev pub replayed : UsageMeter → UsageRecordResult
replayed meter = record {
  counted = false;
  result_meter_id = meter.id;
  result_used = meter.used;
  result_status = meter.status;
  crossed_soft_limit = false;
}

-- The transaction of `recordOrderUsage`, `none` where it throws and is rolled back. Whether the
-- database keeps the upserted meter of a transaction whose insert was refused is an argument.
unfoldable pub record_transaction :
    Bool
    → ℕ
    → String
    → String
    → Instant
    → Option MeterShop
    → UsageTables
    → Option UsageRecordResult × UsageTables
unfolding upsert_meter count_event
record_transaction keeps id shop_id source_id now none t = (none, t)
record_transaction keeps id shop_id source_id now (some shop) t =
    let upserted = upsert_meter id shop_id now shop t.meters in
    if ltb 0 (count_where (of_source source_id) t.events)
    then (
      some (replayed upserted.0),
      if keeps then record { meters = upserted.1; events = t.events } else t,
    )
    else count_event shop_id source_id now shop upserted.0 upserted.1 t

-- How an attempt ends: at the end of the transaction, with an error that is worth a retry (a
-- serialization failure or a refused insert), or with another one.
pub data Ending : Type 0 where
  completes conflict fails : Ending

-- The loop of `recordOrderUsage`: `before` is what others do before an attempt.
unfoldable pub record_loop :
    ℕ
    → ℕ
    → (ℕ → UsageTables → UsageTables)
    → (ℕ → Ending)
    → (UsageTables → Option UsageRecordResult × UsageTables)
    → UsageTables
    → Option UsageRecordResult × UsageTables
record_loop zero attempt before ends run t = (none, t)
record_loop (suc fuel) attempt before ends run t =
    let found = before attempt t in
    let again = record_loop fuel (attempt + 1) before ends run found in
    elim (ends attempt) [
      | completes ↦ run found
      | conflict ↦ if ltb attempt 7 then again else (none, found)
      | fails ↦ (none, found)
    ]

-- `recordOrderUsage`
unfoldable pub record_order_usage :
    Bool
    → ℕ
    → String
    → String
    → Instant
    → Option MeterShop
    → (ℕ → UsageTables → UsageTables)
    → (ℕ → Ending)
    → UsageTables
    → Option UsageRecordResult × UsageTables
unfolding record_loop record_transaction
record_order_usage keeps id shop_id source_id now shop before ends =
    record_loop 8 0 before ends (record_transaction keeps id shop_id source_id now shop)
