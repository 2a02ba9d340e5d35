-- ===== src/Tests/Usage.antt =====
-- app/lib/usage-meter.server.ts at concrete inputs.
use my_meridian.Base.{
  ℕ, ◌*◌, ◌/◌, ◌≤◌, ◌<◌, ◌≡◌, refl, true, false, none, some, List, [], ◌∷◌, All, arith, inl, map,
  if◌then◌else◌, ltb,
}
use my_meridian.Base.Int.{pos, ◌-ℤ◌}
use my_meridian.CostHistory.{Instant}
use my_meridian.UsageMeter.{
  UsageMeter, UsageTables, MeterShop, under_limit, soft_overage, meter_policy_for_plan,
}
use my_meridian.UsageRecord.{
  Ending, completes, conflict, new_meter, record_transaction, record_order_usage,
}
use my_meridian.UsageRecord.Counting.{Refines, spec_record, record_transaction-Refines}
use my_meridian.UsageRecord.Retry.{interfered, record_order_usage-completes}
use my_meridian.UsageBilling.{
  UsageLineItem, BillOutcome, unclaimed, usage_charge, bill_soft_order_overage,
}
use my_meridian.UsageBilling.Charges.{Within, bill-Within}
use my_meridian.UsageBilling.Once.{IsBilled, recorded, second_bill_records_nothing}
use native.Mathlib.Nat.{div-mul-le_self}

-- 2026-08-06.
abbrev august : Instant
august = 8_641_785_974_400_000

abbrev growth_shop : MeterShop
growth_shop = record { plan_name = none; uninstalled = false; subscription_plan = some "growth" }

abbrev empty_tables : UsageTables
empty_tables = record { meters = []; events = [] }

abbrev one_counted : UsageTables
one_counted = (record_transaction true 7 "s" "order:1" august (some growth_shop) empty_tables).1

abbrev meter_at : ℕ → ℕ → UsageMeter
meter_at used units = record (new_meter 7 "s" august growth_shop) {
  used = used;
  billed_units = units;
}

replay-counts_once :
    (record_transaction true 8 "s" "order:1" august (some growth_shop) one_counted).0
    ≡ some (record {
      counted = false;
      result_meter_id = 7;
      result_used = 1;
      result_status = under_limit;
      crossed_soft_limit = false;
    })
unfolding record_transaction
replay-counts_once = refl

unknown_shop-throws :
    record_transaction true 8 "s" "order:1" august none one_counted ≡ (none, one_counted)
unfolding record_transaction
unknown_shop-throws = refl

-- The order that crosses the soft limit is reported with the status of the row before it.
crossing-reports_old_status :
    let out =
      record_transaction true 8 "s" "order:2" august
        (some growth_shop)
        (record { meters = meter_at 5_000 0 ∷ []; events = [] }) in
    (out.0
      ≡ some (record {
        counted = true;
        result_meter_id = 7;
        result_used = 5_001;
        result_status = under_limit;
        crossed_soft_limit = true;
      }))
    × (map (λ (m : UsageMeter). m.status) out.1.meters ≡ soft_overage ∷ [])
unfolding record_transaction
crossing-reports_old_status = (refl, refl)

abbrev usage_item : ℕ → UsageLineItem
usage_item used = record { item_id = "item"; capped_amount = pos 5_000; balance_used = pos used }

abbrev by_five : ℕ → ℕ
by_five c = c / 5

-- Seven cents are left under the cap: seven are charged, for one unit of five.
charge-above_units :
    let charge = usage_charge by_five (meter_at 5_120 0) (usage_item 4_993) in
    (charge.price_cents ≡ 7) × (charge.key_target ≡ 1)
unfolding usage_charge ◌-ℤ◌ meter_policy_for_plan
charge-above_units = (refl, refl)

record_transaction-Refines_example :
    Refines
      (record_transaction true 8 "s" "order:2" august (some growth_shop) one_counted)
      (spec_record "order:2" ("order:1" ∷ []))
unfolding record_transaction
record_transaction-Refines_example =
    record_transaction-Refines true 8 "s" "order:2" august growth_shop one_counted ("order:1" ∷ [])
      refl (refl, (refl, tt))

abbrev second_completes : ℕ → Ending
second_completes k = if ltb k 1 then conflict else completes

first_conflicts : (i : ℕ) → i < 1 → second_completes i ≡ conflict
first_conflicts i h = ground arith

record_order_usage-completes_example :
    record_order_usage true 7 "s" "order:1" august
      (some growth_shop)
      (λ k t. t)
      second_completes
      empty_tables
    ≡ record_transaction true 7 "s" "order:1" august
        (some growth_shop)
        (interfered (λ k t. t) 2 0 empty_tables)
record_order_usage-completes_example =
    record_order_usage-completes true 7 "s" "order:1" august (some growth_shop) (λ k t. t)
      second_completes empty_tables 1 (omega arith) first_conflicts refl

by_five-exact : (c : ℕ) → by_five c * 5 ≤ c
by_five-exact c = div-mul-le_self c 5

bill-Within_example :
    All Within
      (bill_soft_order_overage by_five
        (some (meter_at 5_120 0))
        (some (some (usage_item 0)))
        (some "record")
        august
        (meter_at 5_121 0 ∷ [])).1
bill-Within_example =
    bill-Within by_five by_five-exact (meter_at 5_120 0) (some (some (usage_item 0)))
      (some "record") august (meter_at 5_121 0 ∷ []) ((λ h. (refl, omega arith)), tt) (inl refl, tt)

abbrev first_bill : BillOutcome × List UsageMeter
first_bill =
    bill_soft_order_overage by_five (some (meter_at 5_120 0)) (some (some (usage_item 0)))
      (some "record") august (meter_at 5_121 0 ∷ [])

first_bill-IsBilled : IsBilled first_bill.0
unfolding bill_soft_order_overage ◌-ℤ◌ meter_policy_for_plan
first_bill-IsBilled = tt

-- The second call's charge stands at Shopify, unrecorded.
second_bill-unclaimed :
    (bill_soft_order_overage by_five
      (some (meter_at 5_120 0))
      (some (some (usage_item 0)))
      (some "another")
      august
      first_bill.1).0
    ≡ unclaimed "another"
unfolding bill_soft_order_overage ◌-ℤ◌ meter_policy_for_plan
second_bill-unclaimed = refl

second_bill_records_nothing_example :
    let second =
      bill_soft_order_overage by_five
        (some (meter_at 5_120 0))
        (some (some (usage_item 0)))
        (some "another")
        august
        first_bill.1 in
    (IsBilled second.0 → ⊥) × (recorded second.1 ≡ recorded first_bill.1)
second_bill_records_nothing_example =
    second_bill_records_nothing by_five (meter_at 5_120 0) (some (some (usage_item 0)))
      (some (some (usage_item 0))) (some "record") (some "another") august august
      (meter_at 5_121 0 ∷ []) first_bill-IsBilled
