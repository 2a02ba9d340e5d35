-- ===== src/Tests/Ads.antt =====
-- app/lib/ad-ingestion-plan.ts at concrete inputs.
use my_meridian.Base.{
  ℕ, ◌+◌, ◌-◌, ◌*◌, ◌^◌, min, ◌/◌, ◌≡◌, refl, not, ◌&&◌, some, [], ◌∷◌, ltb, leb, ◌==◌, arith,
}
use my_meridian.Base.Int.{pos, ◌≤ℤ◌, ◌+ℤ◌, ◌*ℤ◌}
use my_meridian.AdPlan.{
  SyncPlanInput, plan_sync_days, range_from, collect_days, mem, retry_backoff_ms,
}
use my_meridian.AdPlan.Days.{Ascending, is_planned, plan_sync_days-exact}
use my_meridian.AdPlan.Backoff.{retry_backoff_ms-bounds}

-- Day 103 was missed, and the last two days are polled again.
abbrev missed : SyncPlanInput
missed = record {
  today = 106;
  horizon_start = 101;
  synced_days = λ d. not (d == 103);
  lookback_days = 2;
  deep_lookback_days = 28;
  last_deep_sync_at = some 9_000_000_000;
  deep_cadence_days = 7;
}

missed-days : collect_days missed [] (range_from 10 101 106) ≡ 103 ∷ 105 ∷ 106 ∷ []
unfolding collect_days range_from
missed-days = refl

retry_backoff_ms-third : retry_backoff_ms 3 (record { num = pos 1; den = 2 }) ≡ pos 90_000
unfolding retry_backoff_ms ◌+ℤ◌ ◌*ℤ◌
retry_backoff_ms-third = refl

plan_sync_days-exact_example :
    Ascending (plan_sync_days missed).days
    × ((d : ℕ)
        → mem d (plan_sync_days missed).days
          ≡ ((leb 101 d && (leb d 106 && ltb d (101 + 5_001))) && is_planned missed d))
plan_sync_days-exact_example = plan_sync_days-exact missed

retry_backoff_ms-bounds_example :
    let ceiling = min 1_800_000 (30_000 * 2 ^ (3 - 1)) in
    let wait = retry_backoff_ms 3 (record { num = pos 1; den = 2 }) in
    (pos (ceiling / 2) ≤ℤ wait) × (wait ≤ℤ pos ceiling)
retry_backoff_ms-bounds_example = retry_backoff_ms-bounds 3 1 2 (omega arith) (omega arith)
