-- ===== src/Tests/Leases.antt =====
-- app/lib/backfill-claim.server.ts and app/integrations/lease.server.ts at concrete inputs.
use my_meridian.Base.{
  ℕ, true, false, Option, none, some, ◌≡◌, ◌≢◌, refl, arith, ltb, leb, ◌+◌, if◌then◌else◌,
}
use my_meridian.Base.Int.{pos}
use my_meridian.Base.Keys.{string_eq}
use my_meridian.Backfill.{
  Shop, claimed, active, claim_from, Data, renew_backfill_lease, update_backfill_progress,
  complete_backfill, fail_backfill, running, failed, complete, lease_ms, OrderResumePoint,
}
use my_meridian.Backfill.Ownership.{claims_once, former_owner_is_fenced}
use my_meridian.Backfill.Claims.{lease_expires, winning_claim}
use my_meridian.ConnectorLease.{
  Connector, claim_connector_work, beat, release_connector_work, is_free, holds, Work,
  work_lease_ms,
}
use my_meridian.ConnectorLease.Exclusion.{claim_excludes, leased_row}

-- A shop whose last import failed after two hundred orders.
abbrev failed_shop : Shop
failed_shop = record {
  sync_status = failed;
  sync_started_at = some 1_000;
  sync_completed_at = none;
  sync_run_token = none;
  sync_lease_expires_at = none;
  sync_cursor = some "page 4";
  synced_orders = pos 200;
  synced_products = pos 30;
  sync_stage = none;
  sync_error = some "timeout";
}

abbrev place : Option OrderResumePoint
place = some (record { cursor = "page 4"; imported_orders = pos 200 })

first_claim-wins : (claim_from failed_shop 7 5_000 failed_shop).0 ≡ claimed failed_shop place 7
unfolding claim_from
first_claim-wins = refl

none-ne-seven : ◌≢◌ {A = Option ℕ} none (some 7)
none-ne-seven e = cc

seven-ne-eight : ◌≢◌ {A = ℕ} 7 8
seven-ne-eight e = absurd (omega (arith, e))

claims_once_example :
    claim_from failed_shop 8 5_001 (claim_from failed_shop 7 5_000 failed_shop).1
    ≡ (active, (claim_from failed_shop 7 5_000 failed_shop).1)
claims_once_example =
    claims_once failed_shop failed_shop failed_shop failed_shop place 7 8 5_000 5_001
      first_claim-wins none-ne-seven

abbrev more_orders : Data
more_orders s = record s { synced_orders = pos 250; sync_cursor = some "page 5" }

former_owner_is_fenced_example :
    (renew_backfill_lease 8 6_000 (claim_from failed_shop 7 5_000 failed_shop).1 ≡ none)
    × (update_backfill_progress 8 more_orders 6_000 (claim_from failed_shop 7 5_000 failed_shop).1
        ≡ none)
    × (complete_backfill 8 more_orders (claim_from failed_shop 7 5_000 failed_shop).1 ≡ none)
    × (fail_backfill 8 more_orders (claim_from failed_shop 7 5_000 failed_shop).1
        ≡ (false, (claim_from failed_shop 7 5_000 failed_shop).1))
former_owner_is_fenced_example =
    former_owner_is_fenced failed_shop failed_shop failed_shop place 7 8 5_000 6_000 more_orders
      first_claim-wins seven-ne-eight

abbrev running_shop : Shop
running_shop = record failed_shop {
  sync_status = running;
  sync_run_token = some 7;
  sync_lease_expires_at = some 305_000;
}

abbrev complete_shop : Shop
complete_shop = record running_shop {
  sync_status = complete;
  sync_run_token = none;
  sync_lease_expires_at = none;
  synced_orders = pos 250;
  sync_cursor = some "page 5";
}

complete-running : complete_backfill 7 more_orders running_shop ≡ some complete_shop
unfolding complete_backfill
complete-running = refl

lease_expires_example :
    claim_from
      (claim_from failed_shop 7 5_000 failed_shop).1
      8
      305_000
      (claim_from failed_shop 7 5_000 failed_shop).1
    ≡ (if ltb 305_000 (5_000 + lease_ms)
        then (active, (claim_from failed_shop 7 5_000 failed_shop).1)
        else winning_claim (claim_from failed_shop 7 5_000 failed_shop).1 8 305_000)
lease_expires_example =
    lease_expires failed_shop failed_shop failed_shop place 7 8 5_000 305_000 first_claim-wins

abbrev idle : Connector
idle = record { work_lease_token = none; work_lease_expires_at = none }

idle-IsFree : is_free 5_000 idle ≡ true
unfolding is_free
idle-IsFree = refl

claim_excludes_example :
    ((claim_connector_work 8 6_000 (claim_connector_work 7 5_000 idle).1).0
      ≡ (if leb (5_000 + work_lease_ms) 6_000 then some 8 else none))
    × (beat 8 6_000 (claim_connector_work 7 5_000 idle).1 ≡ (claim_connector_work 7 5_000 idle).1)
    × (release_connector_work 8 (claim_connector_work 7 5_000 idle).1
        ≡ (claim_connector_work 7 5_000 idle).1)
claim_excludes_example = claim_excludes 7 8 5_000 6_000 idle idle-IsFree seven-ne-eight

abbrev count_rows : Work ℕ
count_rows c = (some 12, c)

row-held : holds 7 (leased_row 7 5_000) ≡ true
unfolding holds
row-held = refl
