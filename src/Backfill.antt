-- ===== src/Backfill.antt =====
-- app/lib/backfill-claim.server.ts: who owns a shop's historical import. The table is the one row of
-- the shop that the file's statements are about (`where: { id: shopId }`); times are milliseconds, and
-- run tokens, cursors and messages are compared or carried only.
pub mod Ownership
pub mod Claims
use my_meridian.Base.{
  ℕ, ◌+◌, ◌-◌, ◌*◌, Bool, true, false, not, ◌&&◌, ◌||◌, Option, none, some, ltb, leb, ◌==◌,
  if◌then◌else◌, String,
}
use my_meridian.Base.Int.{ℤ, pos, negsuc}
use my_meridian.Base.Keys.{◌=?◌, string_eq}

pub data SyncStatus : Type 0 where
  pending running complete failed : SyncStatus

-- The `sync…` columns of a shop.
pub record Shop : Type 0 where
  pub sync_status : SyncStatus
  pub sync_started_at : Option ℕ
  pub sync_completed_at : Option ℕ
  pub sync_run_token : Option ℕ
  pub sync_lease_expires_at : Option ℕ
  pub sync_cursor : Option String
  pub synced_orders : ℤ
  pub synced_products : ℤ
  pub sync_stage : Option String
  pub sync_error : Option String

abbrev pub stale_after_ms : ℕ
stale_after_ms = 60 * 60 * 1000

abbrev pub lease_ms : ℕ
lease_ms = 5 * 60 * 1000

abbrev pub lease_expiry : ℕ → ℕ
lease_expiry now = now + lease_ms

pub record OrderResumePoint : Type 0 where
  pub cursor : String
  pub imported_orders : ℤ

abbrev pub is_running : SyncStatus → Bool
is_running running = true
is_running _ = false

abbrev pub resumable : SyncStatus → Bool
resumable running = true
resumable failed = true
resumable _ = false

abbrev pub at_least_zero : ℤ → ℤ
at_least_zero (pos n) = pos n
at_least_zero (negsuc n) = pos 0

-- `resumePointFor`; an empty cursor is no cursor.
unfoldable pub resume_point_for : Shop → Option OrderResumePoint
resume_point_for shop = elim shop.sync_cursor [
  | none ↦ none
  | some c ↦ elim (c =? "") [
    | true ↦ none
    | false ↦ elim (resumable shop.sync_status) [
      | true ↦ some (record { cursor = c; imported_orders = at_least_zero shop.synced_orders })
      | false ↦ none
    ]
  ]
]

-- `backfillIsStale`
unfoldable pub backfill_is_stale : Shop → ℕ → Bool
backfill_is_stale shop now = elim (is_running shop.sync_status) [
  | false ↦ false
  | true ↦ elim shop.sync_lease_expires_at [
    | some e ↦ leb e now
    | none ↦ elim shop.sync_started_at [
      | none ↦ true
      | some started ↦ ltb stale_after_ms (now - started)
    ]
  ]
]

abbrev pub same_status : SyncStatus → SyncStatus → Bool
same_status pending pending = true
same_status running running = true
same_status complete complete = true
same_status failed failed = true
same_status _ _ = false

abbrev pub same_value : Option ℕ → Option ℕ → Bool
same_value none none = true
same_value (some a) (some b) = a == b
same_value _ _ = false

-- The `where` of the claim's compare-and-set: the row is as it was read.
unfoldable pub unchanged : Shop → Shop → Bool
unchanged read shop =
    same_status shop.sync_status read.sync_status
    && same_value shop.sync_started_at read.sync_started_at
    && same_value shop.sync_run_token read.sync_run_token
    && same_value shop.sync_lease_expires_at read.sync_lease_expires_at

abbrev pub resumed_cursor : Option OrderResumePoint → Option String
resumed_cursor none = none
resumed_cursor (some r) = some r.cursor

abbrev pub resumed_orders : Option OrderResumePoint → ℤ
resumed_orders none = pos 0
resumed_orders (some r) = r.imported_orders

abbrev pub first_stage : Option OrderResumePoint → String
first_stage none = "Reading store settings"
first_stage (some r) = "Resuming order history"

-- The row of a fresh claim.
abbrev pub claim_row : Option OrderResumePoint → ℕ → ℕ → Shop → Shop
claim_row resume token now shop = record shop {
  sync_status = running;
  sync_started_at = some now;
  sync_run_token = some token;
  sync_lease_expires_at = some (lease_expiry now);
  sync_completed_at = none;
  sync_stage = some (first_stage resume);
  sync_error = none;
  synced_orders = resumed_orders resume;
  synced_products = pos 0;
  sync_cursor = resumed_cursor resume;
}

pub data BackfillClaim : Type 0 where
  claimed : Shop → Option OrderResumePoint → ℕ → BackfillClaim
  active : BackfillClaim

-- `claimBackfill` from the row that it read; `shop` is the row when its write comes.
unfoldable pub claim_from : Shop → ℕ → ℕ → Shop → BackfillClaim × Shop
unfolding backfill_is_stale resume_point_for unchanged
claim_from read token now shop =
    if is_running read.sync_status && not (backfill_is_stale read now)
    then (active, shop)
    else if unchanged read shop
    then (
      claimed read (resume_point_for read) token,
      claim_row (resume_point_for read) token now shop,
    )
    else (active, shop)

-- The columns that a progress write or a result carries (`data`), as a change of the row.
abbrev pub Data : Type 0
Data = Shop → Shop

abbrev pub owns : ℕ → Shop → Bool
owns token shop =
    is_running shop.sync_status && elim shop.sync_run_token [ none ↦ false | some t ↦ t == token ]

-- `writeForOwner`: `none` where it throws `BackfillLeaseLostError`.
unfoldable pub write_for_owner : ℕ → Data → Shop → Option Shop
write_for_owner token data_ shop = if owns token shop then some (data_ shop) else none

unfoldable pub renew_backfill_lease : ℕ → ℕ → Shop → Option Shop
unfolding write_for_owner
renew_backfill_lease token now =
    write_for_owner token λ shop. record shop { sync_lease_expires_at = some (lease_expiry now) }

unfoldable pub update_backfill_progress : ℕ → Data → ℕ → Shop → Option Shop
unfolding write_for_owner
update_backfill_progress token data_ now =
    write_for_owner token
      λ shop. record (data_ shop) { sync_lease_expires_at = some (lease_expiry now) }

unfoldable pub complete_backfill : ℕ → Data → Shop → Option Shop
unfolding write_for_owner
complete_backfill token data_ = write_for_owner token λ shop. record (data_ shop) {
  sync_status = complete;
  sync_run_token = none;
  sync_lease_expires_at = none;
}

-- `failBackfill`: whether it still owned the run, and the row.
unfoldable pub fail_backfill : ℕ → Data → Shop → Bool × Shop
fail_backfill token data_ shop =
    if owns token shop
    then (
      true,
      record (data_ shop) {
        sync_status = failed;
        sync_run_token = none;
        sync_lease_expires_at = none;
      },
    )
    else (false, shop)
