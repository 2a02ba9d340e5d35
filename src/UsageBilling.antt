-- ===== src/UsageBilling.antt =====
-- app/lib/usage-meter.server.ts: `billSoftOrderOverage`, the charge for a batch of orders over the
-- soft limit. Shopify's amounts are whole cents. The meter is read first and written after the calls
-- of Shopify, on the table that others have left by then.
pub mod Charges
pub mod Once
use my_meridian.Base.{
  ℕ, suc, ◌+◌, ◌-◌, ◌*◌, min, Bool, true, false, ◌&&◌, ◌||◌, Option, none, some, List, [], ◌∷◌, ltb,
  leb, ◌==◌, if◌then◌else◌, String,
}
use my_meridian.Base.Int.{ℤ, pos, ◌-ℤ◌, ltb_ℤ, pos_part}
use my_meridian.Base.Table.{update_many, count_where}
use my_meridian.CostHistory.{Instant}
use my_meridian.UsageMeter.{UsageMeter, UsageMeterStatus, cap_reached, suspended, has_id}

-- `OVERAGE_UNIT_PRICE`, in cents
abbrev pub overage_unit_price : ℕ
overage_unit_price = 5

abbrev pub usage_charge_batch_units : ℕ
usage_charge_batch_units = 100

pub record UsageLineItem : Type 0 where
  pub item_id : String
  pub capped_amount : ℤ
  pub balance_used : ℤ

-- How a call ends: the units that it billed and recorded; the id of a usage record that Shopify has
-- made but whose units are not recorded, since another call has claimed the row, which the source
-- returns as it returns `skipped`; nothing done, or an error.
pub data BillOutcome : Type 0 where
  billed : ℕ → BillOutcome
  unclaimed : String → BillOutcome
  skipped failed : BillOutcome

abbrev pub is_suspended : UsageMeterStatus → Bool
is_suspended suspended = true
is_suspended _ = false

abbrev pub is_none {ℓ} : {A : Type ℓ} → Option A → Bool
is_none none = true
is_none (some a) = false

abbrev pub pending_units : UsageMeter → ℤ
pending_units m = pos m.used -ℤ pos m.soft_limit -ℤ pos m.billed_units

-- The units of the batch that is due, none before the first call of Shopify gives up.
unfoldable pub batch_units : UsageMeter → ℕ
batch_units m =
    let pending = pending_units m in
    if is_suspended m.status || leb m.used m.soft_limit
    then 0
    else if ltb_ℤ pending (pos usage_charge_batch_units) && is_none m.cap_warning_notified_at
    then 0
    else min (pos_part pending) usage_charge_batch_units

-- `chargeAmount`, in cents
unfoldable pub charge_amount : ℕ → UsageLineItem → ℕ
charge_amount units item =
    min (units * overage_unit_price) (pos_part (item.capped_amount -ℤ item.balance_used))

-- The request to Shopify: its price, and the key that makes it idempotent.
pub record UsageCharge : Type 0 where
  pub price_cents : ℕ
  pub key_meter_id : ℕ
  pub key_target : ℕ

unfoldable pub usage_charge : (ℕ → ℕ) → UsageMeter → UsageLineItem → UsageCharge
unfolding batch_units charge_amount
usage_charge whole_units m item =
    let amount = charge_amount (batch_units m) item in
    record {
      price_cents = amount;
      key_meter_id = m.id;
      key_target = m.billed_units + whole_units amount;
    }

abbrev pub no_line_item : Instant → UsageMeter → UsageMeter
no_line_item now m = record m {
  billing_error = some "Active Shopify subscription has no usage pricing line item";
  last_billing_attempt_at = some now;
  billing_attempts = m.billing_attempts + 1;
}

abbrev pub cap_is_reached : UsageMeter → UsageMeter
cap_is_reached m = record m {
  status = cap_reached;
  billing_error = some "Shopify usage cap reached";
}

abbrev pub with_charge : ℕ → String → Instant → UsageMeter → UsageMeter
with_charge units record_id now m = record m {
  billed_units = m.billed_units + units;
  last_usage_record_id = some record_id;
  billing_error = none;
  last_billing_attempt_at = some now;
  billing_attempts = m.billing_attempts + 1;
}

-- `prisma.usageMeter.update`, which throws where no row has the id.
abbrev pub update_meter :
    ℕ → (UsageMeter → UsageMeter) → List UsageMeter → BillOutcome × List UsageMeter
update_meter id change ms =
    if count_where (has_id id) ms == 0
    then (failed, ms)
    else (skipped, update_many (has_id id) change ms)

-- The write that claims the batch: `where: { id, billedUnits }`.
abbrev pub claim_where : UsageMeter → UsageMeter → Bool
claim_where read m = has_id read.id m && m.billed_units == read.billed_units

unfoldable pub claim_batch :
    UsageMeter → ℕ → String → Instant → List UsageMeter → BillOutcome × List UsageMeter
claim_batch read units record_id now ms = (
  if count_where (claim_where read) ms == 1 then billed units else unclaimed record_id,
  update_many (claim_where read) (with_charge units record_id now) ms,
)

-- The end of the call, after the answer to the mutation: the id of the usage record, or an error.
unfoldable pub claim_reply :
    UsageMeter → ℕ → Option String → Instant → List UsageMeter → BillOutcome × List UsageMeter
unfolding claim_batch
claim_reply read units none now ms = (failed, ms)
claim_reply read units (some record_id) now ms = claim_batch read units record_id now ms

-- The rest of the call once the line item is known. `Math.floor(chargeAmount / 0.05)` is an
-- argument, since a quotient of doubles can fall short of the exact one.
unfoldable pub charge_item :
    (ℕ → ℕ)
    → UsageMeter
    → UsageLineItem
    → Option String
    → Instant
    → List UsageMeter
    → BillOutcome × List UsageMeter
unfolding batch_units charge_amount claim_reply
charge_item whole_units read item reply now ms =
    let units = whole_units (charge_amount (batch_units read) item) in
    if units == 0
    then update_meter read.id cap_is_reached ms
    else claim_reply read units reply now ms

-- The rest of the call once Shopify has been asked for the line item: it is there, or none is, or
-- the question failed.
unfoldable pub bill_batch :
    (ℕ → ℕ)
    → UsageMeter
    → Option (Option UsageLineItem)
    → Option String
    → Instant
    → List UsageMeter
    → BillOutcome × List UsageMeter
unfolding charge_item
bill_batch whole_units read none reply now ms = (failed, ms)
bill_batch whole_units read (some none) reply now ms = update_meter read.id (no_line_item now) ms
bill_batch whole_units read (some (some item)) reply now ms =
    charge_item whole_units read item reply now ms

-- `billSoftOrderOverage`
unfoldable pub bill_soft_order_overage :
    (ℕ → ℕ)
    → Option UsageMeter
    → Option (Option UsageLineItem)
    → Option String
    → Instant
    → List UsageMeter
    → BillOutcome × List UsageMeter
unfolding batch_units bill_batch
bill_soft_order_overage whole_units none line reply now ms = (skipped, ms)
bill_soft_order_overage whole_units (some read) line reply now ms =
    if batch_units read == 0 then (skipped, ms) else bill_batch whole_units read line reply now ms
