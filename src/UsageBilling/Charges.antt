-- ===== src/UsageBilling/Charges.antt =====
-- What `billSoftOrderOverage` (app/lib/usage-meter.server.ts) charges, and that it charges a batch
-- once.
use my_meridian.Base.{
  ℕ, ◌+◌, ◌*◌, ◌≤◌, ◌≡◌, true, false, Option, none, some, List, [], ◌∷◌, ◌==◌, String, All,
  Bool-cases, inl, inr, ◌⊎◌, arith,
}
use my_meridian.Base.Int.{pos, ◌-ℤ◌, ◌≤ℤ◌, -ℤ_parts, parts_apart}
use my_meridian.Base.Table.{update_many, count_where, All-update_many}
use my_meridian.CostHistory.{Instant}
use my_meridian.UsageMeter.{UsageMeter, has_id}
use my_meridian.UsageBilling.{
  UsageLineItem, batch_units, charge_amount, no_line_item, cap_is_reached, with_charge,
  update_meter, claim_where, claim_batch, claim_reply, charge_item, bill_batch, usage_charge,
  bill_soft_order_overage,
}

-- Nothing is billed, or no more than the orders over the soft limit.
abbrev pub Within : UsageMeter → Type 0
Within m = (m.billed_units ≡ 0) ⊎ (m.soft_limit + m.billed_units ≤ m.used)

-- The row is the one that was read, or a later state of it.
abbrev pub LaterThan : UsageMeter → UsageMeter → Type 0
LaterThan read m = (m.soft_limit ≡ read.soft_limit) × (read.used ≤ m.used)

-- A batch is not larger than what is over the soft limit and not billed yet, nor than a hundred.
pub batch_units-le :
    (m : UsageMeter)
    → (batch_units m ≡ 0) ⊎ (m.soft_limit + m.billed_units + batch_units m ≤ m.used)
unfolding batch_units ◌-ℤ◌
batch_units-le m = ground arith

pub batch_units-le_batch : (m : UsageMeter) → batch_units m ≤ 100
unfolding batch_units
batch_units-le_batch m = ground arith

charge_amount-le : (units : ℕ) (item : UsageLineItem) → charge_amount units item ≤ units * 5
unfolding charge_amount
charge_amount-le units item = omega arith

module _ (read : UsageMeter) (now : Instant) (units : ℕ) (record_id : String)
    (small : units ≤ batch_units read) (due : (batch_units read == 0) ≡ false) where
  charged_row-Within :
      (m : UsageMeter)
      → claim_where read m ≡ true
      → (has_id read.id m ≡ true → LaterThan read m)
      → Within (with_charge units record_id now m)
  charged_row-Within m claimed later =
      let mine : has_id read.id m ≡ true = ground arith in
      let same : m.billed_units ≡ read.billed_units = ground arith in
      let (soft, used) = later mine in
      elim (batch_units-le read) [
        | inl nothing ↦ absurd (ground (arith, nothing))
        | inr fits ↦ inr (omega (arith, fits, same, soft, used, small))
      ]

  with_charge-Within :
      (ms : List UsageMeter)
      → All (λ m. has_id read.id m ≡ true → LaterThan read m) ms
      → All Within ms
      → All Within (update_many (claim_where read) (with_charge units record_id now) ms)
  with_charge-Within [] known a = tt
  with_charge-Within (m ∷ ms) (k, known) (w, a) = elim (Bool-cases (claim_where read m)) [
    | inl t ↦ (rw t (charged_row-Within m t k), with_charge-Within ms known a)
    | inr n ↦ (rw n w, with_charge-Within ms known a)
  ]

module _ (whole_units : ℕ → ℕ) (exact : (c : ℕ) → whole_units c * 5 ≤ c) where
  -- The units that are billed are no more than the batch.
  units-le_batch :
      (read : UsageMeter) (item : UsageLineItem)
      → whole_units (charge_amount (batch_units read) item) ≤ batch_units read
  units-le_batch read item =
      let amount = charge_amount (batch_units read) item in
      omega (arith, exact amount, charge_amount-le (batch_units read) item)

  module _ (read : UsageMeter) (now : Instant) (ms : List UsageMeter) where
    abbrev Known : Type 0
    Known = All (λ m. has_id read.id m ≡ true → LaterThan read m) ms

    claim_batch-Within :
        (units : ℕ) (record_id : String)
        → units ≤ batch_units read
        → (batch_units read == 0) ≡ false
        → Known
        → All Within ms
        → All Within (claim_batch read units record_id now ms).1
    unfolding claim_batch
    claim_batch-Within units record_id small due known a =
        with_charge-Within read now units record_id small due ms known a

    update_meter-Within :
        (change : UsageMeter → UsageMeter)
        → ((m : UsageMeter) → Within m → Within (change m))
        → All Within ms
        → All Within (update_meter read.id change ms).1
    update_meter-Within change keep a = elim (Bool-cases (count_where (has_id read.id) ms == 0)) [
      | inl gone ↦ rw gone a
      | inr there ↦
          rw there (All-update_many (has_id read.id) change Within ms (λ j h w. keep j w) a)
    ]

    module _ (due : (batch_units read == 0) ≡ false) (known : Known) (a : All Within ms) where
      claim_reply-Within :
          (units : ℕ) (reply : Option String)
          → units ≤ batch_units read
          → All Within (claim_reply read units reply now ms).1
      unfolding claim_reply
      claim_reply-Within units none small = a
      claim_reply-Within units (some record_id) small =
          claim_batch-Within units record_id small due known a

      bill_batch-Within :
          (line : Option (Option UsageLineItem)) (reply : Option String)
          → All Within (bill_batch whole_units read line reply now ms).1
      unfolding bill_batch charge_item
      bill_batch-Within none reply = a
      bill_batch-Within (some none) reply = update_meter-Within (no_line_item now) (λ m w. w) a
      bill_batch-Within (some (some item)) reply =
          let units = whole_units (charge_amount (batch_units read) item) in
          elim (Bool-cases (units == 0)) [
            | inl full ↦ rw full (update_meter-Within cap_is_reached (λ m w. w) a)
            | inr some_ ↦ rw some_ (claim_reply-Within units reply (units-le_batch read item))
          ]

  -- Whatever Shopify answers, a call keeps it true of every meter that what is billed is within what
  -- is over the soft limit, if the row that it read is still there, or a later state of it.
  pub bill-Within :
      (read : UsageMeter) (line : Option (Option UsageLineItem)) (reply : Option String)
      (now : Instant) (ms : List UsageMeter)
      → All (λ m. has_id read.id m ≡ true → LaterThan read m) ms
      → All Within ms
      → All Within (bill_soft_order_overage whole_units (some read) line reply now ms).1
  unfolding bill_soft_order_overage
  bill-Within read line reply now ms known a = elim (Bool-cases (batch_units read == 0)) [
    | inl nothing ↦ rw nothing a
    | inr due ↦ rw due (bill_batch-Within read now ms due known a line reply)
  ]

-- The request's price is within the batch at five cents a unit and within what is left of the cap.
pub usage_charge-price :
    (whole_units : ℕ → ℕ) (m : UsageMeter) (item : UsageLineItem)
    → item.balance_used ≤ℤ item.capped_amount
    → ((usage_charge whole_units m item).price_cents ≤ batch_units m * 5)
      × (batch_units m ≤ 100)
      × (pos (usage_charge whole_units m item).price_cents
          ≤ℤ item.capped_amount -ℤ item.balance_used)
unfolding usage_charge charge_amount
usage_charge-price whole_units m item h =
    let remaining = -ℤ_parts item.capped_amount item.balance_used in
    (
      omega arith,
      batch_units-le_batch m,
      elim (parts_apart (item.capped_amount -ℤ item.balance_used)) [
        | inl e ↦ omega (arith, remaining, h, e)
        | inr e ↦ omega (arith, e)
      ],
    )
