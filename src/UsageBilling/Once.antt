-- ===== src/UsageBilling/Once.antt =====
-- `billSoftOrderOverage` (app/lib/usage-meter.server.ts) records a batch at most once.
use my_meridian.Base.{
  ℕ, ◌≡◌, refl, ap, Bool, false, Option, none, some, List, [], ◌∷◌, ◌==◌, String, All, Bool-cases,
  inl, inr, arith,
}
use my_meridian.Base.Table.{update_many, count_where, update_many-no_row}
use my_meridian.CostHistory.{Instant}
use my_meridian.UsageMeter.{UsageMeter, has_id}
use my_meridian.UsageBilling.{
  UsageLineItem, BillOutcome, billed, unclaimed, skipped, failed, batch_units, charge_amount,
  cap_is_reached, no_line_item, with_charge, update_meter, claim_where, claim_batch, claim_reply,
  charge_item, bill_batch, bill_soft_order_overage,
}

-- No row is as it was read.
abbrev Moved : UsageMeter → List UsageMeter → Type 0
Moved read ms = All (λ m. claim_where read m ≡ false) ms

abbrev pub IsBilled : BillOutcome → Type 0
IsBilled (billed n) = Unit
IsBilled (unclaimed r) = ⊥
IsBilled skipped = ⊥
IsBilled failed = ⊥

-- What is recorded as billed, row by row.
abbrev pub recorded : List UsageMeter → List ℕ
recorded [] = []
recorded (m ∷ ms) = m.billed_units ∷ recorded ms

recorded-update_many :
    (p : UsageMeter → Bool) (f : UsageMeter → UsageMeter) (ms : List UsageMeter)
    → ((m : UsageMeter) → (f m).billed_units ≡ m.billed_units)
    → recorded (update_many p f ms) ≡ recorded ms
recorded-update_many p f [] keep = refl
recorded-update_many p f (m ∷ ms) keep =
    let rest = recorded-update_many p f ms keep in
    elim (Bool-cases (p m)) [ inl t ↦ rw (t, keep m, rest) refl | inr n ↦ rw (n, rest) refl ]

recorded-update_meter :
    (id : ℕ) (change : UsageMeter → UsageMeter) (ms : List UsageMeter)
    → ((m : UsageMeter) → (change m).billed_units ≡ m.billed_units)
    → recorded (update_meter id change ms).1 ≡ recorded ms
recorded-update_meter id change ms keep = elim (Bool-cases (count_where (has_id id) ms == 0)) [
  | inl gone ↦ rw gone refl
  | inr there ↦ rw there (recorded-update_many (has_id id) change ms keep)
]

module _ (read : UsageMeter) (now : Instant) where
  with_charge-Moved :
      (n : ℕ) (record_id : String) (ms : List UsageMeter)
      → (n == 0) ≡ false
      → Moved read (update_many (claim_where read) (with_charge n record_id now) ms)
  with_charge-Moved n record_id [] h = tt
  with_charge-Moved n record_id (m ∷ ms) h = elim (Bool-cases (claim_where read m)) [
    | inl t ↦ (rw t (ground arith), with_charge-Moved n record_id ms h)
    | inr f ↦ (rw f f, with_charge-Moved n record_id ms h)
  ]

  module _ (ms : List UsageMeter) where
    update_meter-not_billed :
        (id : ℕ) (change : UsageMeter → UsageMeter) → IsBilled (update_meter id change ms).0 → ⊥
    update_meter-not_billed id change b = elim (Bool-cases (count_where (has_id id) ms == 0)) [
      | inl gone ↦ rw gone at b
      | inr there ↦ rw there at b
    ]

    claim_batch-Moved :
        (n : ℕ) (record_id : String)
        → Moved read ms
        → IsBilled (claim_batch read n record_id now ms).0
        → ⊥
    unfolding claim_batch
    claim_batch-Moved n record_id gone b =
        let (zero_rows, same) =
          update_many-no_row (claim_where read) (with_charge n record_id now) ms gone in
        rw zero_rows at b

    claim_reply-Moved :
        (n : ℕ) (reply : Option String)
        → Moved read ms
        → IsBilled (claim_reply read n reply now ms).0
        → ⊥
    unfolding claim_reply
    claim_reply-Moved n none gone b = b
    claim_reply-Moved n (some record_id) gone b = claim_batch-Moved n record_id gone b

    recorded-claim_reply :
        (n : ℕ) (reply : Option String)
        → Moved read ms
        → recorded (claim_reply read n reply now ms).1 ≡ recorded ms
    unfolding claim_reply claim_batch
    recorded-claim_reply n none gone = refl
    recorded-claim_reply n (some record_id) gone =
        ap recorded (update_many-no_row (claim_where read) (with_charge n record_id now) ms gone).1

    module _ (whole_units : ℕ → ℕ) where
      bill_batch-Moved :
          (line : Option (Option UsageLineItem)) (reply : Option String)
          → Moved read ms
          → IsBilled (bill_batch whole_units read line reply now ms).0
          → ⊥
      unfolding bill_batch charge_item
      bill_batch-Moved none reply gone b = b
      bill_batch-Moved (some none) reply gone b =
          update_meter-not_billed read.id (no_line_item now) b
      bill_batch-Moved (some (some item)) reply gone b =
          let units = whole_units (charge_amount (batch_units read) item) in
          elim (Bool-cases (units == 0)) [
            | inl full ↦ update_meter-not_billed read.id cap_is_reached (rw full at b)
            | inr due ↦ claim_reply-Moved units reply gone (rw due at b)
          ]

      -- A call on a table where no row is as it was read records nothing.
      recorded-bill_batch :
          (line : Option (Option UsageLineItem)) (reply : Option String)
          → Moved read ms
          → recorded (bill_batch whole_units read line reply now ms).1 ≡ recorded ms
      unfolding bill_batch charge_item
      recorded-bill_batch none reply gone = refl
      recorded-bill_batch (some none) reply gone =
          recorded-update_meter read.id (no_line_item now) ms (λ m. refl)
      recorded-bill_batch (some (some item)) reply gone =
          let units = whole_units (charge_amount (batch_units read) item) in
          elim (Bool-cases (units == 0)) [
            | inl full ↦ rw full (recorded-update_meter read.id cap_is_reached ms (λ m. refl))
            | inr due ↦ rw due (recorded-claim_reply units reply gone)
          ]

      -- A batch that is billed leaves no row as it was read.
      claim_reply-moves :
          (n : ℕ) (reply : Option String)
          → (n == 0) ≡ false
          → IsBilled (claim_reply read n reply now ms).0
          → Moved read (claim_reply read n reply now ms).1
      unfolding claim_reply claim_batch
      claim_reply-moves n none h b = absurd b
      claim_reply-moves n (some record_id) h b = with_charge-Moved n record_id ms h

      bill_batch-moves :
          (line : Option (Option UsageLineItem)) (reply : Option String)
          → IsBilled (bill_batch whole_units read line reply now ms).0
          → Moved read (bill_batch whole_units read line reply now ms).1
      unfolding bill_batch charge_item
      bill_batch-moves none reply b = absurd b
      bill_batch-moves (some none) reply b =
          absurd (update_meter-not_billed read.id (no_line_item now) b)
      bill_batch-moves (some (some item)) reply b =
          let units = whole_units (charge_amount (batch_units read) item) in
          elim (Bool-cases (units == 0)) [
            | inl full ↦ absurd (update_meter-not_billed read.id cap_is_reached (rw full at b))
            | inr due ↦ rw due (claim_reply-moves units reply due (rw due at b))
          ]

-- Once a call has billed a batch, another call that has read the same row does not bill it again: on
-- the table that the first has left, its outcome is not `billed`, and the billed units of every row
-- stay what they are. A usage record that Shopify may already have made for it is not undone.
pub second_bill_records_nothing :
    (whole_units : ℕ → ℕ) (read : UsageMeter) (line line' : Option (Option UsageLineItem))
    (reply reply' : Option String) (now now' : Instant) (ms : List UsageMeter)
    → let first = bill_soft_order_overage whole_units (some read) line reply now ms in
      let second = bill_soft_order_overage whole_units (some read) line' reply' now' first.1 in
      IsBilled first.0 → (IsBilled second.0 → ⊥) × (recorded second.1 ≡ recorded first.1)
unfolding bill_soft_order_overage
second_bill_records_nothing whole_units read line line' reply reply' now now' ms b =
    elim (Bool-cases (batch_units read == 0)) [
      | inl nothing ↦ absurd (rw nothing at b)
      | inr due ↦
          let rest = (bill_batch whole_units read line reply now ms).1 in
          let moved = bill_batch-moves read now ms whole_units line reply (rw due at b) in
          rw due (
            bill_batch-Moved read now' rest whole_units line' reply' moved,
            recorded-bill_batch read now' rest whole_units line' reply' moved,
          )
    ]
