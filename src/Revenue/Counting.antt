-- ===== src/Revenue/Counting.antt =====
-- What a row adds to the counts of `summariseRevenue` (app/lib/revenue.ts).
use my_meridian.Base.{
  ℕ, ◌+◌, ◌≡◌, refl, ap, ◌∙◌, Bool, true, false, ◌&&◌, Option, none, some, List, [], ◌∷◌,
  if◌then◌else◌, arith, Bool-cases, inl, inr, ◌⊎◌,
}
use my_meridian.Base.Table.{count_where}
use my_meridian.Base.Text.{text_eq}
use my_meridian.CostHistory.{Instant}
use my_meridian.Plans.{PlanId, PlanEntry, own, inherited, starter, growth, scale, plan_of}
use my_meridian.Revenue.{
  SubscriptionRow, is_active, is_annual, is_trialing, RevenueSums, count_plan, add_subscriber,
  add_row_of, add_rows, revenue_of,
}
use my_meridian.Revenue.Charged.{same, code_charged, code_in_trial}
use my_meridian.Revenue.Keys.{is_plan, is_own}

module _ (f : RevenueSums → ℕ) (p : SubscriptionRow → Bool) (now : Instant) where
  -- A number that each row of a kind raises by one.
  abbrev Counts : Type 0
  Counts =
      (row : SubscriptionRow) (s : RevenueSums)
      → f (if is_active row.status then add_row_of (plan_of row.plan) row now s else s)
        ≡ f s + (if p row then 1 else 0)

  pub add_rows-count :
      Counts
      → (rows : List SubscriptionRow) (s : RevenueSums)
      → f (add_rows rows now s) ≡ f s + count_where p rows
  unfolding add_rows
  add_rows-count step [] s = omega arith
  add_rows-count step (row ∷ rows) s =
      add_rows-count step rows _ ∙ ap (λ (n : ℕ). n + count_where p rows) (step row s) ∙ omega arith

abbrev pub tally : PlanId → Bool → RevenueSums → ℕ
tally p annual s = if annual then (revenue_of p s.plans).annual else (revenue_of p s.plans).monthly

add_subscriber-tally :
    (p q : PlanId) (annual annual' : Bool) (s : RevenueSums)
    → tally p annual (add_subscriber q annual' s)
      ≡ tally p annual s + (if is_plan p q && same annual annual' then 1 else 0)
unfolding add_subscriber count_plan
add_subscriber-tally starter starter true true s = refl
add_subscriber-tally starter starter true false s = omega arith
add_subscriber-tally starter starter false true s = omega arith
add_subscriber-tally starter starter false false s = refl
add_subscriber-tally starter growth true true s = omega arith
add_subscriber-tally starter growth true false s = omega arith
add_subscriber-tally starter growth false true s = omega arith
add_subscriber-tally starter growth false false s = omega arith
add_subscriber-tally starter scale true true s = omega arith
add_subscriber-tally starter scale true false s = omega arith
add_subscriber-tally starter scale false true s = omega arith
add_subscriber-tally starter scale false false s = omega arith
add_subscriber-tally growth starter true true s = omega arith
add_subscriber-tally growth starter true false s = omega arith
add_subscriber-tally growth starter false true s = omega arith
add_subscriber-tally growth starter false false s = omega arith
add_subscriber-tally growth growth true true s = refl
add_subscriber-tally growth growth true false s = omega arith
add_subscriber-tally growth growth false true s = omega arith
add_subscriber-tally growth growth false false s = refl
add_subscriber-tally growth scale true true s = omega arith
add_subscriber-tally growth scale true false s = omega arith
add_subscriber-tally growth scale false true s = omega arith
add_subscriber-tally growth scale false false s = omega arith
add_subscriber-tally scale starter true true s = omega arith
add_subscriber-tally scale starter true false s = omega arith
add_subscriber-tally scale starter false true s = omega arith
add_subscriber-tally scale starter false false s = omega arith
add_subscriber-tally scale growth true true s = omega arith
add_subscriber-tally scale growth true false s = omega arith
add_subscriber-tally scale growth false true s = omega arith
add_subscriber-tally scale growth false false s = omega arith
add_subscriber-tally scale scale true true s = refl
add_subscriber-tally scale scale true false s = omega arith
add_subscriber-tally scale scale false true s = omega arith
add_subscriber-tally scale scale false false s = refl

pub row_of-tally :
    (p : PlanId) (annual : Bool) (now : Instant) (o : Option PlanEntry) (row : SubscriptionRow)
    (s : RevenueSums)
    → tally p annual (if is_active row.status then add_row_of o row now s else s)
      ≡ tally p annual s
        + (if code_charged now row && (is_own p o && same annual (is_annual row.interval))
            then 1
            else 0)
unfolding add_row_of
row_of-tally p annual now o row s = elim (Bool-cases (is_active row.status)) [
  | inr other ↦ rw other (omega arith)
  | inl active ↦ elim (Bool-cases (is_trialing row.trial_ends_at now)) [
    | inl trial ↦ by_entry active (inl trial) o
    | inr over ↦ by_entry active (inr over) o
  ]
]
  where
    by_entry :
        is_active row.status ≡ true
        → (is_trialing row.trial_ends_at now ≡ true) ⊎ (is_trialing row.trial_ends_at now ≡ false)
        → (o : Option PlanEntry)
        → tally p annual (if is_active row.status then add_row_of o row now s else s)
          ≡ tally p annual s
            + (if code_charged now row && (is_own p o && same annual (is_annual row.interval))
                then 1
                else 0)
    by_entry active (inl trial) none = rw (active, trial) (omega arith)
    by_entry active (inl trial) (some e) = rw (active, trial) (omega arith)
    by_entry active (inr over) none = rw (active, over) (omega arith)
    by_entry active (inr over) (some inherited) = rw (active, over) (omega arith)
    by_entry active (inr over) (some (own q)) =
        rw (active, over) (add_subscriber-tally p q annual (is_annual row.interval) s)

abbrev there : Option PlanEntry → Bool
there o = elim o [ none ↦ false | some e ↦ true ]

pub row_of-subscribers :
    (now : Instant) (o : Option PlanEntry) (row : SubscriptionRow) (s : RevenueSums)
    → (if is_active row.status then add_row_of o row now s else s).subscribers
      ≡ s.subscribers + (if code_charged now row && there o then 1 else 0)
unfolding add_row_of add_subscriber
row_of-subscribers now none row s = ground arith
row_of-subscribers now (some (own q)) row s = ground arith
row_of-subscribers now (some inherited) row s = ground arith

pub row_of-in_trial :
    (now : Instant) (o : Option PlanEntry) (row : SubscriptionRow) (s : RevenueSums)
    → (if is_active row.status then add_row_of o row now s else s).in_trial
      ≡ s.in_trial + (if code_in_trial now row && there o then 1 else 0)
unfolding add_row_of add_subscriber
row_of-in_trial now none row s = ground arith
row_of-in_trial now (some (own q)) row s = ground arith
row_of-in_trial now (some inherited) row s = ground arith
