-- ===== src/Revenue/Balance.antt =====
-- The sums of `summariseRevenue` (app/lib/revenue.ts) agree with each other after every row.
use my_meridian.Base.{
  ℕ, ◌+◌, ◌*◌, ◌≤◌, ◌≡◌, refl, Bool, true, false, Option, none, some, List, [], ◌∷◌, ◌==◌,
  if◌then◌else◌, arith, Bool-cases, inl, inr,
}
use my_meridian.Base.Text.{text_eq}
use my_meridian.CostHistory.{Instant}
use my_meridian.Plans.{PlanId, PlanEntry, own, inherited, starter, growth, scale}
use my_meridian.Revenue.{
  SubscriptionRow, is_active, is_annual, is_trialing, monthly_cents_for, PlanRevenue, ByPlan,
  RevenueSums, count_plan, add_subscriber, add_row_of, add_rows, add_entry, add_cents,
}

abbrev pub plans_mrr : ByPlan → ℕ
plans_mrr b = b.of_starter.plan_mrr_cents + b.of_growth.plan_mrr_cents + b.of_scale.plan_mrr_cents

abbrev pub heads : PlanRevenue → ℕ
heads r = r.monthly + r.annual

abbrev pub plans_heads : ByPlan → ℕ
plans_heads b = heads b.of_starter + heads b.of_growth + heads b.of_scale

-- What the sums say of themselves: a plan's revenue is what its subscribers pay, and the total is the
-- sum of the plans' while every subscriber is one of a plan.
abbrev pub Pays : PlanId → PlanRevenue → Type 0
Pays p r =
    r.plan_mrr_cents ≡ r.monthly * monthly_cents_for p false + r.annual * monthly_cents_for p true

abbrev pub total_of : ℕ → ByPlan → Option ℕ
total_of people b = if people == plans_heads b then some (plans_mrr b) else none

pub record Balanced (s : RevenueSums) : Type 0 where
  pub total : s.cents ≡ total_of s.subscribers s.plans
  pub people : plans_heads s.plans ≤ s.subscribers
  pub starter_pays : Pays starter s.plans.of_starter
  pub growth_pays : Pays growth s.plans.of_growth
  pub scale_pays : Pays scale s.plans.of_scale

Pays-count_plan :
    (p : PlanId) (annual : Bool) (r : PlanRevenue)
    → Pays p r
    → Pays p (count_plan annual (monthly_cents_for p annual) r)
unfolding count_plan
Pays-count_plan p true r h = rw h (omega arith)
Pays-count_plan p false r h = rw h (omega arith)

heads-count_plan :
    (annual : Bool) (cents : ℕ) (r : PlanRevenue) → heads (count_plan annual cents r) ≡ heads r + 1
unfolding count_plan
heads-count_plan true cents r = omega arith
heads-count_plan false cents r = omega arith

mrr-count_plan :
    (annual : Bool) (cents : ℕ) (r : PlanRevenue)
    → (count_plan annual cents r).plan_mrr_cents ≡ r.plan_mrr_cents + cents
unfolding count_plan
mrr-count_plan true cents r = refl
mrr-count_plan false cents r = refl

both_next : (a b : ℕ) → (a + 1 == b + 1) ≡ (a == b)
both_next a b = ground arith

total-grows :
    (o : Option ℕ) (cents people heads_ heads' mrr mrr' : ℕ)
    → o ≡ (if people == heads_ then some mrr else none)
    → heads' ≡ heads_ + 1
    → mrr' ≡ mrr + cents
    → add_cents cents o ≡ (if people + 1 == heads' then some mrr' else none)
total-grows o cents people heads_ heads' mrr mrr' h q m =
    rw (h, q, m, both_next people heads_)
      (elim (Bool-cases (people == heads_)) [ inl t ↦ rw t refl | inr f ↦ rw f refl ])

add_subscriber-Balanced :
    (p : PlanId) (annual : Bool) (s : RevenueSums)
    → Balanced s
    → Balanced (add_subscriber p annual s)
unfolding add_subscriber
add_subscriber-Balanced starter annual s b =
    let cents = monthly_cents_for starter annual in
    let more = heads-count_plan annual cents s.plans.of_starter in
    record {
      total =
          total-grows s.cents cents s.subscribers (plans_heads s.plans) _ (plans_mrr s.plans) _
            b.total (rw more (omega arith))
            (rw (mrr-count_plan annual cents s.plans.of_starter) (omega arith));
      people = rw more (omega (arith, b.people));
      starter_pays = Pays-count_plan starter annual s.plans.of_starter b.starter_pays;
      growth_pays = b.growth_pays;
      scale_pays = b.scale_pays;
    }
add_subscriber-Balanced growth annual s b =
    let cents = monthly_cents_for growth annual in
    let more = heads-count_plan annual cents s.plans.of_growth in
    record {
      total =
          total-grows s.cents cents s.subscribers (plans_heads s.plans) _ (plans_mrr s.plans) _
            b.total (rw more (omega arith))
            (rw (mrr-count_plan annual cents s.plans.of_growth) (omega arith));
      people = rw more (omega (arith, b.people));
      starter_pays = b.starter_pays;
      growth_pays = Pays-count_plan growth annual s.plans.of_growth b.growth_pays;
      scale_pays = b.scale_pays;
    }
add_subscriber-Balanced scale annual s b =
    let cents = monthly_cents_for scale annual in
    let more = heads-count_plan annual cents s.plans.of_scale in
    record {
      total =
          total-grows s.cents cents s.subscribers (plans_heads s.plans) _ (plans_mrr s.plans) _
            b.total (rw more (omega arith))
            (rw (mrr-count_plan annual cents s.plans.of_scale) (omega arith));
      people = rw more (omega (arith, b.people));
      starter_pays = b.starter_pays;
      growth_pays = b.growth_pays;
      scale_pays = Pays-count_plan scale annual s.plans.of_scale b.scale_pays;
    }

not_all : (a b : ℕ) → b ≤ a → (a + 1 == b) ≡ false
not_all a b h = ground arith

add_entry-Balanced :
    (e : PlanEntry) (annual : Bool) (s : RevenueSums) → Balanced s → Balanced (add_entry e annual s)
add_entry-Balanced (own p) annual s b = add_subscriber-Balanced p annual s b
add_entry-Balanced inherited annual s b = record {
  total = rw (not_all s.subscribers (plans_heads s.plans) b.people) refl;
  people = omega (arith, b.people);
  starter_pays = b.starter_pays;
  growth_pays = b.growth_pays;
  scale_pays = b.scale_pays;
}

add_row_of-Balanced :
    (o : Option PlanEntry) (row : SubscriptionRow) (now : Instant) (s : RevenueSums)
    → Balanced s
    → Balanced (add_row_of o row now s)
unfolding add_row_of
add_row_of-Balanced none row now s b = b
add_row_of-Balanced (some e) row now s b = elim (Bool-cases (is_trialing row.trial_ends_at now)) [
  | inl trial ↦ rw trial (record {
    total = b.total;
    people = b.people;
    starter_pays = b.starter_pays;
    growth_pays = b.growth_pays;
    scale_pays = b.scale_pays;
  })
  | inr charged ↦ rw charged (add_entry-Balanced e (is_annual row.interval) s b)
]

pub add_rows-Balanced :
    (rows : List SubscriptionRow) (now : Instant) (s : RevenueSums)
    → Balanced s
    → Balanced (add_rows rows now s)
unfolding add_rows
add_rows-Balanced [] now s b = b
add_rows-Balanced (row ∷ rows) now s b = elim (Bool-cases (is_active row.status)) [
  | inl active ↦ rw active (add_rows-Balanced rows now _ (add_row_of-Balanced _ row now s b))
  | inr other ↦ rw other (add_rows-Balanced rows now s b)
]
