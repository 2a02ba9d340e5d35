-- ===== src/AdPlan/Days.antt =====
-- `planSyncDays` (app/lib/ad-ingestion-plan.ts) plans every day that is due, and each once.
use my_meridian.Base.{
  ℕ, zero, suc, ◌+◌, ◌-◌, ◌*◌, ◌≤◌, ◌<◌, ◌≡◌, refl, sym, ap, ◌∙◌, Bool, true, false, not, ◌&&◌,
  ◌||◌, Option, none, some, max, List, [], ◌∷◌, ◌++◌, ltb, leb, ◌==◌, if◌then◌else◌, All,
  All-append, All-imp, Bool-cases, Option-cases, inl, inr, arith, le→leb, ==_iff,
}
use my_meridian.Base.Sort.{insert_sorted, sort}
use my_meridian.AdPlan.{
  SyncPlanInput, range_from, day_range, lookback_start, deep_due, mem, wanted, collect_days,
  plan_sync_days,
}
use my_meridian.CostHistory.{Instant}
use mathlib.Core.List.{append_assoc, append-nil}

-- Later days follow, each once.
abbrev pub Ascending : List ℕ → Type 0
Ascending [] = Unit
Ascending (d ∷ ds) = All (λ e. d < e) ds × Ascending ds

filter : (ℕ → Bool) → List ℕ → List ℕ
filter p [] = []
filter p (d ∷ ds) = if p d then d ∷ filter p ds else filter p ds

range_from-above : (rounds a b to : ℕ) → b ≤ a → All (λ e. b ≤ e) (range_from rounds a to)
unfolding range_from
range_from-above zero a b to h = tt
range_from-above (suc n) a b to h = elim (Bool-cases (leb a to)) [
  | inl t ↦ rw t (h, range_from-above n (a + 1) b to (omega arith))
  | inr f ↦ rw f tt
]

range_from-Ascending : (rounds a to : ℕ) → Ascending (range_from rounds a to)
unfolding range_from
range_from-Ascending zero a to = tt
range_from-Ascending (suc n) a to = elim (Bool-cases (leb a to)) [
  | inl t ↦ rw t (
    All-imp (λ e. a + 1 ≤ e) (λ e. a < e) (range_from n (a + 1) to) (λ e h. omega (arith, h))
        (range_from-above n (a + 1) (a + 1) to (omega arith)),
    range_from-Ascending n (a + 1) to,
  )
  | inr f ↦ rw f tt
]

mem-range_from :
    (rounds a to d : ℕ)
    → mem d (range_from rounds a to) ≡ (leb a d && (leb d to && ltb d (a + rounds)))
unfolding range_from
mem-range_from zero a to d = ground arith
mem-range_from (suc n) a to d = ground (arith, mem-range_from n (a + 1) to d)

and_false : (b : Bool) → (b && false) ≡ false
and_false true = refl
and_false false = refl

module _ (p : ℕ → Bool) where
  filter-All {ℓ} : (P : ℕ → Type ℓ) (ds : List ℕ) → All P ds → All P (filter p ds)
  unfolding filter
  filter-All P [] h = tt
  filter-All P (d ∷ ds) (h, hs) = elim (Bool-cases (p d)) [
    | inl t ↦ rw t (h, filter-All P ds hs)
    | inr f ↦ rw f (filter-All P ds hs)
  ]

  filter-Ascending : (ds : List ℕ) → Ascending ds → Ascending (filter p ds)
  unfolding filter
  filter-Ascending [] h = tt
  filter-Ascending (d ∷ ds) (h, hs) = elim (Bool-cases (p d)) [
    | inl t ↦ rw t (filter-All (λ e. d < e) ds h, filter-Ascending ds hs)
    | inr f ↦ rw f (filter-Ascending ds hs)
  ]

  mem-filter : (d : ℕ) (ds : List ℕ) → mem d (filter p ds) ≡ (mem d ds && p d)
  unfolding filter
  mem-filter d [] = refl
  mem-filter d (e ∷ ds) = elim (Bool-cases (d == e)) [
    | inl same ↦
        let eq : d ≡ e = (==_iff d e).0 same in
        elim (Bool-cases (p e)) [
          | inl t ↦ rw (t, same) (sym (ap p eq ∙ t))
          | inr f ↦
              let off : p d ≡ false = ap p eq ∙ f in
              rw (f, same)
                (mem-filter d ds ∙ ap (λ b. mem d ds && b) off ∙ and_false (mem d ds) ∙ sym off)
        ]
    | inr other ↦ elim (Bool-cases (p e)) [
      | inl t ↦ rw (t, other) (mem-filter d ds)
      | inr f ↦ rw (f, other) (mem-filter d ds)
    ]
  ]

sort-Ascending : (ds : List ℕ) → Ascending ds → sort leb ds ≡ ds
sort-Ascending [] h = refl
sort-Ascending (d ∷ []) h = refl
sort-Ascending (d ∷ e ∷ ds) (h, hs) =
    let first : leb d e ≡ true = le→leb d e (omega (arith, h.0)) in
    ap (insert_sorted leb d) (sort-Ascending (e ∷ ds) hs) ∙ rw first refl

mem-absent : (d : ℕ) (ds : List ℕ) → All (λ e. e < d) ds → mem d ds ≡ false
mem-absent d [] h = refl
mem-absent d (e ∷ ds) (h, hs) = ground (arith, h, mem-absent d ds hs)

grow :
    (d : ℕ) (due ds : List ℕ)
    → All (λ e. d < e) ds
    → All (λ x. All (λ e. e < x) due) ds
    → All (λ x. All (λ e. e < x) (due ++ (d ∷ []))) ds
grow d due [] h below = tt
grow d due (x ∷ ds) (h, hs) (b, below) =
    (All-append (λ e. e < x) due (d ∷ []) b (h, tt), grow d due ds hs below)

nothing_below : (ds : List ℕ) → All (λ x. All (λ e. e < x) []) ds
nothing_below [] = tt
nothing_below (x ∷ ds) = (tt, nothing_below ds)

-- Whether a deep pass is due: never done, or as long ago as the cadence.
abbrev pub is_overdue : Option Instant → ℕ → ℕ → Bool
is_overdue none cadence today = true
is_overdue (some last) cadence today = leb (last + 86_400_000 * cadence) (86_400_000 * today)

abbrev pub days_again : SyncPlanInput → ℕ
days_again input =
    if is_overdue input.last_deep_sync_at input.deep_cadence_days input.today
    then input.deep_lookback_days
    else input.lookback_days

abbrev pub is_planned : SyncPlanInput → ℕ → Bool
is_planned input d = not (input.synced_days d) || ltb input.today (d + max 1 (days_again input))

deep_due-is_overdue :
    (input : SyncPlanInput)
    → deep_due input ≡ is_overdue input.last_deep_sync_at input.deep_cadence_days input.today
unfolding deep_due
deep_due-is_overdue input = elim (Option-cases input.last_deep_sync_at) [
  | inl never ↦ rw never refl
  | inr (last, s) ↦ rw s (ground arith)
]

-- The last n days up to today, and one at least.
leb-last : (d today n : ℕ) → leb (today - (n - 1)) d ≡ ltb today (d + max 1 n)
leb-last d today n = ground arith

module _ (input : SyncPlanInput) where
  -- The loop, started below its days, keeps those that are wanted.
  collect_days-filter :
      (due ds : List ℕ)
      → Ascending ds
      → All (λ d. All (λ e. e < d) due) ds
      → collect_days input due ds ≡ due ++ filter (wanted input) ds
  unfolding collect_days filter
  collect_days-filter due [] h below = sym (append-nil due)
  collect_days-filter due (d ∷ ds) (h, hs) (b, below) = elim (Bool-cases (wanted input d)) [
    | inl t ↦
        rw (t, mem-absent d due b)
          (collect_days-filter (due ++ (d ∷ [])) ds hs (grow d due ds h below)
            ∙ append_assoc due (d ∷ []) (filter (wanted input) ds))
    | inr f ↦ rw f (collect_days-filter due ds hs below)
  ]

  due_days : List ℕ
  due_days = filter (wanted input) (day_range input.horizon_start input.today)

  range-Ascending : Ascending (day_range input.horizon_start input.today)
  unfolding day_range
  range-Ascending = range_from-Ascending 5_001 input.horizon_start input.today

  collected :
      sort leb (collect_days input [] (day_range input.horizon_start input.today)) ≡ due_days
  unfolding due_days
  collected =
      let range = day_range input.horizon_start input.today in
      ap (sort leb) (collect_days-filter [] range range-Ascending (nothing_below range))
      ∙ sort-Ascending due_days (filter-Ascending (wanted input) range range-Ascending)

  due_days-Ascending : Ascending due_days
  unfolding due_days
  due_days-Ascending =
      filter-Ascending (wanted input) (day_range input.horizon_start input.today) range-Ascending

  mem-due_days :
      (d : ℕ)
      → mem d due_days ≡ (
          (leb input.horizon_start d && (leb d input.today && ltb d (input.horizon_start + 5_001)))
          && wanted input d)
  unfolding due_days day_range
  mem-due_days d =
      mem-filter (wanted input) d (day_range input.horizon_start input.today)
      ∙ ap (λ b. b && wanted input d) (mem-range_from 5_001 input.horizon_start input.today d)

  wanted-is_planned : (d : ℕ) → wanted input d ≡ is_planned input d
  unfolding lookback_start
  wanted-is_planned d =
      ap (λ (b : Bool). not (input.synced_days d) || b)
        (rw (deep_due-is_overdue input) (leb-last d input.today (days_again input)))

  -- The plan's days are in order and each once, and these exactly: of the horizon up to today, of its
  -- first 5,001 days, those that have no synced row, and of the synced ones the last N up to today (one
  -- at least), where N is the deep lookback if no deep pass has run or as many days as the cadence have
  -- passed from the last one to the start of today, and the normal lookback otherwise.
  pub plan_sync_days-exact :
      Ascending (plan_sync_days input).days
      × ((d : ℕ)
          → mem d (plan_sync_days input).days ≡ (
              (leb input.horizon_start d
                && (leb d input.today && ltb d (input.horizon_start + 5_001)))
              && is_planned input d))
  unfolding plan_sync_days
  plan_sync_days-exact = elim (Bool-cases (ltb input.today input.horizon_start)) [
    | inl reversed ↦ rw reversed (tt, λ d. ground (arith, reversed))
    | inr forward ↦
        rw (forward, collected)
          (
            due_days-Ascending,
            λ d.
                mem-due_days d
                ∙ ap
                    (λ (b : Bool).
                      (leb input.horizon_start d
                        && (leb d input.today && ltb d (input.horizon_start + 5_001)))
                      && b)
                    (wanted-is_planned d),
          )
  ]
