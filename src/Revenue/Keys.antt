-- ===== src/Revenue/Keys.antt =====
-- What `in PLANS` (app/lib/plans.ts, revenue.ts) finds, key by key.
use my_meridian.Base.{
  ◌≡◌, refl, sym, Bool, true, false, Option, none, some, Bool-cases, inl, inr, String,
}
use mathlib.Core.Path.{subst}
use my_meridian.Base.Keys.{◌=?◌}
use my_meridian.Base.Text.{Text, text_eq, text_beq_iff, codes}
use my_meridian.Plans.{
  PlanId, PlanEntry, own, inherited, starter, growth, scale, plan_of, inherited_names, is_name,
}
use my_meridian.Revenue.Charged.{is_found}

abbrev pub is_plan : PlanId → PlanId → Bool
is_plan starter starter = true
is_plan starter growth = false
is_plan starter scale = false
is_plan growth starter = false
is_plan growth growth = true
is_plan growth scale = false
is_plan scale starter = false
is_plan scale growth = false
is_plan scale scale = true

abbrev pub is_own : PlanId → Option PlanEntry → Bool
is_own p none = false
is_own p (some inherited) = false
is_own p (some (own q)) = is_plan p q

pub is_own-starter : (key : Text) → is_own starter (plan_of key) ≡ (key =? codes "starter")
unfolding plan_of
is_own-starter key = elim (Bool-cases (key =? codes "starter")) [
  | inl a ↦ at_key "starter" a refl
  | inr a ↦ elim (Bool-cases (key =? codes "growth")) [
    | inl b ↦ at_key "growth" b refl
    | inr b ↦ elim (Bool-cases (key =? codes "scale")) [
      | inl c ↦ at_key "scale" c refl
      | inr c ↦ elim (Bool-cases (is_name key inherited_names)) [
        | inl d ↦ rw (a, b, c, d) refl
        | inr d ↦ rw (a, b, c, d) refl
      ]
    ]
  ]
]
  where
    at_key :
        (name : String)
        → (key =? codes name) ≡ true
        → is_own starter (plan_of (codes name)) ≡ (codes name =? codes "starter")
        → is_own starter (plan_of key) ≡ (key =? codes "starter")
    at_key name h e =
        subst (λ (k : Text). is_own starter (plan_of k) ≡ (k =? codes "starter"))
          (sym ((text_beq_iff key (codes name)).0 h)) e

pub is_own-growth : (key : Text) → is_own growth (plan_of key) ≡ (key =? codes "growth")
unfolding plan_of
is_own-growth key = elim (Bool-cases (key =? codes "starter")) [
  | inl a ↦ at_key "starter" a refl
  | inr a ↦ elim (Bool-cases (key =? codes "growth")) [
    | inl b ↦ at_key "growth" b refl
    | inr b ↦ elim (Bool-cases (key =? codes "scale")) [
      | inl c ↦ at_key "scale" c refl
      | inr c ↦ elim (Bool-cases (is_name key inherited_names)) [
        | inl d ↦ rw (a, b, c, d) refl
        | inr d ↦ rw (a, b, c, d) refl
      ]
    ]
  ]
]
  where
    at_key :
        (name : String)
        → (key =? codes name) ≡ true
        → is_own growth (plan_of (codes name)) ≡ (codes name =? codes "growth")
        → is_own growth (plan_of key) ≡ (key =? codes "growth")
    at_key name h e =
        subst (λ (k : Text). is_own growth (plan_of k) ≡ (k =? codes "growth"))
          (sym ((text_beq_iff key (codes name)).0 h)) e

pub is_own-scale : (key : Text) → is_own scale (plan_of key) ≡ (key =? codes "scale")
unfolding plan_of
is_own-scale key = elim (Bool-cases (key =? codes "starter")) [
  | inl a ↦ at_key "starter" a refl
  | inr a ↦ elim (Bool-cases (key =? codes "growth")) [
    | inl b ↦ at_key "growth" b refl
    | inr b ↦ elim (Bool-cases (key =? codes "scale")) [
      | inl c ↦ at_key "scale" c refl
      | inr c ↦ elim (Bool-cases (is_name key inherited_names)) [
        | inl d ↦ rw (a, b, c, d) refl
        | inr d ↦ rw (a, b, c, d) refl
      ]
    ]
  ]
]
  where
    at_key :
        (name : String)
        → (key =? codes name) ≡ true
        → is_own scale (plan_of (codes name)) ≡ (codes name =? codes "scale")
        → is_own scale (plan_of key) ≡ (key =? codes "scale")
    at_key name h e =
        subst (λ (k : Text). is_own scale (plan_of k) ≡ (k =? codes "scale"))
          (sym ((text_beq_iff key (codes name)).0 h)) e

pub plan_of-is_found :
    (key : Text) → (elim (plan_of key) [ none ↦ false | some e ↦ true ]) ≡ is_found key
unfolding plan_of
plan_of-is_found key = elim (Bool-cases (key =? codes "starter")) [
  | inl a ↦ rw a refl
  | inr a ↦ elim (Bool-cases (key =? codes "growth")) [
    | inl b ↦ rw (a, b) refl
    | inr b ↦ elim (Bool-cases (key =? codes "scale")) [
      | inl c ↦ rw (a, b, c) refl
      | inr c ↦ elim (Bool-cases (is_name key inherited_names)) [
        | inl d ↦ rw (a, b, c, d) refl
        | inr d ↦ rw (a, b, c, d) refl
      ]
    ]
  ]
]
