-- ===== src/RecalcQueue/Leases.antt =====
-- Leasing in app/lib/recalc-queue.server.ts: which job `leaseNextRecalcJob` takes, and whom its lease
-- shuts out of the row until it expires.
use my_meridian.Base.{
  ℕ, Bool, true, false, not, ◌||◌, Option, none, some, [], ◌∷◌, ◌≡◌, ◌≢◌, refl, sym, ◌∙◌, ap, inl,
  inr, ◌⊎◌, arith, All, All-imp, Bool-cases, Option-cases, if◌then◌else◌, ◌==◌, ==_iff,
}
use my_meridian.RecalcQueue.{Job, Jobs, due, sooner, first_of_two, find_due, lease_where}
use my_meridian.Base.Table.{count_where, update_many-no_row}
use mathlib.Core.Path.{subst}
use mathlib.Core.Option.{some-injective, none-ne-some}

-- The primary key: no two rows have one id.
abbrev pub IdsUnique : Jobs → Type 0
IdsUnique [] = Unit
IdsUnique (j ∷ js) = All (λ (k : Job). k.id ≢ j.id) js × IdsUnique js

sooner_refl : (a : Job) → sooner a a ≡ true
sooner_refl a = ground arith

sooner_trans : (a b c : Job) → sooner a b ≡ true → sooner b c ≡ true → sooner a c ≡ true
sooner_trans a b c h k = ground arith

sooner-total : (a b : Job) → sooner a b ≡ false → sooner b a ≡ true
sooner-total a b h = ground arith

module _ (now : ℕ) where
  find_due-cases :
      (j : Job) (js : Jobs) (c : Job)
      → find_due now (j ∷ js) ≡ some c
      → ((due now j ≡ true) × (c ≡ j)) ⊎ (find_due now js ≡ some c)
  unfolding find_due
  find_due-cases j js c h = elim (Bool-cases (due now j)) [
    | inl t ↦ elim (Option-cases (find_due now js)) [
      | inl n ↦ inl (t, some-injective _ _ (sym h ∙ rw (t, n) refl))
      | inr (d, s) ↦ elim (Bool-cases (sooner j d)) [
        | inl y ↦ inl (t, some-injective _ _ (sym h ∙ rw (t, s, y) refl))
        | inr z ↦ inr (rw (t, s, z) refl ∙ h)
      ]
    ]
    | inr n ↦ inr (rw n refl ∙ h)
  ]

  other_id : (c j : Job) → j.id ≢ c.id → lease_where c now j ≡ false
  other_id c j h = elim (Bool-cases (j.id == c.id)) [
    | inl e ↦ absurd (h ((==_iff _ _).0 e))
    | inr e ↦ rw e refl
  ]

  pub find_due-All {ℓ} :
      (Q : Job → Type ℓ) (js : Jobs) (c : Job)
      → find_due now js ≡ some c
      → All (λ (j : Job). due now j ≡ true → Q j) js
      → Q c
  unfolding find_due
  find_due-All Q [] c h a = absurd (none-ne-some _ h)
  find_due-All Q (j ∷ js) c h (a, rest) = elim (find_due-cases j js c h) [
    | inl (t, e) ↦ subst Q (sym e) (a t)
    | inr e ↦ find_due-All Q js c e rest
  ]

  due_when_due : (js : Jobs) → All (λ (j : Job). due now j ≡ true → due now j ≡ true) js
  due_when_due [] = tt
  due_when_due (j ∷ js) = ((λ h. h), due_when_due js)

  find_due-IsDue : (js : Jobs) (c : Job) → find_due now js ≡ some c → due now c ≡ true
  find_due-IsDue js c h = find_due-All (λ j. due now j ≡ true) js c h (due_when_due js)

  -- A property of every row is one of the candidate.
  pub candidate-All {ℓ} :
      (Q : Job → Type ℓ) (js : Jobs) (c : Job) → find_due now js ≡ some c → All Q js → Q c
  candidate-All Q js c h a =
      find_due-All Q js c h (All-imp Q (λ (j : Job). due now j ≡ true → Q j) js (λ j q t. q) a)

  -- Only the candidate's own row has its id, and it is due.
  pub only_candidate :
      (js : Jobs) (c : Job)
      → IdsUnique js
      → find_due now js ≡ some c
      → All (λ (j : Job). j.id ≡ c.id → due now j ≡ true) js
  only_candidate [] c u h = tt
  only_candidate (j ∷ js) c (others, u) h = elim (find_due-cases j js c h) [
    | inl (t, e) ↦ (
      (λ _. t),
      All-imp (λ (k : Job). k.id ≢ j.id) (λ (k : Job). k.id ≡ c.id → due now k ≡ true) js
          (λ k differs same. absurd (differs (same ∙ ap (λ (i : Job). i.id) e))) others,
    )
    | inr e ↦ (
      (λ same. absurd (candidate-All (λ (k : Job). k.id ≢ j.id) js c e others (sym same))),
      only_candidate js c u e,
    )
  ]

  pub count-candidate :
      (js : Jobs) (c : Job)
      → IdsUnique js
      → find_due now js ≡ some c
      → count_where (lease_where c now) js ≡ 1
  unfolding find_due
  count-candidate [] c u h = absurd (none-ne-some _ h)
  count-candidate (j ∷ js) c (others, u) h = elim (find_due-cases j js c h) [
    | inl (t, e) ↦
        let same : (j.id == c.id) ≡ true = (==_iff _ _).1 (ap (λ (i : Job). i.id) (sym e)) in
        let none_other : All (λ k. lease_where c now k ≡ false) js =
          All-imp (λ (k : Job). k.id ≢ j.id) (λ (k : Job). lease_where c now k ≡ false) js
            (λ k differs. other_id c k (λ eq. differs (eq ∙ ap (λ (i : Job). i.id) e))) others in
        rw (same, t, (update_many-no_row (lease_where c now) (λ i. i) js none_other).0) refl
    | inr e ↦
        let differs = candidate-All (λ (k : Job). k.id ≢ j.id) js c e others in
        rw (other_id c j (λ eq. differs (sym eq)), count-candidate js c u e) refl
  ]

abbrev pub at_most_as_soon : ℕ → Job → Job → Bool
at_most_as_soon now c j = not (due now j) || sooner c j

-- The candidate is due and no due row comes before it; with no candidate, no row is due.
abbrev pub IsSoonest : ℕ → Option Job → Jobs → Type 0
IsSoonest now none js = All (λ (j : Job). due now j ≡ false) js
IsSoonest now (some c) js =
    (due now c ≡ true) × All (λ (j : Job). at_most_as_soon now c j ≡ true) js

after_sooner :
    (now : ℕ) (a b : Job) (js : Jobs)
    → sooner a b ≡ true
    → All (λ (j : Job). at_most_as_soon now b j ≡ true) js
    → All (λ (j : Job). at_most_as_soon now a j ≡ true) js
after_sooner now a b js h =
    All-imp (λ (j : Job). at_most_as_soon now b j ≡ true)
      (λ (j : Job). at_most_as_soon now a j ≡ true) js
      λ j k. elim (Bool-cases (due now j)) [
        | inl t ↦
            let below : sooner b j ≡ true = sym (rw t refl) ∙ k in
            rw (t, sooner_trans a b j h below) refl
        | inr n ↦ rw n refl
      ]

skip_not_due :
    (now : ℕ) (j : Job) (o : Option Job) (js : Jobs)
    → due now j ≡ false
    → IsSoonest now o js
    → IsSoonest now o (j ∷ js)
skip_not_due now j none js n h = (n, h)
skip_not_due now j (some c) js n h = (h.0, (rw n refl, h.1))

none_due :
    (now : ℕ) (c : Job) (js : Jobs)
    → All (λ (j : Job). due now j ≡ false) js
    → All (λ (j : Job). at_most_as_soon now c j ≡ true) js
none_due now c js =
    All-imp (λ (j : Job). due now j ≡ false) (λ (j : Job). at_most_as_soon now c j ≡ true) js
      (λ j n. rw n refl)

abbrev next_due : ℕ → Job → Jobs → Option Job
next_due now j js = if due now j then some (first_of_two j (find_due now js)) else find_due now js

find_due-step : (now : ℕ) (j : Job) (js : Jobs) → find_due now (j ∷ js) ≡ next_due now j js
unfolding find_due
find_due-step now j js = refl

find_due-nil : (now : ℕ) → IsSoonest now (find_due now []) []
unfolding find_due
find_due-nil now = tt

pub find_due-IsSoonest : (now : ℕ) (js : Jobs) → IsSoonest now (find_due now js) js
find_due-IsSoonest now [] = find_due-nil now
find_due-IsSoonest now (j ∷ js) =
    let rest : IsSoonest now (find_due now js) js = find_due-IsSoonest now js in
    let becomes = λ (o : Option Job) (e : next_due now j js ≡ o) (s : IsSoonest now o (j ∷ js)).
      subst (λ (c : Option Job). IsSoonest now c (j ∷ js)) (sym (find_due-step now j js ∙ e)) s in
    elim (Bool-cases (due now j)) [
      | inl t ↦ elim (Option-cases (find_due now js)) [
        | inl n ↦
            becomes (some j) (rw (t, n) refl)
              (t, (rw (t, sooner_refl j) refl, none_due now j js (rw n at rest)))
        | inr (d, s) ↦ elim (Bool-cases (sooner j d)) [
          | inl y ↦
              becomes (some j) (rw (t, s, y) refl)
                (t, (rw (t, sooner_refl j) refl, after_sooner now j d js y (rw s at rest).1))
          | inr z ↦
              becomes (some d) (rw (t, s, z) refl)
                ((rw s at rest).0, (rw (t, sooner-total j d z) refl, (rw s at rest).1))
        ]
      ]
      | inr n ↦
          becomes (find_due now js) (rw n refl) (skip_not_due now j (find_due now js) js n rest)
    ]
