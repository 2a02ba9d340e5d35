-- ===== src/Base/Table.antt =====
-- A table of a database as a list of rows, and the statements that change it: `create`, `updateMany`
-- with its `where`, and the count that it reports.
use my_meridian.Base.Tests.{if◌then◌else◌, Bool-cases}
use my_meridian.Base.Lists.{All}
use Prim.Native.Nat.{ℕ, ◌+◌, ◌≤◌}
use mathlib.Core.Path.{◌≡◌, refl}
use mathlib.Core.Logic.{inl, inr}
use mathlib.Core.Bool.{Bool, true, false}
use mathlib.Core.List.{List, [], ◌∷◌}
use native.Mathlib.Omega.{arith}

module _ {R : Type 0} where
  -- `updateMany({ where, data })`
  abbrev pub update_many : (R → Bool) → (R → R) → List R → List R
  update_many where_ change [] = []
  update_many where_ change (j ∷ js) =
      (if where_ j then change j else j) ∷ update_many where_ change js

  abbrev pub count_where : (R → Bool) → List R → ℕ
  count_where p [] = 0
  count_where p (j ∷ js) = (if p j then 1 else 0) + count_where p js

  -- `create`
  abbrev pub append_row : List R → R → List R
  append_row [] j = j ∷ []
  append_row (i ∷ is) j = i ∷ append_row is j

module _ {R : Type 0} (p : R → Bool) (f : R → R) where
  -- A `where` that no row meets changes nothing.
  pub update_many-no_row :
      (js : List R) → All (λ j. p j ≡ false) js → (count_where p js ≡ 0) × (update_many p f js ≡ js)
  update_many-no_row [] h = (refl, refl)
  update_many-no_row (j ∷ js) (h, hs) =
      let (c, u) = update_many-no_row js hs in ((rw (h, c) refl), rw (h, u) refl)

  -- A property that the change keeps is kept by the update.
  pub All-update_many {ℓ} :
      (P : R → Type ℓ) (js : List R)
      → ((j : R) → p j ≡ true → P j → P (f j))
      → All P js
      → All P (update_many p f js)
  All-update_many P [] keep a = tt
  All-update_many P (j ∷ js) keep (a, rest_a) =
      let rest = All-update_many P js keep rest_a in
      elim (Bool-cases (p j)) [ inl t ↦ (rw t (keep j t a), rest) | inr n ↦ (rw n a, rest) ]

  -- A change that makes no row meet a test leaves no more rows that meet it.
  pub count_where-update_le :
      (q : R → Bool) (js : List R)
      → ((j : R) → p j ≡ true → q j ≡ false → q (f j) ≡ false)
      → count_where q (update_many p f js) ≤ count_where q js
  count_where-update_le q [] keep = omega arith
  count_where-update_le q (j ∷ js) keep =
      let rest = count_where-update_le q js keep in
      elim (Bool-cases (p j)) [
        | inl t ↦ elim (Bool-cases (q j)) [
          | inl y ↦ elim (Bool-cases (q (f j))) [
            | inl z ↦ rw (t, y, z) omega (arith, rest)
            | inr z ↦ rw (t, y, z) omega (arith, rest)
          ]
          | inr n ↦ rw (t, n, keep j t n) omega (arith, rest)
        ]
        | inr n ↦ rw n omega (arith, rest)
      ]

pub count_where-append_row :
    {R : Type 0} (q : R → Bool) (js : List R) (j : R)
    → count_where q (append_row js j) ≡ count_where q js + (if q j then 1 else 0)
count_where-append_row q [] j = omega arith
count_where-append_row q (i ∷ is) j = omega (arith, count_where-append_row q is j)

pub All-append_row {ℓ} :
    {R : Type 0} (P : R → Type ℓ) (js : List R) (j : R) → All P js → P j → All P (append_row js j)
All-append_row P [] j a h = (h, tt)
All-append_row P (i ∷ is) j (a, rest_a) h = (a, All-append_row P is j rest_a h)

-- A change that leaves a test as it is leaves the count of the rows that meet it.
pub count_where-update_eq :
    {R : Type 0} (p q : R → Bool) (f : R → R) (js : List R)
    → ((j : R) → q (f j) ≡ q j)
    → count_where q (update_many p f js) ≡ count_where q js
count_where-update_eq p q f [] keep = refl
count_where-update_eq p q f (j ∷ js) keep =
    let rest = count_where-update_eq p q f js keep in
    elim (Bool-cases (p j)) [ inl t ↦ rw (t, keep j, rest) refl | inr n ↦ rw (n, rest) refl ]
