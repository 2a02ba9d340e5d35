-- ===== src/Base/Sort.antt =====
-- `Array.prototype.sort`, which is stable, as an insertion sort by a test "may stand before".
use my_meridian.Base.Tests.{if◌then◌else◌, Bool-cases}
use my_meridian.Base.Lists.{length, All}
use my_meridian.Base.Int.{ℤ, ◌+ℤ◌, sum, int_laws}
use Prim.Native.Nat.{suc}
use mathlib.Core.Path.{◌≡◌, refl, ap, ◌∙◌}
use mathlib.Core.Logic.{inl, inr}
use mathlib.Core.Bool.{Bool}
use mathlib.Core.List.{List, [], ◌∷◌, map}
use native.Mathlib.Omega.{arith}

module _ {ℓ} {A : Type ℓ} (before : A → A → Bool) where
  abbrev pub insert_sorted : A → List A → List A
  insert_sorted a [] = a ∷ []
  insert_sorted a (x ∷ xs) = if before a x then a ∷ x ∷ xs else x ∷ insert_sorted a xs

  abbrev pub sort : List A → List A
  sort [] = []
  sort (x ∷ xs) = insert_sorted x (sort xs)

  length-insert_sorted : (a : A) (xs : List A) → length (insert_sorted a xs) ≡ suc (length xs)
  length-insert_sorted a [] = refl
  length-insert_sorted a (x ∷ xs) = ground (arith, length-insert_sorted a xs)

  pub length-sort : (xs : List A) → length (sort xs) ≡ length xs
  length-sort [] = refl
  length-sort (x ∷ xs) = length-insert_sorted x (sort xs) ∙ ap suc (length-sort xs)

  module _ {κ} (P : A → Type κ) where
    pub insert_sorted-All : (a : A) (xs : List A) → P a → All P xs → All P (insert_sorted a xs)
    insert_sorted-All a [] p ps = (p, tt)
    insert_sorted-All a (x ∷ xs) p (q, qs) = elim (Bool-cases (before a x)) [
      | inl first ↦ rw first (p, (q, qs))
      | inr later ↦ rw later (q, insert_sorted-All a xs p qs)
    ]

    pub sort-All : (xs : List A) → All P xs → All P (sort xs)
    sort-All [] ps = tt
    sort-All (x ∷ xs) (p, ps) = insert_sorted-All x (sort xs) p (sort-All xs ps)

module _ {ℓ} {A : Type ℓ} (before : A → A → Bool) (f : A → ℤ) where
  sum-insert_sorted :
      (a : A) (xs : List A) → sum (map f (insert_sorted before a xs)) ≡ f a +ℤ sum (map f xs)
  sum-insert_sorted a [] = refl
  sum-insert_sorted a (x ∷ xs) = elim (Bool-cases (before a x)) [
    | inl first ↦ rw first refl
    | inr later ↦ rw later (rw (sum-insert_sorted a xs) (omega int_laws))
  ]

  -- Sorting changes no sum.
  pub sum-sort : (xs : List A) → sum (map f (sort before xs)) ≡ sum (map f xs)
  sum-sort [] = refl
  sum-sort (x ∷ xs) = sum-insert_sorted x (sort before xs) ∙ ap (λ t. f x +ℤ t) (sum-sort xs)
