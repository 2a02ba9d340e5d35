-- ===== src/Base/Sums.antt =====
-- Sums over the values of a keyed map, and of the parts of lists.
use my_meridian.Base.Tests.{Bool-cases, or_else}
use my_meridian.Base.Int.{ℤ, pos, ◌+ℤ◌, int_laws, sum}
use my_meridian.Base.Keys.{Eq, ◌=?◌, Dict, lookup, insert}
use mathlib.Core.Path.{◌≡◌, refl, ap, ◌∙◌}
use mathlib.Core.Logic.{inl, inr}
use mathlib.Core.Bool.{false}
use mathlib.Core.Option.{Option}
use mathlib.Core.List.{[], ◌∷◌, map}

module _ {ℓ κ} {K : Type ℓ} {V : Type κ} ⦃e : Eq K⦄ where
  lookup_next :
      (k j : K) (w : V) (d : Dict K V) → (k =? j) ≡ false → lookup k ((j, w) ∷ d) ≡ lookup k d
  lookup_next k j w d there = rw there refl

module _ {ℓ κ} {K : Type ℓ} {V : Type κ} (f : V → ℤ) where
  abbrev pub dict_sum : Dict K V → ℤ
  dict_sum [] = pos 0
  dict_sum ((k, v) ∷ d) = f v +ℤ dict_sum d

  pub sum-values : (d : Dict K V) → sum (map (λ (kv : K × V). f kv.1) d) ≡ dict_sum d
  sum-values [] = refl
  sum-values ((k, v) ∷ d) = ap (λ t. f v +ℤ t) (sum-values d)

module _ {ℓ κ} {K : Type ℓ} {V : Type κ} ⦃e : Eq K⦄ (f : V → ℤ) where
  insert_next :
      (k j : K) (w v : V) (d : Dict K V)
      → (k =? j) ≡ false
      → dict_sum f (insert k v ((j, w) ∷ d)) ≡ f w +ℤ dict_sum f (insert k v d)
  insert_next k j w v d there = rw there refl

  -- `const v = map.get(k) ?? fresh; change(v); map.set(k, v)`: what the change adds to the value, it
  -- adds to the sum.
  pub dict_sum-update :
      (g : V → V) (c : ℤ) (fresh : V)
      → ((v : V) → f (g v) ≡ f v +ℤ c)
      → f fresh ≡ pos 0
      → (k : K) (d : Dict K V)
      → dict_sum f (insert k (g (or_else (lookup k d) fresh)) d) ≡ dict_sum f d +ℤ c
  dict_sum-update g c fresh step zero_ k [] = rw (step fresh, zero_) (omega int_laws)
  dict_sum-update g c fresh step zero_ k ((j, w) ∷ d) = elim (Bool-cases (k =? j)) [
    | inl here ↦ rw here (rw (step w) (omega int_laws))
    | inr there ↦
        let changed = λ (o : Option V). g (or_else o fresh) in
        insert_next k j w (changed (lookup k ((j, w) ∷ d))) d there
        ∙ ap (λ o. f w +ℤ dict_sum f (insert k (changed o) d)) (lookup_next k j w d there)
        ∙ rw (dict_sum-update g c fresh step zero_ k d) (omega int_laws)
  ]
