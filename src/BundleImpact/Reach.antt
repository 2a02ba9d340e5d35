-- ===== src/BundleImpact/Reach.antt =====
-- `bundlesAffectedBy` (app/engine/bundles.ts) finds exactly the bundles above a change.
use my_meridian.Base.{
  ◌+◌, ◌≡◌, ◌↔◌, ◌⊎◌, refl, sym, ap, ◌∙◌, true, true-ne-false, List, [], ◌∷◌, String, length,
  Bool-cases, inl, inr, arith,
}
use my_meridian.Base.Keys.{◌=?◌, string_eq}
use my_meridian.Bundles.{BundleEdge}
use my_meridian.BundleImpact.{has, parents_of, bundles_affected_by}
use my_meridian.BundleImpact.Walk.{
  bundles_of, lookup-parents_of, open_edges, targets, either, or_true, parents_at, Subset, walk-All,
  walk-closed,
}

bundles_of-targets : (es : List BundleEdge) (c : String) → Subset (bundles_of es c) (targets es)
bundles_of-targets [] c x t = t
bundles_of-targets (e ∷ es) c x t = elim (Bool-cases (e.component_variant_id =? c)) [
  | inl same ↦ elim (either (x =? e.bundle_variant_id) (has x (bundles_of es c)) (rw same at t)) [
    | inl here ↦ rw here refl
    | inr later ↦ rw (bundles_of-targets es c x later) (or_true (x =? e.bundle_variant_id))
  ]
  | inr other ↦ rw (bundles_of-targets es c x (rw other at t)) (or_true (x =? e.bundle_variant_id))
]

open_edges-nothing : (es : List BundleEdge) → open_edges [] es ≡ length es
open_edges-nothing [] = refl
open_edges-nothing (e ∷ es) = omega (arith, open_edges-nothing es)

module _ (edges : List BundleEdge) (changed : List String) where
  -- A bundle with an edge to a changed variant, or to an affected one.
  pub data Affected : String → Type 0 where
    above_changed :
        (c b : String) → has c changed ≡ true → has b (bundles_of edges c) ≡ true → Affected b
    above_affected : (c b : String) → Affected c → has b (bundles_of edges c) ≡ true → Affected b

  parents_at-edges : (v : String) → parents_at (parents_of edges []) v ≡ bundles_of edges v
  parents_at-edges v = lookup-parents_of edges [] v

  -- What counts as changed or affected.
  abbrev Known : String → Type 0
  Known v = (has v changed ≡ true) ⊎ Affected v

  found-Affected : (b : String) → has b (bundles_affected_by edges changed) ≡ true → Affected b
  unfolding bundles_affected_by
  found-Affected =
      walk-All (parents_of edges []) Affected Known (λ x a. inr a)
        (λ v q x t. leads v q x (sym (ap (has x) (parents_at-edges v)) ∙ t))
        (length changed + length edges) [] changed (λ x t. absurd (true-ne-false (sym t)))
        (λ x t. inl t)
    where
      leads : (v : String) → Known v → (x : String) → has x (bundles_of edges v) ≡ true → Affected x
      leads v (inl h) x t = above_changed v x h t
      leads v (inr a) x t = above_affected v x a t

  found-closed :
      (v : String)
      → (has v changed ≡ true) ⊎ (has v (bundles_affected_by edges changed) ≡ true)
      → Subset (bundles_of edges v) (bundles_affected_by edges changed)
  unfolding bundles_affected_by
  found-closed v s x t =
      walk-closed (parents_of edges []) edges
        (λ u y h. bundles_of-targets edges u y (sym (ap (has y) (parents_at-edges u)) ∙ h))
        (λ u. has u changed ≡ true) (length changed + length edges) [] changed
        (omega (arith, open_edges-nothing edges)) (λ u w. inl (starts u w)) v s x
        (ap (has x) (parents_at-edges v) ∙ t)
    where
      starts : (u : String) → (has u changed ≡ true) ⊎ (has u [] ≡ true) → has u changed ≡ true
      starts u (inl h) = h
      starts u (inr h) = absurd (true-ne-false (sym h))

  Affected-found : (b : String) → Affected b → has b (bundles_affected_by edges changed) ≡ true
  Affected-found b (above_changed c _ h t) = found-closed c (inl h) b t
  Affected-found b (above_affected c _ a t) = found-closed c (inr (Affected-found c a)) b t

  -- What is found is exactly what stands above the changed variants, through any number of edges.
  pub bundles_affected_by-exact :
      (b : String) → (has b (bundles_affected_by edges changed) ≡ true) ↔ Affected b
  bundles_affected_by-exact b = (found-Affected b, Affected-found b)
