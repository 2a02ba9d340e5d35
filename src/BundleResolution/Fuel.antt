-- ===== src/BundleResolution/Fuel.antt =====
-- The recursion of `resolve` in app/engine/bundles.ts: the depth guard ends it.
use my_meridian.Base.{
  ℕ, zero, suc, ◌+◌, ◌≤◌, ◌<◌, true, some, List, [], ◌∷◌, ◌≡◌, refl, ◌∙◌, ap, inl, inr, arith, ltb,
  leb, leb→le, lt→ltb, Bool-cases, Option-cases, String,
}
use my_meridian.Base.Keys.{lookup, string_eq}
use my_meridian.Bundles.{Adjacency, AdjacencyEntry, max_bundle_depth}
use my_meridian.BundleResolution.{
  Resolution, Resolve, Bases, resolve_components, resolve, is_member,
}

same_function : {f g : Resolve} → ((v : String) (s : Resolution) → f v s ≡ g v s) → f ≡ g
same_function p i v s = p v s i

module _ (adjacency : Adjacency) (bases : Bases) where
  -- Below the greatest depth, what a level deeper would do does not matter.
  resolve_components-deep :
      (f g : Resolve) (depth : ℕ) (variant : String) (cs : List AdjacencyEntry) (s : Resolution)
      → max_bundle_depth < depth
      → resolve_components adjacency f depth variant cs s
        ≡ resolve_components adjacency g depth variant cs s
  unfolding resolve_components
  resolve_components-deep f g depth variant cs s deep =
      let guard : ltb max_bundle_depth depth ≡ true = lt→ltb max_bundle_depth depth deep in
      elim (Option-cases (lookup variant s.resolved)) [
        | inr (r, known) ↦ rw (resolve_components, known) refl
        | inl unknown ↦ elim (Bool-cases (is_member variant s.in_progress)) [
          | inl again ↦ rw (resolve_components, unknown, again) refl
          | inr first ↦ rw (resolve_components, unknown, first, guard) refl
        ]
      ]

  level :
      (m n depth : ℕ) (variant : String) (s : Resolution)
      → ((c : AdjacencyEntry) (cs : List AdjacencyEntry)
          → resolve_components adjacency
              (resolve m adjacency bases (suc depth))
              depth
              variant
              (c ∷ cs)
              s
            ≡ resolve_components adjacency
                (resolve n adjacency bases (suc depth))
                depth
                variant
                (c ∷ cs)
                s)
      → resolve (suc m) adjacency bases depth variant s
        ≡ resolve (suc n) adjacency bases depth variant s
  unfolding resolve
  level m n depth variant s inner = elim (Option-cases (lookup variant adjacency)) [
    | inl n0 ↦ rw (resolve, n0) refl
    | inr (cs, e) ↦ by_components cs e
  ]
    where
      by_components :
          (cs : List AdjacencyEntry)
          → lookup variant adjacency ≡ some cs
          → resolve (suc m) adjacency bases depth variant s
            ≡ resolve (suc n) adjacency bases depth variant s
      by_components [] e = rw (resolve, e) refl
      by_components (c ∷ cs) e = rw (resolve, e) (inner c cs)

  one_level_more :
      (fuel depth : ℕ) (variant : String) (s : Resolution)
      → 1 ≤ fuel
      → 10 ≤ fuel + depth
      → resolve (suc fuel) adjacency bases depth variant s
        ≡ resolve fuel adjacency bases depth variant s
  one_level_more zero depth variant s h k = absurd (omega (arith, h))
  one_level_more (suc zero) depth variant s h k = level 1 0 depth variant s (λ c cs.
      resolve_components-deep (resolve 1 adjacency bases (suc depth))
        (resolve 0 adjacency bases (suc depth)) depth variant (c ∷ cs) s (omega arith))
  one_level_more (suc (suc fuel)) depth variant s h k =
      level (suc (suc fuel)) (suc fuel) depth variant s (λ c cs.
        ap (λ (f : Resolve). resolve_components adjacency f depth variant (c ∷ cs) s)
          (same_function
            (λ v t. one_level_more (suc fuel) (suc depth) v t (omega arith) (omega arith))))

  -- The depth guard ends the recursion: from the top, ten levels of calls are enough, and any larger
  -- number of them gives the same timelines, problems and order of diagnosis.
  pub resolve-enough :
      (fuel : ℕ) (variant : String) (s : Resolution)
      → 10 ≤ fuel
      → resolve fuel adjacency bases 0 variant s ≡ resolve 10 adjacency bases 0 variant s
  resolve-enough zero variant s h = absurd (omega (arith, h))
  resolve-enough (suc fuel) variant s h =
      let last : fuel < 10 → suc fuel ≡ 10 = λ k. omega arith in
      elim (Bool-cases (leb 10 fuel)) [
        | inl more ↦
            let le = leb→le 10 fuel more in
            one_level_more fuel 0 variant s (omega (arith, le)) (omega (arith, le))
            ∙ resolve-enough fuel variant s le
        | inr less ↦
            let below : fuel < 10 = ground arith in
            ap (λ (n : ℕ). resolve n adjacency bases 0 variant s) (last below)
      ]
