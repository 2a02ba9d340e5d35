-- ===== src/BundleDetection/Proposals.antt =====
-- What `detectBundleCandidates` (app/engine/bundles.ts) proposes.
use my_meridian.Base.{
  ℕ, ◌≡◌, refl, sym, true, ◌||◌, Option, none, some, List, [], ◌∷◌, map, ltb, ◌==◌, String, length,
  All, Bool-cases, inl, inr,
}
use my_meridian.Base.Keys.{string_eq, pair_eq, Dict, lookup}
use my_meridian.Base.Text.{Text, text_eq, is_empty}
use my_meridian.BundleNames.{
  PackMatch, TitleMatch, in_bounds, match_sku_pack, sku_pack_patterns, match_title_pack,
  title_pack_patterns, strip_separators,
}
use mathlib.Core.Path.{subst}
use my_meridian.BundleDetection.{
  CatalogVariant, BundleCandidate, Proposed, pair_of, keep_pack, propose_product, normalise_sku,
  packs_of, singles_of, has_bundle, propose_title, propose_packs, with_single, propose_siblings,
  propose_base, propose_pack, propose_of_sku, propose_skus, truthy_sku, base_variant, index_skus,
  group_by_product, detect_bundle_candidates,
}
use my_meridian.BundleDetection.Soundness.{IsSane, NoRepeat, Sound, propose-Sound}
use my_meridian.BundleDetection.PackBounds.{
  PackBound, match_sku_patterns-PackBound, TitleBound, match_title_patterns-TitleBound,
}

module _ (proposed : List BundleCandidate) where
  AllPacksBound : List (CatalogVariant × TitleMatch) → Type 0
  AllPacksBound = All (λ (p : CatalogVariant × TitleMatch). in_bounds p.1.title_quantity ≡ true)

  propose_title-Sound :
      (base v : CatalogVariant) (m : TitleMatch) (s : Proposed)
      → in_bounds m.title_quantity ≡ true
      → Sound s
      → Sound (propose_title proposed base (v, m) s)
  unfolding propose_title
  propose_title-Sound base v m s q h = elim (Bool-cases (has_bundle v.variant_id proposed)) [
    | inl known ↦ rw known h
    | inr new ↦ rw new (propose-Sound _ s q h)
  ]

  propose_packs-Sound :
      (base : CatalogVariant) (packs : List (CatalogVariant × TitleMatch)) (s : Proposed)
      → AllPacksBound packs
      → Sound s
      → Sound (propose_packs proposed base packs s)
  unfolding propose_packs AllPacksBound
  propose_packs-Sound base [] s q h = h
  propose_packs-Sound base ((v, m) ∷ ps) s (q, qs) h =
      propose_packs-Sound base ps (propose_title proposed base (v, m) s) qs
        (propose_title-Sound base v m s q h)

  with_single-Sound :
      (singles : List CatalogVariant) (packs : List (CatalogVariant × TitleMatch)) (s : Proposed)
      → AllPacksBound packs
      → Sound s
      → Sound (with_single proposed singles packs s)
  unfolding with_single
  with_single-Sound [] packs s q h = h
  with_single-Sound (base ∷ []) packs s q h = propose_packs-Sound base packs s q h
  with_single-Sound (base ∷ other ∷ more) packs s q h = h

  keep_pack-bound :
      (v : CatalogVariant) (o : Option TitleMatch) (rest : List (CatalogVariant × TitleMatch))
      → TitleBound o
      → AllPacksBound rest
      → AllPacksBound (keep_pack v o rest)
  unfolding AllPacksBound
  keep_pack-bound v none rest b h = h
  keep_pack-bound v (some m) rest b h = (b, h)

  packs_of-bound : (vs : List CatalogVariant) → AllPacksBound (packs_of vs)
  unfolding packs_of AllPacksBound match_title_pack
  packs_of-bound [] = tt
  packs_of-bound (v ∷ vs) =
      keep_pack-bound v (match_title_pack v.variant_title) (packs_of vs)
        (match_title_patterns-TitleBound v.variant_title title_pack_patterns) (packs_of-bound vs)

  propose_product-Sound :
      (siblings : List CatalogVariant) (s : Proposed)
      → Sound s
      → Sound (propose_product proposed siblings s)
  unfolding propose_product
  propose_product-Sound siblings s h =
      let packs = packs_of siblings in
      elim (Bool-cases (ltb (length siblings) 2 || length packs == 0)) [
        | inl few ↦ rw few h
        | inr enough ↦
            rw enough (with_single-Sound (singles_of siblings) packs s (packs_of-bound siblings) h)
      ]

  propose_siblings-Sound :
      (d : Dict String (List CatalogVariant)) (s : Proposed)
      → Sound s
      → Sound (propose_siblings proposed d s)
  unfolding propose_siblings
  propose_siblings-Sound [] s h = h
  propose_siblings-Sound ((id, siblings) ∷ d) s h =
      propose_siblings-Sound d (propose_product proposed siblings s)
        (propose_product-Sound siblings s h)

module _ (upper_case : Text → Text) (by_sku : Dict Text (Option CatalogVariant)) where
  propose_base-Sound :
      (v : CatalogVariant) (sku base_sku : Text) (quantity : ℕ) (base : Option CatalogVariant)
      (s : Proposed)
      → in_bounds quantity ≡ true
      → Sound s
      → Sound (propose_base upper_case v sku base_sku quantity base s)
  unfolding propose_base
  propose_base-Sound v sku base_sku quantity none s q h = h
  propose_base-Sound v sku base_sku quantity (some base) s q h = propose-Sound _ s q h

  propose_pack-Sound :
      (v : CatalogVariant) (sku : Text) (pack : Option PackMatch) (s : Proposed)
      → PackBound pack
      → Sound s
      → Sound (propose_pack upper_case by_sku v sku pack s)
  unfolding propose_pack
  propose_pack-Sound v sku none s b h = h
  propose_pack-Sound v sku (some pack) s b h =
      let base_sku = strip_separators pack.remainder in
      elim (Bool-cases (is_empty base_sku)) [
        | inl empty ↦ rw empty h
        | inr named ↦ rw named (
            propose_base-Sound v sku base_sku pack.pack_quantity
              (base_variant upper_case (lookup base_sku by_sku)) s b h)
      ]

  propose_of_sku-Sound :
      (v : CatalogVariant) (sku : Option Text) (s : Proposed)
      → Sound s
      → Sound (propose_of_sku upper_case by_sku v sku s)
  unfolding propose_of_sku match_sku_pack
  propose_of_sku-Sound v none s h = h
  propose_of_sku-Sound v (some sku) s h =
      let key = normalise_sku upper_case sku in
      propose_pack-Sound v sku (match_sku_pack key) s
        (match_sku_patterns-PackBound key sku_pack_patterns) h

  propose_skus-Sound :
      (vs : List CatalogVariant) (s : Proposed)
      → Sound s
      → Sound (propose_skus upper_case by_sku vs s)
  unfolding propose_skus
  propose_skus-Sound [] s h = h
  propose_skus-Sound (v ∷ vs) s h =
      propose_skus-Sound vs (propose_of_sku upper_case by_sku v (truthy_sku v.sku) s)
        (propose_of_sku-Sound v (truthy_sku v.sku) s h)

-- What is proposed for a catalog is sane, each bundle being made of another variant two to a
-- thousand times, and proposes no pair of a bundle and a component twice.
pub detect_bundle_candidates-IsSane :
    (upper_case : Text → Text) (variants : List CatalogVariant)
    → let found = detect_bundle_candidates upper_case variants in
      All IsSane found × NoRepeat (map pair_of found)
unfolding detect_bundle_candidates
detect_bundle_candidates-IsSane upper_case variants =
    let nothing : Proposed = record { candidates = []; seen = [] } in
    let by_sku = index_skus upper_case variants [] in
    let first = propose_skus upper_case by_sku variants nothing in
    let found = propose_siblings first.candidates (group_by_product variants []) first in
    let (sane, same, once) =
      propose_siblings-Sound first.candidates (group_by_product variants []) first
        (propose_skus-Sound upper_case by_sku variants nothing (tt, refl, tt)) in
    (sane, subst NoRepeat (sym same) once)
