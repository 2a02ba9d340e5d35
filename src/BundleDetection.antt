-- ===== src/BundleDetection.antt =====
-- app/engine/bundles.ts: `detectBundleCandidates`, the bundles that the catalog's names propose.
pub mod PackBounds
pub mod Proposals
pub mod Soundness
use my_meridian.Base.{
  ℕ, ◌+◌, ◌*◌, Bool, true, false, not, ◌&&◌, ◌||◌, Option, none, some, List, [], ◌∷◌, ◌++◌, map,
  ltb, leb, ◌==◌, if◌then◌else◌, or_else, String, length,
}
use my_meridian.Base.Keys.{◌=?◌, string_eq, pair_eq, Dict, lookup, insert}
use my_meridian.Base.Text.{Text, text_eq, codes, trim, is_empty, decimal}
use my_meridian.BundleNames.{
  PackMatch, TitleMatch, match_sku_pack, match_title_pack, strip_separators,
}
use mathlib.Core.List.{foldl}

pub record CatalogVariant : Type 0 where
  pub variant_id : String
  pub of_product : String
  pub sku : Option Text
  pub variant_title : Text

pub data CandidateSource : Type 0 where
  sku_pattern title_pattern : CandidateSource

pub record BundleCandidate : Type 0 where
  pub bundle_variant : String
  pub component_variant : String
  pub candidate_quantity : ℕ
  pub candidate_source : CandidateSource
  pub evidence : Text

-- `candidates` and `seen`
pub record Proposed : Type 0 where
  pub candidates : List BundleCandidate
  pub seen : List (String × String)

abbrev pub pair_of : BundleCandidate → String × String
pair_of c = (c.bundle_variant, c.component_variant)

abbrev pub has_pair : String × String → List (String × String) → Bool
has_pair p [] = false
has_pair p (q ∷ qs) = p =? q || has_pair p qs

-- `propose`
unfoldable pub propose : BundleCandidate → Proposed → Proposed
propose c s =
    if c.bundle_variant =? c.component_variant
    then s
    else if has_pair (pair_of c) s.seen
    then s
    else record { candidates = s.candidates ++ (c ∷ []); seen = s.seen ++ (pair_of c ∷ []) }

-- A SKU that is there and not empty.
abbrev pub truthy_sku : Option Text → Option Text
truthy_sku none = none
truthy_sku (some []) = none
truthy_sku (some (c ∷ s)) = some (c ∷ s)

abbrev pub is_some {ℓ} : {A : Type ℓ} → Option A → Bool
is_some none = false
is_some (some a) = true

-- `"SKU ... matches ..."`
abbrev pub sku_evidence : Text → Text → ℕ → Text
sku_evidence sku base quantity =
    codes "SKU \""
    ++ sku
    ++ codes "\" matches \""
    ++ base
    ++ codes "\" "
    ++ (215 ∷ decimal quantity)

-- `"Variant ... reads as ... of ..."`
abbrev pub title_evidence_of : Text → ℕ → Text → Text
title_evidence_of title quantity base =
    codes "Variant \""
    ++ title
    ++ codes "\" reads as "
    ++ (215 ∷ decimal quantity)
    ++ codes " of \""
    ++ base
    ++ codes "\""

-- `byProduct`
unfoldable pub group_by_product :
    List CatalogVariant → Dict String (List CatalogVariant) → Dict String (List CatalogVariant)
group_by_product [] d = d
group_by_product (v ∷ vs) d =
    group_by_product vs (insert v.of_product (or_else (lookup v.of_product d) [] ++ (v ∷ [])) d)

abbrev pub keep_pack :
    CatalogVariant
    → Option TitleMatch
    → List (CatalogVariant × TitleMatch)
    → List (CatalogVariant × TitleMatch)
keep_pack v none rest = rest
keep_pack v (some m) rest = (v, m) ∷ rest

-- The siblings with a pack marker, and those without.
unfoldable pub packs_of : List CatalogVariant → List (CatalogVariant × TitleMatch)
unfolding match_title_pack
packs_of [] = []
packs_of (v ∷ vs) = keep_pack v (match_title_pack v.variant_title) (packs_of vs)

unfoldable pub singles_of : List CatalogVariant → List CatalogVariant
unfolding match_title_pack
singles_of [] = []
singles_of (v ∷ vs) =
    if is_some (match_title_pack v.variant_title) then singles_of vs else v ∷ singles_of vs

abbrev pub has_bundle : String → List BundleCandidate → Bool
has_bundle id [] = false
has_bundle id (c ∷ cs) = id =? c.bundle_variant || has_bundle id cs

-- A round of the last loop, where the first pass has proposed no such bundle.
unfoldable pub propose_title :
    List BundleCandidate → CatalogVariant → CatalogVariant × TitleMatch → Proposed → Proposed
unfolding propose
propose_title proposed base (v, m) s =
    if has_bundle v.variant_id proposed
    then s
    else propose
        (record {
          bundle_variant = v.variant_id;
          component_variant = base.variant_id;
          candidate_quantity = m.title_quantity;
          candidate_source = title_pattern;
          evidence = title_evidence_of v.variant_title m.title_quantity base.variant_title;
        })
        s

unfoldable pub propose_packs :
    List BundleCandidate → CatalogVariant → List (CatalogVariant × TitleMatch) → Proposed → Proposed
unfolding propose_title
propose_packs proposed base [] s = s
propose_packs proposed base (p ∷ ps) s =
    propose_packs proposed base ps (propose_title proposed base p s)

-- The siblings of one product: exactly one of them has no pack marker, or they are left alone.
unfoldable pub with_single :
    List BundleCandidate
    → List CatalogVariant
    → List (CatalogVariant × TitleMatch)
    → Proposed
    → Proposed
unfolding propose_packs
with_single proposed [] packs s = s
with_single proposed (base ∷ []) packs s = propose_packs proposed base packs s
with_single proposed (base ∷ other ∷ more) packs s = s

-- A round of the loop over the products.
unfoldable pub propose_product : List BundleCandidate → List CatalogVariant → Proposed → Proposed
unfolding with_single singles_of packs_of
propose_product proposed siblings s =
    let packs = packs_of siblings in
    if ltb (length siblings) 2 || length packs == 0
    then s
    else with_single proposed (singles_of siblings) packs s

unfoldable pub propose_siblings :
    List BundleCandidate → Dict String (List CatalogVariant) → Proposed → Proposed
unfolding propose_product
propose_siblings proposed [] s = s
propose_siblings proposed ((id, siblings) ∷ d) s =
    propose_siblings proposed d (propose_product proposed siblings s)

-- `toUpperCase` is an argument.
module _ (upper_case : Text → Text) where
  -- `normaliseSku`
  unfoldable pub normalise_sku : Text → Text
  unfolding trim
  normalise_sku sku = upper_case (trim sku)

  -- `bySku`: `none` marks a SKU of more than one variant.
  unfoldable pub index_skus :
      List CatalogVariant → Dict Text (Option CatalogVariant) → Dict Text (Option CatalogVariant)
  unfolding normalise_sku
  index_skus [] d = d
  index_skus (v ∷ vs) d = index_skus vs (with_sku (truthy_sku v.sku))
    where
      with_sku : Option Text → Dict Text (Option CatalogVariant)
      with_sku none = d
      with_sku (some sku) =
          let key = normalise_sku sku in
          if is_empty key then d else insert key (if is_some (lookup key d) then none else some v) d

  -- The base of a pack, if its SKU names exactly one variant.
  abbrev pub base_variant : Option (Option CatalogVariant) → Option CatalogVariant
  base_variant none = none
  base_variant (some base) = base

  unfoldable pub propose_base :
      CatalogVariant → Text → Text → ℕ → Option CatalogVariant → Proposed → Proposed
  unfolding propose
  propose_base v sku base_sku quantity none s = s
  propose_base v sku base_sku quantity (some base) s =
      propose
        (record {
          bundle_variant = v.variant_id;
          component_variant = base.variant_id;
          candidate_quantity = quantity;
          candidate_source = sku_pattern;
          evidence = sku_evidence sku base_sku quantity;
        })
        s

  unfoldable pub propose_pack :
      Dict Text (Option CatalogVariant)
      → CatalogVariant
      → Text
      → Option PackMatch
      → Proposed
      → Proposed
  unfolding strip_separators propose_base
  propose_pack by_sku v sku none s = s
  propose_pack by_sku v sku (some pack) s =
      let base_sku = strip_separators pack.remainder in
      if is_empty base_sku
      then s
      else propose_base v sku base_sku pack.pack_quantity (base_variant (lookup base_sku by_sku)) s

  unfoldable pub propose_of_sku :
      Dict Text (Option CatalogVariant) → CatalogVariant → Option Text → Proposed → Proposed
  unfolding propose_pack match_sku_pack normalise_sku
  propose_of_sku by_sku v none s = s
  propose_of_sku by_sku v (some sku) s =
      propose_pack by_sku v sku (match_sku_pack (normalise_sku sku)) s

  unfoldable pub propose_skus :
      Dict Text (Option CatalogVariant) → List CatalogVariant → Proposed → Proposed
  unfolding propose_of_sku
  propose_skus by_sku [] s = s
  propose_skus by_sku (v ∷ vs) s =
      propose_skus by_sku vs (propose_of_sku by_sku v (truthy_sku v.sku) s)

  -- `detectBundleCandidates`
  unfoldable pub detect_bundle_candidates : List CatalogVariant → List BundleCandidate
  unfolding index_skus group_by_product propose_skus propose_siblings
  detect_bundle_candidates variants =
      let first =
        propose_skus (index_skus variants []) variants (record { candidates = []; seen = [] }) in
      (propose_siblings first.candidates (group_by_product variants []) first).candidates
