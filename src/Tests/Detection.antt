-- ===== src/Tests/Detection.antt =====
-- `detectBundleCandidates` of app/engine/bundles.ts at concrete catalogs.
use my_meridian.Base.{String, ℕ, Option, some, none, List, [], ◌∷◌, ◌≡◌, refl, map, All}
use my_meridian.Base.Text.{Text, codes}
use my_meridian.BundleNames.{PackMatch, match_sku_pack, match_title_pack}
use my_meridian.BundleDetection.{CatalogVariant, BundleCandidate, pair_of, detect_bundle_candidates}
use my_meridian.BundleDetection.Proposals.{detect_bundle_candidates-IsSane}
use my_meridian.BundleDetection.Soundness.{IsSane, NoRepeat}

abbrev same_text : Text → Text
same_text s = s

abbrev variant : String → String → Text → Text → CatalogVariant
variant id product sku title = record {
  variant_id = id;
  of_product = product;
  sku = some sku;
  variant_title = title;
}

sku-trailing_pack :
    match_sku_pack (codes "WIDGET-BLU--3PK")
    ≡ some (record {
      pack_quantity = 3;
      pack_evidence = codes "-3PK";
      remainder = codes "WIDGET-BLU-";
    })
unfolding match_sku_pack
sku-trailing_pack = refl

sku-pack_of :
    map {B = Option PackMatch} match_sku_pack
      (codes "SHIRT3" ∷ codes "A-1PK" ∷ codes "SOAP3PK" ∷ [])
    ≡ none ∷ none ∷ none ∷ []
unfolding match_sku_pack
sku-pack_of = refl

title-count :
    match_title_pack (codes "Soap, 12 - Count (blue)")
    ≡ some (record { title_quantity = 12; title_evidence = codes "12 - Count" })
unfolding match_title_pack
title-count = refl

title-twin :
    match_title_pack (codes "Twin-pack")
    ≡ some (record { title_quantity = 2; title_evidence = codes "Twin-pack" })
unfolding match_title_pack
title-twin = refl

abbrev catalog : List CatalogVariant
catalog =
    variant "v1" "p1" (codes "WIDGET") (codes "Single")
    ∷ variant "v2" "p1" (codes "WIDGET-3PK") (codes "3-Pack")
    ∷ variant "v3" "p1" (codes "OTHER") (codes "Pack of 6")
    ∷ variant "v4" "p2" (codes "CAN-X6") (codes "Six")
    ∷ variant "v5" "p3" (codes "CAN") (codes "One")
    ∷ variant "v6" "p4" (codes "CAN") (codes "One too")
    ∷ []

catalog-proposes :
    map {B = String × ℕ}
      (λ (c : BundleCandidate). (c.bundle_variant, c.candidate_quantity))
      (detect_bundle_candidates same_text catalog)
    ≡ ("v2", 3) ∷ ("v3", 6) ∷ []
unfolding detect_bundle_candidates
catalog-proposes = refl

detect_bundle_candidates-IsSane_example :
    All IsSane (detect_bundle_candidates same_text catalog)
    × NoRepeat (map pair_of (detect_bundle_candidates same_text catalog))
detect_bundle_candidates-IsSane_example = detect_bundle_candidates-IsSane same_text catalog
