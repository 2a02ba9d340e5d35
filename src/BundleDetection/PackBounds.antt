-- ===== src/BundleDetection/PackBounds.antt =====
-- The quantities that the patterns of `matchSkuPack` and `matchTitlePack` (app/engine/bundles.ts)
-- read.
use my_meridian.Base.{
  ℕ, ◌≡◌, true, Option, none, some, List, [], ◌∷◌, or_else, Bool-cases, inl, inr,
}
use my_meridian.Base.Keys.{string_eq, pair_eq}
use my_meridian.Base.Text.{Text, text_eq}
use my_meridian.Base.Pattern.{Pattern, Found, exec}
use my_meridian.BundleNames.{
  PackMatch, TitleMatch, TitlePattern, in_bounds, sku_match, match_sku_patterns, title_match,
  match_title_patterns, group_number,
}

abbrev pub PackBound : Option PackMatch → Type 0
PackBound none = Unit
PackBound (some m) = in_bounds m.pack_quantity ≡ true

sku_match-PackBound :
    (sku : Text) (f : Option Found) (others : Option PackMatch)
    → PackBound others
    → PackBound (sku_match sku f others)
sku_match-PackBound sku none others h = h
sku_match-PackBound sku (some f) others h =
    elim (Bool-cases (in_bounds (group_number f.found_group))) [ inl t ↦ rw t t | inr n ↦ rw n h ]

pub match_sku_patterns-PackBound :
    (sku : Text) (ps : List Pattern) → PackBound (match_sku_patterns sku ps)
unfolding match_sku_patterns
match_sku_patterns-PackBound sku [] = tt
match_sku_patterns-PackBound sku (p ∷ ps) =
    sku_match-PackBound sku (exec p sku) (match_sku_patterns sku ps)
      (match_sku_patterns-PackBound sku ps)

abbrev pub TitleBound : Option TitleMatch → Type 0
TitleBound none = Unit
TitleBound (some m) = in_bounds m.title_quantity ≡ true

title_match-TitleBound :
    (quantity : Option ℕ) (f : Option Found) (others : Option TitleMatch)
    → TitleBound others
    → TitleBound (title_match quantity f others)
title_match-TitleBound quantity none others h = h
title_match-TitleBound quantity (some f) others h =
    elim (Bool-cases (in_bounds (or_else quantity (group_number f.found_group)))) [
      | inl t ↦ rw t t
      | inr n ↦ rw n h
    ]

pub match_title_patterns-TitleBound :
    (title : Text) (ps : List TitlePattern) → TitleBound (match_title_patterns title ps)
unfolding match_title_patterns
match_title_patterns-TitleBound title [] = tt
match_title_patterns-TitleBound title ((p, q) ∷ ps) =
    title_match-TitleBound q (exec p title) (match_title_patterns title ps)
      (match_title_patterns-TitleBound title ps)
