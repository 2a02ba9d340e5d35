-- ===== src/BundleNames.antt =====
-- app/engine/bundles.ts: the pack markers in the SKUs and titles of variants.
use my_meridian.Base.{
  ℕ, Bool, ◌&&◌, ◌||◌, Option, none, some, List, [], ◌∷◌, leb, ◌==◌, if◌then◌else◌, take, or_else,
}
use my_meridian.Base.Text.{Text, codes, is_digit, is_space, is_empty, read_natural}
use my_meridian.Base.Pattern.{
  Pattern, one, many, any, optional, then_, either_, group, at_end, boundary, Found, exec, word,
  one_of,
}

-- `MIN_DETECTED_QUANTITY` and `MAX_DETECTED_QUANTITY`
abbrev pub min_detected_quantity : ℕ
min_detected_quantity = 2

abbrev pub max_detected_quantity : ℕ
max_detected_quantity = 1_000

-- `[-_ ]`
abbrev pub separator : ℕ → Bool
separator = one_of (codes "-_ ")

abbrev pub number_group : Pattern
number_group = group (many is_digit)

-- `SKU_PACK_PATTERNS`
abbrev pub sku_pack_patterns : List Pattern
sku_pack_patterns =
    then_ (one separator) (
      word (codes "PACK") (
        then_ (optional separator)
          (word (codes "OF") (then_ (optional separator) (then_ number_group at_end)))))
    ∷ then_ (one separator) (
        then_ number_group (
          then_ (optional separator) (
            either_ (word (codes "PK") at_end) (
              either_ (word (codes "PACK") at_end) (
                either_ (word (codes "PCS") at_end) (
                  either_ (word (codes "PC") at_end)
                    (either_ (word (codes "CT") at_end) (word (codes "COUNT") at_end))))))))
    ∷ then_ (one separator)
        (word (codes "X") (then_ (optional separator) (then_ number_group at_end)))
    ∷ then_ (one separator) (then_ number_group (word (codes "X") at_end))
    ∷ []

-- `[-–]` and `[-\s]`
abbrev pub dash : ℕ → Bool
dash c = c == 45 || c == 8211

abbrev pub dash_or_space : ℕ → Bool
dash_or_space c = c == 45 || is_space c

-- A title pattern, with the quantity that it means where it names none.
abbrev pub TitlePattern : Type 0
TitlePattern = Pattern × Option ℕ

-- `TITLE_PACK_PATTERNS`
abbrev pub title_pack_patterns : List TitlePattern
title_pack_patterns =
    (
      then_ boundary (
          word (codes "PACK") (
            then_ (many is_space)
              (word (codes "OF") (then_ (many is_space) (then_ number_group boundary))))),
      none,
    )
    ∷ (
      then_ boundary (
          then_ number_group (
            then_ (any is_space) (
              then_ (optional dash) (
                then_ (any is_space) (
                  either_ (word (codes "PACK") boundary) (
                    either_ (word (codes "PK") boundary)
                      (either_ (word (codes "COUNT") boundary) (word (codes "CT") boundary)))))))),
      none,
    )
    ∷ (
      then_ boundary (
          word (codes "BUNDLE") (
            then_ (many is_space)
              (word (codes "OF") (then_ (many is_space) (then_ number_group boundary))))),
      none,
    )
    ∷ (
      then_ boundary
          (word (codes "TWIN") (then_ (optional dash_or_space) (word (codes "PACK") boundary))),
      some 2,
    )
    ∷ (
      then_ boundary
          (word (codes "TRIPLE") (then_ (optional dash_or_space) (word (codes "PACK") boundary))),
      some 3,
    )
    ∷ []

pub record PackMatch : Type 0 where
  pub pack_quantity : ℕ
  pub pack_evidence : Text
  pub remainder : Text

pub record TitleMatch : Type 0 where
  pub title_quantity : ℕ
  pub title_evidence : Text

-- `Number(found[group])`, not an integer from two to a thousand where there is no group
abbrev pub group_number : Option Text → ℕ
group_number none = 0
group_number (some s) = or_else (read_natural s) 0

abbrev pub in_bounds : ℕ → Bool
in_bounds q = leb min_detected_quantity q && leb q max_detected_quantity

-- The pattern's match, if its quantity is within bounds; the rest of the patterns otherwise.
abbrev pub sku_match : Text → Option Found → Option PackMatch → Option PackMatch
sku_match sku none others = others
sku_match sku (some found) others =
    if in_bounds (group_number found.found_group)
    then some (record {
      pack_quantity = group_number found.found_group;
      pack_evidence = found.found_text;
      remainder = take found.found_index sku;
    })
    else others

unfoldable pub match_sku_patterns : Text → List Pattern → Option PackMatch
unfolding exec read_natural
match_sku_patterns sku [] = none
match_sku_patterns sku (p ∷ ps) = sku_match sku (exec p sku) (match_sku_patterns sku ps)

-- `matchSkuPack`
unfoldable pub match_sku_pack : Text → Option PackMatch
unfolding match_sku_patterns
match_sku_pack sku = match_sku_patterns sku sku_pack_patterns

abbrev pub title_match : Option ℕ → Option Found → Option TitleMatch → Option TitleMatch
title_match quantity none others = others
title_match quantity (some found) others =
    let resolved = or_else quantity (group_number found.found_group) in
    if in_bounds resolved
    then some (record { title_quantity = resolved; title_evidence = found.found_text })
    else others

unfoldable pub match_title_patterns : Text → List TitlePattern → Option TitleMatch
unfolding exec read_natural is_space
match_title_patterns title [] = none
match_title_patterns title ((p, quantity) ∷ ps) =
    title_match quantity (exec p title) (match_title_patterns title ps)

-- `matchTitlePack`
unfoldable pub match_title_pack : Text → Option TitleMatch
unfolding match_title_patterns
match_title_pack title = match_title_patterns title title_pack_patterns

-- `replace(/[-_ ]+$/, "")`
unfoldable pub strip_separators : Text → Text
strip_separators [] = []
strip_separators (c ∷ s) =
    let rest = strip_separators s in if separator c && is_empty rest then [] else c ∷ rest
