-- ===== src/OrderTax.antt =====
-- app/engine/tax.ts: `splitOrderTax`, the components of an order's tax.
pub mod Sums
pub mod Reported
use my_meridian.Base.{
  ℕ, Bool, false, ◌||◌, Option, none, some, List, [], ◌∷◌, ltb, if◌then◌else◌, map, or_else, get_or,
  take,
}
use my_meridian.Base.Int.{ℤ, pos, ◌+ℤ◌, ◌-ℤ◌, ◌*ℤ◌, ◌==ℤ◌}
use my_meridian.Base.Keys.{◌=?◌, Dict}
use my_meridian.Base.Sort.{sort}
use my_meridian.Base.Text.{Text, text_eq, codes, trim, is_empty, includes, has_word}
use my_meridian.Money.Decimal.{MoneyInput, to_cents}
use my_meridian.Tax.{allocate_tax_cents}
use my_meridian.TaxLines.{
  TextRules, TaxLineInput, TaxableLineInput, Group, line, shipping, add_lines, add_items,
}
use my_meridian.TaxText.{rate_units, round_ratio, bigint_cents_decimal}

pub data TaxRegime : Type 0 where
  us_sales_tax eu_vat gst other unallocated : TaxRegime

pub data TaxJurisdictionType : Type 0 where
  county state city district national vat other unallocated : TaxJurisdictionType

pub record OrderTaxInput : Type 0 where
  pub total_tax : MoneyInput
  pub taxes_included : Option Bool
  pub country_code : Option Text
  pub region_code : Option Text
  pub line_items : Option (List TaxableLineInput)
  pub shipping_lines : Option (List TaxableLineInput)
  pub order_tax_lines : Option (List TaxLineInput)

pub record OrderTaxComponent : Type 0 where
  pub source_key : Text
  pub regime : TaxRegime
  pub jurisdiction_type : TaxJurisdictionType
  pub title : Text
  pub source : Option Text
  pub country_code : Option Text
  pub region_code : Option Text
  pub rate : Option Text
  pub taxable_amount : Text
  pub reported_tax_cents : ℤ
  pub tax_amount_cents : ℤ
  pub line_item_tax_cents : ℤ
  pub shipping_tax_cents : ℤ
  pub rounding_adjustment_cents : ℤ
  pub channel_liable : Option Bool
  pub included_in_price : Bool

abbrev pub eu_vat_countries : List Text
eu_vat_countries = map codes (
    "AT" ∷ "BE" ∷ "BG" ∷ "HR" ∷ "CY" ∷ "CZ" ∷ "DE" ∷ "DK" ∷ "EE" ∷ "ES" ∷ "FI" ∷ "FR" ∷ "GR" ∷ "HU"
    ∷ "IE" ∷ "IT" ∷ "LT" ∷ "LU" ∷ "LV" ∷ "MT" ∷ "NL" ∷ "PL" ∷ "PT" ∷ "RO" ∷ "SE" ∷ "SI" ∷ "SK"
    ∷ "XI" ∷ [])

abbrev pub has_country : Text → List Text → Bool
has_country code [] = false
has_country code (c ∷ cs) = code =? c || has_country code cs

module _ (rules : TextRules) where
  unfoldable pub normalized_code : Option Text → ℕ → Option Text
  unfolding trim
  normalized_code value max =
      let code = rules.upper_case (trim (or_else value [])) in
      if is_empty code then none else some (take max code)

  unfoldable pub us_jurisdiction : Text → TaxJurisdictionType
  us_jurisdiction lower =
      if includes (codes "county") lower
      then county
      else if includes (codes "city") lower || includes (codes "municipal") lower
      then city
      else if includes (codes "district") lower
          || includes (codes "special") lower
          || includes (codes "local") lower
      then district
      else state

  unfoldable pub classify : Text → Option Text → TaxRegime × TaxJurisdictionType
  unfolding us_jurisdiction
  classify title country_code =
      let lower = rules.lower_case title in
      if has_country (or_else country_code []) eu_vat_countries || has_word (codes "vat") lower
      then (eu_vat, vat)
      else if has_word (codes "gst") lower
          || has_word (codes "hst") lower
          || has_word (codes "qst") lower
          || has_word (codes "pst") lower
      then (gst, national)
      else if or_else country_code [] =? codes "US"
          || includes (codes "sales tax") lower
          || includes (codes "use tax") lower
      then (us_sales_tax, us_jurisdiction lower)
      else (TaxRegime.other, TaxJurisdictionType.other)

  -- `if (groups.size === 0) addLines(groups, input.taxLines ?? [], "line")`
  abbrev pub or_order_lines : OrderTaxInput → Dict Text Group → Dict Text Group
  or_order_lines input [] = add_lines rules line [] (or_else input.order_tax_lines [])
  or_order_lines input (g ∷ gs) = g ∷ gs

  -- The groups of the items' and the shipping's tax lines.
  unfoldable pub detail_groups : OrderTaxInput → Dict Text Group
  unfolding add_items
  detail_groups input =
      add_items rules shipping (add_items rules line [] (or_else input.line_items []))
        (or_else input.shipping_lines [])

  unfoldable pub collect_groups : OrderTaxInput → Dict Text Group
  unfolding detail_groups add_lines
  collect_groups input = or_order_lines input (detail_groups input)

  -- The component of tax that no line reports.
  unfoldable pub unallocated_component : OrderTaxInput → ℤ → OrderTaxComponent
  unfolding normalized_code
  unallocated_component input total = record {
    source_key = codes "unallocated";
    regime = TaxRegime.unallocated;
    jurisdiction_type = TaxJurisdictionType.unallocated;
    title = codes "Unallocated Shopify tax";
    source = none;
    country_code = normalized_code input.country_code 2;
    region_code = normalized_code input.region_code 16;
    rate = none;
    taxable_amount = codes "0.00";
    reported_tax_cents = pos 0;
    tax_amount_cents = total;
    line_item_tax_cents = total;
    shipping_tax_cents = pos 0;
    rounding_adjustment_cents = total;
    channel_liable = none;
    included_in_price = or_else input.taxes_included false;
  }

  -- The component of a group that receives an amount.
  unfoldable pub component_of : OrderTaxInput → Group → ℤ → OrderTaxComponent
  unfolding normalized_code classify rate_units round_ratio bigint_cents_decimal allocate_tax_cents
  component_of input group amount =
      let country = normalized_code input.country_code 2 in
      let parts = allocate_tax_cents amount (group.line_cents ∷ group.shipping_cents ∷ []) in
      let units = rate_units group.rate in
      let reported = group.line_cents +ℤ group.shipping_cents in
      record {
        source_key = group.key;
        regime = (classify group.title country).0;
        jurisdiction_type = (classify group.title country).1;
        title = group.title;
        source = group.source;
        country_code = country;
        region_code = normalized_code input.region_code 16;
        rate = group.rate;
        taxable_amount =
            if ltb 0 units
            then bigint_cents_decimal (round_ratio (amount *ℤ pos 100_000_000) units)
            else codes "0.00";
        reported_tax_cents = reported;
        tax_amount_cents = amount;
        line_item_tax_cents = get_or parts 0 (pos 0);
        shipping_tax_cents = get_or parts 1 (pos 0);
        rounding_adjustment_cents = amount -ℤ reported;
        channel_liable = group.channel_liable;
        included_in_price = or_else input.taxes_included false;
      }

  -- `ordered.map((group, index) => ...)` with `allocated[index] ?? 0`
  unfoldable pub components : OrderTaxInput → List Group → List ℤ → List OrderTaxComponent
  unfolding component_of
  components input [] allocated = []
  components input (g ∷ gs) [] = component_of input g (pos 0) ∷ components input gs []
  components input (g ∷ gs) (a ∷ rest) = component_of input g a ∷ components input gs rest

  abbrev pub by_key : Group → Group → Bool
  by_key a b = rules.locale_before a.key b.key

  abbrev pub reported_cents : Group → ℤ
  reported_cents g = g.line_cents +ℤ g.shipping_cents

  -- What the groups receive.
  unfoldable pub split_groups : OrderTaxInput → ℤ → Dict Text Group → List OrderTaxComponent
  unfolding unallocated_component components allocate_tax_cents
  split_groups input total [] =
      if total ==ℤ pos 0 then [] else unallocated_component input total ∷ []
  split_groups input total (g ∷ gs) =
      let ordered = sort by_key (map (λ (kv : Text × Group). kv.1) (g ∷ gs)) in
      components input ordered (allocate_tax_cents total (map reported_cents ordered))

  -- `splitOrderTax`
  unfoldable pub split_order_tax : OrderTaxInput → List OrderTaxComponent
  unfolding to_cents collect_groups split_groups
  split_order_tax input = split_groups input (to_cents input.total_tax) (collect_groups input)
