-- ===== src/Tests/Tax.antt =====
-- app/engine/tax.ts at concrete inputs.
use my_meridian.Base.{
  ◌+◌, ◌-◌, Bool, true, false, none, some, [], ◌∷◌, ◌≡◌, refl, ◌&&◌, leb, ltb, ◌==◌, ◌||◌,
  if◌then◌else◌, map, or_else, All,
}
use my_meridian.Base.Int.{ℤ, pos, negsuc, ◌+ℤ◌, ◌-ℤ◌, ◌*ℤ◌, sum}
use my_meridian.Base.Text.{Text, codes}
use my_meridian.Money.Decimal.{written, to_cents}
use my_meridian.Tax.{allocate_tax_cents}
use my_meridian.TaxText.{bigint_cents_decimal, parse_rate, rate_units}
use my_meridian.TaxText.RoundTrip.{to_cents-bigint_cents_decimal}
use my_meridian.TaxLines.{TextRules, TaxLineInput}
use my_meridian.OrderTax.{
  OrderTaxInput, OrderTaxComponent, TaxRegime, TaxJurisdictionType, split_order_tax, classify,
  detail_groups,
}
use my_meridian.OrderTax.Sums.{amounts, Balanced, sum-split_order_tax}
use my_meridian.OrderTax.Reported.{no_groups, items_cents, lines_cents, split_order_tax-reported}

abbrev ascii_lower : Text → Text
ascii_lower = map (λ c. if leb 65 c && leb c 90 then c + 32 else c)

abbrev ascii_upper : Text → Text
ascii_upper = map (λ c. if leb 97 c && leb c 122 then c - 32 else c)

abbrev code_before : Text → Text → Bool
code_before [] t = true
code_before (c ∷ s) [] = false
code_before (c ∷ s) (d ∷ t) = ltb c d || (c == d && code_before s t)

abbrev ascii : TextRules
ascii = record { lower_case = ascii_lower; upper_case = ascii_upper; locale_before = code_before }

abbrev tax_line : Text → Text → Text → TaxLineInput
tax_line title rate price = record {
  title = some title;
  rate = some rate;
  price = written price;
  price_set = none;
  price_set_camel = none;
  source = none;
  channel_liable = none;
  channel_liable_camel = some false;
}

-- A state and a county tax on an item, the state tax on the shipping too; a cent is missing.
abbrev two_taxes : OrderTaxInput
two_taxes = record {
  total_tax = written (codes "10.01");
  taxes_included = none;
  country_code = some (codes " us");
  region_code = none;
  line_items = some (
      record {
        tax_lines = some (
            tax_line (codes "CA State Tax") (codes "0.0725") (codes "7.00")
            ∷ tax_line (codes "Santa Clara County Tax") (codes "0.01") (codes "1.00")
            ∷ []);
        tax_lines_camel = none;
      }
      ∷ []);
  shipping_lines = some (
      record {
        tax_lines = none;
        tax_lines_camel =
            some (tax_line (codes "CA STATE TAX") (codes "0.0725") (codes "2.00") ∷ []);
      }
      ∷ []);
  order_tax_lines = none;
}

allocate_tax_cents-thirds :
    allocate_tax_cents (negsuc 99) (pos 1 ∷ negsuc 4 ∷ pos 2 ∷ [])
    ≡ negsuc 32 ∷ pos 0 ∷ negsuc 66 ∷ []
unfolding allocate_tax_cents ◌+ℤ◌ ◌-ℤ◌ ◌*ℤ◌
allocate_tax_cents-thirds = refl

allocate_tax_cents-no_weights : allocate_tax_cents (pos 5) (pos 0 ∷ pos 0 ∷ []) ≡ pos 3 ∷ pos 2 ∷ []
unfolding allocate_tax_cents ◌+ℤ◌ ◌-ℤ◌ ◌*ℤ◌
allocate_tax_cents-no_weights = refl

two_taxes-amounts :
    map {B = ℤ × ℤ}
      (λ (c : OrderTaxComponent). (c.tax_amount_cents, c.line_item_tax_cents))
      (split_order_tax ascii two_taxes)
    ≡ (pos 901, pos 701) ∷ (pos 100, pos 100) ∷ []
unfolding split_order_tax ◌+ℤ◌ ◌-ℤ◌ ◌*ℤ◌
two_taxes-amounts = refl

two_taxes-taxable :
    map {B = Text × TaxJurisdictionType}
      (λ (c : OrderTaxComponent). (c.taxable_amount, c.jurisdiction_type))
      (split_order_tax ascii two_taxes)
    ≡ (codes "124.28", TaxJurisdictionType.state)
      ∷ (codes "100.00", TaxJurisdictionType.county)
      ∷ []
unfolding split_order_tax ◌+ℤ◌ ◌-ℤ◌ ◌*ℤ◌
two_taxes-taxable = refl

classify-word :
    classify ascii (codes "Tax (VAT 20%)") (some (codes "GB"))
    ≡ (TaxRegime.eu_vat, TaxJurisdictionType.vat)
unfolding classify
classify-word = refl

parse_rate-pads : parse_rate (some (codes " 0.2")) ≡ some (codes "0.20000000")
unfolding parse_rate
parse_rate-pads = refl

rate_units-percent : rate_units (some (codes "0.07250000")) ≡ 7_250_000
unfolding rate_units
rate_units-percent = refl

to_cents-bigint_cents_decimal_example :
    to_cents (written (bigint_cents_decimal (negsuc 1204))) ≡ negsuc 1204
to_cents-bigint_cents_decimal_example = to_cents-bigint_cents_decimal (negsuc 1204)

sum-split_order_tax_example :
    (sum (amounts (split_order_tax ascii two_taxes)) ≡ to_cents (written (codes "10.01")))
    × All Balanced (split_order_tax ascii two_taxes)
sum-split_order_tax_example = sum-split_order_tax ascii two_taxes

split_order_tax-reported_example :
    sum (map (λ (c : OrderTaxComponent). c.reported_tax_cents) (split_order_tax ascii two_taxes))
    ≡ (if no_groups (detail_groups ascii two_taxes)
        then lines_cents (or_else two_taxes.order_tax_lines [])
        else items_cents (or_else two_taxes.line_items [])
          +ℤ items_cents (or_else two_taxes.shipping_lines []))
split_order_tax-reported_example = split_order_tax-reported ascii two_taxes
