-- ===== src/TaxLines.antt =====
-- app/engine/tax.ts: the tax lines that Shopify reports, gathered in groups.
use my_meridian.Base.{Bool, true, false, Option, none, some, List, [], ◌∷◌, ◌++◌, or_else}
use my_meridian.Base.Int.{ℤ, pos, ◌+ℤ◌}
use my_meridian.Base.Keys.{Dict, lookup, insert}
use my_meridian.Base.Text.{Text, text_eq, codes, trim}
use my_meridian.Money.Decimal.{MoneyInput, missing, to_cents}
use mathlib.Core.List.{foldl}
use my_meridian.TaxText.{or_null, or_else_option, parse_rate}

-- `{ shop_money?: { amount } }`
pub record MoneySet : Type 0 where
  pub shop_money : Option MoneyInput

-- `TaxLineInput`; a rate is its text, a number's by `String`.
pub record TaxLineInput : Type 0 where
  pub title : Option Text
  pub rate : Option Text
  pub price : MoneyInput
  pub price_set : Option MoneySet
  pub price_set_camel : Option MoneySet
  pub source : Option Text
  pub channel_liable : Option Bool
  pub channel_liable_camel : Option Bool

pub record TaxableLineInput : Type 0 where
  pub tax_lines : Option (List TaxLineInput)
  pub tax_lines_camel : Option (List TaxLineInput)

abbrev pub amount_of : Option MoneySet → MoneyInput
amount_of none = missing
amount_of (some m) = or_else m.shop_money missing

-- `a ?? b`
abbrev pub or_amount : MoneyInput → MoneyInput → MoneyInput
or_amount MoneyInput.missing b = b
or_amount (MoneyInput.amount r) b = MoneyInput.amount r
or_amount (MoneyInput.written s) b = MoneyInput.written s

unfoldable pub tax_line_amount : TaxLineInput → ℤ
unfolding to_cents
tax_line_amount line =
    to_cents
      (or_amount (amount_of line.price_set) (or_amount (amount_of line.price_set_camel) line.price))

abbrev pub tax_lines_of : TaxableLineInput → List TaxLineInput
tax_lines_of line = or_else line.tax_lines (or_else line.tax_lines_camel [])

pub record Group : Type 0 where
  pub key : Text
  pub title : Text
  pub source : Option Text
  pub rate : Option Text
  pub channel_liable : Option Bool
  pub line_cents : ℤ
  pub shipping_cents : ℤ

pub data LineKind : Type 0 where
  line shipping : LineKind

-- `String(liable)`
abbrev pub liable_text : Option Bool → Text
liable_text none = codes "null"
liable_text (some true) = codes "true"
liable_text (some false) = codes "false"

abbrev pub add_amount : LineKind → ℤ → Group → Group
add_amount line cents g = record g { line_cents = g.line_cents +ℤ cents }
add_amount shipping cents g = record g { shipping_cents = g.shipping_cents +ℤ cents }

-- `toLowerCase`, `toUpperCase`, and `a.localeCompare(b) <= 0`, of the host's language data.
pub record TextRules : Type 0 where
  pub lower_case : Text → Text
  pub upper_case : Text → Text
  pub locale_before : Text → Text → Bool

module _ (rules : TextRules) where
  -- The group of a line that has none yet.
  unfoldable pub new_group : TaxLineInput → Group
  unfolding trim parse_rate
  new_group tax_line =
      let title = or_else (or_null (trim (or_else tax_line.title (codes "Tax")))) (codes "Tax") in
      let source = or_null (trim (or_else tax_line.source [])) in
      let rate = parse_rate tax_line.rate in
      let liable = or_else_option tax_line.channel_liable tax_line.channel_liable_camel in
      record {
        key =
            rules.lower_case title
            ++ (124 ∷ or_else rate []
                ++ (124 ∷ or_else (map_text source) [] ++ (124 ∷ liable_text liable)));
        title = title;
        source = source;
        rate = rate;
        channel_liable = liable;
        line_cents = pos 0;
        shipping_cents = pos 0;
      }
    where
      map_text : Option Text → Option Text
      map_text none = none
      map_text (some s) = some (rules.lower_case s)

  -- A round of the loop of `addLines`.
  unfoldable pub add_line : LineKind → Dict Text Group → TaxLineInput → Dict Text Group
  unfolding new_group tax_line_amount
  add_line kind groups tax_line =
      let fresh = new_group tax_line in
      let group = or_else (lookup fresh.key groups) fresh in
      insert fresh.key (add_amount kind (tax_line_amount tax_line) group) groups

  unfoldable pub add_lines : LineKind → Dict Text Group → List TaxLineInput → Dict Text Group
  unfolding add_line
  add_lines kind = foldl (add_line kind)

  -- `for (const item of items) addLines(groups, taxLines(item), kind)`
  unfoldable pub add_items : LineKind → Dict Text Group → List TaxableLineInput → Dict Text Group
  unfolding add_lines
  add_items kind = foldl (λ groups item. add_lines kind groups (tax_lines_of item))
