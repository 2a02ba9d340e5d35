-- ===== src/OrderTax/Reported.antt =====
-- The groups of `splitOrderTax` (app/engine/tax.ts) report what the tax lines reported.
use my_meridian.Base.{
  Bool, true, false, ◌≡◌, refl, ap, ◌∙◌, inl, inr, List, [], ◌∷◌, Bool-cases, map, or_else,
  if◌then◌else◌,
}
use my_meridian.Base.Int.{ℤ, pos, ◌+ℤ◌, ◌==ℤ◌, sum, int_laws}
use my_meridian.Base.Keys.{Dict}
use my_meridian.Base.Sums.{dict_sum, dict_sum-update}
use my_meridian.Base.Sort.{sort, sum-sort}
use my_meridian.Base.Text.{Text, text_eq}
use my_meridian.Money.Decimal.{to_cents}
use my_meridian.Tax.{allocate_tax_cents}
use my_meridian.TaxLines.{
  TextRules, TaxLineInput, TaxableLineInput, Group, LineKind, line, shipping, tax_lines_of,
  tax_line_amount, add_amount, new_group, add_line, add_lines, add_items,
}
use my_meridian.OrderTax.{
  OrderTaxInput, OrderTaxComponent, component_of, components, by_key, reported_cents,
  unallocated_component, detail_groups, or_order_lines, collect_groups, split_groups,
  split_order_tax,
}

abbrev group_cents : Group → ℤ
group_cents g = g.line_cents +ℤ g.shipping_cents

abbrev pub groups_cents : Dict Text Group → ℤ
groups_cents = dict_sum group_cents

abbrev pub lines_cents : List TaxLineInput → ℤ
lines_cents [] = pos 0
lines_cents (l ∷ ls) = tax_line_amount l +ℤ lines_cents ls

abbrev pub items_cents : List TaxableLineInput → ℤ
items_cents [] = pos 0
items_cents (i ∷ is) = lines_cents (tax_lines_of i) +ℤ items_cents is

abbrev pub no_groups : Dict Text Group → Bool
no_groups [] = true
no_groups (g ∷ gs) = false

add_amount-cents :
    (kind : LineKind) (c : ℤ) (g : Group) → group_cents (add_amount kind c g) ≡ group_cents g +ℤ c
add_amount-cents line c g = omega int_laws
add_amount-cents shipping c g = omega int_laws

module _ (rules : TextRules) where
  new_group-empty : (l : TaxLineInput) → group_cents (new_group rules l) ≡ pos 0
  unfolding new_group
  new_group-empty l = omega int_laws

  add_lines-cents :
      (kind : LineKind) (d : Dict Text Group) (ls : List TaxLineInput)
      → groups_cents (add_lines rules kind d ls) ≡ groups_cents d +ℤ lines_cents ls
  unfolding add_lines add_line
  add_lines-cents kind d [] = omega int_laws
  add_lines-cents kind d (l ∷ ls) =
      let fresh = new_group rules l in
      let arrived =
        dict_sum-update group_cents (add_amount kind (tax_line_amount l)) (tax_line_amount l) fresh
          (add_amount-cents kind (tax_line_amount l)) (new_group-empty l) fresh.key d in
      add_lines-cents kind (add_line rules kind d l) ls ∙ rw arrived (omega int_laws)

  add_items-cents :
      (kind : LineKind) (d : Dict Text Group) (is : List TaxableLineInput)
      → groups_cents (add_items rules kind d is) ≡ groups_cents d +ℤ items_cents is
  unfolding add_items
  add_items-cents kind d [] = omega int_laws
  add_items-cents kind d (i ∷ is) =
      add_items-cents kind (add_lines rules kind d (tax_lines_of i)) is
      ∙ rw (add_lines-cents kind d (tax_lines_of i)) (omega int_laws)

  or_order_lines-cents :
      (input : OrderTaxInput) (groups : Dict Text Group)
      → groups_cents (or_order_lines rules input groups) ≡ (
          if no_groups groups
          then lines_cents (or_else input.order_tax_lines [])
          else groups_cents groups)
  or_order_lines-cents input [] =
      add_lines-cents line [] (or_else input.order_tax_lines []) ∙ omega int_laws
  or_order_lines-cents input (g ∷ gs) = refl

  detail_groups-cents :
      (input : OrderTaxInput)
      → groups_cents (detail_groups rules input)
        ≡ items_cents (or_else input.line_items []) +ℤ items_cents (or_else input.shipping_lines [])
  unfolding detail_groups
  detail_groups-cents input =
      let items = or_else input.line_items [] in
      add_items-cents shipping (add_items rules line [] items) (or_else input.shipping_lines [])
      ∙ rw (add_items-cents line [] items) (omega int_laws)

  module _ (input : OrderTaxInput) where
    components-reported :
        (gs : List Group) (allocated : List ℤ)
        → sum (
            map
              (λ (c : OrderTaxComponent). c.reported_tax_cents)
              (components rules input gs allocated))
          ≡ sum (map group_cents gs)
    unfolding components component_of
    components-reported [] allocated = refl
    components-reported (g ∷ gs) [] = ap (λ t. group_cents g +ℤ t) (components-reported gs [])
    components-reported (g ∷ gs) (a ∷ rest) =
        ap (λ t. group_cents g +ℤ t) (components-reported gs rest)

    values-cents :
        (d : Dict Text Group)
        → sum (map group_cents (map (λ (kv : Text × Group). kv.1) d)) ≡ groups_cents d
    values-cents [] = refl
    values-cents ((k, g) ∷ d) = ap (λ t. group_cents g +ℤ t) (values-cents d)

    split_groups-reported :
        (total : ℤ) (groups : Dict Text Group)
        → sum (
            map
              (λ (c : OrderTaxComponent). c.reported_tax_cents)
              (split_groups rules input total groups))
          ≡ groups_cents groups
    unfolding split_groups unallocated_component
    split_groups-reported total [] = elim (Bool-cases (total ==ℤ pos 0)) [
      | inl nothing ↦ rw nothing refl
      | inr something ↦ rw something (omega int_laws)
    ]
    split_groups-reported total (g ∷ gs) =
        let groups = map (λ (kv : Text × Group). kv.1) (g ∷ gs) in
        let ordered = sort (by_key rules) groups in
        components-reported ordered (allocate_tax_cents total (map (reported_cents rules) ordered))
        ∙ sum-sort (by_key rules) group_cents groups
        ∙ values-cents (g ∷ gs)

    -- What the components report adds up to the amounts of the tax lines of the items and the
    -- shipping, or, where these form no group, of the order's own tax lines.
    pub split_order_tax-reported :
        sum (map (λ (c : OrderTaxComponent). c.reported_tax_cents) (split_order_tax rules input))
        ≡ (if no_groups (detail_groups rules input)
            then lines_cents (or_else input.order_tax_lines [])
            else items_cents (or_else input.line_items [])
              +ℤ items_cents (or_else input.shipping_lines []))
    unfolding split_order_tax collect_groups
    split_order_tax-reported =
        let detail = detail_groups rules input in
        split_groups-reported (to_cents input.total_tax) (collect_groups rules input)
        ∙ or_order_lines-cents input detail
        ∙ rw (detail_groups-cents input) refl
