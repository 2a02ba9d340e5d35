-- ===== src/OrderTax/Sums.antt =====
-- The components of `splitOrderTax` (app/engine/tax.ts) add up to the order's tax.
use my_meridian.Base.{
  ◌<◌, ◌≡◌, refl, sym, ap, ◌∙◌, inl, inr, List, [], ◌∷◌, All, Bool-cases, arith, length, length-map,
  map, get_or,
}
use my_meridian.Base.Int.{ℤ, pos, ◌+ℤ◌, ◌==ℤ◌, ==ℤ_iff, sum, int_laws}
use my_meridian.Base.Keys.{Dict}
use my_meridian.Base.Sort.{sort, length-sort}
use my_meridian.Base.Text.{Text}
use my_meridian.Money.Decimal.{to_cents}
use my_meridian.Tax.{allocate_tax_cents}
use my_meridian.Tax.Shares.{sum-allocate_tax_cents, length-allocate_tax_cents}
use my_meridian.TaxLines.{TextRules, Group}
use my_meridian.OrderTax.{
  OrderTaxInput, OrderTaxComponent, unallocated_component, component_of, components, by_key,
  reported_cents, collect_groups, split_groups, split_order_tax,
}

abbrev pub amounts : List OrderTaxComponent → List ℤ
amounts = map (λ (c : OrderTaxComponent). c.tax_amount_cents)

-- What a component shows agrees with its amount.
abbrev pub Balanced : OrderTaxComponent → Type 0
Balanced c =
    (c.line_item_tax_cents +ℤ c.shipping_tax_cents ≡ c.tax_amount_cents)
    × (c.reported_tax_cents +ℤ c.rounding_adjustment_cents ≡ c.tax_amount_cents)

sum-pair : (xs : List ℤ) → length xs ≡ 2 → get_or xs 0 (pos 0) +ℤ get_or xs 1 (pos 0) ≡ sum xs
sum-pair [] h = absurd (omega (arith, h))
sum-pair (x ∷ []) h = absurd (omega (arith, h))
sum-pair (x ∷ y ∷ []) h = omega int_laws
sum-pair (x ∷ y ∷ z ∷ zs) h = absurd (omega (arith, h))

sum-allocate_some :
    (total : ℤ) (ws : List ℤ) → 0 < length ws → sum (allocate_tax_cents total ws) ≡ total
sum-allocate_some total [] h = absurd (omega (arith, h))
sum-allocate_some total (w ∷ ws) h = sum-allocate_tax_cents total w ws

module _ (rules : TextRules) (input : OrderTaxInput) where
  components-amounts :
      (gs : List Group) (allocated : List ℤ)
      → length allocated ≡ length gs
      → sum (amounts (components rules input gs allocated)) ≡ sum allocated
  unfolding components component_of
  components-amounts [] [] h = refl
  components-amounts [] (a ∷ rest) h = absurd (omega (arith, h))
  components-amounts (g ∷ gs) [] h = absurd (omega (arith, h))
  components-amounts (g ∷ gs) (a ∷ rest) h =
      ap (λ t. a +ℤ t) (components-amounts gs rest (omega (arith, h)))

  component_of-Balanced : (g : Group) (a : ℤ) → Balanced (component_of rules input g a)
  unfolding component_of
  component_of-Balanced g a =
      let weights = g.line_cents ∷ g.shipping_cents ∷ [] in
      (
        sum-pair (allocate_tax_cents a weights) (length-allocate_tax_cents a weights)
            ∙ sum-allocate_tax_cents a g.line_cents (g.shipping_cents ∷ []),
        omega int_laws,
      )

  components-Balanced :
      (gs : List Group) (allocated : List ℤ) → All Balanced (components rules input gs allocated)
  unfolding components
  components-Balanced [] allocated = tt
  components-Balanced (g ∷ gs) [] = (component_of-Balanced g (pos 0), components-Balanced gs [])
  components-Balanced (g ∷ gs) (a ∷ rest) = (component_of-Balanced g a, components-Balanced gs rest)

  unallocated_component-Balanced : (total : ℤ) → Balanced (unallocated_component rules input total)
  unfolding unallocated_component
  unallocated_component-Balanced total = (omega int_laws, omega int_laws)

  split_groups-Balanced :
      (total : ℤ) (groups : Dict Text Group) → All Balanced (split_groups rules input total groups)
  unfolding split_groups
  split_groups-Balanced total [] = elim (Bool-cases (total ==ℤ pos 0)) [
    | inl nothing ↦ rw nothing tt
    | inr something ↦ rw something (unallocated_component-Balanced total, tt)
  ]
  split_groups-Balanced total (g ∷ gs) =
      let ordered = sort (by_key rules) (map (λ (kv : Text × Group). kv.1) (g ∷ gs)) in
      components-Balanced ordered (allocate_tax_cents total (map (reported_cents rules) ordered))

  split_groups-amounts :
      (total : ℤ) (groups : Dict Text Group)
      → sum (amounts (split_groups rules input total groups)) ≡ total
  unfolding split_groups unallocated_component
  split_groups-amounts total [] = elim (Bool-cases (total ==ℤ pos 0)) [
    | inl nothing ↦ rw nothing (sym ((==ℤ_iff total (pos 0)).0 nothing))
    | inr something ↦ rw something (omega int_laws)
  ]
  split_groups-amounts total (g ∷ gs) =
      let groups = map (λ (kv : Text × Group). kv.1) (g ∷ gs) in
      let ordered = sort (by_key rules) groups in
      let reported = map (reported_cents rules) ordered in
      let size : length reported ≡ length ordered = length-map (reported_cents rules) ordered in
      let some_ : length ordered ≡ length groups = length-sort (by_key rules) groups in
      components-amounts ordered (allocate_tax_cents total reported)
        (length-allocate_tax_cents total reported ∙ size)
      ∙ sum-allocate_some total reported (omega (arith, size, some_))

  -- The amounts of the components of an order's tax add up to exactly the tax of the order, and in
  -- each component the item and shipping parts add up to its amount, as do what was reported and
  -- the rounding adjustment.
  pub sum-split_order_tax :
      (sum (amounts (split_order_tax rules input)) ≡ to_cents input.total_tax)
      × All Balanced (split_order_tax rules input)
  unfolding split_order_tax
  sum-split_order_tax =
      let groups = collect_groups rules input in
      let total = to_cents input.total_tax in
      (split_groups-amounts total groups, split_groups-Balanced total groups)
