-- ===== src/Bundles/Combine.antt =====
-- `combineComponentTimelines` of app/engine/bundles.ts: at every instant a bundle costs what its
-- components cost.
use my_meridian.Base.{
  ◌≤◌, ◌<◌, true, false, Option, none, some, List, [], ◌∷◌, ◌≡◌, ◌≢◌, refl, sym, ◌∙◌, ap, inl, inr,
  arith, leb, if◌then◌else◌, All, All-imp, All-append_inv, Bool-cases, Option-cases, true-ne-false,
}
use mathlib.Core.Path.{subst}
use mathlib.Core.Option.{some-injective, none-ne-some}
use my_meridian.Base.Int.{ℤ, pos, ◌+ℤ◌, ◌*ℤ◌, ==ℤ_iff, int_laws}
use my_meridian.CostHistory.{Instant, Version}
use my_meridian.CostHistory.Lookup.{Ascending, scan, cost_effective_at-eq-scan}
use my_meridian.CostHistory.Divergence.{cost_of}
use my_meridian.CostHistory.Instants.{Sorted}
use my_meridian.CostHistory.Between.{scan-All, scan-le, scan-between}
use my_meridian.Bundles.{
  Part, instants_in, all_instants, unit_cost_from, same_cost, with_first, rollup, derive,
}

-- The cost of one unit of each part's amount at an instant, if all of them are known.
abbrev pub plus_cost : Option ℤ → ℤ → Option ℤ → Option ℤ
plus_cost none amount rest = none
plus_cost (some c) amount none = none
plus_cost (some c) amount (some r) = some (c *ℤ amount +ℤ r)

abbrev pub parts_cost : List Part → Instant → Option ℤ
parts_cost [] t = some (pos 0)
parts_cost (p ∷ ps) t = plus_cost (cost_of (scan p.timeline t)) p.amount (parts_cost ps t)

-- A timeline that a part can have: in ascending order and not empty.
abbrev pub IsPriced : Part → Type 0
IsPriced p = Ascending p.timeline × (p.timeline ≢ [])

abbrev added : ℤ → Option ℤ → Option ℤ
added total none = none
added total (some c) = some (total +ℤ c)

added-plus_cost :
    (total c amount : ℤ) (rest : Option ℤ)
    → added (total +ℤ c *ℤ amount) rest ≡ added total (plus_cost (some c) amount rest)
added-plus_cost total c amount none = refl
added-plus_cost total c amount (some r) = ap some (omega int_laws)

unit_cost_from-eq :
    (total : ℤ) (ps : List Part) (t : Instant)
    → All IsPriced ps
    → unit_cost_from total ps t ≡ added total (parts_cost ps t)
unfolding unit_cost_from
unit_cost_from-eq total [] t a = ap some (omega int_laws)
unit_cost_from-eq total (p ∷ ps) t ((asc, _), a) = elim (Option-cases (scan p.timeline t)) [
  | inl n ↦ rw (unit_cost_from, cost_effective_at-eq-scan p.timeline t asc, n) refl
  | inr (v, e) ↦
      rw (unit_cost_from, cost_effective_at-eq-scan p.timeline t asc, e)
        (unit_cost_from-eq (total +ℤ v.unit_cost *ℤ p.amount) ps t a
          ∙ added-plus_cost total v.unit_cost p.amount (parts_cost ps t))
]

-- With no change of a component in between, the sum is the same.
pub parts_cost-between :
    (ps : List Part) (b u : Instant)
    → All IsPriced ps
    → b ≤ u
    → All (λ (x : Instant). x ≤ u → x ≤ b) (all_instants ps)
    → parts_cost ps b ≡ parts_cost ps u
unfolding all_instants
parts_cost-between [] b u a le quiet = refl
parts_cost-between (p ∷ ps) b u ((asc, _), a) le quiet =
    let (mine, rest) =
      All-append_inv (λ (x : Instant). x ≤ u → x ≤ b) (instants_in p.timeline) (all_instants ps)
        quiet in
    let here : scan p.timeline b ≡ scan p.timeline u = scan-between p.timeline b u asc le (λ v e.
      scan-All (λ (x : Instant). x ≤ u → x ≤ b) p.timeline u mine e (scan-le p.timeline u e)) in
    rw (here, parts_cost-between ps b u a le rest) refl

-- The cost that the versions give at an instant, from the cost before the first of them.
abbrev pub value : Option ℤ → List Version → Instant → Option ℤ
value before [] u = before
value before (d ∷ ds) u = if leb d.at u then value (some d.unit_cost) ds u else before

-- The cost at the last of the instants that is not after u.
abbrev pub expected : List Part → Option ℤ → List Instant → Instant → Option ℤ
expected ps before [] u = before
expected ps before (t ∷ ts) u = if leb t u then expected ps (parts_cost ps t) ts u else before

pub expected-late :
    (ps : List Part) (before : Option ℤ) (ts : List Instant) (u : Instant)
    → All (λ (t : Instant). u < t) ts
    → expected ps before ts u ≡ before
expected-late ps before [] u a = refl
expected-late ps before (t ∷ ts) u a = let out : leb t u ≡ false = ground arith in rw out refl

pub value-scan :
    (before : Option ℤ) (ds : List Version) (u : Instant)
    → value before ds u ≡ (elim (scan ds u) [ none ↦ before | some v ↦ some v.unit_cost ])
value-scan before [] u = refl
value-scan before (d ∷ ds) u = elim (Bool-cases (leb d.at u)) [
  | inl le ↦ elim (Option-cases (scan ds u)) [
    | inl n ↦ rw (le, value-scan (some d.unit_cost) ds u, n) refl
    | inr (v, e) ↦ rw (le, value-scan (some d.unit_cost) ds u, e) refl
  ]
  | inr out ↦ rw out refl
]

pub later_than_head :
    (u t : Instant) (ts : List Instant)
    → u < t
    → All (λ (x : Instant). t ≤ x) ts
    → All (λ (x : Instant). u < x) ts
later_than_head u t ts h =
    All-imp (λ (x : Instant). t ≤ x) (λ (x : Instant). u < x) ts (λ x k. omega arith)

added-zero : (o : Option ℤ) → added (pos 0) o ≡ o
added-zero none = refl
added-zero (some c) = ap some (omega int_laws)

same_cost-eq : (before : Option ℤ) (c : ℤ) → same_cost before c ≡ true → before ≡ some c
same_cost-eq none c h = absurd (true-ne-false (sym h))
same_cost-eq (some p) c h = ap some ((==ℤ_iff p c).0 h)

module _ (ps : List Part) (priced : All IsPriced ps) where
  unit_cost-eq : (t : Instant) → unit_cost_from (pos 0) ps t ≡ parts_cost ps t
  unit_cost-eq t = unit_cost_from-eq (pos 0) ps t priced ∙ added-zero (parts_cost ps t)

  pub derive-absent :
      (before : Option ℤ) (t : Instant) (ts : List Instant)
      → parts_cost ps t ≡ none
      → derive ps before (t ∷ ts) ≡ none
  unfolding derive
  derive-absent before t ts n = rw (derive, unit_cost-eq t, n) refl

  pub derive-same :
      (before : Option ℤ) (t : Instant) (ts : List Instant) (c : ℤ)
      → parts_cost ps t ≡ some c
      → same_cost before c ≡ true
      → derive ps before (t ∷ ts) ≡ derive ps before ts
  unfolding derive
  derive-same before t ts c e same = rw (derive, unit_cost-eq t, e, same) refl

  pub derive-new :
      (before : Option ℤ) (t : Instant) (ts : List Instant) (c : ℤ)
      → parts_cost ps t ≡ some c
      → same_cost before c ≡ false
      → derive ps before (t ∷ ts) ≡ with_first (rollup t c) (derive ps (some c) ts)
  unfolding derive
  derive-new before t ts c e new = rw (derive, unit_cost-eq t, e, new) refl

  pub derive-nil : (before : Option ℤ) → derive ps before [] ≡ some []
  unfolding derive
  derive-nil before = refl

  value-same :
      (before : Option ℤ) (t : Instant) (ts : List Instant) (u : Instant) (c : ℤ) (x : Option ℤ)
      → Sorted (t ∷ ts)
      → parts_cost ps t ≡ some c
      → before ≡ some c
      → x ≡ expected ps before ts u
      → x ≡ expected ps before (t ∷ ts) u
  value-same before t ts u c x s e same ih = elim (Bool-cases (leb t u)) [
    | inl le ↦ rw (le, e, ← same) ih
    | inr out ↦
        let after : u < t = ground arith in
        rw out (ih ∙ expected-late ps before ts u (later_than_head u t ts after s.0))
  ]

  -- What the versions of `derive` say at an instant is the sum at the last instant before it.
  pub derive-value :
      (before : Option ℤ) (ts : List Instant) (u : Instant) (ds : List Version)
      → Sorted ts
      → derive ps before ts ≡ some ds
      → value before ds u ≡ expected ps before ts u
  derive-value before [] u ds s h =
      let e : [] ≡ ds = some-injective [] ds (sym (derive-nil before) ∙ h) in
      subst (λ (x : List Version). value before x u ≡ before) e refl
  derive-value before (t ∷ ts) u ds s h = elim (Option-cases (parts_cost ps t)) [
    | inl n ↦ absurd (none-ne-some ds (sym (derive-absent before t ts n) ∙ h))
    | inr (c, e) ↦ elim (Bool-cases (same_cost before c)) [
      | inl same ↦
          value-same before t ts u c (value before ds u) s e (same_cost-eq before c same)
            (derive-value before ts u ds s.1 (sym (derive-same before t ts c e same) ∙ h))
      | inr new ↦ elim (Option-cases (derive ps (some c) ts)) [
        | inl n ↦ absurd (
            none-ne-some ds
              (sym (derive-new before t ts c e new ∙ ap (with_first (rollup t c)) n) ∙ h))
        | inr (es, q) ↦
            let made : some (rollup t c ∷ es) ≡ some ds =
              sym (derive-new before t ts c e new ∙ ap (with_first (rollup t c)) q) ∙ h in
            let e' : rollup t c ∷ es ≡ ds = some-injective (rollup t c ∷ es) ds made in
            subst (λ (x : List Version). value before x u ≡ expected ps before (t ∷ ts) u) e'
              (rw (e, derive-value (some c) ts u es s.1 q) refl)
      ]
    ]
  ]
