-- ===== src/Bundles/Sum.antt =====
-- `combineComponentTimelines` of app/engine/bundles.ts against the sum of its parts at any instant.
use my_meridian.Base.{
  ◌≤◌, ◌<◌, none, List, [], ◌∷◌, ◌≡◌, refl, sym, ◌∙◌, inl, inr, arith, leb, leb→le, All, Bool-cases,
  Option-cases,
}
use my_meridian.CostHistory.{Instant, Version}
use my_meridian.CostHistory.Lookup.{scan}
use my_meridian.CostHistory.Divergence.{cost_of}
use my_meridian.CostHistory.Instants.{Sorted}
use my_meridian.Bundles.{Part, start_of, instants_of, combine_component_timelines}
use my_meridian.Bundles.Combine.{
  parts_cost, IsPriced, later_than_head, expected, value, value-scan, derive-value,
}
use my_meridian.Bundles.Rollup.{
  instants_of-All_inv, instants_of-Sorted, instants_of-All, start-All, parts_cost-before,
  derive-total, expected-sum, Starts, Starts-Covers,
}

module _ (p : Part) (ps : List Part) (priced : All IsPriced (p ∷ ps)) where
  abbrev parts : List Part
  parts = p ∷ ps

  instants_of-Starts : Starts parts priced (instants_of parts)
  unfolding Starts
  instants_of-Starts P h = instants_of-All_inv P parts h

  -- If all instants looked at are later, so is the start.
  start_after :
      (u : Instant) (ts : List Instant)
      → Starts parts priced ts
      → All (λ (t : Instant). u < t) ts
      → u < start_of parts
  unfolding Starts
  start_after u ts starts late =
      start-All (λ (x : Instant). start_of parts ≤ x → u < x) p ps priced
        (starts (λ (x : Instant). u < x) late) (omega arith)

  expected-eq :
      (ts : List Instant) (u : Instant)
      → Sorted ts
      → All (λ (t : Instant). start_of parts ≤ t) ts
      → Starts parts priced ts
      → expected parts none ts u ≡ parts_cost parts u
  expected-eq [] u s from starts =
      sym (parts_cost-before parts u priced (start_after u [] starts tt))
  expected-eq (t ∷ ts) u s (from, _) starts = elim (Bool-cases (leb t u)) [
    | inl before ↦ rw before (
        expected-sum parts priced t u ts (leb→le t u before) s.1 s.0
          (Starts-Covers parts priced t ts from starts))
    | inr out ↦
        let after : u < t = ground arith in
        let late : u < start_of parts =
          start_after u (t ∷ ts) starts (after, later_than_head u t ts after s.0) in
        rw (out, parts_cost-before parts u priced late) refl
  ]

value-none : (ds : List Version) (u : Instant) → value none ds u ≡ cost_of (scan ds u)
value-none ds u = elim (Option-cases (scan ds u)) [
  | inl n ↦ value-scan none ds u ∙ rw n refl
  | inr (v, e) ↦ value-scan none ds u ∙ rw e refl
]

-- Of at least one component, each with an ascending timeline that is not empty, the derived timeline
-- gives at every instant the sum of what the components cost there, each times its quantity; it gives
-- no cost exactly when some component has none.
pub combine_component_timelines-sum :
    (p : Part) (ps : List Part) (u : Instant)
    → All IsPriced (p ∷ ps)
    → cost_of (scan (combine_component_timelines (p ∷ ps)) u) ≡ parts_cost (p ∷ ps) u
unfolding combine_component_timelines
combine_component_timelines-sum p ps u priced =
    let parts = p ∷ ps in
    let ts = instants_of parts in
    let (ds, made) = derive-total parts none ts priced (instants_of-All parts) in
    rw made (
      sym (value-none ds u)
      ∙ derive-value parts priced none ts u ds (instants_of-Sorted parts) made
      ∙ expected-eq p ps priced ts u (instants_of-Sorted parts) (instants_of-All parts)
          (instants_of-Starts p ps priced))
