-- ===== src/BundleResolution.antt =====
-- app/engine/bundles.ts, `resolveBundleCostTimelines`: the depth-first resolution of bundles.
pub mod Fuel
use my_meridian.Base.{
  ℕ, zero, suc, Bool, true, false, Option, none, some, List, [], ◌∷◌, ◌++◌, ltb, if◌then◌else◌,
  String,
}
use my_meridian.Base.Keys.{◌=?◌, string_eq, Dict, lookup, insert}
use my_meridian.CostHistory.{CostVersion, Version, normalise_cost_timeline}
use my_meridian.Bundles.{
  Adjacency, AdjacencyEntry, BundleEdge, BundleProblem, BundleProblemReason, Part, build_adjacency,
  combine_component_timelines, cycle, max_bundle_depth, missing_component_cost, too_deep,
  unresolved_component,
}

-- What `resolveBundleCostTimelines` has built up.
pub record Resolution : Type 0 where
  pub timelines : Dict String (List Version)
  pub problems : List BundleProblem
  pub resolved : Dict String (Option (List Version))
  pub in_progress : List String

abbrev pub is_member : String → List String → Bool
is_member s [] = false
is_member s (t ∷ ts) = if s =? t then true else is_member s ts

abbrev pub without : String → List String → List String
without s [] = []
without s (t ∷ ts) = if s =? t then without s ts else t ∷ without s ts

-- `fail`: only the first diagnosis of a variant is reported.
unfoldable pub fail_variant : String → BundleProblemReason → Resolution → Resolution
fail_variant variant why s = record s {
  problems = elim (lookup variant s.resolved) [
    | none ↦ s.problems ++ (record { variant = variant; reason = why } ∷ [])
    | some _ ↦ s.problems
  ];
  resolved = insert variant none s.resolved;
}

abbrev pub Resolve : Type 0
Resolve = String → Resolution → Option (List Version) × Resolution

abbrev pub missing_reason : Adjacency → String → BundleProblemReason
missing_reason adjacency component = elim (lookup component adjacency) [
  | none ↦ missing_component_cost
  | some _ ↦ unresolved_component
]

-- The loop over the components: their parts, or the reason for which the bundle fails.
unfoldable pub parts_of :
    Adjacency
    → Resolve
    → List AdjacencyEntry
    → List Part
    → Resolution
    → (Option (List Part) × BundleProblemReason) × Resolution
parts_of adjacency resolve [] parts s = ((some parts, missing_component_cost), s)
parts_of adjacency resolve (c ∷ cs) parts s =
    let (timeline, after) = resolve c.component s in
    let more = λ (t : List Version).
      parts_of adjacency resolve cs (parts ++ (record { timeline = t; amount = c.units } ∷ []))
        after in
    elim timeline [
      | none ↦ ((none, missing_reason adjacency c.component), after)
      | some t ↦ elim t [
        | [] ↦ ((none, missing_reason adjacency c.component), after)
        | ◌∷◌ v vs ↦ more (v ∷ vs)
      ]
    ]

abbrev pub done_with : String → Resolution → Resolution
done_with variant s = record s { in_progress = without variant s.in_progress }

-- The end of a bundle whose components are all resolved.
unfoldable pub finish_bundle : String → List Part → Resolution → Option (List Version) × Resolution
unfolding combine_component_timelines fail_variant
finish_bundle variant parts s = elim (combine_component_timelines parts) [
  | [] ↦ (none, fail_variant variant missing_component_cost s)
  | ◌∷◌ v vs ↦ (
    some (v ∷ vs),
    record s {
      resolved = insert variant (some (v ∷ vs)) s.resolved;
      timelines = insert variant (v ∷ vs) s.timelines;
    },
  )
]

-- A bundle after the loop over its components.
unfoldable pub after_parts :
    String
    → (Option (List Part) × BundleProblemReason) × Resolution
    → Option (List Version) × Resolution
unfolding finish_bundle fail_variant
after_parts variant ((none, why), s) = (none, fail_variant variant why s)
after_parts variant ((some parts, why), s) = finish_bundle variant parts s

-- The `try` of `resolve`, with its `finally`.
unfoldable pub resolve_bundle :
    Adjacency
    → Resolve
    → String
    → List AdjacencyEntry
    → Resolution
    → Option (List Version) × Resolution
unfolding parts_of after_parts
resolve_bundle adjacency resolve variant components s =
    let started = record s { in_progress = variant ∷ s.in_progress } in
    let (timeline, last) = after_parts variant (parts_of adjacency resolve components [] started) in
    (timeline, done_with variant last)

abbrev pub Bases : Type 0
Bases = Dict String (List CostVersion)

-- The timeline of a variant that is no bundle.
unfoldable pub base_timeline : Bases → String → Option (List Version)
unfolding normalise_cost_timeline
base_timeline bases variant = elim (lookup variant bases) [
  | none ↦ none
  | some base ↦ elim base [ [] ↦ none | ◌∷◌ v vs ↦ some (normalise_cost_timeline (v ∷ vs)) ]
]

-- `resolve` of a bundle's components, at a depth; `deeper` is `resolve` one level down.
unfoldable pub resolve_components :
    Adjacency
    → Resolve
    → ℕ
    → String
    → List AdjacencyEntry
    → Resolution
    → Option (List Version) × Resolution
unfolding resolve_bundle fail_variant
resolve_components adjacency deeper depth variant components s = elim (lookup variant s.resolved) [
  | some known ↦ (known, s)
  | none ↦
      if is_member variant s.in_progress
      then (none, fail_variant variant cycle s)
      else if ltb max_bundle_depth depth
      then (none, fail_variant variant too_deep s)
      else resolve_bundle adjacency deeper variant components s
]

-- `resolve`, on fuel: a level deeper than the greatest depth calls no further one.
unfoldable pub resolve : ℕ → Adjacency → Bases → ℕ → Resolve
unfolding base_timeline resolve_components
resolve zero adjacency bases depth variant s = (none, s)
resolve (suc fuel) adjacency bases depth variant s =
    let deeper = resolve fuel adjacency bases (suc depth) in
    elim (lookup variant adjacency) [
      | none ↦ (base_timeline bases variant, s)
      | some components ↦ elim components [
        | [] ↦ (base_timeline bases variant, s)
        | ◌∷◌ c cs ↦ resolve_components adjacency deeper depth variant (c ∷ cs) s
      ]
    ]

-- The loop over the bundles.
unfoldable pub resolve_all : Adjacency → Bases → Adjacency → Resolution → Resolution
unfolding resolve
resolve_all adjacency bases [] s = s
resolve_all adjacency bases ((bundle, _) ∷ rest) s =
    resolve_all adjacency bases rest (resolve 10 adjacency bases 0 bundle s).1

-- `resolveBundleCostTimelines`: the timelines and the problems.
unfoldable pub resolve_bundle_cost_timelines :
    List BundleEdge → Bases → Dict String (List Version) × List BundleProblem
unfolding build_adjacency resolve_all
resolve_bundle_cost_timelines edges bases =
    let (adjacency, problems) = build_adjacency edges in
    let last =
      resolve_all adjacency bases adjacency
        (record { timelines = []; problems = problems; resolved = []; in_progress = [] }) in
    (last.timelines, last.problems)
