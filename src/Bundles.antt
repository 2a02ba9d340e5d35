-- ===== src/Bundles.antt =====
-- app/engine/bundles.ts, resolution: the cost timeline of a multi-pack from those of its components.
-- A quantity is an integer (`Math.trunc` and `Number.isFinite` change nothing of one); the text of a
-- problem is left out, its bundle and reason are kept.
pub mod Combine
pub mod Rollup
pub mod Sum
use my_meridian.Base.{
  ℕ, zero, suc, ◌+◌, Bool, true, false, not, Option, none, some, List, [], ◌∷◌, ◌++◌, map, ltb, leb,
  if◌then◌else◌, or_else, String, max,
}
use my_meridian.Base.Int.{ℤ, pos, ◌+ℤ◌, ◌*ℤ◌, ◌==ℤ◌, leb_ℤ}
use my_meridian.Base.Keys.{◌=?◌, string_eq, Dict, lookup, insert}
use my_meridian.Base.Sort.{sort}
use my_meridian.CostHistory.{
  Instant, CostVersion, Version, normalise_cost_timeline, cost_effective_at, distinct,
}

abbrev pub max_bundle_depth : ℕ
max_bundle_depth = 8

pub record BundleEdge : Type 0 where
  pub bundle_variant_id : String
  pub component_variant_id : String
  pub quantity : ℤ

pub data BundleProblemReason : Type 0 where
  cycle too_deep invalid_quantity missing_component_cost unresolved_component : BundleProblemReason

pub record BundleProblem : Type 0 where
  pub variant : String
  pub reason : BundleProblemReason

pub record AdjacencyEntry : Type 0 where
  pub component : String
  pub units : ℤ

abbrev pub Adjacency : Type 0
Adjacency = Dict String (List AdjacencyEntry)

abbrev pub add_entry : String → AdjacencyEntry → Adjacency → Adjacency
add_entry bundle entry adjacency = elim (lookup bundle adjacency) [
  | none ↦ insert bundle (entry ∷ []) adjacency
  | some list ↦ insert bundle (list ++ (entry ∷ [])) adjacency
]

-- The loop of `buildAdjacency`.
unfoldable pub build_from :
    List BundleEdge → Adjacency → List BundleProblem → Adjacency × List BundleProblem
build_from [] adjacency problems = (adjacency, problems)
build_from (e ∷ es) adjacency problems =
    let skip =
      build_from es adjacency
        (problems ++ (record { variant = e.bundle_variant_id; reason = invalid_quantity } ∷ [])) in
    let keep =
      build_from es
        (add_entry e.bundle_variant_id
          (record { component = e.component_variant_id; units = e.quantity }) adjacency)
        problems in
    if leb_ℤ e.quantity (pos 0) then skip else keep

-- `buildAdjacency`
unfoldable pub build_adjacency : List BundleEdge → Adjacency × List BundleProblem
unfolding build_from
build_adjacency edges = build_from edges [] []

pub record Part : Type 0 where
  pub timeline : List Version
  pub amount : ℤ

-- `part.timeline[0]!`: the callers give no empty timeline.
abbrev pub first_at : List Version → Instant
first_at [] = 0
first_at (v ∷ vs) = v.at

-- `Math.max(...)` of the first instants of at least one part.
unfoldable pub start_of : List Part → Instant
start_of [] = 0
start_of (p ∷ ps) = max (first_at p.timeline) (start_of ps)

abbrev pub instants_in : List Version → List Instant
instants_in = map λ (v : Version). v.at

unfoldable pub all_instants : List Part → List Instant
all_instants [] = []
all_instants (p ∷ ps) = instants_in p.timeline ++ all_instants ps

abbrev pub not_before : Instant → List Instant → List Instant
not_before start [] = []
not_before start (t ∷ ts) = if leb start t then t ∷ not_before start ts else not_before start ts

unfoldable pub instants_of : List Part → List Instant
unfolding start_of all_instants distinct
instants_of parts = sort leb (not_before (start_of parts) (distinct [] (all_instants parts)))

-- The loop over the parts at one instant: `none` where a part has no version in effect.
unfoldable pub unit_cost_from : ℤ → List Part → Instant → Option ℤ
unfolding cost_effective_at
unit_cost_from total [] at = some total
unit_cost_from total (p ∷ ps) at =
    let next = λ (c : ℤ). unit_cost_from (total +ℤ c *ℤ p.amount) ps at in
    elim (cost_effective_at p.timeline (some at)) [ none ↦ none | some v ↦ next v.unit_cost ]

abbrev pub same_cost : Option ℤ → ℤ → Bool
same_cost none c = false
same_cost (some p) c = p ==ℤ c

abbrev pub with_first : Version → Option (List Version) → Option (List Version)
with_first v none = none
with_first v (some vs) = some (v ∷ vs)

abbrev pub rollup : Instant → ℤ → Version
rollup at c = record { at = at; unit_cost = c; origin = "BUNDLE_ROLLUP" }

-- The loop over the instants, from the cost of the last version pushed; `none` is `return []`.
unfoldable pub derive : List Part → Option ℤ → List Instant → Option (List Version)
unfolding unit_cost_from
derive parts previous [] = some []
derive parts previous (t ∷ ts) =
    let same = derive parts previous ts in
    let changed = λ (c : ℤ). with_first (rollup t c) (derive parts (some c) ts) in
    elim (unit_cost_from (pos 0) parts t) [
      | none ↦ none
      | some c ↦ if same_cost previous c then same else changed c
    ]

-- `combineComponentTimelines`
unfoldable pub combine_component_timelines : List Part → List Version
unfolding instants_of derive
combine_component_timelines [] = []
combine_component_timelines (p ∷ ps) = or_else (derive (p ∷ ps) none (instants_of (p ∷ ps))) []
