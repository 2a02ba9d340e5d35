-- ===== src/Tests/Bundles.antt =====
-- app/engine/bundles.ts at concrete inputs.
use my_meridian.Base.{true, ◌↔◌, ℕ, some, List, [], ◌∷◌, ◌≡◌, ◌≢◌, refl, arith, All}
use my_meridian.Base.Int.{pos, ◌+ℤ◌, ◌*ℤ◌, ◌-ℤ◌}
use my_meridian.CostHistory.{Version, CostVersion}
use my_meridian.CostHistory.Lookup.{scan}
use my_meridian.CostHistory.Divergence.{cost_of}
use my_meridian.Bundles.{
  Part, BundleEdge, combine_component_timelines, rollup, cycle, invalid_quantity,
}
use my_meridian.BundleResolution.{resolve_bundle_cost_timelines}
use my_meridian.Bundles.{Adjacency}
use my_meridian.BundleResolution.{resolve, Resolution}
use my_meridian.BundleResolution.Fuel.{resolve-enough}
use my_meridian.Bundles.Combine.{parts_cost, IsPriced}
use my_meridian.BundleImpact.{has, bundles_affected_by}
use my_meridian.BundleImpact.Reach.{Affected, bundles_affected_by-exact}
use my_meridian.Bundles.Sum.{combine_component_timelines-sum}

abbrev cost : ℕ → ℕ → Version
cost t c = record { at = t; unit_cost = pos c; origin = "SHOPIFY" }

abbrev single : Part
single = record { timeline = cost 10 100 ∷ cost 30 120 ∷ []; amount = pos 3 }

abbrev box : Part
box = record { timeline = cost 20 7 ∷ []; amount = pos 1 }

three_pack :
    combine_component_timelines (single ∷ box ∷ []) ≡ rollup 20 (pos 307) ∷ rollup 30 (pos 367) ∷ []
unfolding combine_component_timelines ◌+ℤ◌ ◌*ℤ◌ ◌-ℤ◌
three_pack = refl

cons-ne-nil : {v : Version} {vs : List Version} → (v ∷ vs) ≢ []
cons-ne-nil e = cc

parts-IsPriced : All IsPriced (single ∷ box ∷ [])
parts-IsPriced = ((((omega arith, tt), (tt, tt)), cons-ne-nil), (((tt, tt), cons-ne-nil), tt))

combine_component_timelines-sum_example :
    cost_of (scan (combine_component_timelines (single ∷ box ∷ [])) 25)
    ≡ parts_cost (single ∷ box ∷ []) 25
combine_component_timelines-sum_example =
    combine_component_timelines-sum single (box ∷ []) 25 parts-IsPriced

abbrev base_cost : CostVersion
base_cost = record { unit_cost_micros = pos 100; effective_at = some 10; source = "SHOPIFY" }

abbrev edge : ℕ → BundleEdge
edge n = record { bundle_variant_id = "pack"; component_variant_id = "single"; quantity = pos n }

resolve-pack :
    resolve_bundle_cost_timelines (edge 3 ∷ edge 0 ∷ []) (("single", base_cost ∷ []) ∷ []) ≡ (
      ("pack", rollup 10 (pos 300) ∷ []) ∷ [],
      record { variant = "pack"; reason = invalid_quantity } ∷ [],
    )
unfolding resolve_bundle_cost_timelines ◌+ℤ◌ ◌*ℤ◌ ◌-ℤ◌
resolve-pack = refl

abbrev self_edge : BundleEdge
self_edge = record { bundle_variant_id = "pack"; component_variant_id = "pack"; quantity = pos 2 }

-- A bundle that contains itself is reported once, as a cycle.
resolve-cycle :
    resolve_bundle_cost_timelines (self_edge ∷ []) []
    ≡ ([], record { variant = "pack"; reason = cycle } ∷ [])
unfolding resolve_bundle_cost_timelines
resolve-cycle = refl

abbrev pack_adjacency : Adjacency
pack_adjacency = ("pack", record { component = "single"; units = pos 3 } ∷ []) ∷ []

abbrev nothing_yet : Resolution
nothing_yet = record { timelines = []; problems = []; resolved = []; in_progress = [] }

resolve-enough_example :
    resolve 12 pack_adjacency (("single", base_cost ∷ []) ∷ []) 0 "pack" nothing_yet
    ≡ resolve 10 pack_adjacency (("single", base_cost ∷ []) ∷ []) 0 "pack" nothing_yet
resolve-enough_example =
    resolve-enough pack_adjacency (("single", base_cost ∷ []) ∷ []) 12 "pack" nothing_yet
      (omega arith)

-- A can in a pack, the pack in a kit and in a crate that holds itself.
abbrev can_edges : List BundleEdge
can_edges =
    record { bundle_variant_id = "pack"; component_variant_id = "can"; quantity = pos 6 }
    ∷ record { bundle_variant_id = "kit"; component_variant_id = "pack"; quantity = pos 2 }
    ∷ record { bundle_variant_id = "crate"; component_variant_id = "pack"; quantity = pos 4 }
    ∷ record { bundle_variant_id = "crate"; component_variant_id = "crate"; quantity = pos 1 }
    ∷ record { bundle_variant_id = "box"; component_variant_id = "mug"; quantity = pos 1 }
    ∷ []

cans-affect : bundles_affected_by can_edges ("can" ∷ []) ≡ "pack" ∷ "kit" ∷ "crate" ∷ []
unfolding bundles_affected_by
cans-affect = refl

bundles_affected_by-exact_example :
    (has "crate" (bundles_affected_by can_edges ("can" ∷ [])) ≡ true)
    ↔ Affected can_edges ("can" ∷ []) "crate"
bundles_affected_by-exact_example = bundles_affected_by-exact can_edges ("can" ∷ []) "crate"
