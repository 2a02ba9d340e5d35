-- ===== src/BundleImpact.antt =====
-- app/engine/bundles.ts: `bundlesAffectedBy`, the bundles to derive again when costs change.
pub mod Walk
pub mod Reach
use my_meridian.Base.{
  ℕ, zero, suc, ◌+◌, Bool, true, false, ◌||◌, Option, none, some, List, [], ◌∷◌, ◌++◌,
  if◌then◌else◌, or_else, String, length,
}
use my_meridian.Base.Keys.{◌=?◌, string_eq, Dict, lookup, insert}
use my_meridian.Bundles.{BundleEdge}

-- `parentsOf`
unfoldable pub parents_of : List BundleEdge → Dict String (List String) → Dict String (List String)
parents_of [] parents = parents
parents_of (e ∷ es) parents =
    let c = e.component_variant_id in
    parents_of es (insert c (or_else (lookup c parents) [] ++ (e.bundle_variant_id ∷ [])) parents)

abbrev pub has : String → List String → Bool
has x [] = false
has x (y ∷ ys) = x =? y || has x ys

-- The inner loop over the parents of a variant: what is affected, and the queue.
unfoldable pub visit : List String → List String → List String → List String × List String
visit [] affected queue = (affected, queue)
visit (p ∷ ps) affected queue =
    let known = visit ps affected queue in
    let new = visit ps (affected ++ (p ∷ [])) (queue ++ (p ∷ [])) in
    if has p affected then known else new

-- The loop `while (queue.length > 0)`.
unfoldable pub walk : ℕ → Dict String (List String) → List String → List String → List String
unfolding visit
walk zero parents affected queue = affected
walk (suc fuel) parents affected [] = affected
walk (suc fuel) parents affected (v ∷ queue) =
    let next = visit (or_else (lookup v parents) []) affected queue in
    walk fuel parents next.0 next.1

-- `bundlesAffectedBy`: every round takes a variant off the queue, and each edge puts one on at most
-- once.
unfoldable pub bundles_affected_by : List BundleEdge → List String → List String
unfolding parents_of walk
bundles_affected_by edges changed =
    walk (length changed + length edges) (parents_of edges []) [] changed
