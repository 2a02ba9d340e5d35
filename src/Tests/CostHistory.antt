-- ===== src/Tests/CostHistory.antt =====
-- app/engine/cost-history.ts at concrete inputs.
use my_meridian.Base.{List, [], ◌∷◌, ◌≡◌, refl, some, none}
use my_meridian.Base.Int.{pos}
use my_meridian.CostHistory.{
  CostVersion, normalise_cost_timeline, cost_effective_at, cost_divergence_from, cost_segments,
}
use my_meridian.CostHistory.Timeline.{cost_effective_at-eq-latest, latest}
use my_meridian.CostHistory.Divergence.{Diverges, cost_divergence_from-Diverges, cost_at}
use my_meridian.CostHistory.Segments.{
  cost_in, Chained, cost_segments-cost_in, cost_segments-Chained,
}

-- Out of order, with a duplicate instant and an invalid date.
abbrev history : List CostVersion
history =
    record { unit_cost_micros = pos 300; effective_at = some 30; source = "late" }
    ∷ record { unit_cost_micros = pos 100; effective_at = some 10; source = "first" }
    ∷ record { unit_cost_micros = pos 999; effective_at = none; source = "broken" }
    ∷ record { unit_cost_micros = pos 100; effective_at = some 20; source = "again" }
    ∷ record { unit_cost_micros = pos 350; effective_at = some 30; source = "corrected" }
    ∷ []

abbrev corrected : List CostVersion
corrected = record { unit_cost_micros = pos 120; effective_at = some 20; source = "fix" } ∷ history

found : cost_at history 29 ≡ some (pos 100)
found = refl

searched :
    cost_effective_at (normalise_cost_timeline history) (some 30)
    ≡ some (record { at = 30; unit_cost = pos 350; origin = "corrected" })
unfolding cost_effective_at normalise_cost_timeline
searched = refl

cost_effective_at-eq-latest_example :
    cost_effective_at (normalise_cost_timeline history) (some 25) ≡ latest 25 history none
cost_effective_at-eq-latest_example = cost_effective_at-eq-latest history 25

cost_divergence_from-Diverges_example :
    Diverges history corrected (cost_divergence_from history corrected)
cost_divergence_from-Diverges_example = cost_divergence_from-Diverges history corrected

cost_segments-cost_in_example : cost_in (cost_segments history) 25 ≡ cost_at history 25
cost_segments-cost_in_example = cost_segments-cost_in history 25

cost_segments-Chained_example : Chained (cost_segments history)
cost_segments-Chained_example = cost_segments-Chained history
