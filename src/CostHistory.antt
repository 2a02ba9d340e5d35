-- ===== src/CostHistory.antt =====
-- app/engine/cost-history.ts: a variant's cost as a step function of time. Instants are
-- milliseconds counted from the earliest `Date`, so they are naturals; an invalid `Date` is `none`.
pub mod Newest
pub mod Timeline
pub mod Lookup
pub mod Instants
pub mod Between
pub mod Divergence
pub mod Segments
use my_meridian.Base.{
  ℕ, zero, suc, ◌+◌, ◌-◌, ◌/◌, Bool, true, false, not, Option, none, some, List, [], ◌∷◌, ◌++◌, map,
  ltb, leb, ◌==◌, if◌then◌else◌, length, get_elem?, String,
}
use my_meridian.Base.Int.{ℤ, ◌==ℤ◌}
use my_meridian.Base.Keys.{Dict, insert, nat_eq, Eq, ◌=?◌}
use my_meridian.Base.Sort.{sort}

abbrev pub Instant : Type 0
Instant = ℕ

-- A `Date` object, whose `getTime` may be `NaN`.
abbrev pub Date : Type 0
Date = Option Instant

pub record CostVersion : Type 0 where
  pub unit_cost_micros : ℤ
  pub effective_at : Date
  pub source : String

-- A version whose instant is a number, as the result of `normaliseCostTimeline` has them.
pub record Version : Type 0 where
  pub at : Instant
  pub unit_cost : ℤ
  pub origin : String

-- The loop that fills `byInstant`.
unfoldable pub by_instant : List CostVersion → Dict Instant Version → Dict Instant Version
by_instant [] d = d
by_instant (v ∷ vs) d = by_instant vs (elim v.effective_at [
  | none ↦ d
  | some t ↦ insert t (record { at = t; unit_cost = v.unit_cost_micros; origin = v.source }) d
])

abbrev pub values : Dict Instant Version → List Version
values = map λ e. e.1

-- `(a, b) => timeOf(a) - timeOf(b)`, at most zero
abbrev pub earlier : Version → Version → Bool
earlier a b = leb a.at b.at

-- `normaliseCostTimeline`
unfoldable pub normalise_cost_timeline : List CostVersion → List Version
unfolding by_instant
normalise_cost_timeline versions = sort earlier (values (by_instant versions []))

-- The loop `while (low <= high)`, with `high + 1` for the source's `high`, on fuel.
unfoldable pub search_from : ℕ → List Version → Instant → ℕ → ℕ → Option Version → Option Version
search_from zero timeline target low end found = found
search_from (suc fuel) timeline target low end found =
    let mid = (low + (end - 1)) / 2 in
    let candidate = get_elem? timeline mid in
    let later = search_from fuel timeline target (mid + 1) end candidate in
    let sooner = search_from fuel timeline target low mid found in
    if ltb low end
    then (elim candidate [ none ↦ found | some v ↦ if leb v.at target then later else sooner ])
    else found

-- `costEffectiveAt`: the rounds are fewer than the entries.
unfoldable pub cost_effective_at : List Version → Date → Option Version
unfolding search_from
cost_effective_at timeline none = none
cost_effective_at timeline (some target) =
    search_from (suc (length timeline)) timeline target 0 (length timeline) none

-- The disagreement that `costDivergenceFrom` tests for at one instant.
unfoldable pub disagree : Option Version → Option Version → Bool
disagree none none = false
disagree none (some b) = true
disagree (some a) none = true
disagree (some a) (some b) = not (a.unit_cost ==ℤ b.unit_cost)

-- `new Set(...)`: the first of equal instants stays.
abbrev pub contains : Instant → List Instant → Bool
contains t [] = false
contains t (u ∷ us) = if t == u then true else contains t us

unfoldable pub distinct : List Instant → List Instant → List Instant
distinct seen [] = []
distinct seen (t ∷ ts) =
    let rest = distinct seen ts in
    let fresh = t ∷ distinct (t ∷ seen) ts in if contains t seen then rest else fresh

-- The loop over the breakpoints.
unfoldable pub first_divergence : List Version → List Version → List Instant → Option Instant
unfolding cost_effective_at disagree
first_divergence left right [] = none
first_divergence left right (t ∷ ts) =
    if disagree (cost_effective_at left (some t)) (cost_effective_at right (some t))
    then some t
    else first_divergence left right ts

unfoldable pub breakpoints : List Version → List Version → List Instant
unfolding distinct
breakpoints left right = sort leb (distinct [] (map (λ (v : Version). v.at) (left ++ right)))

-- `costDivergenceFrom`
unfoldable pub cost_divergence_from : List CostVersion → List CostVersion → Option Instant
unfolding normalise_cost_timeline breakpoints first_divergence
cost_divergence_from before after =
    let left = normalise_cost_timeline before in
    let right = normalise_cost_timeline after in
    first_divergence left right (breakpoints left right)

pub record CostSegment : Type 0 where
  pub segment_cost : ℤ
  pub segment_source : String
  pub from : Instant
  -- `null` means still in effect
  pub to_exclusive : Option Instant

-- The loop of `costSegments`: the open segment is the last one pushed.
unfoldable pub segments_after : CostSegment → List Version → List CostSegment
segments_after current [] = current ∷ []
segments_after current (v ∷ vs) =
    let merged = segments_after current vs in
    let next =
      segments_after
        (record {
          segment_cost = v.unit_cost;
          segment_source = v.origin;
          from = v.at;
          to_exclusive = none;
        })
        vs in
    if current.segment_cost ==ℤ v.unit_cost
    then merged
    else record current { to_exclusive = some v.at } ∷ next

unfoldable pub segments_of : List Version → List CostSegment
unfolding segments_after
segments_of [] = []
segments_of (v ∷ vs) =
    segments_after
      (record {
        segment_cost = v.unit_cost;
        segment_source = v.origin;
        from = v.at;
        to_exclusive = none;
      })
      vs

-- `costSegments`
unfoldable pub cost_segments : List CostVersion → List CostSegment
unfolding normalise_cost_timeline segments_of
cost_segments versions = segments_of (normalise_cost_timeline versions)
