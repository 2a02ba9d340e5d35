-- ===== src/CostHistory/Segments.antt =====
-- `costSegments` of app/engine/cost-history.ts: intervals that chain, and that say what the
-- timeline says.
use my_meridian.Base.{
  ◌<◌, ◌≡◌, ◌≢◌, refl, sym, ◌∙◌, inl, inr, Bool, true, false, Option, none, some, List, [], ◌∷◌,
  leb, ltb, ◌&&◌, if◌then◌else◌, or_else, arith, Bool-cases, All, All-imp,
}
use my_meridian.Base.Int.{ℤ, ◌==ℤ◌, ==ℤ_iff}
use my_meridian.CostHistory.{
  Version, CostVersion, Instant, normalise_cost_timeline, CostSegment, segments_after, segments_of,
  cost_segments,
}
use my_meridian.CostHistory.Lookup.{Ascending, scan}
use my_meridian.CostHistory.Timeline.{normalise_cost_timeline-Ascending}
use my_meridian.CostHistory.Divergence.{cost_at, cost_at-eq, cost_of}

abbrev before_end : Instant → Option Instant → Bool
before_end t none = true
before_end t (some e) = ltb t e

-- The cost of the interval that an instant lies in.
abbrev pub cost_in : List CostSegment → Instant → Option ℤ
cost_in [] t = none
cost_in (s ∷ ss) t =
    if leb s.from t && before_end t s.to_exclusive then some s.segment_cost else cost_in ss t

abbrev pub Linked : CostSegment → List CostSegment → Type 0
Linked s [] = s.to_exclusive ≡ none
Linked s (s' ∷ _) =
    (s.to_exclusive ≡ some s'.from) × (s.from < s'.from) × (s.segment_cost ≢ s'.segment_cost)

-- Each interval ends where the next one starts, later and at another cost; the last one is open.
abbrev pub Chained : List CostSegment → Type 0
Chained [] = Unit
Chained (s ∷ ss) = Linked s ss × Chained ss

abbrev opened : Version → CostSegment
opened v = record {
  segment_cost = v.unit_cost;
  segment_source = v.origin;
  from = v.at;
  to_exclusive = none;
}

pub scan-late :
    (vs : List Version) (t : Instant) → All (λ (v : Version). t < v.at) vs → scan vs t ≡ none
scan-late [] t a = refl
scan-late (v ∷ vs) t a = ground arith

abbrev or_cost : Option ℤ → ℤ → ℤ
or_cost none c = c
or_cost (some d) c = d

merge_lem :
    (cur : CostSegment) (v : Version) (o : Option Version) (t : Instant)
    → cur.from < v.at
    → cur.segment_cost ≡ v.unit_cost
    → (t < v.at → o ≡ none)
    → (if leb cur.from t then some (or_cost (cost_of o) cur.segment_cost) else none) ≡ (
        if leb cur.from t
        then some
            (or_cost (cost_of (if leb v.at t then some (or_else o v) else none)) cur.segment_cost)
        else none)
merge_lem cur v none t a e n = ground arith
merge_lem cur v (some w) t a e n = ground arith

split_lem :
    (cur : CostSegment) (v : Version) (o : Option Version) (t : Instant)
    → cur.to_exclusive ≡ none
    → cur.from < v.at
    → (if leb cur.from t && ltb t v.at
        then some cur.segment_cost
        else if leb v.at t
        then some (or_cost (cost_of o) v.unit_cost)
        else none)
      ≡ (if leb cur.from t
          then some
              (or_cost (cost_of (if leb v.at t then some (or_else o v) else none)) cur.segment_cost)
          else none)
split_lem cur v none t o a = ground arith
split_lem cur v (some w) t o a = ground arith

first_lem :
    (w : Version) (o : Option Version) (t : Instant)
    → (if leb w.at t then some (or_cost (cost_of o) w.unit_cost) else none)
      ≡ cost_of (if leb w.at t then some (or_else o w) else none)
first_lem w none t = ground arith
first_lem w (some v) t = ground arith

segments_after-cost_in :
    (cur : CostSegment) (vs : List Version) (t : Instant)
    → cur.to_exclusive ≡ none
    → All (λ (v : Version). cur.from < v.at) vs
    → Ascending vs
    → cost_in (segments_after cur vs) t
      ≡ (if leb cur.from t then some (or_cost (cost_of (scan vs t)) cur.segment_cost) else none)
unfolding segments_after
segments_after-cost_in cur [] t o a s = rw o (ground arith)
segments_after-cost_in cur (v ∷ vs) t o a s = elim (Bool-cases (cur.segment_cost ==ℤ v.unit_cost)) [
  | inl same ↦
      rw (same, segments_after-cost_in cur vs t o a.1 s.1)
        (merge_lem cur v (scan vs t) t (a.0) ((==ℤ_iff _ _).0 same) (λ h. scan-late vs t (
          All-imp (λ (u : Version). v.at < u.at) (λ (u : Version). t < u.at) vs (λ u k. omega arith)
            s.0)))
  | inr other ↦
      rw (other, segments_after-cost_in (opened v) vs t refl s.0 s.1)
        (split_lem cur v (scan vs t) t o (a.0))
]

-- At every instant the segments give the cost that the input gives, known or unknown.
pub cost_segments-cost_in :
    (vs : List CostVersion) (t : Instant) → cost_in (cost_segments vs) t ≡ cost_at vs t
unfolding cost_segments
cost_segments-cost_in vs t =
    segments_of-cost_in (normalise_cost_timeline vs) t (normalise_cost_timeline-Ascending vs)
    ∙ sym (cost_at-eq vs t)
  where
    segments_of-cost_in :
        (ws : List Version) (t : Instant)
        → Ascending ws
        → cost_in (segments_of ws) t ≡ cost_of (scan ws t)
    segments_of-cost_in [] t a = refl
    segments_of-cost_in (w ∷ ws) t a =
        segments_after-cost_in (opened w) ws t refl a.0 a.1 ∙ first_lem w (scan ws t) t

-- The first interval is the current one, with its end filled in.
segments_after-head :
    (cur : CostSegment) (vs : List Version)
    → (o : Option Instant) × (rest : List CostSegment) × (segments_after cur vs
        ≡ record cur { to_exclusive = o } ∷ rest)
unfolding segments_after
segments_after-head cur [] = (cur.to_exclusive, [], refl)
segments_after-head cur (v ∷ vs) = elim (Bool-cases (cur.segment_cost ==ℤ v.unit_cost)) [
  | inl same ↦ let (o, rest, e) = segments_after-head cur vs in (o, rest, rw same e)
  | inr other ↦ (some v.at, segments_after (opened v) vs, rw other)
]

segments_after-Linked :
    (cur : CostSegment) (v : Version) (vs : List Version)
    → cur.from < v.at
    → (cur.segment_cost ==ℤ v.unit_cost) ≡ false
    → Linked (record cur { to_exclusive = some v.at }) (segments_after (opened v) vs)
segments_after-Linked cur v vs a other =
    let (o, rest, e) = segments_after-head (opened v) vs in
    rw e (refl, a, λ q. true-ne-false (sym ((==ℤ_iff cur.segment_cost v.unit_cost).1 q) ∙ other))
  where
    true-ne-false : true ≡ false → ⊥
    true-ne-false e = cc

segments_after-Chained :
    (cur : CostSegment) (vs : List Version)
    → cur.to_exclusive ≡ none
    → All (λ (v : Version). cur.from < v.at) vs
    → Ascending vs
    → Chained (segments_after cur vs)
unfolding segments_after
segments_after-Chained cur [] o a s = (o, tt)
segments_after-Chained cur (v ∷ vs) o a s = elim (Bool-cases (cur.segment_cost ==ℤ v.unit_cost)) [
  | inl same ↦ rw same (segments_after-Chained cur vs o a.1 s.1)
  | inr other ↦
      rw other (
        segments_after-Linked cur v vs a.0 other,
        segments_after-Chained (opened v) vs refl s.0 s.1,
      )
]

-- Segments chain: each ends where the next starts, which is later and at another cost, and only the
-- last is open.
pub cost_segments-Chained : (vs : List CostVersion) → Chained (cost_segments vs)
unfolding cost_segments
cost_segments-Chained vs =
    segments_of-Chained (normalise_cost_timeline vs) (normalise_cost_timeline-Ascending vs)
  where
    segments_of-Chained : (ws : List Version) → Ascending ws → Chained (segments_of ws)
    segments_of-Chained [] a = tt
    segments_of-Chained (w ∷ ws) a = segments_after-Chained (opened w) ws refl a.0 a.1
