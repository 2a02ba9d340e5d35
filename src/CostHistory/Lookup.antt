-- ===== src/CostHistory/Lookup.antt =====
-- The binary search of `costEffectiveAt` against a scan of the timeline.
use my_meridian.Base.{
  ℕ, zero, suc, ◌+◌, ◌-◌, ◌/◌, ◌≤◌, ◌<◌, ◌≡◌, refl, ap, ◌∙◌, ltb→lt, inl, inr, Option, none, some,
  List, [], ◌∷◌, leb, ltb, if◌then◌else◌, length, get_elem?, or_else, arith, Bool-cases, false, All,
  leb→le,
}
use mathlib.Core.Path.{subst}
use mathlib.Core.Option.{some-injective}
use native.Mathlib.Numerals.{add-one}
use my_meridian.CostHistory.{Version, Instant, search_from, cost_effective_at}

-- Strictly ascending instants.
abbrev pub Ascending : List Version → Type 0
Ascending [] = Unit
Ascending (v ∷ vs) = All (λ (w : Version). v.at < w.at) vs × Ascending vs

-- The last version at or before an instant, of an ascending timeline.
abbrev pub scan : List Version → Instant → Option Version
scan [] t = none
scan (v ∷ vs) t = if leb v.at t then some (or_else (scan vs t) v) else none

-- How many versions stand at or before the instant.
abbrev rank : List Version → Instant → ℕ
rank [] t = 0
rank (v ∷ vs) t = if leb v.at t then suc (rank vs t) else 0

-- The version before a place.
abbrev before : List Version → ℕ → Option Version
before vs zero = none
before vs (suc i) = get_elem? vs i

not-ltb→le : (a b : ℕ) → ltb a b ≡ false → b ≤ a
not-ltb→le a b h = ground arith

not-leb→lt : (a b : ℕ) → leb a b ≡ false → b < a
not-leb→lt a b h = ground arith

rank-le-length : (vs : List Version) (t : Instant) → rank vs t ≤ length vs
rank-le-length [] t = omega arith
rank-le-length (v ∷ vs) t = ground (arith, rank-le-length vs t)

none-ne-some : {v : Version} → none ≡ some v → ⊥
none-ne-some e = cc

get_elem?-some :
    (vs : List Version) (i : ℕ) → i < length vs → (v : Version) × (get_elem? vs i ≡ some v)
get_elem?-some [] i h = elim h [ ]
get_elem?-some (v ∷ vs) zero h = (v, refl)
get_elem?-some (v ∷ vs) (suc i) h = get_elem?-some vs i (omega arith)

get_elem?-All :
    (P : Version → Type 0) (vs : List Version) (i : ℕ) {v : Version}
    → All P vs
    → get_elem? vs i ≡ some v
    → P v
get_elem?-All P [] i h e = absurd (none-ne-some e)
get_elem?-All P (w ∷ vs) zero h e = subst P (some-injective _ _ e) h.0
get_elem?-All P (w ∷ vs) (suc i) h e = get_elem?-All P vs i h.1 e

rank_iff :
    (vs : List Version) (t : Instant) (i : ℕ) {v : Version}
    → Ascending vs
    → get_elem? vs i ≡ some v
    → (v.at ≤ t → i < rank vs t) × (t < v.at → rank vs t ≤ i)
rank_iff [] t i a e = absurd (none-ne-some e)
rank_iff (w ∷ vs) t zero a e = ground arith
rank_iff (w ∷ vs) t (suc i) {v} a e =
    let below : w.at < v.at = get_elem?-All (λ (u : Version). w.at < u.at) vs i a.0 e in
    ground (arith, rank_iff vs t i a.1 e)

get_elem?-cons :
    (v : Version) (vs : List Version) (i : ℕ)
    → i ≤ length vs
    → get_elem? (v ∷ vs) i ≡ some (or_else (before vs i) v)
get_elem?-cons v vs zero h = refl
get_elem?-cons v vs (suc i) h = let (w, e) = get_elem?-some vs i h in rw e

before-rank : (vs : List Version) (t : Instant) → before vs (rank vs t) ≡ scan vs t
before-rank [] t = refl
before-rank (v ∷ vs) t = elim (Bool-cases (leb v.at t)) [
  | inl here ↦
      rw here (get_elem?-cons v vs (rank vs t) (rank-le-length vs t) ∙ rw (before-rank vs t))
  | inr out ↦ rw out
]

-- The bounds close in on the rank.
search_from-before :
    (fuel : ℕ) (vs : List Version) (t : Instant) (low end : ℕ)
    → Ascending vs
    → low ≤ rank vs t
    → rank vs t ≤ end
    → end ≤ length vs
    → end - low < fuel
    → search_from fuel vs t low end (before vs low) ≡ before vs (rank vs t)
unfolding search_from
search_from-before zero vs t low end a p q r f = absurd (omega arith)
search_from-before (suc fuel) vs t low end a p q r f = elim (Bool-cases (ltb low end)) [
  | inl go ↦
      let mid = (low + (end - 1)) / 2 in
      let inside : low < end = ltb→lt low end go in
      let (v, e) = get_elem?-some vs mid (omega arith) in
      let (above, below) = rank_iff vs t mid a e in
      elim (Bool-cases (leb v.at t)) [
        | inl early ↦
            let reached = above (leb→le v.at t early) in
            rw (go, e, early, add-one mid)
              (search_from-before fuel vs t (suc mid) end a (omega arith) q r (omega arith))
        | inr late ↦
            let passed = below (not-leb→lt v.at t late) in
            rw (go, e, late)
              (search_from-before fuel vs t low mid a p (omega arith) (omega arith) (omega arith))
      ]
  | inr stop ↦ rw stop (ap (before vs) (omega (arith, not-ltb→le low end stop)))
]

-- On an ascending timeline the search finds what a scan finds.
pub cost_effective_at-eq-scan :
    (vs : List Version) (t : Instant) → Ascending vs → cost_effective_at vs (some t) ≡ scan vs t
unfolding cost_effective_at
cost_effective_at-eq-scan vs t a =
    search_from-before (suc (length vs)) vs t 0 (length vs) a (omega arith) (rank-le-length vs t)
      (omega arith) (omega arith)
    ∙ before-rank vs t
