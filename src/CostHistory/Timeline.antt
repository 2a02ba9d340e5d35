-- ===== src/CostHistory/Timeline.antt =====
-- `normaliseCostTimeline` of app/engine/cost-history.ts: what its result says of any instant.
use my_meridian.Base.{
  ℕ, ◌≡◌, ◌≢◌, refl, sym, ◌∙◌, inl, inr, Option, none, some, List, [], ◌∷◌, ◌==◌, arith, Bool-cases,
  All, Option-cases, ==_iff,
}
use my_meridian.Base.Keys.{Dict, insert, nat_eq}
use mathlib.Core.Path.{subst}
use my_meridian.CostHistory.{
  Version, CostVersion, Instant, by_instant, values, normalise_cost_timeline, cost_effective_at,
}
use my_meridian.CostHistory.Lookup.{Ascending, scan, cost_effective_at-eq-scan}
use my_meridian.CostHistory.Newest.{
  pick, best, replace, Apart, false-ne-true, best-sort, sort-Ascending, best-All, scan-eq-best,
}

-- A dictionary by instant: each version stands under its own instant, and no key twice.
abbrev Keyed : Dict Instant Version → Type 0
Keyed [] = Unit
Keyed (e ∷ d) = (e.1.at ≡ e.0) × All (λ (f : Instant × Version). f.0 ≢ e.0) d × Keyed d

insert-All :
    (k j : Instant) (v : Version) (d : Dict Instant Version)
    → k ≢ j
    → All (λ (f : Instant × Version). f.0 ≢ j) d
    → All (λ (f : Instant × Version). f.0 ≢ j) (insert k v d)
insert-All k j v [] n a = (n, tt)
insert-All k j v (e ∷ d) n a = ground (arith, insert-All k j v d n a.1)

insert-Keyed : (v : Version) (d : Dict Instant Version) → Keyed d → Keyed (insert v.at v d)
insert-Keyed v [] a = (refl, tt, tt)
insert-Keyed v (e ∷ d) a = elim (Bool-cases (v.at == e.0)) [
  | inl same ↦
      let k : e.0 ≡ v.at = sym ((==_iff v.at e.0).0 same) in
      rw same (refl, subst (λ (j : ℕ). All (λ (f : Instant × Version). f.0 ≢ j) d) k a.1, a.2)
  | inr other ↦
      rw other (
        a.0,
        insert-All v.at e.0 v d (λ q. false-ne-true v.at e.0 other q) a.1,
        insert-Keyed v d a.2,
      )
]

values-All :
    (k : Instant) (d : Dict Instant Version)
    → Keyed d
    → All (λ (f : Instant × Version). f.0 ≢ k) d
    → All (λ (w : Version). w.at ≢ k) (values d)
values-All k [] a n = tt
values-All k (e ∷ d) a n = (rw a.0 n.0, values-All k d a.2 n.1)

Keyed-Apart : (d : Dict Instant Version) → Keyed d → Apart (values d)
Keyed-Apart [] a = tt
Keyed-Apart (e ∷ d) a = (rw a.0 (values-All e.0 d a.2 a.1), Keyed-Apart d a.2)

replace_new :
    (t : Instant) (u v : Version) (o : Option Version)
    → u.at ≢ v.at
    → pick t u (replace t v o) ≡ replace t v (pick t u o)
replace_new t u v none n = ground arith
replace_new t u v (some w) n = ground arith

-- A version that replaces one of its own instant, none of the others being of that instant.
replace_same :
    (t : Instant) (u v : Version) (o : Option Version)
    → u.at ≡ v.at
    → ((w : Version) → o ≡ some w → w.at ≢ v.at)
    → pick t v o ≡ replace t v (pick t u o)
replace_same t u v none e n = ground arith
replace_same t u v (some w) e n = ground (arith, n w refl)

best-insert :
    (t : Instant) (v : Version) (d : Dict Instant Version)
    → Keyed d
    → best t (values (insert v.at v d)) ≡ replace t v (best t (values d))
best-insert t v [] a = refl
best-insert t v (e ∷ d) a = elim (Bool-cases (v.at == e.0)) [
  | inl same ↦
      let k : v.at ≡ e.0 = (==_iff v.at e.0).0 same in
      rw same (
        replace_same t e.1 v (best t (values d)) (a.0 ∙ sym k) λ w q.
          best-All (λ (w : Version). w.at ≢ v.at) t (values d) (rw k (values-All e.0 d a.2 a.1)) q)
  | inr other ↦
      rw (other, best-insert t v d a.2)
        (replace_new t e.1 v (best t (values d)) (rw a.0 λ q. false-ne-true v.at e.0 other (sym q)))
]

abbrev pub of_cost_version : CostVersion → Instant → Version
of_cost_version v t = record { at = t; unit_cost = v.unit_cost_micros; origin = v.source }

-- The specification: the version of the greatest instant at or before `t`, and of several at that
-- instant the last in the input. Versions with an invalid date are passed over.
abbrev pub latest : Instant → List CostVersion → Option Version → Option Version
latest t [] o = o
latest t (v ∷ vs) o =
    latest t vs (elim v.effective_at [ none ↦ o | some u ↦ replace t (of_cost_version v u) o ])

by_instant-latest :
    (t : Instant) (vs : List CostVersion) (d : Dict Instant Version)
    → Keyed d
    → Keyed (by_instant vs d)
      × (best t (values (by_instant vs d)) ≡ latest t vs (best t (values d)))
unfolding by_instant
by_instant-latest t [] d a = (a, refl)
by_instant-latest t (v ∷ vs) d a = elim (Option-cases v.effective_at) [
  | inl n ↦ rw n (by_instant-latest t vs d a)
  | inr (u, e) ↦
      let new : Version = of_cost_version v u in
      rw (e, ← best-insert t new d a)
        (by_instant-latest t vs (insert u new d) (insert-Keyed new d a))
]

-- The timeline is strictly ascending: it has one version for an instant.
pub normalise_cost_timeline-Ascending :
    (vs : List CostVersion) → Ascending (normalise_cost_timeline vs)
unfolding normalise_cost_timeline
normalise_cost_timeline-Ascending vs =
    sort-Ascending (values (by_instant vs []))
      (Keyed-Apart (by_instant vs []) (by_instant-latest 0 vs [] tt).0)

best-normalise_cost_timeline :
    (t : Instant) (vs : List CostVersion) → best t (normalise_cost_timeline vs) ≡ latest t vs none
unfolding normalise_cost_timeline
best-normalise_cost_timeline t vs =
    let (k, e) = by_instant-latest t vs [] tt in
    best-sort t (values (by_instant vs [])) (Keyed-Apart (by_instant vs []) k) ∙ e

pub scan-eq-latest :
    (vs : List CostVersion) (t : Instant) → scan (normalise_cost_timeline vs) t ≡ latest t vs none
scan-eq-latest vs t =
    scan-eq-best t (normalise_cost_timeline vs) (normalise_cost_timeline-Ascending vs)
    ∙ best-normalise_cost_timeline t vs

-- The binary search of the normalised timeline finds, at any instant, the version of the greatest
-- instant at or before it; of entries that share that instant the last one in the input wins, and
-- entries with an invalid date count for nothing.
pub cost_effective_at-eq-latest :
    (vs : List CostVersion) (t : Instant)
    → cost_effective_at (normalise_cost_timeline vs) (some t) ≡ latest t vs none
cost_effective_at-eq-latest vs t =
    cost_effective_at-eq-scan (normalise_cost_timeline vs) t (normalise_cost_timeline-Ascending vs)
    ∙ scan-eq-latest vs t
