-- ===== src/CostHistory/Newest.antt =====
-- The newest version at or before an instant, whatever the order of a timeline of
-- app/engine/cost-history.ts, and the scan of one that is sorted.
use my_meridian.Base.{
  ℕ, ◌<◌, ◌≡◌, ◌≢◌, refl, ap, sym, ◌∙◌, ◌⊎◌, inl, inr, true, false, Option, none, some, List, [],
  ◌∷◌, ◌==◌, leb, ltb, ◌&&◌, if◌then◌else◌, arith, Bool-cases, All, All-imp, Option-cases,
}
use my_meridian.Base.Keys.{nat_eq}
use my_meridian.Base.Sort.{sort, insert_sorted, sort-All, insert_sorted-All}
use mathlib.Core.Path.{subst}
use mathlib.Core.Option.{some-injective}
use my_meridian.CostHistory.{Version, Instant, earlier}
use my_meridian.CostHistory.Lookup.{Ascending, scan}

-- The later of a version and a best one, at or before the instant; the best one stays on a tie.
abbrev pub pick : Instant → Version → Option Version → Option Version
pick t v none = if leb v.at t then some v else none
pick t v (some w) = if leb v.at t && ltb w.at v.at then some v else some w

abbrev pub best : Instant → List Version → Option Version
best t [] = none
best t (v ∷ vs) = pick t v (best t vs)

-- The same, where the new version wins on a tie.
abbrev pub replace : Instant → Version → Option Version → Option Version
replace t v none = if leb v.at t then some v else none
replace t v (some w) = if leb v.at t && leb w.at v.at then some v else some w

abbrev pub Apart : List Version → Type 0
Apart [] = Unit
Apart (v ∷ vs) = All (λ (w : Version). w.at ≢ v.at) vs × Apart vs

none-ne-some : {v : Version} → none ≡ some v → ⊥
none-ne-some e = cc

later_than : (v u : Version) (t : Instant) → leb v.at t ≡ false → v.at < u.at → t < u.at
later_than v u t h b = ground arith

pub false-ne-true : (a b : ℕ) → (a == b) ≡ false → a ≢ b
false-ne-true a b h = ground arith

pick_comm :
    (t : Instant) (v w : Version) (o : Option Version)
    → v.at ≢ w.at
    → pick t v (pick t w o) ≡ pick t w (pick t v o)
pick_comm t v w none h = ground arith
pick_comm t v w (some u) h = ground arith

best-insert_sorted :
    (t : Instant) (v : Version) (vs : List Version)
    → All (λ (w : Version). w.at ≢ v.at) vs
    → best t (insert_sorted earlier v vs) ≡ pick t v (best t vs)
best-insert_sorted t v [] a = refl
best-insert_sorted t v (w ∷ ws) a = elim (Bool-cases (earlier v w)) [
  | inl first ↦ rw first
  | inr later ↦ rw (later, best-insert_sorted t v ws a.1) (pick_comm t w v (best t ws) a.0)
]

pub best-sort : (t : Instant) (vs : List Version) → Apart vs → best t (sort earlier vs) ≡ best t vs
best-sort t [] a = refl
best-sort t (v ∷ vs) a =
    best-insert_sorted t v (sort earlier vs)
      (sort-All earlier (λ (w : Version). w.at ≢ v.at) vs a.0)
    ∙ ap (pick t v) (best-sort t vs a.1)

first_below : (v w : Version) → earlier v w ≡ true → w.at ≢ v.at → v.at < w.at
first_below v w h n = ground arith

later_above : (v w : Version) → earlier v w ≡ false → w.at < v.at
later_above v w h = ground arith

insert_sorted-Ascending :
    (v : Version) (vs : List Version)
    → All (λ (w : Version). w.at ≢ v.at) vs
    → Ascending vs
    → Ascending (insert_sorted earlier v vs)
insert_sorted-Ascending v [] a s = (tt, tt)
insert_sorted-Ascending v (w ∷ ws) a s = elim (Bool-cases (earlier v w)) [
  | inl first ↦
      let below : v.at < w.at = first_below v w first a.0 in
      rw first (
        (
          below,
          All-imp (λ (u : Version). w.at < u.at) (λ (u : Version). v.at < u.at) ws
              (λ u h. omega arith) s.0,
        ),
        s,
      )
  | inr later ↦ rw later (
    insert_sorted-All earlier (λ (u : Version). w.at < u.at) v ws (later_above v w later) s.0,
    insert_sorted-Ascending v ws a.1 s.1,
  )
]

pub sort-Ascending : (vs : List Version) → Apart vs → Ascending (sort earlier vs)
sort-Ascending [] a = tt
sort-Ascending (v ∷ vs) a =
    insert_sorted-Ascending v (sort earlier vs)
      (sort-All earlier (λ (w : Version). w.at ≢ v.at) vs a.0) (sort-Ascending vs a.1)

best-late :
    (t : Instant) (vs : List Version) → All (λ (w : Version). t < w.at) vs → best t vs ≡ none
best-late t [] a = refl
best-late t (v ∷ vs) a = rw (best-late t vs a.1) (ground arith)

pick-cases :
    (t : Instant) (v : Version) (o : Option Version) → (pick t v o ≡ some v) ⊎ (pick t v o ≡ o)
pick-cases t v none = elim (Bool-cases (leb v.at t)) [ inl h ↦ inl (rw h) | inr h ↦ inr (rw h) ]
pick-cases t v (some w) = elim (Bool-cases (leb v.at t && ltb w.at v.at)) [
  | inl h ↦ inl (rw h)
  | inr h ↦ inr (rw h)
]

pub best-All :
    (P : Version → Type 0) (t : Instant) (vs : List Version) {w : Version}
    → All P vs
    → best t vs ≡ some w
    → P w
best-All P t [] a e = absurd (none-ne-some e)
best-All P t (v ∷ vs) a e = elim (pick-cases t v (best t vs)) [
  | inl new ↦ subst P (some-injective _ _ (sym new ∙ e)) a.0
  | inr old ↦ best-All P t vs a.1 (sym old ∙ e)
]

pub scan-eq-best : (t : Instant) (vs : List Version) → Ascending vs → scan vs t ≡ best t vs
scan-eq-best t [] a = refl
scan-eq-best t (v ∷ vs) a = elim (Bool-cases (leb v.at t)) [
  | inl here ↦ elim (Option-cases (best t vs)) [
    | inl n ↦ rw (here, scan-eq-best t vs a.1, n) (ground arith)
    | inr (w, e) ↦
        let above : v.at < w.at = best-All (λ (u : Version). v.at < u.at) t vs a.0 e in
        rw (here, scan-eq-best t vs a.1, e) (ground arith)
  ]
  | inr out ↦
      rw
        (
          out,
          best-late t vs (
              All-imp (λ (u : Version). v.at < u.at) (λ (u : Version). t < u.at) vs
                (λ u h. later_than v u t out h) a.0),
        )
        (rw out)
]
