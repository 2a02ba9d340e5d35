-- ===== src/CostHistory/Divergence.antt =====
-- `costDivergenceFrom` of app/engine/cost-history.ts: comparing two timelines at their breakpoints
-- is exhaustive.
use my_meridian.Base.{
  ℕ, ◌≤◌, ◌<◌, ◌≡◌, ◌≢◌, refl, ap, sym, ◌∙◌, inl, inr, Bool, true, false, Option, none, some, List,
  [], ◌∷◌, ◌++◌, leb, arith, Bool-cases, All, All-imp, Option-cases, map, leb→le, not,
  All-append_inv, true-ne-false,
}
use my_meridian.Base.Int.{ℤ, ==ℤ_iff}
use my_meridian.CostHistory.{
  Version, CostVersion, Instant, normalise_cost_timeline, cost_effective_at, disagree, distinct,
  breakpoints, first_divergence, cost_divergence_from,
}
use my_meridian.CostHistory.Lookup.{Ascending, scan, cost_effective_at-eq-scan}
use my_meridian.CostHistory.Timeline.{latest, scan-eq-latest, normalise_cost_timeline-Ascending}
use mathlib.Core.Path.{subst}
use mathlib.Core.List.{map-append}
use mathlib.Core.Option.{some-injective}
use my_meridian.CostHistory.Instants.{Sorted, sort-All_inv, sort-Sorted, distinct-All_inv}
use my_meridian.CostHistory.Between.{none-ne-some, scan-All, scan-le, scan-between}

-- The unit cost that a lookup gives.
abbrev pub cost_of : Option Version → Option ℤ
cost_of none = none
cost_of (some v) = some v.unit_cost

-- The unit cost in effect at an instant, if one is known.
abbrev pub cost_at : List CostVersion → Instant → Option ℤ
cost_at vs t = cost_of (latest t vs none)

breakpoints-Sorted : (left right : List Version) → Sorted (breakpoints left right)
unfolding breakpoints
breakpoints-Sorted left right =
    sort-Sorted (distinct [] (map (λ (v : Version). v.at) (left ++ right)))

module _ (left right : List Version) where
  abbrev D : Instant → Bool
  D b = disagree (cost_effective_at left (some b)) (cost_effective_at right (some b))

  abbrev Found : Option Instant → List Instant → Type 0
  Found none bs = All (λ (b : Instant). D b ≡ false) bs
  Found (some t) bs = (D t ≡ true) × All (λ (b : Instant). b < t → D b ≡ false) bs

  Found-cons :
      (o : Option Instant) (b : Instant) (bs : List Instant)
      → D b ≡ false
      → Found o bs
      → Found o (b ∷ bs)
  Found-cons none b bs e f = (e, f)
  Found-cons (some t) b bs e f = (f.0, ((λ _. e), f.1))

  first_divergence-Found :
      (bs : List Instant) → Sorted bs → Found (first_divergence left right bs) bs
  unfolding first_divergence
  first_divergence-Found [] s = tt
  first_divergence-Found (b ∷ bs) s = elim (Bool-cases (D b)) [
    | inl here ↦ rw here (
      here,
      (
        (λ h. absurd (omega arith)),
        All-imp (λ (c : Instant). b ≤ c) (λ (c : Instant). c < b → D c ≡ false) bs
            (λ c h k. absurd (omega arith)) s.0,
      ),
    )
    | inr on ↦
        rw on (Found-cons (first_divergence left right bs) b bs on (first_divergence-Found bs s.1))
  ]

  module _ (l : Ascending left) (r : Ascending right) where
    agree_via :
        (b u : Instant)
        → b ≤ u
        → D b ≡ false
        → ((v : Version) → scan left u ≡ some v → v.at ≤ b)
        → ((v : Version) → scan right u ≡ some v → v.at ≤ b)
        → disagree (scan left u) (scan right u) ≡ false
    agree_via b u h e p q =
        rw
          (
            ← scan-between left b u l h p,
            ← scan-between right b u r h q,
            ← cost_effective_at-eq-scan left b l,
            ← cost_effective_at-eq-scan right b r,
          )
          e

    -- Quiet at the breakpoints up to an instant, the timelines agree at it.
    agree_at :
        (u : Instant)
        → All (λ (b : Instant). b ≤ u → D b ≡ false) (map (λ (v : Version). v.at) left)
        → All (λ (b : Instant). b ≤ u → D b ≡ false) (map (λ (v : Version). v.at) right)
        → disagree (scan left u) (scan right u) ≡ false
    agree_at u x y = elim (Option-cases (scan left u)) [
      | inl n ↦ elim (Option-cases (scan right u)) [
        | inl m ↦ rw (n, m) (unfold disagree in refl)
        | inr (q, f) ↦ from_right q f (λ v e. absurd (none-ne-some (sym n ∙ e)))
      ]
      | inr (p, e) ↦ elim (Option-cases (scan right u)) [
        | inl m ↦ from_left p e (λ v f. absurd (none-ne-some (sym m ∙ f)))
        | inr (q, f) ↦ elim (Bool-cases (leb q.at p.at)) [
          | inl le ↦
              from_left p e
                (λ v g. same_le q v p.at (some-injective _ _ (sym f ∙ g)) (leb→le _ _ le))
          | inr gt ↦
              from_right q f
                (λ v g. same_le p v q.at (some-injective _ _ (sym e ∙ g)) (not-leb→le q.at p.at gt))
        ]
      ]
    ]
      where
        same_le : (p v : Version) (b : Instant) → p ≡ v → p.at ≤ b → v.at ≤ b
        same_le p v b e h = subst (λ (z : Version). z.at ≤ b) e h

        not-leb→le : (a b : ℕ) → leb a b ≡ false → b ≤ a
        not-leb→le a b h = ground arith

        from_left :
            (p : Version)
            → scan left u ≡ some p
            → ((v : Version) → scan right u ≡ some v → v.at ≤ p.at)
            → disagree (scan left u) (scan right u) ≡ false
        from_left p e k =
            let le = scan-le left u e in
            agree_via p.at u le (scan-All (λ (b : Instant). b ≤ u → D b ≡ false) left u x e le)
              (λ v g. same_le p v p.at (some-injective _ _ (sym e ∙ g)) (omega arith)) k

        from_right :
            (q : Version)
            → scan right u ≡ some q
            → ((v : Version) → scan left u ≡ some v → v.at ≤ q.at)
            → disagree (scan left u) (scan right u) ≡ false
        from_right q f k =
            let le = scan-le right u f in
            agree_via q.at u le (scan-All (λ (b : Instant). b ≤ u → D b ≡ false) right u y f le) k
              (λ v g. same_le q v q.at (some-injective _ _ (sym f ∙ g)) (omega arith))

not-false : (b : Bool) → not b ≡ false → b ≡ true
not-false true e = refl
not-false false e = cc

pub cost_at-eq :
    (vs : List CostVersion) (u : Instant)
    → cost_at vs u ≡ cost_of (scan (normalise_cost_timeline vs) u)
cost_at-eq vs u = ap cost_of (sym (scan-eq-latest vs u))

disagree-false : (a b : Option Version) → disagree a b ≡ false → cost_of a ≡ cost_of b
unfolding disagree
disagree-false none none e = refl
disagree-false none (some b) e = cc
disagree-false (some a) none e = cc
disagree-false (some a) (some b) e = ap some ((==ℤ_iff a.unit_cost b.unit_cost).0 (not-false _ e))

disagree-true : (a b : Option Version) → disagree a b ≡ true → cost_of a ≢ cost_of b
unfolding disagree
disagree-true none none e = cc
disagree-true none (some b) e = cc
disagree-true (some a) none e = cc
disagree-true (some a) (some b) e =
    λ q. true-ne-false (sym e ∙ rw ((==ℤ_iff a.unit_cost b.unit_cost).1 (some-injective _ _ q)))

module _ (P : Instant → Type 0) (left right : List Version) where
  breakpoints-All :
      All P (breakpoints left right)
      → All P (map (λ (v : Version). v.at) left) × All P (map (λ (v : Version). v.at) right)
  unfolding breakpoints
  breakpoints-All h =
      let all = map (λ (v : Version). v.at) (left ++ right) in
      let inputs : All P all = distinct-All_inv P [] all (sort-All_inv P (distinct [] all) h) tt in
      All-append_inv P (map (λ (v : Version). v.at) left) (map (λ (v : Version). v.at) right)
        (rw (map-append (λ (v : Version). v.at) left right) at inputs)

module _ (before after : List CostVersion) where
  agree_lem :
      (u : Instant)
      → disagree (scan (normalise_cost_timeline before) u) (scan (normalise_cost_timeline after) u)
        ≡ false
      → cost_at before u ≡ cost_at after u
  agree_lem u e =
      cost_at-eq before u
      ∙ disagree-false (scan (normalise_cost_timeline before) u)
          (scan (normalise_cost_timeline after) u) e
      ∙ sym (cost_at-eq after u)

  differ_lem :
      (u : Instant)
      → D (normalise_cost_timeline before) (normalise_cost_timeline after) u ≡ true
      → cost_at before u ≢ cost_at after u
  differ_lem u e q =
      let left = normalise_cost_timeline before in
      let right = normalise_cost_timeline after in
      let e' : disagree (scan left u) (scan right u) ≡ true =
        rw
          (
            ← cost_effective_at-eq-scan left u (normalise_cost_timeline-Ascending before),
            ← cost_effective_at-eq-scan right u (normalise_cost_timeline-Ascending after),
          )
          e in
      disagree-true (scan left u) (scan right u) e'
        (sym (cost_at-eq before u) ∙ q ∙ cost_at-eq after u)

  agree_in :
      (u : Instant)
      → let left = normalise_cost_timeline before in
        let right = normalise_cost_timeline after in
        All (λ (b : Instant). b ≤ u → D left right b ≡ false) (breakpoints left right)
        → cost_at before u ≡ cost_at after u
  agree_in u a =
      let left = normalise_cost_timeline before in
      let right = normalise_cost_timeline after in
      let (x, y) = breakpoints-All (λ (b : Instant). b ≤ u → D left right b ≡ false) left right a in
      agree_lem u (
        agree_at left right (normalise_cost_timeline-Ascending before)
          (normalise_cost_timeline-Ascending after) u x y)

-- What `costDivergenceFrom` answers: with no instant, the two inputs give the same cost at every
-- instant; with one, they give different costs there (an unknown cost differs from every known
-- one) and the same at every earlier instant.
abbrev pub Diverges : List CostVersion → List CostVersion → Option Instant → Type 0
Diverges before after none = (u : Instant) → cost_at before u ≡ cost_at after u
Diverges before after (some t) =
    (cost_at before t ≢ cost_at after t)
    × ((u : Instant) → u < t → cost_at before u ≡ cost_at after u)

-- `costDivergenceFrom` answers exactly the first instant, of all instants, at which the two inputs
-- give different costs, and null exactly if there is none.
pub cost_divergence_from-Diverges :
    (before after : List CostVersion) → Diverges before after (cost_divergence_from before after)
unfolding cost_divergence_from
cost_divergence_from-Diverges before after =
    let left = normalise_cost_timeline before in
    let right = normalise_cost_timeline after in
    finish (first_divergence left right (breakpoints left right))
      (first_divergence-Found left right (breakpoints left right) (breakpoints-Sorted left right))
  where
    left : List Version
    left = normalise_cost_timeline before

    right : List Version
    right = normalise_cost_timeline after

    finish :
        (o : Option Instant) → Found left right o (breakpoints left right) → Diverges before after o
    finish none f = λ u. agree_in before after u (
        All-imp (λ (b : Instant). D left right b ≡ false)
          (λ (b : Instant). b ≤ u → D left right b ≡ false) (breakpoints left right) (λ b e _. e) f)
    finish (some t) f = (
      differ_lem before after t f.0,
      λ u h. agree_in before after u (
          All-imp (λ (b : Instant). b < t → D left right b ≡ false)
            (λ (b : Instant). b ≤ u → D left right b ≡ false) (breakpoints left right)
            (λ b e le. e (omega arith)) f.1),
    )
