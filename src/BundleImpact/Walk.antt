-- ===== src/BundleImpact/Walk.antt =====
-- What a round of `bundlesAffectedBy` (app/engine/bundles.ts) does, and that the rounds are enough.
use my_meridian.Base.{
  ℕ, zero, suc, ◌+◌, ◌≤◌, ◌≡◌, ◌⊎◌, refl, sym, ap, ◌∙◌, Bool, true, false, not, ◌&&◌, map,
  true-ne-false, ◌||◌, List, [], ◌∷◌, ◌++◌, if◌then◌else◌, or_else, String, length, length-append,
  Bool-cases, inl, inr, arith,
}
use my_meridian.Base.Keys.{◌=?◌, string_eq, Dict, lookup, insert, lookup-insert}
use my_meridian.Bundles.{BundleEdge}
use my_meridian.BundleImpact.{parents_of, has, visit, walk}
use mathlib.Core.List.{append_assoc, append-nil}

-- The bundles of the edges of a component, in the order of the edges.
abbrev pub bundles_of : List BundleEdge → String → List String
bundles_of [] c = []
bundles_of (e ∷ es) c =
    if e.component_variant_id =? c then e.bundle_variant_id ∷ bundles_of es c else bundles_of es c

pub lookup-parents_of :
    (es : List BundleEdge) (d : Dict String (List String)) (c : String)
    → or_else (lookup c (parents_of es d)) [] ≡ or_else (lookup c d) [] ++ bundles_of es c
unfolding parents_of
lookup-parents_of [] d c = sym (append-nil (or_else (lookup c d) []))
lookup-parents_of (e ∷ es) d c =
    let j = e.component_variant_id in
    let b = e.bundle_variant_id in
    let added = or_else (lookup j d) [] ++ (b ∷ []) in
    lookup-parents_of es (insert j added d) c
    ∙ ap (λ o. or_else o [] ++ bundles_of es c) (lookup-insert j c added d)
    ∙ elim (Bool-cases (j =? c)) [
      | inl same ↦
          let at_c : j ≡ c = (string_eq.beq_iff j c).0 same in
          rw same (
            append_assoc (or_else (lookup j d) []) (b ∷ []) (bundles_of es c)
            ∙ ap (λ v. or_else (lookup v d) [] ++ (b ∷ bundles_of es c)) at_c)
      | inr other ↦ rw other refl
    ]

pub has-append : (x : String) (xs ys : List String) → has x (xs ++ ys) ≡ (has x xs || has x ys)
has-append x [] ys = refl
has-append x (y ∷ xs) ys = ground (arith, has-append x xs ys)

-- How many edges lead to a bundle that is not affected.
abbrev pub open_edges : List String → List BundleEdge → ℕ
open_edges affected [] = 0
open_edges affected (e ∷ es) =
    (if has e.bundle_variant_id affected then 0 else 1) + open_edges affected es

module _ (x : String) where
  -- Whether a text is among those affected, and among those queued, after a visit.
  pub has-visit :
      (ps affected queue : List String)
      → (has x (visit ps affected queue).0 ≡ (has x affected || has x ps))
        × (has x (visit ps affected queue).1 ≡ (has x queue || (has x ps && not (has x affected))))
  unfolding visit
  has-visit [] affected queue = (ground arith, ground arith)
  has-visit (p ∷ ps) affected queue = elim (Bool-cases (has p affected)) [
    | inl known ↦
        let (a, q) = has-visit ps affected queue in
        rw known (elim (Bool-cases (x =? p)) [
          | inl same ↦
              let here : has x affected ≡ true = at_p same ∙ known in
              (ground (arith, a, here), ground (arith, q, here, same))
          | inr other ↦ (ground (arith, a, other), ground (arith, q, other))
        ])
    | inr new ↦
        let (a, q) = has-visit ps (affected ++ (p ∷ [])) (queue ++ (p ∷ [])) in
        let grown = has-append x affected (p ∷ []) in
        let longer = has-append x queue (p ∷ []) in
        rw new (elim (Bool-cases (x =? p)) [
          | inl same ↦
              let absent : has x affected ≡ false = at_p same ∙ new in
              (ground (arith, a, grown, same), ground (arith, q, grown, longer, same, absent))
          | inr other ↦ (ground (arith, a, grown, other), ground (arith, q, grown, longer, other))
        ])
  ]
    where
      at_p : (x =? p) ≡ true → has x affected ≡ has p affected
      at_p same = ap (λ v. has v affected) ((string_eq.beq_iff x p).0 same)

abbrev pub targets : List BundleEdge → List String
targets = map (λ (e : BundleEdge). e.bundle_variant_id)

open_head :
    (b : String) (affected more : List String)
    → (if has b (affected ++ more) then 0 else 1) ≤ (if has b affected then 0 else 1)
open_head b affected more = ground (arith, has-append b affected more)

open_edges-append :
    (affected more : List String) (es : List BundleEdge)
    → open_edges (affected ++ more) es ≤ open_edges affected es
open_edges-append affected more [] = omega arith
open_edges-append affected more (e ∷ es) =
    omega (arith, open_head e.bundle_variant_id affected more, open_edges-append affected more es)

-- An edge to a bundle that becomes affected closes.
open_edges-closes :
    (p : String) (affected : List String) (es : List BundleEdge)
    → has p affected ≡ false
    → has p (targets es) ≡ true
    → suc (open_edges (affected ++ (p ∷ [])) es) ≤ open_edges affected es
open_edges-closes p affected [] new t = absurd (true-ne-false (sym t))
open_edges-closes p affected (e ∷ es) new t =
    let b = e.bundle_variant_id in
    elim (Bool-cases (p =? b)) [
      | inl same ↦
          let eq : p ≡ b = (string_eq.beq_iff p b).0 same in
          let self : (b =? p) ≡ true = (string_eq.beq_iff b p).1 (sym eq) in
          let absent : has b affected ≡ false = sym (ap (λ v. has v affected) eq) ∙ new in
          let here : has b (affected ++ (p ∷ [])) ≡ true =
            has-append b affected (p ∷ []) ∙ ground (arith, self, absent) in
          rw (here, absent) omega (arith, open_edges-append affected (p ∷ []) es)
      | inr other ↦ omega (
        arith,
        open_head b affected (p ∷ []),
        open_edges-closes p affected es new (rw other at t),
      )
    ]

pub or_true : (b : Bool) → (b || true) ≡ true
or_true true = refl
or_true false = refl

module _ (es : List BundleEdge) where
  visit-open :
      (ps affected queue : List String)
      → ((p : String) → has p ps ≡ true → has p (targets es) ≡ true)
      → length (visit ps affected queue).1 + open_edges (visit ps affected queue).0 es
        ≤ length queue + open_edges affected es
  unfolding visit
  visit-open [] affected queue h = omega arith
  visit-open (p ∷ ps) affected queue h =
      let deeper = λ (q : String) (t : has q ps ≡ true). h q (rw t (or_true (q =? p))) in
      elim (Bool-cases (has p affected)) [
        | inl known ↦ rw known (visit-open ps affected queue deeper)
        | inr new ↦
            let self : (p =? p) ≡ true = (string_eq.beq_iff p p).1 refl in
            let first = h p (rw self refl) in
            rw new omega (
              arith,
              visit-open ps (affected ++ (p ∷ [])) (queue ++ (p ∷ [])) deeper,
              length-append queue (p ∷ []),
              open_edges-closes p affected es new first,
            )
      ]

-- The parents that the walk looks up.
abbrev pub parents_at : Dict String (List String) → String → List String
parents_at parents v = or_else (lookup v parents) []

abbrev pub Subset : List String → List String → Type 0
Subset xs ys = (x : String) → has x xs ≡ true → has x ys ≡ true

pub either : (b c : Bool) → (b || c) ≡ true → (b ≡ true) ⊎ (c ≡ true)
either true c h = inl refl
either false c h = inr h

both : (b c : Bool) → (b && c) ≡ true → (b ≡ true) × (c ≡ true)
both true c h = (refl, h)
both false c h = absurd (true-ne-false (sym h))

has-head : (v : String) (queue : List String) → has v (v ∷ queue) ≡ true
has-head v queue = let self : (v =? v) ≡ true = (string_eq.beq_iff v v).1 refl in rw self refl

module _ (parents : Dict String (List String)) where
  -- If what a queued variant leads to has a property, and what has it may be queued, then all that is
  -- found has the property.
  pub walk-All :
      (P Q : String → Type 0)
      → ((x : String) → P x → Q x)
      → ((v : String) → Q v → (x : String) → has x (parents_at parents v) ≡ true → P x)
      → (fuel : ℕ) (affected queue : List String) → ((x : String) → has x affected ≡ true → P x)
      → ((x : String) → has x queue ≡ true → Q x)
      → (x : String) → has x (walk fuel parents affected queue) ≡ true
      → P x
  unfolding walk
  walk-All P Q w leads zero affected queue a q x h = a x h
  walk-All P Q w leads (suc fuel) affected [] a q x h = a x h
  walk-All P Q w leads (suc fuel) affected (v ∷ queue) a q x h =
      let ps = parents_at parents v in
      let next = visit ps affected queue in
      let above = leads v (q v (has-head v queue)) in
      walk-All P Q w leads fuel next.0 next.1
        (λ y t.
          elim (either (has y affected) (has y ps) (sym (has-visit y ps affected queue).0 ∙ t)) [
            | inl old ↦ a y old
            | inr new ↦ above y new
          ])
        (λ y t.
          elim (either (has y queue) (has y ps && not (has y affected))
            (sym (has-visit y ps affected queue).1 ∙ t)) [
              | inl old ↦ q y (rw old (or_true (y =? v)))
              | inr new ↦ w y (above y (both (has y ps) (not (has y affected)) new).0)
            ])
        x h

  -- A variant is done: it waits in the queue, or all that it leads to is affected.
  abbrev pub IsDone : List String → List String → String → Type 0
  IsDone affected queue v = (has v queue ≡ true) ⊎ Subset (parents_at parents v) affected

  visit-IsDone :
      (v u : String) (affected queue : List String)
      → IsDone affected (v ∷ queue) u
      → let next = visit (parents_at parents v) affected queue in IsDone next.0 next.1 u
  visit-IsDone v u affected queue (inr covered) =
      inr (λ x t. (has-visit x (parents_at parents v) affected queue).0 ∙ rw (covered x t) refl)
  visit-IsDone v u affected queue (inl waits) = elim (either (u =? v) (has u queue) waits) [
    | inl same ↦
        let eq : u ≡ v = (string_eq.beq_iff u v).0 same in
        inr (λ x t.
          let above : has x (parents_at parents v) ≡ true =
            ap (λ w. has x (parents_at parents w)) (sym eq) ∙ t in
          (has-visit x (parents_at parents v) affected queue).0
          ∙ rw above (or_true (has x affected)))
    | inr old ↦ inl ((has-visit u (parents_at parents v) affected queue).1 ∙ rw old refl)
  ]

  IsDone-empty :
      (affected : List String) (v : String)
      → IsDone affected [] v
      → Subset (parents_at parents v) affected
  IsDone-empty affected v (inl h) = absurd (true-ne-false (sym h))
  IsDone-empty affected v (inr covered) = covered

  -- After a visit each variant that counts is done again.
  visit-IsDone_all :
      (start : String → Type 0) (u : String) (affected queue : List String)
      → ((v : String) → start v ⊎ (has v affected ≡ true) → IsDone affected (u ∷ queue) v)
      → let next = visit (parents_at parents u) affected queue in
        (v : String) → start v ⊎ (has v next.0 ≡ true) → IsDone next.0 next.1 v
  visit-IsDone_all start u affected queue d v (inl s) =
      visit-IsDone u v affected queue (d v (inl s))
  visit-IsDone_all start u affected queue d v (inr t) =
      let ps = parents_at parents u in
      let (now, queued) = has-visit v ps affected queue in
      elim (Bool-cases (has v affected)) [
        | inl old ↦ visit-IsDone u v affected queue (d v (inr old))
        | inr new ↦ inl (queued ∙ ground (arith, now, t, new))
      ]

  -- With fuel for the queue and the open edges the walk ends with all that it leads to.
  pub walk-closed :
      (es : List BundleEdge)
      → ((v : String) → Subset (parents_at parents v) (targets es))
      → (start : String → Type 0) → (fuel : ℕ) (affected queue : List String)
      → length queue + open_edges affected es ≤ fuel
      → ((v : String) → start v ⊎ (has v affected ≡ true) → IsDone affected queue v)
      → let found = walk fuel parents affected queue in
        (v : String) → start v ⊎ (has v found ≡ true) → Subset (parents_at parents v) found
  unfolding walk
  walk-closed es from start zero affected [] size d v s = IsDone-empty affected v (d v s)
  walk-closed es from start zero affected (u ∷ queue) size d v s = absurd (omega arith)
  walk-closed es from start (suc fuel) affected [] size d v s = IsDone-empty affected v (d v s)
  walk-closed es from start (suc fuel) affected (u ∷ queue) size d v s =
      let next = visit (parents_at parents u) affected queue in
      walk-closed es from start fuel next.0 next.1
        (omega (arith, visit-open es (parents_at parents u) affected queue (from u)))
        (visit-IsDone_all start u affected queue d) v s
