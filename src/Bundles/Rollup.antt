-- ===== src/Bundles/Rollup.antt =====
-- `combineComponentTimelines` of app/engine/bundles.ts: the instants that it looks at are enough.
use my_meridian.Base.{
  ℕ, ◌≤◌, ◌<◌, false, Option, none, some, List, [], ◌∷◌, ◌≡◌, ◌≢◌, refl, sym, ◌∙◌, ap, inl, inr,
  arith, ◌⊎◌, leb, leb→le, le→leb, or_else, max, All, All-imp, All-append_inv, Bool-cases,
  true-ne-false,
}
use mathlib.Core.Path.{subst}
use my_meridian.Base.Int.{ℤ, pos, ◌+ℤ◌, ◌*ℤ◌}
use my_meridian.Base.Sort.{sort-All}
use my_meridian.CostHistory.{Instant, Version, distinct}
use my_meridian.CostHistory.Lookup.{Ascending, scan}
use my_meridian.CostHistory.Divergence.{cost_of}
use my_meridian.CostHistory.Instants.{Sorted, sort-All_inv, sort-Sorted, distinct-All_inv}
use my_meridian.Bundles.{
  Part, first_at, start_of, instants_in, all_instants, not_before, instants_of, same_cost,
  with_first, rollup, derive,
}
use my_meridian.Bundles.Combine.{
  parts_cost, plus_cost, IsPriced, parts_cost-between, later_than_head, expected, derive-same,
  derive-new, derive-nil,
}

not_before-All_inv :
    (P : Instant → Type 0) (start : Instant) (xs : List Instant)
    → All P (not_before start xs)
    → All (λ (x : Instant). start ≤ x → P x) xs
not_before-All_inv P start [] h = tt
not_before-All_inv P start (x ∷ xs) h = elim (Bool-cases (leb start x)) [
  | inl le ↦
      let h' : All P (x ∷ not_before start xs) = rw le at h in
      ((λ _. h'.0), not_before-All_inv P start xs h'.1)
  | inr out ↦ (
    (λ k. absurd (true-ne-false (sym (le→leb start x k) ∙ out))),
    not_before-All_inv P start xs (rw out at h),
  )
]

not_before-All :
    (start : Instant) (xs : List Instant) → All (λ (x : Instant). start ≤ x) (not_before start xs)
not_before-All start [] = tt
not_before-All start (x ∷ xs) = elim (Bool-cases (leb start x)) [
  | inl le ↦ rw le (leb→le start x le, not_before-All start xs)
  | inr out ↦ rw out (not_before-All start xs)
]

-- What holds of the instants looked at holds of every change from the start on.
pub instants_of-All_inv :
    (P : Instant → Type 0) (ps : List Part)
    → All P (instants_of ps)
    → All (λ (x : Instant). start_of ps ≤ x → P x) (all_instants ps)
unfolding instants_of
instants_of-All_inv P ps h =
    let fresh = distinct [] (all_instants ps) in
    distinct-All_inv (λ (x : Instant). start_of ps ≤ x → P x) [] (all_instants ps)
      (not_before-All_inv P (start_of ps) fresh (sort-All_inv P (not_before (start_of ps) fresh) h))
      tt

pub instants_of-Sorted : (ps : List Part) → Sorted (instants_of ps)
unfolding instants_of
instants_of-Sorted ps = sort-Sorted (not_before (start_of ps) (distinct [] (all_instants ps)))

pub instants_of-All : (ps : List Part) → All (λ (x : Instant). start_of ps ≤ x) (instants_of ps)
unfolding instants_of
instants_of-All ps =
    sort-All leb (λ (x : Instant). start_of ps ≤ x)
      (not_before (start_of ps) (distinct [] (all_instants ps)))
      (not_before-All (start_of ps) (distinct [] (all_instants ps)))

max-cases : (a b : ℕ) → (max a b ≡ a) ⊎ (max a b ≡ b)
max-cases a b = elim (Bool-cases (leb a b)) [
  | inl le ↦ inr (omega (arith, leb→le a b le))
  | inr gt ↦ let above : b < a = ground arith in inl (omega arith)
]

first-All :
    (P : Instant → Type 0) (vs : List Version) → vs ≢ [] → All P (instants_in vs) → P (first_at vs)
first-All P [] n h = absurd (n refl)
first-All P (v ∷ vs) n h = h.0

-- The start is the instant of a change.
pub start-All :
    (P : Instant → Type 0) (p : Part) (ps : List Part)
    → All IsPriced (p ∷ ps)
    → All P (all_instants (p ∷ ps))
    → P (start_of (p ∷ ps))
unfolding start_of all_instants
start-All P p [] ((_, n), a) h =
    let (mine, _) = All-append_inv P (instants_in p.timeline) [] h in
    let only : max (first_at p.timeline) 0 ≡ first_at p.timeline = omega arith in
    subst P (sym only) (first-All P p.timeline n mine)
start-All P p (q ∷ qs) ((_, n), a) h =
    let (mine, rest) = All-append_inv P (instants_in p.timeline) (all_instants (q ∷ qs)) h in
    elim (max-cases (first_at p.timeline) (start_of (q ∷ qs))) [
      | inl e ↦ subst P (sym e) (first-All P p.timeline n mine)
      | inr e ↦ subst P (sym e) (start-All P q qs a rest)
    ]

scan-before : (vs : List Version) (u : Instant) → Ascending vs → u < first_at vs → scan vs u ≡ none
scan-before [] u asc h = refl
scan-before (v ∷ vs) u asc h = let out : leb v.at u ≡ false = ground arith in rw out refl

scan-from :
    (vs : List Version) (u : Instant)
    → vs ≢ []
    → first_at vs ≤ u
    → (v : Version) × (scan vs u ≡ some v)
scan-from [] u n h = absurd (n refl)
scan-from (v ∷ vs) u n h = (or_else (scan vs u) v, rw (le→leb v.at u h) refl)

plus_none : (o : Option ℤ) (amount : ℤ) → plus_cost o amount none ≡ none
plus_none none amount = refl
plus_none (some c) amount = refl

pub parts_cost-before :
    (ps : List Part) (u : Instant) → All IsPriced ps → u < start_of ps → parts_cost ps u ≡ none
unfolding start_of
parts_cost-before [] u a h = absurd (omega (arith, h))
parts_cost-before (p ∷ ps) u ((asc, _), a) h =
    elim (max-cases (first_at p.timeline) (start_of ps)) [
      | inl e ↦
          let late : u < first_at p.timeline = omega arith in
          rw (scan-before p.timeline u asc late) refl
      | inr e ↦
          let late : u < start_of ps = omega arith in
          rw (parts_cost-before ps u a late) (plus_none (cost_of (scan p.timeline u)) p.amount)
    ]

parts_cost-known :
    (ps : List Part) (u : Instant)
    → All IsPriced ps
    → start_of ps ≤ u
    → (c : ℤ) × (parts_cost ps u ≡ some c)
unfolding start_of
parts_cost-known [] u a h = (pos 0, refl)
parts_cost-known (p ∷ ps) u ((_, n), a) h =
    let (v, e) = scan-from p.timeline u n (omega arith) in
    let (r, f) = parts_cost-known ps u a (omega arith) in
    (v.unit_cost *ℤ p.amount +ℤ r, rw (e, f) refl)

pub derive-total :
    (ps : List Part) (before : Option ℤ) (ts : List Instant)
    → All IsPriced ps
    → All (λ (t : Instant). start_of ps ≤ t) ts
    → (ds : List Version) × (derive ps before ts ≡ some ds)
derive-total ps before [] a h = ([], derive-nil ps a before)
derive-total ps before (t ∷ ts) a (from, h) =
    let (c, e) = parts_cost-known ps t a from in
    let (ds, q) = derive-total ps before ts a h in
    let (es, r) = derive-total ps (some c) ts a h in
    elim (Bool-cases (same_cost before c)) [
      | inl same ↦ (ds, derive-same ps a before t ts c e same ∙ q)
      | inr new ↦
          (rollup t c ∷ es, derive-new ps a before t ts c e new ∙ ap (with_first (rollup t c)) r)
    ]

module _ (ps : List Part) (priced : All IsPriced ps) where
  -- Every change after an instant is among the instants still to come.
  unfoldable pub Covers : Instant → List Instant → Type 1
  Covers b ts =
      (P : Instant → Type 0) → All P ts → All (λ (x : Instant). b < x → P x) (all_instants ps)

  quiet :
      (b u : Instant) (ts : List Instant)
      → Covers b ts
      → All (λ (t : Instant). u < t) ts
      → All (λ (x : Instant). x ≤ u → x ≤ b) (all_instants ps)
  unfolding Covers
  quiet b u ts covers late =
      All-imp (λ (x : Instant). b < x → u < x) (λ (x : Instant). x ≤ u → x ≤ b) (all_instants ps)
        (λ x h le. elim (Bool-cases (leb x b)) [
          | inl below ↦ leb→le x b below
          | inr above ↦
              let after : b < x = ground arith in
              let later : u < x = h after in absurd (omega arith)
        ])
        (covers (λ (x : Instant). u < x) late)

  next-Covers : (b t : Instant) (ts : List Instant) → b ≤ t → Covers b (t ∷ ts) → Covers t ts
  unfolding Covers
  next-Covers b t ts le covers P h =
      All-imp (λ (x : Instant). b < x → t < x → P x) (λ (x : Instant). t < x → P x)
        (all_instants ps) (λ x k later. k (omega arith) later)
        (covers (λ (x : Instant). t < x → P x)
          ((λ k. absurd (omega arith)), All-imp P (λ (x : Instant). t < x → P x) ts (λ x p _. p) h))

  pub expected-sum :
      (b u : Instant) (ts : List Instant)
      → b ≤ u
      → Sorted ts
      → All (λ (t : Instant). b ≤ t) ts
      → Covers b ts
      → expected ps (parts_cost ps b) ts u ≡ parts_cost ps u
  expected-sum b u [] le s above covers =
      parts_cost-between ps b u priced le (quiet b u [] covers tt)
  expected-sum b u (t ∷ ts) le s (here, above) covers = elim (Bool-cases (leb t u)) [
    | inl before ↦
        rw before (expected-sum t u ts (leb→le t u before) s.1 s.0 (next-Covers b t ts here covers))
    | inr out ↦
        let after : u < t = ground arith in
        rw out (
          parts_cost-between ps b u priced le
            (quiet b u (t ∷ ts) covers (after, later_than_head u t ts after s.0)))
  ]

  unfoldable pub Starts : List Instant → Type 1
  Starts ts =
      (P : Instant → Type 0)
      → All P ts
      → All (λ (x : Instant). start_of ps ≤ x → P x) (all_instants ps)

  pub Starts-Covers :
      (t : Instant) (ts : List Instant) → start_of ps ≤ t → Starts (t ∷ ts) → Covers t ts
  unfolding Covers Starts
  Starts-Covers t ts le starts P h =
      All-imp (λ (x : Instant). start_of ps ≤ x → t < x → P x) (λ (x : Instant). t < x → P x)
        (all_instants ps) (λ x k later. k (omega arith) later)
        (starts (λ (x : Instant). t < x → P x)
          ((λ k. absurd (omega arith)), All-imp P (λ (x : Instant). t < x → P x) ts (λ x p _. p) h))
