-- ===== src/CostHistory/Between.antt =====
-- The lookup of app/engine/cost-history.ts between two changes of a timeline: it answers the same.
use my_meridian.Base.{
  ◌≤◌, ◌<◌, ◌≡◌, refl, ap, sym, ◌∙◌, inl, inr, none, some, List, [], ◌∷◌, leb, arith, Bool-cases,
  All, Option-cases, map, leb→le,
}
use my_meridian.CostHistory.{Version, Instant}
use my_meridian.CostHistory.Lookup.{Ascending, scan}
use mathlib.Core.Path.{subst}
use mathlib.Core.Option.{some-injective}

pub none-ne-some : {v : Version} → none ≡ some v → ⊥
none-ne-some e = cc

scan_head :
    (w : Version) (vs : List Version) (u : Instant) {v : Version}
    → scan vs u ≡ none
    → scan (w ∷ vs) u ≡ some v
    → w ≡ v
scan_head w vs u n e = ground arith

scan_tail :
    (w : Version) (vs : List Version) (u : Instant) {v v' : Version}
    → scan vs u ≡ some v'
    → scan (w ∷ vs) u ≡ some v
    → v' ≡ v
scan_tail w vs u q e = ground arith

pub scan-All :
    (P : Instant → Type 0) (vs : List Version) (u : Instant) {v : Version}
    → All P (map (λ (w : Version). w.at) vs)
    → scan vs u ≡ some v
    → P v.at
scan-All P [] u a e = absurd (none-ne-some e)
scan-All P (w ∷ vs) u a e = elim (Option-cases (scan vs u)) [
  | inl n ↦ subst (λ (z : Version). P z.at) (scan_head w vs u n e) a.0
  | inr (v', q) ↦ scan-All P vs u a.1 (q ∙ ap some (scan_tail w vs u q e))
]

scan_cons :
    (w : Version) (vs : List Version) (b u : Instant)
    → b ≤ u
    → scan vs b ≡ scan vs u
    → (w.at ≤ u → w.at ≤ b)
    → scan (w ∷ vs) b ≡ scan (w ∷ vs) u
scan_cons w vs b u h ih k = rw ih (ground arith)

scan_cons_later :
    (w : Version) (vs : List Version) (b u : Instant) {v : Version}
    → b ≤ u
    → (w.at ≤ u → v.at ≤ b)
    → w.at < v.at
    → scan vs u ≡ some v
    → (v.at ≤ b → scan vs b ≡ scan vs u)
    → scan (w ∷ vs) b ≡ scan (w ∷ vs) u
scan_cons_later w vs b u {v} h reach above q ih = elim (Bool-cases (leb w.at u)) [
  | inl le ↦
      let r : v.at ≤ b = reach (leb→le w.at u le) in scan_cons w vs b u h (ih r) (λ _. omega arith)
  | inr out ↦ ground arith
]

scan_here :
    (w : Version) (vs : List Version) (u : Instant)
    → w.at ≤ u
    → scan vs u ≡ none
    → scan (w ∷ vs) u ≡ some w
scan_here w vs u le n = rw n (ground arith)

scan_later :
    (w : Version) (vs : List Version) (u : Instant) {v : Version}
    → w.at ≤ u
    → scan vs u ≡ some v
    → scan (w ∷ vs) u ≡ some v
scan_later w vs u le n = rw n (ground arith)

pub All-at :
    (w : Version) (vs : List Version)
    → All (λ (v : Version). w.at < v.at) vs
    → All (λ (t : Instant). w.at < t) (map (λ (v : Version). v.at) vs)
All-at w [] a = tt
All-at w (v ∷ vs) a = (a.0, All-at w vs a.1)

pub scan-le : (vs : List Version) (u : Instant) {v : Version} → scan vs u ≡ some v → v.at ≤ u
scan-le [] u e = absurd (none-ne-some e)
scan-le (w ∷ vs) u {v} e = elim (Option-cases (scan vs u)) [
  | inl n ↦ ground arith
  | inr (v', q) ↦ subst (λ (z : Version). z.at ≤ u) (scan_tail w vs u q e) (scan-le vs u q)
]

-- Between the version in effect and the instant asked for the answer is the same.
pub scan-between :
    (vs : List Version) (b u : Instant)
    → Ascending vs
    → b ≤ u
    → ((v : Version) → scan vs u ≡ some v → v.at ≤ b)
    → scan vs b ≡ scan vs u
scan-between [] b u a h k = refl
scan-between (w ∷ vs) b u a h k = elim (Option-cases (scan vs u)) [
  | inl n ↦
      let ih = scan-between vs b u a.1 h (λ v e. absurd (none-ne-some (sym n ∙ e))) in
      scan_cons w vs b u h ih (λ le. k w (scan_here w vs u le n))
  | inr (v, q) ↦
      let above : w.at < v.at = scan-All (λ (t : Instant). w.at < t) vs u (All-at w vs a.0) q in
      let reach : w.at ≤ u → v.at ≤ b = λ le. k v (scan_later w vs u le q) in
      scan_cons_later w vs b u h reach above q (λ r.
        scan-between vs b u a.1 h
          (λ v' e. subst (λ (z : Version). z.at ≤ b) (some-injective _ _ (sym q ∙ e)) r))
]
