-- ===== src/Money/Allocate.antt =====
-- The parts of `allocate` (app/engine/money.ts) add up to the total.
use my_meridian.Base.{
  ℕ, zero, suc, ◌+◌, ◌%◌, ◌≤◌, ◌<◌, ◌≡◌, refl, ap, ◌∙◌, ◌⊎◌, inl, inr, false, List, [], ◌∷◌, ◌==◌,
  All, Bool-cases, arith, length, length-map, length-replicate, replicate,
}
use my_meridian.Base.Int.{
  ℤ, pos, negsuc, ◌+ℤ◌, ◌-ℤ◌, ◌*ℤ◌, ◌==ℤ◌, pos_part, neg_part, abs, leb_ℤ, sum, int_laws, *ℤ_parts,
}
use my_meridian.Base.Give.{bump, give, times, length-give, sum-give}
use my_meridian.Base.Sort.{sort, length-sort, sort-All}
use my_meridian.Money.{
  Fraction, first_fraction, by_frac, fractions, step_of, spread_even, spread_order, allocate,
  allocate_even, allocate_weighted, truncated_shares, sum_cents, trunc_div,
}
use my_meridian.Money.Rounding.{sum_cents-eq-sum}
use native.Mathlib.Nat.{mod-lt}

-- The step leads towards a remainder of zero.
abbrev pub Toward : ℤ → ℤ → Type 0
Toward s r = ((s ≡ pos 1) × (neg_part r ≡ 0)) ⊎ ((s ≡ negsuc 0) × (pos_part r ≡ 0))

step_of-Toward : (r : ℤ) → Toward (step_of r) r
step_of-Toward (pos n) = inl (ground arith)
step_of-Toward (negsuc n) = inr (ground arith)

-- The places that the loop of the even split names.
abbrev pub cycle : ℕ → ℕ → ℕ → List ℕ
cycle zero n i = []
cycle (suc f) n i = i ∷ cycle f n ((i + 1) % n)

-- The places that the loop of the weighted split names.
abbrev pub targets : ℕ → List Fraction → ℕ → List ℕ
targets zero order i = []
targets (suc f) order i = first_fraction order (i % length order) ∷ targets f order (i + 1)

module _ (s : ℤ) where
  step_down : (r : ℤ) (f : ℕ) → abs r ≡ suc f → Toward s r → (abs (r -ℤ s) ≡ f) × Toward s (r -ℤ s)
  unfolding ◌-ℤ◌
  step_down r f e t = ground arith

  not_done : (r : ℤ) (f : ℕ) → abs r ≡ suc f → (r ==ℤ pos 0) ≡ false
  not_done r f e = ground arith

  times-Toward : (f : ℕ) (r : ℤ) → abs r ≡ f → Toward s r → times f s ≡ r
  times-Toward zero r e t = omega int_laws
  times-Toward (suc f) r e t =
      let (e', t') = step_down r f e t in rw (times-Toward f (r -ℤ s) e' t') (omega int_laws)

  pub spread_even-eq-give :
      (f n i : ℕ) (r : ℤ) (out : List ℤ)
      → abs r ≡ f
      → Toward s r
      → spread_even f n i r s out ≡ give (cycle f n i) s out
  unfolding spread_even
  spread_even-eq-give zero n i r out e t = refl
  spread_even-eq-give (suc f) n i r out e t =
      let (e', t') = step_down r f e t in
      rw (not_done r f e) (spread_even-eq-give f n ((i + 1) % n) (r -ℤ s) (bump i s out) e' t')

  pub spread_order-eq-give :
      (f : ℕ) (order : List Fraction) (i : ℕ) (r : ℤ) (out : List ℤ)
      → 0 < length order
      → abs r ≡ f
      → Toward s r
      → spread_order f order i r s out ≡ give (targets f order i) s out
  unfolding spread_order
  spread_order-eq-give zero order i r out h e t = refl
  spread_order-eq-give (suc f) order i r out h e t =
      let (e', t') = step_down r f e t in
      let full : (length order == 0) ≡ false = ground arith in
      rw (not_done r f e, full)
        (spread_order-eq-give f order (i + 1) (r -ℤ s)
          (bump (first_fraction order (i % length order)) s out) h e' t')

length-cycle : (f n i : ℕ) → length (cycle f n i) ≡ f
length-cycle zero n i = refl
length-cycle (suc f) n i = ap suc (length-cycle f n ((i + 1) % n))

cycle-All : (f n i : ℕ) → i < n → All (λ t. t < n) (cycle f n i)
cycle-All zero n i h = tt
cycle-All (suc f) n i h = (h, cycle-All f n ((i + 1) % n) (mod-lt (i + 1) (omega arith)))

length-targets : (f : ℕ) (order : List Fraction) (i : ℕ) → length (targets f order i) ≡ f
length-targets zero order i = refl
length-targets (suc f) order i = ap suc (length-targets f order (i + 1))

first_fraction-All :
    (n : ℕ) (order : List Fraction) (i : ℕ)
    → i < length order
    → All (λ (f : Fraction). f.index < n) order
    → first_fraction order i < n
first_fraction-All n [] i h a = elim h [ ]
first_fraction-All n (f ∷ fs) zero h a = a.0
first_fraction-All n (f ∷ fs) (suc i) h a = first_fraction-All n fs i (omega arith) a.1

targets-All :
    (f n : ℕ) (order : List Fraction) (i : ℕ)
    → 0 < length order
    → All (λ (f : Fraction). f.index < n) order
    → All (λ t. t < n) (targets f order i)
targets-All zero n order i h a = tt
targets-All (suc f) n order i h a = (
  first_fraction-All n order (i % length order) (mod-lt i h) a,
  targets-All f n order (i + 1) h a,
)

fractions-All :
    (n i : ℕ) (total : ℤ) (w : ℕ) (ws : List ℤ)
    → i + length ws ≤ n
    → All (λ (f : Fraction). f.index < n) (fractions i total w ws)
unfolding fractions
fractions-All n i total w [] h = tt
fractions-All n i total w (x ∷ xs) h =
    (omega arith, fractions-All n (i + 1) total w xs (omega arith))

length-fractions :
    (i : ℕ) (total : ℤ) (w : ℕ) (ws : List ℤ) → length (fractions i total w ws) ≡ length ws
unfolding fractions
length-fractions i total w [] = refl
length-fractions i total w (x ∷ xs) = ap suc (length-fractions (i + 1) total w xs)

sum-replicate : (n : ℕ) (b : ℤ) → sum (replicate n b) ≡ b *ℤ pos n
sum-replicate zero b = omega (int_laws, *ℤ_parts b (pos 0))
sum-replicate (suc n) b =
    rw (sum-replicate n b) (omega (int_laws, *ℤ_parts b (pos n), *ℤ_parts b (pos (suc n))))

sum-spread_even :
    (n : ℕ) (r : ℤ) (out : List ℤ)
    → 0 < n
    → length out ≡ n
    → sum (spread_even (abs r) n 0 r (step_of r) out) ≡ sum out +ℤ r
sum-spread_even n r out h e =
    let t = step_of-Toward r in
    let s = step_of r in
    rw (
      spread_even-eq-give s (abs r) n 0 r out refl t,
      sum-give (cycle (abs r) n 0) s out (rw e (cycle-All (abs r) n 0 h)),
      length-cycle (abs r) n 0,
      times-Toward s (abs r) r refl t,
    )

sum-spread_order :
    (order : List Fraction) (r : ℤ) (out : List ℤ)
    → 0 < length order
    → All (λ (f : Fraction). f.index < length out) order
    → sum (spread_order (abs r) order 0 r (step_of r) out) ≡ sum out +ℤ r
sum-spread_order order r out h a =
    let t = step_of-Toward r in
    let s = step_of r in
    rw (
      spread_order-eq-give s (abs r) order 0 r out h refl t,
      sum-give (targets (abs r) order 0) s out (targets-All (abs r) (length out) order 0 h a),
      length-targets (abs r) order 0,
      times-Toward s (abs r) r refl t,
    )

sum-allocate_even : (total : ℤ) (n : ℕ) → 0 < n → sum (allocate_even total n) ≡ total
unfolding allocate_even
sum-allocate_even total n h =
    let base = trunc_div total n in
    rw
      (
        sum-spread_even n (total -ℤ base *ℤ pos n) (replicate n base) h (length-replicate n base),
        sum-replicate n base,
      )
      (omega int_laws)

sum-allocate_weighted :
    (total : ℤ) (w : ℕ) (ws : List ℤ) → 0 < length ws → sum (allocate_weighted total w ws) ≡ total
unfolding allocate_weighted truncated_shares
sum-allocate_weighted total w ws h =
    let floored = truncated_shares total w ws in
    let fs = fractions 0 total w ws in
    let size : length (sort by_frac fs) ≡ length ws =
      length-sort by_frac fs ∙ length-fractions 0 total w ws in
    let same : length floored ≡ length ws = length-map (λ v. trunc_div (total *ℤ v) w) ws in
    let inside : All (λ (f : Fraction). f.index < length floored) (sort by_frac fs) =
      sort-All by_frac (λ (f : Fraction). f.index < length floored) fs
        (fractions-All (length floored) 0 total w ws (omega arith)) in
    rw
      (
        sum-spread_order (sort by_frac fs) (total -ℤ sum_cents floored) floored (rw size h) inside,
        sum_cents-eq-sum floored,
      )
      (omega int_laws)

-- The parts of `allocate` add up to exactly the total, whatever the weights, once there is one.
pub sum-allocate : (total w : ℤ) (ws : List ℤ) → sum (allocate total (w ∷ ws)) ≡ total
unfolding allocate
sum-allocate total w ws = elim (Bool-cases (leb_ℤ (sum_cents (w ∷ ws)) (pos 0))) [
  | inl even ↦ rw even (sum-allocate_even total (length (w ∷ ws)) (omega arith))
  | inr weighted ↦
      rw weighted
        (sum-allocate_weighted total (pos_part (sum_cents (w ∷ ws))) (w ∷ ws) (omega arith))
]

length-allocate_even : (total : ℤ) (n : ℕ) → length (allocate_even total n) ≡ n
unfolding allocate_even
length-allocate_even total n =
    let base = trunc_div total n in
    let r = total -ℤ base *ℤ pos n in
    rw (spread_even-eq-give (step_of r) (abs r) n 0 r (replicate n base) refl (step_of-Toward r))
      (length-give (cycle (abs r) n 0) (step_of r) (replicate n base) ∙ length-replicate n base)

length-allocate_weighted :
    (total : ℤ) (w : ℕ) (ws : List ℤ)
    → 0 < length ws
    → length (allocate_weighted total w ws) ≡ length ws
unfolding allocate_weighted truncated_shares
length-allocate_weighted total w ws h =
    let floored = truncated_shares total w ws in
    let r = total -ℤ sum_cents floored in
    let order = sort by_frac (fractions 0 total w ws) in
    let size : length order ≡ length ws =
      length-sort by_frac (fractions 0 total w ws) ∙ length-fractions 0 total w ws in
    rw
      (spread_order-eq-give (step_of r) (abs r) order 0 r floored (rw size h) refl
        (step_of-Toward r))
      (length-give (targets (abs r) order 0) (step_of r) floored
        ∙ length-map (λ v. trunc_div (total *ℤ v) w) ws)

-- There is a part for each weight.
pub length-allocate : (total : ℤ) (ws : List ℤ) → length (allocate total ws) ≡ length ws
unfolding allocate
length-allocate total [] = refl
length-allocate total (w ∷ ws) = elim (Bool-cases (leb_ℤ (sum_cents (w ∷ ws)) (pos 0))) [
  | inl even ↦ rw even (length-allocate_even total (length (w ∷ ws)))
  | inr weighted ↦
      rw weighted
        (length-allocate_weighted total (pos_part (sum_cents (w ∷ ws))) (w ∷ ws) (omega arith))
]
