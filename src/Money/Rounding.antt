-- ===== src/Money/Rounding.antt =====
-- The rounding functions and sums of app/engine/money.ts against exact arithmetic.
use my_meridian.Base.{
  ℕ, suc, ◌+◌, ◌*◌, ◌/◌, ◌≤◌, ◌<◌, ◌≡◌, arith, true, false, refl, ap, ◌∙◌, ◌-◌, List, [], ◌∷◌,
}
use my_meridian.Base.Int.{
  ℤ, pos, negsuc, ◌+ℤ◌, ◌-ℤ◌, ◌*ℤ◌, ◌≤ℤ◌, pos_part, neg_part, abs, ltb_ℤ, sum, int_laws, *ℤ_parts,
}
use my_meridian.Money.{floor_div, math_round, round_half_away_from_zero, sum_cents}
use mathlib.Core.List.{foldl}
use native.Mathlib.Nat.{div-eq_of_lt}

foldl-add_cents : (xs : List ℤ) (acc : ℤ) → foldl (λ t v. t +ℤ v) acc xs ≡ acc +ℤ sum xs
foldl-add_cents [] acc = omega int_laws
foldl-add_cents (x ∷ xs) acc = rw (foldl-add_cents xs (acc +ℤ x)) (omega int_laws)

-- The loop of `sumCents` is the plain sum.
pub sum_cents-eq-sum : (xs : List ℤ) → sum_cents xs ≡ sum xs
unfolding sum_cents
sum_cents-eq-sum xs = rw (foldl-add_cents xs (pos 0)) (omega int_laws)

-- Rounding a quotient that is not negative, over the numbers.
pub math_round-pos : (n d : ℕ) → 0 < d → math_round (pos n) d ≡ pos ((2 * n + d) / (2 * d))
unfolding math_round floor_div ◌+ℤ◌ ◌*ℤ◌
math_round-pos n d h = ground arith

round_nearest :
    (n d : ℕ)
    → 0 < d
    → let r = (2 * n + d) / (2 * d) in (2 * r * d ≤ 2 * n + d) × (2 * n < 2 * r * d + d)
round_nearest n d h = grind arith

neg-pos_part : (a : ℤ) → pos_part a ≡ 0 → pos 0 -ℤ a ≡ pos (neg_part a)
neg-pos_part a h = omega int_laws

round_zero : (n d : ℕ) → 0 < d → n ≡ 0 → (2 * n + d) / (2 * d) ≡ 0
round_zero n d h e = div-eq_of_lt (omega arith)

pos_not_negative : (n : ℕ) → ltb_ℤ (pos n) (pos 0) ≡ false
pos_not_negative n = ground arith

negsuc_negative : (n : ℕ) → ltb_ℤ (negsuc n) (pos 0) ≡ true
negsuc_negative n = ground arith

abs_negsuc : (n : ℕ) → abs (negsuc n) ≡ suc n
abs_negsuc n = omega arith

negate-abs : (k : ℕ) → (abs (pos 0 -ℤ pos k) ≡ k) × (pos 0 -ℤ pos k ≤ℤ pos 0)
unfolding ◌-ℤ◌
negate-abs k = ground arith

pub div_between : (a k d : ℕ) → d * k ≤ a → a < d * k + d → a / d ≡ k
div_between a k d h l = grind arith

math_round_lem : (a : ℤ) (d : ℕ) → math_round a d ≡ floor_div (pos 2 *ℤ a +ℤ pos d) (2 * d)
unfolding math_round
math_round_lem a d = refl

pub scaled_pos : (d m : ℕ) → pos d *ℤ pos m ≡ pos (d * m)
scaled_pos d m = omega (int_laws, *ℤ_parts (pos d) (pos m))

scaled_negsuc :
    (d m : ℕ) → 0 < d → pos 2 *ℤ (pos d *ℤ negsuc m) +ℤ pos d ≡ negsuc (2 * (d * m) + d - 1)
scaled_negsuc d m h =
    omega (int_laws, *ℤ_parts (pos d) (negsuc m), *ℤ_parts (pos 2) (pos d *ℤ negsuc m))

floor_div-negsuc : (m d : ℕ) → 0 < d → floor_div (negsuc (2 * (d * m) + d - 1)) (2 * d) ≡ negsuc m
unfolding floor_div
floor_div-negsuc m d h =
    ap negsuc (div_between (2 * (d * m) + d - 1) m (2 * d) (omega arith) (omega arith))

-- A whole quotient is not rounded.
pub math_round-mul : (x : ℤ) (d : ℕ) → 0 < d → math_round (pos d *ℤ x) d ≡ x
math_round-mul (pos m) d h =
    rw (scaled_pos d m, math_round-pos (d * m) d h)
      (ap pos (div_between (2 * (d * m) + d) m (2 * d) (omega arith) (omega arith)))
math_round-mul (negsuc m) d h =
    rw (math_round_lem (pos d *ℤ negsuc m) d, scaled_negsuc d m h) (floor_div-negsuc m d h)

-- The magnitude is rounded, and the sign kept.
pub round_half_away_from_zero-abs :
    (a : ℤ) (d : ℕ)
    → 0 < d
    → (abs (round_half_away_from_zero a d) ≡ (2 * abs a + d) / (2 * d))
      × (pos 0 ≤ℤ a → pos 0 ≤ℤ round_half_away_from_zero a d)
      × (a ≤ℤ pos 0 → round_half_away_from_zero a d ≤ℤ pos 0)
unfolding round_half_away_from_zero
round_half_away_from_zero-abs (pos n) d h =
    rw (pos_not_negative n, math_round-pos n d h) (ground (arith, round_zero n d h))
round_half_away_from_zero-abs (negsuc n) d h =
    let r = (2 * suc n + d) / (2 * d) in
    rw (negsuc_negative n, neg-pos_part (negsuc n) (omega arith), math_round-pos (suc n) d h)
      (let (size, sign) = negate-abs r in
        (size ∙ rw (abs_negsuc n), λ e. absurd (omega arith), λ _. sign))

-- The rounded amount is nearest to the exact quotient, and a half goes away from zero.
pub round_half_away_from_zero-nearest :
    (a : ℤ) (d : ℕ)
    → 0 < d
    → let r = round_half_away_from_zero a d in
      (2 * abs r * d ≤ 2 * abs a + d)
      × (2 * abs a < 2 * abs r * d + d)
      × (pos 0 ≤ℤ a → pos 0 ≤ℤ r)
      × (a ≤ℤ pos 0 → r ≤ℤ pos 0)
round_half_away_from_zero-nearest a d h =
    let (e, p, q) = round_half_away_from_zero-abs a d h in
    rw e (let (u, v) = round_nearest (abs a) d h in (u, v, p, q))
