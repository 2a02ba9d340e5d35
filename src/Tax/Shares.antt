-- ===== src/Tax/Shares.antt =====
-- The parts of `allocateTaxCents` (app/engine/tax.ts) add up to the total.
use my_meridian.Base.{
  ℕ, zero, suc, ◌+◌, ◌*◌, ◌/◌, ◌%◌, ◌≤◌, ◌<◌, ◌≡◌, refl, ap, ◌∙◌, inl, inr, List, [], ◌∷◌, ◌==◌,
  All, Bool-cases, if◌then◌else◌, arith, length, length-map, length-replicate, replicate, map,
}
use my_meridian.Base.Int.{
  ℤ, pos, negsuc, ◌+ℤ◌, ◌-ℤ◌, ◌*ℤ◌, pos_part, abs, ltb_ℤ, sum, int_laws, *ℤ_parts, +ℤ_parts,
  neg_part,
}
use my_meridian.Base.Give.{bump, length-bump, sum-bump}
use my_meridian.Base.Sort.{sort, length-sort, sort-All}
use my_meridian.Tax.{
  TaxShare, total_weight, safe_weights, tax_shares, by_remainder, share_place, share_cents,
  hand_out, allocate_tax_cents,
}
use native.Mathlib.Nat.{mod-lt, div-mul-le_self, le_of_mul-le-mul_right, mul-add, add-mul}

abbrev InRange : ℕ → List TaxShare → Type 0
InRange n = All (λ (s : TaxShare). s.index < n)

share_place-InRange :
    (n : ℕ) (order : List TaxShare) (i : ℕ)
    → i < length order
    → InRange n order
    → share_place order i < n
share_place-InRange n [] i h a = elim h [ ]
share_place-InRange n (s ∷ ss) zero h a = a.0
share_place-InRange n (s ∷ ss) (suc i) h a = share_place-InRange n ss i (omega arith) a.1

length-hand_out :
    (leftover : ℕ) (order : List TaxShare) (i : ℕ) (out : List ℤ)
    → length (hand_out leftover order i out) ≡ length out
unfolding hand_out
length-hand_out zero order i out = refl
length-hand_out (suc f) order i out =
    let place = share_place order (i % length order) in
    length-hand_out f order (i + 1) (bump place (pos 1) out) ∙ length-bump place (pos 1) out

-- Each cent that is handed out arrives.
sum-hand_out :
    (leftover : ℕ) (order : List TaxShare) (i : ℕ) (out : List ℤ)
    → 0 < length order
    → InRange (length out) order
    → sum (hand_out leftover order i out) ≡ sum out +ℤ pos leftover
unfolding hand_out
sum-hand_out zero order i out h a = omega int_laws
sum-hand_out (suc f) order i out h a =
    let place = share_place order (i % length order) in
    let next = bump place (pos 1) out in
    let inside : place < length out =
      share_place-InRange (length out) order (i % length order) (mod-lt i h) a in
    let a' : InRange (length next) order = rw (length-bump place (pos 1) out) a in
    rw (sum-hand_out f order (i + 1) next h a', sum-bump place (pos 1) out inside) (omega int_laws)

module _ (a w : ℕ) where
  floors : List ℕ → ℕ
  floors ws = total_weight (map (λ v. a * v / w) ws)

  sum-tax_shares : (i : ℕ) (ws : List ℕ) → sum (share_cents (tax_shares i a w ws)) ≡ pos (floors ws)
  unfolding tax_shares floors
  sum-tax_shares i [] = refl
  sum-tax_shares i (v ∷ vs) = rw (sum-tax_shares (i + 1) vs) (omega int_laws)

  floors-le : (ws : List ℕ) → floors ws * w ≤ a * total_weight ws
  unfolding floors
  floors-le [] = omega arith
  floors-le (v ∷ vs) =
      rw (add-mul (a * v / w) (floors vs) w, mul-add a v (total_weight vs))
        (omega (arith, div-mul-le_self (a * v) w, floors-le vs))

  tax_shares-InRange : (n i : ℕ) (ws : List ℕ) → i + length ws ≤ n → InRange n (tax_shares i a w ws)
  unfolding tax_shares
  tax_shares-InRange n i [] h = tt
  tax_shares-InRange n i (v ∷ vs) h = (omega arith, tax_shares-InRange n (i + 1) vs (omega arith))

  length-tax_shares : (i : ℕ) (ws : List ℕ) → length (tax_shares i a w ws) ≡ length ws
  unfolding tax_shares
  length-tax_shares i [] = refl
  length-tax_shares i (v ∷ vs) = ap suc (length-tax_shares (i + 1) vs)

total_weight-ones : (n : ℕ) → total_weight (replicate n 1) ≡ n
total_weight-ones zero = refl
total_weight-ones (suc n) = omega (arith, total_weight-ones n)

safe_weights-positive : (w : ℤ) (ws : List ℤ) → 0 < total_weight (safe_weights (w ∷ ws))
safe_weights-positive w ws = elim (Bool-cases (total_weight (map pos_part (w ∷ ws)) == 0)) [
  | inl none_left ↦
      rw none_left (rw (total_weight-ones (length (map pos_part (w ∷ ws)))) (omega arith))
  | inr some_left ↦ rw some_left (ground arith)
]

length-safe_weights : (ws : List ℤ) → length (safe_weights ws) ≡ length ws
length-safe_weights ws = elim (Bool-cases (total_weight (map pos_part ws) == 0)) [
  | inl none_left ↦
      rw none_left (length-replicate (length (map pos_part ws)) 1 ∙ length-map pos_part ws)
  | inr some_left ↦ rw some_left (length-map pos_part ws)
]

-- The whole shares leave what is then handed out.
floors-le_total : (a : ℕ) (ws : List ℕ) → 0 < total_weight ws → floors a (total_weight ws) ws ≤ a
floors-le_total a ws h = le_of_mul-le-mul_right (floors-le a (total_weight ws) ws) h

signed-add : (x y s : ℤ) → (x +ℤ y) *ℤ s ≡ x *ℤ s +ℤ y *ℤ s
signed-add x y s =
    let sum_parts = +ℤ_parts x y in
    grind (
      int_laws,
      ap (λ t. t * pos_part s) sum_parts,
      ap (λ t. t * neg_part s) sum_parts,
      *ℤ_parts (x +ℤ y) s,
      *ℤ_parts x s,
      *ℤ_parts y s,
    )

sum-signed : (s : ℤ) (xs : List ℤ) → sum (map (λ c. c *ℤ s) xs) ≡ sum xs *ℤ s
sum-signed s [] = omega (int_laws, *ℤ_parts (pos 0) s)
sum-signed s (x ∷ xs) = rw (sum-signed s xs, signed-add x (sum xs) s) refl

add_back : (f a : ℕ) → f ≤ a → pos f +ℤ pos (pos_part (pos a -ℤ pos f)) ≡ pos a
unfolding ◌+ℤ◌ ◌-ℤ◌
add_back f a h = ground arith

sign_back : (a : ℤ) → pos (abs a) *ℤ (if ltb_ℤ a (pos 0) then negsuc 0 else pos 1) ≡ a
unfolding ◌*ℤ◌
sign_back a = ground arith

-- The cents of the shares with those that are handed out add up to the amount without its sign.
sum-handed_out :
    (a : ℕ) (ws : List ℕ)
    → 0 < length ws
    → 0 < total_weight ws
    → let shares = tax_shares 0 a (total_weight ws) ws in
      sum (
        hand_out
          (pos_part (pos a -ℤ sum (share_cents shares)))
          (sort by_remainder shares)
          0
          (share_cents shares))
      ≡ pos a
sum-handed_out a ws h positive =
    let w = total_weight ws in
    let shares = tax_shares 0 a w ws in
    let cents = share_cents shares in
    let size : length (sort by_remainder shares) ≡ length ws =
      length-sort by_remainder shares ∙ length-tax_shares a w 0 ws in
    let same : length cents ≡ length ws =
      length-map (λ (s : TaxShare). pos s.cents) shares ∙ length-tax_shares a w 0 ws in
    let inside : InRange (length cents) (sort by_remainder shares) =
      sort-All by_remainder (λ (s : TaxShare). s.index < length cents) shares
        (tax_shares-InRange a w (length cents) 0 ws (omega arith)) in
    rw
      (
        sum-hand_out (pos_part (pos a -ℤ sum cents)) (sort by_remainder shares) 0 cents (rw size h)
            inside,
        sum-tax_shares a w 0 ws,
      )
      (add_back (floors a w ws) a (floors-le_total a ws positive))

-- The parts of `allocateTaxCents` add up to exactly the total, whatever the weights, once there is
-- one.
pub sum-allocate_tax_cents :
    (total w : ℤ) (ws : List ℤ) → sum (allocate_tax_cents total (w ∷ ws)) ≡ total
unfolding allocate_tax_cents
sum-allocate_tax_cents total w ws =
    let weights = safe_weights (w ∷ ws) in
    let size : length weights ≡ length (w ∷ ws) = length-safe_weights (w ∷ ws) in
    let sign = if ltb_ℤ total (pos 0) then negsuc 0 else pos 1 in
    let shares = tax_shares 0 (abs total) (total_weight weights) weights in
    rw
      (
        sum-signed sign (
            hand_out (pos_part (pos (abs total) -ℤ sum (share_cents shares)))
              (sort by_remainder shares) 0 (share_cents shares)),
        sum-handed_out (abs total) weights (rw size (omega arith)) (safe_weights-positive w ws),
      )
      (sign_back total)

-- There is a part for each weight.
pub length-allocate_tax_cents :
    (total : ℤ) (ws : List ℤ) → length (allocate_tax_cents total ws) ≡ length ws
unfolding allocate_tax_cents
length-allocate_tax_cents total [] = refl
length-allocate_tax_cents total (w ∷ ws) =
    let weights = safe_weights (w ∷ ws) in
    let weight_total = total_weight weights in
    let sign = if ltb_ℤ total (pos 0) then negsuc 0 else pos 1 in
    let shares = tax_shares 0 (abs total) weight_total weights in
    let order = sort by_remainder shares in
    let cents = share_cents shares in
    let leftover = pos_part (pos (abs total) -ℤ sum cents) in
    length-map (λ c. c *ℤ sign) (hand_out leftover order 0 cents)
    ∙ length-hand_out leftover order 0 cents
    ∙ length-map (λ (s : TaxShare). pos s.cents) shares
    ∙ length-tax_shares (abs total) weight_total 0 weights
    ∙ length-safe_weights (w ∷ ws)
