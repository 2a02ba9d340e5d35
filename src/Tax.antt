-- ===== src/Tax.antt =====
-- app/engine/tax.ts: an order's tax in whole cents, split over what was reported.
pub mod Shares
use my_meridian.Base.{
  ℕ, zero, suc, ◌+◌, ◌*◌, ◌/◌, ◌%◌, Bool, List, [], ◌∷◌, ◌==◌, ltb, ◌&&◌, ◌||◌, if◌then◌else◌, map,
  length, replicate, leb,
}
use my_meridian.Base.Int.{ℤ, pos, negsuc, ◌*ℤ◌, ◌-ℤ◌, ltb_ℤ, pos_part, abs, sum}
use my_meridian.Base.Give.{bump}
use my_meridian.Base.Sort.{sort}

-- A share: its place, its whole cents and what the division left.
pub record TaxShare : Type 0 where
  pub index : ℕ
  pub cents : ℕ
  pub remainder : ℕ

abbrev pub total_weight : List ℕ → ℕ
total_weight [] = 0
total_weight (w ∷ ws) = w + total_weight ws

-- `safeWeights`, filled with ones where they add up to nothing.
abbrev pub safe_weights : List ℤ → List ℕ
safe_weights weights =
    let positive = map pos_part weights in
    if total_weight positive == 0 then replicate (length positive) 1 else positive

-- `safeWeights.map((weight, index) => ...)`, from an index on.
unfoldable pub tax_shares : ℕ → ℕ → ℕ → List ℕ → List TaxShare
tax_shares i absolute total [] = []
tax_shares i absolute total (w ∷ ws) =
    record { index = i; cents = absolute * w / total; remainder = absolute * w % total }
    ∷ tax_shares (i + 1) absolute total ws

-- `(a, b) => ...`, at most zero: the larger remainder first, then the smaller index.
abbrev pub by_remainder : TaxShare → TaxShare → Bool
by_remainder a b =
    ltb b.remainder a.remainder || (a.remainder == b.remainder && leb a.index b.index)

abbrev pub share_place : List TaxShare → ℕ → ℕ
share_place [] i = 0
share_place (s ∷ ss) zero = s.index
share_place (s ∷ ss) (suc i) = share_place ss i

abbrev pub share_cents : List TaxShare → List ℤ
share_cents = map (λ (s : TaxShare). pos s.cents)

-- The loop `for (let index = 0; leftover > 0n; index++, leftover--)`; the entries of
-- `remainderOrder` are those of `shares`, so the cents that it changes are the shares' cents.
unfoldable pub hand_out : ℕ → List TaxShare → ℕ → List ℤ → List ℤ
hand_out zero order i out = out
hand_out (suc leftover) order i out =
    hand_out leftover order (i + 1) (bump (share_place order (i % length order)) (pos 1) out)

-- `allocateTaxCents`
unfoldable pub allocate_tax_cents : ℤ → List ℤ → List ℤ
unfolding tax_shares hand_out
allocate_tax_cents total [] = []
allocate_tax_cents total (w ∷ ws) =
    let weights = safe_weights (w ∷ ws) in
    let sign = if ltb_ℤ total (pos 0) then negsuc 0 else pos 1 in
    let shares = tax_shares 0 (abs total) (total_weight weights) weights in
    let leftover = pos (abs total) -ℤ sum (share_cents shares) in
    map (λ c. c *ℤ sign)
      (hand_out (pos_part leftover) (sort by_remainder shares) 0 (share_cents shares))
