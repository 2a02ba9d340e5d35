-- ===== src/TaxText.antt =====
-- app/engine/tax.ts: rates and amounts as texts.
pub mod Digits
pub mod RoundTrip
use my_meridian.Base.{
  ℕ, ◌+◌, ◌*◌, ◌/◌, ◌%◌, Bool, true, false, not, ◌&&◌, ◌||◌, Option, none, some, List, [], ◌∷◌,
  ◌++◌, ◌==◌, ltb, if◌then◌else◌, or_else, take,
}
use my_meridian.Base.Int.{ℤ, pos, negsuc, ◌*ℤ◌, ltb_ℤ, abs}
use my_meridian.Base.Text.{
  Text, text_eq, codes, trim, is_digit, is_empty, split, piece, pad_end, pad_start, decimal,
  read_natural,
}

-- `value || null`, of a text
abbrev pub or_null : Text → Option Text
or_null [] = none
or_null (c ∷ s) = some (c ∷ s)

abbrev pub or_else_option {ℓ} : {A : Type ℓ} → Option A → Option A → Option A
or_else_option none o = o
or_else_option (some a) o = some a

abbrev pub all_digits : Text → Bool
all_digits [] = true
all_digits (c ∷ s) = is_digit c && all_digits s

abbrev pub has_digits : Text → Bool
has_digits s = not (is_empty s) && all_digits s

-- `/^\d+(\.\d+)?$/`, of the pieces between the points
abbrev pub is_rate : List Text → Bool
is_rate [] = false
is_rate (whole ∷ []) = has_digits whole
is_rate (whole ∷ fraction ∷ []) = has_digits whole && has_digits fraction
is_rate (whole ∷ fraction ∷ more ∷ rest) = false

-- `Number(scaled) > 0`, of a text of digits and a point
abbrev pub has_nonzero : Text → Bool
has_nonzero [] = false
has_nonzero (c ∷ s) = ltb 48 c || has_nonzero s

unfoldable pub parse_rate : Option Text → Option Text
unfolding trim
parse_rate none = none
parse_rate (some value) =
    let parts = split 46 (trim value) in
    let scaled = piece parts 0 [] ++ (46 ∷ take 8 (piece parts 1 [] ++ codes "00000000")) in
    if is_rate parts && has_nonzero scaled then some scaled else none

-- `BigInt(digits)`
unfoldable pub big_int : Text → ℕ
unfolding read_natural
big_int s = or_else (read_natural s) 0

unfoldable pub rate_units : Option Text → ℕ
unfolding big_int
rate_units none = 0
rate_units (some rate) =
    let parts = split 46 rate in
    if is_empty rate
    then 0
    else big_int (piece parts 0 (codes "0")) * 100_000_000 + big_int (pad_end 8 (piece parts 1 []))

-- `roundRatio`, for a denominator that is not negative
unfoldable pub round_ratio : ℤ → ℕ → ℤ
round_ratio numerator denominator =
    if denominator == 0
    then pos 0
    else (if ltb_ℤ numerator (pos 0) then negsuc 0 else pos 1)
      *ℤ pos ((abs numerator + denominator / 2) / denominator)

-- `bigintCentsDecimal`
unfoldable pub bigint_cents_decimal : ℤ → Text
unfolding decimal
bigint_cents_decimal cents =
    (if ltb_ℤ cents (pos 0) then 45 ∷ [] else [])
    ++ (decimal (abs cents / 100) ++ (46 ∷ pad_start 2 (decimal (abs cents % 100))))
