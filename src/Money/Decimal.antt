-- ===== src/Money/Decimal.antt =====
-- app/engine/money.ts: the amounts that the database and Shopify write as decimals.
use my_meridian.Base.{
  ℕ, ◌+◌, ◌^◌, Option, none, some, [], ◌∷◌, ◌++◌, ◌==◌, ◌||◌, if◌then◌else◌, replicate, take,
}
use my_meridian.Base.Int.{ℤ, pos, ◌+ℤ◌, ◌-ℤ◌, ◌*ℤ◌, leb_ℤ}
use my_meridian.Base.Keys.{◌=?◌}
use my_meridian.Base.Text.{Text, text_eq, codes, trim, starts_with, drop, split, piece, number}
use my_meridian.Money.{Rate, math_round}

-- `MoneyInput`: nothing, a number, or what has a text.
pub data MoneyInput : Type 0 where
  missing : MoneyInput
  amount : Rate → MoneyInput
  written : Text → MoneyInput

-- `next >= 5`, of a number or NaN
abbrev pub rounds_up : Option ℤ → ℤ
rounds_up none = pos 0
rounds_up (some n) = if leb_ℤ (pos 5) n then pos 1 else pos 0

abbrev pub add_scaled : ℕ → Option ℤ → Option ℤ → Option ℤ → Option ℤ
add_scaled scale none kept next = none
add_scaled scale (some whole) none next = none
add_scaled scale (some whole) (some kept) next =
    some (whole *ℤ pos (10 ^ scale) +ℤ kept +ℤ rounds_up next)

-- The digits of a text without its sign: `none` where the sum is not finite.
unfoldable pub parse_body : ℕ → Text → Option ℤ
unfolding number
parse_body scale body =
    let parts = split 46 body in
    let frac = take (scale + 1) (piece parts 1 [] ++ replicate (scale + 1) 48) in
    add_scaled scale (number (piece parts 0 [])) (number (take scale frac))
      (number (take 1 (drop scale frac)))

unfoldable pub parse_text : ℕ → Text → ℤ
unfolding trim parse_body
parse_text scale value =
    let raw = trim value in
    if raw =? [] || raw =? codes "NaN"
    then pos 0
    else if starts_with raw (45 ∷ [])
    then elim (parse_body scale (drop 1 raw)) [ none ↦ pos 0 | some scaled ↦ pos 0 -ℤ scaled ]
    else elim (parse_body scale raw) [ none ↦ pos 0 | some scaled ↦ scaled ]

-- `parseScaled`
unfoldable pub parse_scaled : MoneyInput → ℕ → ℤ
unfolding math_round parse_text
parse_scaled missing scale = pos 0
parse_scaled (amount r) scale =
    if r.den == 0 then pos 0 else math_round (r.num *ℤ pos (10 ^ scale)) r.den
parse_scaled (written value) scale = parse_text scale value

-- `toCents`
unfoldable pub to_cents : MoneyInput → ℤ
unfolding parse_scaled
to_cents value = parse_scaled value 2

-- `toMicros`
unfoldable pub to_micros : MoneyInput → ℤ
unfolding parse_scaled
to_micros value = parse_scaled value 4
