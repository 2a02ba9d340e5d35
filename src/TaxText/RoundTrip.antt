-- ===== src/TaxText/RoundTrip.antt =====
-- `toCents` (app/engine/money.ts) reads what `bigintCentsDecimal` (app/engine/tax.ts) writes.
use my_meridian.Base.{
  ℕ, ◌+◌, ◌/◌, ◌%◌, ◌<◌, ◌≡◌, refl, ap, ◌∙◌, true, false, true-ne-false, ◌==◌, some, [], ◌∷◌, ◌++◌,
  All, All-append, All-imp, arith, if◌then◌else◌,
}
use my_meridian.Base.Int.{ℤ, pos, negsuc, ◌-ℤ◌, ltb_ℤ, abs, int_laws, *ℤ_parts}
use my_meridian.Base.Text.{Text, text_eq, is_space, is_empty, decimal, number, read_digits}
use my_meridian.Money.Decimal.{written, to_cents, parse_scaled, parse_text, parse_body}
use my_meridian.TaxText.{bigint_cents_decimal}
use my_meridian.TaxText.Digits.{
  IsDigit, NotSpace, digit-NotSpace, decimal-digits, decimal-nonempty, number-decimal,
  number-digits, trim-kept, split-point, pad_start-decimal,
}

two_digits : ℕ → Text
two_digits r = (48 + r / 10) ∷ (48 + r % 10) ∷ []

two-digits : (r : ℕ) → r < 100 → All IsDigit (two_digits r)
unfolding two_digits
two-digits r h = ((omega arith, omega arith), ((omega arith, omega arith), tt))

number-two : (r : ℕ) → r < 100 → number (two_digits r) ≡ some (pos r)
unfolding two_digits read_digits
number-two r h = number-digits (two_digits r) r (two-digits r h) refl (ground arith)

-- The text of an amount without its sign.
body : ℕ → Text
body a = decimal (a / 100) ++ (46 ∷ two_digits (a % 100))

parse_body-body : (a : ℕ) → parse_body 2 (body a) ≡ some (pos a)
unfolding body parse_body two_digits
parse_body-body a =
    let r = a % 100 in
    let small : r < 100 = omega arith in
    let pieces =
      split-point (decimal (a / 100)) (two_digits r) (decimal-digits (a / 100))
        (two-digits r small) in
    rw (pieces, number-decimal (a / 100), number-two r small)
      (ap some (omega (int_laws, *ℤ_parts (pos (a / 100)) (pos 100))))

body-plain : (a : ℕ) → All NotSpace (body a)
unfolding body is_space
body-plain a =
    All-append NotSpace (decimal (a / 100)) (46 ∷ two_digits (a % 100))
      (All-imp IsDigit NotSpace (decimal (a / 100)) digit-NotSpace (decimal-digits (a / 100)))
      (
        refl,
        All-imp IsDigit NotSpace (two_digits (a % 100)) digit-NotSpace
            (two-digits (a % 100) (omega arith)),
      )

-- What is read of a text that starts with a digit, or with a minus.
parse_text-digit :
    (d rest : Text) (n : ℤ)
    → All IsDigit d
    → is_empty d ≡ false
    → All NotSpace (d ++ rest)
    → parse_body 2 (d ++ rest) ≡ some n
    → parse_text 2 (d ++ rest) ≡ n
unfolding parse_text
parse_text-digit [] rest n h e plain read = absurd (true-ne-false e)
parse_text-digit (c ∷ d) rest n (h, hs) e plain read =
    let minus : (c == 45) ≡ false = ground (arith, h) in
    let nan : (c == 78) ≡ false = ground (arith, h) in
    rw (trim-kept (c ∷ d ++ rest) plain) (rw (minus, nan, read) refl)

minus-NotSpace : NotSpace 45
unfolding is_space
minus-NotSpace = refl

parse_text_sign :
    (c : ℕ) (s : Text) (n : ℤ)
    → c ≡ 45
    → All NotSpace (c ∷ s)
    → parse_body 2 s ≡ some n
    → parse_text 2 (c ∷ s) ≡ pos 0 -ℤ n
unfolding parse_text
parse_text_sign c s n h plain read =
    let minus : (c == 45) ≡ true = ground (arith, h) in
    let nan : (c == 78) ≡ false = ground (arith, h) in
    rw (trim-kept (c ∷ s) plain) (rw (minus, nan, read) refl)

parse_text-minus :
    (s : Text) (n : ℤ)
    → All NotSpace s
    → parse_body 2 s ≡ some n
    → parse_text 2 (45 ∷ s) ≡ pos 0 -ℤ n
parse_text-minus s n plain = parse_text_sign 45 s n refl (minus-NotSpace, plain)

sign_text : ℤ → Text
sign_text c = if ltb_ℤ c (pos 0) then 45 ∷ [] else []

bigint_cents_decimal-body : (c : ℤ) → bigint_cents_decimal c ≡ sign_text c ++ body (abs c)
unfolding bigint_cents_decimal sign_text body two_digits
bigint_cents_decimal-body c =
    ap (λ t. sign_text c ++ (decimal (abs c / 100) ++ (46 ∷ t)))
      (pad_start-decimal (abs c % 100) (omega arith))

to_cents_written : (t : Text) → to_cents (written t) ≡ parse_text 2 t
unfolding to_cents parse_scaled
to_cents_written t = refl

read_body : (a : ℕ) → parse_text 2 (body a) ≡ pos a
unfolding body
read_body a =
    parse_text-digit (decimal (a / 100)) (46 ∷ two_digits (a % 100)) (pos a)
      (decimal-digits (a / 100)) (decimal-nonempty (a / 100)) (body-plain a) (parse_body-body a)

read_signed_body : (c : ℤ) → parse_text 2 (sign_text c ++ body (abs c)) ≡ c
unfolding sign_text
read_signed_body (pos n) =
    let plus : ltb_ℤ (pos n) (pos 0) ≡ false = ground arith in
    rw plus (read_body (abs (pos n)) ∙ omega int_laws)
read_signed_body (negsuc n) =
    let minus : ltb_ℤ (negsuc n) (pos 0) ≡ true = ground arith in
    let a = abs (negsuc n) in
    rw minus (parse_text-minus (body a) (pos a) (body-plain a) (parse_body-body a) ∙ omega int_laws)

-- Every amount of cents is read back from the decimal that is written for it.
pub to_cents-bigint_cents_decimal : (c : ℤ) → to_cents (written (bigint_cents_decimal c)) ≡ c
to_cents-bigint_cents_decimal c =
    to_cents_written (bigint_cents_decimal c)
    ∙ ap (parse_text 2) (bigint_cents_decimal-body c)
    ∙ read_signed_body c
