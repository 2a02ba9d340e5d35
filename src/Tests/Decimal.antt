-- ===== src/Tests/Decimal.antt =====
-- app/engine/money.ts and app/engine/tax.ts: decimals at concrete inputs.
use my_meridian.Base.{◌≡◌, refl}
use my_meridian.Base.Int.{pos, negsuc, ◌+ℤ◌, ◌-ℤ◌, ◌*ℤ◌}
use my_meridian.Base.Text.{codes}
use my_meridian.Money.Decimal.{written, to_cents, to_micros}

to_cents-negative : to_cents (written (codes " -12.345")) ≡ negsuc 1234
unfolding to_cents ◌+ℤ◌ ◌-ℤ◌ ◌*ℤ◌
to_cents-negative = refl

to_micros-short : to_micros (written (codes "3.5")) ≡ pos 35_000
unfolding to_micros ◌+ℤ◌ ◌-ℤ◌ ◌*ℤ◌
to_micros-short = refl

to_cents-not_a_number : to_cents (written (codes "12a.00")) ≡ pos 0
unfolding to_cents ◌+ℤ◌ ◌-ℤ◌ ◌*ℤ◌
to_cents-not_a_number = refl
