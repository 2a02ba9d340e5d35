-- ===== src/Calendar.antt =====
-- The day and month keys of app/engine/profit.ts. `2026-08-06` is a year, a month and a day, and
-- instants count milliseconds from the earliest `Date`, 100,000,000 days before 1970-01-01.
use my_meridian.Base.{
  ℕ, ◌+◌, ◌-◌, ◌*◌, ◌/◌, ◌%◌, Bool, true, ◌&&◌, ◌||◌, not, Option, ◌==◌, ltb, if◌then◌else◌, ◌≡◌,
  ◌↔◌, refl, arith, or_else,
}
use my_meridian.Base.Keys.{Eq}
use my_meridian.CostHistory.{Instant}

pub record Month : Type 0 where
  pub year : ℕ
  pub month : ℕ

pub record Day : Type 0 where
  pub in_month : Month
  pub day : ℕ

abbrev pub month_beq : Month → Month → Bool
month_beq a b = a.year == b.year && a.month == b.month

pub month_beq_iff : (a b : Month) → (month_beq a b ≡ true) ↔ (a ≡ b)
month_beq_iff a b = ground arith

instance abbrev pub month_eq : Eq Month
month_eq = record { beq = month_beq; beq_iff = month_beq_iff }

abbrev pub day_beq : Day → Day → Bool
day_beq a b = month_beq a.in_month b.in_month && a.day == b.day

pub day_beq_iff : (a b : Day) → (day_beq a b ≡ true) ↔ (a ≡ b)
day_beq_iff a b = ground arith

instance abbrev pub day_eq : Eq Day
day_eq = record { beq = day_beq; beq_iff = day_beq_iff }

abbrev pub day_ms : ℕ
day_ms = 86_400_000

-- Days from 0000-03-01 to a day of 400 years, split into a year and a day of it from March on.
year_of_era : ℕ → ℕ
year_of_era doe = (doe + doe / 36_524 - doe / 1460 - doe / 146_096) / 365

-- The UTC calendar date, as `toISOString().slice(0, 10)` has it for the years 0 to 9999.
unfoldable pub utc_day : Instant → Day
unfolding year_of_era
utc_day t =
    let z = t / day_ms - (100_000_000 - 719_468) in
    let doe = z % 146_097 in
    let yoe = year_of_era doe in
    let doy = doe - (365 * yoe + yoe / 4 - yoe / 100) in
    let mp = (5 * doy + 2) / 153 in
    let m = if ltb mp 10 then mp + 3 else mp - 9 in
    record {
      in_month = record { year = yoe + z / 146_097 * 400 + (if ltb m 3 then 1 else 0); month = m };
      day = doy - (153 * mp + 2) / 5 + 1;
    }

-- `spendDayKey`: a statistics date at its face value.
unfoldable pub spend_day_key : Instant → Day
unfolding utc_day
spend_day_key = utc_day

-- `Intl.DateTimeFormat` with the merchant's time zone: it gives no day if it refuses the zone.
abbrev pub ZoneDay : Type 0
ZoneDay = Instant → Option Day

-- `dayKey`
unfoldable pub day_key : ZoneDay → Instant → Day
day_key zone t = or_else (zone t) (utc_day t)

-- `monthKey`
unfoldable pub month_key : ZoneDay → Instant → Month
unfolding day_key
month_key zone t = (day_key zone t).in_month

-- The year that `Date.UTC` takes a number for.
abbrev pub utc_year : ℕ → ℕ
utc_year y = if ltb y 100 then 1_900 + y else y

-- `daysInCalendarMonth`: day 0 of the month after.
unfoldable pub days_in_calendar_month : Month → ℕ
days_in_calendar_month m =
    if m.month == 2
    then (let y = utc_year m.year in
        if y % 4 == 0 && (not (y % 100 == 0) || y % 400 == 0) then 29 else 28)
    else if m.month == 4 || m.month == 6 || m.month == 9 || m.month == 11
    then 30
    else 31

-- 2026-08-06 and the leap day of 2024.
utc_days :
    (utc_day ((100_000_000 + 20_671) * day_ms + 5)
      ≡ record { in_month = record { year = 2026; month = 8 }; day = 6 })
    × (utc_day ((100_000_000 + 19_782) * day_ms)
        ≡ record { in_month = record { year = 2024; month = 2 }; day = 29 })
unfolding utc_day
utc_days = (refl, refl)
