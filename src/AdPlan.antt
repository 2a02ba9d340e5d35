-- ===== src/AdPlan.antt =====
-- app/lib/ad-ingestion-plan.ts: which days of ad spend to poll. A day is its number from the earliest
-- `Date` on, whose order is that of the texts "YYYY-MM-DD" of the years 0 to 9999.
pub mod Days
pub mod Backoff
use my_meridian.Base.{
  ℕ, zero, suc, ◌+◌, ◌-◌, ◌*◌, ◌/◌, ◌^◌, min, Bool, true, false, not, ◌||◌, Option, none, some,
  List, [], ◌∷◌, ◌++◌, ltb, leb, ◌==◌, if◌then◌else◌,
}
use my_meridian.Base.Int.{ℤ, pos, ◌*ℤ◌, ◌+ℤ◌}
use my_meridian.Base.Sort.{sort}
use my_meridian.Calendar.{day_ms}
use my_meridian.CostHistory.{Instant}
use my_meridian.Money.{Rate, math_round}

-- The loop of `dayRange`, for at most so many rounds.
unfoldable pub range_from : ℕ → ℕ → ℕ → List ℕ
range_from zero day to = []
range_from (suc rounds) day to =
    let rest = range_from rounds (day + 1) to in if leb day to then day ∷ rest else []

-- `dayRange`, which stops once it has more than 5,000 days.
unfoldable pub day_range : ℕ → ℕ → List ℕ
unfolding range_from
day_range = range_from 5_001

pub record SyncPlanInput : Type 0 where
  pub today : ℕ
  pub horizon_start : ℕ
  pub synced_days : ℕ → Bool
  pub lookback_days : ℕ
  pub deep_lookback_days : ℕ
  pub last_deep_sync_at : Option Instant
  pub deep_cadence_days : ℕ

pub record SyncPlan : Type 0 where
  pub days : List ℕ
  pub is_deep_pass : Bool

-- `deepDue`, with both sides of the test times a day's milliseconds
unfoldable pub deep_due : SyncPlanInput → Bool
deep_due input = elim input.last_deep_sync_at [
  | none ↦ true
  | some last ↦ leb (last + input.deep_cadence_days * day_ms) (input.today * day_ms)
]

-- `lookbackStart`; there is no day before the earliest.
unfoldable pub lookback_start : SyncPlanInput → ℕ
unfolding deep_due
lookback_start input =
    input.today - ((if deep_due input then input.deep_lookback_days else input.lookback_days) - 1)

abbrev pub mem : ℕ → List ℕ → Bool
mem d [] = false
mem d (x ∷ xs) = d == x || mem d xs

-- `due.add(day)`
abbrev pub add_day : ℕ → List ℕ → List ℕ
add_day d due = if mem d due then due else due ++ (d ∷ [])

-- Whether a round of the loop adds its day.
abbrev pub wanted : SyncPlanInput → ℕ → Bool
wanted input d = not (input.synced_days d) || leb (lookback_start input) d

unfoldable pub collect_days : SyncPlanInput → List ℕ → List ℕ → List ℕ
unfolding lookback_start
collect_days input due [] = due
collect_days input due (d ∷ ds) =
    collect_days input (if wanted input d then add_day d due else due) ds

-- `planSyncDays`
unfoldable pub plan_sync_days : SyncPlanInput → SyncPlan
unfolding day_range deep_due collect_days
plan_sync_days input =
    if ltb input.today input.horizon_start
    then record { days = []; is_deep_pass = false }
    else record {
      days = sort leb (collect_days input [] (day_range input.horizon_start input.today));
      is_deep_pass = deep_due input;
    }

-- `ceiling` of `retryBackoffMs`
unfoldable pub backoff_ceiling : ℕ → ℕ
backoff_ceiling attempts_made = min (30 * 60_000) (30_000 * 2 ^ (attempts_made - 1))

-- `retryBackoffMs`, with the number that `random()` gives
unfoldable pub retry_backoff_ms : ℕ → Rate → ℤ
unfolding backoff_ceiling math_round
retry_backoff_ms attempts_made random =
    let half = backoff_ceiling attempts_made / 2 in
    math_round (pos (half * random.den) +ℤ random.num *ℤ pos half) random.den
