-- ===== src/Revenue/Charged.antt =====
-- Which rows `summariseRevenue` (app/lib/revenue.ts) charges or takes for trials, written out.
use my_meridian.Base.{
  ◌≡◌, Bool, true, false, not, ◌&&◌, ◌||◌, Option, none, some, leb, arith, Option-cases, inl, inr,
  String,
}
use my_meridian.Base.Keys.{◌=?◌}
use my_meridian.Base.Text.{Text, text_eq, codes}
use my_meridian.CostHistory.{Instant}
use my_meridian.Plans.{inherited_names, is_name}
use my_meridian.Revenue.{SubscriptionRow, is_active, is_trialing}

-- A row that Shopify charges: active, and its trial over.
abbrev pub trial_over : Instant → Option Instant → Bool
trial_over now none = true
trial_over now (some end) = leb end now

abbrev pub is_charged : Instant → SubscriptionRow → Bool
is_charged now row =
    ((row.status =? codes "active") || (row.status =? codes "accepted"))
    && trial_over now row.trial_ends_at

abbrev pub same : Bool → Bool → Bool
same true b = b
same false b = not b

-- A charged row of a plan and a billing interval.
abbrev pub subscribes : String → Bool → Instant → SubscriptionRow → Bool
subscribes key annual now row =
    is_charged now row && ((row.plan =? codes key) && same annual (row.interval =? codes "annual"))

-- The revenue of a plan: its monthly subscribers pay one amount, its annual ones another.
abbrev pub is_found : Text → Bool
is_found key =
    (key =? codes "starter")
    || (key =? codes "growth")
    || (key =? codes "scale")
    || is_name key inherited_names

abbrev pub is_in_trial : Instant → SubscriptionRow → Bool
is_in_trial now row =
    ((row.status =? codes "active") || (row.status =? codes "accepted"))
    && not (trial_over now row.trial_ends_at)

abbrev pub code_charged : Instant → SubscriptionRow → Bool
code_charged now row = is_active row.status && not (is_trialing row.trial_ends_at now)

pub code_charged-is_charged :
    (now : Instant) (row : SubscriptionRow) → code_charged now row ≡ is_charged now row
unfolding is_active is_trialing
code_charged-is_charged now row = elim (Option-cases row.trial_ends_at) [
  | inl none_ ↦ rw none_ (ground arith)
  | inr (end, s) ↦ rw s (ground arith)
]

abbrev pub code_in_trial : Instant → SubscriptionRow → Bool
code_in_trial now row = is_active row.status && is_trialing row.trial_ends_at now

pub code_in_trial-is_in_trial :
    (now : Instant) (row : SubscriptionRow) → code_in_trial now row ≡ is_in_trial now row
unfolding is_active is_trialing
code_in_trial-is_in_trial now row = elim (Option-cases row.trial_ends_at) [
  | inl none_ ↦ rw none_ (ground arith)
  | inr (end, s) ↦ rw s (ground arith)
]
