-- ===== src/AdSpend/Channels.antt =====
-- The unattributed ad spend by channel (app/engine/profit.ts).
use my_meridian.Base.{◌≡◌, refl, inl, inr, List, [], ◌∷◌, Bool-cases}
use my_meridian.Base.Int.{pos, ◌==ℤ◌}
use my_meridian.Base.Keys.{string_eq, pair_eq}
use my_meridian.Orders.{EngineOrder, AdSpendRow, channel_eq}
use my_meridian.Calendar.{day_eq, ZoneDay}
use my_meridian.AdSpend.{
  Buckets, file_orders, AdAttribution, matched_orders, unattributed, settle, attribute_row,
  attribute_rows, attribute_ad_spend,
}
use my_meridian.AdSpend.Conservation.{nothing, no_buckets, values_sum, values_sum-add_to}

abbrev ByChannel : AdAttribution → Type 0
ByChannel a = values_sum a.unattributed_by_channel ≡ a.unattributed_cents

settle-ByChannel :
    (matched : List EngineOrder) (row : AdSpendRow) (a : AdAttribution)
    → ByChannel a
    → ByChannel (settle matched row a)
unfolding settle unattributed
settle-ByChannel [] row a h =
    rw (values_sum-add_to row.spend_channel row.spend_cents a.unattributed_by_channel, h)
settle-ByChannel (o ∷ os) row a h = h

attribute_row-ByChannel :
    (b : Buckets) (row : AdSpendRow) (a : AdAttribution)
    → ByChannel a
    → ByChannel (attribute_row b row a)
unfolding attribute_row
attribute_row-ByChannel b row a h = elim (Bool-cases (row.spend_cents ==ℤ pos 0)) [
  | inl none_spent ↦ rw none_spent h
  | inr spent ↦ rw spent (settle-ByChannel (matched_orders b row) row a h)
]

attribute_rows-ByChannel :
    (b : Buckets) (rows : List AdSpendRow) (a : AdAttribution)
    → ByChannel a
    → ByChannel (attribute_rows b rows a)
unfolding attribute_rows
attribute_rows-ByChannel b [] a h = h
attribute_rows-ByChannel b (row ∷ rows) a h =
    attribute_rows-ByChannel b rows (attribute_row b row a) (attribute_row-ByChannel b row a h)

-- The unattributed spend by channel adds up to the unattributed sum.
pub attribute_ad_spend-by_channel :
    (zone : ZoneDay) (orders : List EngineOrder) (spend : List AdSpendRow)
    → let a = attribute_ad_spend zone orders spend in
      values_sum a.unattributed_by_channel ≡ a.unattributed_cents
unfolding attribute_ad_spend
attribute_ad_spend-by_channel zone orders spend =
    attribute_rows-ByChannel (file_orders zone orders no_buckets) spend nothing refl
