-- ===== src/AdSpend.antt =====
-- The ad spend attribution of app/engine/profit.ts.
pub mod Channels
pub mod Conservation
use my_meridian.Base.{
  ℕ, Bool, true, false, Option, none, some, List, [], ◌∷◌, ◌++◌, map, if◌then◌else◌, or_else,
  String,
}
use my_meridian.Base.Int.{ℤ, pos, ◌+ℤ◌, ◌==ℤ◌}
use my_meridian.Base.Keys.{truthy, Eq, ◌=?◌, Dict, lookup, insert, string_eq, pair_eq}
use my_meridian.Money.{allocate}
use my_meridian.Orders.{EngineOrder, AdSpendRow, Channel, channel_eq}
use my_meridian.Calendar.{Day, day_eq, ZoneDay, day_key, spend_day_key}

-- `bucket.push(order)`, or a new bucket.
abbrev pub push {ℓ} :
    {K : Type ℓ} ⦃e : Eq K⦄
    → K
    → EngineOrder
    → Dict K (List EngineOrder)
    → Dict K (List EngineOrder)
push k order d = insert k (or_else (lookup k d) [] ++ (order ∷ [])) d

-- The two maps that the first loop fills. A key `a|day` is the pair of its parts.
pub record Buckets : Type 0 where
  pub by_campaign_day : Dict (String × Day) (List EngineOrder)
  pub by_channel_day : Dict (Channel × Day) (List EngineOrder)

abbrev pub file_campaign :
    Option String
    → Day
    → EngineOrder
    → Dict (String × Day) (List EngineOrder)
    → Dict (String × Day) (List EngineOrder)
file_campaign none day order d = d
file_campaign (some c) day order d = push (c, day) order d

module _ (zone : ZoneDay) where
  unfoldable pub file_order : EngineOrder → Buckets → Buckets
  unfolding day_key
  file_order order b =
      let day = day_key zone order.processed_at in
      record {
        by_campaign_day = file_campaign (truthy order.campaign_id) day order b.by_campaign_day;
        by_channel_day = push (order.channel, day) order b.by_channel_day;
      }

  unfoldable pub file_orders : List EngineOrder → Buckets → Buckets
  unfolding file_order
  file_orders [] b = b
  file_orders (order ∷ orders) b = file_orders orders (file_order order b)

pub record AdAttribution : Type 0 where
  pub by_order_id : Dict String ℤ
  pub unattributed_cents : ℤ
  pub unattributed_by_channel : Dict Channel ℤ

-- `map.set(key, (map.get(key) ?? 0) + cents)`
abbrev pub add_to {ℓ} : {K : Type ℓ} ⦃e : Eq K⦄ → K → ℤ → Dict K ℤ → Dict K ℤ
add_to k cents d = insert k (or_else (lookup k d) (pos 0) +ℤ cents) d

-- `matched.forEach((order, i) => …)` over the shares.
unfoldable pub credit : List EngineOrder → List ℤ → Dict String ℤ → Dict String ℤ
credit [] shares d = d
credit (order ∷ orders) [] d = credit orders [] (add_to order.id (pos 0) d)
credit (order ∷ orders) (s ∷ shares) d = credit orders shares (add_to order.id s d)

-- The campaign's orders of the day, or else the channel's.
unfoldable pub matched_orders : Buckets → AdSpendRow → List EngineOrder
unfolding spend_day_key
matched_orders b row =
    let day = spend_day_key row.date in
    let of_channel = or_else (lookup (row.spend_channel, day) b.by_channel_day) [] in
    elim (truthy row.spend_campaign_id) [
      | none ↦ of_channel
      | some c ↦ or_else (lookup (c, day) b.by_campaign_day) of_channel
    ]

unfoldable pub unattributed : AdSpendRow → AdAttribution → AdAttribution
unattributed row a = record a {
  unattributed_cents = a.unattributed_cents +ℤ row.spend_cents;
  unattributed_by_channel = add_to row.spend_channel row.spend_cents a.unattributed_by_channel;
}

-- A row with orders to carry it, and one without.
unfoldable pub settle : List EngineOrder → AdSpendRow → AdAttribution → AdAttribution
unfolding allocate credit unattributed
settle [] row a = unattributed row a
settle (o ∷ os) row a = record a {
  by_order_id =
      credit (o ∷ os) (allocate row.spend_cents (map (λ _. pos 1) (o ∷ os))) a.by_order_id;
}

unfoldable pub attribute_row : Buckets → AdSpendRow → AdAttribution → AdAttribution
unfolding matched_orders settle
attribute_row b row a = if row.spend_cents ==ℤ pos 0 then a else settle (matched_orders b row) row a

unfoldable pub attribute_rows : Buckets → List AdSpendRow → AdAttribution → AdAttribution
unfolding attribute_row
attribute_rows b [] a = a
attribute_rows b (row ∷ rows) a = attribute_rows b rows (attribute_row b row a)

-- `attributeAdSpend`
unfoldable pub attribute_ad_spend : ZoneDay → List EngineOrder → List AdSpendRow → AdAttribution
unfolding file_orders attribute_rows
attribute_ad_spend zone orders spend =
    attribute_rows (file_orders zone orders (record { by_campaign_day = []; by_channel_day = [] }))
      spend (record { by_order_id = []; unattributed_cents = pos 0; unattributed_by_channel = [] })
