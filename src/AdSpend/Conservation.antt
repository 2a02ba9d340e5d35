-- ===== src/AdSpend/Conservation.antt =====
-- Every cent of ad spend (app/engine/profit.ts) lands on an order or in the unattributed sum, once.
use my_meridian.Base.{
  ℕ, ◌+◌, ◌≡◌, refl, ap, ◌∙◌, inl, inr, Bool, true, false, Option, none, some, List, [], ◌∷◌, ◌++◌,
  map, if◌then◌else◌, or_else, String, All, All-append, arith, length, length-map, Bool-cases,
  Option-cases,
}
use my_meridian.Base.Int.{ℤ, pos, ◌+ℤ◌, ◌==ℤ◌, ==ℤ_iff, sum, int_laws, parts_of_eq}
use my_meridian.Base.Keys.{
  lookup-insert, truthy, Eq, ◌=?◌, Dict, lookup, insert, string_eq, pair_eq,
}
use my_meridian.Base.Give.{times, times-add}
use my_meridian.Money.{allocate}
use my_meridian.Money.Allocate.{sum-allocate, length-allocate}
use my_meridian.Orders.{EngineOrder, AdSpendRow, Channel, channel_eq}
use my_meridian.Calendar.{Day, day_eq, ZoneDay, day_key, spend_day_key}
use my_meridian.AdSpend.{
  push, Buckets, file_campaign, file_order, file_orders, AdAttribution, add_to, credit,
  matched_orders, unattributed, settle, attribute_row, attribute_rows, attribute_ad_spend,
}

abbrev pub total_spend : List AdSpendRow → ℤ
total_spend [] = pos 0
total_spend (row ∷ rows) = row.spend_cents +ℤ total_spend rows

-- What the orders of a list are charged, added up.
abbrev pub charged : Dict String ℤ → List EngineOrder → ℤ
charged d [] = pos 0
charged d (o ∷ os) = or_else (lookup o.id d) (pos 0) +ℤ charged d os

-- How often an id stands in a list of orders.
abbrev pub occurrences : String → List EngineOrder → ℕ
occurrences k [] = 0
occurrences k (o ∷ os) = (if k =? o.id then 1 else 0) + occurrences k os

-- Each order's id is its own.
abbrev pub HasUniqueIds : List EngineOrder → Type 0
HasUniqueIds orders = All (λ (o : EngineOrder). occurrences o.id orders ≡ 1) orders

abbrev pub values_sum {ℓ} : {K : Type ℓ} → Dict K ℤ → ℤ
values_sum [] = pos 0
values_sum ((k, v) ∷ d) = v +ℤ values_sum d

module _ {ℓ} {K : Type ℓ} ⦃e : Eq K⦄ where
  values_sum-insert :
      (k : K) (v : ℤ) (d : Dict K ℤ)
      → values_sum (insert k v d) +ℤ or_else (lookup k d) (pos 0) ≡ values_sum d +ℤ v
  values_sum-insert k v [] = omega int_laws
  values_sum-insert k v ((j, w) ∷ d) = elim (Bool-cases (k =? j)) [
    | inl same ↦ rw same (omega int_laws)
    | inr other ↦ rw other (add_under w _ _ _ _ (values_sum-insert k v d))
  ]
    where
      add_under : (w x y a b : ℤ) → x +ℤ a ≡ y +ℤ b → w +ℤ x +ℤ a ≡ w +ℤ y +ℤ b
      add_under w x y a b h = omega (int_laws, parts_of_eq h)

  pub values_sum-add_to :
      (k : K) (s : ℤ) (d : Dict K ℤ) → values_sum (add_to k s d) ≡ values_sum d +ℤ s
  values_sum-add_to k s d =
      cancel _ _ _ s (values_sum-insert k (or_else (lookup k d) (pos 0) +ℤ s) d)
    where
      cancel : (x y z s : ℤ) → x +ℤ z ≡ y +ℤ (z +ℤ s) → x ≡ y +ℤ s
      cancel x y z s h = omega (int_laws, parts_of_eq h)

credit_step :
    (b : Bool) (own other : Option ℤ) (c s : ℤ) (n : ℕ)
    → (b ≡ true → own ≡ other)
    → or_else (if b then some (or_else own (pos 0) +ℤ s) else other) (pos 0) +ℤ (c +ℤ times n s)
      ≡ or_else other (pos 0) +ℤ c +ℤ times ((if b then 1 else 0) + n) s
credit_step true own other c s n h = rw (h refl, times-add 1 n s) (omega int_laws)
credit_step false own other c s n h = rw (times-add 0 n s) (omega int_laws)

charged-add_to :
    (k : String) (s : ℤ) (d : Dict String ℤ) (os : List EngineOrder)
    → charged (add_to k s d) os ≡ charged d os +ℤ times (occurrences k os) s
charged-add_to k s d [] = omega int_laws
charged-add_to k s d (o ∷ os) =
    rw (lookup-insert k o.id (or_else (lookup k d) (pos 0) +ℤ s) d, charged-add_to k s d os)
      (credit_step (k =? o.id) (lookup k d) (lookup o.id d) (charged d os) s (occurrences k os)
        (λ same. ap (λ j. lookup j d) ((string_eq.beq_iff k o.id).0 same)))

module _ (orders : List EngineOrder) where
  abbrev Known : EngineOrder → Type 0
  Known o = occurrences o.id orders ≡ 1

  charged-credit :
      (matched : List EngineOrder) (shares : List ℤ) (d : Dict String ℤ)
      → All Known matched
      → length shares ≡ length matched
      → charged (credit matched shares d) orders ≡ charged d orders +ℤ sum shares
  unfolding credit
  charged-credit [] [] d k e = omega int_laws
  charged-credit [] (s ∷ shares) d k e = absurd (omega arith)
  charged-credit (o ∷ os) [] d k e = absurd (omega arith)
  charged-credit (o ∷ os) (s ∷ shares) d k e =
      rw
        (
          charged-credit os shares (add_to o.id s d) k.1 (omega arith),
          charged-add_to o.id s d orders,
          k.0,
        )
        (omega int_laws)

  module _ {ℓ} {K : Type ℓ} ⦃e : Eq K⦄ where
    lookup-Filed :
        (k : K) (d : Dict K (List EngineOrder)) (default : List EngineOrder)
        → All (λ (f : K × List EngineOrder). All Known f.1) d
        → All Known default
        → All Known (or_else (lookup k d) default)
    lookup-Filed k [] default f h = h
    lookup-Filed k ((j, b) ∷ d) default f h = elim (Bool-cases (k =? j)) [
      | inl same ↦ rw same f.0
      | inr other ↦ rw other (lookup-Filed k d default f.1 h)
    ]

    insert-Filed :
        (k : K) (b : List EngineOrder) (d : Dict K (List EngineOrder))
        → All Known b
        → All (λ (f : K × List EngineOrder). All Known f.1) d
        → All (λ (f : K × List EngineOrder). All Known f.1) (insert k b d)
    insert-Filed k b [] n f = (n, tt)
    insert-Filed k b ((j, c) ∷ d) n f = elim (Bool-cases (k =? j)) [
      | inl same ↦ rw same (n, f.1)
      | inr other ↦ rw other (f.0, insert-Filed k b d n f.1)
    ]

    push-Filed :
        (k : K) (o : EngineOrder) (d : Dict K (List EngineOrder))
        → Known o
        → All (λ (f : K × List EngineOrder). All Known f.1) d
        → All (λ (f : K × List EngineOrder). All Known f.1) (push k o d)
    push-Filed k o d n f =
        insert-Filed k (or_else (lookup k d) [] ++ (o ∷ [])) d
          (All-append Known (or_else (lookup k d) []) (o ∷ []) (lookup-Filed k d [] f tt) (n, tt)) f

  record IsFiled (b : Buckets) : Type 0 where
    campaigns : All (λ (f : (String × Day) × List EngineOrder). All Known f.1) b.by_campaign_day
    channels : All (λ (f : (Channel × Day) × List EngineOrder). All Known f.1) b.by_channel_day

  push_campaign-Filed :
      (c : Option String) (day : Day) (o : EngineOrder) (d : Dict (String × Day) (List EngineOrder))
      → Known o
      → All (λ (f : (String × Day) × List EngineOrder). All Known f.1) d
      → All (λ (f : (String × Day) × List EngineOrder). All Known f.1) (file_campaign c day o d)
  push_campaign-Filed none day o d n f = f
  push_campaign-Filed (some c) day o d n f = push-Filed (c, day) o d n f

  file_orders-IsFiled :
      (zone : ZoneDay) (os : List EngineOrder) (b : Buckets)
      → All Known os
      → IsFiled b
      → IsFiled (file_orders zone os b)
  unfolding file_orders
  file_orders-IsFiled zone [] b k f = f
  file_orders-IsFiled zone (o ∷ os) b (n, k) f =
      let day = day_key zone o.processed_at in
      file_orders-IsFiled zone os (file_order zone o b) k (record {
        campaigns =
            push_campaign-Filed (truthy o.campaign_id) day o b.by_campaign_day n f.campaigns;
        channels = push-Filed (o.channel, day) o b.by_channel_day n f.channels;
      })

  matched_orders-All :
      (b : Buckets) (row : AdSpendRow) → IsFiled b → All Known (matched_orders b row)
  unfolding matched_orders
  matched_orders-All b row f =
      let day = spend_day_key row.date in
      let of_channel = or_else (lookup (row.spend_channel, day) b.by_channel_day) [] in
      let channel : All Known of_channel =
        lookup-Filed (row.spend_channel, day) b.by_channel_day [] f.channels tt in
      elim (Option-cases (truthy row.spend_campaign_id)) [
        | inl n ↦ rw (n, matched_orders) channel
        | inr (c, e) ↦
            rw (e, matched_orders)
              (lookup-Filed (c, day) b.by_campaign_day of_channel f.campaigns channel)
      ]

  -- What is charged to the orders and what is not attributed, together.
  abbrev placed : AdAttribution → ℤ
  placed a = charged a.by_order_id orders +ℤ a.unattributed_cents

  settle-placed :
      (matched : List EngineOrder) (row : AdSpendRow) (a : AdAttribution)
      → All Known matched
      → placed (settle matched row a) ≡ placed a +ℤ row.spend_cents
  unfolding settle unattributed
  settle-placed [] row a k = omega int_laws
  settle-placed (o ∷ os) row a k =
      let weights = map (λ _. pos 1) (o ∷ os) in
      rw
        (
          charged-credit (o ∷ os) (allocate row.spend_cents weights) a.by_order_id k
              (length-allocate row.spend_cents weights ∙ length-map (λ _. pos 1) (o ∷ os)),
          sum-allocate row.spend_cents (pos 1) (map (λ _. pos 1) os),
        )
        (omega int_laws)

  attribute_row-placed :
      (b : Buckets) (row : AdSpendRow) (a : AdAttribution)
      → IsFiled b
      → placed (attribute_row b row a) ≡ placed a +ℤ row.spend_cents
  unfolding attribute_row
  attribute_row-placed b row a f = elim (Bool-cases (row.spend_cents ==ℤ pos 0)) [
    | inl none_spent ↦
        rw (none_spent, (==ℤ_iff row.spend_cents (pos 0)).0 none_spent) (omega int_laws)
    | inr spent ↦ rw spent (settle-placed (matched_orders b row) row a (matched_orders-All b row f))
  ]

  attribute_rows-placed :
      (b : Buckets) (rows : List AdSpendRow) (a : AdAttribution)
      → IsFiled b
      → placed (attribute_rows b rows a) ≡ placed a +ℤ total_spend rows
  unfolding attribute_rows
  attribute_rows-placed b [] a f = omega int_laws
  attribute_rows-placed b (row ∷ rows) a f =
      rw (attribute_rows-placed b rows (attribute_row b row a) f, attribute_row-placed b row a f)
        (omega int_laws)

abbrev pub nothing : AdAttribution
nothing = record { by_order_id = []; unattributed_cents = pos 0; unattributed_by_channel = [] }

abbrev pub no_buckets : Buckets
no_buckets = record { by_campaign_day = []; by_channel_day = [] }

-- Of orders with ids of their own, the ad costs charged to them and the unattributed spend add up to
-- the spend of all rows: no row is lost, and none is counted twice.
pub attribute_ad_spend-conserves :
    (zone : ZoneDay) (orders : List EngineOrder) (spend : List AdSpendRow)
    → HasUniqueIds orders
    → let a = attribute_ad_spend zone orders spend in
      charged a.by_order_id orders +ℤ a.unattributed_cents ≡ total_spend spend
unfolding attribute_ad_spend
attribute_ad_spend-conserves zone orders spend unique =
    attribute_rows-placed orders (file_orders zone orders no_buckets) spend nothing (
      file_orders-IsFiled orders zone orders no_buckets unique
        (record { campaigns = tt; channels = tt }))
    ∙ rw (charged-empty orders) (omega int_laws)
  where
    charged-empty : (os : List EngineOrder) → charged [] os ≡ pos 0
    charged-empty [] = refl
    charged-empty (o ∷ os) = rw (charged-empty os) (omega int_laws)
