-- ===== src/Orders.antt =====
-- app/engine/types.ts: the rows that the profit engine reads and writes.
use my_meridian.Base.{ℕ, Bool, Option, none, List, String, ◌==◌, ◌≡◌, ◌↔◌, true, arith}
use my_meridian.Base.Int.{ℤ, pos}
use my_meridian.Base.Keys.{Eq}
use my_meridian.CostHistory.{Instant}
use my_meridian.Money.{Rate}

pub data Channel : Type 0 where
  facebook google tiktok email organic_search direct referral affiliate other : Channel

abbrev pub channel_code : Channel → ℕ
channel_code facebook = 0
channel_code google = 1
channel_code tiktok = 2
channel_code email = 3
channel_code organic_search = 4
channel_code direct = 5
channel_code referral = 6
channel_code affiliate = 7
channel_code other = 8

abbrev pub channel_beq : Channel → Channel → Bool
channel_beq a b = channel_code a == channel_code b

pub channel_beq_iff : (a b : Channel) → (channel_beq a b ≡ true) ↔ (a ≡ b)
channel_beq_iff a b = ground arith

instance abbrev pub channel_eq : Eq Channel
channel_eq = record { beq = channel_beq; beq_iff = channel_beq_iff }

pub record EngineLineItem : Type 0 where
  pub item_id : String
  pub product_id : Option String
  pub variant_id : Option String
  pub title : String
  pub quantity : ℤ
  pub refunded_qty : ℤ
  pub unit_price_cents : ℤ
  pub discount_cents : ℤ
  pub unit_cost_micros : ℤ

pub record EngineOrder : Type 0 where
  pub id : String
  pub order_number : ℕ
  pub processed_at : Instant
  pub customer_id : Option String
  pub channel : Channel
  pub campaign_id : Option String
  pub is_first_order : Bool
  pub subtotal_cents : ℤ
  pub discount_total_cents : ℤ
  pub shipping_charged_cents : ℤ
  pub tax_total_cents : ℤ
  pub total_cents : ℤ
  pub refunded_total_cents : ℤ
  pub return_fees_retained_cents : ℤ
  pub line_items : List EngineLineItem
  pub actual_shipping_cost_cents : Option ℤ
  pub actual_pick_pack_cost_cents : Option ℤ
  pub return_shipping_cost_cents : ℤ

pub data CostRuleOrigin : Type 0 where
  install_default merchant_configured demo_seed legacy_unknown : CostRuleOrigin

pub record CostRuleProvenance : Type 0 where
  pub origin : CostRuleOrigin
  pub confirmed : Bool

pub record CostRuleProvenanceSet : Type 0 where
  pub payment_fee : Option CostRuleProvenance
  pub shipping_default : Option CostRuleProvenance
  pub pick_pack : Option CostRuleProvenance
  pub monthly_overhead : Option CostRuleProvenance

pub record CostRuleSet : Type 0 where
  pub payment_percent_rate : Rate
  pub payment_fixed_per_order_cents : ℤ
  pub shipping_default_per_order_cents : ℤ
  pub pick_pack_per_order_cents : ℤ
  pub pick_pack_per_item_cents : ℤ
  pub monthly_overhead_cents : ℤ
  pub provenance : CostRuleProvenanceSet

-- `ZERO_COST_RULES`
abbrev pub zero_cost_rules : CostRuleSet
zero_cost_rules = record {
  payment_percent_rate = record { num = pos 0; den = 1 };
  payment_fixed_per_order_cents = pos 0;
  shipping_default_per_order_cents = pos 0;
  pick_pack_per_order_cents = pos 0;
  pick_pack_per_item_cents = pos 0;
  monthly_overhead_cents = pos 0;
  provenance = record {
    payment_fee = none;
    shipping_default = none;
    pick_pack = none;
    monthly_overhead = none;
  };
}

pub record AdSpendRow : Type 0 where
  pub date : Instant
  pub spend_channel : Channel
  pub spend_campaign_id : Option String
  pub campaign_name : Option String
  pub spend_cents : ℤ
  pub impressions : ℕ
  pub clicks : ℕ
  pub platform_conversions : ℕ
  pub platform_revenue_cents : ℤ
