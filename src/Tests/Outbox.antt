-- ===== src/Tests/Outbox.antt =====
-- app/lib/webhooks.server.ts at concrete inputs.
use my_meridian.Base.{
  ℕ, Option, none, some, ◌≢◌, sym, true-ne-false, [], ◌∷◌, ◌≡◌, refl, arith, All, String,
}
use my_meridian.Base.Keys.{Dict, string_eq}
use my_meridian.Outbox.{
  Events, claim_webhook, replay, claimed, new_event, mark_webhook_succeeded, drain_webhook_queue,
  Processor,
}
use my_meridian.Outbox.Histories.{
  Leads, same, then_, claims, succeeds, Settled, history-Settled, redacts,
}
use my_meridian.Outbox.Erasure.{redact_events}
use my_meridian.Outbox.Replay.{stored_delivery_is_replayed}
use mathlib.Core.Option.{some-injective}

abbrev shops : Dict String ℕ
shops = ("a.myshopify.com", 1) ∷ []

abbrev stored : Events
stored = new_event "w1" "a.myshopify.com" 1 "orders/create" "order" 7 1_000 ∷ []

abbrev processed : Events
processed = mark_webhook_succeeded "w1" 7 2_000 stored

claim-stores :
    claim_webhook (λ _ p. p) shops "w1" "a.myshopify.com" "orders/create" "order" 7 1_000 []
    ≡ (claimed 7 1, stored)
unfolding claim_webhook
claim-stores = refl

-- A delivery whose worker died is recovered by a sweep once its lease is over, and then processed.
abbrev handles_all : Processor
handles_all _ = none

drain-recovers :
    (drain_webhook_queue [] 400_000 handles_all
      (λ n. n)
      (λ _. 400_000)
      (λ _. 400_500)
      (λ _ t. t)
      (λ _ t. t)
      stored).0
    ≡ 1
unfolding drain_webhook_queue
drain-recovers = refl

stored-Leads : Leads [] stored
unfolding claim_webhook
stored-Leads =
    then_ same (claims (λ _ p. p) shops "w1" "a.myshopify.com" "orders/create" "order" 7 1_000)

abbrev processed-Leads : Leads stored processed
processed-Leads = then_ same (succeeds "w1" 7 2_000)

history-Settled_example : All Settled processed
history-Settled_example = history-Settled processed-Leads (refl, tt)

-- Another shop is redacted after the delivery has been processed.
abbrev redacted : Events
redacted = redact_events "b.myshopify.com" (some 2) processed

other_domain : ◌≢◌ {A = String} "a.myshopify.com" "b.myshopify.com"
other_domain e =
    absurd (true-ne-false (sym ((string_eq.beq_iff "a.myshopify.com" "b.myshopify.com").1 e)))

other_shop : ◌≢◌ {A = Option ℕ} (some 2) (some 1)
other_shop e = absurd (omega (arith, some-injective _ _ e))

stored_delivery_is_replayed_example :
    claim_webhook (λ _ p. p) shops "w1" "a.myshopify.com" "orders/create" "order" 9 3_000 redacted
    ≡ (replay, redacted)
stored_delivery_is_replayed_example =
    stored_delivery_is_replayed (λ _ p. p) shops "w1" "a.myshopify.com" "orders/create" "order" 9
      3_000 1 "a.myshopify.com" 1 (then_ processed-Leads (redacts "b.myshopify.com" (some 2)))
      ((tt, tt), (other_domain, other_shop)) (omega arith) refl
