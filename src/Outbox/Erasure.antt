-- ===== src/Outbox/Erasure.antt =====
-- What other files write on the table of webhook deliveries: `processShopRedactWebhook` and the data
-- request of app/lib/webhook-processors.server.ts, and the scrubbing of recovery payloads in
-- app/lib/customer-erasure.server.ts, whose choice of rows and of payloads is an argument.
use my_meridian.Base.{
  ℕ, Bool, false, ◌&&◌, ◌||◌, Option, none, some, [], ◌∷◌, ◌==◌, if◌then◌else◌, String,
}
use my_meridian.Base.Keys.{◌=?◌, string_eq}
use my_meridian.Base.Table.{update_many}
use my_meridian.Outbox.{WebhookEvent, Events, is_event, is_null, succeeded}

-- A row that the cascade of the shop's deletion or the `deleteMany` by its domain removes; the shop
-- may be gone already.
abbrev pub is_redacted : String → Option ℕ → WebhookEvent → Bool
is_redacted domain shop e =
    (domain =? e.shop_domain) || elim shop [ none ↦ false | some id ↦ id == e.shop_id ]

unfoldable pub redact_events : String → Option ℕ → Events → Events
redact_events domain shop [] = []
redact_events domain shop (e ∷ es) =
    let rest = redact_events domain shop es in if is_redacted domain shop e then rest else e ∷ rest

-- `where: { id: event.id, processedAt: null }`
abbrev pub is_open : String → WebhookEvent → Bool
is_open id e = (id =? e.webhook_id) && is_null e.processed_at

abbrev pub scrubbed : String → WebhookEvent → WebhookEvent
scrubbed payload e = record e { payload = some payload }

unfoldable pub scrub_event : String → String → Events → Events
scrub_event id payload = update_many (is_open id) (scrubbed payload)

unfoldable pub supersede_event : String → ℕ → Events → Events
supersede_event id now = update_many (is_open id) (succeeded now)

abbrev pub without_error : WebhookEvent → WebhookEvent
without_error e = record e { error = none }

unfoldable pub clear_event_error : String → Events → Events
clear_event_error id = update_many (is_event id) without_error
