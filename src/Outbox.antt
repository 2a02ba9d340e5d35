-- ===== src/Outbox.antt =====
-- app/lib/webhooks.server.ts: the outbox of webhook deliveries, as the table of `WebhookEvent` that the
-- statements of the file change. Times are milliseconds; what other processes do between two
-- statements is an argument, and so is `minimizeWebhookPayload` of webhook-payload.server.ts. A row is
-- known by its delivery id, which is unique as its `id` is.
pub mod Erasure
pub mod Histories
pub mod Once
pub mod Replay
use my_meridian.Base.{
  ℕ, zero, suc, ◌+◌, ◌-◌, ◌*◌, ◌^◌, min, Bool, true, false, not, ◌&&◌, ◌||◌, Option, none, some,
  List, [], ◌∷◌, ltb, leb, ◌==◌, if◌then◌else◌, String, take,
}
use my_meridian.Base.Table.{update_many, count_where, append_row}
use my_meridian.Base.Keys.{◌=?◌, string_eq, Dict, lookup}

-- A message, by its UTF-16 code units.
abbrev pub Message : Type 0
Message = List ℕ

-- A row; `payload` and `payload_expires_at` are SQL NULL once no copy is kept.
pub record WebhookEvent : Type 0 where
  pub webhook_id : String
  pub shop_domain : String
  pub shop_id : ℕ
  pub topic : String
  pub payload : Option String
  pub payload_expires_at : Option ℕ
  pub attempts : ℕ
  pub received_at : ℕ
  pub available_at : ℕ
  pub last_attempt_at : ℕ
  pub lease_token : Option ℕ
  pub lease_expires_at : Option ℕ
  pub processed_at : Option ℕ
  pub error : Option Message

abbrev pub Events : Type 0
Events = List WebhookEvent

abbrev pub webhook_lease_ms : ℕ
webhook_lease_ms = 5 * 60 * 1000

abbrev pub webhook_batch_size : ℕ
webhook_batch_size = 25

abbrev pub payload_retention_ms : ℕ
payload_retention_ms = 7 * 24 * 60 * 60 * 1000

abbrev pub max_message_length : ℕ
max_message_length = 4000

pub data WebhookClaim : Type 0 where
  claimed : ℕ → ℕ → WebhookClaim
  replay untracked : WebhookClaim

abbrev pub is_event : String → WebhookEvent → Bool
is_event id e = id =? e.webhook_id

-- The row that `create` inserts.
abbrev pub new_event : String → String → ℕ → String → String → ℕ → ℕ → WebhookEvent
new_event id domain shop topic payload token now = record {
  webhook_id = id;
  shop_domain = domain;
  shop_id = shop;
  topic = topic;
  payload = some payload;
  payload_expires_at = some (now + payload_retention_ms);
  attempts = 1;
  received_at = now;
  available_at = now;
  last_attempt_at = now;
  lease_token = some token;
  lease_expires_at = some (now + webhook_lease_ms);
  processed_at = none;
  error = none;
}

-- `create`, or the collision with the unique delivery id.
unfoldable pub create_event : WebhookEvent → ℕ → Events → WebhookClaim × Events
create_event e token es =
    if count_where (is_event e.webhook_id) es == 0
    then (claimed token 1, append_row es e)
    else (replay, es)

abbrev pub Minimize : Type 0
Minimize = String → String → String

-- `claimWebhook`; `shops` are the known domains, with the ids of their shops.
unfoldable pub claim_webhook :
    Minimize
    → Dict String ℕ
    → String
    → String
    → String
    → String
    → ℕ
    → ℕ
    → Events
    → WebhookClaim × Events
unfolding create_event
claim_webhook minimize shops id domain topic payload token now es = elim (lookup domain shops) [
  | none ↦ (untracked, es)
  | some shop ↦
      create_event (new_event id domain shop topic (minimize topic payload) token now) token es
]

abbrev pub is_null {ℓ} : {A : Type ℓ} → Option A → Bool
is_null none = true
is_null (some a) = false

-- `where: { webhookId, leaseToken, processedAt: null }`
abbrev pub held : String → ℕ → WebhookEvent → Bool
held id token e =
    id =? e.webhook_id
    && elim e.lease_token [ none ↦ false | some t ↦ t == token ]
    && is_null e.processed_at

abbrev pub extended_lease : ℕ → WebhookEvent → WebhookEvent
extended_lease now e = record e { lease_expires_at = some (now + webhook_lease_ms) }

-- A beat of `startLeaseHeartbeat`.
unfoldable pub extend_event : String → ℕ → ℕ → Events → Events
extend_event id token now = update_many (held id token) (extended_lease now)

abbrev pub succeeded : ℕ → WebhookEvent → WebhookEvent
succeeded now e = record e {
  processed_at = some now;
  payload = none;
  payload_expires_at = none;
  error = none;
  lease_token = none;
  lease_expires_at = none;
}

unfoldable pub mark_webhook_succeeded : String → ℕ → ℕ → Events → Events
mark_webhook_succeeded id token now = update_many (held id token) (succeeded now)

unfoldable pub webhook_retry_delay_ms : ℕ → ℕ
webhook_retry_delay_ms attempt = min (15 * 60 * 1000) (5_000 * 2 ^ min 10 (attempt - 1))

abbrev pub set_back : ℕ → Message → ℕ → WebhookEvent → WebhookEvent
set_back attempt message now e = record e {
  error = some (take max_message_length message);
  available_at = now + webhook_retry_delay_ms attempt;
  lease_token = none;
  lease_expires_at = none;
}

unfoldable pub mark_webhook_failed : String → ℕ → ℕ → Message → ℕ → Events → Events
unfolding webhook_retry_delay_ms
mark_webhook_failed id token attempt message now =
    update_many (held id token) (set_back attempt message now)

abbrev pub lease_over : ℕ → WebhookEvent → Bool
lease_over now e = elim e.lease_expires_at [ none ↦ true | some t ↦ leb t now ]

-- The `where` of the write, and with a payload that of the read of `leaseNextWebhook`.
abbrev pub leasable : ℕ → WebhookEvent → Bool
leasable now e = is_null e.processed_at && leb e.available_at now && lease_over now e

abbrev pub recoverable : ℕ → WebhookEvent → Bool
recoverable now e = not (is_null e.payload) && leasable now e

abbrev pub sooner_event : WebhookEvent → WebhookEvent → Bool
sooner_event a b =
    ltb a.available_at b.available_at
    || (a.available_at == b.available_at && leb a.received_at b.received_at)

abbrev pub first_event : WebhookEvent → Option WebhookEvent → WebhookEvent
first_event e none = e
first_event e (some f) = if sooner_event e f then e else f

-- `findFirst`
unfoldable pub find_recoverable : ℕ → Events → Option WebhookEvent
find_recoverable now [] = none
find_recoverable now (e ∷ es) =
    if recoverable now e
    then some (first_event e (find_recoverable now es))
    else find_recoverable now es

abbrev pub take_event : ℕ → ℕ → WebhookEvent → WebhookEvent
take_event token now e = record e {
  attempts = e.attempts + 1;
  last_attempt_at = now;
  lease_token = some token;
  lease_expires_at = some (now + webhook_lease_ms);
}

abbrev pub candidate_row : WebhookEvent → ℕ → WebhookEvent → Bool
candidate_row candidate now e = candidate.webhook_id =? e.webhook_id && leasable now e

unfoldable pub lease_event : WebhookEvent → ℕ → ℕ → Events → Events
lease_event candidate token now = update_many (candidate_row candidate now) (take_event token now)

pub record LeasedWebhook : Type 0 where
  pub event : WebhookEvent
  pub token : ℕ
  pub attempt : ℕ

-- `leaseNextWebhook`: up to `rounds` tries.
unfoldable pub lease_next_webhook :
    ℕ → ℕ → ℕ → (ℕ → Events → Events) → Events → Option LeasedWebhook × Events
unfolding find_recoverable lease_event
lease_next_webhook zero now token interfere es = (none, es)
lease_next_webhook (suc rounds) now token interfere es =
    let again = λ (seen : Events). lease_next_webhook rounds now token interfere seen in
    elim (find_recoverable now es) [
      | none ↦ (none, es)
      | some c ↦
          let seen = interfere rounds es in
          elim (count_where (candidate_row c now) seen == 1) [
            | true ↦ (
              some (record { event = c; token = token; attempt = c.attempts + 1 }),
              lease_event c token now seen,
            )
            | false ↦ again seen
          ]
    ]

abbrev pub is_order_topic : String → Bool
is_order_topic t =
    t =? "ORDERS_CREATE" || t =? "ORDERS_UPDATED" || t =? "orders/create" || t =? "orders/updated"

abbrev pub expired_payload : ℕ → WebhookEvent → Bool
expired_payload now e =
    is_null e.processed_at
    && not (is_null e.payload)
    && elim e.payload_expires_at [ none ↦ false | some t ↦ leb t now ]
    && is_order_topic e.topic
    && lease_over now e

abbrev pub cleared : Message → ℕ → WebhookEvent → WebhookEvent
cleared why now e = record e {
  processed_at = some now;
  payload = none;
  payload_expires_at = none;
  error = some why;
  lease_token = none;
  lease_expires_at = none;
}

-- `expireWebhookRecoveryPayloads`; `why` is its message.
unfoldable pub expire_webhook_recovery_payloads : Message → ℕ → Events → Events
expire_webhook_recovery_payloads why now = update_many (expired_payload now) (cleared why now)

-- What a processor does with a delivery: `none`, or the message of what it threw.
abbrev pub Processor : Type 0
Processor = WebhookEvent → Option Message

-- `runHandler` of a tracked delivery, from the moment that its handler has ended, at `now`.
unfoldable pub run_handler : Processor → LeasedWebhook → ℕ → Events → Events
unfolding mark_webhook_succeeded mark_webhook_failed
run_handler processor l now es = elim (processor l.event) [
  | none ↦ mark_webhook_succeeded l.event.webhook_id l.token now es
  | some message ↦ mark_webhook_failed l.event.webhook_id l.token l.attempt message now es
]

-- The loop of `drainWebhookQueue`. Each round has a token, the clock when it leases and when its
-- handler has ended, and what others do before the write of the lease and while the handler runs.
unfoldable pub drain_from :
    ℕ
    → Processor
    → (ℕ → ℕ)
    → (ℕ → ℕ)
    → (ℕ → ℕ)
    → (ℕ → Events → Events)
    → (ℕ → Events → Events)
    → Events
    → ℕ × Events
unfolding lease_next_webhook run_handler
drain_from zero processor tokens clock ends interfere meanwhile es = (0, es)
drain_from (suc left) processor tokens clock ends interfere meanwhile es =
    let go =
      λ (seen : Events). drain_from left processor tokens clock ends interfere meanwhile seen in
    let (leased, seen) = lease_next_webhook 8 (clock left) (tokens left) interfere es in
    elim leased [
      | none ↦ (0, seen)
      | some l ↦
          let (n, last) = go (run_handler processor l (ends left) (meanwhile left seen)) in
          (suc n, last)
    ]

-- `drainWebhookQueue`
unfoldable pub drain_webhook_queue :
    Message
    → ℕ
    → Processor
    → (ℕ → ℕ)
    → (ℕ → ℕ)
    → (ℕ → ℕ)
    → (ℕ → Events → Events)
    → (ℕ → Events → Events)
    → Events
    → ℕ × Events
unfolding expire_webhook_recovery_payloads drain_from
drain_webhook_queue why start processor tokens clock ends interfere meanwhile es =
    drain_from webhook_batch_size processor tokens clock ends interfere meanwhile
      (expire_webhook_recovery_payloads why start es)
