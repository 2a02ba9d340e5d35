-- ===== src/Outbox/Histories.antt =====
-- Every history of the table of app/lib/webhooks.server.ts: its statements in any order, from any
-- number of processes, those of Outbox/Erasure among them, and what they keep.
use my_meridian.Base.{
  ℕ, Bool, true, false, not, ◌&&◌, Option, none, some, [], ◌∷◌, ◌≡◌, refl, sym, ◌∙◌, leb, inl, inr,
  ◌⊎◌, arith, All, Bool-cases, Option-cases, if◌then◌else◌, ◌==◌, ==_iff, String,
}
use mathlib.Core.Path.{subst}
use my_meridian.Base.Table.{count_where, append_row, All-update_many, All-append_row}
use my_meridian.Base.Keys.{◌=?◌, string_eq, Dict, lookup}
use my_meridian.Outbox.Erasure.{
  is_redacted, redact_events, is_open, scrubbed, scrub_event, supersede_event, without_error,
  clear_event_error,
}
use my_meridian.Outbox.{
  WebhookEvent, Events, claimed, replay, is_event, new_event, create_event, Minimize, claim_webhook,
  is_null, held, extended_lease, extend_event, succeeded, mark_webhook_succeeded, set_back,
  mark_webhook_failed, candidate_row, lease_over, take_event, lease_event, expired_payload, cleared,
  expire_webhook_recovery_payloads, Message,
}

-- One statement on the table. A candidate need not be what it was when it was read.
pub data EventStep : Events → Events → Type 0 where
  claims :
      {es : Events} (minimize : Minimize) (shops : Dict String ℕ) (id domain topic payload : String)
      (token now : ℕ)
      → EventStep es (claim_webhook minimize shops id domain topic payload token now es).1
  beats : {es : Events} (id : String) (token now : ℕ) → EventStep es (extend_event id token now es)
  succeeds :
      {es : Events} (id : String) (token now : ℕ)
      → EventStep es (mark_webhook_succeeded id token now es)
  fails :
      {es : Events} (id : String) (token attempt : ℕ) (message : Message) (now : ℕ)
      → EventStep es (mark_webhook_failed id token attempt message now es)
  leases :
      {es : Events} (candidate : WebhookEvent) (token now : ℕ)
      → EventStep es (lease_event candidate token now es)
  expires :
      {es : Events} (why : Message) (now : ℕ)
      → EventStep es (expire_webhook_recovery_payloads why now es)
  redacts :
      {es : Events} (domain : String) (shop : Option ℕ)
      → EventStep es (redact_events domain shop es)
  scrubs : {es : Events} (id payload : String) → EventStep es (scrub_event id payload es)
  supersedes : {es : Events} (id : String) (now : ℕ) → EventStep es (supersede_event id now es)
  clears_error : {es : Events} (id : String) → EventStep es (clear_event_error id es)

-- What a table can become.
pub data Leads : Events → Events → Type 0 where
  same : {es : Events} → Leads es es
  then_ : {es mid last : Events} → Leads es mid → EventStep mid last → Leads es last

-- A delivery that is not processed has its payload; one that is has no copy of it, and no lease.
abbrev pub settled : WebhookEvent → Bool
settled e =
    if is_null e.processed_at
    then not (is_null e.payload)
    else is_null e.payload
      && is_null e.payload_expires_at
      && is_null e.lease_token
      && is_null e.lease_expires_at

abbrev pub Settled : WebhookEvent → Type 0
Settled e = settled e ≡ true

pub create_event-cases :
    (e : WebhookEvent) (token : ℕ) (es : Events)
    → (create_event e token es ≡ (replay, es))
      ⊎ ((count_where (is_event e.webhook_id) es ≡ 0)
          × (create_event e token es ≡ (claimed token 1, append_row es e)))
unfolding create_event
create_event-cases e token es = elim (Bool-cases (count_where (is_event e.webhook_id) es == 0)) [
  | inl free ↦ inr ((==_iff _ _).0 free, rw free refl)
  | inr taken ↦ inl (rw taken refl)
]

pub claim-cases :
    (minimize : Minimize) (shops : Dict String ℕ) (id domain topic payload : String) (token now : ℕ)
    (es : Events)
    → ((claim_webhook minimize shops id domain topic payload token now es).1 ≡ es)
      ⊎ ((shop : ℕ) × (count_where (is_event id) es ≡ 0)
          × ((claim_webhook minimize shops id domain topic payload token now es).1
              ≡ append_row es (new_event id domain shop topic (minimize topic payload) token now)))
unfolding claim_webhook
claim-cases minimize shops id domain topic payload token now es =
    elim (Option-cases (lookup domain shops)) [
      | inl unknown ↦ inl (rw (claim_webhook, unknown) refl)
      | inr (shop, known) ↦
          let e = new_event id domain shop topic (minimize topic payload) token now in
          elim (create_event-cases e token es) [
            | inl old ↦ inl (rw (claim_webhook, known, old) refl)
            | inr (free, new) ↦ inr (shop, free, rw (claim_webhook, known, new) refl)
          ]
    ]

third_holds : (a b c : Bool) → (a && b && c) ≡ true → c ≡ true
third_holds a b c h = ground arith

second_holds : (a b c d : Bool) → (a && (b && c && d)) ≡ true → b ≡ true
second_holds a b c d h = ground arith

held-unprocessed :
    (id : String) (token : ℕ) (e : WebhookEvent)
    → held id token e ≡ true
    → is_null e.processed_at ≡ true
held-unprocessed id token e h =
    third_holds (id =? e.webhook_id) (elim e.lease_token [ none ↦ false | some t ↦ t == token ])
      (is_null e.processed_at) h

candidate_row-unprocessed :
    (candidate : WebhookEvent) (now : ℕ) (e : WebhookEvent)
    → candidate_row candidate now e ≡ true
    → is_null e.processed_at ≡ true
candidate_row-unprocessed candidate now e h =
    second_holds (candidate.webhook_id =? e.webhook_id) (is_null e.processed_at)
      (leb e.available_at now) (lease_over now e) h

-- A write that leaves the payload of an open delivery leaves it settled.
payload_kept-Settled :
    (e f : WebhookEvent)
    → is_null e.processed_at ≡ true
    → f.processed_at ≡ e.processed_at
    → f.payload ≡ e.payload
    → Settled e
    → Settled f
payload_kept-Settled e f unprocessed p q s =
    let kept : not (is_null e.payload) ≡ true = sym (rw unprocessed refl) ∙ s in
    rw (p, q, unprocessed) kept

second_of_two : (a b : Bool) → (a && b) ≡ true → b ≡ true
second_of_two a b h = ground arith

redact_events-All {ℓ} :
    (P : WebhookEvent → Type ℓ) (domain : String) (shop : Option ℕ) (es : Events)
    → All P es
    → All P (redact_events domain shop es)
unfolding redact_events
redact_events-All P domain shop [] a = tt
redact_events-All P domain shop (e ∷ es) (a, rest) = elim (Bool-cases (is_redacted domain shop e)) [
  | inl gone ↦ rw gone (redact_events-All P domain shop es rest)
  | inr kept ↦ rw kept (a, redact_events-All P domain shop es rest)
]

Event_step-Settled : {es next : Events} → EventStep es next → All Settled es → All Settled next
unfolding extend_event mark_webhook_succeeded mark_webhook_failed lease_event
    expire_webhook_recovery_payloads scrub_event supersede_event clear_event_error
Event_step-Settled (claims {es} minimize shops id domain topic payload token now) a =
    elim (claim-cases minimize shops id domain topic payload token now es) [
      | inl e ↦ subst (All Settled) (sym e) a
      | inr (shop, _, e) ↦ subst (All Settled) (sym e) (
          All-append_row Settled es
            (new_event id domain shop topic (minimize topic payload) token now) a refl)
    ]
Event_step-Settled (beats {es} id token now) a =
    All-update_many (held id token) (extended_lease now) Settled es
      (λ e h s.
        payload_kept-Settled e (extended_lease now e) (held-unprocessed id token e h) refl refl s)
      a
Event_step-Settled (succeeds {es} id token now) a =
    All-update_many (held id token) (succeeded now) Settled es (λ e _ _. refl) a
Event_step-Settled (fails {es} id token attempt message now) a =
    All-update_many (held id token) (set_back attempt message now) Settled es
      (λ e h s.
        payload_kept-Settled e (set_back attempt message now e) (held-unprocessed id token e h) refl
          refl s)
      a
Event_step-Settled (leases {es} candidate token now) a =
    All-update_many (candidate_row candidate now) (take_event token now) Settled es
      (λ e h s.
        payload_kept-Settled e (take_event token now e)
          (candidate_row-unprocessed candidate now e h) refl refl s)
      a
Event_step-Settled (expires {es} why now) a =
    All-update_many (expired_payload now) (cleared why now) Settled es (λ e _ _. refl) a
Event_step-Settled (redacts {es} domain shop) a = redact_events-All Settled domain shop es a
Event_step-Settled (scrubs {es} id payload) a =
    All-update_many (is_open id) (scrubbed payload) Settled es
      (λ e h s. rw (second_of_two (id =? e.webhook_id) (is_null e.processed_at) h) refl) a
Event_step-Settled (supersedes {es} id now) a =
    All-update_many (is_open id) (succeeded now) Settled es (λ e _ _. refl) a
Event_step-Settled (clears_error {es} id) a =
    All-update_many (is_event id) without_error Settled es (λ e _ s. s) a

-- In every history from a table of which this holds (an empty one, say), a delivery that is not
-- processed still has its payload, and no copy of the payload of a processed one is kept: neither
-- payload nor expiry nor lease is left on its row.
pub history-Settled : {es last : Events} → Leads es last → All Settled es → All Settled last
history-Settled same a = a
history-Settled (then_ l s) a = Event_step-Settled s (history-Settled l a)
