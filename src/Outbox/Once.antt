-- ===== src/Outbox/Once.antt =====
-- A delivery is stored at most once in the outbox (app/lib/webhooks.server.ts).
use my_meridian.Base.{
  ℕ, ◌+◌, ◌≤◌, Bool, Option, [], ◌∷◌, ◌≡◌, refl, sym, ◌∙◌, ap, inl, inr, ◌⊎◌, arith, Bool-cases,
  if◌then◌else◌, String,
}
use mathlib.Core.Path.{subst}
use my_meridian.Base.Table.{count_where, update_many, count_where-update_eq, count_where-append_row}
use my_meridian.Base.Keys.{◌=?◌, string_eq}
use my_meridian.Outbox.Erasure.{
  is_redacted, redact_events, is_open, scrubbed, scrub_event, supersede_event, without_error,
  clear_event_error,
}
use my_meridian.Outbox.{
  WebhookEvent, Events, is_event, new_event, claim_webhook, held, extended_lease, extend_event,
  succeeded, mark_webhook_succeeded, set_back, mark_webhook_failed, candidate_row, take_event,
  lease_event, expired_payload, cleared, expire_webhook_recovery_payloads,
}
use my_meridian.Outbox.Histories.{
  EventStep, Leads, claims, beats, succeeds, fails, leases, expires, redacts, scrubs, supersedes,
  clears_error, same, then_, claim-cases,
}

updated :
    (id : String) (p : WebhookEvent → Bool) (f : WebhookEvent → WebhookEvent) (es : Events)
    → ((e : WebhookEvent) → is_event id (f e) ≡ is_event id e)
    → (count_where (is_event id) (update_many p f es) ≤ count_where (is_event id) es)
      ⊎ ((count_where (is_event id) es ≡ 0) × (count_where (is_event id) (update_many p f es) ≡ 1))
updated id p f es keep = inl (omega (arith, count_where-update_eq p (is_event id) f es keep))

count-redacted :
    (id domain : String) (shop : Option ℕ) (es : Events)
    → count_where (is_event id) (redact_events domain shop es) ≤ count_where (is_event id) es
unfolding redact_events
count-redacted id domain shop [] = omega arith
count-redacted id domain shop (e ∷ es) =
    let rest = count-redacted id domain shop es in
    elim (Bool-cases (is_redacted domain shop e)) [
      | inl gone ↦ rw gone (omega (arith, rest))
      | inr kept ↦ rw kept (omega (arith, rest))
    ]

step-count :
    (id : String) {es next : Events}
    → EventStep es next
    → (count_where (is_event id) next ≤ count_where (is_event id) es)
      ⊎ ((count_where (is_event id) es ≡ 0) × (count_where (is_event id) next ≡ 1))
unfolding extend_event mark_webhook_succeeded mark_webhook_failed lease_event
    expire_webhook_recovery_payloads scrub_event supersede_event clear_event_error
step-count id (claims {es} minimize shops new domain topic payload token now) =
    elim (claim-cases minimize shops new domain topic payload token now es) [
      | inl e ↦ inl (omega (arith, ap (count_where (is_event id)) e))
      | inr (shop, free, e) ↦
          let row = new_event new domain shop topic (minimize topic payload) token now in
          let added : count_where (is_event id)
                (claim_webhook minimize shops new domain topic payload token now es).1
              ≡ count_where (is_event id) es + (if is_event id row then 1 else 0) =
            ap (count_where (is_event id)) e ∙ count_where-append_row (is_event id) es row in
          elim (Bool-cases (id =? new)) [
            | inl mine ↦
                let is_new : id ≡ new = (string_eq.beq_iff id new).0 mine in
                let none_yet : count_where (is_event id) es ≡ 0 =
                  subst (λ (s : String). count_where (is_event s) es ≡ 0) (sym is_new) free in
                inr (none_yet, omega (arith, rw mine at added, none_yet))
            | inr other ↦ inl omega (arith, rw other at added)
          ]
    ]
step-count id (beats {es} new token now) =
    updated id (held new token) (extended_lease now) es (λ e. refl)
step-count id (succeeds {es} new token now) =
    updated id (held new token) (succeeded now) es (λ e. refl)
step-count id (fails {es} new token attempt message now) =
    updated id (held new token) (set_back attempt message now) es (λ e. refl)
step-count id (leases {es} candidate token now) =
    updated id (candidate_row candidate now) (take_event token now) es (λ e. refl)
step-count id (expires {es} why now) =
    updated id (expired_payload now) (cleared why now) es (λ e. refl)
step-count id (redacts {es} domain shop) = inl (count-redacted id domain shop es)
step-count id (scrubs {es} new payload) = updated id (is_open new) (scrubbed payload) es (λ e. refl)
step-count id (supersedes {es} new now) = updated id (is_open new) (succeeded now) es (λ e. refl)
step-count id (clears_error {es} new) = updated id (is_event new) without_error es (λ e. refl)

-- A delivery is stored at most once: in every history that starts with an empty table, no delivery id
-- stands in two rows.
pub history-once : (id : String) {es : Events} → Leads [] es → count_where (is_event id) es ≤ 1
history-once id same = omega arith
history-once id (then_ l s) =
    let before = history-once id l in
    elim (step-count id s) [ inl e ↦ omega (arith, e, before) | inr (z, o) ↦ omega (arith, o) ]
