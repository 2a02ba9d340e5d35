-- ===== src/Outbox/Replay.antt =====
-- A stored delivery is not processed again: replays in the outbox (app/lib/webhooks.server.ts).
use my_meridian.Base.{
  ℕ, ◌≤◌, Bool, true, false, ◌&&◌, none, Option, some, [], ◌∷◌, ◌≡◌, ◌≢◌, refl, sym, ◌∙◌, ap, inl,
  inr, arith, Bool-cases, ◌==◌, ==_iff, true-ne-false, String,
}
use my_meridian.Base.Table.{count_where, update_many, count_where-update_eq, count_where-append_row}
use my_meridian.Base.Keys.{◌=?◌, string_eq, Dict, lookup}
use my_meridian.Outbox.Erasure.{
  is_redacted, redact_events, is_open, scrubbed, scrub_event, supersede_event, without_error,
  clear_event_error,
}
use my_meridian.Outbox.{
  WebhookEvent, Events, replay, is_event, new_event, Minimize, claim_webhook, held, extended_lease,
  extend_event, succeeded, mark_webhook_succeeded, set_back, mark_webhook_failed, candidate_row,
  take_event, lease_event, expired_payload, cleared, expire_webhook_recovery_payloads,
}
use my_meridian.Outbox.Histories.{
  EventStep, Leads, claims, beats, succeeds, fails, leases, expires, redacts, scrubs, supersedes,
  clears_error, same, then_, claim-cases, create_event-cases,
}

-- The row of a delivery of a shop.
abbrev pub is_of_shop : String → String → ℕ → WebhookEvent → Bool
is_of_shop id domain shop e =
    (id =? e.webhook_id) && ((domain =? e.shop_domain) && shop == e.shop_id)

-- A statement that does not redact the shop, by its domain or its id; and such a history.
abbrev pub Spares : {es next : Events} → String → ℕ → EventStep es next → Type 0
Spares domain shop (redacts other target) = (domain ≢ other) × (target ≢ some shop)
Spares domain shop _ = Unit

abbrev pub AllSpare : {es last : Events} → String → ℕ → Leads es last → Type 0
AllSpare domain shop same = Unit
AllSpare domain shop (then_ l s) = AllSpare domain shop l × Spares domain shop s

its_shop :
    (id domain : String) (shop : ℕ) (e : WebhookEvent)
    → is_of_shop id domain shop e ≡ true
    → (domain ≡ e.shop_domain) × (shop ≡ e.shop_id)
its_shop id domain shop e h = elim (Bool-cases (id =? e.webhook_id)) [
  | inr other ↦ absurd (true-ne-false (sym h ∙ rw other refl))
  | inl mine ↦ elim (Bool-cases (domain =? e.shop_domain)) [
    | inr other ↦ absurd (true-ne-false (sym h ∙ rw (mine, other) refl))
    | inl there ↦ elim (Bool-cases (shop == e.shop_id)) [
      | inr other ↦ absurd (true-ne-false (sym h ∙ rw (mine, there, other) refl))
      | inl owner ↦
          ((string_eq.beq_iff domain e.shop_domain).0 there, (==_iff shop e.shop_id).0 owner)
    ]
  ]
]

not_of_shop :
    (shop : ℕ) (target : Option ℕ) (row_shop : ℕ)
    → target ≢ some shop
    → shop ≡ row_shop
    → (elim target [ none ↦ false | some id ↦ id == row_shop ]) ≡ false
not_of_shop shop none row_shop g e = refl
not_of_shop shop (some id) row_shop g e = elim (Bool-cases (id == row_shop)) [
  | inl t ↦ absurd (g (ap (λ (n : ℕ). some n) ((==_iff id row_shop).0 t ∙ sym e)))
  | inr f ↦ f
]

redact-spared :
    (id domain other : String) (shop : ℕ) (target : Option ℕ) (e : WebhookEvent)
    → domain ≢ other
    → target ≢ some shop
    → is_of_shop id domain shop e ≡ true
    → is_redacted other target e ≡ false
redact-spared id domain other shop target e d g h =
    let (of_domain, of_shop) = its_shop id domain shop e h in
    elim (Bool-cases (other =? e.shop_domain)) [
      | inl t ↦ absurd (d (of_domain ∙ sym ((string_eq.beq_iff other e.shop_domain).0 t)))
      | inr f ↦ rw f (not_of_shop shop target e.shop_id g of_shop)
    ]

count-redact_events :
    (id domain other : String) (shop : ℕ) (target : Option ℕ) (es : Events)
    → domain ≢ other
    → target ≢ some shop
    → count_where (is_of_shop id domain shop) (redact_events other target es)
      ≡ count_where (is_of_shop id domain shop) es
unfolding redact_events
count-redact_events id domain other shop target [] d g = refl
count-redact_events id domain other shop target (e ∷ es) d g =
    let rest = count-redact_events id domain other shop target es d g in
    elim (Bool-cases (is_of_shop id domain shop e)) [
      | inl mine ↦ rw (mine, redact-spared id domain other shop target e d g mine, mine, rest) refl
      | inr other_ ↦ elim (Bool-cases (is_redacted other target e)) [
        | inl out ↦ rw (other_, out) (omega (arith, rest))
        | inr kept ↦ rw (other_, kept, other_, rest) refl
      ]
    ]

updated :
    (id domain : String) (shop : ℕ) (p : WebhookEvent → Bool) (f : WebhookEvent → WebhookEvent)
    (es : Events)
    → ((e : WebhookEvent) → is_of_shop id domain shop (f e) ≡ is_of_shop id domain shop e)
    → count_where (is_of_shop id domain shop) es
      ≤ count_where (is_of_shop id domain shop) (update_many p f es)
updated id domain shop p f es keep =
    omega (arith, count_where-update_eq p (is_of_shop id domain shop) f es keep)

step-keeps :
    (id domain : String) (shop : ℕ) {es next : Events} (s : EventStep es next)
    → Spares domain shop s
    → count_where (is_of_shop id domain shop) es ≤ count_where (is_of_shop id domain shop) next
unfolding extend_event mark_webhook_succeeded mark_webhook_failed lease_event
    expire_webhook_recovery_payloads scrub_event supersede_event clear_event_error
step-keeps id domain shop (claims {es} minimize shops new dom topic payload token now) _ =
    elim (claim-cases minimize shops new dom topic payload token now es) [
      | inl e ↦ omega (arith, ap (count_where (is_of_shop id domain shop)) e)
      | inr (at, free, e) ↦
          let row = new_event new dom at topic (minimize topic payload) token now in
          omega (
            arith,
            ap (count_where (is_of_shop id domain shop)) e
                ∙ count_where-append_row (is_of_shop id domain shop) es row,
          )
    ]
step-keeps id domain shop (beats {es} i token now) _ =
    updated id domain shop (held i token) (extended_lease now) es (λ e. refl)
step-keeps id domain shop (succeeds {es} i token now) _ =
    updated id domain shop (held i token) (succeeded now) es (λ e. refl)
step-keeps id domain shop (fails {es} i token attempt message now) _ =
    updated id domain shop (held i token) (set_back attempt message now) es (λ e. refl)
step-keeps id domain shop (leases {es} candidate token now) _ =
    updated id domain shop (candidate_row candidate now) (take_event token now) es (λ e. refl)
step-keeps id domain shop (expires {es} why now) _ =
    updated id domain shop (expired_payload now) (cleared why now) es (λ e. refl)
step-keeps id domain shop (redacts {es} other target) (d, g) =
    omega (arith, count-redact_events id domain other shop target es d g)
step-keeps id domain shop (scrubs {es} i payload) _ =
    updated id domain shop (is_open i) (scrubbed payload) es (λ e. refl)
step-keeps id domain shop (supersedes {es} i now) _ =
    updated id domain shop (is_open i) (succeeded now) es (λ e. refl)
step-keeps id domain shop (clears_error {es} i) _ =
    updated id domain shop (is_event i) without_error es (λ e. refl)

history-keeps :
    (id domain : String) (shop : ℕ) {es last : Events} (l : Leads es last)
    → AllSpare domain shop l
    → count_where (is_of_shop id domain shop) es ≤ count_where (is_of_shop id domain shop) last
history-keeps id domain shop same _ = omega arith
history-keeps id domain shop (then_ l s) (before, now) =
    omega (arith, history-keeps id domain shop l before, step-keeps id domain shop s now)

of_shop-le :
    (id domain : String) (shop : ℕ) (es : Events)
    → count_where (is_of_shop id domain shop) es ≤ count_where (is_event id) es
of_shop-le id domain shop [] = omega arith
of_shop-le id domain shop (e ∷ es) =
    let rest = of_shop-le id domain shop es in
    elim (Bool-cases (id =? e.webhook_id)) [
      | inl t ↦ rw t (ground (arith, rest))
      | inr n ↦ rw n (omega (arith, rest))
    ]

claim-replay :
    (minimize : Minimize) (shops : Dict String ℕ) (id domain topic payload : String)
    (token now shop : ℕ) (es : Events)
    → lookup domain shops ≡ some shop
    → 1 ≤ count_where (is_event id) es
    → claim_webhook minimize shops id domain topic payload token now es ≡ (replay, es)
unfolding claim_webhook
claim-replay minimize shops id domain topic payload token now shop es known stored =
    elim (create_event-cases (new_event id domain shop topic (minimize topic payload) token now)
      token es) [
        | inl old ↦ rw (claim_webhook, known, old) refl
        | inr (free, _) ↦ absurd (omega (arith, free, stored))
      ]

-- Once a delivery of a shop is stored, every later delivery with its id, of any known shop, is a replay
-- that writes nothing, whatever statements have run in between: it may be processed, failed, leased
-- again, expired, scrubbed or superseded, if only the shop's rows have not been deleted by a redaction
-- of its domain or its id.
pub stored_delivery_is_replayed :
    (minimize : Minimize) (shops : Dict String ℕ) (id from topic payload : String)
    (token now known : ℕ) (domain : String) (shop : ℕ) {es later : Events} (l : Leads es later)
    → AllSpare domain shop l
    → 1 ≤ count_where (is_of_shop id domain shop) es
    → lookup from shops ≡ some known
    → claim_webhook minimize shops id from topic payload token now later ≡ (replay, later)
stored_delivery_is_replayed minimize shops id from topic payload token now known domain shop l
      spared stored found =
    claim-replay minimize shops id from topic payload token now known _ found
      (omega (arith, stored, history-keeps id domain shop l spared, of_shop-le id domain shop _))
