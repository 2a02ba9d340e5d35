-- ===== src/ConnectorLease/Exclusion.antt =====
-- What the lease of app/integrations/lease.server.ts keeps out, and when it lets go.
use my_meridian.Base.{
  ℕ, ◌+◌, true, false, none, some, ◌≡◌, ◌≢◌, refl, sym, ◌∙◌, ap, inl, inr, arith, Bool-cases,
  if◌then◌else◌, leb,
}
use my_meridian.ConnectorLease.{
  Connector, work_lease_ms, is_free, claim_connector_work, holds, release_connector_work, beat,
  Work, result_of, run_claimed, with_connector_work,
}

abbrev pub leased_row : ℕ → ℕ → Connector
leased_row token now = record {
  work_lease_token = some token;
  work_lease_expires_at = some (now + work_lease_ms);
}

claim-free :
    (token now : ℕ) (c : Connector)
    → is_free now c ≡ true
    → claim_connector_work token now c ≡ (some token, leased_row token now)
unfolding claim_connector_work
claim-free token now c h = rw h refl

claim-taken :
    (token now : ℕ) (c : Connector)
    → is_free now c ≡ false
    → claim_connector_work token now c ≡ (none, c)
unfolding claim_connector_work
claim-taken token now c h = rw h refl

leased_row-free :
    (token now later : ℕ) → is_free later (leased_row token now) ≡ leb (now + work_lease_ms) later
unfolding is_free
leased_row-free token now later = refl

second_claim :
    (token other now later : ℕ)
    → (claim_connector_work other later (leased_row token now)).0
      ≡ (if leb (now + work_lease_ms) later then some other else none)
second_claim token other now later = elim (Bool-cases (is_free later (leased_row token now))) [
  | inl free ↦
      let past : leb (now + work_lease_ms) later ≡ true =
        sym (leased_row-free token now later) ∙ free in
      rw (claim-free other later (leased_row token now) free, past) refl
  | inr taken ↦
      let before : leb (now + work_lease_ms) later ≡ false =
        sym (leased_row-free token now later) ∙ taken in
      rw (claim-taken other later (leased_row token now) taken, before) refl
]

holds-other : (token other now : ℕ) → token ≢ other → holds other (leased_row token now) ≡ false
unfolding holds
holds-other token other now h = ground arith

beat-other :
    (token other now later : ℕ)
    → token ≢ other
    → beat other later (leased_row token now) ≡ leased_row token now
unfolding beat
beat-other token other now later h = rw (holds-other token other now h) refl

release-other :
    (token other now : ℕ)
    → token ≢ other
    → release_connector_work other (leased_row token now) ≡ leased_row token now
unfolding release_connector_work
release-other token other now h = rw (holds-other token other now h) refl

-- Once a claim of a connector has won, for four minutes every other claim of it loses and neither a
-- beat nor a release under another token changes the row; from then on the next claim wins.
pub claim_excludes :
    (token other now later : ℕ) (c : Connector)
    → is_free now c ≡ true
    → token ≢ other
    → ((claim_connector_work other later (claim_connector_work token now c).1).0
        ≡ (if leb (now + work_lease_ms) later then some other else none))
      × (beat other later (claim_connector_work token now c).1
          ≡ (claim_connector_work token now c).1)
      × (release_connector_work other (claim_connector_work token now c).1
          ≡ (claim_connector_work token now c).1)
claim_excludes token other now later c free differs = rw (claim-free token now c free) (
  second_claim token other now later,
  beat-other token other now later differs,
  release-other token other now differs,
)

released-IsFree :
    (token later : ℕ) (c : Connector)
    → holds token c ≡ true
    → is_free later (release_connector_work token c) ≡ true
unfolding release_connector_work is_free
released-IsFree token later c h = rw h refl

run-free {ℓ} :
    {V : Type ℓ} (token now : ℕ) (work : Work V) (c : Connector)
    → is_free now c ≡ true
    → with_connector_work token now work c ≡ (
      result_of (work (leased_row token now)).0,
      release_connector_work token (work (leased_row token now)).1,
    )
unfolding with_connector_work
run-free token now work c free = ap (run_claimed work) (claim-free token now c free)

-- Work on a free connector runs once, under its lease: its value or its throw is handed on, and if
-- its lease is still on the row when it ends, the connector is free again at once.
pub with_connector_work_lem {ℓ} :
    {V : Type ℓ} (token now later : ℕ) (work : Work V) (c : Connector)
    → is_free now c ≡ true
    → holds token (work (leased_row token now)).1 ≡ true
    → ((with_connector_work token now work c).0 ≡ result_of (work (leased_row token now)).0)
      × (is_free later (with_connector_work token now work c).1 ≡ true)
with_connector_work_lem token now later work c free kept =
    rw (run-free token now work c free)
      (refl, released-IsFree token later (work (leased_row token now)).1 kept)
