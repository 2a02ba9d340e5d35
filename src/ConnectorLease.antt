-- ===== src/ConnectorLease.antt =====
-- app/integrations/lease.server.ts: provider work on one connector, claimed across all processes. The
-- row is the connector's two lease columns; a token is a purpose and a fresh identifier, compared only.
pub mod Exclusion
use my_meridian.Base.{
  ℕ, ◌+◌, ◌*◌, Bool, true, false, ◌||◌, Option, none, some, leb, ◌==◌, if◌then◌else◌,
}

pub record Connector : Type 0 where
  pub work_lease_token : Option ℕ
  pub work_lease_expires_at : Option ℕ

abbrev pub work_lease_ms : ℕ
work_lease_ms = 4 * 60 * 1000

abbrev pub is_none : Option ℕ → Bool
is_none none = true
is_none (some n) = false

-- The `where` of the claim.
unfoldable pub is_free : ℕ → Connector → Bool
is_free now c =
    is_none c.work_lease_token || elim c.work_lease_expires_at [ none ↦ true | some e ↦ leb e now ]

-- `claimConnectorWork`: the token, if the claim wins.
unfoldable pub claim_connector_work : ℕ → ℕ → Connector → Option ℕ × Connector
unfolding is_free
claim_connector_work token now c =
    if is_free now c
    then (
      some token,
      record { work_lease_token = some token; work_lease_expires_at = some (now + work_lease_ms) },
    )
    else (none, c)

unfoldable pub holds : ℕ → Connector → Bool
holds token c = elim c.work_lease_token [ none ↦ false | some t ↦ t == token ]

unfoldable pub release_connector_work : ℕ → Connector → Connector
unfolding holds
release_connector_work token c =
    if holds token c then record { work_lease_token = none; work_lease_expires_at = none } else c

-- A beat of the heartbeat of `withConnectorWork`.
unfoldable pub beat : ℕ → ℕ → Connector → Connector
unfolding holds
beat token now c =
    if holds token c then record c { work_lease_expires_at = some (now + work_lease_ms) } else c

-- What `work` and everything that runs beside it do: its value, or a throw as `none`, and the row.
abbrev pub Work {ℓ} : Type ℓ → Type ℓ
Work V = Connector → Option V × Connector

pub data WorkResult {ℓ} (V : Type ℓ) : Type ℓ where
  not_claimed : WorkResult V
  finished : V → WorkResult V
  threw : WorkResult V

abbrev pub result_of {ℓ} : {V : Type ℓ} → Option V → WorkResult V
result_of none = threw
result_of (some v) = finished v

-- `withConnectorWork` after its claim: the lease is released in `finally`, also when the work throws.
abbrev pub run_claimed {ℓ} : {V : Type ℓ} → Work V → Option ℕ × Connector → WorkResult V × Connector
run_claimed work (none, c) = (not_claimed, c)
run_claimed work (some token, mine) =
    let (v, after) = work mine in (result_of v, release_connector_work token after)

-- `withConnectorWork`
unfoldable pub with_connector_work {ℓ} :
    {V : Type ℓ} → ℕ → ℕ → Work V → Connector → WorkResult V × Connector
unfolding claim_connector_work
with_connector_work token now work c = run_claimed work (claim_connector_work token now c)
