-- ===== src/RecalcQueue/Eligible.antt =====
-- Which job the read of `leaseNextRecalcJob` (app/lib/recalc-queue.server.ts) finds.
use my_meridian.Base.{ℕ, ◌≤◌, ◌<◌, Bool, true, Option, none, some, ◌≡◌, ◌⊎◌, All, leb}
use my_meridian.RecalcQueue.{Job, Jobs, queued, running}

abbrev pub LeaseOver : ℕ → Option ℕ → Type 0
LeaseOver now none = Unit
LeaseOver now (some end) = end ≤ now

-- A job that waits or was abandoned: queued or running, at or past its time, under no lease that still
-- runs.
abbrev pub Eligible : ℕ → Job → Type 0
Eligible now j =
    ((j.status ≡ queued) ⊎ (j.status ≡ running))
    × (j.available_at ≤ now)
    × LeaseOver now j.lease_expires_at

-- An earlier time, or the same and created no later.
abbrev pub Before : Job → Job → Type 0
Before a b =
    (a.available_at < b.available_at)
    ⊎ ((a.available_at ≡ b.available_at) × (a.created_at ≤ b.created_at))

abbrev pub IsFirstEligible : ℕ → Option Job → Jobs → Type 0
IsFirstEligible now none js = All (λ (j : Job). ¬ Eligible now j) js
IsFirstEligible now (some c) js = Eligible now c × All (λ (j : Job). Eligible now j → Before c j) js

lease_test : ℕ → Option ℕ → Bool
lease_test now o = elim o [ none ↦ true | some e ↦ leb e now ]
