-- ===== src/RecalcQueue/Drain.antt =====
-- `leaseNextRecalcJob` and `drainRecalcQueue` of app/lib/recalc-queue.server.ts: their loops.
use my_meridian.Base.{
  ℕ, suc, zero, ◌+◌, ◌≤◌, Option, none, some, ◌≡◌, refl, ◌⊎◌, inl, inr, String, arith, Option-cases,
  ◌==◌, Bool-cases,
}
use my_meridian.Base.Table.{count_where}
use my_meridian.RecalcQueue.{
  Job, Jobs, Text, LeasedJob, find_due, lease_where, lease_job, lease_next, running,
}
use my_meridian.RecalcWorker.{Handlers, drain, run_job, handle, Outcome, done, threw}
use my_meridian.RecalcQueue.Steps.{Reachable, after, leases, completes, fails}
use my_meridian.RecalcQueue.Leases.{IdsUnique, count-candidate}

-- The job that a lease of a candidate hands to the worker.
abbrev pub leased_as : Job → ℕ → LeasedJob
leased_as c token = record {
  job = record c { status = running };
  token = token;
  attempt = c.attempts + 1;
}

abbrev pub first_lease : ℕ → ℕ → Jobs → Option Job → Option LeasedJob × Jobs
first_lease now token js none = (none, js)
first_lease now token js (some c) = (some (leased_as c token), lease_job c now token js)

-- With nobody else between the read and the write, and with unique ids, the first of any tries of
-- `leaseNextRecalcJob` settles it: it leases the candidate that the read finds, or finds none due.
pub lease_next_lem :
    (rounds now token : ℕ) (js : Jobs)
    → IdsUnique js
    → lease_next (suc rounds) now token (λ _ t. t) js ≡ first_lease now token js (find_due now js)
unfolding lease_next
lease_next_lem rounds now token js u = elim (Option-cases (find_due now js)) [
  | inl n ↦ rw (lease_next, n) refl
  | inr (c, s) ↦ rw (lease_next, s, count-candidate now js c u s) refl
]

Outcome-cases : (o : Outcome) → ((s : String) × (o ≡ done s)) ⊎ ((t : Text) × (o ≡ threw t))
Outcome-cases (done s) = inl (s, refl)
Outcome-cases (threw t) = inr (t, refl)

module _ (interfere : ℕ → Jobs → Jobs)
    (others : (r : ℕ) (t : Jobs) → Reachable t → Reachable (interfere r t)) where
  lease_next-Reachable :
      (rounds now token : ℕ) (js : Jobs)
      → Reachable js
      → Reachable (lease_next rounds now token interfere js).1
  unfolding lease_next
  lease_next-Reachable zero now token js r = r
  lease_next-Reachable (suc rounds) now token js r =
      let seen = interfere rounds js in
      let again = lease_next-Reachable rounds now token seen (others rounds js r) in
      elim (Option-cases (find_due now js)) [
        | inl n ↦ rw (lease_next, n) r
        | inr (c, s) ↦ elim (Bool-cases (count_where (lease_where c now) seen == 1)) [
          | inl t ↦ rw (lease_next, s, t) (after (others rounds js r) (leases c now token))
          | inr n ↦ rw (lease_next, s, n) again
        ]
      ]

  run_job-Reachable :
      (handlers : Handlers) (no_handler : Text) (l : LeasedJob) (now : ℕ) (js : Jobs)
      → Reachable js
      → Reachable (run_job handlers no_handler l now js)
  unfolding run_job
  run_job-Reachable handlers no_handler l now js r =
      elim (Outcome-cases (handle handlers no_handler l.job)) [
        | inl (result, e) ↦ rw (run_job, e) (after r (completes l.job.id l.token now result))
        | inr (message, e) ↦
            rw (run_job, e) (after r (fails l.job.id l.token l.attempt now message))
      ]

  -- The statements of a sweep, with those of others before and during each handler, make a history.
  drain-Reachable :
      (rounds : ℕ) (handlers : Handlers) (no_handler : Text) (tokens clock ends : ℕ → ℕ)
      (meanwhile : ℕ → Jobs → Jobs) (js : Jobs)
      → ((r : ℕ) (t : Jobs) → Reachable t → Reachable (meanwhile r t))
      → Reachable js
      → ((drain rounds handlers no_handler tokens clock ends interfere meanwhile js).0 ≤ rounds)
        × Reachable (drain rounds handlers no_handler tokens clock ends interfere meanwhile js).1
  unfolding drain
  drain-Reachable zero handlers no_handler tokens clock ends meanwhile js m r = (omega arith, r)
  drain-Reachable (suc left) handlers no_handler tokens clock ends meanwhile js m r =
      let (leased, seen) = lease_next 8 (clock left) (tokens left) interfere js in
      let reached = lease_next-Reachable 8 (clock left) (tokens left) js r in
      elim (Option-cases (lease_next 8 (clock left) (tokens left) interfere js).0) [
        | inl n ↦ rw (drain, n) (omega arith, reached)
        | inr (l, s) ↦
            let (few, rest) =
              drain-Reachable left handlers no_handler tokens clock ends meanwhile
                (run_job handlers no_handler l (ends left) (meanwhile left seen)) m
                (run_job-Reachable handlers no_handler l (ends left) _ (m left seen reached)) in
            rw (drain, s) (omega (arith, few), rest)
      ]
