-- ===== src/RecalcWorker.antt =====
-- app/lib/recalc-queue.server.ts, the worker's side: how a leased job ends, and the sweep that runs jobs.
use my_meridian.Base.{
  ℕ, zero, suc, ◌+◌, ◌-◌, ◌*◌, ◌^◌, min, Bool, false, not, ◌&&◌, Option, none, some, [], ◌∷◌, leb,
  ◌==◌, if◌then◌else◌, String, take,
}
use my_meridian.Base.Table.{update_many, count_where}
use my_meridian.Base.Keys.{string_eq}
use my_meridian.RecalcQueue.{
  Job, JobKind, Jobs, LeasedJob, Text, complete, failed, lease_ms, lease_next, max_attempts,
  max_error_length, queued, retention_ms, unfinished,
}

abbrev pub owned : ℕ → ℕ → Job → Bool
owned id token j = j.id == id && elim j.lease_token [ none ↦ false | some t ↦ t == token ]

abbrev pub extended : ℕ → Job → Job
extended now j = record j { lease_expires_at = some (now + lease_ms) }

-- The beat of `startRecalcHeartbeat`.
unfoldable pub extend_lease : ℕ → ℕ → ℕ → Jobs → Jobs
extend_lease id token now = update_many (owned id token) (extended now)

abbrev pub completed : String → ℕ → Job → Job
completed result now j = record j {
  status = complete;
  result = some result;
  dedupe_key = none;
  error = none;
  finished_at = some now;
  lease_token = none;
  lease_expires_at = none;
}

-- `completeRecalcJob`: the table and whether one row was updated.
unfoldable pub complete_job : ℕ → ℕ → String → ℕ → Jobs → Bool × Jobs
complete_job id token result now js =
    (count_where (owned id token) js == 1, update_many (owned id token) (completed result now) js)

-- `recalcRetryDelayMs`, of an attempt from 1 on.
unfoldable pub retry_delay_ms : ℕ → ℕ
retry_delay_ms attempt = min (15 * 60 * 1000) (10_000 * 2 ^ min 10 (attempt - 1))

-- How `failRecalcJob` leaves the row.
unfoldable pub after_failure : ℕ → Text → ℕ → Job → Job
unfolding retry_delay_ms
after_failure attempt message now j =
    if leb max_attempts attempt
    then record j {
      status = failed;
      error = some (take max_error_length message);
      dedupe_key = none;
      finished_at = some now;
      lease_token = none;
      lease_expires_at = none;
    }
    else record j {
      status = queued;
      error = some (take max_error_length message);
      available_at = now + retry_delay_ms attempt;
      lease_token = none;
      lease_expires_at = none;
    }

-- `failRecalcJob`
unfoldable pub fail_job : ℕ → ℕ → ℕ → Text → ℕ → Jobs → Bool × Jobs
unfolding after_failure
fail_job id token attempt message now js = (
  count_where (owned id token) js == 1,
  update_many (owned id token) (after_failure attempt message now) js,
)

abbrev pub expired_receipt : ℕ → Job → Bool
expired_receipt now j =
    not (unfinished j.status)
    && elim j.finished_at [ none ↦ false | some f ↦ leb (f + retention_ms) now ]

-- `purgeFinishedRecalcJobs`, for a clock past the retention period.
unfoldable pub purge_finished : ℕ → Jobs → Jobs
purge_finished now [] = []
purge_finished now (j ∷ js) =
    if expired_receipt now j then purge_finished now js else j ∷ purge_finished now js

-- What a job's handler did: its result, or the message of what it threw. A kind with no handler
-- throws too.
pub data Outcome : Type 0 where
  done : String → Outcome
  threw : Text → Outcome

abbrev pub Handlers : Type 0
Handlers = JobKind → Option (Job → Outcome)

abbrev pub handle : Handlers → Text → Job → Outcome
handle handlers no_handler j = elim (handlers j.kind) [ none ↦ threw no_handler | some h ↦ h j ]

-- `runRecalcJob` from the moment that its handler has ended, at `now`.
unfoldable pub run_job : Handlers → Text → LeasedJob → ℕ → Jobs → Jobs
unfolding complete_job fail_job
run_job handlers no_handler leased now js = elim (handle handlers no_handler leased.job) [
  | done result ↦ (complete_job leased.job.id leased.token result now js).1
  | threw message ↦ (fail_job leased.job.id leased.token leased.attempt message now js).1
]

-- `drainRecalcQueue`: the number processed. Each round has a token, the clock when it leases and when
-- its handler has ended, what others do between the read and the write of the lease, and what they do
-- to the table, the heartbeat of this job included, while the handler runs.
unfoldable pub drain :
    ℕ
    → Handlers
    → Text
    → (ℕ → ℕ)
    → (ℕ → ℕ)
    → (ℕ → ℕ)
    → (ℕ → Jobs → Jobs)
    → (ℕ → Jobs → Jobs)
    → Jobs
    → ℕ × Jobs
unfolding lease_next run_job
drain zero handlers no_handler tokens clock ends interfere meanwhile js = (0, js)
drain (suc left) handlers no_handler tokens clock ends interfere meanwhile js =
    let go =
      λ (seen : Jobs). drain left handlers no_handler tokens clock ends interfere meanwhile seen in
    let (leased, seen) = lease_next 8 (clock left) (tokens left) interfere js in
    elim leased [
      | none ↦ (0, seen)
      | some l ↦
          let (n, last) = go (run_job handlers no_handler l (ends left) (meanwhile left seen)) in
          (suc n, last)
    ]
