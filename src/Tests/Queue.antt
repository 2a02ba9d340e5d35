-- ===== src/Tests/Queue.antt =====
-- app/lib/recalc-queue.server.ts at concrete inputs.
use my_meridian.Base.{
  ℕ, false, Option, none, some, [], ◌∷◌, ◌≡◌, ◌≢◌, ◌≤◌, ◌<◌, ◌+◌, ◌-◌, ◌*◌, ◌^◌, min, refl, sym,
  true-ne-false, arith, All, String,
}
use mathlib.Core.Option.{some-injective}
use my_meridian.Base.Keys.{string_eq}
use my_meridian.Base.Table.{count_where}
use my_meridian.RecalcQueue.{
  Job, Jobs, EnqueueRecalcJob, cost_restatement, running, failed, find_key, enqueue_recalc_job,
  lease_job, find_due, new_job, create_job,
}
use my_meridian.RecalcWorker.{
  retry_delay_ms, after_failure, complete_job, fail_job, extend_lease, drain, done, Handlers,
}
use my_meridian.RecalcQueue.Leases.{IdsUnique}
use my_meridian.RecalcQueue.Fencing.{leased_job_is_not_found, former_holder_is_fenced}
use my_meridian.RecalcQueue.Steps.{
  Reachable, empty, after, creates, leases, reachable-Consistent, Consistent,
}
use my_meridian.RecalcQueue.Enqueue.{waits_with, enqueue_leaves_work}
use my_meridian.RecalcQueue.Retry.{failed_job_waits}

abbrev request : EnqueueRecalcJob
request = record {
  for_shop = "shop";
  job_kind = cost_restatement;
  job_payload = "costs";
  job_key = some "restate";
  eligible_at = none;
}

abbrev first_job : Job
first_job = new_job 1 1_000 request (some "restate") 1_000

abbrev second_job : Job
second_job = new_job 2 2_000 request none 500

abbrev two_jobs : Jobs
two_jobs = first_job ∷ second_job ∷ []

abbrev after_lease : Jobs
after_lease = lease_job second_job 3_000 7 two_jobs

find_due-second : find_due 3_000 two_jobs ≡ some second_job
unfolding find_due
find_due-second = refl

leased_job_is_not_due : find_due 4_000 after_lease ≡ some first_job
unfolding find_due lease_job
leased_job_is_not_due = refl

-- A second request with the key of a queued job is folded into it.
enqueue-folds : enqueue_recalc_job 3 4_000 request (λ _ t. t) two_jobs ≡ some two_jobs
unfolding enqueue_recalc_job
enqueue-folds = refl

-- A lease between the two statements of an enqueue: the payload is folded into the job that another
-- worker has just started, and nothing is queued.
abbrev newer : EnqueueRecalcJob
newer = record request { job_payload = "newer costs" }

enqueue-into_running :
    enqueue_recalc_job 3 4_000 newer (λ _ t. lease_job first_job 3_500 9 t) (first_job ∷ [])
    ≡ some (
        record first_job {
          payload = "newer costs";
          status = running;
          attempts = 1;
          lease_token = some 9;
          lease_expires_at = some 303_500;
          started_at = some 3_500;
        }
        ∷ [])
unfolding enqueue_recalc_job lease_job
enqueue-into_running = refl

two-ne-one : ◌≢◌ {A = ℕ} 2 1
two-ne-one e = absurd (omega (arith, e))

two_jobs-IdsUnique : IdsUnique two_jobs
two_jobs-IdsUnique = ((two-ne-one, tt), (tt, tt))

eight-ne-seven : ◌≢◌ {A = ℕ} 7 8
eight-ne-seven e = absurd (omega (arith, e))

leased_job_is_not_found_example : ◌≢◌ {A = ℕ} 1 2
leased_job_is_not_found_example =
    leased_job_is_not_found 3_000 7 4_000 two_jobs second_job first_job two_jobs-IdsUnique
      find_due-second (omega arith) leased_job_is_not_due

former_holder_is_fenced_example :
    (complete_job 2 8 "{}" 5_000 after_lease ≡ (false, after_lease))
    × (fail_job 2 8 1 [] 5_000 after_lease ≡ (false, after_lease))
    × (extend_lease 2 8 5_000 after_lease ≡ after_lease)
former_holder_is_fenced_example =
    former_holder_is_fenced 3_000 7 8 two_jobs second_job 1 5_000 "{}" [] two_jobs-IdsUnique
      find_due-second eight-ne-seven

one_job-created : create_job 1 1_000 request 1_000 [] ≡ some (first_job ∷ [])
unfolding create_job find_key
one_job-created = refl

one_job-Reachable : Reachable (first_job ∷ [])
one_job-Reachable = after empty (creates 1 1_000 request 1_000 one_job-created)

leased-Reachable : Reachable (lease_job first_job 2_000 7 (first_job ∷ []))
leased-Reachable = after one_job-Reachable (leases first_job 2_000 7)

reachable-Consistent_example : All Consistent (lease_job first_job 2_000 7 (first_job ∷ []))
reachable-Consistent_example = reachable-Consistent leased-Reachable

restate-named : ◌≢◌ {A = Option String} (some "restate") (some "")
restate-named e =
    absurd (true-ne-false (sym ((string_eq.beq_iff "restate" "").1 (some-injective _ _ e))))

enqueue_leaves_work_example :
    (next : Jobs) × (enqueue_recalc_job 3 4_000 newer (λ _ t. t) two_jobs ≡ some next)
    × (1 ≤ count_where (waits_with "newer costs") next)
enqueue_leaves_work_example = enqueue_leaves_work 3 4_000 newer two_jobs restate-named

abbrev handlers : Handlers
handlers _ = some (λ _. done "{}")

-- A sweep runs the one job that is due; a row whose lease another has taken meanwhile it leaves alone.
drain-runs :
    (drain 4 handlers []
      (λ n. n)
      (λ _. 5_000)
      (λ _. 6_000)
      (λ _ t. t)
      (λ _ t. t)
      (first_job ∷ [])).0
    ≡ 1
unfolding drain
drain-runs = refl

abbrev steal : Jobs → Jobs
steal js = lease_job first_job 400_000 99 js

drain-too_late :
    (drain 1 handlers []
      (λ n. n)
      (λ _. 5_000)
      (λ _. 500_000)
      (λ _ t. t)
      (λ _ t. steal t)
      (first_job ∷ [])).1
    ≡ lease_job first_job 400_000 99 (lease_job first_job 5_000 0 (first_job ∷ []))
unfolding drain lease_job
drain-too_late = refl

retry-three : retry_delay_ms 3 ≡ 40_000
unfolding retry_delay_ms
retry-three = refl

-- The second job alone, leased, failed at 4,000, and found again at 14,000.
abbrev alone : Jobs
alone = lease_job second_job 3_000 7 (second_job ∷ [])

abbrev taken : Job
taken = record second_job {
  status = running;
  attempts = 1;
  started_at = some 3_000;
  lease_token = some 7;
  lease_expires_at = some 303_000;
}

second_job-held : All (λ (j : Job). j.id ≡ 2 → j.lease_token ≡ some 7) alone
unfolding lease_job
second_job-held = ((λ _. refl), tt)

found_again :
    find_due 30_000 (fail_job 2 7 1 [] 4_000 alone).1 ≡ some (after_failure 1 [] 4_000 taken)
unfolding find_due fail_job lease_job
found_again = refl

requeued-id : (after_failure 1 [] 4_000 taken).id ≡ 2
unfolding after_failure
requeued-id = refl

failed_job_waits_example : (1 < 6) × (4_000 + min 900_000 (10_000 * 2 ^ min 10 (1 - 1)) ≤ 30_000)
failed_job_waits_example =
    failed_job_waits 2 7 1 4_000 30_000 [] alone (after_failure 1 [] 4_000 taken) second_job-held
      found_again requeued-id

abbrev receipt : Job
receipt = record first_job { status = failed; dedupe_key = none; finished_at = some 2_000 }
