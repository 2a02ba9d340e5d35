-- ===== src/RecalcQueue.antt =====
-- app/lib/recalc-queue.server.ts: the durable queue of recalculation jobs, as a table whose rows the
-- database statements of the file change (the row is `RecalcJob` of prisma/schema.prisma). Times are
-- milliseconds; ids and lease tokens are compared only. A statement is atomic; what other processes
-- do between two statements of one function is an argument.
pub mod Leases
pub mod Eligible
pub mod Fencing
pub mod Drain
pub mod Steps
pub mod Enqueue
pub mod Retry
use my_meridian.Base.{
  ℕ, zero, suc, ◌+◌, ◌-◌, ◌*◌, ◌^◌, min, Bool, true, false, not, ◌&&◌, ◌||◌, Option, none, some,
  List, [], ◌∷◌, ltb, leb, ◌==◌, if◌then◌else◌, String, or_else, take,
}
use my_meridian.Base.Table.{update_many, count_where, append_row}
use my_meridian.Base.Keys.{◌=?◌, string_eq}

pub data JobKind : Type 0 where
  cost_restatement bundle_rollup bundle_detection : JobKind

pub data JobStatus : Type 0 where
  queued running complete failed : JobStatus

-- A message, by its UTF-16 code units.
abbrev pub Text : Type 0
Text = List ℕ

pub record Job : Type 0 where
  pub id : ℕ
  pub shop_id : String
  pub kind : JobKind
  pub status : JobStatus
  pub dedupe_key : Option String
  pub payload : String
  pub result : Option String
  pub attempts : ℕ
  pub available_at : ℕ
  pub lease_token : Option ℕ
  pub lease_expires_at : Option ℕ
  pub started_at : Option ℕ
  pub finished_at : Option ℕ
  pub error : Option Text
  pub created_at : ℕ

abbrev pub Jobs : Type 0
Jobs = List Job

abbrev pub lease_ms : ℕ
lease_ms = 5 * 60 * 1000

abbrev pub batch_size : ℕ
batch_size = 4

abbrev pub max_attempts : ℕ
max_attempts = 6

abbrev pub max_error_length : ℕ
max_error_length = 2000

abbrev pub retention_ms : ℕ
retention_ms = 30 * 24 * 60 * 60 * 1000

abbrev pub has_key : String → Job → Bool
has_key k j = elim j.dedupe_key [ none ↦ false | some k' ↦ k =? k' ]

-- `findUnique({ where: { dedupeKey } })`
unfoldable pub find_key : String → Jobs → Option Job
find_key k [] = none
find_key k (j ∷ js) = if has_key k j then some j else find_key k js

pub record EnqueueRecalcJob : Type 0 where
  pub for_shop : String
  pub job_kind : JobKind
  pub job_payload : String
  pub job_key : Option String
  pub eligible_at : Option ℕ

-- The row that `create` inserts, at the end of the table.
abbrev pub new_job : ℕ → ℕ → EnqueueRecalcJob → Option String → ℕ → Job
new_job id now input key available = record {
  id = id;
  shop_id = input.for_shop;
  kind = input.job_kind;
  status = queued;
  dedupe_key = key;
  payload = input.job_payload;
  result = none;
  attempts = 0;
  available_at = available;
  lease_token = none;
  lease_expires_at = none;
  started_at = none;
  finished_at = none;
  error = none;
  created_at = now;
}

-- `create`, and on a collision of the unique key (`P2002`) once more with no key; an empty key that
-- collides throws, which is `none`.
unfoldable pub create_job : ℕ → ℕ → EnqueueRecalcJob → ℕ → Jobs → Option Jobs
unfolding find_key
create_job id now input available js = elim input.job_key [
  | none ↦ some (append_row js (new_job id now input none available))
  | some k ↦ elim (find_key k js) [
    | none ↦ some (append_row js (new_job id now input (some k) available))
    | some _ ↦ if k =? "" then none else some (append_row js (new_job id now input none available))
  ]
]

abbrev pub is_queued : JobStatus → Bool
is_queued queued = true
is_queued _ = false

abbrev pub earlier : ℕ → ℕ → ℕ
earlier a b = if ltb a b then a else b

abbrev pub same_id : Job → Job → Bool
same_id existing j = j.id == existing.id

abbrev pub absorbed : Job → String → ℕ → Job → Job
absorbed existing payload available j = record j {
  payload = payload;
  available_at = earlier existing.available_at available;
}

-- `update({ where: { id } })` of a queued duplicate: the payload is replaced, and the earlier
-- eligibility of the row that was read is kept; with no such row it throws.
unfoldable pub absorb : Job → String → ℕ → Jobs → Option Jobs
absorb existing payload available js =
    if count_where (same_id existing) js == 0
    then none
    else some (update_many (same_id existing) (absorbed existing payload available) js)

abbrev pub without_key : Job → Job
without_key j = record j { dedupe_key = none }

abbrev pub holds_key : Job → String → Job → Bool
holds_key existing k j = same_id existing j && has_key k j

-- The key is handed over: `updateMany({ where: { id, dedupeKey } })`.
unfoldable pub release_key : Job → String → Jobs → Jobs
release_key existing k = update_many (holds_key existing k) without_key

-- `enqueueRecalcJob` after its first read, which found `existing`; `meanwhile` is what others do to
-- the table before the next statement of this function and, at 1, before the one after it.
unfoldable pub enqueue_found :
    Option Job → String → ℕ → ℕ → EnqueueRecalcJob → ℕ → (ℕ → Jobs → Jobs) → Jobs → Option Jobs
unfolding absorb release_key create_job
enqueue_found none k id now input available meanwhile js =
    create_job id now input available (meanwhile 0 js)
enqueue_found (some existing) k id now input available meanwhile js =
    if is_queued existing.status
    then absorb existing input.job_payload available (meanwhile 0 js)
    else create_job id now input available (meanwhile 1 (release_key existing k (meanwhile 0 js)))

-- `enqueueRecalcJob`: the table after it, or `none` where it throws.
unfoldable pub enqueue_recalc_job :
    ℕ → ℕ → EnqueueRecalcJob → (ℕ → Jobs → Jobs) → Jobs → Option Jobs
unfolding enqueue_found create_job find_key
enqueue_recalc_job id now input meanwhile js =
    let available = or_else input.eligible_at now in
    elim input.job_key [
      | none ↦ create_job id now input available (meanwhile 0 js)
      | some k ↦ elim (k =? "") [
        | true ↦ create_job id now input available (meanwhile 0 js)
        | false ↦ enqueue_found (find_key k js) k id now input available meanwhile js
      ]
    ]

abbrev pub unfinished : JobStatus → Bool
unfinished queued = true
unfinished running = true
unfinished _ = false

-- The `where` of both statements of `leaseNextRecalcJob`.
unfoldable pub due : ℕ → Job → Bool
due now j =
    unfinished j.status
    && leb j.available_at now
    && elim j.lease_expires_at [ none ↦ true | some e ↦ leb e now ]

-- `orderBy: [{ availableAt }, { createdAt }]`; the earlier row stays on a tie.
abbrev pub sooner : Job → Job → Bool
sooner a b =
    ltb a.available_at b.available_at
    || (a.available_at == b.available_at && leb a.created_at b.created_at)

abbrev pub first_of_two : Job → Option Job → Job
first_of_two j none = j
first_of_two j (some k) = if sooner j k then j else k

-- `findFirst`
unfoldable pub find_due : ℕ → Jobs → Option Job
unfolding due
find_due now [] = none
find_due now (j ∷ js) =
    if due now j then some (first_of_two j (find_due now js)) else find_due now js

abbrev pub take_lease : Job → ℕ → ℕ → Job → Job
take_lease candidate now token j = record j {
  status = running;
  attempts = j.attempts + 1;
  started_at = some (or_else candidate.started_at now);
  lease_token = some token;
  lease_expires_at = some (now + lease_ms);
}

abbrev pub lease_where : Job → ℕ → Job → Bool
lease_where candidate now j = j.id == candidate.id && due now j

-- The write that takes the lease of the candidate read before.
unfoldable pub lease_job : Job → ℕ → ℕ → Jobs → Jobs
unfolding due
lease_job candidate now token =
    update_many (lease_where candidate now) (take_lease candidate now token)

pub record LeasedJob : Type 0 where
  pub job : Job
  pub token : ℕ
  pub attempt : ℕ

-- `leaseNextRecalcJob`: up to `rounds` tries; in each, `interfere` is what others do to the table
-- between the read and the write.
unfoldable pub lease_next : ℕ → ℕ → ℕ → (ℕ → Jobs → Jobs) → Jobs → Option LeasedJob × Jobs
unfolding find_due lease_job
lease_next zero now token interfere js = (none, js)
lease_next (suc rounds) now token interfere js =
    let again = λ (seen : Jobs). lease_next rounds now token interfere seen in
    elim (find_due now js) [
      | none ↦ (none, js)
      | some candidate ↦
          let seen = interfere rounds js in
          elim (count_where (lease_where candidate now) seen == 1) [
            | true ↦ (
              some (record {
                job = record candidate { status = running };
                token = token;
                attempt = candidate.attempts + 1;
              }),
              lease_job candidate now token seen,
            )
            | false ↦ again seen
          ]
    ]
