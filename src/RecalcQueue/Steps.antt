-- ===== src/RecalcQueue/Steps.antt =====
-- Every history of the table of app/lib/recalc-queue.server.ts: its statements, in any order and from
-- any number of processes, and what they keep.
use my_meridian.Base.{
  ℕ, ◌≤◌, Bool, true, false, not, ◌&&◌, Option, none, some, [], ◌∷◌, ◌≡◌, refl, sym, ◌∙◌, inl, inr,
  ◌⊎◌, arith, All, Bool-cases, Option-cases, ◌==◌, String, leb,
}
use my_meridian.Base.Keys.{◌=?◌, string_eq}
use my_meridian.RecalcQueue.{
  Job, Jobs, JobStatus, Text, EnqueueRecalcJob, has_key, find_key, new_job, create_job, absorb,
  release_key, lease_job, queued, running, same_id, absorbed, holds_key, without_key, lease_where,
  take_lease, max_attempts,
}
use my_meridian.RecalcWorker.{
  complete_job, fail_job, extend_lease, purge_finished, after_failure, owned, extended, completed,
  expired_receipt,
}
use my_meridian.Base.Table.{
  update_many, count_where, append_row, All-update_many, count_where-update_le,
  count_where-append_row, All-append_row,
}
use mathlib.Core.Path.{subst}
use mathlib.Core.Option.{some-injective, none-ne-some}

-- One statement on the table. The rows that a process read before need not be what they were.
pub data Step : Jobs → Jobs → Type 0 where
  creates :
      {js next : Jobs} (id now : ℕ) (input : EnqueueRecalcJob) (available : ℕ)
      → create_job id now input available js ≡ some next
      → Step js next
  absorbs :
      {js next : Jobs} (existing : Job) (payload : String) (available : ℕ)
      → absorb existing payload available js ≡ some next
      → Step js next
  releases : {js : Jobs} (existing : Job) (k : String) → Step js (release_key existing k js)
  leases :
      {js : Jobs} (candidate : Job) (now token : ℕ) → Step js (lease_job candidate now token js)
  beats : {js : Jobs} (id token now : ℕ) → Step js (extend_lease id token now js)
  completes :
      {js : Jobs} (id token now : ℕ) (result : String)
      → Step js (complete_job id token result now js).1
  fails :
      {js : Jobs} (id token attempt now : ℕ) (message : Text)
      → Step js (fail_job id token attempt message now js).1
  purges : {js : Jobs} (now : ℕ) → Step js (purge_finished now js)

pub data Reachable : Jobs → Type 0 where
  empty : Reachable []
  after : {js next : Jobs} → Reachable js → Step js next → Reachable next

abbrev is_some {ℓ} : {A : Type ℓ} → Option A → Bool
is_some none = false
is_some (some a) = true

-- A running job has a lease and a queued one has none; a finished job has neither lease nor key, and
-- has the time it finished.
abbrev pub consistent_with : JobStatus → Job → Bool
consistent_with queued j = not (is_some j.lease_token) && not (is_some j.lease_expires_at)
consistent_with running j = is_some j.lease_token && is_some j.lease_expires_at
consistent_with _ j =
    not (is_some j.lease_token)
    && not (is_some j.lease_expires_at)
    && not (is_some j.dedupe_key)
    && is_some j.finished_at

abbrev pub consistent : Job → Bool
consistent j = consistent_with j.status j

abbrev pub Consistent : Job → Type 0
Consistent j = consistent j ≡ true

-- The `@unique` of the key column: no key stands in two rows.
abbrev pub KeysUnique : Jobs → Type 0
KeysUnique js = (k : String) → count_where (has_key k) js ≤ 1

find_key-none : (k : String) (js : Jobs) → find_key k js ≡ none → count_where (has_key k) js ≡ 0
unfolding find_key
find_key-none k [] h = refl
find_key-none k (j ∷ js) h = elim (Bool-cases (has_key k j)) [
  | inl t ↦ absurd (none-ne-some j (sym h ∙ rw t refl))
  | inr n ↦ let rest : find_key k js ≡ none = rw n refl ∙ h in rw (n, find_key-none k js rest) refl
]

purge-count_le :
    (q : Job → Bool) (now : ℕ) (js : Jobs)
    → count_where q (purge_finished now js) ≤ count_where q js
unfolding purge_finished
purge-count_le q now [] = omega arith
purge-count_le q now (j ∷ js) =
    let rest = purge-count_le q now js in
    elim (Bool-cases (expired_receipt now j)) [
      | inl t ↦ rw t omega (arith, rest)
      | inr n ↦ rw n omega (arith, rest)
    ]

purge-All {ℓ} : (P : Job → Type ℓ) (now : ℕ) (js : Jobs) → All P js → All P (purge_finished now js)
unfolding purge_finished
purge-All P now [] a = tt
purge-All P now (j ∷ js) (a, rest_a) =
    let rest = purge-All P now js rest_a in
    elim (Bool-cases (expired_receipt now j)) [ inl t ↦ rw t rest | inr n ↦ rw n (a, rest) ]

-- The row that `create` appends has no key, or a key that no row has.
create_job-cases :
    (id now : ℕ) (input : EnqueueRecalcJob) (available : ℕ) (js next : Jobs)
    → create_job id now input available js ≡ some next
    → (next ≡ append_row js (new_job id now input none available))
      ⊎ ((k : String) × (find_key k js ≡ none)
          × (next ≡ append_row js (new_job id now input (some k) available)))
unfolding create_job
create_job-cases id now input available js next h = elim (Option-cases input.job_key) [
  | inl n ↦ inl (some-injective _ _ (sym h ∙ rw n refl))
  | inr (k, s) ↦ elim (Option-cases (find_key k js)) [
    | inl f ↦ inr (k, f, some-injective _ _ (sym h ∙ rw (create_job, s, f) refl))
    | inr (d, f) ↦ elim (Bool-cases (k =? "")) [
      | inl e ↦ absurd (none-ne-some _ (sym (rw (create_job, s, f, e) refl) ∙ h))
      | inr e ↦ inl (some-injective _ _ (sym h ∙ rw (create_job, s, f, e) refl))
    ]
  ]
]

absorb-changes :
    (existing : Job) (payload : String) (available : ℕ) (js next : Jobs)
    → absorb existing payload available js ≡ some next
    → next ≡ update_many (same_id existing) (absorbed existing payload available) js
unfolding absorb
absorb-changes existing payload available js next h =
    elim (Bool-cases (count_where (same_id existing) js == 0)) [
      | inl e ↦ absurd (none-ne-some _ (sym (rw e refl) ∙ h))
      | inr e ↦ some-injective _ _ (sym h ∙ rw e refl)
    ]

fail-key :
    (q : String) (attempt now : ℕ) (message : Text) (j : Job)
    → has_key q j ≡ false
    → has_key q (after_failure attempt message now j) ≡ false
unfolding after_failure
fail-key q attempt now message j h = elim (Bool-cases (leb max_attempts attempt)) [
  | inl e ↦ rw e refl
  | inr e ↦ rw e h
]

create-KeysUnique :
    (id now : ℕ) (input : EnqueueRecalcJob) (available : ℕ) (js next : Jobs)
    → create_job id now input available js ≡ some next
    → KeysUnique js
    → KeysUnique next
create-KeysUnique id now input available js next h u q =
    elim (create_job-cases id now input available js next h) [
      | inl e ↦
          rw e omega (
            arith,
            count_where-append_row (has_key q) js (new_job id now input none available),
            u q,
          )
      | inr (k, f, e) ↦
          let added =
            count_where-append_row (has_key q) js (new_job id now input (some k) available) in
          elim (Bool-cases (q =? k)) [
            | inl t ↦
                let same : q ≡ k = (string_eq.beq_iff q k).0 t in
                let free : count_where (has_key q) js ≡ 0 =
                  subst (λ (s : String). count_where (has_key s) js ≡ 0) (sym same)
                    (find_key-none k js f) in
                rw e omega (arith, rw t at added, free)
            | inr n ↦ rw e omega (arith, rw n at added, u q)
          ]
    ]

le_trans : {a b c : ℕ} → a ≤ b → b ≤ c → a ≤ c
le_trans h k = omega arith

Step-KeysUnique : {js next : Jobs} → Step js next → KeysUnique js → KeysUnique next
unfolding release_key lease_job extend_lease complete_job fail_job
Step-KeysUnique (creates {js} {next} id now input available h) u q =
    create-KeysUnique id now input available js next h u q
Step-KeysUnique (absorbs {js} {next} existing payload available h) u q =
    rw (absorb-changes existing payload available js next h) (
      le_trans
        (count_where-update_le (same_id existing) (absorbed existing payload available) (has_key q)
          js (λ j _ free. free))
        (u q))
Step-KeysUnique (releases {js} existing k) u q =
    le_trans
      (count_where-update_le (holds_key existing k) without_key (has_key q) js (λ j _ _. refl))
      (u q)
Step-KeysUnique (leases {js} candidate now token) u q =
    le_trans
      (count_where-update_le (lease_where candidate now) (take_lease candidate now token)
        (has_key q) js (λ j _ free. free))
      (u q)
Step-KeysUnique (beats {js} id token now) u q =
    le_trans
      (count_where-update_le (owned id token) (extended now) (has_key q) js (λ j _ free. free))
      (u q)
Step-KeysUnique (completes {js} id token now result) u q =
    le_trans
      (count_where-update_le (owned id token) (completed result now) (has_key q) js (λ j _ _. refl))
      (u q)
Step-KeysUnique (fails {js} id token attempt now message) u q =
    le_trans
      (count_where-update_le (owned id token) (after_failure attempt message now) (has_key q) js
        (λ j _ free. fail-key q attempt now message j free))
      (u q)
Step-KeysUnique (purges {js} now) u q = le_trans (purge-count_le (has_key q) now js) (u q)

-- The unique index holds in every history: whatever order the statements of any number of processes
-- come in, an enqueue that found the key free, lost a race for it or handed it over leaves no key in
-- two rows.
pub reachable-KeysUnique : {js : Jobs} → Reachable js → KeysUnique js
reachable-KeysUnique empty q = omega arith
reachable-KeysUnique (after r s) q = Step-KeysUnique s (reachable-KeysUnique r) q

same_status-Consistent :
    (j : Job) (payload : String) (at : ℕ)
    → Consistent j
    → Consistent (record j { payload = payload; available_at = at })
same_status-Consistent j payload at h = ground arith

no_key-Consistent : (j : Job) → Consistent j → Consistent (record j { dedupe_key = none })
no_key-Consistent j h = ground arith

beat-Consistent :
    (id token at : ℕ) (j : Job)
    → owned id token j ≡ true
    → Consistent j
    → Consistent (record j { lease_expires_at = some at })
beat-Consistent id token at j own h = ground arith

fail-Consistent :
    (attempt now : ℕ) (message : Text) (j : Job) → Consistent (after_failure attempt message now j)
unfolding after_failure
fail-Consistent attempt now message j = elim (Bool-cases (leb max_attempts attempt)) [
  | inl e ↦ rw e refl
  | inr e ↦ rw e refl
]

Step-Consistent : {js next : Jobs} → Step js next → All Consistent js → All Consistent next
unfolding release_key lease_job extend_lease complete_job fail_job
Step-Consistent (creates {js} {next} id now input available h) a =
    elim (create_job-cases id now input available js next h) [
      | inl e ↦ rw e (All-append_row Consistent js (new_job id now input none available) a refl)
      | inr (k, f, e) ↦
          rw e (All-append_row Consistent js (new_job id now input (some k) available) a refl)
    ]
Step-Consistent (absorbs {js} {next} existing payload available h) a =
    rw (absorb-changes existing payload available js next h) (
      All-update_many (same_id existing) (absorbed existing payload available) Consistent js
        (λ j _ c. same_status-Consistent j payload _ c) a)
Step-Consistent (releases {js} existing k) a =
    All-update_many (holds_key existing k) without_key Consistent js
      (λ j _ c. no_key-Consistent j c) a
Step-Consistent (leases {js} candidate now token) a =
    All-update_many (lease_where candidate now) (take_lease candidate now token) Consistent js
      (λ j _ _. refl) a
Step-Consistent (beats {js} id token now) a =
    All-update_many (owned id token) (extended now) Consistent js
      (λ j own c. beat-Consistent id token _ j own c) a
Step-Consistent (completes {js} id token now result) a =
    All-update_many (owned id token) (completed result now) Consistent js (λ j _ _. refl) a
Step-Consistent (fails {js} id token attempt now message) a =
    All-update_many (owned id token) (after_failure attempt message now) Consistent js
      (λ j _ _. fail-Consistent attempt now message j) a
Step-Consistent (purges {js} now) a = purge-All Consistent now js a

-- In every history, a job is running exactly while it has a lease with an expiry, a queued job has
-- none, and a finished job has given up its lease and its key and has the time it finished.
pub reachable-Consistent : {js : Jobs} → Reachable js → All Consistent js
reachable-Consistent empty = tt
reachable-Consistent (after r s) = Step-Consistent s (reachable-Consistent r)
