-- ===== src/RecalcQueue/Retry.antt =====
-- Failure, retry and retention in app/lib/recalc-queue.server.ts.
use my_meridian.Base.{
  ℕ, suc, ◌+◌, ◌-◌, ◌*◌, ◌^◌, ◌≤◌, ◌<◌, min, Bool, false, ◌&&◌, Option, none, [], ◌∷◌, ◌≡◌, refl,
  sym, ◌∙◌, ap, inl, inr, arith, All, Bool-cases, ◌==◌, leb, leb→le, true-ne-false, zero, length,
  true, some, ==_iff, All-imp,
}
use native.Mathlib.Omega.{pow_step}
use my_meridian.Base.Table.{count_where}
use my_meridian.RecalcQueue.{Job, Jobs, Text, max_attempts, queued, failed, due, find_due}
use my_meridian.RecalcQueue.Leases.{find_due-All}
use my_meridian.RecalcWorker.{
  retry_delay_ms, after_failure, fail_job, owned, purge_finished, expired_receipt,
}

==-refl : (n : ℕ) → (n == n) ≡ true
==-refl n = (==_iff n n).1 refl

shift : (k : ℕ) → suc k + 7 ≡ suc (k + 7)
shift k = omega arith

big_pow : (k : ℕ) → 128 ≤ 2 ^ (k + 7)
big_pow zero = omega arith
big_pow (suc k) =
    let e : 2 ^ (suc k + 7) ≡ 2 * 2 ^ (k + 7) =
      ap (λ (n : ℕ). 2 ^ n) (shift k) ∙ pow_step 2 (k + 7) in
    omega (arith, big_pow k, e)

capped : (n : ℕ) → 900_000 ≤ 10_000 * 2 ^ min 10 (7 + n)
capped n =
    let e : min 10 (7 + n) ≡ min 3 n + 7 = omega arith in rw e (omega (arith, big_pow (min 3 n)))

-- From the first attempt on, a retry waits at least ten seconds and at most fifteen minutes, and the
-- next attempt waits twice as long until the cap is met.
pub retry_delay_lem :
    (attempt : ℕ)
    → 1 ≤ attempt
    → (10_000 ≤ retry_delay_ms attempt)
      × (retry_delay_ms attempt ≤ 900_000)
      × (retry_delay_ms (suc attempt) ≡ min 900_000 (2 * retry_delay_ms attempt))
unfolding retry_delay_ms
retry_delay_lem zero h = absurd (omega (arith, h))
retry_delay_lem (suc zero) h = (omega arith, omega arith, refl)
retry_delay_lem (suc (suc zero)) h = (omega arith, omega arith, refl)
retry_delay_lem (suc (suc (suc zero))) h = (omega arith, omega arith, refl)
retry_delay_lem (suc (suc (suc (suc zero)))) h = (omega arith, omega arith, refl)
retry_delay_lem (suc (suc (suc (suc (suc zero))))) h = (omega arith, omega arith, refl)
retry_delay_lem (suc (suc (suc (suc (suc (suc zero)))))) h = (omega arith, omega arith, refl)
retry_delay_lem (suc (suc (suc (suc (suc (suc (suc zero))))))) h = (omega arith, omega arith, refl)
retry_delay_lem (suc (suc (suc (suc (suc (suc (suc (suc n)))))))) h =
    let top = capped n in
    let top_next = capped (suc n) in
    let here : suc (suc (suc (suc (suc (suc (suc (suc n))))))) - 1 ≡ 7 + n = omega arith in
    let next : suc (suc (suc (suc (suc (suc (suc (suc (suc n)))))))) - 1 ≡ 7 + suc n =
      omega arith in
    (
      rw here omega (arith, top),
      rw here omega (arith, top),
      rw (next, here) omega (arith, top, top_next),
    )

queued_later :
    (j : Job) (at later : ℕ) (message : Option Text)
    → later < at
    → due later (record j {
      status = queued;
      error = message;
      available_at = at;
      lease_token = none;
      lease_expires_at = none;
    })
      ≡ false
unfolding due
queued_later j at later message h = ground arith

never_due : (later : ℕ) (j : Job) → j.status ≡ failed → due later j ≡ false
unfolding due
never_due later j h = rw h refl

-- How long the attempt that failed puts its job off.
abbrev pub put_off : ℕ → ℕ
put_off attempt = min 900_000 (10_000 * 2 ^ min 10 (attempt - 1))

below : (n k : ℕ) → leb n k ≡ false → k < n
below n k h = ground arith

-- A row of this id that is found later has waited out its delay, and its attempt was not the last.
abbrev Waited : ℕ → ℕ → ℕ → ℕ → Job → Type 0
Waited id attempt now later j =
    j.id ≡ id → due later j ≡ true → (attempt < 6) × (now + put_off attempt ≤ later)

abbrev Mine : ℕ → ℕ → Job → Type 0
Mine id token j = j.id ≡ id → j.lease_token ≡ some token

module _ (id token attempt now later : ℕ) (message : Text) where
  after_failure-Waited :
      (j : Job) → Waited id attempt now later (after_failure attempt message now j)
  unfolding after_failure retry_delay_ms
  after_failure-Waited j same = elim (Bool-cases (leb max_attempts attempt)) [
    | inl last ↦ rw last (λ d. absurd (true-ne-false (sym d ∙ never_due later _ refl)))
    | inr more ↦ rw more (λ d. (
      below 6 attempt more,
      elim (Bool-cases (leb (now + retry_delay_ms attempt) later)) [
        | inl waited ↦ leb→le _ _ waited
        | inr early ↦
            absurd (true-ne-false (sym d ∙ queued_later j _ later _ (below _ later early)))
      ],
    ))
  ]

  failed-Waited :
      (js : Jobs)
      → All (Mine id token) js
      → All (Waited id attempt now later) (fail_job id token attempt message now js).1
  unfolding fail_job
  failed-Waited [] h = tt
  failed-Waited (j ∷ js) (mine, h) = elim (Bool-cases (j.id == id)) [
    | inl same ↦
        let held : owned id token j ≡ true =
          rw (same, mine ((==_iff _ _).0 same)) (==-refl token) in
        rw held (after_failure-Waited j, failed-Waited js h)
    | inr other ↦
        rw other
          ((λ same. absurd (true-ne-false (sym ((==_iff _ _).1 same) ∙ other))), failed-Waited js h)
  ]

  -- If the rows with the job's id are under the worker's lease, the job that it fails is not found by
  -- the read of a lease again before ten seconds, doubled with each attempt after the first and at
  -- most fifteen minutes, have passed from the failure, and after the sixth attempt not at all.
  pub failed_job_waits :
      (js : Jobs) (c : Job)
      → All (λ (j : Job). j.id ≡ id → j.lease_token ≡ some token) js
      → find_due later (fail_job id token attempt message now js).1 ≡ some c
      → c.id ≡ id
      → (attempt < 6) × (now + min 900_000 (10_000 * 2 ^ min 10 (attempt - 1)) ≤ later)
  failed_job_waits js c mine found same =
      find_due-All later (λ (j : Job). j.id ≡ id → (attempt < 6) × (now + put_off attempt ≤ later))
        (fail_job id token attempt message now js).1 c found
        (All-imp (Waited id attempt now later)
          (λ (j : Job).
            due later j ≡ true → j.id ≡ id → (attempt < 6) × (now + put_off attempt ≤ later))
          (fail_job id token attempt message now js).1 (λ j w d e. w e d) (failed-Waited js mine))
        same

purge-length :
    (now : ℕ) (js : Jobs)
    → length (purge_finished now js) + count_where (expired_receipt now) js ≡ length js
unfolding purge_finished
purge-length now [] = refl
purge-length now (j ∷ js) =
    let rest = purge-length now js in
    elim (Bool-cases (expired_receipt now j)) [
      | inl t ↦ rw t omega (arith, rest)
      | inr n ↦ rw n omega (arith, rest)
    ]

purge-none_left :
    (now : ℕ) (js : Jobs) → count_where (expired_receipt now) (purge_finished now js) ≡ 0
unfolding purge_finished
purge-none_left now [] = refl
purge-none_left now (j ∷ js) =
    let rest = purge-none_left now js in
    elim (Bool-cases (expired_receipt now j)) [
      | inl t ↦ rw t rest
      | inr n ↦ rw (n, n) omega (arith, rest)
    ]

purge-kept :
    (now : ℕ) (keep : Job → Bool) (js : Jobs)
    → All (λ (j : Job). (keep j && expired_receipt now j) ≡ false) js
    → count_where keep (purge_finished now js) ≡ count_where keep js
unfolding purge_finished
purge-kept now keep [] h = refl
purge-kept now keep (j ∷ js) (h, hs) =
    let rest = purge-kept now keep js hs in
    elim (Bool-cases (expired_receipt now j)) [
      | inl t ↦ elim (Bool-cases (keep j)) [
        | inl y ↦ absurd (true-ne-false (sym (rw (y, t) refl) ∙ h))
        | inr z ↦ rw (t, z) omega (arith, rest)
      ]
      | inr n ↦ rw (n, rest) refl
    ]

-- The sweep deletes exactly the receipts past retention: as many rows go as there are such receipts,
-- none of them stays, and of any rows that are none of them, unfinished work among them, all stay.
pub purge_lem :
    (now : ℕ) (keep : Job → Bool) (js : Jobs)
    → All (λ (j : Job). (keep j && expired_receipt now j) ≡ false) js
    → (length (purge_finished now js) + count_where (expired_receipt now) js ≡ length js)
      × (count_where (expired_receipt now) (purge_finished now js) ≡ 0)
      × (count_where keep (purge_finished now js) ≡ count_where keep js)
purge_lem now keep js h = (purge-length now js, purge-none_left now js, purge-kept now keep js h)
