-- ===== src/RecalcQueue/Fencing.antt =====
-- Fencing in app/lib/recalc-queue.server.ts: whom a lease shuts out of its row until it expires.
use my_meridian.Base.{
  ℕ, ◌+◌, ◌<◌, Bool, true, false, some, [], ◌∷◌, ◌≡◌, ◌≢◌, refl, sym, ◌∙◌, inl, inr, arith, All,
  All-imp, Bool-cases, true-ne-false, ◌==◌, ==_iff, String,
}
use my_meridian.RecalcQueue.{Job, Jobs, Text, due, find_due, lease_job, take_lease, lease_ms}
use my_meridian.RecalcWorker.{owned, complete_job, fail_job, extend_lease}
use my_meridian.Base.Table.{update_many, count_where, update_many-no_row}
use my_meridian.RecalcQueue.Leases.{IdsUnique, find_due-All, only_candidate}

no_match {ℓ} : {P : Type ℓ} {a b : ℕ} → a ≡ b → (a == b) ≡ false → P
no_match e n = absurd (ground arith)

module _ (now token : ℕ) where
  lease_job-All :
      (P : Job → Type 0) (js : Jobs) (c : Job)
      → ((j : Job) → j.id ≡ c.id → P (take_lease c now token j))
      → All (λ (j : Job). (j.id ≡ c.id → due now j ≡ true) × (j.id ≢ c.id → P j)) js
      → All P (lease_job c now token js)
  unfolding lease_job due
  lease_job-All P [] c new a = tt
  lease_job-All P (j ∷ js) c new ((is_due, old), a) =
      let rest = lease_job-All P js c new a in
      elim (Bool-cases (j.id == c.id)) [
        | inl e ↦ let same = (==_iff j.id c.id).0 e in (rw (e, is_due same) (new j same), rest)
        | inr n ↦ (rw n (old λ same. no_match same n), rest)
      ]

  -- What a lease of the found candidate makes of every row.
  leased-All :
      (P : Job → Type 0) (js : Jobs) (c : Job)
      → IdsUnique js
      → find_due now js ≡ some c
      → ((j : Job) → j.id ≡ c.id → P (take_lease c now token j))
      → ((j : Job) → j.id ≢ c.id → P j)
      → All P (lease_job c now token js)
  leased-All P js c u h new old = lease_job-All P js c new (
      All-imp (λ (j : Job). j.id ≡ c.id → due now j ≡ true)
        (λ (j : Job). (j.id ≡ c.id → due now j ≡ true) × (j.id ≢ c.id → P j)) js (λ j d. (d, old j))
        (only_candidate now js c u h))

taken_until :
    (c j : Job) (now token later : ℕ)
    → later < now + lease_ms
    → due later (take_lease c now token j) ≡ false
unfolding due
taken_until c j now token later h = ground arith

-- A leased job stays with its worker: with unique ids, until the lease's five minutes have passed
-- no read of `leaseNextRecalcJob` finds that job again.
pub leased_job_is_not_found :
    (now token later : ℕ) (js : Jobs) (c d : Job)
    → IdsUnique js
    → find_due now js ≡ some c
    → later < now + lease_ms
    → find_due later (lease_job c now token js) ≡ some d
    → d.id ≢ c.id
leased_job_is_not_found now token later js c d u h soon found =
    find_due-All later (λ (j : Job). j.id ≢ c.id) (lease_job c now token js) d found
      (leased-All now token (λ (j : Job). due later j ≡ true → j.id ≢ c.id) js c u h
        (λ j _ again. absurd (true-ne-false (sym again ∙ taken_until c j now token later soon)))
        (λ j differs _. differs))

not_owner :
    (c j : Job) (now token old : ℕ)
    → token ≢ old
    → owned c.id old (take_lease c now token j) ≡ false
not_owner c j now token old h = ground arith

not_owned : (j : Job) (id old : ℕ) → j.id ≢ id → owned id old j ≡ false
not_owned j id old h = ground arith

write_of_none :
    (p : Job → Bool) (f : Job → Job) {js : Jobs}
    → All (λ (j : Job). p j ≡ false) js
    → ◌≡◌ {A = Bool × Jobs} (count_where p js == 1, update_many p f js) (false, js)
write_of_none p f {js} none_owned =
    let (no_count, same) = update_many-no_row p f js none_owned in rw (no_count, same) refl

-- The fencing token: once a job is leased under a new token, with unique ids, a worker that holds
-- another token can neither complete it, nor fail it, nor extend its lease; each of its writes
-- changes no row and the first two report that.
pub former_holder_is_fenced :
    (now token old : ℕ) (js : Jobs) (c : Job) (attempt at : ℕ) (result : String) (message : Text)
    → IdsUnique js
    → find_due now js ≡ some c
    → token ≢ old
    → (complete_job c.id old result at (lease_job c now token js)
        ≡ (false, lease_job c now token js))
      × (fail_job c.id old attempt message at (lease_job c now token js)
          ≡ (false, lease_job c now token js))
      × (extend_lease c.id old at (lease_job c now token js) ≡ lease_job c now token js)
unfolding complete_job fail_job extend_lease
former_holder_is_fenced now token old js c attempt at result message u h differs =
    let none_owned : All (λ (j : Job). owned c.id old j ≡ false) (lease_job c now token js) =
      leased-All now token (λ (j : Job). owned c.id old j ≡ false) js c u h
        (λ j _. not_owner c j now token old differs) (λ j other. not_owned j c.id old other) in
    (
      write_of_none (owned c.id old) _ none_owned,
      write_of_none (owned c.id old) _ none_owned,
      (update_many-no_row (owned c.id old) _ (lease_job c now token js) none_owned).1,
    )
