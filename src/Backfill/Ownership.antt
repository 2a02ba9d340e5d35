-- ===== src/Backfill/Ownership.antt =====
-- Fencing of the historical import, app/lib/backfill-claim.server.ts: who may write after a claim.
use my_meridian.Base.{
  ℕ, true, false, not, ◌&&◌, Option, none, some, ◌≡◌, ◌≢◌, refl, sym, ◌∙◌, ap, inl, inr, arith,
  Bool-cases, ◌==◌, ==_iff, ◌⊎◌,
}
use mathlib.Core.Path.{subst}
use mathlib.Core.Option.{some-injective, none-ne-some}
use my_meridian.Backfill.{
  Shop, BackfillClaim, claimed, active, Data, claim_from, claim_row, resume_point_for,
  backfill_is_stale, unchanged, owns, is_running, write_for_owner, renew_backfill_lease,
  update_backfill_progress, complete_backfill, fail_backfill, OrderResumePoint, same_value,
  complete,
}

active-ne-claimed : {s : Shop} {r : Option OrderResumePoint} {t : ℕ} → active ≡ claimed s r t → ⊥
active-ne-claimed e = cc

-- A claim that wins leaves the row of its claim; one that does not leaves the row alone.
pub claim-cases :
    (read shop : Shop) (token now : ℕ)
    → (claim_from read token now shop ≡ (active, shop))
      ⊎ (claim_from read token now shop ≡ (
        claimed read (resume_point_for read) token,
        claim_row (resume_point_for read) token now shop,
      ))
unfolding claim_from
claim-cases read shop token now =
    elim (Bool-cases (is_running read.sync_status && not (backfill_is_stale read now))) [
      | inl live ↦ inl (rw live refl)
      | inr free ↦ elim (Bool-cases (unchanged read shop)) [
        | inl same ↦ inr (rw (free, same) refl)
        | inr other ↦ inl (rw (free, other) refl)
      ]
    ]

-- The row that a winning claim leaves.
pub claim-row :
    (read shop s : Shop) (token now t : ℕ) (r : Option OrderResumePoint)
    → (claim_from read token now shop).0 ≡ claimed s r t
    → (claim_from read token now shop).1 ≡ claim_row (resume_point_for read) token now shop
claim-row read shop s token now t r won = elim (claim-cases read shop token now) [
  | inl lost ↦ absurd (active-ne-claimed (sym (ap (λ (p : BackfillClaim × Shop). p.0) lost) ∙ won))
  | inr wins ↦ ap (λ (p : BackfillClaim × Shop). p.1) wins
]

other_token : (token : ℕ) (o : Option ℕ) → o ≢ some token → same_value (some token) o ≡ false
other_token token none h = refl
other_token token (some t) h = elim (Bool-cases (token == t)) [
  | inl e ↦ absurd (h (ap (λ (n : ℕ). some n) (sym ((==_iff token t).0 e))))
  | inr e ↦ e
]

changed_token :
    (other shop : Shop) (r : Option OrderResumePoint) (token now : ℕ)
    → other.sync_run_token ≢ some token
    → unchanged other (claim_row r token now shop) ≡ false
unfolding unchanged
changed_token other shop r token now h = rw (other_token token other.sync_run_token h) ground arith

lost_claim :
    (read shop : Shop) (token now : ℕ)
    → unchanged read shop ≡ false
    → claim_from read token now shop ≡ (active, shop)
unfolding claim_from
lost_claim read shop token now h =
    elim (Bool-cases (is_running read.sync_status && not (backfill_is_stale read now))) [
      | inl live ↦ rw live refl
      | inr free ↦ rw (free, h) refl
    ]

-- One winner: once a claim has won, every claim whose row was read before it (a row without the
-- winner's token) loses and changes nothing.
pub claims_once :
    (read other shop s : Shop) (r : Option OrderResumePoint) (token token' now now' : ℕ)
    → (claim_from read token now shop).0 ≡ claimed s r token
    → other.sync_run_token ≢ some token
    → claim_from other token' now' (claim_from read token now shop).1
      ≡ (active, (claim_from read token now shop).1)
claims_once read other shop s r token token' now now' won stale =
    let row = claim-row read shop s token now token r won in
    lost_claim other (claim_from read token now shop).1 token' now' (
      subst (λ (x : Shop). unchanged other x ≡ false) (sym row)
        (changed_token other shop (resume_point_for read) token now stale))

former_owner :
    (shop : Shop) (r : Option OrderResumePoint) (old token now : ℕ)
    → token ≢ old
    → owns old (claim_row r token now shop) ≡ false
former_owner shop r old token now h = ground arith

not_owner-cannot_write :
    (old at : ℕ) (data_ : Data) (shop : Shop)
    → owns old shop ≡ false
    → (renew_backfill_lease old at shop ≡ none)
      × (update_backfill_progress old data_ at shop ≡ none)
      × (complete_backfill old data_ shop ≡ none)
      × (fail_backfill old data_ shop ≡ (false, shop))
unfolding renew_backfill_lease update_backfill_progress complete_backfill fail_backfill
    write_for_owner
not_owner-cannot_write old at data_ shop h = (rw h refl, rw h refl, rw h refl, rw h refl)

-- The fencing token of an import: once another run has claimed the shop under a new token, a worker
-- with an earlier token can neither renew, nor report progress, nor publish success (each throws that
-- ownership is lost), nor record a failure; the row is the new owner's.
pub former_owner_is_fenced :
    (read shop s : Shop) (r : Option OrderResumePoint) (token old now at : ℕ) (data_ : Data)
    → (claim_from read token now shop).0 ≡ claimed s r token
    → token ≢ old
    → (renew_backfill_lease old at (claim_from read token now shop).1 ≡ none)
      × (update_backfill_progress old data_ at (claim_from read token now shop).1 ≡ none)
      × (complete_backfill old data_ (claim_from read token now shop).1 ≡ none)
      × (fail_backfill old data_ (claim_from read token now shop).1
          ≡ (false, (claim_from read token now shop).1))
former_owner_is_fenced read shop s r token old now at data_ won differs =
    let row = claim-row read shop s token now token r won in
    not_owner-cannot_write old at data_ (claim_from read token now shop).1 (
      subst (λ (x : Shop). owns old x ≡ false) (sym row)
        (former_owner shop (resume_point_for read) old token now differs))

abbrev completed_row : Data → Shop → Shop
completed_row data_ shop = record (data_ shop) {
  sync_status = complete;
  sync_run_token = none;
  sync_lease_expires_at = none;
}

complete-owned :
    (token : ℕ) (data_ : Data) (shop : Shop)
    → owns token shop ≡ true
    → complete_backfill token data_ shop ≡ some (completed_row data_ shop)
unfolding complete_backfill write_for_owner
complete-owned token data_ shop h = rw h refl

complete-lost :
    (token : ℕ) (data_ : Data) (shop : Shop)
    → owns token shop ≡ false
    → complete_backfill token data_ shop ≡ none
unfolding complete_backfill write_for_owner
complete-lost token data_ shop h = rw h refl

-- A run ends once: after its owner has recorded a failure or published success, no worker owns the
-- shop, the owner's token included.
pub ended_run_has_no_owner :
    (token other : ℕ) (data_ : Data) (shop done : Shop)
    → complete_backfill token data_ shop ≡ some done
    → (owns other done ≡ false)
      × ((fail_backfill token data_ shop).0 ≡ true)
      × (owns other (fail_backfill token data_ shop).1 ≡ false)
unfolding fail_backfill
ended_run_has_no_owner token other data_ shop done h = elim (Bool-cases (owns token shop)) [
  | inl mine ↦
      let e : completed_row data_ shop ≡ done =
        some-injective (completed_row data_ shop) done
          (sym (complete-owned token data_ shop mine) ∙ h) in
      (subst (λ (x : Shop). owns other x ≡ false) e refl, rw mine refl, rw mine refl)
  | inr lost ↦ absurd (none-ne-some done (sym (complete-lost token data_ shop lost) ∙ h))
]
