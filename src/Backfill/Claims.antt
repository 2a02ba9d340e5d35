-- ===== src/Backfill/Claims.antt =====
-- Claims of the historical import, app/lib/backfill-claim.server.ts: when one can win, and where the
-- walk of the orders resumes.
use my_meridian.Base.{
  ℕ, ◌+◌, true, false, not, ◌&&◌, Option, none, some, ◌≡◌, refl, sym, ◌∙◌, inl, inr, arith,
  Bool-cases, if◌then◌else◌, ==_iff, ltb, leb, String,
}
use my_meridian.Base.Keys.{◌=?◌, string_eq}
use my_meridian.Base.Int.{pos}
use mathlib.Core.Path.{subst}
use my_meridian.Backfill.{
  Shop, SyncStatus, BackfillClaim, claimed, active, claim_from, claim_row, resume_point_for,
  backfill_is_stale, unchanged, is_running, OrderResumePoint, lease_ms, same_value, same_status,
  resumable, at_least_zero,
}
use my_meridian.Backfill.Ownership.{claim-row}

same_status_refl : (s : SyncStatus) → same_status s s ≡ true
same_status_refl s = ground arith

same_value_refl : (o : Option ℕ) → same_value o o ≡ true
same_value_refl none = refl
same_value_refl (some n) = (==_iff n n).1 refl

unchanged_refl : (shop : Shop) → unchanged shop shop ≡ true
unfolding unchanged
unchanged_refl shop =
    rw
      (
        same_status_refl shop.sync_status,
        same_value_refl shop.sync_started_at,
        same_value_refl shop.sync_run_token,
        same_value_refl shop.sync_lease_expires_at,
      )
      refl

abbrev pub winning_claim : Shop → ℕ → ℕ → BackfillClaim × Shop
winning_claim shop token now =
    (claimed shop (resume_point_for shop) token, claim_row (resume_point_for shop) token now shop)

-- A claim of a row that nobody changes in between wins exactly if the row is not running or its run
-- is stale, and it leaves the row alone if it does not win.
pub claim_from_lem :
    (shop : Shop) (token now : ℕ)
    → claim_from shop token now shop ≡ (
        if is_running shop.sync_status && not (backfill_is_stale shop now)
        then (active, shop)
        else winning_claim shop token now)
unfolding claim_from
claim_from_lem shop token now =
    elim (Bool-cases (is_running shop.sync_status && not (backfill_is_stale shop now))) [
      | inl live ↦ rw live refl
      | inr free ↦ rw (free, unchanged_refl shop) refl
    ]

not-leb : (a b : ℕ) → not (leb a b) ≡ ltb b a
not-leb a b = ground arith

live_row :
    (shop : Shop) (r : Option OrderResumePoint) (token now later : ℕ)
    → (is_running (claim_row r token now shop).sync_status
        && not (backfill_is_stale (claim_row r token now shop) later))
      ≡ ltb later (now + lease_ms)
unfolding backfill_is_stale
live_row shop r token now later = not-leb (now + lease_ms) later

abbrev IsLiveUntil : ℕ → ℕ → Shop → Type 0
IsLiveUntil end later row =
    (is_running row.sync_status && not (backfill_is_stale row later)) ≡ ltb later end

live_lem :
    (read shop : Shop) (token now later : ℕ)
    → (claim_from read token now shop).1 ≡ claim_row (resume_point_for read) token now shop
    → IsLiveUntil (now + lease_ms) later (claim_from read token now shop).1
live_lem read shop token now later row =
    subst (IsLiveUntil (now + lease_ms) later) (sym row)
      (live_row shop (resume_point_for read) token now later)

-- The lease of a run whose process died expires: a run that won at `now` keeps every other claim out
-- for five minutes, and from then on the next claim that nobody disturbs wins.
pub lease_expires :
    (read shop s : Shop) (r : Option OrderResumePoint) (token next now later : ℕ)
    → (claim_from read token now shop).0 ≡ claimed s r token
    → (claim_from (claim_from read token now shop).1 next later (claim_from read token now shop).1
        ≡ (if ltb later (now + lease_ms)
            then (active, (claim_from read token now shop).1)
            else winning_claim (claim_from read token now shop).1 next later))
lease_expires read shop s r token next now later won =
    let row = claim-row read shop s token now token r won in
    claim_from_lem (claim_from read token now shop).1 next later
    ∙ rw (live_lem read shop token now later row) refl

resume_place :
    (shop : Shop) (cursor : String)
    → shop.sync_cursor ≡ some cursor
    → (cursor =? "") ≡ false
    → resume_point_for shop ≡ (
        if resumable shop.sync_status
        then some (record { cursor = cursor; imported_orders = at_least_zero shop.synced_orders })
        else none)
unfolding resume_point_for
resume_place shop cursor h named = elim (Bool-cases (resumable shop.sync_status)) [
  | inl again ↦ rw (resume_point_for, h, named, again) refl
  | inr fresh ↦ rw (resume_point_for, h, named, fresh) refl
]

-- The place of the walk that a claim of the row `read` has to keep.
abbrev KeepsPlace : Shop → String → Shop → Type 0
KeepsPlace read cursor row =
    (row.sync_cursor ≡ (if resumable read.sync_status then some cursor else none))
    × (row.synced_orders
        ≡ (if resumable read.sync_status then at_least_zero read.synced_orders else pos 0))

-- A resumed import keeps its place: of a row with a cursor that is not empty, the cursor and the count
-- of orders that a winning claim writes are the cursor and the (not negative) count of the row that it read, if that row's run was running
-- or had failed; after a run that completed, or that has to start over, both are cleared.
pub claim_keeps_place :
    (read shop s : Shop) (r : Option OrderResumePoint) (token now : ℕ) (cursor : String)
    → (claim_from read token now shop).0 ≡ claimed s r token
    → read.sync_cursor ≡ some cursor
    → (cursor =? "") ≡ false
    → ((claim_from read token now shop).1.sync_cursor
        ≡ (if resumable read.sync_status then some cursor else none))
      × ((claim_from read token now shop).1.synced_orders
          ≡ (if resumable read.sync_status then at_least_zero read.synced_orders else pos 0))
claim_keeps_place read shop s r token now cursor won h named =
    let row = claim-row read shop s token now token r won in
    let place = resume_place read cursor h named in
    subst (KeepsPlace read cursor) (sym row) (elim (Bool-cases (resumable read.sync_status)) [
      | inl again ↦ rw (place, again) (refl, refl)
      | inr fresh ↦ rw (place, fresh) (refl, refl)
    ])
