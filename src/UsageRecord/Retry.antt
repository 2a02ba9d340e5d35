-- ===== src/UsageRecord/Retry.antt =====
-- The retries of `recordOrderUsage` (app/lib/usage-meter.server.ts).
use my_meridian.Base.{
  ℕ, zero, suc, ◌+◌, ◌≡◌, ◌<◌, refl, ap, ◌∙◌, Bool, true, false, Option, none, ltb, String, arith,
}
use my_meridian.CostHistory.{Instant}
use my_meridian.UsageMeter.{UsageTables, UsageRecordResult, MeterShop}
use my_meridian.UsageRecord.{
  Ending, completes, conflict, record_loop, record_transaction, record_order_usage,
}

-- What others have done when n attempts from one on have begun.
abbrev pub interfered : (ℕ → UsageTables → UsageTables) → ℕ → ℕ → UsageTables → UsageTables
interfered before zero attempt t = t
interfered before (suc n) attempt t = interfered before n (attempt + 1) (before attempt t)

module _ (before : ℕ → UsageTables → UsageTables) (ends : ℕ → Ending)
    (run : UsageTables → Option UsageRecordResult × UsageTables) where
  loop_completes :
      (fuel a n k : ℕ) (t : UsageTables)
      → n < fuel
      → fuel + a ≡ 8
      → a + n ≡ k
      → ((i : ℕ) → i < k → ends i ≡ conflict)
      → ends k ≡ completes
      → record_loop fuel a before ends run t ≡ run (interfered before (suc n) a t)
  unfolding record_loop
  loop_completes zero a n k t h size at_k c e = absurd (omega arith)
  loop_completes (suc fuel) a zero k t h size at_k c e =
      let first : a ≡ k = omega arith in
      let here : ends a ≡ completes = ap ends first ∙ e in rw (here, record_loop) refl
  loop_completes (suc fuel) a (suc n) k t h size at_k c e =
      let here : ends a ≡ conflict = c a (omega arith) in
      let more : ltb a 7 ≡ true = ground arith in
      rw (here, more, record_loop)
        (loop_completes fuel (a + 1) n k (before a t) (omega arith) (omega arith) (omega arith) c e)

  loop_gives_up :
      (fuel a : ℕ) (t : UsageTables)
      → fuel + a ≡ 8
      → ((i : ℕ) → i < 8 → ends i ≡ conflict)
      → record_loop fuel a before ends run t ≡ (none, interfered before fuel a t)
  unfolding record_loop
  loop_gives_up zero a t size c = refl
  loop_gives_up (suc zero) a t size c =
      let here : ends a ≡ conflict = c a (omega arith) in
      let last : ltb a 7 ≡ false = ground arith in rw (here, last, record_loop) refl
  loop_gives_up (suc (suc fuel)) a t size c =
      let here : ends a ≡ conflict = c a (omega arith) in
      let more : ltb a 7 ≡ true = ground arith in
      rw (here, more, record_loop) (loop_gives_up (suc fuel) (a + 1) (before a t) (omega arith) c)

module _ (keeps : Bool) (id : ℕ) (shop_id x : String) (now : Instant) (shop : Option MeterShop)
    (before : ℕ → UsageTables → UsageTables) (ends : ℕ → Ending) (t : UsageTables) where
  -- An attempt that completes after fewer than eight conflicts gives the result of its transaction
  -- on the tables that it finds.
  pub record_order_usage-completes :
      (k : ℕ)
      → k < 8
      → ((i : ℕ) → i < k → ends i ≡ conflict)
      → ends k ≡ completes
      → record_order_usage keeps id shop_id x now shop before ends t
        ≡ record_transaction keeps id shop_id x now shop (interfered before (suc k) 0 t)
  unfolding record_order_usage
  record_order_usage-completes k h =
      loop_completes before ends (record_transaction keeps id shop_id x now shop) 8 0 k k t h refl
        (omega arith)

  -- After eight conflicts the call throws, and has written nothing.
  pub record_order_usage-gives_up :
      ((i : ℕ) → i < 8 → ends i ≡ conflict)
      → record_order_usage keeps id shop_id x now shop before ends t
        ≡ (none, interfered before 8 0 t)
  unfolding record_order_usage
  record_order_usage-gives_up =
      loop_gives_up before ends (record_transaction keeps id shop_id x now shop) 8 0 t refl
