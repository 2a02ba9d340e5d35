-- ===== src/UsageRecord/Counting.antt =====
-- The meter of app/lib/usage-meter.server.ts implements a set of orders: each is counted once.
use my_meridian.Base.{
  ℕ, ◌≡◌, ◌<◌, refl, sym, ap, ◌∙◌, Bool, true, false, ◌||◌, Option, none, some, List, [], ◌∷◌, ltb,
  ◌==◌, ==_iff, if◌then◌else◌, String, All, Bool-cases, Option-cases, map, arith, inl, inr,
}
use my_meridian.Base.Keys.{◌=?◌, string_eq}
use my_meridian.Base.Table.{
  update_many, count_where, append_row, All-update_many, All-append_row, count_where-append_row,
  count_where-update_eq,
}
use my_meridian.CostHistory.{Instant}
use mathlib.Core.Option.{some-injective, none-ne-some}
use mathlib.Core.Path.{subst}
use my_meridian.UsageMeter.{
  UsageMeter, UsageMeterEvent, UsageTables, UsageRecordResult, MeterShop, find_meter, has_id,
  of_source, of_period, utc_month_bounds,
}
use my_meridian.UsageRecord.{
  new_meter, increment_used, with_status, status_where, upsert_meter, count_event,
  record_transaction,
}

abbrev pub of_meter : ℕ → UsageMeterEvent → Bool
of_meter id e = e.meter_id == id

-- A meter has counted the events that name it.
abbrev pub Counts : List UsageMeterEvent → UsageMeter → Type 0
Counts events m = m.used ≡ count_where (of_meter m.id) events

abbrev pub contains : String → List String → Bool
contains x [] = false
contains x (y ∷ s) = y =? x || contains x s

-- The promise: a set of orders, which says of each whether it is new.
abbrev pub spec_record : String → List String → Bool × List String
spec_record x s = if contains x s then (false, s) else (true, append_row s x)

-- The tables implement a set.
abbrev pub Implements : UsageTables → List String → Type 0
Implements t s =
    (map (λ (e : UsageMeterEvent). e.source_id) t.events ≡ s) × All (Counts t.events) t.meters

module _ (p : UsageMeter → Bool) where
  find_meter-All {ℓ} :
      (P : UsageMeter → Type ℓ) (ms : List UsageMeter) (m : UsageMeter)
      → find_meter p ms ≡ some m
      → All P ms
      → P m × (p m ≡ true)
  find_meter-All P [] m h a = absurd (none-ne-some m h)
  find_meter-All P (x ∷ ms) m h (a, rest) = elim (Bool-cases (p x)) [
    | inl t ↦ subst (λ y. P y × (p y ≡ true)) (some-injective x m (rw t at h)) (a, t)
    | inr n ↦ find_meter-All P ms m (rw n at h) rest
  ]

  find_meter-has_id :
      (ms : List UsageMeter) (m : UsageMeter)
      → find_meter p ms ≡ some m
      → 0 < count_where (has_id m.id) ms
  find_meter-has_id [] m h = absurd (none-ne-some m h)
  find_meter-has_id (x ∷ ms) m h = elim (Bool-cases (p x)) [
    | inl t ↦
        let self : (x.id == x.id) ≡ true = (==_iff x.id x.id).1 refl in
        subst (λ y. 0 < count_where (has_id y.id) (x ∷ ms)) (some-injective x m (rw t at h))
          (rw self (omega arith))
    | inr n ↦ omega (arith, find_meter-has_id ms m (rw n at h))
  ]

  skip :
      (x : UsageMeter) (ms : List UsageMeter)
      → p x ≡ false
      → 0 < count_where p (x ∷ ms)
      → 0 < count_where p ms
  skip x ms n h = let h' = rw n at h in omega (arith, h')

  find_meter-some :
      (ms : List UsageMeter) → 0 < count_where p ms → (m : UsageMeter) × (find_meter p ms ≡ some m)
  find_meter-some [] h = absurd (omega arith)
  find_meter-some (x ∷ ms) h = elim (Bool-cases (p x)) [
    | inl t ↦ (x, rw t refl)
    | inr n ↦ let (m, e) = find_meter-some ms (skip x ms n h) in (m, rw n e)
  ]

module _ (events : List UsageMeterEvent) (e : UsageMeterEvent) where
  -- An event that is added is counted by the meter that it names and by no other.
  increment-Counts :
      (ms : List UsageMeter)
      → All (Counts events) ms
      → All (Counts (append_row events e)) (update_many (has_id e.meter_id) increment_used ms)
  increment-Counts [] h = tt
  increment-Counts (m ∷ ms) (h, hs) =
      let one_more = count_where-append_row (of_meter m.id) events e in
      let rest = increment-Counts ms hs in
      elim (Bool-cases (m.id == e.meter_id)) [
        | inl same ↦
            let names : (e.meter_id == m.id) ≡ true = ground (arith, same) in
            (rw same (omega (arith, h, rw names at one_more)), rest)
        | inr other ↦
            let names : (e.meter_id == m.id) ≡ false = ground (arith, other) in
            (rw other (omega (arith, h, rw names at one_more)), rest)
      ]

contains_source :
    (x : String) (events : List UsageMeterEvent)
    → ltb 0 (count_where (of_source x) events)
      ≡ contains x (map (λ (e : UsageMeterEvent). e.source_id) events)
contains_source x [] = refl
contains_source x (e ∷ es) = elim (Bool-cases (e.source_id =? x)) [
  | inl here ↦ rw here (ground arith)
  | inr there ↦ rw there (ground (arith, contains_source x es))
]

map-append_row :
    (es : List UsageMeterEvent) (e : UsageMeterEvent)
    → map (λ (e : UsageMeterEvent). e.source_id) (append_row es e)
      ≡ append_row (map (λ (e : UsageMeterEvent). e.source_id) es) e.source_id
map-append_row [] e = refl
map-append_row (x ∷ es) e = ap (λ t. x.source_id ∷ t) (map-append_row es e)

count_where-append_here :
    (p : UsageMeter → Bool) (ms : List UsageMeter) (m : UsageMeter)
    → p m ≡ true
    → 0 < count_where p (append_row ms m)
count_where-append_here p ms m h =
    let total = count_where-append_row p ms m in omega (arith, rw h at total)

-- What a call returns and leaves, against the set.
abbrev pub Refines : Option UsageRecordResult × UsageTables → Bool × List String → Type 0
Refines (none, t) spec = ⊥
Refines (some r, t) spec =
    (r.counted ≡ spec.0)
    × Implements t spec.1
    × (r.result_used ≡ count_where (of_meter r.result_meter_id) t.events)

module _ (id : ℕ) (shop_id : String) (now : Instant) (shop : MeterShop) where
  -- The upserted meter has counted its events, and stands in the table.
  upsert_meter-Counts :
      (events : List UsageMeterEvent) (ms : List UsageMeter)
      → count_where (of_meter id) events ≡ 0
      → All (Counts events) ms
      → let u = upsert_meter id shop_id now shop ms in
        Counts events u.0 × All (Counts events) u.1 × (0 < count_where (has_id u.0.id) u.1)
  unfolding upsert_meter
  upsert_meter-Counts events ms fresh a =
      let key = of_period shop_id "orders" (utc_month_bounds now).0 in
      let m = new_meter id shop_id now shop in
      elim (Option-cases (find_meter key ms)) [
        | inl missing ↦
            rw (missing, upsert_meter)
              (
                sym fresh,
                All-append_row (Counts events) ms m a (sym fresh),
                count_where-append_here (has_id id) ms m ((==_iff id id).1 refl),
              )
        | inr (found, e) ↦
            rw (e, upsert_meter)
              (
                (find_meter-All key (Counts events) ms found e a).0,
                a,
                find_meter-has_id key ms found e,
              )
      ]

  count_event-Refines :
      (x : String) (meter : UsageMeter) (meters : List UsageMeter) (t : UsageTables)
      (s : List String)
      → map (λ (e : UsageMeterEvent). e.source_id) t.events ≡ s
      → All (Counts t.events) meters
      → 0 < count_where (has_id meter.id) meters
      → Refines (count_event shop_id x now shop meter meters t) (true, append_row s x)
  unfolding count_event
  count_event-Refines x meter meters t s same a present =
      let event : UsageMeterEvent = record {
        event_shop_id = shop_id;
        meter_id = meter.id;
        source = "order";
        source_id = x;
      } in
      let events = append_row t.events event in
      let incremented = update_many (has_id meter.id) increment_used meters in
      let counted = increment-Counts t.events event meters a in
      let kept =
        count_where-update_eq (has_id meter.id) (has_id meter.id) increment_used meters
          (λ j. refl) in
      let (updated, e) = find_meter-some (has_id meter.id) incremented (rw kept present) in
      let (used, mine) =
        find_meter-All (has_id meter.id) (Counts events) incremented updated e counted in
      rw (e, Refines, count_event)
        (
          refl,
          (
            map-append_row t.events event ∙ ap (λ l. append_row l x) same,
            All-update_many (status_where shop meter updated.used)
                (with_status shop meter updated.used now) (Counts events) incremented (λ j h c. c)
                counted,
          ),
          used,
        )

-- In a table that implements a set of orders, a call for a known shop returns, counts the order
-- exactly when it is not in the set, reports as used the number of orders of its meter, and leaves
-- a table that implements the set with the order.
pub record_transaction-Refines :
    (keeps : Bool) (id : ℕ) (shop_id x : String) (now : Instant) (shop : MeterShop)
    (t : UsageTables) (s : List String)
    → count_where (of_meter id) t.events ≡ 0
    → Implements t s
    → Refines (record_transaction keeps id shop_id x now (some shop) t) (spec_record x s)
unfolding record_transaction
record_transaction-Refines keeps id shop_id x now shop t s fresh (same, a) =
    let u = upsert_meter id shop_id now shop t.meters in
    let (mine, all_mine, present) =
      upsert_meter-Counts id shop_id now shop t.events t.meters fresh a in
    let agrees = contains_source x t.events ∙ ap (contains x) same in
    elim (Bool-cases (contains x s)) [
      | inl seen ↦ elim (Bool-cases keeps) [
        | inl kept ↦ rw (agrees, seen, kept) (refl, (same, all_mine), mine)
        | inr undone ↦ rw (agrees, seen, undone) (refl, (same, a), mine)
      ]
      | inr new ↦
          rw (agrees, new)
            (count_event-Refines id shop_id now shop x u.0 u.1 t s same all_mine present)
    ]
