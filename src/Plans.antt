-- ===== src/Plans.antt =====
-- app/lib/plans.ts: the plans and their prices in whole dollars. Names and texts that are only shown
-- are left out. `in` also finds the members that every object inherits, `PLANS.constructor` say.
use my_meridian.Base.{
  ℕ, ◌-◌, ◌≡◌, refl, Option, none, some, ◌++◌, ◌||◌, Bool, false, List, [], ◌∷◌, String,
  if◌then◌else◌, length, take,
}
use my_meridian.Base.Keys.{◌=?◌}
use my_meridian.Base.Text.{Text, text_eq, codes, drop}

pub data PlanId : Type 0 where
  starter growth scale : PlanId

-- `PLANS[id].price`, and `PLANS[id].annualPrice`
unfoldable pub price : PlanId → ℕ
price starter = 49
price growth = 149
price scale = 399

unfoldable pub annual_price : PlanId → ℕ
annual_price starter = 490
annual_price growth = 1_490
annual_price scale = 3_990

-- What `key in PLANS` finds: a plan, or a member that `PLANS` inherits, whose prices are undefined.
pub data PlanEntry : Type 0 where
  own : PlanId → PlanEntry
  inherited : PlanEntry

-- The members of `Object.prototype`.
abbrev pub inherited_names : List String
inherited_names =
    "constructor" ∷ "hasOwnProperty" ∷ "isPrototypeOf" ∷ "propertyIsEnumerable" ∷ "toLocaleString"
    ∷ "toString" ∷ "valueOf" ∷ "__proto__" ∷ "__defineGetter__" ∷ "__defineSetter__"
    ∷ "__lookupGetter__" ∷ "__lookupSetter__" ∷ []

abbrev pub is_name : Text → List String → Bool
is_name key [] = false
is_name key (n ∷ ns) = (key =? codes n) || is_name key ns

-- A plan's key in `PLANS`, and the entry of a key: `base in PLANS`.
abbrev pub plan_key : PlanId → Text
plan_key starter = codes "starter"
plan_key growth = codes "growth"
plan_key scale = codes "scale"

unfoldable pub plan_of : Text → Option PlanEntry
plan_of key =
    if key =? codes "starter"
    then some (own starter)
    else if key =? codes "growth"
    then some (own growth)
    else if key =? codes "scale"
    then some (own scale)
    else if is_name key inherited_names
    then some inherited
    else none

abbrev pub annual_suffix : Text
annual_suffix = codes "-annual"

-- `annualKey`
unfoldable pub annual_key : PlanId → Text
annual_key id = plan_key id ++ annual_suffix

-- `basePlanId`
unfoldable pub base_plan_id : Text → Option PlanEntry
unfolding plan_of
base_plan_id key =
    let cut = length key - length annual_suffix in
    plan_of (if drop cut key =? annual_suffix then take cut key else key)

-- A plan is found under its key, and under the key of its annual billing.
base_plan_id-plan_key : (id : PlanId) → base_plan_id (plan_key id) ≡ some (own id)
unfolding base_plan_id
base_plan_id-plan_key starter = refl
base_plan_id-plan_key growth = refl
base_plan_id-plan_key scale = refl

base_plan_id-annual_key : (id : PlanId) → base_plan_id (annual_key id) ≡ some (own id)
unfolding base_plan_id annual_key
base_plan_id-annual_key starter = refl
base_plan_id-annual_key growth = refl
base_plan_id-annual_key scale = refl
