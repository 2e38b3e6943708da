-- ===== src/Battery.antt =====
-- src/Battery.cc: a battery with its consumers, which have ids from a counter of 32 bits.
pub mod Consumers
mod Tests
use ign_common.Common.{
  ℕ, ◌+◌, ◌%◌, ◌^◌, Bool, true, false, ◌&&◌, Option, none, some, List, [], ◌∷◌, if◌then◌else◌,
}
use ign_common.Common.Text.{Bytes, eqb, is_some}
use ign_common.Common.OrdMap.{OrdMap, find, insert, erase}
use mathlib.Core.Bool.{not}

-- What the battery uses of double: zero, std::max(0.0, x), and whether two values differ by less than
-- a millionth. `F` are the update functions that callers set.
pub record Volts : Type 1 where
  pub T : Type 0
  pub F : Type 0
  pub null : T
  pub at_least_null : T → T
  pub is_close : T → T → Bool

-- The update function: UpdateDefault, or one of the caller.
pub data Updater (F : Type 0) : Type 0 where
  default : Updater F
  custom : F → Updater F

module _ (u : Volts) where
  open u use {T, F, null, at_least_null, is_close}

  pub record Battery : Type 0 where
    pub init_voltage : T
    pub real_voltage : T
    pub power_loads : OrdMap T
    pub power_load_counter : ℕ
    pub update_func : Option (Updater F)
    pub name : Bytes

  pub new_battery : Battery
  new_battery = record {
    init_voltage = null;
    real_voltage = null;
    power_loads = [];
    power_load_counter = 0;
    update_func = some default;
    name = [];
  }

  -- The constructor with a name sets no update function.
  unfoldable pub named_battery : Bytes → T → Battery
  named_battery name voltage = record {
    init_voltage = voltage;
    real_voltage = null;
    power_loads = [];
    power_load_counter = 0;
    update_func = none;
    name = name;
  }

  -- The loop of operator= over the loads of the other battery.
  pub copy_loads : OrdMap T → OrdMap T → OrdMap T
  copy_loads loads [] = loads
  copy_loads loads ((id, load) ∷ rest) = copy_loads (insert id load loads) rest

  pub assign : Battery → Battery → Battery
  unfolding copy_loads
  assign b other = record {
    init_voltage = other.init_voltage;
    real_voltage = other.real_voltage;
    power_loads = copy_loads [] other.power_loads;
    power_load_counter = other.power_load_counter;
    update_func = other.update_func;
    name = other.name;
  }

  pub equal : Battery → Battery → Bool
  equal b other = eqb other.name b.name && is_close other.init_voltage b.init_voltage

  pub reset_voltage : Battery → Battery
  reset_voltage b = record b { real_voltage = at_least_null b.init_voltage }

  pub init_consumers : Battery → Battery
  init_consumers b = record b { power_loads = [] }

  pub init : Battery → Battery
  unfolding reset_voltage init_consumers
  init b = init_consumers (reset_voltage b)

  pub set_init_voltage : Battery → T → Battery
  set_init_voltage b voltage = record b { init_voltage = voltage }

  pub set_name : Battery → Bytes → Battery
  set_name b name = record b { name = name }

  -- The counter wraps around, and the load of an id that is there already is set to zero.
  unfoldable pub add_consumer : Battery → Battery × ℕ
  add_consumer b =
      let id = b.power_load_counter in
      (
        record b {
          power_loads = insert id null b.power_loads;
          power_load_counter = (id + 1) % 2 ^ 32;
        },
        id,
      )

  pub remove_consumer : Battery → ℕ → Battery × Bool
  remove_consumer b id =
      (record b { power_loads = erase id b.power_loads }, is_some (find id b.power_loads))

  pub set_power_load : Battery → ℕ → T → Battery × Bool
  set_power_load b id load = elim (find id b.power_loads) [
    | none ↦ (b, false)
    | some old ↦ (record b { power_loads = insert id load b.power_loads }, true)
  ]

  -- PowerLoad; `none` is the return of false.
  unfoldable pub power_load : Battery → ℕ → Option T
  power_load b id = find id b.power_loads

  pub set_update_func : Battery → Option (Updater F) → Battery
  set_update_func b f = record b { update_func = f }

  pub reset_update_func : Battery → Battery
  unfolding set_update_func
  reset_update_func b = set_update_func b (some default)

  -- Update, with the caller's functions: a function that is not set throws.
  unfoldable pub update : (F → Battery → T) → Battery → Option Battery
  update call b = elim b.update_func [
    | none ↦ none
    | some default ↦ some record b { real_voltage = at_least_null b.real_voltage }
    | some (custom f) ↦ some record b { real_voltage = at_least_null (call f b) }
  ]
