-- ===== src/Battery/Tests.antt =====
-- Runs of src/Battery.cc, and its theorems at a concrete battery.
use ign_common.Common.{ℕ, ◌≡◌, refl, none, some, [], ◌∷◌, arith, ◌==◌, if◌then◌else◌}
use ign_common.Common.Text.{codes, is_some}
use ign_common.Common.OrdMap.{find, insert}
use ign_common.Battery.{
  Volts, Battery, add_consumer, set_power_load, power_load, named_battery, update, assign,
}
use ign_common.Battery.Consumers.{IsFresh, add_consumer_lem, set_power_load_lem, assign_lem}

-- Loads in whole units.
abbrev units : Volts
units = record { T = ℕ; F = ℕ; null = 0; at_least_null = λ x. x; is_close = λ x y. x == y }

abbrev two_loads : Battery units
two_loads = record {
  init_voltage = 12;
  real_voltage = 11;
  power_loads = (0, 5) ∷ (2, 7) ∷ [];
  power_load_counter = 3;
  update_func = none;
  name = codes "b";
}

fresh : IsFresh units two_loads
fresh = record { sorted = omega arith; below = omega arith }

-- Without an update function Update throws.
named_test : update units (λ f b. f) (named_battery units (codes "b") 12) ≡ none
unfolding update named_battery
named_test = refl

-- The counter wraps around to an id that is still in use, and its load is lost.
wrap_test :
    (let (b, id) = add_consumer units (record two_loads { power_load_counter = 4294967295 }) in
      power_load units (add_consumer units b).0 0)
    ≡ some 0
unfolding add_consumer power_load find insert
wrap_test = refl

add_consumer_lem_example :
    let (c, id) = add_consumer units two_loads in
    (power_load units two_loads id ≡ none)
    × ((j : ℕ) → power_load units c j ≡ (if id == j then some 0 else power_load units two_loads j))
    × IsFresh units c
add_consumer_lem_example = add_consumer_lem units two_loads fresh (omega arith)

set_power_load_lem_example :
    let (c, done) = set_power_load units two_loads 2 9 in
    (done ≡ is_some (power_load units two_loads 2))
    × ((j : ℕ)
        → power_load units c j
          ≡ (if 2 == j then (if done then some 9 else none) else power_load units two_loads j))
    × IsFresh units c
set_power_load_lem_example = set_power_load_lem units two_loads 2 9 fresh

assign_lem_example : assign units (named_battery units (codes "c") 1) two_loads ≡ two_loads
assign_lem_example = assign_lem units (named_battery units (codes "c") 1) two_loads (omega arith)
