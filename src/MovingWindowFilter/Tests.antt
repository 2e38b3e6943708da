-- ===== src/MovingWindowFilter/Tests.antt =====
-- A run of MovingWindowFilter.hh over the integers.
use ign_common.Common.{◌≡◌, refl, some, List, [], ◌∷◌, arith, length, take}
use ign_common.Common.Int.{ℤ, pos, negsuc, ◌+ℤ◌, ◌-ℤ◌, +ℤ_comm, +ℤ_assoc, +ℤ_cancel}
use mathlib.Core.List.{reverse}
use ign_common.MovingWindowFilter.{Summand, Filter, new_filter, set_window_size}
use ign_common.MovingWindowFilter.Sums.{total, IsExact}
use ign_common.MovingWindowFilter.Runs.{
  updates, updates_lem, windowed, windowed-total, set_window_size-Holds,
}

abbrev integers : Summand
integers = record { T = ℤ; null = pos 0; plus = ◌+ℤ◌; minus = ◌-ℤ◌ }

exact : IsExact integers
exact = record { plus_comm = +ℤ_comm; plus_assoc = +ℤ_assoc; plus_minus = +ℤ_cancel }

abbrev readings : List ℤ
readings = pos 5 ∷ negsuc 2 ∷ pos 7 ∷ []

updates_lem_example :
    (g : Filter integers) × (updates integers
        (set_window_size integers 2 (new_filter integers))
        readings
      ≡ some g)
    × (g.sum ≡ windowed integers 2 (pos 0) [] readings)
    × (g.samples ≡ length (take 2 (reverse readings)))
    × (g.val_window_size ≡ 2)
updates_lem_example =
    updates_lem integers 2 (new_filter integers) readings (omega arith) (omega arith)

-- The integers are exact, and their window holds the sum of the last values.
sum_of_last : windowed integers 2 (pos 0) [] readings ≡ total integers (take 2 (reverse readings))
unfolding set_window_size
sum_of_last =
    windowed-total integers exact readings (set_window_size integers 2 (new_filter integers)) []
      (set_window_size-Holds integers 2 (new_filter integers) (omega arith) (omega arith)) refl
