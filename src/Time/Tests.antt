-- ===== src/Time/Tests.antt =====
-- Runs of Time::Correct, and the theorems on times at concrete times.
use ign_common.Common.{◌<◌, ◌≡◌, refl, none, some, inl, arith}
use ign_common.Common.Int.{pos, negsuc, pos_part, neg_part, ◌+ℤ◌, ◌-ℤ◌, ◌*ℤ◌}
use ign_common.Time.{Time, correct, set, add, eq, eq_ℤ}
use ign_common.Time.Total.{nanos, IsCanonical}
use ign_common.Time.Canonical.{add-nanos, eq-nanos, correct_mixed, correct_overflow}

abbrev late : Time
late = record { sec = pos 2; nsec = pos 900_000_000 }

abbrev early : Time
early = record { sec = negsuc 0; nsec = negsuc 199_999_999 }

abbrev borrowed : Time
borrowed = record { sec = pos 1; nsec = negsuc 1_499_999_999 }

abbrev mixed : Time
mixed = record { sec = negsuc 0; nsec = pos 1_500_000_000 }

abbrev wide : Time
wide = record { sec = pos 1; nsec = negsuc 2_000_000_000 }

set_mixed :
    set (negsuc 0) (pos 1_500_000_000) ≡ some (record { sec = pos 1; nsec = negsuc 499_999_999 })
unfolding set correct ◌+ℤ◌ ◌-ℤ◌ ◌*ℤ◌
set_mixed = refl

add-nanos_example :
    (u : Time) × (add late early ≡ some u) × IsCanonical u × (nanos u ≡ nanos late +ℤ nanos early)
add-nanos_example = add-nanos late early (omega arith) (omega arith) (omega arith)

eq-nanos_example : eq late late ≡ eq_ℤ (nanos late) (nanos late)
eq-nanos_example = eq-nanos late late (omega arith) (omega arith)

correct_mixed_example :
    (u : Time) × (correct mixed ≡ some u) × (0 < pos_part u.sec) × (0 < neg_part u.nsec)
correct_mixed_example = correct_mixed mixed refl (omega arith) (omega arith)

correct_overflow_example : correct wide ≡ none
correct_overflow_example = correct_overflow wide (inl (omega arith))
