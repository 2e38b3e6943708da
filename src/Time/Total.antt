-- ===== src/Time/Total.antt =====
-- Time::Correct keeps the time that it normalises.
use ign_common.Common.{◌+◌, ◌*◌, ◌≤◌, ◌<◌, ◌≡◌, ◌⊎◌, ◌∙◌, ◌&&◌, some, arith, if◌then◌else◌}
use ign_common.Common.Int.{ℤ, pos, pos_part, neg_part, ◌+ℤ◌, ◌-ℤ◌, ◌*ℤ◌, int_laws}
use ign_common.Time.{
  Time, ns_in_sec, int_max, div_trunc, mod_trunc, is_positive, is_negative, whole_seconds,
  lower_sec, raise_sec, carry, correct,
}

-- The nanoseconds that a time stands for.
abbrev pub nanos : Time → ℤ
nanos t = t.sec *ℤ pos ns_in_sec +ℤ t.nsec

-- Seconds and nanoseconds have not both signs, and the nanoseconds are less than a second.
pub record IsCanonical (t : Time) : Type 0 where
  pub frac : pos_part t.nsec + neg_part t.nsec < ns_in_sec
  pub signs : (neg_part t.sec + neg_part t.nsec ≡ 0) ⊎ (pos_part t.sec + pos_part t.nsec ≡ 0)

-- Where no step of Correct leaves int32_t.
pub record Fits (t : Time) : Type 0 where
  pub sec_fits : pos_part t.sec + neg_part t.sec + 3 ≤ int_max
  pub nsec_fits : pos_part t.nsec + neg_part t.nsec < 2 * ns_in_sec

-- Two times stand for the same nanoseconds, in natural numbers.
abbrev Same : Time → Time → Type 0
Same t u =
    pos_part t.sec * ns_in_sec + pos_part t.nsec + (neg_part u.sec * ns_in_sec + neg_part u.nsec)
    ≡ pos_part u.sec * ns_in_sec + pos_part u.nsec + (neg_part t.sec * ns_in_sec + neg_part t.nsec)

pub scale_parts :
    (a : ℤ)
    → pos_part (a *ℤ pos ns_in_sec) + neg_part a * ns_in_sec
      ≡ neg_part (a *ℤ pos ns_in_sec) + pos_part a * ns_in_sec
unfolding ◌*ℤ◌
scale_parts a = ground arith

nanos_of_Same : (t u : Time) → Same t u → nanos u ≡ nanos t
nanos_of_Same t u h = omega (int_laws, scale_parts t.sec, scale_parts u.sec)

abbrev pub carried : Time → Time
carried t = record { sec = t.sec +ℤ div_trunc t.nsec ns_in_sec; nsec = mod_trunc t.nsec ns_in_sec }

-- Each stage of Correct is defined where the time fits, and returns these times.
abbrev pub lowered : Time → Time
lowered t =
    if is_positive t.sec && is_negative t.nsec
    then record {
      sec = t.sec -ℤ pos (whole_seconds t.nsec);
      nsec = t.nsec +ℤ pos (whole_seconds t.nsec) *ℤ pos ns_in_sec;
    }
    else t

abbrev pub raised : Time → Time
raised t =
    if is_negative t.sec && is_positive t.nsec
    then record {
      sec = t.sec +ℤ pos (whole_seconds t.nsec);
      nsec = t.nsec -ℤ pos (whole_seconds t.nsec) *ℤ pos ns_in_sec;
    }
    else t

unfoldable pub corrected : Time → Time
corrected t = carried (raised (lowered t))

module _ (t : Time) (f : Fits t) where
  carry-some : carry t ≡ some (carried t)
  unfolding carry ◌+ℤ◌
  carry-some = ground arith

  lower-some : lower_sec t ≡ some (lowered t)
  unfolding lower_sec ◌+ℤ◌ ◌-ℤ◌ ◌*ℤ◌
  lower-some = ground arith

  raise-some : raise_sec t ≡ some (raised t)
  unfolding raise_sec ◌+ℤ◌ ◌-ℤ◌ ◌*ℤ◌
  raise-some = ground arith

  pub lowered-Fits : Fits (lowered t)
  unfolding ◌+ℤ◌ ◌-ℤ◌ ◌*ℤ◌
  lowered-Fits = ground arith

  pub raised-Fits : Fits (raised t)
  unfolding ◌+ℤ◌ ◌-ℤ◌ ◌*ℤ◌
  raised-Fits = ground arith

carried-Same : (t : Time) → Same t (carried t)
unfolding ◌+ℤ◌
carried-Same t = ground arith

lowered-Same : (t : Time) → Same t (lowered t)
unfolding ◌*ℤ◌ ◌+ℤ◌ ◌-ℤ◌
lowered-Same t = ground arith

raised-Same : (t : Time) → Same t (raised t)
unfolding ◌*ℤ◌ ◌+ℤ◌ ◌-ℤ◌
raised-Same t = ground arith

pub correct-some : (t : Time) → Fits t → correct t ≡ some (corrected t)
unfolding correct corrected
correct-some t f = rw (
  lower-some t f,
  raise-some (lowered t) (lowered-Fits t f),
  carry-some (raised (lowered t)) (raised-Fits (lowered t) (lowered-Fits t f)),
)

pub nanos-corrected : (t : Time) → nanos (corrected t) ≡ nanos t
unfolding corrected
nanos-corrected t =
    nanos_of_Same (raised (lowered t)) _ (carried-Same (raised (lowered t)))
    ∙ nanos_of_Same (lowered t) _ (raised-Same (lowered t))
    ∙ nanos_of_Same t _ (lowered-Same t)

pub corrected_frac :
    (t : Time) → pos_part (corrected t).nsec + neg_part (corrected t).nsec < ns_in_sec
unfolding corrected
corrected_frac t = ground arith

-- Correct is defined on every time that fits, keeps its nanoseconds, and leaves less than a second
-- of them in `nsec`.
pub correct_lem :
    (t : Time)
    → Fits t
    → (u : Time) × (correct t ≡ some u)
      × (nanos u ≡ nanos t)
      × (pos_part u.nsec + neg_part u.nsec < ns_in_sec)
correct_lem t f = (corrected t, correct-some t f, nanos-corrected t, corrected_frac t)
