-- ===== src/Time/Canonical.antt =====
-- Time::Correct and the operators of src/Time.cc on normalised times.
use ign_common.Common.{◌+◌, ◌*◌, ◌/◌, ◌≤◌, ◌<◌, ◌≡◌, ◌⊎◌, inl, inr, ◌∙◌, none, some, arith}
use ign_common.Common.Int.{negsuc, pos_part, neg_part, ◌+ℤ◌, ◌-ℤ◌, ◌*ℤ◌, ltb_ℤ, int_laws}
use ign_common.Time.{
  Time, ns_in_sec, int_max, int32, lower_sec, raise_sec, correct, set, add, sub, eq_ℤ, eq, lt,
}
use ign_common.Time.Total.{
  nanos, IsCanonical, Fits, carried, raised, lowered, corrected, correct-some, nanos-corrected,
  scale_parts, lowered-Fits, raised-Fits,
}

-- Correct brings two signs together only if it does not lower more seconds than there are.
abbrev pub IsMild : Time → Type 0
IsMild t = (neg_part t.sec ≡ 0) ⊎ (pos_part t.nsec < ns_in_sec)

record Lowered (t : Time) : Type 0 where
  one_way : 0 < pos_part t.sec → neg_part t.nsec ≡ 0
  small : 0 < neg_part t.sec → pos_part t.nsec ≤ ns_in_sec

record Raised (t : Time) : Type 0 where
  signs :
      (neg_part t.sec + neg_part t.nsec ≡ 0)
      ⊎ ((pos_part t.nsec ≡ 0) × (pos_part t.sec ≤ neg_part t.nsec / ns_in_sec))

lowered-Lowered : (t : Time) → Fits t → IsMild t → Lowered (lowered t)
unfolding ◌+ℤ◌ ◌-ℤ◌ ◌*ℤ◌
lowered-Lowered t f m = ground arith

raised-Raised : (t : Time) → Lowered t → Raised (raised t)
unfolding ◌+ℤ◌ ◌-ℤ◌ ◌*ℤ◌
raised-Raised t h = ground arith

carried-IsCanonical : (t : Time) → Raised t → IsCanonical (carried t)
unfolding ◌+ℤ◌
carried-IsCanonical t h = ground arith

pub corrected-IsCanonical : (t : Time) → Fits t → IsMild t → IsCanonical (corrected t)
unfolding corrected
corrected-IsCanonical t f m = carried-IsCanonical _ (raised-Raised _ (lowered-Lowered t f m))

-- On a time that fits and is not a negative count of seconds with a second or more of nanoseconds,
-- Correct returns a normalised time of the same nanoseconds.
pub correct-IsCanonical :
    (t : Time)
    → Fits t
    → IsMild t
    → (u : Time) × (correct t ≡ some u) × IsCanonical u × (nanos u ≡ nanos t)
correct-IsCanonical t f m =
    (corrected t, correct-some t f, corrected-IsCanonical t f m, nanos-corrected t)

-- Correct changes nothing in a normalised time, and what it returns is in range again.
correct_self :
    (t : Time) → IsCanonical t → pos_part t.sec + neg_part t.sec ≤ int_max → correct t ≡ some t
unfolding correct ◌+ℤ◌
correct_self t c h = ground arith

carried_range : (t : Time) → Fits t → pos_part (carried t).sec + neg_part (carried t).sec ≤ int_max
unfolding ◌+ℤ◌
carried_range t f = ground arith

correct_again : (t : Time) → Fits t → IsMild t → correct (corrected t) ≡ some (corrected t)
unfolding corrected
correct_again t f m =
    correct_self (corrected t) (corrected-IsCanonical t f m)
      (carried_range _ (raised-Fits _ (lowered-Fits t f)))

-- The sum or difference of two normalised times, in range.
pub record Near (a b : Time) : Type 0 where
  pub secs : pos_part a.sec + neg_part a.sec + (pos_part b.sec + neg_part b.sec) + 5 ≤ int_max

abbrev sum : Time → Time → Time
sum a b = record { sec = a.sec +ℤ b.sec; nsec = a.nsec +ℤ b.nsec }

abbrev difference : Time → Time → Time
difference a b = record { sec = a.sec -ℤ b.sec; nsec = a.nsec -ℤ b.nsec }

module _ (a b : Time) (p : IsCanonical a) (q : IsCanonical b) (n : Near a b) where
  sum-Fits : Fits (sum a b) × IsMild (sum a b)
  unfolding ◌+ℤ◌
  sum-Fits = ground arith

  difference-Fits : Fits (difference a b) × IsMild (difference a b)
  unfolding ◌-ℤ◌
  difference-Fits = ground arith

  nanos-sum : nanos (sum a b) ≡ nanos a +ℤ nanos b
  nanos-sum = omega (int_laws, scale_parts (a.sec +ℤ b.sec), scale_parts a.sec, scale_parts b.sec)

  nanos-difference : nanos (difference a b) ≡ nanos a -ℤ nanos b
  nanos-difference =
      omega (int_laws, scale_parts (a.sec -ℤ b.sec), scale_parts a.sec, scale_parts b.sec)

  sum_some :
      (int32 (a.sec +ℤ b.sec) ≡ some (a.sec +ℤ b.sec))
      × (int32 (a.nsec +ℤ b.nsec) ≡ some (a.nsec +ℤ b.nsec))
  unfolding int32 ◌+ℤ◌
  sum_some = ground arith

  difference_some :
      (int32 (a.sec -ℤ b.sec) ≡ some (a.sec -ℤ b.sec))
      × (int32 (a.nsec -ℤ b.nsec) ≡ some (a.nsec -ℤ b.nsec))
  unfolding int32 ◌-ℤ◌
  difference_some = ground arith

-- The order of normalised times is the order of their nanoseconds.
pub lt-nanos : (a b : Time) → IsCanonical a → IsCanonical b → lt a b ≡ ltb_ℤ (nanos a) (nanos b)
unfolding lt ◌+ℤ◌ ◌*ℤ◌
lt-nanos a b p q = ground arith

pub eq-nanos : (a b : Time) → IsCanonical a → IsCanonical b → eq a b ≡ eq_ℤ (nanos a) (nanos b)
unfolding eq ◌+ℤ◌ ◌*ℤ◌
eq-nanos a b p q = ground arith

-- operator+ on normalised times in range returns the normalised time of the sum of nanoseconds.
pub add-nanos :
    (a b : Time)
    → IsCanonical a
    → IsCanonical b
    → Near a b
    → (u : Time) × (add a b ≡ some u) × IsCanonical u × (nanos u ≡ nanos a +ℤ nanos b)
unfolding add set
add-nanos a b p q n =
    let (f, m) = sum-Fits a b p q n in
    let c : IsCanonical (corrected (sum a b)) = corrected-IsCanonical (sum a b) f m in
    (
      corrected (sum a b),
      rw (
        (sum_some a b p q n).0,
        (sum_some a b p q n).1,
        correct-some (sum a b) f,
        correct_again (sum a b) f m,
      ),
      c,
      nanos-corrected (sum a b) ∙ nanos-sum a b p q n,
    )

pub sub-nanos :
    (a b : Time)
    → IsCanonical a
    → IsCanonical b
    → Near a b
    → (u : Time) × (sub a b ≡ some u) × IsCanonical u × (nanos u ≡ nanos a -ℤ nanos b)
unfolding sub set
sub-nanos a b p q n =
    let (f, m) = difference-Fits a b p q n in
    let c : IsCanonical (corrected (difference a b)) = corrected-IsCanonical (difference a b) f m in
    (
      corrected (difference a b),
      rw (
        (difference_some a b p q n).0,
        (difference_some a b p q n).1,
        correct-some (difference a b) f,
        correct_again (difference a b) f m,
      ),
      c,
      nanos-corrected (difference a b) ∙ nanos-difference a b p q n,
    )

-- One second below zero with more than one second of nanoseconds above it is left with a positive
-- count of seconds and a negative count of nanoseconds.
pub correct_mixed :
    (t : Time)
    → t.sec ≡ negsuc 0
    → ns_in_sec < pos_part t.nsec
    → pos_part t.nsec < 2 * ns_in_sec
    → (u : Time) × (correct t ≡ some u) × (0 < pos_part u.sec) × (0 < neg_part u.nsec)
correct_mixed t a b c = (
  corrected t,
  correct-some t (ground arith),
  unfold corrected ◌+ℤ◌ ◌-ℤ◌ ◌*ℤ◌ in ground arith,
  unfold corrected ◌+ℤ◌ ◌-ℤ◌ ◌*ℤ◌ in ground arith,
)

module _ (t : Time) where
  lower_overflow : 0 < pos_part t.sec → 2 * ns_in_sec ≤ neg_part t.nsec → lower_sec t ≡ none
  unfolding lower_sec ◌+ℤ◌ ◌-ℤ◌ ◌*ℤ◌
  lower_overflow p q = ground arith

  lower_idle : 0 < neg_part t.sec → lower_sec t ≡ some t
  unfolding lower_sec
  lower_idle p = ground arith

  raise_overflow : 0 < neg_part t.sec → 2 * ns_in_sec ≤ pos_part t.nsec → raise_sec t ≡ none
  unfolding raise_sec ◌+ℤ◌ ◌-ℤ◌ ◌*ℤ◌
  raise_overflow p q = ground arith

-- Seconds against two or more seconds of nanoseconds of the other sign overflow.
pub correct_overflow :
    (t : Time)
    → ((0 < pos_part t.sec) × (2 * ns_in_sec ≤ neg_part t.nsec))
      ⊎ ((0 < neg_part t.sec) × (2 * ns_in_sec ≤ pos_part t.nsec))
    → correct t ≡ none
unfolding correct
correct_overflow t (inl (p, q)) = rw (lower_overflow t p q)
correct_overflow t (inr (p, q)) = rw (lower_idle t p, raise_overflow t p q)
