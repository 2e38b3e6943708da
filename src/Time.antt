-- ===== src/Time.antt =====
-- include/ignition/common/Time.hh and src/Time.cc: a time as seconds and nanoseconds in two int32_t.
-- Signed overflow is undefined in C++, so every int32_t result goes through `int32`: `none` is that.
pub mod Total
pub mod Canonical
mod Tests
use ign_common.Common.{
  ℕ, ◌+◌, ◌/◌, ◌%◌, ◌^◌, ◌-◌, Bool, ◌&&◌, ◌||◌, Option, none, some, ltb, ◌==◌, if◌then◌else◌,
}
use ign_common.Common.Int.{ℤ, pos, negsuc, pos_part, neg_part, sub_ℕ, ◌+ℤ◌, ◌-ℤ◌, ◌*ℤ◌, ltb_ℤ}
use mathlib.Core.Bool.{not}

infixl 5 ◌>>=◌
abbrev pub ◌>>=◌ {ℓ κ} : {A : Type ℓ} {B : Type κ} → Option A → (A → Option B) → Option B
none >>= f = none
some a >>= f = f a

pub record Time : Type 0 where
  pub sec : ℤ
  pub nsec : ℤ

abbrev pub zero_time : Time
zero_time = record { sec = pos 0; nsec = pos 0 }

abbrev pub ns_in_sec : ℕ
ns_in_sec = 1_000_000_000

-- INT32_MAX
abbrev pub int_max : ℕ
int_max = 2 ^ 31 - 1

unfoldable pub int32 : ℤ → Option ℤ
int32 a = if ltb int_max (pos_part a) || ltb (int_max + 1) (neg_part a) then none else some a

-- The quotient and the remainder of C++ round towards zero.
abbrev pub div_trunc : ℤ → ℕ → ℤ
div_trunc a d = sub_ℕ (pos_part a / d) (neg_part a / d)

abbrev pub mod_trunc : ℤ → ℕ → ℤ
mod_trunc a d = sub_ℕ (pos_part a % d) (neg_part a % d)

-- `abs(nsec / nsInSec) + 1`
abbrev pub whole_seconds : ℤ → ℕ
whole_seconds nsec = pos_part nsec / ns_in_sec + neg_part nsec / ns_in_sec + 1

-- `sec -= n; nsec += n * nsInSec;`
take_seconds : Time → ℕ → Option Time
unfolding int32
take_seconds t n = do
  s ← int32 (t.sec -ℤ pos n)
  shift ← int32 (pos n *ℤ pos ns_in_sec)
  r ← int32 (t.nsec +ℤ shift)
  some (record { sec = s; nsec = r })

-- `sec += n; nsec -= n * nsInSec;`
give_seconds : Time → ℕ → Option Time
unfolding int32
give_seconds t n = do
  s ← int32 (t.sec +ℤ pos n)
  shift ← int32 (pos n *ℤ pos ns_in_sec)
  r ← int32 (t.nsec -ℤ shift)
  some (record { sec = s; nsec = r })

abbrev is_positive : ℤ → Bool
is_positive a = ltb 0 (pos_part a)

abbrev is_negative : ℤ → Bool
is_negative a = ltb 0 (neg_part a)

lower_sec : Time → Option Time
unfolding take_seconds
lower_sec t =
    if is_positive t.sec && is_negative t.nsec
    then take_seconds t (whole_seconds t.nsec)
    else some t

raise_sec : Time → Option Time
unfolding give_seconds
raise_sec t =
    if is_negative t.sec && is_positive t.nsec
    then give_seconds t (whole_seconds t.nsec)
    else some t

carry : Time → Option Time
unfolding int32
carry t = do
  s ← int32 (t.sec +ℤ div_trunc t.nsec ns_in_sec)
  some (record { sec = s; nsec = mod_trunc t.nsec ns_in_sec })

-- Time::Correct
pub correct : Time → Option Time
unfolding lower_sec raise_sec carry
correct t = do a ← lower_sec t; b ← raise_sec a; carry b

-- Time(int32_t, int32_t) and Set(int32_t, int32_t)
pub set : ℤ → ℤ → Option Time
set sec nsec = correct (record { sec = sec; nsec = nsec })

-- operator+ and operator-: the constructor corrects, and the operator does so again.
pub add : Time → Time → Option Time
add a b = do s ← int32 (a.sec +ℤ b.sec); r ← int32 (a.nsec +ℤ b.nsec); t ← set s r; correct t

pub sub : Time → Time → Option Time
sub a b = do s ← int32 (a.sec -ℤ b.sec); r ← int32 (a.nsec -ℤ b.nsec); t ← set s r; correct t

-- operator+= and operator-= correct once.
pub add_assign : Time → Time → Option Time
add_assign a b = do
  s ← int32 (a.sec +ℤ b.sec)
  r ← int32 (a.nsec +ℤ b.nsec)
  correct (record { sec = s; nsec = r })

pub sub_assign : Time → Time → Option Time
sub_assign a b = do
  s ← int32 (a.sec -ℤ b.sec)
  r ← int32 (a.nsec -ℤ b.nsec)
  correct (record { sec = s; nsec = r })

-- operator==, operator< and those that are written with them
abbrev pub eq_ℤ : ℤ → ℤ → Bool
eq_ℤ a b = pos_part a == pos_part b && neg_part a == neg_part b

pub eq : Time → Time → Bool
eq a b = eq_ℤ a.sec b.sec && eq_ℤ a.nsec b.nsec

pub lt : Time → Time → Bool
lt a b = ltb_ℤ a.sec b.sec || (eq_ℤ a.sec b.sec && ltb_ℤ a.nsec b.nsec)

pub le : Time → Time → Bool
unfolding lt
le a b = not (lt b a)

pub gt : Time → Time → Bool
unfolding lt
gt a b = lt b a

pub ge : Time → Time → Bool
unfolding lt
ge a b = not (lt a b)
