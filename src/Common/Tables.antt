-- ===== src/Common/Tables.antt =====
-- Facts about single bytes, checked by evaluation at every value below a bound.
use ign_common.Common.{ℕ, zero, suc, ◌<◌, ◌≡◌, Bool, true, ◌&&◌, arith, ◌==◌}

unfoldable pub all_below : ℕ → (ℕ → Bool) → Bool
all_below zero p = true
all_below (suc n) p = p n && all_below n p

all_below→eq : (n : ℕ) (p : ℕ → Bool) → all_below n p ≡ true → (x : ℕ) → x < n → p x ≡ true
unfolding all_below
all_below→eq zero p h x lt = absurd (omega arith)
all_below→eq (suc n) p h x lt = ground (arith, all_below→eq n p (ground arith) x)

pub holds_below : (n : ℕ) (p : ℕ → Bool) → all_below n p ≡ true → (x : ℕ) → x < n → p x ≡ true
holds_below = all_below→eq

-- Two functions agree below a bound.
pub agree_below :
    (n : ℕ) (f g : ℕ → ℕ) → all_below n (λ x. f x == g x) ≡ true → (x : ℕ) → x < n → f x ≡ g x
agree_below n f g h x lt = ground (arith, holds_below n (λ x. f x == g x) h x)
