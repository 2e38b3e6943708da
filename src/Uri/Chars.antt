-- ===== src/Uri/Chars.antt =====
-- The searches in a text that src/URI.cc makes to check its characters.
use ign_common.Common.{ℕ, ◌+◌, ◌≡◌, arith, Bool-cases, inl, inr, true, false, Option, [], ◌∷◌, drop}
use mathlib.Core.Bool.{not}
use mathlib.Core.Option
use ign_common.Common.Text.{Bytes, All, Lacks, one_of, index_where, is_some}

-- find_first_not_of(chars, pos)
unfoldable pub find_first_not_of : Bytes → Bytes → ℕ → Option ℕ
find_first_not_of chars s pos =
    Option.map (λ i. pos + i) (index_where (λ c. not (one_of chars c)) (drop pos s))

-- find_first_of(chars, pos)
unfoldable pub find_first_of : Bytes → Bytes → ℕ → Option ℕ
find_first_of chars s pos = Option.map (λ i. pos + i) (index_where (one_of chars) (drop pos s))

-- A search that finds nothing says that every character is allowed.
pub allowed-All :
    (chars s : Bytes)
    → is_some (find_first_not_of chars s 0) ≡ false
    → All (λ c. one_of chars c ≡ true) s
unfolding find_first_not_of
allowed-All chars [] h = tt
allowed-All chars (c ∷ s) h = elim (Bool-cases (one_of chars c)) [
  | inl e ↦ (e, allowed-All chars s (ground (arith, h, e)))
  | inr e ↦ absurd (ground (arith, h, e))
]

-- A set that does not hold the zero byte allows none.
pub allowed-Lacks :
    (chars s : Bytes) → one_of chars 0 ≡ false → All (λ c. one_of chars c ≡ true) s → Lacks 0 s
allowed-Lacks chars [] z h = tt
allowed-Lacks chars (c ∷ s) z h =
    (λ e. let k : one_of chars 0 ≡ true = rw e at h.0 in cc, allowed-Lacks chars s z h.1)

-- The same for a search that passes over the first character.
pub allowed_after-Lacks :
    (chars : Bytes) (x : ℕ) (s : Bytes)
    → one_of chars 0 ≡ false
    → is_some (find_first_not_of chars (x ∷ s) 1) ≡ false
    → Lacks 0 s
unfolding find_first_not_of
allowed_after-Lacks chars x s z h =
    allowed-Lacks chars s z (allowed-All chars s (ground (arith, h)))
