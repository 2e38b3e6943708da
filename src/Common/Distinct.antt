-- ===== src/Common/Distinct.antt =====
-- Lists of numbers that hold each number once.
use ign_common.Common.{
  ℕ, suc, zero, ◌≡◌, refl, Bool, true, false, some, List, [], ◌∷◌, ◌++◌, arith, ◌==◌, if◌then◌else◌,
  get_elem?,
}

abbrev pub contains : ℕ → List ℕ → Bool
contains i [] = false
contains i (j ∷ js) = if j == i then true else contains i js

abbrev pub IsDistinct : List ℕ → Type 0
IsDistinct [] = Unit
IsDistinct (i ∷ is) = (contains i is ≡ false) × IsDistinct is

pub contains_last : (is : List ℕ) (i : ℕ) → contains i (is ++ i ∷ []) ≡ true
contains_last [] i = ground arith
contains_last (j ∷ js) i = ground (arith, contains_last js i)

pub contains-append :
    (i : ℕ) (is js : List ℕ)
    → contains i (is ++ js) ≡ (if contains i is then true else contains i js)
contains-append i [] js = refl
contains-append i (k ∷ is) js = ground (arith, contains-append i is js)

-- Two lists with no number in common.
abbrev pub AreApart : List ℕ → List ℕ → Type 0
AreApart [] js = Unit
AreApart (i ∷ is) js = (contains i js ≡ false) × AreApart is js

pub IsDistinct-front : (is js : List ℕ) → IsDistinct (is ++ js) → IsDistinct is
IsDistinct-front [] js d = tt
IsDistinct-front (i ∷ is) js d =
    (ground (arith, contains-append i is js, d.0), IsDistinct-front is js d.1)

pub IsDistinct-back : (is js : List ℕ) → IsDistinct (is ++ js) → IsDistinct js
IsDistinct-back [] js d = d
IsDistinct-back (i ∷ is) js d = IsDistinct-back is js d.1

pub IsDistinct-apart : (is js : List ℕ) → IsDistinct (is ++ js) → AreApart is js
IsDistinct-apart [] js d = tt
IsDistinct-apart (i ∷ is) js d =
    (ground (arith, contains-append i is js, d.0), IsDistinct-apart is js d.1)

pub apart-contains :
    (i : ℕ) (is js : List ℕ) → AreApart is js → contains i is ≡ true → contains i js ≡ false
apart-contains i [] js a h = cc
apart-contains i (k ∷ is) js a h = ground (arith, a.0, apart-contains i is js a.1)

-- What stands at a position is in the list.
pub contains-get_elem? : (is : List ℕ) (j p : ℕ) → get_elem? is j ≡ some p → contains p is ≡ true
contains-get_elem? [] j p h = cc
contains-get_elem? (i ∷ is) zero p h = ground arith
contains-get_elem? (i ∷ is) (suc j) p h = ground (arith, contains-get_elem? is j p h)
