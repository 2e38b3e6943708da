-- ===== src/Common/Text.antt =====
-- std::string as a list of character codes, with the member functions that the sources call.
-- The position that a search returns is `none` where the C++ function returns npos.
use Prim.Native.Char.{code}
use Prim.Native.String.{String}
use mathlib.Core.Option
use ign_common.Common.{
  ℕ, zero, suc, ◌+◌, ◌≤◌, ◌≡◌, refl, sym, ap, ◌∙◌, ◌≢◌, ◌↔◌, Bool, true, false, ◌&&◌, Option, none,
  some, List, [], ◌∷◌, ◌++◌, arith, ◌==◌, if◌then◌else◌, length, take, drop,
}

abbrev pub Bytes : Type 0
Bytes = List ℕ

-- The codes of a literal. `String` has its own `[]` and `∷`.
abbrev pub codes : String → Bytes
codes String.[] = []
codes (String.◌∷◌ c s) = code c ∷ codes s

-- operator== on strings
abbrev pub eqb : Bytes → Bytes → Bool
eqb [] [] = true
eqb [] (d ∷ t) = false
eqb (c ∷ s) [] = false
eqb (c ∷ s) (d ∷ t) = (c == d) && eqb s t

pub eqb_iff : (s t : Bytes) → (eqb s t ≡ true) ↔ (s ≡ t)
eqb_iff [] [] = (λ _. refl, λ _. refl)
eqb_iff [] (d ∷ t) = (λ h. cc, λ h. cc)
eqb_iff (c ∷ s) [] = (λ h. cc, λ h. cc)
eqb_iff (c ∷ s) (d ∷ t) = (λ h. ground (arith, eqb_iff s t), λ h. ground (arith, eqb_iff s t))

pub eqb_refl : (s : Bytes) → eqb s s ≡ true
eqb_refl s = (eqb_iff s s).1 refl

-- empty()
abbrev pub is_empty : Bytes → Bool
is_empty [] = true
is_empty (c ∷ s) = false

-- The first position of a character that passes the test.
abbrev pub index_where : (ℕ → Bool) → Bytes → Option ℕ
index_where p [] = none
index_where p (c ∷ s) = if p c then some 0 else Option.map suc (index_where p s)

-- A search has not returned npos.
abbrev pub is_some {ℓ} : {A : Type ℓ} → Option A → Bool
is_some none = false
is_some (some x) = true

-- find(c, pos): a search from a position past the end finds nothing.
abbrev pub find_char : Bytes → ℕ → ℕ → Option ℕ
find_char s c pos = Option.map (λ i. pos + i) (index_where (λ x. x == c) (drop pos s))

-- substr(pos, n), with `none` for npos
abbrev pub take_upto : Option ℕ → Bytes → Bytes
take_upto none s = s
take_upto (some n) s = take n s

abbrev pub substr : Bytes → ℕ → Option ℕ → Bytes
substr s pos n = take_upto n (drop pos s)

-- erase(0, n), with `none` for npos
abbrev pub erase_front : Option ℕ → Bytes → Bytes
erase_front none s = []
erase_front (some n) s = drop n s

-- A character is one of a set.
abbrev pub one_of : Bytes → ℕ → Bool
one_of [] c = false
one_of (d ∷ s) c = if d == c then true else one_of s c

abbrev pub All {ℓ κ} : {A : Type ℓ} → (A → Type κ) → List A → Type κ
All P [] = Unit
All P (x ∷ xs) = P x × All P xs

-- No character of the text is `c`.
abbrev pub Lacks : ℕ → Bytes → Type 0
Lacks c = All (λ x. x ≢ c)

pub drop-nil {ℓ} : {A : Type ℓ} (n : ℕ) → drop {A = A} n [] ≡ []
drop-nil zero = refl
drop-nil (suc n) = refl

pub drop-drop {ℓ} : {A : Type ℓ} (m n : ℕ) (s : List A) → drop n (drop m s) ≡ drop (m + n) s
drop-drop zero n s = rw (let e : 0 + n ≡ n = omega arith in e)
drop-drop (suc m) n [] = drop-nil n ∙ sym (drop-nil (suc m + n))
drop-drop (suc m) n (x ∷ s) =
    let e : suc m + n ≡ suc (m + n) = omega arith in rw e (drop-drop m n s)

pub take-all {ℓ} : {A : Type ℓ} (n : ℕ) (s : List A) → length s ≤ n → take n s ≡ s
take-all zero [] h = refl
take-all zero (x ∷ s) h = absurd (omega arith)
take-all (suc n) [] h = refl
take-all (suc n) (x ∷ s) h = ap (λ t. x ∷ t) (take-all n s (omega arith))

pub take-append {ℓ} : {A : Type ℓ} (s t : List A) → take (length s) (s ++ t) ≡ s
take-append [] t = refl
take-append (x ∷ s) t = ap (λ u. x ∷ u) (take-append s t)

pub drop-append {ℓ} : {A : Type ℓ} (s t : List A) → drop (length s) (s ++ t) ≡ t
drop-append [] t = refl
drop-append (x ∷ s) t = drop-append s t

pub Lacks-append : (c : ℕ) (s t : Bytes) → Lacks c s → Lacks c t → Lacks c (s ++ t)
Lacks-append c [] t h k = k
Lacks-append c (x ∷ s) t h k = (h.0, Lacks-append c s t h.1 k)

pub Lacks-front : (c : ℕ) (s t : Bytes) → Lacks c (s ++ t) → Lacks c s
Lacks-front c [] t h = tt
Lacks-front c (x ∷ s) t h = (h.0, Lacks-front c s t h.1)

pub Lacks-back : (c : ℕ) (s t : Bytes) → Lacks c (s ++ t) → Lacks c t
Lacks-back c [] t h = h
Lacks-back c (x ∷ s) t h = Lacks-back c s t h.1
