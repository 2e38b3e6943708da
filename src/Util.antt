-- ===== src/Util.antt =====
-- The text functions of src/Util.cc: split, the trimming functions, lowercase and replaceAll.
pub mod Splitting
pub mod Words
pub mod Trimming
pub mod Replacing
pub mod Sha1
pub mod Feed
pub mod Digest
mod Tests
use ign_common.Common.{
  ℕ, zero, suc, ◌+◌, ◌-◌, Bool, true, false, ◌&&◌, ◌||◌, Option, none, some, List, [], ◌∷◌, ◌++◌,
  ltb, leb, ◌==◌, if◌then◌else◌, length, take, drop, map,
}
use mathlib.Core.Bool.{not}
use mathlib.Core.List.{reverse}
use mathlib.Core.Option
use ign_common.Common.Text.{Bytes, one_of}

-- isspace and tolower of the C locale
unfoldable pub is_space : ℕ → Bool
is_space c = c == 32 || (leb 9 c && leb c 13)

pub to_lower : ℕ → ℕ
to_lower c = if leb b'A' c && leb c b'Z' then c + 32 else c

abbrev pub drop_while : (ℕ → Bool) → Bytes → Bytes
drop_while p [] = []
drop_while p (c ∷ s) = if p c then drop_while p s else c ∷ s

abbrev pub take_while : (ℕ → Bool) → Bytes → Bytes
take_while p [] = []
take_while p (c ∷ s) = if p c then c ∷ take_while p s else []

unfoldable pub ltrimmed : Bytes → Bytes
ltrimmed s = drop_while is_space s

-- The reverse iterators of rtrim walk the text from its end.
unfoldable pub rtrimmed : Bytes → Bytes
rtrimmed s = reverse (drop_while is_space (reverse s))

unfoldable pub trimmed : Bytes → Bytes
unfolding ltrimmed rtrimmed
trimmed s = rtrimmed (ltrimmed s)

unfoldable pub lowercase : Bytes → Bytes
unfolding to_lower
lowercase s = map to_lower s

abbrev tail : Bytes → Bytes
tail [] = []
tail (c ∷ s) = s

-- strtok_r: skip delimiters, then a word up to the next one, and what is saved behind that one.
word_of : (ℕ → Bool) → Bytes → Option (Bytes × Bytes)
word_of d [] = none
word_of d (c ∷ s) =
    let word = take_while (λ x. not (d x)) (c ∷ s) in
    let rest = drop_while (λ x. not (d x)) (c ∷ s) in some (word, tail rest)

strtok : Bytes → Bytes → Option (Bytes × Bytes)
unfolding word_of
strtok delim s = word_of (one_of delim) (drop_while (one_of delim) s)

-- A C string stops at the first zero byte.
abbrev pub c_str : Bytes → Bytes
c_str = take_while (λ c. not (c == 0))

-- The loop of split, with the delimiters as the C string that strtok reads.
split_loop : ℕ → Bytes → Bytes → List Bytes → Option (List Bytes)
unfolding strtok
split_loop zero delim s tokens = none
split_loop (suc fuel) delim s tokens = elim (strtok delim s) [
  | none ↦ some tokens
  | some (token, rest) ↦ split_loop fuel delim rest (tokens ++ token ∷ [])
]

-- Each round takes a character at least.
unfoldable pub split : Bytes → Bytes → Option (List Bytes)
unfolding split_loop
split s delim = split_loop (suc (length (c_str s))) (c_str delim) (c_str s) []

abbrev is_prefix : Bytes → Bytes → Bool
is_prefix [] s = true
is_prefix (k ∷ key) [] = false
is_prefix (k ∷ key) (c ∷ s) = (c == k) && is_prefix key s

find_in : Bytes → Bytes → Option ℕ
find_in key [] = if is_prefix key [] then some 0 else none
find_in key (c ∷ s) = if is_prefix key (c ∷ s) then some 0 else Option.map suc (find_in key s)

-- find(key, pos)
unfoldable pub find_text : Bytes → Bytes → ℕ → Option ℕ
unfolding find_in
find_text s key pos =
    if ltb (length s) pos then none else Option.map (λ i. pos + i) (find_in key (drop pos s))

-- replace(pos, n, replacement)
abbrev replace_at : Bytes → ℕ → ℕ → Bytes → Bytes
replace_at s pos n replacement = take pos s ++ (replacement ++ drop (pos + n) s)

-- The position stays where it is when the text shrinks, and else passes the replacement.
replace_loop : ℕ → Bytes → Bytes → Bytes → ℕ → Option Bytes
unfolding find_text
replace_loop zero s key replacement pos = none
replace_loop (suc fuel) s key replacement pos = elim (find_text s key pos) [
  | none ↦ some s
  | some p ↦
      replace_loop fuel (replace_at s p (length key) replacement) key replacement
        (p + (if ltb (length replacement) (length key) then 0 else length replacement))
]

-- replaceAll with a key that is not empty: each round leaves less of the text behind the position.
-- With an empty key the source does not end.
unfoldable pub replace_all : Bytes → Bytes → Bytes → Option Bytes
unfolding replace_loop
replace_all s key replacement = replace_loop (suc (length s)) s key replacement 0
