-- ===== src/StringUtils.antt =====
-- src/StringUtils.cc: Split, StartsWith, EndsWith and PluralCast.
pub mod Pieces
pub mod Affixes
mod Tests
use ign_common.Common.{
  ℕ, zero, suc, ◌+◌, ◌-◌, Bool, true, false, Option, none, some, List, [], ◌∷◌, ◌++◌, ◌==◌, ltb,
  if◌then◌else◌, length,
}
use ign_common.Common.Int.{ℤ, pos_part, neg_part}
use ign_common.Common.Text.{Bytes, codes, eqb, find_char, substr}

-- The loop of `Split` over `pieces`, `pos1` and `pos2`; `none` when the fuel runs out.
split_loop : ℕ → Bytes → ℕ → List Bytes → ℕ → Option ℕ → Option (List Bytes)
split_loop fuel orig delim pieces pos1 none =
    some (pieces ++ substr orig pos1 (some (length orig - pos1)) ∷ [])
split_loop zero orig delim pieces pos1 (some pos2) = none
split_loop (suc fuel) orig delim pieces pos1 (some pos2) =
    split_loop fuel orig delim (pieces ++ substr orig pos1 (some (pos2 - pos1)) ∷ []) (pos2 + 1)
      (find_char orig delim (pos2 + 1))

-- Each round consumes a delimiter, so as many rounds as there are characters are enough.
unfoldable pub split : Bytes → ℕ → Option (List Bytes)
unfolding split_loop
split orig delim = split_loop (length orig) orig delim [] 0 (find_char orig delim 0)

-- `0 == s1.compare(pos, n, s2)` is the comparison of a substring.
unfoldable pub starts_with : Bytes → Bytes → Bool
starts_with s1 s2 =
    if ltb (length s1) (length s2) then false else eqb (substr s1 0 (some (length s2))) s2

unfoldable pub ends_with : Bytes → Bytes → Bool
ends_with s1 s2 =
    if ltb (length s1) (length s2)
    then false
    else eqb (substr s1 (length s1 - length s2) (some (length s2))) s2

-- std::abs(n) == 1
pub plural_cast_with : Bytes → Bytes → ℤ → Bytes
plural_cast_with singular plural n = if pos_part n + neg_part n == 1 then singular else plural

pub plural_cast : Bytes → ℤ → Bytes
unfolding plural_cast_with
plural_cast base_word n = plural_cast_with base_word (base_word ++ codes "s") n
