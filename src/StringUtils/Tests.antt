-- ===== src/StringUtils/Tests.antt =====
-- Runs of src/StringUtils.cc, and its theorems at concrete texts.
use ign_common.Common.{◌≤◌, ◌≡◌, refl, some, List, [], ◌∷◌, length}
use ign_common.Common.Int.{pos, negsuc}
use ign_common.Common.Text.{Bytes, codes, All, Lacks}
use ign_common.StringUtils.{split, plural_cast}
use ign_common.StringUtils.Pieces.{join, split_lem}

split_paths : split (codes "/a::b") b':' ≡ some (codes "/a" ∷ [] ∷ codes "b" ∷ [])
unfolding split
split_paths = refl

split_empty : split [] b':' ≡ some ([] ∷ [])
unfolding split
split_empty = refl

plurals :
    (plural_cast (codes "bird") (negsuc 0) ≡ codes "bird")
    × (plural_cast (codes "bird") (pos 0) ≡ codes "birds")
unfolding plural_cast
plurals = (refl, refl)

split_lem_example :
    (ps : List Bytes) × (split (codes "/a:b") b':' ≡ some ps)
    × (join b':' ps ≡ codes "/a:b")
    × All (Lacks b':') ps
    × (1 ≤ length ps)
split_lem_example = split_lem (codes "/a:b") b':'
