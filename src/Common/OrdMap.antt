-- ===== src/Common/OrdMap.antt =====
-- std::map over integer keys, as a list of entries in increasing order of the keys.
pub mod Laws
use ign_common.Common.{ℕ, ◌<◌, Option, none, some, List, [], ◌∷◌, ltb, ◌==◌, if◌then◌else◌}

abbrev pub OrdMap {ℓ} : Type ℓ → Type ℓ
OrdMap V = List (ℕ × V)

module _ {ℓ} {V : Type ℓ} where
  unfoldable pub find : ℕ → OrdMap V → Option V
  find k [] = none
  find k ((j, v) ∷ m) = if j == k then some v else find k m

  -- operator[] with an assignment
  unfoldable pub insert : ℕ → V → OrdMap V → OrdMap V
  insert k v [] = (k, v) ∷ []
  insert k v ((j, w) ∷ m) =
      if ltb k j then (k, v) ∷ (j, w) ∷ m else if j == k then (k, v) ∷ m else (j, w) ∷ insert k v m

  -- erase of a key; a missing key changes nothing.
  unfoldable pub erase : ℕ → OrdMap V → OrdMap V
  erase k [] = []
  erase k ((j, v) ∷ m) = if j == k then m else (j, v) ∷ erase k m

  -- rbegin()
  unfoldable pub last_key : OrdMap V → Option ℕ
  last_key [] = none
  last_key ((j, v) ∷ []) = some j
  last_key ((j, v) ∷ e ∷ m) = last_key (e ∷ m)

  -- The first entry whose key is at least `k`, where an iterator that passed all lower keys stands.
  unfoldable pub lower_bound : ℕ → OrdMap V → Option (ℕ × V)
  lower_bound k [] = none
  lower_bound k ((j, v) ∷ m) = if ltb j k then lower_bound k m else some (j, v)

  abbrev pub IsAbove : ℕ → OrdMap V → Type 0
  IsAbove k [] = Unit
  IsAbove k ((j, v) ∷ m) = (k < j) × IsAbove k m

  abbrev pub IsSorted : OrdMap V → Type 0
  IsSorted [] = Unit
  IsSorted ((j, v) ∷ m) = IsAbove j m × IsSorted m
