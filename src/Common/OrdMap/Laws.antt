-- ===== src/Common/OrdMap/Laws.antt =====
-- Lookups after each operation of the ordered map, and its order.
use ign_common.Common.{
  ℕ, ◌+◌, ◌≤◌, ◌<◌, ◌≡◌, ◌≢◌, refl, none, some, [], ◌∷◌, arith, ◌==◌, if◌then◌else◌, length,
}
use ign_common.Common.OrdMap.{OrdMap, find, insert, erase, last_key, IsAbove, IsSorted}

module _ {ℓ} {V : Type ℓ} where
  pub IsAbove-trans : (i j : ℕ) (m : OrdMap V) → i ≤ j → IsAbove j m → IsAbove i m
  IsAbove-trans i j [] h a = tt
  IsAbove-trans i j ((k, v) ∷ m) h a = (omega arith, IsAbove-trans i j m h a.1)

  pub find_below : (k : ℕ) (m : OrdMap V) → IsAbove k m → find k m ≡ none
  unfolding find
  find_below k [] a = refl
  find_below k ((j, v) ∷ m) a = ground (arith, find_below k m a.1)

  pub find-insert :
      (k j : ℕ) (v : V) (m : OrdMap V)
      → IsSorted m
      → find j (insert k v m) ≡ (if k == j then some v else find j m)
  unfolding find insert
  find-insert k j v [] s = refl
  find-insert k j v ((i, w) ∷ m) s = ground (arith, find-insert k j v m s.1)

  pub find-erase :
      (k j : ℕ) (m : OrdMap V)
      → IsSorted m
      → find j (erase k m) ≡ (if k == j then none else find j m)
  unfolding find erase
  find-erase k j [] s = ground arith
  find-erase k j ((i, w) ∷ m) s = ground (arith, find-erase k j m s.1, find_below i m s.0)

  insert-IsAbove : (i k : ℕ) (v : V) (m : OrdMap V) → i < k → IsAbove i m → IsAbove i (insert k v m)
  unfolding insert
  insert-IsAbove i k v [] h a = (h, tt)
  insert-IsAbove i k v ((j, w) ∷ m) h a = ground (arith, insert-IsAbove i k v m h a.1)

  pub insert-IsSorted : (k : ℕ) (v : V) (m : OrdMap V) → IsSorted m → IsSorted (insert k v m)
  unfolding insert
  insert-IsSorted k v [] s = (tt, tt)
  insert-IsSorted k v ((j, w) ∷ m) s =
      ground (arith, insert-IsSorted k v m s.1, insert-IsAbove j k v m, IsAbove-trans k j m)

  erase-IsAbove : (i k : ℕ) (m : OrdMap V) → IsAbove i m → IsAbove i (erase k m)
  unfolding erase
  erase-IsAbove i k [] a = tt
  erase-IsAbove i k ((j, w) ∷ m) a = ground (arith, erase-IsAbove i k m a.1)

  pub erase-IsSorted : (k : ℕ) (m : OrdMap V) → IsSorted m → IsSorted (erase k m)
  unfolding erase
  erase-IsSorted k [] s = tt
  erase-IsSorted k ((j, w) ∷ m) s = ground (arith, erase-IsSorted k m s.1, erase-IsAbove j k m s.0)

  pub length-erase :
      (k : ℕ) (m : OrdMap V) (v : V) → find k m ≡ some v → length (erase k m) + 1 ≡ length m
  unfolding find erase
  length-erase k [] v h = cc
  length-erase k ((j, w) ∷ m) v h = ground (arith, length-erase k m v)

  pub length-insert :
      (k : ℕ) (v : V) (m : OrdMap V) → find k m ≡ none → length (insert k v m) ≡ length m + 1
  unfolding find insert
  length-insert k v [] h = refl
  length-insert k v ((j, w) ∷ m) h = ground (arith, length-insert k v m)

  head-le-last :
      (j : ℕ) (v : V) (m : OrdMap V) (l : ℕ)
      → IsSorted ((j, v) ∷ m)
      → last_key ((j, v) ∷ m) ≡ some l
      → j ≤ l
  unfolding last_key
  head-le-last j v [] l s h = ground arith
  head-le-last j v ((i, w) ∷ m) l s h = ground (arith, head-le-last i w m l s.1 h)

  -- The last key is the largest.
  pub find_past :
      (m : OrdMap V) (l k : ℕ) → IsSorted m → last_key m ≡ some l → l < k → find k m ≡ none
  unfolding find last_key
  find_past [] l k s h lt = cc
  find_past ((j, v) ∷ []) l k s h lt = ground arith
  find_past ((j, v) ∷ (i, w) ∷ m) l k s h lt =
      ground (arith, find_past ((i, w) ∷ m) l k s.1 h lt, head-le-last i w m l s.1 h)

  last_none : (j : ℕ) (v : V) (m : OrdMap V) → last_key ((j, v) ∷ m) ≢ none
  unfolding last_key
  last_none j v [] h = cc
  last_none j v ((i, w) ∷ m) h = last_none i w m h

  pub find_empty : (m : OrdMap V) (k : ℕ) → last_key m ≡ none → find k m ≡ none
  unfolding find
  find_empty [] k h = refl
  find_empty ((j, v) ∷ m) k h = absurd (last_none j v m h)
