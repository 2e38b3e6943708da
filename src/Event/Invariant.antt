-- ===== src/Event/Invariant.antt =====
-- The queue of removals of Event.hh: when Cleanup is defined, and what it leaves.
use mathlib.Core.Bool.{false≢true}
use ign_common.Common.{
  ℕ, ◌+◌, ◌≡◌, refl, ◌⊎◌, inl, inr, true, false, none, some, List, [], ◌∷◌, ◌++◌, arith, ◌==◌,
  if◌then◌else◌, length, Bool-cases,
}
use ign_common.Common.Distinct.{contains, IsDistinct, contains_last}
use ign_common.Common.OrdMap.{OrdMap, find, insert, erase, IsSorted}
use ign_common.Common.OrdMap.Laws.{find-insert, find-erase, erase-IsSorted, length-erase}
use ign_common.Event.{EventT, EventConnection, erase_all}

module _ {ℓ} {C : Type ℓ} where
  -- The connections of these ids are there and are switched off.
  abbrev pub AreOff : OrdMap (EventConnection C) → List ℕ → Type ℓ
  AreOff m [] = Unit
  AreOff m (i ∷ is) = ((c : EventConnection C) × (find i m ≡ some c) × (c.on ≡ false)) × AreOff m is

  pub record IsValid (e : EventT C) : Type ℓ where
    pub sorted : IsSorted e.connections
    pub distinct : IsDistinct e.connections_to_remove
    pub off : AreOff e.connections e.connections_to_remove

  AreOff-erase :
      (m : OrdMap (EventConnection C)) (i : ℕ) (is : List ℕ)
      → IsSorted m
      → contains i is ≡ false
      → AreOff m is
      → AreOff (erase i m) is
  AreOff-erase m i [] s h a = tt
  AreOff-erase m i (j ∷ js) s h ((c, e, o), a) =
      ((c, ground (arith, find-erase i j m s), o), AreOff-erase m i js s (ground arith) a)

  -- A defined removal takes away the queued ids and nothing else.
  pub erase_all_lem :
      (is : List ℕ) (m : OrdMap (EventConnection C))
      → IsSorted m
      → IsDistinct is
      → AreOff m is
      → (m' : OrdMap (EventConnection C)) × (erase_all is m ≡ some m')
        × IsSorted m'
        × ((j : ℕ) → find j m' ≡ (if contains j is then none else find j m))
        × (length m' + length is ≡ length m)
  unfolding erase_all
  erase_all_lem [] m s d a = (m, refl, s, λ j. refl, omega arith)
  erase_all_lem (i ∷ is) m s d ((c, e, o), a) =
      let (m', r, s', f, l) =
        erase_all_lem is (erase i m) (erase-IsSorted i m s) d.1 (AreOff-erase m i is s d.0 a) in
      (
        m',
        rw (e, erase_all) r,
        s',
        λ j. ground (arith, f j, find-erase i j m s),
        omega (arith, l, length-erase i m c e),
      )

  erase_all_gone :
      (is : List ℕ) (m : OrdMap (EventConnection C)) (i : ℕ)
      → IsSorted m
      → find i m ≡ none
      → contains i is ≡ true
      → erase_all is m ≡ none
  unfolding erase_all
  erase_all_gone [] m i s h k = cc
  erase_all_gone (j ∷ js) m i s h k =
      ground (arith, erase_all_gone js (erase j m) i (erase-IsSorted j m s), find-erase j i m s)

  -- An id that is queued twice makes the removal undefined.
  pub erase_all_twice :
      (is : List ℕ) (m : OrdMap (EventConnection C)) (i : ℕ)
      → IsSorted m
      → contains i is ≡ true
      → erase_all (is ++ i ∷ []) m ≡ none
  unfolding erase_all
  erase_all_twice [] m i s k = cc
  erase_all_twice (j ∷ js) m i s k = ground (
    arith,
    erase_all_twice js (erase j m) i (erase-IsSorted j m s),
    erase_all_gone (js ++ i ∷ []) (erase j m) i (erase-IsSorted j m s),
    find-erase j i m s,
    contains_last js i,
  )

  pub off_of_contains :
      (m : OrdMap (EventConnection C)) (i : ℕ) (is : List ℕ)
      → AreOff m is
      → contains i is ≡ true
      → (c : EventConnection C) × (find i m ≡ some c) × (c.on ≡ false)
  off_of_contains m i [] a h = absurd (false≢true h)
  off_of_contains m i (j ∷ js) ((c, e, o), a) h = elim (Bool-cases (j == i)) [
    | inl q ↦ (c, ground arith, o)
    | inr q ↦ off_of_contains m i js a (ground arith)
  ]

  -- A write at another key keeps the queued connections off; so does switching one off.
  pub AreOff-insert :
      (m : OrdMap (EventConnection C)) (i : ℕ) (c : EventConnection C) (is : List ℕ)
      → IsSorted m
      → (contains i is ≡ false) ⊎ (c.on ≡ false)
      → AreOff m is
      → AreOff (insert i c m) is
  AreOff-insert m i c [] s h a = tt
  AreOff-insert m i c (j ∷ js) s h ((d, e, o), a) = elim (Bool-cases (i == j)) [
    | inl q ↦ (
      (c, rw (find-insert i j c m s, q), ground arith),
      AreOff-insert m i c js s (ground arith) a,
    )
    | inr q ↦ ((d, rw (find-insert i j c m s, q) e, o), AreOff-insert m i c js s (ground arith) a)
  ]

  pub AreOff-append :
      (m : OrdMap (EventConnection C)) (i : ℕ) (c : EventConnection C) (is : List ℕ)
      → AreOff m is
      → find i m ≡ some c
      → c.on ≡ false
      → AreOff m (is ++ i ∷ [])
  AreOff-append m i c [] a e o = ((c, e, o), tt)
  AreOff-append m i c (j ∷ js) (h, a) e o = (h, AreOff-append m i c js a e o)

pub contains-append :
    (j : ℕ) (is : List ℕ) (i : ℕ)
    → contains j (is ++ i ∷ []) ≡ (if contains j is then true else i == j)
contains-append j [] i = ground arith
contains-append j (k ∷ ks) i = ground (arith, contains-append j ks i)

pub IsDistinct-append :
    (is : List ℕ) (i : ℕ) → IsDistinct is → contains i is ≡ false → IsDistinct (is ++ i ∷ [])
IsDistinct-append [] i d h = (refl, tt)
IsDistinct-append (j ∷ js) i d h =
    (ground (arith, contains-append j js i), IsDistinct-append js i d.1 (ground arith))
