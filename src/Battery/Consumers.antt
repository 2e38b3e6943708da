-- ===== src/Battery/Consumers.antt =====
-- The consumers of src/Battery.cc.
use ign_common.Common.{
  ℕ, ◌+◌, ◌%◌, ◌^◌, ◌<◌, ◌≡◌, refl, sym, ◌∙◌, ap, none, some, [], ◌∷◌, ◌++◌, arith, ◌==◌,
  if◌then◌else◌, Option-cases, inl, inr,
}
use mathlib.Core.List.{append_assoc, append-nil}
use ign_common.Common.Text.{is_some}
use ign_common.Common.OrdMap.{OrdMap, find, insert, erase, IsSorted, IsAbove}
use ign_common.Common.OrdMap.Laws.{find-insert, find-erase, insert-IsSorted, erase-IsSorted}
use ign_common.Battery.{
  Volts, Battery, add_consumer, remove_consumer, set_power_load, power_load, copy_loads, assign,
}

module _ (u : Volts) where
  open u use {T, null}

  -- Every key is below a number.
  abbrev pub AreBelow : ℕ → OrdMap T → Type 0
  AreBelow n [] = Unit
  AreBelow n ((j, v) ∷ m) = (j < n) × AreBelow n m

  -- The map is in order, and the counter has passed the ids in it.
  pub record IsFresh (b : Battery u) : Type 0 where
    pub sorted : IsSorted b.power_loads
    pub below : AreBelow b.power_load_counter b.power_loads

  AreBelow-suc : (n : ℕ) (m : OrdMap T) → AreBelow n m → AreBelow (n + 1) m
  AreBelow-suc n [] h = tt
  AreBelow-suc n ((j, v) ∷ m) h = (omega (arith, h.0), AreBelow-suc n m h.1)

  AreBelow-insert :
      (n k : ℕ) (v : T) (m : OrdMap T) → k < n → AreBelow n m → AreBelow n (insert k v m)
  unfolding insert
  AreBelow-insert n k v [] l h = (l, tt)
  AreBelow-insert n k v ((j, w) ∷ m) l h = ground (arith, h.0, h.1, AreBelow-insert n k v m l h.1)

  AreBelow-erase : (n k : ℕ) (m : OrdMap T) → AreBelow n m → AreBelow n (erase k m)
  unfolding erase
  AreBelow-erase n k [] h = tt
  AreBelow-erase n k ((j, w) ∷ m) h = ground (arith, h.0, h.1, AreBelow-erase n k m h.1)

  find-AreBelow : (n : ℕ) (m : OrdMap T) → AreBelow n m → find n m ≡ none
  unfolding find
  find-AreBelow n [] h = refl
  find-AreBelow n ((j, v) ∷ m) h = ground (arith, find-AreBelow n m h.1, h.0)

  found-AreBelow : (n k : ℕ) (v : T) (m : OrdMap T) → AreBelow n m → find k m ≡ some v → k < n
  unfolding find
  found-AreBelow n k v [] h e = cc
  found-AreBelow n k v ((j, w) ∷ m) h e = ground (arith, h.0, found-AreBelow n k v m h.1)

  -- As long as the counter does not wrap around, AddConsumer gives an id that no consumer has, starts
  -- its load at zero, leaves the other loads alone, and keeps the battery fresh.
  pub add_consumer_lem :
      (b : Battery u)
      → IsFresh b
      → b.power_load_counter + 1 < 2 ^ 32
      → let (c, id) = add_consumer u b in
        (power_load u b id ≡ none)
        × ((j : ℕ) → power_load u c j ≡ (if id == j then some null else power_load u b j))
        × IsFresh c
  unfolding add_consumer power_load
  add_consumer_lem b h l =
      let n = b.power_load_counter in
      let e : (n + 1) % 2 ^ 32 ≡ n + 1 = omega arith in
      (
        find-AreBelow n b.power_loads h.below,
        λ j. find-insert n j null b.power_loads h.sorted,
        record {
          sorted = insert-IsSorted n null b.power_loads h.sorted;
          below = rw e (
              AreBelow-insert (n + 1) n null b.power_loads (omega arith)
                (AreBelow-suc n b.power_loads h.below));
        },
      )

  -- SetPowerLoad succeeds exactly for the consumers that are there; PowerLoad then reads what was set,
  -- the other loads stay, and the battery stays fresh.
  pub set_power_load_lem :
      (b : Battery u) (id : ℕ) (load : T)
      → IsFresh b
      → let (c, done) = set_power_load u b id load in
        (done ≡ is_some (power_load u b id))
        × ((j : ℕ)
            → power_load u c j
              ≡ (if id == j then (if done then some load else none) else power_load u b j))
        × IsFresh c
  unfolding set_power_load power_load
  set_power_load_lem b id load h = elim (Option-cases (find id b.power_loads)) [
    | inl e ↦ rw (e, set_power_load, power_load) (refl, λ j. ground (arith, e), h)
    | inr (v, e) ↦
        rw (e, set_power_load, power_load)
          (
            refl,
            λ j. find-insert id j load b.power_loads h.sorted,
            record {
              sorted = insert-IsSorted id load b.power_loads h.sorted;
              below =
                  AreBelow-insert b.power_load_counter id load b.power_loads
                    (found-AreBelow b.power_load_counter id v b.power_loads h.below e) h.below;
            },
          )
  ]

  -- RemoveConsumer succeeds exactly for the consumers that are there, takes that one away and no
  -- other, and keeps the battery fresh.
  pub remove_consumer_lem :
      (b : Battery u) (id : ℕ)
      → IsFresh b
      → let (c, done) = remove_consumer u b id in
        (done ≡ is_some (power_load u b id))
        × ((j : ℕ) → power_load u c j ≡ (if id == j then none else power_load u b j))
        × IsFresh c
  unfolding remove_consumer power_load
  remove_consumer_lem b id h = (
    refl,
    λ j. find-erase id j b.power_loads h.sorted,
    record {
      sorted = erase-IsSorted id b.power_loads h.sorted;
      below = AreBelow-erase b.power_load_counter id b.power_loads h.below;
    },
  )

  IsAbove-middle : (a m : OrdMap T) (j k : ℕ) (v : T) → IsAbove j (a ++ (k, v) ∷ m) → j < k
  IsAbove-middle [] m j k v h = h.0
  IsAbove-middle (e ∷ a) m j k v h = IsAbove-middle a m j k v h.1

  insert-last :
      (a m : OrdMap T) (k : ℕ) (v : T)
      → IsSorted (a ++ (k, v) ∷ m)
      → insert k v a ≡ a ++ (k, v) ∷ []
  unfolding insert
  insert-last [] m k v s = refl
  insert-last ((j, w) ∷ a) m k v s =
      ground (arith, insert-last a m k v s.1, IsAbove-middle a m j k v s.0)

  copy_loads-append : (a m : OrdMap T) → IsSorted (a ++ m) → copy_loads u a m ≡ a ++ m
  unfolding copy_loads
  copy_loads-append a [] s = sym (append-nil a)
  copy_loads-append a ((k, v) ∷ m) s =
      rw (insert-last a m k v s, copy_loads)
        (copy_loads-append (a ++ (k, v) ∷ []) m (rw (append_assoc a ((k, v) ∷ []) m) s)
          ∙ append_assoc a ((k, v) ∷ []) m)

  -- operator= makes a battery the same as a battery whose loads are in order.
  pub assign_lem : (b other : Battery u) → IsSorted other.power_loads → assign u b other ≡ other
  unfolding assign
  assign_lem b other s =
      ap (λ m. record other { power_loads = m }) (copy_loads-append [] other.power_loads s)
