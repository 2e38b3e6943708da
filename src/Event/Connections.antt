-- ===== src/Event/Connections.antt =====
-- Connect, Disconnect and Cleanup of Event.hh, and the destructor of Connection.
use mathlib.Core.Path.{subst}
use mathlib.Core.Option.{some-injective}
use ign_common.Common.{
  ℕ, ◌+◌, ◌≡◌, refl, sym, ◌∙◌, inl, inr, true, false, none, some, [], ◌∷◌, ◌++◌, arith, ◌==◌,
  if◌then◌else◌, length, Bool-cases, Option-cases,
}
use ign_common.Common.OrdMap.{OrdMap, find, insert, last_key, IsSorted}
use ign_common.Common.OrdMap.Laws.{
  find-insert, insert-IsSorted, length-insert, find_past, find_empty,
}
use ign_common.Event.{
  EventT, EventConnection, Connection, next_index, connect, disconnect, connection_count, cleanup,
  destroy,
}
use ign_common.Common.Distinct.{contains, contains_last}
use ign_common.Event.Invariant.{
  IsValid, erase_all_lem, erase_all_twice, off_of_contains, AreOff-insert, AreOff-append,
  IsDistinct-append,
}

module _ {ℓ} {C : Type ℓ} where
  index_fresh :
      (m : OrdMap (EventConnection C)) (i : ℕ)
      → IsSorted m
      → next_index (last_key m) ≡ some i
      → find i m ≡ none
  unfolding next_index
  index_fresh m i s h = elim (Option-cases (last_key m)) [
    | inl e ↦ find_empty m i e
    | inr (l, e) ↦ find_past m l i s e (grind (arith, h, e))
  ]

  not_queued_of_missing :
      (e : EventT C) (i : ℕ)
      → IsValid e
      → find i e.connections ≡ none
      → contains i e.connections_to_remove ≡ false
  not_queued_of_missing e i v h = elim (Bool-cases (contains i e.connections_to_remove)) [
    | inr q ↦ q
    | inl q ↦ ground (arith, off_of_contains e.connections i e.connections_to_remove v.off q)
  ]

  connect-none :
      (e : EventT C) (subscriber : C)
      → next_index (last_key e.connections) ≡ none
      → connect e subscriber ≡ none
  unfolding connect
  connect-none e subscriber n = rw n

  -- What a Connect that returned `r` has done.
  abbrev Connected : EventT C → C → EventT C × ℕ → Type ℓ
  Connected e subscriber r =
      IsValid r.0
      × (find r.1 e.connections ≡ none)
      × ((j : ℕ)
          → find j r.0.connections ≡ (
              if r.1 == j
              then some (record { on = true; callback = subscriber })
              else find j e.connections))
      × (connection_count r.0 ≡ connection_count e + 1)

  connect_at :
      (e : EventT C) (subscriber : C) (i : ℕ)
      → IsValid e
      → next_index (last_key e.connections) ≡ some i
      → (r : EventT C × ℕ) × (connect e subscriber ≡ some r) × Connected e subscriber r
  unfolding connect connection_count
  connect_at e subscriber i v n =
      let c : EventConnection C = record { on = true; callback = subscriber } in
      let m = insert i c e.connections in
      let fresh : find i e.connections ≡ none = index_fresh e.connections i v.sorted n in
      (
        (record e { connections = m }, i),
        rw n,
        (
          record {
            sorted = insert-IsSorted i c e.connections v.sorted;
            distinct = v.distinct;
            off =
                AreOff-insert e.connections i c _ v.sorted (inl (not_queued_of_missing e i v fresh))
                  v.off;
          },
          fresh,
          λ j. find-insert i j c e.connections v.sorted,
          length-insert i c e.connections fresh,
        ),
      )

  -- A new connection is switched on under an id that no connection has; the others are as before.
  pub connect_lem :
      (e e' : EventT C) (subscriber : C) (id : ℕ)
      → IsValid e
      → connect e subscriber ≡ some (e', id)
      → IsValid e'
        × (find id e.connections ≡ none)
        × ((j : ℕ)
            → find j e'.connections ≡ (
                if id == j
                then some (record { on = true; callback = subscriber })
                else find j e.connections))
        × (connection_count e' ≡ connection_count e + 1)
  connect_lem e e' subscriber id v h = elim (Option-cases (next_index (last_key e.connections))) [
    | inl n ↦ cc (connect-none e subscriber n)
    | inr (i, n) ↦
        let (r, q, p) = connect_at e subscriber i v n in
        subst (Connected e subscriber) (some-injective _ _ (sym q ∙ h)) p
  ]

  -- Disconnect of a connection that is on switches it off, queues its removal, and changes no other.
  pub disconnect_lem :
      (e : EventT C) (id : ℕ) (c : EventConnection C)
      → IsValid e
      → find id e.connections ≡ some c
      → c.on ≡ true
      → IsValid (disconnect e id)
        × ((j : ℕ)
            → find j (disconnect e id).connections
              ≡ (if id == j then some (record c { on = false }) else find j e.connections))
        × ((disconnect e id).connections_to_remove ≡ e.connections_to_remove ++ id ∷ [])
  unfolding disconnect
  disconnect_lem e id c v h o =
      let off : EventConnection C = record c { on = false } in
      let m = insert id off e.connections in
      let new : contains id e.connections_to_remove ≡ false = not_queued in
      rw h (
        record {
          sorted = insert-IsSorted id off e.connections v.sorted;
          distinct = IsDistinct-append e.connections_to_remove id v.distinct new;
          off =
              AreOff-append m id off e.connections_to_remove
                (AreOff-insert e.connections id off _ v.sorted (inl new) v.off)
                (ground (arith, find-insert id id off e.connections v.sorted)) refl;
        },
        λ j. find-insert id j off e.connections v.sorted,
        refl,
      )
    where
      not_queued : contains id e.connections_to_remove ≡ false
      not_queued = elim (Bool-cases (contains id e.connections_to_remove)) [
        | inr q ↦ q
        | inl q ↦ ground (arith, off_of_contains e.connections id e.connections_to_remove v.off q)
      ]

  -- Cleanup is defined on a valid event, and removes exactly the queued connections.
  pub cleanup_lem :
      (e : EventT C)
      → IsValid e
      → (e' : EventT C) × (cleanup e ≡ some e')
        × IsValid e'
        × ((j : ℕ)
            → find j e'.connections
              ≡ (if contains j e.connections_to_remove then none else find j e.connections))
        × (connection_count e' + length e.connections_to_remove ≡ connection_count e)
        × (e'.connections_to_remove ≡ [])
  unfolding cleanup connection_count
  cleanup_lem e v =
      let (m, r, s, f, l) =
        erase_all_lem e.connections_to_remove e.connections v.sorted v.distinct v.off in
      (
        record e { connections = m; connections_to_remove = [] },
        rw r,
        record { sorted = s; distinct = tt; off = tt },
        f,
        l,
        refl,
      )

  -- A second Disconnect of a connection before the next Cleanup makes that Cleanup undefined.
  pub disconnect_twice :
      (e : EventT C) (id : ℕ) (c : EventConnection C)
      → IsValid e
      → find id e.connections ≡ some c
      → c.on ≡ true
      → cleanup (disconnect (disconnect e id) id) ≡ none
  unfolding disconnect cleanup
  disconnect_twice e id c v h o =
      let off : EventConnection C = record c { on = false } in
      let m = insert id off e.connections in
      let s : IsSorted m = insert-IsSorted id off e.connections v.sorted in
      let f : find id m ≡ some off = ground (arith, find-insert id id off e.connections v.sorted) in
      let twice =
        erase_all_twice (e.connections_to_remove ++ id ∷ []) (insert id off m) id
          (insert-IsSorted id off m s) (contains_last e.connections_to_remove id) in
      rw h (rw f (rw twice))

  -- Destroying the Connection of a subscriber that was disconnected by its id queues the id twice.
  pub destroy_disconnected :
      (e : EventT C) (id : ℕ) (c : EventConnection C) (conn : Connection)
      → IsValid e
      → find id e.connections ≡ some c
      → c.on ≡ true
      → conn.event ≡ true
      → conn.id ≡ some id
      → cleanup (destroy conn (disconnect e id)).1 ≡ none
  unfolding destroy
  destroy_disconnected e id c conn v h o p q = rw (q, p) (disconnect_twice e id c v h o)
