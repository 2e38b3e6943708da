-- ===== src/Event.antt =====
-- events/include/ignition/common/Event.hh and events/src/Event.cc: the subscribers of an event, the
-- signal, and the connections that disconnect when they are destroyed.
-- `none` is undefined behaviour: an erase through an iterator whose node is gone, or int overflow.
pub mod Invariant
pub mod Connections
pub mod Signals
mod Tests
use ign_common.Common.{
  ℕ, zero, suc, ◌+◌, ◌-◌, ◌^◌, Bool, true, false, ◌&&◌, Option, none, some, List, [], ◌∷◌, ◌++◌,
  ltb, if◌then◌else◌, length,
}
use ign_common.Common.OrdMap.{OrdMap, find, insert, erase, last_key, lower_bound}

infixl 5 ◌>>=◌
abbrev pub ◌>>=◌ {ℓ κ} : {A : Type ℓ} {B : Type κ} → Option A → (A → Option B) → Option B
none >>= f = none
some a >>= f = f a

-- INT_MAX
abbrev pub int_max : ℕ
int_max = 2 ^ 31 - 1

pub record EventConnection {ℓ} (C : Type ℓ) : Type ℓ where
  pub on : Bool
  pub callback : C

-- An iterator in `connections_to_remove` is the key of its node. Nodes leave the map in `cleanup`
-- alone, which drops all iterators, so a key here names one node for as long as it is here.
pub record EventT {ℓ} (C : Type ℓ) : Type ℓ where
  pub signaled : Bool
  pub connections : OrdMap (EventConnection C)
  pub connections_to_remove : List ℕ

abbrev pub new_event {ℓ} : {C : Type ℓ} → EventT C
new_event = record { signaled = false; connections = []; connections_to_remove = [] }

next_index : Option ℕ → Option ℕ
next_index none = some 0
next_index (some last) = if ltb last int_max then some (last + 1) else none

module _ {ℓ} {C : Type ℓ} where
  -- Connect returns the id that the new Connection holds.
  pub connect : EventT C → C → Option (EventT C × ℕ)
  unfolding next_index
  connect e subscriber = do
    index ← next_index (last_key e.connections)
    some (
      record e {
        connections = insert index (record { on = true; callback = subscriber }) e.connections;
      },
      index,
    )

  pub connection_count : EventT C → ℕ
  connection_count e = length e.connections

  switch_off : EventT C → ℕ → Option (EventConnection C) → EventT C
  switch_off e id none = e
  switch_off e id (some c) = record e {
    connections = insert id (record c { on = false }) e.connections;
    connections_to_remove = e.connections_to_remove ++ id ∷ [];
  }

  -- A negative id is never found, so ids are natural numbers here.
  pub disconnect : EventT C → ℕ → EventT C
  unfolding switch_off
  disconnect e id = switch_off e id (find id e.connections)

  -- `connections.erase(iterator)` for each queued iterator.
  pub erase_all : List ℕ → OrdMap (EventConnection C) → Option (OrdMap (EventConnection C))
  erase_all [] m = some m
  erase_all (id ∷ ids) m = elim (find id m) [ none ↦ none | some c ↦ erase_all ids (erase id m) ]

  pub cleanup : EventT C → Option (EventT C)
  unfolding erase_all
  cleanup e = do
    m ← erase_all e.connections_to_remove e.connections
    some (record e { connections = m; connections_to_remove = [] })

-- `run c w e` is a call of the callback: it changes the world, and the event through connect and
-- disconnect; `none` is a callback with undefined behaviour.
module _ {ℓ κ} {C : Type ℓ} {W : Type κ} (run : C → W → EventT C → Option (W × EventT C)) where
  visit : EventConnection C → W → EventT C → Option (W × EventT C)
  visit c w e = if c.on then run c.callback w e else some (w, e)

  -- The range-for over the live map; it also returns `none` when the fuel runs out. A callback that
  -- removes the node under the iterator is undefined. `k` is one more than the key that was visited last.
  signal_loop : ℕ → ℕ → W → EventT C → Option (W × EventT C)
  signal_loop zero k w e = none
  signal_loop (suc fuel) k w e = elim (lower_bound k e.connections) [
    | none ↦ some (w, e)
    | some (j, c) ↦ elim (visit c w e) [
      | none ↦ none
      | some (w', e') ↦ elim (find j e'.connections) [
        | none ↦ none
        | some _ ↦ signal_loop fuel (j + 1) w' e'
      ]
    ]
  ]

  pub signal : ℕ → W → EventT C → Option (W × EventT C)
  unfolding visit signal_loop
  signal fuel w e = do e' ← cleanup e; signal_loop fuel 0 w (record e' { signaled = true })

-- A Connection keeps its event and id until its destructor has run.
pub record Connection : Type 0 where
  pub event : Bool
  pub id : Option ℕ

pub destroy {ℓ} : {C : Type ℓ} → Connection → EventT C → Connection × EventT C
destroy c e = elim c.id [
  | none ↦ (c, e)
  | some i ↦ if c.event then (record { event = false; id = none }, disconnect e i) else (c, e)
]
