-- ===== src/Event/Tests.antt =====
-- Runs of an event whose callbacks append to a log, and the theorems on events at them.
use ign_common.Common.{
  ℕ, ◌+◌, ◌≡◌, refl, true, false, none, some, List, [], ◌∷◌, ◌++◌, ◌==◌, if◌then◌else◌, arith,
  length,
}
use ign_common.Common.OrdMap.{find, insert, last_key}
use ign_common.Event.{
  EventT, EventConnection, Connection, connect, disconnect, connection_count, cleanup, signal,
  destroy,
}
use ign_common.Common.Distinct.{contains}
use ign_common.Event.Invariant.{IsValid}
use ign_common.Event.Connections.{connect_lem, disconnect_lem, cleanup_lem, destroy_disconnected}
use ign_common.Event.Signals.{notify, observer, signal-notify, disconnect-cleanup}

abbrev sub : ℕ → EventConnection ℕ
sub c = record { on = true; callback = c }

-- Two subscribers, 10 under the id 0 and 20 under the id 1.
abbrev two : EventT ℕ
two = record {
  signaled = false;
  connections = (0, sub 10) ∷ (1, sub 20) ∷ [];
  connections_to_remove = [];
}

abbrev log : ℕ → List ℕ → List ℕ
log c w = w ++ c ∷ []

two-IsValid : IsValid two
two-IsValid = record { sorted = (omega arith, (tt, tt)); distinct = tt; off = tt }

connect_third :
    connect two 30
    ≡ some (record two { connections = (0, sub 10) ∷ (1, sub 20) ∷ (2, sub 30) ∷ [] }, 2)
unfolding connect last_key insert
connect_third = refl

connect_lem_example :
    let three : EventT ℕ = record two {
      connections = (0, sub 10) ∷ (1, sub 20) ∷ (2, sub 30) ∷ [];
    } in
    IsValid three
    × (find 2 two.connections ≡ none)
    × ((j : ℕ)
        → find j three.connections ≡ (if 2 == j then some (sub 30) else find j two.connections))
    × (connection_count three ≡ connection_count two + 1)
connect_lem_example = connect_lem two _ 30 2 two-IsValid connect_third

find_first : find 0 two.connections ≡ some (sub 10)
unfolding find
find_first = refl

disconnected_two :
    IsValid (disconnect two 0)
    × ((j : ℕ)
        → find j (disconnect two 0).connections ≡ (
            if 0 == j then some (record { on = false; callback = 10 }) else find j two.connections))
    × ((disconnect two 0).connections_to_remove ≡ 0 ∷ [])
disconnected_two = disconnect_lem two 0 (sub 10) two-IsValid find_first refl

cleanup_lem_example :
    (e' : EventT ℕ) × (cleanup (disconnect two 0) ≡ some e')
    × IsValid e'
    × ((j : ℕ)
        → find j e'.connections ≡ (
            if contains j (disconnect two 0).connections_to_remove
            then none
            else find j (disconnect two 0).connections))
    × (connection_count e' + length (disconnect two 0).connections_to_remove
        ≡ connection_count (disconnect two 0))
    × (e'.connections_to_remove ≡ [])
cleanup_lem_example = cleanup_lem (disconnect two 0) disconnected_two.0

signal-notify_example :
    (e' : EventT ℕ) × (cleanup two ≡ some e')
    × (signal (observer log) 3 [] two
        ≡ some (notify log e'.connections [], record e' { signaled = true }))
unfolding connection_count
signal-notify_example = signal-notify log 3 [] two two-IsValid (omega arith)

disconnect-cleanup_example :
    (e' : EventT ℕ) × (cleanup (disconnect two 0) ≡ some e')
    × (find 0 e'.connections ≡ none)
    × ((j : ℕ)
        → (j == 0) ≡ false
        → find j e'.connections
          ≡ (if contains j two.connections_to_remove then none else find j two.connections))
disconnect-cleanup_example = disconnect-cleanup two 0 (sub 10) two-IsValid find_first refl

abbrev held : Connection
held = record { event = true; id = some 0 }

destroy_disconnected_example : cleanup (destroy held (disconnect two 0)).1 ≡ none
destroy_disconnected_example =
    destroy_disconnected two 0 (sub 10) held two-IsValid find_first refl refl refl
