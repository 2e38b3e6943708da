-- ===== src/Event/Signals.antt =====
-- Signal of Event.hh with callbacks that leave the event alone, and the reuse of ids.
use ign_common.Common.{
  ℕ, zero, suc, ◌+◌, ◌≤◌, ◌<◌, ◌≡◌, refl, true, false, Option, none, some, [], ◌∷◌, arith, inl, inr,
  Bool-cases, ltb, ◌==◌, if◌then◌else◌, length,
}
use ign_common.Common.OrdMap.{OrdMap, find, lower_bound, IsAbove, IsSorted}
use ign_common.Event.{
  EventT, EventConnection, disconnect, connection_count, cleanup, visit, signal_loop, signal,
}
use ign_common.Common.Distinct.{contains}
use ign_common.Event.Invariant.{IsValid, contains-append}
use ign_common.Event.Connections.{cleanup_lem, disconnect_lem}

module _ {ℓ} {V : Type ℓ} where
  -- The entries from a key on.
  from : ℕ → OrdMap V → OrdMap V
  from k [] = []
  from k ((j, v) ∷ m) = if ltb j k then from k m else (j, v) ∷ m

  from_above : (k : ℕ) (m : OrdMap V) → IsAbove k m → from (k + 1) m ≡ m
  unfolding from
  from_above k [] a = refl
  from_above k ((j, v) ∷ m) a = ground arith

  from_done : (k : ℕ) (m : OrdMap V) → from k m ≡ [] → lower_bound k m ≡ none
  unfolding from lower_bound
  from_done k [] h = refl
  from_done k ((j, v) ∷ m) h = ground (arith, from_done k m)

  from_next :
      (k : ℕ) (m : OrdMap V) (j : ℕ) (v : V) (r : OrdMap V)
      → IsSorted m
      → from k m ≡ (j, v) ∷ r
      → (k ≤ j) × (lower_bound k m ≡ some (j, v)) × (find j m ≡ some v) × (from (j + 1) m ≡ r)
  unfolding from lower_bound find
  from_next k [] j v r s h = cc
  from_next k ((i, w) ∷ m) j v r s h = ground (arith, from_next k m j v r s.1, from_above i m s.0)

module _ {ℓ κ} {C : Type ℓ} {W : Type κ} (step : C → W → W) where
  -- Each subscriber that is on is called once, in the order of the ids.
  abbrev pub notify : OrdMap (EventConnection C) → W → W
  notify [] w = w
  notify ((j, c) ∷ m) w = notify m (if c.on then step c.callback w else w)

  -- A callback that changes the world alone.
  abbrev pub observer : C → W → EventT C → Option (W × EventT C)
  observer c w e = some (step c w, e)

  visit-observer :
      (c : EventConnection C) (w : W) (e : EventT C)
      → visit observer c w e ≡ some (if c.on then step c.callback w else w, e)
  unfolding visit
  visit-observer c w e = elim (Bool-cases c.on) [ inl h ↦ rw h | inr h ↦ rw h ]

  signal_loop-notify :
      (r : OrdMap (EventConnection C)) (fuel k : ℕ) (w : W) (e : EventT C)
      → IsSorted e.connections
      → from k e.connections ≡ r
      → length r < fuel
      → signal_loop observer fuel k w e ≡ some (notify r w, e)
  unfolding signal_loop
  signal_loop-notify [] zero k w e s h f = absurd (omega arith)
  signal_loop-notify [] (suc fuel) k w e s h f = rw (from_done k e.connections h, signal_loop)
  signal_loop-notify ((j, c) ∷ r) zero k w e s h f = absurd (omega arith)
  signal_loop-notify ((j, c) ∷ r) (suc fuel) k w e s h f =
      let (a, b, d, g) = from_next k e.connections j c r s h in
      rw (b, signal_loop)
        (rw (visit-observer c w e) (
          rw (d, signal_loop)
            (signal_loop-notify r fuel (j + 1) (if c.on then step c.callback w else w) e s g
              (omega arith))))

  from_zero : (m : OrdMap (EventConnection C)) → from 0 m ≡ m
  unfolding from
  from_zero [] = refl
  from_zero ((j, c) ∷ m) = ground arith

  -- With callbacks that leave the event alone, Signal on a valid event returns with more fuel than
  -- there are connections: it removes the queued connections, marks the event as signaled, and calls
  -- each connection that is left and on, once, in the order of the ids.
  pub signal-notify :
      (fuel : ℕ) (w : W) (e : EventT C)
      → IsValid e
      → connection_count e < fuel
      → (e' : EventT C) × (cleanup e ≡ some e')
        × (signal observer fuel w e ≡ some (notify e'.connections w, record e' { signaled = true }))
  unfolding signal connection_count
  signal-notify fuel w e v f =
      let (e', c, v', g, l, p) = cleanup_lem e v in
      (
        e',
        c,
        rw c (
            signal_loop-notify e'.connections fuel 0 w (record e' { signaled = true }) v'.sorted
              (from_zero e'.connections) (omega arith)),
      )

module _ {ℓ} {C : Type ℓ} where
  -- On a valid event, a connection that is on when Disconnect takes it is gone after the next Cleanup,
  -- which is defined; so are those that were queued before, and every other one is as it was.
  pub disconnect-cleanup :
      (e : EventT C) (id : ℕ) (c : EventConnection C)
      → IsValid e
      → find id e.connections ≡ some c
      → c.on ≡ true
      → (e' : EventT C) × (cleanup (disconnect e id) ≡ some e')
        × (find id e'.connections ≡ none)
        × ((j : ℕ)
            → (j == id) ≡ false
            → find j e'.connections
              ≡ (if contains j e.connections_to_remove then none else find j e.connections))
  disconnect-cleanup e id c v h o =
      let (v1, f, q) = disconnect_lem e id c v h o in
      let (e', r, v', g, l, p) = cleanup_lem (disconnect e id) v1 in
      (
        e',
        r,
        ground (arith, g id, q, contains-append id e.connections_to_remove id),
        λ j b. ground (arith, g j, f j, q, contains-append j e.connections_to_remove id),
      )
