-- ===== src/WorkerPool/Orders.antt =====
-- What holds of every order in every run of src/WorkerPool.cc.
use ign_common.Common.{
  ℕ, zero, suc, ◌+◌, ◌≡◌, refl, sym, ◌∙◌, ap, Option, none, some, List, [], ◌∷◌, ◌++◌, arith,
  length, get_elem?, set, replicate, length-append,
}
use mathlib.Core.List.{append_assoc}
use ign_common.WorkerPool.{
  WorkOrder, Pc, idle, taken, worked, called, left, Pool, Step, Reach, run, take_order,
  finish_order, at, Caller, num_workers, new_pool, add, shut, leave, take, work, call, finish,
  at_once, sleep, spurious, wake_forever, wake_timed, sleep_again, timeout, start, next,
}

module _ {F : Type 0} where
  -- A sum over the workers, of a number for each of their places.
  abbrev pub total : (Pc F → ℕ) → List (Pc F) → ℕ
  total f [] = 0
  total f (w ∷ ws) = f w + total f ws

  total-set :
      (f : Pc F → ℕ) (ws : List (Pc F)) (i : ℕ) (a b : Pc F)
      → get_elem? ws i ≡ some a
      → total f (set ws i b) + f a ≡ total f ws + f b
  total-set f [] i a b h = cc
  total-set f (w ∷ ws) zero a b h = ground arith
  total-set f (w ∷ ws) (suc i) a b h = omega (arith, total-set f ws i a b h)

  -- One for a worker that holds an order.
  abbrev pub busy : Pc F → ℕ
  busy idle = 0
  busy (taken o) = 1
  busy (worked o) = 1
  busy (called o) = 1
  busy left = 0

  module _ (weight : F → ℕ) where
    -- The weights of the functions in a list, of an order's functions, and of those that a worker
    -- has still to call.
    abbrev pub weigh : List F → ℕ
    weigh [] = 0
    weigh (f ∷ fs) = weight f + weigh fs

    abbrev pub weigh_some : Option F → ℕ
    weigh_some none = 0
    weigh_some (some f) = weight f

    abbrev pub weigh_orders : List (WorkOrder F) → ℕ
    weigh_orders [] = 0
    weigh_orders (o ∷ os) = weigh_some o.work + weigh_some o.callback + weigh_orders os

    abbrev pub to_call : Pc F → ℕ
    to_call idle = 0
    to_call (taken o) = weigh_some o.work + weigh_some o.callback
    to_call (worked o) = weigh_some o.callback
    to_call (called o) = 0
    to_call left = 0

    weigh-append : (fs gs : List F) → weigh (fs ++ gs) ≡ weigh fs + weigh gs
    weigh-append [] gs = omega arith
    weigh-append (f ∷ fs) gs = omega (arith, weigh-append fs gs)

    weigh_orders-append :
        (os ps : List (WorkOrder F)) → weigh_orders (os ++ ps) ≡ weigh_orders os + weigh_orders ps
    weigh_orders-append [] ps = omega arith
    weigh_orders-append (o ∷ os) ps = omega (arith, weigh_orders-append os ps)

    weigh-run : (f : Option F) (log : List F) → weigh (run f log) ≡ weigh log + weigh_some f
    weigh-run none log = omega arith
    weigh-run (some f) log = omega (arith, weigh-append log (f ∷ []))

  -- The orders are started in the order of AddWork, the active count is that of the busy workers,
  -- and every function of a started order has been called once or waits with its worker.
  pub record IsConsistent (p : Pool F) : Type 0 where
    pub fifo : p.started ++ p.work_orders ≡ p.added
    pub active : p.active_orders ≡ total busy p.workers
    pub count : length p.started ≡ p.finished + p.active_orders
    pub calls :
        (weight : F → ℕ)
        → weigh weight p.ran + total (to_call weight) p.workers ≡ weigh_orders weight p.started

  take-IsConsistent :
      (p : Pool F) (i : ℕ) (o : WorkOrder F) (rest : List (WorkOrder F))
      → IsConsistent p
      → get_elem? p.workers i ≡ some idle
      → p.work_orders ≡ o ∷ rest
      → IsConsistent (take_order i o rest p)
  take-IsConsistent p i o rest c g e = record {
    fifo = append_assoc p.started (o ∷ []) rest ∙ rw (← e) c.fifo;
    active = omega (arith, c.active, total-set busy p.workers i idle (taken o) g);
    count = omega (arith, c.count, length-append p.started (o ∷ []));
    calls = λ w. omega (
      arith,
      c.calls w,
      total-set (to_call w) p.workers i idle (taken o) g,
      weigh_orders-append w p.started (o ∷ []),
    );
  }

  -- A worker that runs the next function of its order.
  run-IsConsistent :
      (p : Pool F) (i : ℕ) (f : Option F) (a b : Pc F)
      → IsConsistent p
      → get_elem? p.workers i ≡ some a
      → busy a ≡ busy b
      → ((weight : F → ℕ) → to_call weight a ≡ weigh_some weight f + to_call weight b)
      → IsConsistent (record p { ran = run f p.ran; workers = set p.workers i b })
  run-IsConsistent p i f a b c g e k = record {
    fifo = c.fifo;
    active = omega (arith, c.active, total-set busy p.workers i a b g);
    count = c.count;
    calls = λ w.
        omega (arith, c.calls w, total-set (to_call w) p.workers i a b g, weigh-run w f p.ran, k w);
  }

  finish-IsConsistent :
      (p : Pool F) (i : ℕ) (o : WorkOrder F)
      → IsConsistent p
      → get_elem? p.workers i ≡ some (called o)
      → IsConsistent (finish_order i p)
  finish-IsConsistent p i o c g =
      let moved = total-set busy p.workers i (called o) idle g in
      record {
        fifo = c.fifo;
        active = omega (arith, c.active, moved);
        count = omega (arith, c.active, c.count, moved);
        calls = λ w. omega (arith, c.calls w, total-set (to_call w) p.workers i (called o) idle g);
      }

  leave-IsConsistent :
      (p : Pool F) (i : ℕ)
      → IsConsistent p
      → get_elem? p.workers i ≡ some idle
      → IsConsistent (at i left p)
  leave-IsConsistent p i c g = record {
    fifo = c.fifo;
    active = omega (arith, c.active, total-set busy p.workers i idle left g);
    count = c.count;
    calls = λ w. omega (arith, c.calls w, total-set (to_call w) p.workers i idle left g);
  }

  -- A step of the caller changes nothing of the orders.
  caller-IsConsistent :
      (p : Pool F) (c : Caller) → IsConsistent p → IsConsistent (record p { caller = c })
  caller-IsConsistent p c h = record {
    fifo = h.fifo;
    active = h.active;
    count = h.count;
    calls = h.calls;
  }

  pub Step-IsConsistent : {p q : Pool F} → Step p q → IsConsistent p → IsConsistent q
  Step-IsConsistent {p} (add o) c = record {
    fifo = sym (append_assoc p.started p.work_orders (o ∷ [])) ∙ ap (λ os. os ++ o ∷ []) c.fifo;
    active = c.active;
    count = c.count;
    calls = c.calls;
  }
  Step-IsConsistent shut c = record {
    fifo = c.fifo;
    active = c.active;
    count = c.count;
    calls = c.calls;
  }
  Step-IsConsistent {p} (leave i g d) c = leave-IsConsistent p i c g
  Step-IsConsistent {p} (take i o rest g d e) c = take-IsConsistent p i o rest c g e
  Step-IsConsistent {p} (work i o g) c =
      run-IsConsistent p i o.work (taken o) (worked o) c g refl (λ w. refl)
  Step-IsConsistent {p} (call i o g) c =
      run-IsConsistent p i o.callback (worked o) (called o) c g refl (λ w. omega arith)
  Step-IsConsistent {p} (finish i o g) c = finish-IsConsistent p i o c g
  Step-IsConsistent {p} (at_once a h) c = caller-IsConsistent p _ c
  Step-IsConsistent {p} (sleep t a h) c = caller-IsConsistent p _ c
  Step-IsConsistent {p} (spurious t a) c = caller-IsConsistent p _ c
  Step-IsConsistent {p} (wake_forever a) c = caller-IsConsistent p _ c
  Step-IsConsistent {p} (wake_timed a h) c = caller-IsConsistent p _ c
  Step-IsConsistent {p} (sleep_again a h) c = caller-IsConsistent p _ c
  Step-IsConsistent {p} (timeout a) c = caller-IsConsistent p _ c

  total-replicate : (f : Pc F → ℕ) (n : ℕ) → f idle ≡ 0 → total f (replicate n idle) ≡ 0
  total-replicate f zero h = refl
  total-replicate f (suc n) h = omega (arith, total-replicate f n h)

  new_pool-IsConsistent : (h m : ℕ) → IsConsistent (new_pool {F = F} h m)
  unfolding new_pool
  new_pool-IsConsistent h m = record {
    fifo = refl;
    active = omega (arith, total-replicate busy (num_workers h m) refl);
    count = refl;
    calls = λ w. omega (arith, total-replicate (to_call w) (num_workers h m) refl);
  }

  -- In every run, orders are started in the order of AddWork, `active_orders` is the number of the
  -- workers that hold an order, and every work and callback function of a started order has been
  -- called exactly once or is still to be called by the worker that holds the order.
  pub Reach-IsConsistent : {h m : ℕ} {p : Pool F} → Reach h m p → IsConsistent p
  Reach-IsConsistent {h} {m} start = new_pool-IsConsistent h m
  Reach-IsConsistent (next r s) = Step-IsConsistent s (Reach-IsConsistent r)
