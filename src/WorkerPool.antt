-- ===== src/WorkerPool.antt =====
-- src/WorkerPool.cc: worker threads over a queue, and the caller that waits for results.
-- Each constructor of `Step` is what one thread does while it holds the queue's lock, or the run of
-- a work or callback function outside it. Any thread may go next.
pub mod Orders
pub mod Waiting
mod Tests
use ign_common.Common.{
  ℕ, zero, suc, ◌+◌, ◌-◌, ◌≤◌, ◌≡◌, ◌⊎◌, Bool, true, false, ◌&&◌, ◌||◌, Option, none, some, List,
  [], ◌∷◌, ◌++◌, ◌==◌, leb, if◌then◌else◌, get_elem?, set, replicate,
}
use Prim.Native.Nat.{max}
use mathlib.Core.Bool.{not}

-- A work order with its two functions; an empty std::function is `none`.
pub record WorkOrder (F : Type 0) : Type 0 where
  pub work : Option F
  pub callback : Option F

-- Where a worker stands in `Worker`: at the lock, or with an order before its work, before its
-- callback, or before the bookkeeping; or out of the loop.
pub data Pc (F : Type 0) : Type 0 where
  idle : Pc F
  taken : WorkOrder F → Pc F
  worked : WorkOrder F → Pc F
  called : WorkOrder F → Pc F
  left : Pc F

-- The caller of WaitForResults: not inside, asleep on `signal_work_done`, notified but without the
-- lock, or returned. The Boolean of a sleeper says whether it waits with a timeout.
pub data Caller : Type 0 where
  away : Caller
  asleep : Bool → Caller
  notified : Bool → Caller
  returned : Bool → Caller

-- `added`, `started` and `finished` record the orders in the order of these events.
pub record Pool (F : Type 0) : Type 0 where
  pub work_orders : List (WorkOrder F)
  pub active_orders : ℕ
  pub done : Bool
  pub workers : List (Pc F)
  pub caller : Caller
  pub ran : List F
  pub added : List (WorkOrder F)
  pub started : List (WorkOrder F)
  pub finished : ℕ

-- The constructor makes as many workers as the hardware has threads, at least `_minThreadCount`
-- and at least one.
pub num_workers : ℕ → ℕ → ℕ
num_workers hardware_concurrency min_thread_count =
    max hardware_concurrency (max min_thread_count 1)

pub new_pool : {F : Type 0} → ℕ → ℕ → Pool F
unfolding num_workers
new_pool hardware_concurrency min_thread_count = record {
  work_orders = [];
  active_orders = 0;
  done = false;
  workers = replicate (num_workers hardware_concurrency min_thread_count) idle;
  caller = away;
  ran = [];
  added = [];
  started = [];
  finished = 0;
}

-- `signal_work_done.notify_all()`
abbrev pub notify : Caller → Caller
notify away = away
notify (asleep timed) = notified timed
notify (notified timed) = notified timed
notify (returned b) = returned b

module _ {F : Type 0} where
  -- `if (f) f();`
  abbrev pub run : Option F → List F → List F
  run none log = log
  run (some f) log = log ++ f ∷ []

  abbrev pub is_empty : List (WorkOrder F) → Bool
  is_empty [] = true
  is_empty (o ∷ os) = false

  -- The predicate of WaitForResults.
  abbrev pub have_results : Pool F → Bool
  have_results p = p.done || (is_empty p.work_orders && p.active_orders == 0)

  -- AddWork
  abbrev pub add_work : WorkOrder F → Pool F → Pool F
  add_work o p = record p { work_orders = p.work_orders ++ o ∷ []; added = p.added ++ o ∷ [] }

  -- The first half of the destructor.
  abbrev pub shut_down : Pool F → Pool F
  shut_down p = record p { done = true }

  abbrev pub at : ℕ → Pc F → Pool F → Pool F
  at i pc p = record p { workers = set p.workers i pc }

  -- A worker takes the front of the queue.
  abbrev pub take_order : ℕ → WorkOrder F → List (WorkOrder F) → Pool F → Pool F
  take_order i o rest p = record p {
    work_orders = rest;
    active_orders = p.active_orders + 1;
    workers = set p.workers i (taken o);
    started = p.started ++ o ∷ [];
  }

  -- The bookkeeping after an order: the caller is notified when nothing is queued or active.
  abbrev pub finish_order : ℕ → Pool F → Pool F
  finish_order i p = record p {
    active_orders = p.active_orders - 1;
    workers = set p.workers i idle;
    finished = p.finished + 1;
    caller =
        if is_empty p.work_orders && leb (p.active_orders - 1) 0 then notify p.caller else p.caller;
  }

  abbrev pub return : Bool → Pool F → Pool F
  return signaled p = record p { caller = returned (signaled && not p.done) }

  pub data Step (p : Pool F) : Pool F → Type 0 where
    add : (o : WorkOrder F) → Step p (add_work o p)
    shut : Step p (shut_down p)
    leave : (i : ℕ) → get_elem? p.workers i ≡ some idle → p.done ≡ true → Step p (at i left p)
    take :
        (i : ℕ) (o : WorkOrder F) (rest : List (WorkOrder F))
        → get_elem? p.workers i ≡ some idle
        → p.done ≡ false
        → p.work_orders ≡ o ∷ rest
        → Step p (take_order i o rest p)
    work :
        (i : ℕ) (o : WorkOrder F)
        → get_elem? p.workers i ≡ some (taken o)
        → Step p (record p { ran = run o.work p.ran; workers = set p.workers i (worked o) })
    call :
        (i : ℕ) (o : WorkOrder F)
        → get_elem? p.workers i ≡ some (worked o)
        → Step p (record p { ran = run o.callback p.ran; workers = set p.workers i (called o) })
    finish :
        (i : ℕ) (o : WorkOrder F)
        → get_elem? p.workers i ≡ some (called o)
        → Step p (finish_order i p)
    -- WaitForResults: at once, to sleep, or back from sleep with the lock.
    at_once : p.caller ≡ away → have_results p ≡ true → Step p (return true p)
    sleep :
        (timed : Bool)
        → p.caller ≡ away
        → have_results p ≡ false
        → Step p (record p { caller = asleep timed })
    spurious :
        (timed : Bool) → p.caller ≡ asleep timed → Step p (record p { caller = notified timed })
    wake_forever : p.caller ≡ notified false → Step p (return true p)
    wake_timed : p.caller ≡ notified true → have_results p ≡ true → Step p (return true p)
    sleep_again :
        p.caller ≡ notified true
        → have_results p ≡ false
        → Step p (record p { caller = asleep true })
    timeout : p.caller ≡ asleep true → Step p (return (have_results p) p)

  pub data Reach (hardware min_threads : ℕ) : Pool F → Type 0 where
    start : Reach hardware min_threads (new_pool hardware min_threads)
    next : {p q : Pool F} → Reach hardware min_threads p → Step p q → Reach hardware min_threads q
