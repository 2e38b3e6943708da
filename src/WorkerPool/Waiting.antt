-- ===== src/WorkerPool/Waiting.antt =====
-- What the result of WaitForResults in src/WorkerPool.cc says.
use ign_common.Common.{
  ℕ, ◌+◌, ◌≡◌, ◌≢◌, refl, sym, ◌∙◌, ap, true, false, List, [], ◌∷◌, arith, length,
}
use mathlib.Core.List.{append-nil}
use ign_common.WorkerPool.{
  WorkOrder, Pc, idle, taken, worked, called, left, notified, returned, Pool, Step, Reach, new_pool,
  add, shut, leave, take, work, call, finish, at_once, sleep, spurious, wake_forever, wake_timed,
  sleep_again, timeout, start, next,
}
use ign_common.WorkerPool.Orders.{
  total, busy, weigh, weigh_orders, to_call, IsConsistent, Reach-IsConsistent,
}

module _ {F : Type 0} where
  -- Apart from the untimed wait, the caller gets `true` only over an empty queue with nothing active.
  settled :
      {p q : Pool F}
      → Step p q
      → p.caller ≢ notified false
      → p.caller ≢ returned true
      → q.caller ≡ returned true
      → (q.work_orders ≡ []) × (q.active_orders ≡ 0)
  settled {p} (add o) n r e = absurd (r e)
  settled shut n r e = absurd (r e)
  settled (leave i g d) n r e = absurd (r e)
  settled (take i o rest g d h) n r e = absurd (r e)
  settled (work i o g) n r e = absurd (r e)
  settled (call i o g) n r e = absurd (r e)
  settled {p} (finish i o g) n r e = ground arith
  settled {p} (at_once a h) n r e = ground arith
  settled (sleep t a h) n r e = cc
  settled (spurious t a) n r e = cc
  settled (wake_forever a) n r e = absurd (n a)
  settled {p} (wake_timed a h) n r e = ground arith
  settled (sleep_again a h) n r e = cc
  settled {p} (timeout a) n r e = ground arith

  to_call-total :
      (weight : F → ℕ) (ws : List (Pc F)) → total busy ws ≡ 0 → total (to_call weight) ws ≡ 0
  to_call-total w [] h = refl
  to_call-total w (idle ∷ ws) h = omega (arith, to_call-total w ws)
  to_call-total w (left ∷ ws) h = omega (arith, to_call-total w ws)
  to_call-total w (taken o ∷ ws) h = absurd (omega arith)
  to_call-total w (worked o ∷ ws) h = absurd (omega arith)
  to_call-total w (called o ∷ ws) h = absurd (omega arith)

  -- A step of a run that brings `true` to the caller, other than the return of the untimed wait,
  -- leaves every added order finished and each of its functions called exactly once.
  pub results_lem :
      {h m : ℕ} {p q : Pool F}
      → Reach h m p
      → Step p q
      → p.caller ≢ notified false
      → p.caller ≢ returned true
      → q.caller ≡ returned true
      → (q.finished ≡ length q.added)
        × ((weight : F → ℕ) → weigh weight q.ran ≡ weigh_orders weight q.added)
  results_lem {q = q} r s n d e =
      let (empty, quiet) = settled s n d e in
      let c : IsConsistent q = Reach-IsConsistent (next r s) in
      let all : q.started ≡ q.added = sym (append-nil q.started) ∙ rw empty at c.fifo in
      (
        omega (arith, c.count, quiet, ap length all),
        λ w.
            rw (← all) (
              omega (arith, c.calls w, to_call-total w q.workers (omega (arith, c.active, quiet)))),
      )

  -- The untimed wait has no predicate: after the notification another thread can add an order
  -- before the caller has the lock, and the caller gets `true` with that order in the queue.
  pub wait_forever_early :
      (o late : WorkOrder F)
      → (p : Pool F) × Reach 1 1 p
        × (p.caller ≡ returned true)
        × (p.work_orders ≡ late ∷ [])
        × (p.finished + 1 ≡ length p.added)
  unfolding new_pool
  wait_forever_early o late = (
    _,
    next
        (next
          (next
            (next
              (next
                (next (next (next start (add o)) (sleep false refl refl))
                  (take 0 o [] refl refl refl))
                (work 0 o refl))
              (call 0 o refl))
            (finish 0 o refl))
          (add late))
        (wake_forever refl),
    refl,
    refl,
    refl,
  )
