-- ===== src/WorkerPool/Tests.antt =====
-- A run of one worker of src/WorkerPool.cc, and the theorems at it.
use ign_common.Common.{ℕ, ◌+◌, ◌≡◌, refl, true, none, some, [], ◌∷◌, length}
use ign_common.WorkerPool.{
  WorkOrder, Pool, returned, Reach, new_pool, num_workers, add, take, work, call, finish, at_once,
  start, next,
}
use ign_common.WorkerPool.Orders.{weigh, weigh_orders, IsConsistent, Reach-IsConsistent}
use ign_common.WorkerPool.Waiting.{results_lem, wait_forever_early}

abbrev job : WorkOrder ℕ
job = record { work = some 7; callback = some 8 }

abbrev silent : WorkOrder ℕ
silent = record { work = some 9; callback = none }

-- One worker has done the job.
abbrev finished_one : Pool ℕ
finished_one = record (new_pool 1 1) {
  ran = 7 ∷ 8 ∷ [];
  added = job ∷ [];
  started = job ∷ [];
  finished = 1;
}

run_one : Reach 1 1 finished_one
unfolding new_pool num_workers
run_one =
    next
      (next (next (next (next start (add job)) (take 0 job [] refl refl refl)) (work 0 job refl))
        (call 0 job refl))
      (finish 0 job refl)

Reach-IsConsistent_example : IsConsistent finished_one
Reach-IsConsistent_example = Reach-IsConsistent run_one

results_lem_example :
    (1 ≡ length (job ∷ []))
    × ((weight : ℕ → ℕ) → weigh weight (7 ∷ 8 ∷ []) ≡ weigh_orders weight (job ∷ []))
unfolding new_pool
results_lem_example = results_lem run_one (at_once refl refl) (λ e. cc) (λ e. cc) refl

wait_forever_early_example :
    (p : Pool ℕ) × Reach 1 1 p
    × (p.caller ≡ returned true)
    × (p.work_orders ≡ silent ∷ [])
    × (p.finished + 1 ≡ length p.added)
wait_forever_early_example = wait_forever_early job silent
