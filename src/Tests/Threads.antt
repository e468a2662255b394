-- ===== src/Tests/Threads.antt =====
-- src/utils/threadpool/ThreadPool.h on a concrete interleaving.
use tpst.Prelude.{ℕ, ◌+◌, ◌≡◌, refl, true, List, [], ◌∷◌, ◌++◌, some, length}
use tpst.ThreadPool.{left, Pool, Action, enqueue, take_task, end_task, leave, halt, new_pool, run}
use tpst.ThreadPool.Invariant.{busy_workers}
use tpst.ThreadPool.Order.{run-in-order}

-- Two workers, the second of which begins first; the pool is stopped while both run.
abbrev actions : List (Action ℕ)
actions =
    enqueue 7
    ∷ enqueue 8
    ∷ take_task 1
    ∷ take_task 0
    ∷ halt
    ∷ end_task 0
    ∷ leave 0
    ∷ end_task 1
    ∷ leave 1
    ∷ []

abbrev joined : Pool ℕ
joined = record {
  workers = left ∷ left ∷ [];
  tasks = [];
  stop = true;
  enqueued = 7 ∷ 8 ∷ [];
  begun = 7 ∷ 8 ∷ [];
  ended = 8 ∷ 7 ∷ [];
}

reaches_joined : run actions (new_pool 2) ≡ some joined
unfolding run new_pool
reaches_joined = refl

run-in-order_example :
    (joined.enqueued ≡ joined.begun ++ joined.tasks)
    × (length joined.begun ≡ length joined.ended + busy_workers joined.workers)
run-in-order_example = run-in-order 2 actions joined reaches_joined
