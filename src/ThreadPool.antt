-- ===== src/ThreadPool.antt =====
-- The thread pool, src/utils/threadpool/ThreadPool.h. Each step is what one thread does while it
-- holds `queue_mutex`, or the end of a task, so that a list of steps is one interleaving.
pub mod Invariant
pub mod Order
use tpst.Prelude.{
  ℕ, zero, suc, Bool, true, false, List, [], ◌∷◌, ◌++◌, Option, none, some, get_elem?,
  if◌then◌else◌,
}

-- A worker waits for a task, runs one, or has returned.
pub data Worker {ℓ} (T : Type ℓ) : Type ℓ where
  waiting : Worker T
  running : T → Worker T
  left : Worker T

-- `tasks` is listed from its front. The last three fields are no part of the program: the tasks that
-- were enqueued, begun and ended so far, in that order.
pub record Pool {ℓ} (T : Type ℓ) : Type ℓ where
  pub workers : List (Worker T)
  pub tasks : List T
  pub stop : Bool
  pub enqueued : List T
  pub begun : List T
  pub ended : List T

pub data Action {ℓ} (T : Type ℓ) : Type ℓ where
  enqueue : T → Action T
  take_task : ℕ → Action T
  end_task : ℕ → Action T
  leave : ℕ → Action T
  halt : Action T

module _ {ℓ} {T : Type ℓ} where
  abbrev pub set_worker : ℕ → Worker T → List (Worker T) → List (Worker T)
  set_worker i w [] = []
  set_worker zero w (v ∷ workers) = w ∷ workers
  set_worker (suc i) w (v ∷ workers) = v ∷ set_worker i w workers

  -- The constructor: `threads` workers.
  pub all_waiting : ℕ → List (Worker T)
  all_waiting zero = []
  all_waiting (suc n) = waiting ∷ all_waiting n

  unfoldable pub new_pool : ℕ → Pool T
  unfolding all_waiting
  new_pool threads = record {
    workers = all_waiting threads;
    tasks = [];
    stop = false;
    enqueued = [];
    begun = [];
    ended = [];
  }

  -- A worker that waits takes the front of the queue, once there is one.
  pub take_front : ℕ → Worker T → List T → Pool T → Option (Pool T)
  take_front i waiting (t ∷ tasks) p = some (record p {
    workers = set_worker i (running t) p.workers;
    tasks = tasks;
    begun = p.begun ++ t ∷ [];
  })
  take_front i waiting [] p = none
  take_front i (running t) tasks p = none
  take_front i left tasks p = none

  pub end_running : ℕ → Worker T → Pool T → Option (Pool T)
  end_running i (running t) p =
      some (record p { workers = set_worker i waiting p.workers; ended = p.ended ++ t ∷ [] })
  end_running i waiting p = none
  end_running i left p = none

  -- A worker that waits returns where the pool has stopped and the queue is empty.
  pub leave_empty : ℕ → Worker T → List T → Pool T → Option (Pool T)
  leave_empty i waiting [] p =
      if p.stop then some (record p { workers = set_worker i left p.workers }) else none
  leave_empty i waiting (t ∷ tasks) p = none
  leave_empty i (running t) tasks p = none
  leave_empty i left tasks p = none

  -- `none`: the step cannot be taken. `enqueue` on a stopped pool throws. `halt` is the destructor.
  pub step : Action T → Pool T → Option (Pool T)
  unfolding take_front end_running leave_empty
  step (enqueue t) p =
      if p.stop
      then none
      else some (record p { tasks = p.tasks ++ t ∷ []; enqueued = p.enqueued ++ t ∷ [] })
  step (take_task i) p = elim (get_elem? p.workers i) [
    | none ↦ none
    | some w ↦ take_front i w p.tasks p
  ]
  step (end_task i) p = elim (get_elem? p.workers i) [ none ↦ none | some w ↦ end_running i w p ]
  step (leave i) p = elim (get_elem? p.workers i) [
    | none ↦ none
    | some w ↦ leave_empty i w p.tasks p
  ]
  step halt p = some (record p { stop = true })

  unfoldable pub run : List (Action T) → Pool T → Option (Pool T)
  unfolding step
  run [] p = some p
  run (a ∷ actions) p = elim (step a p) [ none ↦ none | some p' ↦ run actions p' ]
