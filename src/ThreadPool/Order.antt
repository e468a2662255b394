-- ===== src/ThreadPool/Order.antt =====
-- The order in which src/utils/threadpool/ThreadPool.h runs its tasks.
use tpst.Prelude.{ℕ, zero, suc, ◌+◌, ◌≡◌, refl, false, List, [], ◌∷◌, ◌++◌, some, length, arith}
use mathlib.Core.Path.{subst}
use tpst.ThreadPool.{Pool, Action, all_waiting, new_pool, step, run}
use tpst.ThreadPool.Invariant.{
  busy_workers, some_left, IsSound, some-injective, step-IsSound, after_step, not_both,
}

module _ {ℓ} {T : Type ℓ} where
  run-IsSound :
      (actions : List (Action T)) (p q : Pool T) → IsSound p → run actions p ≡ some q → IsSound q
  unfolding run
  run-IsSound [] p q s h = subst IsSound (some-injective h) s
  run-IsSound (a ∷ actions) p q s h =
      let (p', first, rest) = after_step {f = λ r. run actions r} (step a p) q h in
      run-IsSound actions p' q (step-IsSound a p p' s first) rest

module _ {ℓ} (T : Type ℓ) where
  none_busy : (n : ℕ) → busy_workers (all_waiting {T = T} n) ≡ 0
  unfolding all_waiting
  none_busy zero = refl
  none_busy (suc n) = omega (arith, none_busy n)

  none_left : (n : ℕ) → some_left (all_waiting {T = T} n) ≡ false
  unfolding all_waiting
  none_left zero = refl
  none_left (suc n) = none_left n

module _ {ℓ} {T : Type ℓ} where
  new_pool-IsSound : (threads : ℕ) → IsSound (new_pool {T = T} threads)
  unfolding new_pool
  new_pool-IsSound threads = record {
    in_order = refl;
    accounted = omega (arith, none_busy T threads);
    drained = λ gone_one. absurd (not_both (none_left T threads) gone_one);
  }

  -- In every interleaving of the callers and of any number of workers, the tasks are begun in the
  -- order in which they were enqueued, each at most once, those that are not begun are the queue, and
  -- of those that are begun all have ended but one for each worker that runs a task.
  pub run-in-order :
      (threads : ℕ) (actions : List (Action T)) (p : Pool T)
      → run actions (new_pool threads) ≡ some p
      → (p.enqueued ≡ p.begun ++ p.tasks)
        × (length p.begun ≡ length p.ended + busy_workers p.workers)
  run-in-order threads actions p h =
      let s = run-IsSound actions (new_pool threads) p (new_pool-IsSound threads) h in
      (s.in_order, s.accounted)
