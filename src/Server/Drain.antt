-- ===== src/Server/Drain.antt =====
-- `getElementFromNotifyQ` of src/server/workflowserver.cc.
use tpst.Prelude.{
  ℕ, zero, suc, ◌+◌, ◌*◌, ◌≤◌, ◌≡◌, refl, List, [], ◌∷◌, ◌++◌, arith, length, ltb, if◌then◌else◌,
}
use mathlib.Core.List.{append_assoc, append-nil}
use tpst.Server.State.{NotifyInfo}

-- The inner loop: the infos that it starts a thread for, in order, and the queue that it leaves.
pub drain : ℕ → List NotifyInfo → List NotifyInfo × List NotifyInfo
drain zero queue = ([], queue)
drain (suc n) [] = ([], [])
drain (suc n) (info ∷ queue) = let rest = drain n queue in (info ∷ rest.0, rest.1)

-- One turn of the outer loop: at most 512.
pub drain_round : List NotifyInfo → List NotifyInfo × List NotifyInfo
unfolding drain
drain_round queue = drain (if ltb (length queue) 512 then length queue else 512) queue

-- `n` turns with no push between them.
pub drain_rounds : ℕ → List NotifyInfo → List NotifyInfo × List NotifyInfo
unfolding drain_round
drain_rounds zero queue = ([], queue)
drain_rounds (suc n) queue =
    let first = drain_round queue in
    let rest = drain_rounds n first.1 in (first.0 ++ rest.0, rest.1)

drain-splits : (n : ℕ) (queue : List NotifyInfo) → (drain n queue).0 ++ (drain n queue).1 ≡ queue
unfolding drain
drain-splits zero queue = refl
drain-splits (suc n) [] = refl
drain-splits (suc n) (info ∷ queue) = λ i. info ∷ drain-splits n queue i

drain-length :
    (n : ℕ) (queue : List NotifyInfo)
    → n ≤ length queue
    → length (drain n queue).1 + n ≡ length queue
unfolding drain
drain-length zero queue le = omega arith
drain-length (suc n) [] le = absurd (omega arith)
drain-length (suc n) (info ∷ queue) le = omega (arith, drain-length n queue (omega arith))

drain_rounds-splits :
    (n : ℕ) (queue : List NotifyInfo) → (drain_rounds n queue).0 ++ (drain_rounds n queue).1 ≡ queue
unfolding drain_rounds drain_round
drain_rounds-splits zero queue = refl
drain_rounds-splits (suc n) queue =
    let k = if ltb (length queue) 512 then length queue else 512 in
    rw
      (
        append_assoc (drain k queue).0 (drain_rounds n (drain k queue).1).0
            (drain_rounds n (drain k queue).1).1,
        drain_rounds-splits n (drain k queue).1,
      )
      (drain-splits k queue)

drain_rounds-empties :
    (n : ℕ) (queue : List NotifyInfo) → length queue ≤ n * 512 → length (drain_rounds n queue).1 ≡ 0
unfolding drain_rounds drain_round
drain_rounds-empties zero queue le = omega arith
drain_rounds-empties (suc n) queue le =
    drain_rounds-empties n (drain k queue).1 (ground (arith, drain-length k queue))
  where
    k : ℕ
    k = if ltb (length queue) 512 then length queue else 512

empty : (xs : List NotifyInfo) → length xs ≡ 0 → xs ≡ []
empty [] h = refl
empty (x ∷ xs) h = absurd (omega arith)

-- Each turn of the drain takes from the front: after as many turns as there are blocks of 512 in the
-- queue, a thread has been started for each info exactly once, in the order in which they were
-- pushed, and the queue is empty.
pub drain_rounds-all :
    (n : ℕ) (queue : List NotifyInfo) → length queue ≤ n * 512 → drain_rounds n queue ≡ (queue, [])
drain_rounds-all n queue le = ground (
  arith,
  drain_rounds-splits n queue,
  empty (drain_rounds n queue).1 (drain_rounds-empties n queue le),
  append-nil (drain_rounds n queue).0,
)
