-- ===== src/Server/Threads/Served.antt =====
-- What the flag of a client gives the handlers of src/server/workflowserver.cc that share it.
use tpst.Prelude.{
  ℕ, ◌+◌, ◌≤◌, ◌<◌, ◌≡◌, refl, Bool, true, false, List, [], ◌∷◌, some, get_elem?, length,
  length-append, Option-cases, inl, inr, ◌⊎◌, arith,
}
use tpst.PubSub.Publish.{count_event}
use tpst.PubSub.Trigger.{check_if_triggure}
use tpst.Server.Notify.{notify_info}
use tpst.Server.Threads.{
  Phase, counting, matching, marking, checking, taking, pushing, clearing, finished, Handler,
  set_handler, Shared, mark_if, read_flag, take_flag, clear_if_name, advance, step, run,
}
use tpst.Server.Threads.Count.{
  before_check, holds_flag, holds_mutex, total, AllAt, total-set_handler, total-AllAt,
}

abbrev flag : Bool → ℕ
flag true = 1
flag false = 0

-- With `n` infos in the queue at the start: the infos, those that are about to be pushed and the flag
-- are no more than the markings; there is one once there was a marking; and while the flag is up, a
-- handler is yet to clear it. Who holds the mutex has seen the flag up, and is the only one.
record IsServed (n : ℕ) (s : Shared) : Type 0 where
  kept : n ≤ length s.queue
  bounded : length s.queue + total holds_flag s.handlers + flag s.wrapper.iftrigure ≤ n + s.marks
  served : 0 < s.marks → n < length s.queue + total holds_flag s.handlers + flag s.wrapper.iftrigure
  mutex : total holds_mutex s.handlers ≡ flag s.locked
  seen : flag s.locked ≤ flag s.wrapper.iftrigure
  watched : flag s.wrapper.iftrigure ≤ total before_check s.handlers

module _ (n i : ℕ) (h : Handler) (s : Shared) (found : get_elem? s.handlers i ≡ some h)
    (inv : IsServed n s) where
  at_check :
      (g : Handler)
      → total before_check (set_handler i g s.handlers) + before_check h.phase
        ≡ total before_check s.handlers + before_check g.phase
  at_check g = total-set_handler before_check i h g s.handlers found

  at_push :
      (g : Handler)
      → total holds_flag (set_handler i g s.handlers) + holds_flag h.phase
        ≡ total holds_flag s.handlers + holds_flag g.phase
  at_push g = total-set_handler holds_flag i h g s.handlers found

  at_mutex :
      (g : Handler)
      → total holds_mutex (set_handler i g s.handlers) + holds_mutex h.phase
        ≡ total holds_mutex s.handlers + holds_mutex g.phase
  at_mutex g = total-set_handler holds_mutex i h g s.handlers found

  advance-IsServed : (phase : Phase) → h.phase ≡ phase → IsServed n (advance phase i h s)
  unfolding advance mark_if read_flag take_flag clear_if_name count_event
  advance-IsServed counting at = ground (
    arith,
    at_check (record h { phase = matching }),
    at_push (record h { phase = matching }),
    at_mutex (record h { phase = matching }),
  )
  advance-IsServed matching at = ground (
    arith,
    at_check (record h { phase = marking (check_if_triggure s.wrapper) }),
    at_push (record h { phase = marking (check_if_triggure s.wrapper) }),
    at_mutex (record h { phase = marking (check_if_triggure s.wrapper) }),
  )
  advance-IsServed (marking true) at = ground (
    arith,
    at_check (record h { phase = checking }),
    at_push (record h { phase = checking }),
    at_mutex (record h { phase = checking }),
  )
  advance-IsServed (marking false) at = ground (
    arith,
    at_check (record h { phase = checking }),
    at_push (record h { phase = checking }),
    at_mutex (record h { phase = checking }),
  )
  advance-IsServed checking at = ground (
    arith,
    at_check (record h { phase = taking }),
    at_push (record h { phase = taking }),
    at_mutex (record h { phase = taking }),
    at_check (record h { phase = finished }),
    at_push (record h { phase = finished }),
    at_mutex (record h { phase = finished }),
  )
  advance-IsServed taking at = ground (
    arith,
    at_check (record h { phase = pushing }),
    at_push (record h { phase = pushing }),
    at_mutex (record h { phase = pushing }),
  )
  advance-IsServed pushing at = ground (
    arith,
    at_check (record h { phase = clearing }),
    at_push (record h { phase = clearing }),
    at_mutex (record h { phase = clearing }),
    length-append s.queue (notify_info s.wrapper ∷ []),
  )
  advance-IsServed clearing at = ground (
    arith,
    at_check (record h { phase = finished }),
    at_push (record h { phase = finished }),
    at_mutex (record h { phase = finished }),
  )
  advance-IsServed finished at = inv

step-IsServed : (n i : ℕ) (s : Shared) → IsServed n s → IsServed n (step i s)
unfolding step
step-IsServed n i s inv = elim (Option-cases (get_elem? s.handlers i)) [
  | inl gone ↦ rw (gone, step) inv
  | inr (h, found) ↦ rw (found, step) (advance-IsServed n i h s found inv h.phase refl)
]

run-IsServed : (n : ℕ) (schedule : List ℕ) (s : Shared) → IsServed n s → IsServed n (run schedule s)
unfolding run
run-IsServed n [] s inv = inv
run-IsServed n (i ∷ schedule) s inv = run-IsServed n schedule (step i s) (step-IsServed n i s inv)

-- Any number of handlers publish one event each by NAME to a client that is not marked, in any
-- interleaving of the accesses to its object, each of which is taken to be whole: once all have
-- finished no mark is left, there are no more new infos than the flag was written, and there is one
-- unless the flag was never written.
pub run-served :
    (schedule : List ℕ) (s : Shared)
    → AllAt counting s.handlers
    → s.wrapper.iftrigure ≡ false
    → s.locked ≡ false
    → s.marks ≡ 0
    → AllAt finished (run schedule s).handlers
    → ((run schedule s).wrapper.iftrigure ≡ false)
      × (length (run schedule s).queue ≤ length s.queue + (run schedule s).marks)
      × (((run schedule s).marks ≡ 0) ⊎ (length s.queue < length (run schedule s).queue))
run-served schedule s all quiet free unmarked ended =
    let start : IsServed (length s.queue) s = ground (
      arith,
      quiet,
      free,
      unmarked,
      total-AllAt holds_flag counting s.handlers refl all,
      total-AllAt holds_mutex counting s.handlers refl all,
    ) in
    let inv = run-IsServed (length s.queue) schedule s start in
    let idle = total-AllAt before_check finished (run schedule s).handlers refl ended in
    let none_held = total-AllAt holds_flag finished (run schedule s).handlers refl ended in
    ground (arith, inv.bounded, inv.served, inv.watched, idle, none_held)
