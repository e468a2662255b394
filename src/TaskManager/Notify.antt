-- ===== src/TaskManager/Notify.antt =====
-- src/observer/taskmanager.cpp, the publication of an event: `notifyTmList` and `callNotify`, which
-- call one another, and `startFirstAction`. The action functions are the user's: what the model keeps
-- of a publication is which of them it starts and waits for, in order. They are taken not to change
-- the event store, of which they get a copy.
pub mod Loop
pub mod Total
pub mod Cycle
use tpst.Prelude.{
  ℕ, zero, suc, Bool, true, false, List, [], ◌∷◌, ◌++◌, Option, none, some, Bytes, bytes_eq, Result,
  err, ok, dangling, out_of_fuel, ◌>>=◌, if◌then◌else◌, ℤ, pos,
}
use tpst.StdMap.{bytes_key, find}
use tpst.TaskManager.{
  TaskType, blocked, unblocked, TaskManagerMeta, Slot, unset, pointer, Observer, TaskManager,
  HeadNode, EventStore, null_event,
}

-- The action function of a task is started in a thread, or run by the caller; a thread has ended.
pub data Act : Type 0 where
  start join : Bytes → Act

-- The thread of `callNotify`, which joins it if the task is blocked.
abbrev pub join_acts : TaskType → Bytes → List Act
join_acts blocked name = join name ∷ []
join_acts unblocked name = []

unfoldable pub run_action : TaskManagerMeta → Option ℕ → List Act
run_action m none = []
run_action m (some f) = start m.name ∷ join_acts m.tasktype m.name

-- `callNotify`: `next` is `notifyTmList`.
unfoldable pub call_notify :
    (Bytes → Result (List Act)) → TaskManager → Option Observer → Bytes → Result (List Act)
unfolding run_action
call_notify next tm none te = err dangling
call_notify next tm (some obs) te =
    next te >>= λ acts. ok (run_action tm.taskmeta obs.actionfunc ++ acts)

-- One round of the inner loop of `notifyTmList`.
unfoldable pub notify_task :
    (Bytes → Result (List Act)) → TaskManagerMeta → EventStore → Result (List Act)
unfolding call_notify find
notify_task next m s =
    if bytes_eq m.publish_event null_event then ok [] else elim (find m.name s.managers) [
      | none ↦ err dangling
      | some tm ↦ call_notify next tm tm.observer m.publish_event
    ]

unfoldable pub notify_tasks :
    (Bytes → Result (List Act)) → List TaskManagerMeta → EventStore → Result (List Act)
unfolding notify_task
notify_tasks next [] s = ok []
notify_tasks next (m ∷ ms) s = do
  acts ← notify_task next m s
  more ← notify_tasks next ms s
  ok (acts ++ more)

unfoldable pub notify_nodes :
    (Bytes → Result (List Act)) → Bytes → List HeadNode → EventStore → Result (List Act)
unfolding notify_tasks
notify_nodes next te [] s = ok []
notify_nodes next te (node ∷ es) s = do
  acts ← (if bytes_eq te node.te then notify_tasks next node.tm_list s else ok [])
  more ← notify_nodes next te es s
  ok (acts ++ more)

-- `notifyTmList`, on the depth of its recursion.
unfoldable pub notify : ℕ → Bytes → EventStore → Result (List Act)
unfolding notify_nodes
notify zero te s = err out_of_fuel
notify (suc depth) te s = notify_nodes (λ e. notify depth e s) te s.es s

-- `startFirstAction`: the test is on the pointer to the event, which is set.
unfoldable pub start_first_action : ℕ → TaskManager → EventStore → Result (List Act)
unfolding notify
start_first_action depth tm s = elim tm.observer [
  | none ↦ err dangling
  | some obs ↦ elim obs.actionfunc [
    | none ↦ err dangling
    | some f ↦
        notify depth tm.taskmeta.publish_event s >>= λ acts. ok (start tm.taskmeta.name ∷ acts)
  ]
]

-- `IfFilterAggregation`.
abbrev pub slot_is_set : Slot → Result ℤ
slot_is_set unset = err dangling
slot_is_set (pointer none) = ok (pos 0)
slot_is_set (pointer (some f)) = ok (pos 1)

unfoldable pub if_filter_aggregation : TaskManager → Result ℤ
if_filter_aggregation tm = elim tm.observer [
  | none ↦ err dangling
  | some obs ↦ slot_is_set obs.aggfilterfunc
]

-- A call through a filter's pointer. `D` is `double`, and `call` what the loaded functions return.
module _ {ℓ} {D : Type ℓ} (call : ℕ → D → D → ℤ) where
  abbrev pub call_filter : Slot → D → D → Result ℤ
  call_filter unset v c = err dangling
  call_filter (pointer none) v c = ok (pos 0)
  call_filter (pointer (some f)) v c = ok (call f v c)

  -- `TaskFilter` and `TaskReductionFilter`.
  unfoldable pub task_filter : TaskManager → D → D → Result ℤ
  task_filter tm v c = elim tm.observer [
    | none ↦ err dangling
    | some obs ↦ call_filter obs.filterfunc v c
  ]

  unfoldable pub task_reduction_filter : TaskManager → D → D → Result ℤ
  task_reduction_filter tm v c = elim tm.observer [
    | none ↦ err dangling
    | some obs ↦ call_filter obs.aggfilterfunc v c
  ]
