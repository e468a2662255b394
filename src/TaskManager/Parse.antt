-- ===== src/TaskManager/Parse.antt =====
-- src/observer/taskmanager.cpp, `TaskFileParsing`: what a task file does to the event store. The JSON
-- parser and the dynamic loader are libraries: a file is taken as its members, and a function as what
-- `dlopen` and `dlsym` made of its path, `none` if they failed. Such a failure ends the process, by
-- the test of `dlerror` at the latest.
pub mod Filters
use tpst.Prelude.{
  ℕ, Bool, true, false, List, [], ◌∷◌, Option, none, some, Bytes, bytes_eq, Result, err, ok,
  dangling, exit_failure, ◌>>=◌, if◌then◌else◌,
}
use tpst.StdMap.{bytes_key, find}
use tpst.TaskManager.{TaskType, blocked, unblocked, TaskManager, EventStore, null_event}
use tpst.TaskManager.Create.{task_create, register_action, register_filter, register_aggre_filter}

-- `aggregation` holds the rule, the filter and the reduction of a file that has both members.
pub record Aggregation : Type 0 where
  pub rule : Bytes
  pub filter_func : Option ℕ
  pub agg_filter_func : Option ℕ

pub record TaskFile : Type 0 where
  pub subscribe_event : Bytes
  pub publish_event : Bytes
  pub has_task_type : Bool
  pub aggregation : Option Aggregation
  pub action_func : Option ℕ

abbrev pub loaded : Option ℕ → Result ℕ
loaded none = err exit_failure
loaded (some f) = ok f

abbrev pub file_type : TaskFile → TaskType
file_type d = if d.has_task_type then unblocked else blocked

-- A file with the filters has no action.
unfoldable pub parse_with_filter : Bytes → TaskFile → Aggregation → EventStore → Result EventStore
unfolding task_create register_filter register_aggre_filter
parse_with_filter name d a s = do
  s ← task_create name (some a.rule) d.subscribe_event d.publish_event (file_type d) s
  f ← loaded a.filter_func
  s ← register_filter name (some f) s
  g ← loaded a.agg_filter_func
  register_aggre_filter name (some g) s

unfoldable pub parse_with_action : Bytes → TaskFile → EventStore → Result EventStore
unfolding task_create register_action
parse_with_action name d s = do
  s ← task_create name none d.subscribe_event d.publish_event (file_type d) s
  f ← loaded d.action_func
  register_action name (some f) s

-- `TaskFileParsing`, and whether it starts the task in a new thread, which runs `startFirstAction`.
unfoldable pub task_file_parsing : Bytes → TaskFile → EventStore → Result (EventStore × Bool)
unfolding parse_with_filter parse_with_action find
task_file_parsing name d s = do
  s' ← elim d.aggregation [
    | some a ↦ parse_with_filter name d a s
    | none ↦ parse_with_action name d s
  ]
  elim (find {V = TaskManager} name s'.managers) [
    | none ↦ err dangling
    | some tm ↦ ok (s', bytes_eq tm.taskmeta.sub_event null_event)
  ]
