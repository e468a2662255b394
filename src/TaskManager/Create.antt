-- ===== src/TaskManager/Create.antt =====
-- src/observer/taskmanager.cpp, `Task_create` with what it calls, and the registration of functions;
-- `observerNew` of src/observer/observer.cpp.
pub mod Bounds
use tpst.Prelude.{
  ℕ, Bool, true, false, List, [], ◌∷◌, ◌++◌, Option, none, some, Bytes, Result, err, ok, overflow,
  dangling, ◌>>=◌, length, ltb, if◌then◌else◌,
}
use tpst.StdMap.{bytes_key, Map, find, put}
use tpst.TaskManager.{
  TaskType, TaskManagerMeta, Slot, unset, pointer, Observer, TaskManager, HeadNode, EventStore,
}
use tpst.TaskManager.Register.{register_event}

-- `memcpy(array, s, strlen(s) + 1)` into a `char[20]`.
abbrev pub name_size : ℕ
name_size = 20

unfoldable pub copy_name : Bytes → Result Bytes
copy_name s = if ltb (length s) name_size then ok s else err overflow

-- The same for `aggRule`, which is copied unless it is null.
unfoldable pub copy_rule : Option Bytes → Result (Option Bytes)
unfolding copy_name
copy_rule none = ok none
copy_rule (some rule) = copy_name rule >>= λ r. ok (some r)

-- `getTmfromES`.
unfoldable pub get_tm : Bytes → EventStore → Option TaskManager
unfolding find
get_tm name s = find name s.managers

-- What `Task_create` does for a name that is new.
unfoldable pub create_new :
    Bytes → Option Bytes → Bytes → Bytes → TaskType → EventStore → Result EventStore
unfolding copy_name copy_rule register_event put
create_new tmname rule subevent pubevent type s = do
  name ← copy_name tmname
  agg ← copy_rule rule
  publish ← copy_name pubevent
  sub ← copy_name subevent
  let meta : TaskManagerMeta = record {
    name = name;
    agg_rule = agg;
    sub_event = sub;
    publish_event = publish;
    tasktype = type;
  }
  ok (record {
    managers = put tmname (record { taskmeta = meta; observer = none }) s.managers;
    es = register_event meta sub s.es;
  })

-- `Task_create`; the manager that it returns is the one of that name.
unfoldable pub task_create :
    Bytes → Option Bytes → Bytes → Bytes → TaskType → EventStore → Result EventStore
unfolding get_tm create_new
task_create tmname rule subevent pubevent type s = elim (get_tm tmname s) [
  | some tm ↦ ok s
  | none ↦ create_new tmname rule subevent pubevent type s
]

-- `observerNew`.
abbrev pub observer_new : Option ℕ → Observer
observer_new f = record { actionfunc = f; filterfunc = unset; aggfilterfunc = unset }

-- `Task_registerAction`: only the first action is kept.
abbrev pub with_action : Option ℕ → TaskManager → TaskManager
with_action f tm = elim tm.observer [
  | none ↦ record tm { observer = some (observer_new f) }
  | some obs ↦ tm
]

abbrev pub with_filter : Option ℕ → TaskManager → TaskManager
with_filter f tm = elim tm.observer [
  | none ↦ tm
  | some obs ↦ record tm { observer = some (record obs { filterfunc = pointer f }) }
]

abbrev pub with_aggre_filter : Option ℕ → TaskManager → TaskManager
with_aggre_filter f tm = elim tm.observer [
  | none ↦ tm
  | some obs ↦ record tm { observer = some (record obs { aggfilterfunc = pointer f }) }
]

-- A write through a `TaskManager *`.
unfoldable pub modify : (TaskManager → TaskManager) → Bytes → EventStore → Result EventStore
unfolding find put
modify change name s = elim (find name s.managers) [
  | none ↦ err dangling
  | some tm ↦ ok (record s { managers = put name (change tm) s.managers })
]

unfoldable pub register_action : Bytes → Option ℕ → EventStore → Result EventStore
unfolding modify
register_action name f s = modify (with_action f) name s

unfoldable pub register_filter : Bytes → Option ℕ → EventStore → Result EventStore
unfolding modify
register_filter name f s = modify (with_filter f) name s

unfoldable pub register_aggre_filter : Bytes → Option ℕ → EventStore → Result EventStore
unfolding modify
register_aggre_filter name f s = modify (with_aggre_filter f) name s
