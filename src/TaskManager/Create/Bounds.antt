-- ===== src/TaskManager/Create/Bounds.antt =====
-- What `Task_create` of src/observer/taskmanager.cpp does for a name that is new: it writes three or
-- four texts into arrays of 20 bytes.
use tpst.Prelude.{
  ℕ, ◌<◌, ◌≤◌, ◌≡◌, ◌↔◌, refl, ◌∙◌, Option, none, some, Bytes, bytes_eq, err, ok, overflow, length,
  ltb, if◌then◌else◌, arith,
}
use tpst.StdMap.{bytes_key, put}
use tpst.StdMap.Laws.{find-put}
use tpst.TaskManager.{TaskType, TaskManagerMeta, EventStore}
use tpst.TaskManager.Register.{register_event}
use tpst.TaskManager.Register.Laws.{
  subscribers, IsIndexed, with_task, subscribers-register, register_event-IsIndexed,
}
use tpst.TaskManager.Create.{name_size, copy_name, copy_rule, get_tm, create_new, task_create}

abbrev larger : ℕ → ℕ → ℕ
larger a b = if ltb a b then b else a

abbrev rule_length : Option Bytes → ℕ
rule_length none = 0
rule_length (some rule) = length rule

-- The length of the longest of the texts.
abbrev pub longest : Bytes → Option Bytes → Bytes → Bytes → ℕ
longest tmname rule subevent pubevent =
    larger (length tmname) (larger (rule_length rule) (larger (length subevent) (length pubevent)))

abbrev pub new_meta : Bytes → Option Bytes → Bytes → Bytes → TaskType → TaskManagerMeta
new_meta tmname rule subevent pubevent type = record {
  name = tmname;
  agg_rule = rule;
  sub_event = subevent;
  publish_event = pubevent;
  tasktype = type;
}

-- The store with a new task in it.
abbrev pub created : TaskManagerMeta → EventStore → EventStore
created m s = record {
  managers = put m.name (record { taskmeta = m; observer = none }) s.managers;
  es = register_event m m.sub_event s.es;
}

copy_rule_lem :
    (rule : Option Bytes)
    → copy_rule rule ≡ (if ltb (rule_length rule) name_size then ok rule else err overflow)
unfolding copy_rule copy_name
copy_rule_lem none = refl
copy_rule_lem (some rule) = ground arith

create_new_lem :
    (tmname : Bytes) (rule : Option Bytes) (subevent pubevent : Bytes) (type : TaskType)
    (s : EventStore)
    → create_new tmname rule subevent pubevent type s ≡ (
        if ltb (longest tmname rule subevent pubevent) name_size
        then ok (created (new_meta tmname rule subevent pubevent type) s)
        else err overflow)
unfolding create_new copy_name
create_new_lem tmname rule subevent pubevent type s = rw (copy_rule_lem rule) (ground arith)

module _ (tmname : Bytes) (rule : Option Bytes) (subevent pubevent : Bytes) (type : TaskType)
    (s : EventStore) (new : get_tm tmname s ≡ none) where
  task_create-new : task_create tmname rule subevent pubevent type s ≡ (
      if ltb (longest tmname rule subevent pubevent) name_size
      then ok (created (new_meta tmname rule subevent pubevent type) s)
      else err overflow)
  unfolding task_create
  task_create-new = rw (new, task_create) (create_new_lem tmname rule subevent pubevent type s)

  -- For a name that is new, the creation of a task writes past the end of an array exactly when one
  -- of its texts, the rule counted if there is one, has 20 bytes or more.
  pub task_create-overflow :
      (task_create tmname rule subevent pubevent type s ≡ err overflow)
      ↔ (20 ≤ longest tmname rule subevent pubevent)
  task_create-overflow = (λ h. ground (arith, task_create-new), λ h. task_create-new ∙ ground arith)

  -- If all of them are shorter and each event has one node, the creation of a task with a new name
  -- succeeds: that name alone gets a manager, which holds the texts, the event that the task
  -- subscribes to alone gets the task at the end of its list unless one of its name is there, and each
  -- event still has one node, in which each name stands once.
  pub task_create-created :
      (k e : Bytes)
      → longest tmname rule subevent pubevent < 20
      → IsIndexed s.es
      → (s' : EventStore) × (task_create tmname rule subevent pubevent type s ≡ ok s')
        × (get_tm k s' ≡ (
            if bytes_eq tmname k
            then some
                (record { taskmeta = new_meta tmname rule subevent pubevent type; observer = none })
            else get_tm k s))
        × (subscribers e s'.es ≡ (
            if bytes_eq e subevent
            then with_task (new_meta tmname rule subevent pubevent type) (subscribers subevent s.es)
            else subscribers e s.es))
        × IsIndexed s'.es
  unfolding get_tm
  task_create-created k e short indexed =
      let m : TaskManagerMeta = new_meta tmname rule subevent pubevent type in
      (
        created m s,
        task_create-new ∙ ground arith,
        find-put k tmname (record { taskmeta = m; observer = none }) s.managers,
        subscribers-register e m subevent s.es indexed.one_node,
        register_event-IsIndexed m subevent s.es indexed,
      )
