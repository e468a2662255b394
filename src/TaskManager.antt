-- ===== src/TaskManager.antt =====
-- The task managers and the event store, src/observer/taskmanager.cpp, with the structs of
-- src/observer/common.h and src/observer/taskcommon.h. A `TaskManager *` is the name under which
-- `taskManagerGlobal` keeps it, and a null pointer is a name that the map lacks. A function pointer is
-- the number that `dlsym` returned for it.
pub mod Register
pub mod Create
pub mod Delete
pub mod Notify
pub mod Parse
use tpst.Prelude.{ℕ, Bool, true, false, List, [], ◌∷◌, ◌++◌, Option, none, some, Bytes, codes}
use tpst.StdMap.{Map}

pub data TaskType : Type 0 where
  blocked unblocked : TaskType

-- `aggRule` is `none` where `Task_create` leaves the array as it was allocated.
pub record TaskManagerMeta : Type 0 where
  pub name : Bytes
  pub agg_rule : Option Bytes
  pub sub_event : Bytes
  pub publish_event : Bytes
  pub tasktype : TaskType

-- A pointer in memory that `malloc` returned: `unset` until the first write.
pub data Slot : Type 0 where
  unset : Slot
  pointer : Option ℕ → Slot

pub record Observer : Type 0 where
  pub actionfunc : Option ℕ
  pub filterfunc : Slot
  pub aggfilterfunc : Slot

pub record TaskManager : Type 0 where
  pub taskmeta : TaskManagerMeta
  pub observer : Option Observer

pub record HeadNode : Type 0 where
  pub te : Bytes
  pub tm_list : List TaskManagerMeta

-- `taskManagerGlobal` and `es`.
pub record EventStore : Type 0 where
  pub managers : Map Bytes TaskManager
  pub es : List HeadNode

-- The text that stands for "no event" in the task files.
abbrev pub null_event : Bytes
null_event = codes "NULL"
