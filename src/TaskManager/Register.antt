-- ===== src/TaskManager/Register.antt =====
-- src/observer/taskmanager.cpp, `registerEvent`.
pub mod Laws
use tpst.Prelude.{Bool, true, false, List, [], ◌∷◌, ◌++◌, Bytes, bytes_eq, if◌then◌else◌}
use tpst.TaskManager.{TaskManagerMeta, HeadNode}

-- Is some task of the list called `name`?
unfoldable pub has_name : Bytes → List TaskManagerMeta → Bool
has_name name [] = false
has_name name (m ∷ ms) = if bytes_eq name m.name then true else has_name name ms

-- `registerEvent`: the first node of the event takes the task, unless it holds one of that name; an
-- event with no node gets one at the end.
unfoldable pub register_event : TaskManagerMeta → Bytes → List HeadNode → List HeadNode
unfolding has_name
register_event m te [] = record { te = te; tm_list = m ∷ [] } ∷ []
register_event m te (node ∷ es) =
    if bytes_eq te node.te
    then (if has_name m.name node.tm_list
        then node
        else record node { tm_list = node.tm_list ++ m ∷ [] })
      ∷ es
    else node ∷ register_event m te es
