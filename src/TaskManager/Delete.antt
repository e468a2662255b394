-- ===== src/TaskManager/Delete.antt =====
-- src/observer/taskmanager.cpp, `deleteTmfromES`.
mod Loop
pub mod Stale
use tpst.Prelude.{
  ℕ, zero, suc, Bool, true, false, List, [], ◌∷◌, Option, none, some, Bytes, bytes_eq, Result, err,
  ok, bad_index, ◌>>=◌, length, get_elem?, if◌then◌else◌,
}
use tpst.TaskManager.{TaskManagerMeta, HeadNode}

-- `v.erase(v.begin() + j)`.
abbrev pub erase_at {ℓ} : {T : Type ℓ} → ℕ → List T → List T
erase_at j [] = []
erase_at zero (x ∷ xs) = xs
erase_at (suc j) (x ∷ xs) = x ∷ erase_at j xs

-- The inner loop, `rounds` rounds from `j`: the bound was read before the first erasure.
unfoldable pub delete_name : ℕ → ℕ → Bytes → List TaskManagerMeta → Result (List TaskManagerMeta)
delete_name zero j name ms = ok ms
delete_name (suc rounds) j name ms = elim (get_elem? ms j) [
  | none ↦ err bad_index
  | some m ↦ delete_name rounds (suc j) name (if bytes_eq name m.name then erase_at j ms else ms)
]

-- The outer loop, over the nodes of the event that the task subscribes to.
unfoldable pub delete_nodes : Bytes → Bytes → List HeadNode → Result (List HeadNode)
unfolding delete_name
delete_nodes subevent name [] = ok []
delete_nodes subevent name (node ∷ es) = do
  ms ←
      (if bytes_eq subevent node.te
        then delete_name (length node.tm_list) 0 name node.tm_list
        else ok node.tm_list)
  rest ← delete_nodes subevent name es
  ok (record node { tm_list = ms } ∷ rest)

-- `deleteTmfromES`.
unfoldable pub delete_tm : TaskManagerMeta → List HeadNode → Result (List HeadNode)
unfolding delete_nodes
delete_tm meta es = delete_nodes meta.sub_event meta.name es
