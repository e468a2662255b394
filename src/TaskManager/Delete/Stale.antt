-- ===== src/TaskManager/Delete/Stale.antt =====
-- What `deleteTmfromES` of src/observer/taskmanager.cpp makes of the event store.
use tpst.Prelude.{
  ◌≡◌, refl, sym, ◌∙◌, ap, true, false, List, [], ◌∷◌, ◌++◌, Bytes, bytes_eq, bytes_eq_iff, Result,
  err, ok, bad_index, ◌>>=◌, length, length-append, if◌then◌else◌, Bool-cases, inl, inr, arith,
}
use mathlib.Core.List.{append-nil}
use tpst.TaskManager.{TaskManagerMeta, HeadNode}
use tpst.TaskManager.Register.{has_name}
use tpst.TaskManager.Register.Laws.{subscribers-none, subscribers, has_event, Distinct}
use tpst.TaskManager.Delete.{delete_name, delete_nodes, delete_tm}
use tpst.TaskManager.Delete.Loop.{delete_name-last, delete_name-inner, delete_nodes-other}

bind_twice {ℓ κ μ} :
    {A : Type ℓ} {B : Type κ} {C : Type μ} (r : Result A) (f : A → B) (g : B → C)
    → ((r >>= λ a. ok (f a)) >>= λ b. ok (g b)) ≡ (r >>= λ a. ok (g (f a)))
bind_twice (err e) f g = refl
bind_twice (ok a) f g = refl

-- The store with another list at the node of the event.
abbrev pub replace : Bytes → List TaskManagerMeta → List HeadNode → List HeadNode
replace sub ms [] = []
replace sub ms (node ∷ es) =
    let rest = replace sub ms es in
    if bytes_eq sub node.te then record node { tm_list = ms } ∷ es else node ∷ rest

module _ (sub : Bytes) where
  unshared :
      (node : HeadNode) (es : List HeadNode)
      → bytes_eq sub node.te ≡ true
      → Distinct (node ∷ es)
      → has_event sub es ≡ false
  unshared node es same h = rw ((bytes_eq_iff sub node.te).0 same) h.0

  subscribers-replace :
      (e : Bytes) (ms : List TaskManagerMeta) (es : List HeadNode)
      → Distinct es
      → has_event sub es ≡ true
      → subscribers e (replace sub ms es) ≡ (if bytes_eq e sub then ms else subscribers e es)
  unfolding subscribers has_event
  subscribers-replace e ms [] h there = cc
  subscribers-replace e ms (node ∷ es) h there = elim (Bool-cases (bytes_eq sub node.te)) [
    | inl same ↦ ground (
      arith,
      same,
      (bytes_eq_iff sub node.te).0 same,
      subscribers-none sub es (unshared node es same h),
      bytes_eq_iff e sub,
      bytes_eq_iff e node.te,
      append-nil ms,
    )
    | inr other ↦ ground (
      arith,
      other,
      subscribers-replace e ms es h.1,
      bytes_eq_iff e sub,
      bytes_eq_iff e node.te,
      bytes_eq_iff sub node.te,
    )
  ]

  delete_nodes-one :
      (name : Bytes) (es : List HeadNode) (result : Result (List TaskManagerMeta))
      → Distinct es
      → has_event sub es ≡ true
      → delete_name (length (subscribers sub es)) 0 name (subscribers sub es) ≡ result
      → delete_nodes sub name es ≡ (result >>= λ ms. ok (replace sub ms es))
  unfolding delete_nodes has_event subscribers
  delete_nodes-one name [] result h there loop = cc
  delete_nodes-one name (node ∷ es) result h there loop = elim (Bool-cases (bytes_eq sub node.te)) [
    | inl same ↦
        let no_more : subscribers sub es ≡ [] = subscribers-none sub es (unshared node es same h) in
        let loop' : delete_name (length node.tm_list) 0 name node.tm_list ≡ result =
          rw (same, no_more, append-nil node.tm_list) at loop in
        rw (same, loop', delete_nodes-other name sub es (unshared node es same h)) refl
    | inr other ↦
        rw (other, delete_nodes-one name es result h.1 (rw other at there) (rw other at loop))
          (bind_twice result (λ ms. replace sub ms es) (λ rest. node ∷ rest))
  ]

  subscribed :
      (es : List HeadNode) (m : TaskManagerMeta) (front back : List TaskManagerMeta)
      → subscribers sub es ≡ front ++ m ∷ back
      → has_event sub es ≡ true
  subscribed es m front back h = elim (Bool-cases (has_event sub es)) [
    | inl there ↦ there
    | inr gone ↦ absurd (
        omega
          (arith, ap length (sym h ∙ subscribers-none sub es gone), length-append front (m ∷ back)))
  ]

module _ (meta m : TaskManagerMeta) (es : List HeadNode) (one_node : Distinct es)
    (same : bytes_eq meta.name m.name ≡ true) where
  -- Where each event has one node, the deletion of a task that stands last among the subscribers of
  -- its event, with none of its name before it, returns: the event has the others, and each other
  -- event what it had.
  pub delete_tm-last :
      (front : List TaskManagerMeta)
      → has_name meta.name front ≡ false
      → subscribers meta.sub_event es ≡ front ++ m ∷ []
      → (es' : List HeadNode) × (delete_tm meta es ≡ ok es')
        × ((e : Bytes)
            → subscribers e es' ≡ (if bytes_eq e meta.sub_event then front else subscribers e es))
  unfolding delete_tm
  delete_tm-last front fresh listed =
      let there : has_event meta.sub_event es ≡ true =
        subscribed meta.sub_event es m front [] listed in
      (
        replace meta.sub_event front es,
        delete_nodes-one meta.sub_event meta.name es (ok front) one_node there
            (rw listed (delete_name-last meta.name front m fresh same)),
        λ e. subscribers-replace meta.sub_event e front es one_node there,
      )

  -- If another task stands behind it, and none of its name does, the deletion reads past the end of
  -- the list.
  pub delete_tm-inner :
      (front : List TaskManagerMeta) (b : TaskManagerMeta) (back : List TaskManagerMeta)
      → has_name meta.name front ≡ false
      → has_name meta.name back ≡ false
      → subscribers meta.sub_event es ≡ front ++ m ∷ b ∷ back
      → delete_tm meta es ≡ err bad_index
  unfolding delete_tm
  delete_tm-inner front b back fresh none_left listed =
      delete_nodes-one meta.sub_event meta.name es (err bad_index) one_node
        (subscribed meta.sub_event es m front (b ∷ back) listed)
        (rw listed (delete_name-inner meta.name front m fresh same b back none_left))
