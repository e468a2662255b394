-- ===== src/TaskManager/Notify/Loop.antt =====
-- The two loops of `notifyTmList`, src/observer/taskmanager.cpp, are one over the subscribers.
use tpst.Prelude.{
  ◌≡◌, refl, sym, ◌∙◌, ap, List, [], ◌∷◌, ◌++◌, Bytes, bytes_eq, Result, err, ok, ◌>>=◌, Bool-cases,
  inl, inr, ℕ, suc,
}
use mathlib.Core.List.{append_assoc, append-nil}
use tpst.TaskManager.{TaskManagerMeta, HeadNode, EventStore}
use tpst.TaskManager.Register.Laws.{subscribers}
use tpst.TaskManager.Notify.{Act, notify_task, notify_tasks, notify_nodes, notify}

-- One publication after another.
abbrev pub after : Result (List Act) → Result (List Act) → Result (List Act)
after first second = first >>= λ acts. second >>= λ more. ok (acts ++ more)

after_assoc : (a b c : Result (List Act)) → after (after a b) c ≡ after a (after b c)
after_assoc (err e) b c = refl
after_assoc (ok x) (err e) c = refl
after_assoc (ok x) (ok y) (err e) = refl
after_assoc (ok x) (ok y) (ok z) = ap ok (append_assoc x y z)

after-nil : (a : Result (List Act)) → after a (ok []) ≡ a
after-nil (err e) = refl
after-nil (ok x) = ap ok (append-nil x)

nil-after : (a : Result (List Act)) → after (ok []) a ≡ a
nil-after (err e) = refl
nil-after (ok x) = refl

module _ (next : Bytes → Result (List Act)) (s : EventStore) where
  notify_tasks-append :
      (ms ns : List TaskManagerMeta)
      → notify_tasks next (ms ++ ns) s ≡ after (notify_tasks next ms s) (notify_tasks next ns s)
  unfolding notify_tasks
  notify_tasks-append [] ns = sym (nil-after (notify_tasks next ns s))
  notify_tasks-append (m ∷ ms) ns =
      ap (λ r. after (notify_task next m s) r) (notify_tasks-append ms ns)
      ∙ sym (after_assoc (notify_task next m s) (notify_tasks next ms s) (notify_tasks next ns s))

  pub notify_nodes-subscribers :
      (te : Bytes) (es : List HeadNode)
      → notify_nodes next te es s ≡ notify_tasks next (subscribers te es) s
  unfolding notify_nodes subscribers
  notify_nodes-subscribers te [] = unfold notify_tasks in refl
  notify_nodes-subscribers te (node ∷ es) = elim (Bool-cases (bytes_eq te node.te)) [
    | inl same ↦ rw same (
        ap (λ r. after (notify_tasks next node.tm_list s) r) (notify_nodes-subscribers te es)
        ∙ sym (notify_tasks-append node.tm_list (subscribers te es)))
    | inr other ↦ rw other (nil-after (notify_nodes next te es s) ∙ notify_nodes-subscribers te es)
  ]

pub notify-suc :
    (depth : ℕ) (te : Bytes) (s : EventStore)
    → notify (suc depth) te s ≡ notify_tasks (λ e. notify depth e s) (subscribers te s.es) s
unfolding notify
notify-suc depth te s = notify_nodes-subscribers (λ e. notify depth e s) s te s.es
