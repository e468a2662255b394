-- ===== src/TaskManager/Notify/Cycle.antt =====
-- Publications that never end: `notifyTmList` and `callNotify` of src/observer/taskmanager.cpp call
-- one another for each event that a subscriber publishes.
use tpst.Prelude.{
  ℕ, zero, suc, ◌≡◌, ◌≢◌, sym, ◌∙◌, false, List, [], ◌∷◌, Option, none, some, Bytes, bytes_eq,
  Result, err, ok, >>=-eq-ok, dangling,
}
use mathlib.Core.List.{Memᴰ}
use mathlib.Core.List.Memᴰ.{head, tail}
use mathlib.Core.Path.{subst}
use tpst.StdMap.{bytes_key, find}
use tpst.TaskManager.{TaskManagerMeta, Observer, TaskManager, EventStore, null_event}
use tpst.TaskManager.Register.Laws.{subscribers}
use tpst.TaskManager.Notify.{Act, call_notify, notify_task, notify_tasks, notify}
use tpst.TaskManager.Notify.Loop.{notify-suc}

abbrev pub Returned : Result (List Act) → Type 0
Returned result = (acts : List Act) × (result ≡ ok acts)

module _ (s : EventStore) (next : Bytes → Result (List Act)) where
  call_notify-Returned :
      (tm : TaskManager) (o : Option Observer) (te : Bytes)
      → Returned (call_notify next tm o te)
      → Returned (next te)
  unfolding call_notify
  call_notify-Returned tm none te (acts, h) = cc
  call_notify-Returned tm (some obs) te (acts, h) =
      let (more, first, rest) = >>=-eq-ok (next te) _ h in (more, first)

  found-Returned :
      (m : TaskManagerMeta) (o : Option TaskManager)
      → Returned (elim o [
        | none ↦ err dangling
        | some tm ↦ call_notify next tm tm.observer m.publish_event
      ])
      → Returned (next m.publish_event)
  found-Returned m none (acts, h) = cc
  found-Returned m (some tm) h = call_notify-Returned tm tm.observer m.publish_event h

  pub notify_task-Returned :
      (m : TaskManagerMeta)
      → bytes_eq m.publish_event null_event ≡ false
      → Returned (notify_task next m s)
      → Returned (next m.publish_event)
  unfolding notify_task
  notify_task-Returned m real (acts, h) =
      found-Returned m (find m.name s.managers) (acts, rw (real, notify_task) at h)

  pub notify_tasks-Returned :
      (m : TaskManagerMeta) (ms : List TaskManagerMeta)
      → Memᴰ m ms
      → Returned (notify_tasks next ms s)
      → Returned (notify_task next m s)
  unfolding notify_tasks
  notify_tasks-Returned m [] sub h = elim sub [ ]
  notify_tasks-Returned m (n ∷ ms) (head same) (acts, h) =
      let (first, one, rest) = >>=-eq-ok (notify_task next n s) _ h in
      subst (λ k. Returned (notify_task next k s)) (sym same) (first, one)
  notify_tasks-Returned m (n ∷ ms) (tail sub) (acts, h) =
      let (first, one, rest) = >>=-eq-ok (notify_task next n s) _ h in
      let (more, two, done) = >>=-eq-ok (notify_tasks next ms s) _ rest in
      notify_tasks-Returned m ms sub (more, two)

-- A set of events in which each has a subscriber that publishes an event of the set, other than
-- "NULL": no depth of the recursion is enough for the publication of one of them to return.
pub notify_cycle :
    (s : EventStore) (Round : Bytes → Type 0)
    → ((te : Bytes)
        → Round te
        → (m : TaskManagerMeta) × Memᴰ m (subscribers te s.es)
          × (bytes_eq m.publish_event null_event ≡ false)
          × Round m.publish_event)
    → (depth : ℕ) (te : Bytes) (acts : List Act) → Round te
    → notify depth te s ≢ ok acts
notify_cycle s Round turns zero te acts round h = unfold notify in cc h
notify_cycle s Round turns (suc depth) te acts round h =
    let (m, sub, real, on) = turns te round in
    let next : Bytes → Result (List Act) = λ e. notify depth e s in
    let (more, returned) = notify_task-Returned s next m real (
      notify_tasks-Returned s next m (subscribers te s.es) sub
        (acts, sym (notify-suc depth te s) ∙ h)) in
    notify_cycle s Round turns depth m.publish_event more on returned
