-- ===== src/TaskManager/Parse/Filters.antt =====
-- What becomes of a task file with filters, src/observer/taskmanager.cpp: only `Task_registerAction`
-- makes an observer, and the file has no action.
use tpst.Prelude.{
  ℕ, zero, suc, ◌<◌, ◌≡◌, ◌≢◌, refl, sym, ◌∙◌, false, List, [], ◌∷◌, ◌++◌, none, some, Bytes,
  bytes_eq, bytes_eq_refl, Result, err, ok, dangling, arith,
}
use mathlib.Core.List.{Memᴰ}
use mathlib.Core.List.Memᴰ.{head, tail}
use tpst.StdMap.{bytes_key, find, put}
use tpst.StdMap.Laws.{find-put}
use tpst.TaskManager.{TaskManagerMeta, TaskManager, EventStore, null_event}
use tpst.TaskManager.Register.{has_name}
use tpst.TaskManager.Register.Laws.{subscribers, IsIndexed}
use tpst.TaskManager.Create.{get_tm, modify, register_filter, register_aggre_filter}
use tpst.TaskManager.Create.Bounds.{longest, new_meta, task_create-created}
use tpst.TaskManager.Notify.{Act, call_notify, notify_task, notify}
use tpst.TaskManager.Notify.Loop.{notify-suc}
use tpst.TaskManager.Notify.Cycle.{notify_tasks-Returned}
use tpst.TaskManager.Parse.{Aggregation, TaskFile, file_type, parse_with_filter, task_file_parsing}

mem-snoc {ℓ} : {A : Type ℓ} (xs : List A) (y : A) → Memᴰ y (xs ++ y ∷ [])
mem-snoc [] y = head refl
mem-snoc (x ∷ xs) y = tail (mem-snoc xs y)

abbrev unobserved : TaskManagerMeta → TaskManager
unobserved m = record { taskmeta = m; observer = none }

module _ (s : EventStore) (name : Bytes) (m : TaskManagerMeta) where
  register_filter-lost :
      (f : ℕ)
      → find name s.managers ≡ some (unobserved m)
      → register_filter name (some f) s
        ≡ ok (record s { managers = put name (unobserved m) s.managers })
  unfolding register_filter modify
  register_filter-lost f found = rw (found, modify) refl

  register_aggre_filter-lost :
      (f : ℕ)
      → find name s.managers ≡ some (unobserved m)
      → register_aggre_filter name (some f) s
        ≡ ok (record s { managers = put name (unobserved m) s.managers })
  unfolding register_aggre_filter modify
  register_aggre_filter-lost f found = rw (found, modify) refl

find-put_self {ℓ} :
    {V : Type ℓ} (name : Bytes) (v : V) (m : List (Bytes × V)) → find name (put name v m) ≡ some v
find-put_self name v m = rw (find-put name name v m, bytes_eq_refl name) refl

-- A task whose manager has no observer is never notified.
notify_unobserved :
    (s : EventStore) (m : TaskManagerMeta) (tm : TaskManager) (depth : ℕ) (te : Bytes)
    (acts : List Act)
    → Memᴰ m (subscribers te s.es)
    → find m.name s.managers ≡ some tm
    → tm.observer ≡ none
    → bytes_eq m.publish_event null_event ≡ false
    → notify depth te s ≢ ok acts
notify_unobserved s m tm zero te acts sub found alone real h = unfold notify in cc h
notify_unobserved s m tm (suc depth) te acts sub found alone real h =
    let next : Bytes → Result (List Act) = λ e. notify depth e s in
    let (more, returned) =
      notify_tasks-Returned s next m (subscribers te s.es) sub
        (acts, sym (notify-suc depth te s) ∙ h) in
    let fails : notify_task next m s ≡ err dangling =
      unfold notify_task call_notify in
      rw (real, notify_task) (rw (found, notify_task) (rw (alone, call_notify) refl)) in
    cc (fails, returned)

module _ (name : Bytes) (d : TaskFile) (a : Aggregation) (f g : ℕ) (s : EventStore)
    (new : get_tm name s ≡ none)
    (short : longest name (some a.rule) d.subscribe_event d.publish_event < 20)
    (indexed : IsIndexed s.es)
    (unnamed : has_name name (subscribers d.subscribe_event s.es) ≡ false)
    (filters : d.aggregation ≡ some a) (has_filter : a.filter_func ≡ some f)
    (has_agg_filter : a.agg_filter_func ≡ some g) where
  abbrev meta : TaskManagerMeta
  meta = new_meta name (some a.rule) d.subscribe_event d.publish_event (file_type d)

  abbrev alone : TaskManager
  alone = unobserved meta

  -- A file with filters, for a name that is new to the managers and to the event that it subscribes
  -- to, and with an event other than "NULL" to publish: both filters are loaded and dropped, so that
  -- its manager has no observer, and no publication of the event that it subscribes to returns any more.
  pub task_file_parsing-filters :
      (depth : ℕ) (acts : List Act)
      → bytes_eq d.publish_event null_event ≡ false
      → (s' : EventStore) × (task_file_parsing name d s
          ≡ ok (s', bytes_eq d.subscribe_event null_event))
        × (get_tm name s' ≡ some alone)
        × (notify depth d.subscribe_event s' ≢ ok acts)
  unfolding task_file_parsing parse_with_filter get_tm
  task_file_parsing-filters depth acts real =
      let (s1, made, managed, listed, _) =
        task_create-created name (some a.rule) d.subscribe_event d.publish_event (file_type d) s new
          name d.subscribe_event short indexed in
      let found : find name s1.managers ≡ some alone = rw (bytes_eq_refl name) at managed in
      let s2 : EventStore = record s1 { managers = put name alone s1.managers } in
      let found2 : find name s2.managers ≡ some alone = find-put_self name alone s1.managers in
      let s3 : EventStore = record s2 { managers = put name alone s2.managers } in
      let found3 : find name s3.managers ≡ some alone = find-put_self name alone s2.managers in
      let subs : subscribers d.subscribe_event s1.es
          ≡ subscribers d.subscribe_event s.es ++ meta ∷ [] =
        listed ∙ rw (bytes_eq_refl d.subscribe_event, unnamed) refl in
      let parsed : parse_with_filter name d a s ≡ ok s3 = ground (
        arith,
        made,
        has_filter,
        has_agg_filter,
        register_filter-lost s1 name meta f found,
        register_aggre_filter-lost s2 name meta g found2,
      ) in
      (
        s3,
        ground (arith, filters, parsed, found3),
        found3,
        notify_unobserved s3 meta alone depth d.subscribe_event acts
            (rw subs (mem-snoc (subscribers d.subscribe_event s.es) meta)) found3 refl real,
      )
