-- ===== src/Tests/Tasks.antt =====
-- src/observer/taskmanager.cpp on a small workflow: `sim` publishes STEP when it is started first,
-- `ana` takes STEP and publishes DONE, `viz` and `log` take DONE; `log` publishes nothing.
use tpst.Prelude.{
  ℕ, ◌≤◌, ◌≡◌, ◌≢◌, ◌↔◌, refl, true, false, List, [], ◌∷◌, none, some, Bytes, codes, bytes_eq,
  bytes_lt, All, Result, err, ok, ◌>>=◌, overflow, bad_index, if◌then◌else◌, arith, bytes_eq_iff,
  inl, inr, Bool-cases,
}
use mathlib.Core.List.{Memᴰ}
use mathlib.Core.List.Memᴰ.{head}
use tpst.StdMap.{bytes_key, find}
use tpst.TaskManager.{
  TaskType, blocked, unblocked, TaskManagerMeta, TaskManager, EventStore, null_event,
}
use tpst.TaskManager.Register.{has_name, register_event}
use tpst.TaskManager.Register.Laws.{subscribers, IsIndexed, register_event-IsIndexed}
use tpst.TaskManager.Create.{get_tm, task_create, register_action, observer_new}
use tpst.TaskManager.Create.Bounds.{longest, new_meta, task_create-overflow, task_create-created}
use tpst.TaskManager.Delete.{delete_tm}
use tpst.TaskManager.Delete.Stale.{delete_tm-inner}
use tpst.TaskManager.Parse.{TaskFile, task_file_parsing}
use tpst.TaskManager.Parse.Filters.{task_file_parsing-filters}
use tpst.TaskManager.Notify.{Act, start, join, notify, start_first_action}
use tpst.TaskManager.Notify.Total.{started, IsWired, Runs, Falls, notify-Runs}
use tpst.TaskManager.Notify.Cycle.{notify_cycle}

abbrev sim : Bytes
sim = codes "sim"

abbrev ana : Bytes
ana = codes "ana"

abbrev viz : Bytes
viz = codes "viz"

abbrev log : Bytes
log = codes "log"

abbrev step : Bytes
step = codes "STEP"

abbrev done : Bytes
done = codes "DONE"

abbrev end : Bytes
end = codes "END"

abbrev no_tasks : EventStore
no_tasks = record { managers = []; es = [] }

abbrev workflow : Result EventStore
workflow = task_create sim none null_event step blocked no_tasks >>= λ s.
    task_create ana none step done blocked s >>= λ s.
    task_create viz none done end unblocked s >>= λ s.
    task_create log none done null_event blocked s >>= λ s. register_action sim (some 1) s >>= λ s.
    register_action ana (some 2) s >>= λ s.
    register_action viz (some 3) s >>= λ s. register_action log (some 4) s

abbrev meta_of : Bytes → Bytes → Bytes → TaskType → TaskManagerMeta
meta_of name sub pubevent type = new_meta name none sub pubevent type

abbrev tm_of : TaskManagerMeta → ℕ → TaskManager
tm_of m f = record { taskmeta = m; observer = some (observer_new (some f)) }

abbrev sim_meta : TaskManagerMeta
sim_meta = meta_of sim null_event step blocked

abbrev ana_meta : TaskManagerMeta
ana_meta = meta_of ana step done blocked

abbrev viz_meta : TaskManagerMeta
viz_meta = meta_of viz done end unblocked

abbrev log_meta : TaskManagerMeta
log_meta = meta_of log done null_event blocked

abbrev store : EventStore
store = record {
  managers =
      (ana, tm_of ana_meta 2)
      ∷ (log, tm_of log_meta 4)
      ∷ (sim, tm_of sim_meta 1)
      ∷ (viz, tm_of viz_meta 3)
      ∷ [];
  es =
      record { te = null_event; tm_list = sim_meta ∷ [] }
      ∷ record { te = step; tm_list = ana_meta ∷ [] }
      ∷ record { te = done; tm_list = viz_meta ∷ log_meta ∷ [] }
      ∷ [];
}

workflow-store : workflow ≡ ok store
unfolding task_create register_action bytes_eq bytes_lt
workflow-store = refl

-- `log` publishes nothing, and is not started.
step_acts : notify 4 step store ≡ ok (start ana ∷ join ana ∷ start viz ∷ [])
unfolding notify bytes_eq
step_acts = refl

-- A first task that publishes "NULL" starts the first tasks that publish an event.
null_acts :
    start_first_action 5 (tm_of (meta_of log null_event null_event blocked) 4) store
    ≡ ok (start log ∷ start sim ∷ join sim ∷ start ana ∷ join ana ∷ start viz ∷ [])
unfolding start_first_action bytes_eq
null_acts = refl

store-IsIndexed : IsIndexed store.es
unfolding register_event bytes_eq
store-IsIndexed = register_event-IsIndexed log_meta done _ (
    register_event-IsIndexed viz_meta done _ (
      register_event-IsIndexed ana_meta step _
        (register_event-IsIndexed sim_meta null_event [] (record { one_node = tt; once = tt }))))

task_create-overflow_example :
    (task_create (codes "a_task_of_many_letters") none step done blocked store ≡ err overflow)
    ↔ (20 ≤ longest (codes "a_task_of_many_letters") none step done)
unfolding find
task_create-overflow_example =
    task_create-overflow (codes "a_task_of_many_letters") none step done blocked store
      (unfold get_tm find bytes_eq in refl)

task_create-created_example :
    (s' : EventStore) × (task_create end none step end unblocked store ≡ ok s')
    × (get_tm end s' ≡ some (record { taskmeta = meta_of end step end unblocked; observer = none }))
    × (subscribers step s'.es ≡ ana_meta ∷ meta_of end step end unblocked ∷ [])
    × IsIndexed s'.es
unfolding get_tm find bytes_eq subscribers has_name
task_create-created_example =
    task_create-created end none step end unblocked store refl end step (omega arith)
      store-IsIndexed

delete_tm-inner_example : delete_tm viz_meta store.es ≡ err bad_index
unfolding subscribers bytes_eq has_name
delete_tm-inner_example =
    delete_tm-inner viz_meta viz_meta store.es store-IsIndexed.one_node refl [] log_meta [] refl
      refl refl

-- An event that is further from the end of the workflow has a higher rank.
abbrev rank : Bytes → ℕ
rank e =
    if bytes_eq e null_event
    then 3
    else if bytes_eq e step
    then 2
    else if bytes_eq e done
    then 1
    else 0

ana_Wired : IsWired store ana_meta
unfolding find bytes_eq
ana_Wired = record {
  tm = tm_of ana_meta 2;
  obs = observer_new (some 2);
  found = refl;
  observed = refl;
  named = refl;
}

sim_Wired : IsWired store sim_meta
unfolding find bytes_eq
sim_Wired = record {
  tm = tm_of sim_meta 1;
  obs = observer_new (some 1);
  found = refl;
  observed = refl;
  named = refl;
}

viz_Wired : IsWired store viz_meta
unfolding find bytes_eq
viz_Wired = record {
  tm = tm_of viz_meta 3;
  obs = observer_new (some 3);
  found = refl;
  observed = refl;
  named = refl;
}

log_Wired : IsWired store log_meta
unfolding find bytes_eq
log_Wired = record {
  tm = tm_of log_meta 4;
  obs = observer_new (some 4);
  found = refl;
  observed = refl;
  named = refl;
}

-- What holds of the subscribers of each of the three events holds of those of any.
each_event {ℓ} :
    (P : Bytes → TaskManagerMeta → Type ℓ)
    → P null_event sim_meta
    → P step ana_meta
    → P done viz_meta
    → P done log_meta
    → (te : Bytes) → All (P te) (subscribers te store.es)
unfolding subscribers bytes_eq
each_event P first second third fourth te = elim (Bool-cases (bytes_eq te null_event)) [
  | inl a ↦ let here : te ≡ null_event = (bytes_eq_iff te null_event).0 a in rw here (first, tt)
  | inr a ↦ elim (Bool-cases (bytes_eq te step)) [
    | inl b ↦ let here : te ≡ step = (bytes_eq_iff te step).0 b in rw here (second, tt)
    | inr b ↦ elim (Bool-cases (bytes_eq te done)) [
      | inl c ↦ let here : te ≡ done = (bytes_eq_iff te done).0 c in rw here (third, (fourth, tt))
      | inr c ↦ rw (a, b, c) tt
    ]
  ]
]

subscribers-Wired : (te : Bytes) → All (IsWired store) (subscribers te store.es)
subscribers-Wired = each_event (λ e m. IsWired store m) sim_Wired ana_Wired viz_Wired log_Wired

subscribers-Falls : (te : Bytes) → All (Falls store rank te) (subscribers te store.es)
unfolding bytes_eq
subscribers-Falls =
    each_event (Falls store rank) (λ h. omega arith) (λ h. omega arith) (λ h. omega arith) (λ h. cc)

notify-Runs_example :
    (acts : List Act) × (notify 3 step store ≡ ok acts)
    × ((name : Bytes) → (started name acts ≡ true) ↔ Runs store step name)
unfolding bytes_eq
notify-Runs_example =
    notify-Runs store rank subscribers-Wired subscribers-Falls 3 step (omega arith)

-- A task that publishes the event it takes.
abbrev echo_meta : TaskManagerMeta
echo_meta = meta_of sim step step blocked

abbrev echo : EventStore
echo = record {
  managers = (sim, tm_of echo_meta 1) ∷ [];
  es = record { te = step; tm_list = echo_meta ∷ [] } ∷ [];
}

echo_turns :
    (te : Bytes)
    → te ≡ step
    → (m : TaskManagerMeta) × Memᴰ m (subscribers te echo.es)
      × (bytes_eq m.publish_event null_event ≡ false)
      × (m.publish_event ≡ step)
unfolding subscribers bytes_eq
echo_turns te here = rw here (echo_meta, head refl, refl, refl)

notify_cycle_example : notify 100 step echo ≢ ok []
notify_cycle_example = notify_cycle echo (λ e. e ≡ step) echo_turns 100 step [] refl

abbrev filter_file : TaskFile
filter_file = record {
  subscribe_event = step;
  publish_event = end;
  has_task_type = false;
  aggregation =
      some (record { rule = codes "sum"; filter_func = some 8; agg_filter_func = some 9 });
  action_func = none;
}

task_file_parsing-filters_example :
    (s' : EventStore) × (task_file_parsing end filter_file store ≡ ok (s', false))
    × (get_tm end s'
        ≡ some (record {
          taskmeta = new_meta end (some (codes "sum")) step end blocked;
          observer = none;
        }))
    × (notify 4 step s' ≢ ok (start ana ∷ []))
unfolding get_tm find bytes_eq subscribers has_name
task_file_parsing-filters_example =
    task_file_parsing-filters end filter_file
      (record { rule = codes "sum"; filter_func = some 8; agg_filter_func = some 9 }) 8 9 store refl
      (omega arith) store-IsIndexed refl refl refl refl 4 (start ana ∷ []) refl
