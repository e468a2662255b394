-- ===== src/TaskManager/Notify/Total.antt =====
-- Which action functions a publication starts: `notifyTmList` and `callNotify` of
-- src/observer/taskmanager.cpp.
use tpst.Prelude.{
  ℕ, zero, suc, ◌<◌, ◌≡◌, ◌↔◌, ◌⊎◌, inl, inr, refl, ◌∙◌, Bool, true, false, List, [], ◌∷◌, ◌++◌,
  Option, none, some, Bytes, bytes_eq, bytes_eq_iff, Result, ok, if◌then◌else◌, All, arith,
  Bool-cases,
}
use mathlib.Core.List.{Memᴰ}
use mathlib.Core.List.Memᴰ.{head, tail}
use tpst.StdMap.{bytes_key, find}
use tpst.TaskManager.{
  TaskType, blocked, unblocked, TaskManagerMeta, Observer, TaskManager, EventStore, null_event,
}
use tpst.TaskManager.Register.Laws.{subscribers}
use tpst.TaskManager.Notify.{
  Act, start, join, join_acts, run_action, call_notify, notify_task, notify_tasks, notify,
}
use tpst.TaskManager.Notify.Loop.{notify-suc}

-- Is the action function of the task `name` started?
abbrev pub started : Bytes → List Act → Bool
started name [] = false
started name (start n ∷ acts) = if bytes_eq n name then true else started name acts
started name (join n ∷ acts) = started name acts

started-append :
    (name : Bytes) (a b : List Act)
    → started name (a ++ b) ≡ (if started name a then true else started name b)
started-append name [] b = refl
started-append name (start n ∷ a) b = ground (arith, started-append name a b)
started-append name (join n ∷ a) b = started-append name a b

All-imp {ℓ κ μ} :
    {A : Type ℓ} (P : A → Type κ) (Q : A → Type μ)
    → ((a : A) → P a → Q a)
    → (xs : List A) → All P xs
    → All Q xs
All-imp P Q each [] h = tt
All-imp P Q each (x ∷ xs) h = (each x h.0, All-imp P Q each xs h.1)

module _ (s : EventStore) where
  -- The task has a manager of its name, with an observer.
  pub record IsWired (m : TaskManagerMeta) : Type 0 where
    pub tm : TaskManager
    pub obs : Observer
    pub found : find m.name s.managers ≡ some tm
    pub observed : tm.observer ≡ some obs
    pub named : tm.taskmeta.name ≡ m.name

  abbrev pub HasAction : TaskManagerMeta → Type 0
  HasAction m =
      (tm : TaskManager) × (obs : Observer) × (f : ℕ) × (find m.name s.managers ≡ some tm)
      × (tm.observer ≡ some obs)
      × (obs.actionfunc ≡ some f)

  -- The publication of an event runs a task: the task subscribes to it, publishes an event that is
  -- not "NULL" and has an action; or such a subscriber publishes an event that runs it.
  pub data Runs : Bytes → Bytes → Type 0 where
    now :
        {te name : Bytes} {m : TaskManagerMeta}
        → Memᴰ m (subscribers te s.es)
        → bytes_eq m.publish_event null_event ≡ false
        → HasAction m
        → m.name ≡ name
        → Runs te name
    later :
        {te name : Bytes} {m : TaskManagerMeta}
        → Memᴰ m (subscribers te s.es)
        → bytes_eq m.publish_event null_event ≡ false
        → Runs m.publish_event name
        → Runs te name

  -- The same of one subscriber, and of a list of them.
  abbrev RunsTask : TaskManagerMeta → Bytes → Type 0
  RunsTask m name =
      (bytes_eq m.publish_event null_event ≡ false)
      × ((HasAction m × (m.name ≡ name)) ⊎ Runs m.publish_event name)

  abbrev RunsAny : List TaskManagerMeta → Bytes → Type 0
  RunsAny [] name = ⊥
  RunsAny (m ∷ ms) name = RunsTask m name ⊎ RunsAny ms name

  of_Runs :
      {te name : Bytes}
      → Runs te name
      → (m : TaskManagerMeta) × Memᴰ m (subscribers te s.es) × RunsTask m name
  of_Runs (now {m = m} sub real acts same) = (m, sub, (real, inl (acts, same)))
  of_Runs (later {m = m} sub real rest) = (m, sub, (real, inr rest))

  to_Runs :
      {te name : Bytes} {m : TaskManagerMeta}
      → Memᴰ m (subscribers te s.es)
      → RunsTask m name
      → Runs te name
  to_Runs sub (real, inl (acts, same)) = now sub real acts same
  to_Runs sub (real, inr rest) = later sub real rest

  RunsAny-mem :
      (name : Bytes) (m : TaskManagerMeta) (ms : List TaskManagerMeta)
      → Memᴰ m ms
      → RunsTask m name
      → RunsAny ms name
  RunsAny-mem name m [] sub r = elim sub [ ]
  RunsAny-mem name m (n ∷ ms) (head same) r = inl (rw (← same) r)
  RunsAny-mem name m (n ∷ ms) (tail rest) r = inr (RunsAny-mem name m ms rest r)

  mem-RunsAny :
      (name : Bytes) (ms : List TaskManagerMeta)
      → RunsAny ms name
      → (m : TaskManagerMeta) × Memᴰ m ms × RunsTask m name
  mem-RunsAny name [] h = elim h [ ]
  mem-RunsAny name (m ∷ ms) (inl r) = (m, head refl, r)
  mem-RunsAny name (m ∷ ms) (inr r) =
      let (n, sub, task) = mem-RunsAny name ms r in (n, tail sub, task)

  -- What a publication that returns is to have started.
  abbrev Reports : Result (List Act) → (Bytes → Type 0) → Type 0
  Reports result P =
      (acts : List Act) × (result ≡ ok acts)
      × ((name : Bytes) → (started name acts ≡ true) ↔ P name)

  started-join :
      (t : TaskType) (m : TaskManagerMeta) (name : Bytes)
      → started name (join_acts t m.name) ≡ false
  started-join blocked m name = refl
  started-join unblocked m name = refl

  abbrev is_some : Option ℕ → Bool
  is_some none = false
  is_some (some f) = true

  started-run :
      (m : TaskManagerMeta) (f : Option ℕ) (name : Bytes)
      → started name (run_action m f) ≡ (if is_some f then bytes_eq m.name name else false)
  unfolding run_action
  started-run m none name = refl
  started-run m (some f) name = ground (arith, started-join m.tasktype m name)

  of_is_some : (f : Option ℕ) → is_some f ≡ true → (g : ℕ) × (f ≡ some g)
  of_is_some none h = cc
  of_is_some (some g) h = (g, refl)

  module _ (next : Bytes → Result (List Act)) where
    abbrev NextReports : TaskManagerMeta → Type 0
    NextReports m =
        bytes_eq m.publish_event null_event ≡ false
        → Reports (next m.publish_event) (Runs m.publish_event)

    notify_task-wired :
        (m : TaskManagerMeta) (w : IsWired m) {acts : List Act}
        → bytes_eq m.publish_event null_event ≡ false
        → next m.publish_event ≡ ok acts
        → notify_task next m s ≡ ok (run_action w.tm.taskmeta w.obs.actionfunc ++ acts)
    unfolding notify_task call_notify
    notify_task-wired m w real returned =
        rw (real, notify_task)
          (rw (w.found, notify_task) (rw (w.observed, call_notify) (rw returned refl)))

    run-HasAction :
        (m : TaskManagerMeta) (w : IsWired m) (name : Bytes)
        → (started name (run_action w.tm.taskmeta w.obs.actionfunc) ≡ true)
          ↔ (HasAction m × (m.name ≡ name))
    run-HasAction m w name = (
      λ h.
          let (f, acts) =
            of_is_some w.obs.actionfunc
              (ground (arith, h, started-run w.tm.taskmeta w.obs.actionfunc name)) in
          (
            (w.tm, w.obs, f, w.found, w.observed, acts),
            ground (
              arith,
              h,
              started-run w.tm.taskmeta w.obs.actionfunc name,
              w.named,
              bytes_eq_iff w.tm.taskmeta.name name,
            ),
          ),
      λ h.
          let (tm, obs, f, found, observed, acts) = h.0 in
          let action : w.obs.actionfunc ≡ some f =
            cc (found, observed, acts, w.found, w.observed) in
          ground (
            arith,
            action,
            started-run w.tm.taskmeta w.obs.actionfunc name,
            w.named,
            h.1,
            bytes_eq_iff w.tm.taskmeta.name name,
          ),
    )

    notify_task-real :
        (m : TaskManagerMeta) (w : IsWired m)
        → bytes_eq m.publish_event null_event ≡ false
        → Reports (next m.publish_event) (Runs m.publish_event)
        → Reports (notify_task next m s) (RunsTask m)
    notify_task-real m w real (acts, returned, exactly) =
        let own : List Act = run_action w.tm.taskmeta w.obs.actionfunc in
        (
          own ++ acts,
          notify_task-wired m w real returned,
          λ name. (
            λ h. (
              real,
              elim (Bool-cases (started name own)) [
                | inl mine ↦ inl ((run-HasAction m w name).0 mine)
                | inr other ↦
                    inr ((exactly name).0 (ground (arith, h, other, started-append name own acts)))
              ],
            ),
            λ r. elim r.1 [
              | inl mine ↦
                  ground (arith, (run-HasAction m w name).1 mine, started-append name own acts)
              | inr rest ↦ ground (arith, (exactly name).1 rest, started-append name own acts)
            ],
          ),
        )

    notify_task-reports :
        (m : TaskManagerMeta)
        → IsWired m
        → NextReports m
        → Reports (notify_task next m s) (RunsTask m)
    unfolding notify_task
    notify_task-reports m w report = elim (Bool-cases (bytes_eq m.publish_event null_event)) [
      | inl null ↦ ([], rw (null, notify_task) refl, λ name. (λ h. cc, λ r. cc (null, r.0)))
      | inr real ↦ notify_task-real m w real (report real)
    ]

    notify_tasks-reports :
        (ms : List TaskManagerMeta)
        → All IsWired ms
        → All NextReports ms
        → Reports (notify_tasks next ms s) (RunsAny ms)
    unfolding notify_tasks
    notify_tasks-reports [] w report = ([], refl, λ name. (λ h. cc, λ r. absurd r))
    notify_tasks-reports (m ∷ ms) w report =
        let (acts, returned, exactly) = notify_task-reports m w.0 report.0 in
        let (more, returned_more, exactly_more) = notify_tasks-reports ms w.1 report.1 in
        (
          acts ++ more,
          rw returned (rw returned_more refl),
          λ name. (
            λ h. elim (Bool-cases (started name acts)) [
              | inl first ↦ inl ((exactly name).0 first)
              | inr other ↦
                  inr (
                    (exactly_more name).0 (ground (arith, h, other, started-append name acts more)))
            ],
            λ r. elim r [
              | inl first ↦ ground (arith, (exactly name).1 first, started-append name acts more)
              | inr rest ↦ ground (arith, (exactly_more name).1 rest, started-append name acts more)
            ],
          ),
        )

  module _ (rank : Bytes → ℕ) where
    -- The event that the task publishes has a lower rank, if it is not "NULL".
    abbrev pub Falls : Bytes → TaskManagerMeta → Type 0
    Falls te m = bytes_eq m.publish_event null_event ≡ false → rank m.publish_event < rank te

    -- If each subscriber of each event has a manager of its name with an observer, and the event that
    -- it publishes has a lower rank, the publication of an event returns at any depth of the recursion
    -- above its rank, and the actions that it starts are exactly those that the event runs.
    pub notify-Runs :
        ((te : Bytes) → All IsWired (subscribers te s.es))
        → ((te : Bytes) → All (Falls te) (subscribers te s.es))
        → (depth : ℕ) (te : Bytes) → rank te < depth
        → (acts : List Act) × (notify depth te s ≡ ok acts)
          × ((name : Bytes) → (started name acts ≡ true) ↔ Runs te name)
    notify-Runs wired falls zero te h = elim h [ ]
    notify-Runs wired falls (suc depth) te h =
        let next : Bytes → Result (List Act) = λ e. notify depth e s in
        let below : (m : TaskManagerMeta) → Falls te m → NextReports next m = λ m lower real.
          notify-Runs wired falls depth m.publish_event (ground (arith, lower real)) in
        let (acts, returned, exactly) =
          notify_tasks-reports next (subscribers te s.es) (wired te)
            (All-imp (Falls te) (NextReports next) below (subscribers te s.es) (falls te)) in
        (
          acts,
          notify-suc depth te s ∙ returned,
          λ name. (
            λ on.
                let (m, sub, task) = mem-RunsAny name (subscribers te s.es) ((exactly name).0 on) in
                to_Runs sub task,
            λ r.
                let (m, sub, task) = of_Runs r in
                (exactly name).1 (RunsAny-mem name m (subscribers te s.es) sub task),
          ),
        )
