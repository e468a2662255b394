-- ===== src/ThreadPool/Invariant.antt =====
-- What holds between any two steps of src/utils/threadpool/ThreadPool.h.
use tpst.Prelude.{
  ℕ, zero, suc, ◌+◌, ◌≡◌, refl, sym, ◌∙◌, ap, Bool, true, false, List, [], ◌∷◌, ◌++◌, Option, none,
  some, get_elem?, length, length-append, arith, if◌then◌else◌,
}
use mathlib.Core.List.{append_assoc}
use mathlib.Core.Path.{subst}
use tpst.ThreadPool.{
  Worker, waiting, running, left, Pool, Action, enqueue, take_task, end_task, leave, halt,
  set_worker, take_front, end_running, leave_empty, step,
}

pub not_both : {b : Bool} → b ≡ false → b ≡ true → ⊥
not_both h k = cc

module _ {ℓ} {T : Type ℓ} where
  abbrev busy : Worker T → ℕ
  busy waiting = 0
  busy (running t) = 1
  busy left = 0

  abbrev gone : Worker T → Bool
  gone left = true
  gone waiting = false
  gone (running t) = false

  -- How many workers run a task; whether some worker has returned; whether all have.
  abbrev pub busy_workers : List (Worker T) → ℕ
  busy_workers [] = 0
  busy_workers (w ∷ workers) = busy w + busy_workers workers

  abbrev pub some_left : List (Worker T) → Bool
  some_left [] = false
  some_left (w ∷ workers) = if gone w then true else some_left workers

  abbrev pub all_left : List (Worker T) → Bool
  all_left [] = true
  all_left (w ∷ workers) = if gone w then all_left workers else false

  busy_workers-set :
      (i : ℕ) (v w : Worker T) (workers : List (Worker T))
      → get_elem? workers i ≡ some v
      → busy_workers (set_worker i w workers) + busy v ≡ busy_workers workers + busy w
  busy_workers-set i v w [] h = cc
  busy_workers-set zero v w (u ∷ workers) h = ground (arith, h)
  busy_workers-set (suc i) v w (u ∷ workers) h = omega (arith, busy_workers-set i v w workers h)

  some_left-set :
      (i : ℕ) (w : Worker T) (workers : List (Worker T))
      → gone w ≡ false
      → some_left (set_worker i w workers) ≡ true
      → some_left workers ≡ true
  some_left-set i w [] g h = cc
  some_left-set zero w (u ∷ workers) g h = ground (arith, g, h)
  some_left-set (suc i) w (u ∷ workers) g h = ground (arith, some_left-set i w workers g, h)

  -- What holds between any two steps.
  pub record IsSound (p : Pool T) : Type ℓ where
    pub in_order : p.enqueued ≡ p.begun ++ p.tasks
    pub accounted : length p.begun ≡ length p.ended + busy_workers p.workers
    pub drained : some_left p.workers ≡ true → (p.stop ≡ true) × (p.tasks ≡ [])

  pub some-injective : {p q : Pool T} → some p ≡ some q → p ≡ q
  some-injective h = cc

  guarded : (b : Bool) (p q : Pool T) → (if b then some p else none) ≡ some q → (b ≡ true) × (p ≡ q)
  guarded true p q h = (refl, some-injective h)
  guarded false p q h = cc

  guarded_not :
      (b : Bool) (p q : Pool T) → (if b then none else some p) ≡ some q → (b ≡ false) × (p ≡ q)
  guarded_not false p q h = (refl, some-injective h)
  guarded_not true p q h = cc

  pub after_step :
      {f : Pool T → Option (Pool T)} (o : Option (Pool T)) (q : Pool T)
      → elim o [ none ↦ none | some r ↦ f r ] ≡ some q
      → (r : Pool T) × (o ≡ some r) × (f r ≡ some q)
  after_step none q h = cc
  after_step (some r) q h = (r, refl, h)

  not_empty : {t : T} {ts tasks : List T} → tasks ≡ t ∷ ts → tasks ≡ [] → ⊥
  not_empty h k = cc

  take_front-IsSound :
      (i : ℕ) (w : Worker T) (tasks : List T) (p q : Pool T)
      → get_elem? p.workers i ≡ some w
      → p.tasks ≡ tasks
      → IsSound p
      → take_front i w tasks p ≡ some q
      → IsSound q
  unfolding take_front
  take_front-IsSound i waiting (t ∷ tasks) p q at_i front s h =
      subst IsSound (some-injective h) (record {
        in_order =
            s.in_order ∙ ap (λ ts. p.begun ++ ts) front ∙ sym (append_assoc p.begun (t ∷ []) tasks);
        accounted = omega (
          arith,
          s.accounted,
          length-append p.begun (t ∷ []),
          busy_workers-set i waiting (running t) p.workers at_i,
        );
        drained = λ gone_one.
            absurd
              (not_empty front (s.drained (some_left-set i (running t) p.workers refl gone_one)).1);
      })
  take_front-IsSound i waiting [] p q at_i front s h = cc
  take_front-IsSound i (running t) tasks p q at_i front s h = cc
  take_front-IsSound i left tasks p q at_i front s h = cc

  end_running-IsSound :
      (i : ℕ) (w : Worker T) (p q : Pool T)
      → get_elem? p.workers i ≡ some w
      → IsSound p
      → end_running i w p ≡ some q
      → IsSound q
  unfolding end_running
  end_running-IsSound i (running t) p q at_i s h = subst IsSound (some-injective h) (record {
    in_order = s.in_order;
    accounted = omega (
      arith,
      s.accounted,
      length-append p.ended (t ∷ []),
      busy_workers-set i (running t) waiting p.workers at_i,
    );
    drained = λ gone_one. s.drained (some_left-set i waiting p.workers refl gone_one);
  })
  end_running-IsSound i waiting p q at_i s h = cc
  end_running-IsSound i left p q at_i s h = cc

  leave_empty-IsSound :
      (i : ℕ) (w : Worker T) (tasks : List T) (p q : Pool T)
      → get_elem? p.workers i ≡ some w
      → p.tasks ≡ tasks
      → IsSound p
      → leave_empty i w tasks p ≡ some q
      → IsSound q
  unfolding leave_empty
  leave_empty-IsSound i waiting [] p q at_i front s h =
      let (stopped, same) =
        guarded p.stop (record p { workers = set_worker i left p.workers }) q h in
      subst IsSound same (record {
        in_order = s.in_order;
        accounted = omega (arith, s.accounted, busy_workers-set i waiting left p.workers at_i);
        drained = λ gone_one. (stopped, front);
      })
  leave_empty-IsSound i waiting (t ∷ tasks) p q at_i front s h = cc
  leave_empty-IsSound i (running t) tasks p q at_i front s h = cc
  leave_empty-IsSound i left tasks p q at_i front s h = cc

  enqueue-IsSound : (t : T) (p q : Pool T) → IsSound p → step (enqueue t) p ≡ some q → IsSound q
  unfolding step
  enqueue-IsSound t p q s h =
      let (going, same) =
        guarded_not p.stop (record p { tasks = p.tasks ++ t ∷ []; enqueued = p.enqueued ++ t ∷ [] })
          q h in
      subst IsSound same (record {
        in_order = ap (λ ts. ts ++ t ∷ []) s.in_order ∙ append_assoc p.begun p.tasks (t ∷ []);
        accounted = s.accounted;
        drained = λ gone_one. absurd (not_both going (s.drained gone_one).0);
      })

  halt-IsSound : (p q : Pool T) → IsSound p → step halt p ≡ some q → IsSound q
  unfolding step
  halt-IsSound p q s h = subst IsSound (some-injective h) (record {
    in_order = s.in_order;
    accounted = s.accounted;
    drained = λ gone_one. (refl, (s.drained gone_one).1);
  })

  -- A step of a worker that exists.
  at_worker :
      {f : Worker T → Option (Pool T)} (o : Option (Worker T)) (q : Pool T)
      → elim o [ none ↦ none | some w ↦ f w ] ≡ some q
      → (w : Worker T) × (o ≡ some w) × (f w ≡ some q)
  at_worker none q h = cc
  at_worker (some w) q h = (w, refl, h)

  pub step-IsSound : (a : Action T) (p q : Pool T) → IsSound p → step a p ≡ some q → IsSound q
  unfolding step
  step-IsSound (enqueue t) p q s h = enqueue-IsSound t p q s h
  step-IsSound (take_task i) p q s h =
      let (w, at_i, taken) =
        at_worker {f = λ v. take_front i v p.tasks p} (get_elem? p.workers i) q h in
      take_front-IsSound i w p.tasks p q at_i refl s taken
  step-IsSound (end_task i) p q s h =
      let (w, at_i, ended) = at_worker {f = λ v. end_running i v p} (get_elem? p.workers i) q h in
      end_running-IsSound i w p q at_i s ended
  step-IsSound (leave i) p q s h =
      let (w, at_i, gone_one) =
        at_worker {f = λ v. leave_empty i v p.tasks p} (get_elem? p.workers i) q h in
      leave_empty-IsSound i w p.tasks p q at_i refl s gone_one
  step-IsSound halt p q s h = halt-IsSound p q s h
