-- ===== src/Dlm/Descriptors.antt =====
-- `atomicCreate` of src/utils/dlm/dlm.cc opens the lock file and never closes it.
use tpst.Prelude.{
  ℕ, zero, suc, ◌+◌, ◌≤◌, ◌≡◌, refl, ◌∙◌, ap, true, false, List, [], ◌∷◌, some, pos, ltb_ℤ,
  get_elem?, ◌==◌, ==_iff, if◌then◌else◌, Bool-cases, inl, inr, arith,
}
use mathlib.Core.Path.{subst}
use tpst.Dlm.{
  LockFile, Phase, outside, waiting, created, holding, Process, Action, enter, attempt,
  write_identity, release, set_process, System, move, attempt_once, take_step, actor, step, run,
}
use tpst.Dlm.Exclusion.{
  AllOutside, MostOpened, MostOpened-at, run-IsExclusive, at_outside, at_waiting, at_created,
  at_holding, some-injective, found_step, then_run,
}

-- How often the process writes its identity into the file that it has created, which is once for
-- each time that `getLock` returns.
abbrev writes_now : ℕ → Action → ℕ
writes_now i (enter j) = 0
writes_now i (attempt j) = 0
writes_now i (write_identity j text) = if j == i then 1 else 0
writes_now i (release j) = 0

abbrev pub times_locked : ℕ → List Action → ℕ
times_locked i [] = 0
times_locked i (a ∷ actions) = writes_now i a + times_locked i actions

abbrev has_new : Phase → ℕ
has_new outside = 0
has_new waiting = 0
has_new created = 1
has_new holding = 0

get_elem?-set :
    (i j : ℕ) (p q : Process) (ps : List Process)
    → get_elem? ps j ≡ some p
    → get_elem? (set_process j q ps) i ≡ (if j == i then some q else get_elem? ps i)
get_elem?-set i j p q [] h = cc
get_elem?-set zero zero p q (r ∷ ps) h = refl
get_elem?-set (suc i) zero p q (r ∷ ps) h = ground arith
get_elem?-set zero (suc j) p q (r ∷ ps) h = ground arith
get_elem?-set (suc i) (suc j) p q (r ∷ ps) h = ground (arith, get_elem?-set i j p q ps h)

module _ (k : LockFile) (i : ℕ) where
  -- Where process `i` stands after the step of process `j` to `q`, and what that cost it.
  abbrev Pays : ℕ → Process → System k → Type 0
  Pays now p t =
      (p' : Process) × (get_elem? t.processes i ≡ some p')
      × (now + p.opened + has_new p'.phase ≤ p'.opened + has_new p.phase)

  other-Pays :
      (now j : ℕ) (p r q : Process) (d : k.Disk) (s : System k)
      → (j == i) ≡ false
      → now ≡ 0
      → get_elem? s.processes j ≡ some r
      → get_elem? s.processes i ≡ some p
      → Pays now p (move k j q d s)
  other-Pays now j p r q d s apart free at_j at_i =
      (p, get_elem?-set i j r q s.processes at_j ∙ rw apart at_i, omega (arith, free))

  own-Pays :
      (now j : ℕ) (p r q : Process) (d : k.Disk) (s : System k)
      → (j == i) ≡ true
      → get_elem? s.processes j ≡ some r
      → get_elem? s.processes i ≡ some p
      → now + r.opened + has_new q.phase ≤ q.opened + has_new r.phase
      → Pays now p (move k j q d s)
  own-Pays now j p r q d s same at_j at_i paid =
      let here : j ≡ i = (==_iff j i).0 same in
      let one : r ≡ p = cc (here, at_j, at_i) in
      (q, get_elem?-set i j r q s.processes at_j ∙ rw same refl, rw (← one) paid)

  move-Pays :
      (now j : ℕ) (p r q : Process) (d : k.Disk) (s t : System k)
      → ((j == i) ≡ false → now ≡ 0)
      → get_elem? s.processes j ≡ some r
      → get_elem? s.processes i ≡ some p
      → now + r.opened + has_new q.phase ≤ q.opened + has_new r.phase
      → move k j q d s ≡ t
      → Pays now p t
  move-Pays now j p r q d s t free at_j at_i paid there =
      subst (Pays now p) there (elim (Bool-cases (j == i)) [
        | inl same ↦ own-Pays now j p r q d s same at_j at_i paid
        | inr apart ↦ other-Pays now j p r q d s apart (free apart) at_j at_i
      ])

  take_step-Pays :
      (a : Action) (p r : Process) (s t : System k)
      → get_elem? s.processes (actor k a) ≡ some r
      → get_elem? s.processes i ≡ some p
      → take_step k a r s ≡ some t
      → Pays (writes_now i a) p t
  unfolding take_step attempt_once
  take_step-Pays (enter j) p r s t at_j at_i done =
      let (was, moved) = at_outside r.phase _ done in
      move-Pays 0 j p r (record r { phase = waiting }) s.disk s t (λ h. refl) at_j at_i
        (omega (arith, ap has_new was)) (some-injective moved)
  take_step-Pays (attempt j) p r s t at_j at_i done =
      let (was, moved) = at_waiting r.phase _ done in
      elim (Bool-cases (ltb_ℤ (pos 0) (k.open_excl r.opened s.disk).1)) [
        | inl opens ↦
            move-Pays 0 j p r (record { phase = created; opened = suc r.opened })
              (k.open_excl r.opened s.disk).0 s t (λ h. refl) at_j at_i
              (omega (arith, ap has_new was)) (rw opens at (some-injective moved))
        | inr refused ↦
            move-Pays 0 j p r r (k.open_excl r.opened s.disk).0 s t (λ h. refl) at_j at_i
              (omega arith) (rw refused at (some-injective moved))
      ]
  take_step-Pays (write_identity j text) p r s t at_j at_i done =
      let (was, moved) = at_created r.phase _ done in
      move-Pays (writes_now i (write_identity j text)) j p r (record r { phase = holding })
        (k.write text s.disk) s t (λ h. rw h refl) at_j at_i (ground (arith, was))
        (some-injective moved)
  take_step-Pays (release j) p r s t at_j at_i done =
      let (was, moved) = at_holding r.phase _ done in
      move-Pays 0 j p r (record r { phase = outside }) (k.remove s.disk) s t (λ h. refl) at_j at_i
        (omega (arith, ap has_new was)) (some-injective moved)

  run-Pays :
      (actions : List Action) (p : Process) (s t : System k)
      → get_elem? s.processes i ≡ some p
      → run k actions s ≡ some t
      → Pays (times_locked i actions) p t
  unfolding run step
  run-Pays [] p s t at_i done = (p, rw (← some-injective done) at_i, omega arith)
  run-Pays (a ∷ actions) p s t at_i done =
      let (u, first, rest) = then_run k actions t (step k a s) done in
      let (r, at_j, taken) = found_step k a s u (get_elem? s.processes (actor k a)) first in
      let (q, at_u, paid) = take_step-Pays a p r s u at_j at_i taken in
      let (q', at_t, later) = run-Pays actions q u t at_u rest in
      (q', at_t, omega (arith, paid, later))

  -- The descriptor of each creation stays open: in no run does a process get the lock more often than
  -- it had descriptors left to open, from processes that are all outside of `getLock`.
  pub times_locked-le :
      (actions : List Action) (p : Process) (s t : System k)
      → AllOutside s.processes
      → MostOpened s.processes k.most_open
      → get_elem? s.processes i ≡ some p
      → p.phase ≡ outside
      → run k actions s ≡ some t
      → times_locked i actions + p.opened ≤ k.most_open
  times_locked-le actions p s t away few at_i begins done =
      let (q, at_t, paid) = run-Pays actions p s t at_i done in
      let (_, _, within) = run-IsExclusive k actions s t away few done in
      omega (arith, paid, ap has_new begins, MostOpened-at i q t.processes k.most_open at_t within)
