-- ===== src/Dlm/Exclusion.antt =====
-- What the lock file of src/utils/dlm/dlm.cc gives the processes that take it.
use tpst.Prelude.{
  ℕ, zero, suc, ◌+◌, ◌≤◌, ◌≡◌, refl, ap, Bool, true, false, List, [], ◌∷◌, Option, none, some, pos,
  ltb_ℤ, get_elem?, Bool-cases, inl, inr, arith, ltb, leb, leb→le, tests,
}
use mathlib.Core.Path.{subst}
use tpst.Dlm.{
  LockFile, Phase, outside, waiting, created, holding, Process, Action, enter, attempt,
  write_identity, release, set_process, System, move, attempt_once, take_step, actor, step, run,
}

-- Does the process stand between its creation of the file and its removal?
abbrev owns : Phase → ℕ
owns outside = 0
owns waiting = 0
owns created = 1
owns holding = 1

abbrev pub owners : List Process → ℕ
owners [] = 0
owners (p ∷ ps) = owns p.phase + owners ps

abbrev pub MostOpened : List Process → ℕ → Type 0
MostOpened [] n = Unit
MostOpened (p ∷ ps) n = (p.opened ≤ n) × MostOpened ps n

abbrev pub AllOutside : List Process → Type 0
AllOutside [] = Unit
AllOutside (p ∷ ps) = (p.phase ≡ outside) × AllOutside ps

owners-set :
    (i : ℕ) (p q : Process) (ps : List Process)
    → get_elem? ps i ≡ some p
    → owners (set_process i q ps) + owns p.phase ≡ owners ps + owns q.phase
owners-set i p q [] h = cc
owners-set zero p q (r ∷ ps) h = let same : r ≡ p = cc in rw same (omega arith)
owners-set (suc i) p q (r ∷ ps) h = omega (arith, owners-set i p q ps h)

MostOpened-set :
    (i : ℕ) (q : Process) (ps : List Process) (n : ℕ)
    → q.opened ≤ n
    → MostOpened ps n
    → MostOpened (set_process i q ps) n
MostOpened-set i q [] n h all = tt
MostOpened-set zero q (r ∷ ps) n h all = (h, all.1)
MostOpened-set (suc i) q (r ∷ ps) n h all = (all.0, MostOpened-set i q ps n h all.1)

pub MostOpened-at :
    (i : ℕ) (p : Process) (ps : List Process) (n : ℕ)
    → get_elem? ps i ≡ some p
    → MostOpened ps n
    → p.opened ≤ n
MostOpened-at i p [] n h all = cc
MostOpened-at zero p (r ∷ ps) n h all = let same : r ≡ p = cc in rw (← same) all.0
MostOpened-at (suc i) p (r ∷ ps) n h all = MostOpened-at i p ps n h all.1

clash : {b : Bool} → b ≡ false → b ≡ true → ⊥
clash h g = cc

pub some-injective {ℓ} : {A : Type ℓ} {a b : A} → some a ≡ some b → a ≡ b
some-injective h = cc

pub at_outside {ℓ} :
    {A : Type ℓ} (f : Phase) (o : Option A) {t : A}
    → elim f [ outside ↦ o | waiting ↦ none | created ↦ none | holding ↦ none ] ≡ some t
    → (f ≡ outside) × (o ≡ some t)
at_outside outside o h = (refl, h)
at_outside waiting o h = cc
at_outside created o h = cc
at_outside holding o h = cc

pub at_waiting {ℓ} :
    {A : Type ℓ} (f : Phase) (o : Option A) {t : A}
    → elim f [ waiting ↦ o | outside ↦ none | created ↦ none | holding ↦ none ] ≡ some t
    → (f ≡ waiting) × (o ≡ some t)
at_waiting outside o h = cc
at_waiting waiting o h = (refl, h)
at_waiting created o h = cc
at_waiting holding o h = cc

pub at_created {ℓ} :
    {A : Type ℓ} (f : Phase) (o : Option A) {t : A}
    → elim f [ created ↦ o | outside ↦ none | waiting ↦ none | holding ↦ none ] ≡ some t
    → (f ≡ created) × (o ≡ some t)
at_created outside o h = cc
at_created waiting o h = cc
at_created created o h = (refl, h)
at_created holding o h = cc

pub at_holding {ℓ} :
    {A : Type ℓ} (f : Phase) (o : Option A) {t : A}
    → elim f [ holding ↦ o | outside ↦ none | waiting ↦ none | created ↦ none ] ≡ some t
    → (f ≡ holding) × (o ≡ some t)
at_holding outside o h = cc
at_holding waiting o h = cc
at_holding created o h = cc
at_holding holding o h = (refl, h)

module _ (k : LockFile) where
  -- At most one process owns the lock, and the file is there while one does; no process has more
  -- descriptors open than it may.
  pub record IsExclusive (s : System k) : Type 0 where
    pub one : owners s.processes ≤ 1
    pub there : owners s.processes ≡ 1 → k.exists s.disk ≡ true
    pub within : MostOpened s.processes k.most_open

  module _ (i : ℕ) (p : Process) (s : System k) (at_i : get_elem? s.processes i ≡ some p)
      (h : IsExclusive s) where
    move-IsExclusive :
        (q : Process) (d : k.Disk)
        → q.opened ≤ k.most_open
        → owns q.phase ≤ owns p.phase
        → (owns q.phase ≡ owns p.phase → k.exists s.disk ≡ true → k.exists d ≡ true)
        → IsExclusive (move k i q d s)
    move-IsExclusive q d few less keeps = record {
      one = omega (arith, owners-set i p q s.processes at_i, h.one);
      there = λ mine.
          let count = owners-set i p q s.processes at_i in
          keeps (omega (arith, count, mine, less, h.one))
            (h.there (omega (arith, count, mine, less, h.one)));
      within = MostOpened-set i q s.processes k.most_open few h.within;
    }

    free_of : k.exists s.disk ≡ false → owners s.processes ≡ 0
    free_of gone = elim (Bool-cases (ltb 0 (owners s.processes))) [
      | inl some_owner ↦ absurd (clash gone (h.there (omega (tests, some_owner, h.one))))
      | inr no_owner ↦ ground (arith, no_owner)
    ]

    few_opened : ltb_ℤ (pos 0) (k.open_excl p.opened s.disk).1 ≡ true → suc p.opened ≤ k.most_open
    few_opened done = elim (Bool-cases (leb k.most_open p.opened)) [
      | inl full ↦ absurd (clash (k.open_full p.opened s.disk (leb→le _ _ full)) done)
      | inr room ↦ ground (arith, room)
    ]

    attempt_once-IsExclusive : p.phase ≡ waiting → IsExclusive (attempt_once k i p s)
    unfolding attempt_once
    attempt_once-IsExclusive waits =
        elim (Bool-cases (ltb_ℤ (pos 0) (k.open_excl p.opened s.disk).1)) [
          | inl done ↦
              let fresh = k.open_new p.opened s.disk done in
              let q : Process = record { phase = created; opened = suc p.opened } in
              let none_before = free_of fresh.0 in
              rw (done, attempt_once)
                (record {
                  one = omega (arith, owners-set i p q s.processes at_i, none_before);
                  there = λ mine. fresh.1;
                  within = MostOpened-set i q s.processes k.most_open (few_opened done) h.within;
                })
          | inr refused ↦
              rw (refused, attempt_once)
                (move-IsExclusive p (k.open_excl p.opened s.disk).0
                  (MostOpened-at i p s.processes k.most_open at_i h.within) (omega arith)
                  (λ same there. k.open_keeps p.opened s.disk there))
        ]

    stay :
        (q : Process) (d : k.Disk) {t : System k}
        → q.opened ≡ p.opened
        → owns q.phase ≤ owns p.phase
        → (owns q.phase ≡ owns p.phase → k.exists s.disk ≡ true → k.exists d ≡ true)
        → some (move k i q d s) ≡ some t
        → IsExclusive t
    stay q d same less keeps moved = subst IsExclusive (some-injective moved) (
        move-IsExclusive q d
          (omega (arith, same, MostOpened-at i p s.processes k.most_open at_i h.within)) less keeps)

  take_step-IsExclusive :
      (a : Action) (p : Process) (s t : System k)
      → get_elem? s.processes (actor k a) ≡ some p
      → IsExclusive s
      → take_step k a p s ≡ some t
      → IsExclusive t
  unfolding take_step
  take_step-IsExclusive (enter i) p s t at_i h done =
      let (was, moved) = at_outside p.phase _ done in
      stay i p s at_i h (record p { phase = waiting }) s.disk refl (omega arith)
        (λ same there. there) moved
  take_step-IsExclusive (attempt i) p s t at_i h done =
      let (was, moved) = at_waiting p.phase _ done in
      subst IsExclusive (some-injective moved) (attempt_once-IsExclusive i p s at_i h was)
  take_step-IsExclusive (write_identity i identity) p s t at_i h done =
      let (was, moved) = at_created p.phase _ done in
      stay i p s at_i h (record p { phase = holding }) (k.write identity s.disk) refl
        (rw was (omega arith)) (λ same there. k.write_keeps identity s.disk there) moved
  take_step-IsExclusive (release i) p s t at_i h done =
      let (was, moved) = at_holding p.phase _ done in
      stay i p s at_i h (record p { phase = outside }) (k.remove s.disk) refl (omega arith)
        (λ same there. absurd (omega (arith, same, ap owns was))) moved

  pub found_step :
      (a : Action) (s t : System k) (o : Option Process)
      → elim o [ none ↦ none | some p ↦ take_step k a p s ] ≡ some t
      → (p : Process) × (o ≡ some p) × (take_step k a p s ≡ some t)
  found_step a s t none h = cc
  found_step a s t (some p) h = (p, refl, h)

  pub step-IsExclusive :
      (a : Action) (s t : System k) → IsExclusive s → step k a s ≡ some t → IsExclusive t
  unfolding step
  step-IsExclusive a s t h done =
      let (p, at_a, taken) = found_step a s t (get_elem? s.processes (actor k a)) done in
      take_step-IsExclusive a p s t at_a h taken

  pub then_run :
      (actions : List Action) (t : System k) (o : Option (System k))
      → elim o [ none ↦ none | some r ↦ run k actions r ] ≡ some t
      → (r : System k) × (o ≡ some r) × (run k actions r ≡ some t)
  then_run actions t none h = cc
  then_run actions t (some r) h = (r, refl, h)

  pub run-keeps :
      (actions : List Action) (s t : System k)
      → IsExclusive s
      → run k actions s ≡ some t
      → IsExclusive t
  unfolding run
  run-keeps [] s t h done = subst IsExclusive (some-injective done) h
  run-keeps (a ∷ actions) s t h done =
      let (r, first, rest) = then_run actions t (step k a s) done in
      run-keeps actions r t (step-IsExclusive a s r h first) rest

  pub none_owns : (ps : List Process) → AllOutside ps → owners ps ≡ 0
  none_owns [] h = refl
  none_owns (p ∷ ps) h = omega (arith, ap owns h.0, none_owns ps h.1)

  -- From processes that are all outside of `getLock`, with no more descriptors open than they may, in
  -- every interleaving: at most one of them stands between the return of its `open` and its `remove`,
  -- the lock file is there while one does, and no process ever opens more descriptors than it may.
  pub run-IsExclusive :
      (actions : List Action) (s t : System k)
      → AllOutside s.processes
      → MostOpened s.processes k.most_open
      → run k actions s ≡ some t
      → (owners t.processes ≤ 1)
        × (owners t.processes ≡ 1 → k.exists t.disk ≡ true)
        × MostOpened t.processes k.most_open
  run-IsExclusive actions s t away few done =
      let empty = none_owns s.processes away in
      let h =
        run-keeps actions s t
          (record {
            one = omega (arith, empty);
            there = λ mine. absurd (omega (arith, empty, mine));
            within = few;
          })
          done in
      (h.one, h.there, h.within)
