-- ===== src/Dlm.antt =====
-- The lock file of a cluster directory, src/utils/dlm/dlm.cc, and the processes that take it. What
-- the operating system makes of the file is a parameter, with the documented behaviour that the code
-- relies on as its laws. Each step is one call of one process, so that a list of steps is one
-- interleaving of the processes.
pub mod Exclusion
pub mod Descriptors
use tpst.Prelude.{
  ℕ, zero, suc, ◌≤◌, ◌≡◌, Bool, true, false, List, [], ◌∷◌, Option, none, some, ℤ, pos, ltb_ℤ,
  Bytes, get_elem?, if◌then◌else◌,
}

-- `open(path, O_CREAT | O_EXCL)` by a process that has so many descriptors open, an `ofstream` on the
-- path that writes a text, and `remove(path)`. A number above 0 is a descriptor other than that of the
-- standard input.
pub record LockFile : Type 1 where
  pub Disk : Type 0
  pub exists : Disk → Bool
  pub open_excl : ℕ → Disk → Disk × ℤ
  pub write : Bytes → Disk → Disk
  pub remove : Disk → Disk
  pub most_open : ℕ
  pub open_new :
      (n : ℕ) (d : Disk)
      → ltb_ℤ (pos 0) (open_excl n d).1 ≡ true
      → (exists d ≡ false) × (exists (open_excl n d).0 ≡ true)
  pub open_keeps : (n : ℕ) (d : Disk) → exists d ≡ true → exists (open_excl n d).0 ≡ true
  pub open_full : (n : ℕ) (d : Disk) → most_open ≤ n → ltb_ℤ (pos 0) (open_excl n d).1 ≡ false
  pub write_keeps : (text : Bytes) (d : Disk) → exists d ≡ true → exists (write text d) ≡ true

-- A process waits in `getLock`, has created the file, has written its identity into it and holds the
-- lock, or does none of these.
pub data Phase : Type 0 where
  outside waiting created holding : Phase

-- `opened` counts the descriptors that the process has open.
pub record Process : Type 0 where
  pub phase : Phase
  pub opened : ℕ

pub data Action : Type 0 where
  enter : ℕ → Action
  attempt : ℕ → Action
  write_identity : ℕ → Bytes → Action
  release : ℕ → Action

abbrev pub set_process : ℕ → Process → List Process → List Process
set_process i p [] = []
set_process zero p (q ∷ ps) = p ∷ ps
set_process (suc i) p (q ∷ ps) = q ∷ set_process i p ps

module _ (k : LockFile) where
  pub record System : Type 0 where
    pub disk : k.Disk
    pub processes : List Process

  abbrev pub move : ℕ → Process → k.Disk → System → System
  move i p d s = record s { disk = d; processes = set_process i p s.processes }

  -- `atomicCreate`: the descriptor is kept open.
  abbrev pub atomic_create : ℕ → k.Disk → k.Disk × Bool
  atomic_create opened d = ((k.open_excl opened d).0, ltb_ℤ (pos 0) (k.open_excl opened d).1)

  -- One round of the loop of `getLock`.
  unfoldable pub attempt_once : ℕ → Process → System → System
  attempt_once i p s =
      let (d, done) = atomic_create p.opened s.disk in
      if done then move i (record { phase = created; opened = suc p.opened }) d s else move i p d s

  -- `getLock` from its call to its `break`, and `releaseLock`, which removes the file whatever its
  -- content; `none` is a step that the process is not at.
  unfoldable pub take_step : Action → Process → System → Option System
  unfolding attempt_once
  take_step (enter i) p s = elim p.phase [
    | outside ↦ some (move i (record p { phase = waiting }) s.disk s)
    | waiting ↦ none
    | created ↦ none
    | holding ↦ none
  ]
  take_step (attempt i) p s = elim p.phase [
    | waiting ↦ some (attempt_once i p s)
    | outside ↦ none
    | created ↦ none
    | holding ↦ none
  ]
  take_step (write_identity i identity) p s = elim p.phase [
    | created ↦ some (move i (record p { phase = holding }) (k.write identity s.disk) s)
    | outside ↦ none
    | waiting ↦ none
    | holding ↦ none
  ]
  take_step (release i) p s = elim p.phase [
    | holding ↦ some (move i (record p { phase = outside }) (k.remove s.disk) s)
    | outside ↦ none
    | waiting ↦ none
    | created ↦ none
  ]

  abbrev pub actor : Action → ℕ
  actor (enter i) = i
  actor (attempt i) = i
  actor (write_identity i identity) = i
  actor (release i) = i

  unfoldable pub step : Action → System → Option System
  unfolding take_step
  step a s = elim (get_elem? s.processes (actor a)) [ none ↦ none | some p ↦ take_step a p s ]

  unfoldable pub run : List Action → System → Option System
  unfolding step
  run [] s = some s
  run (a ∷ actions) s = elim (step a s) [ none ↦ none | some t ↦ run actions t ]
