-- ===== src/Server/Threads/Count.antt =====
-- How many handlers of src/server/workflowserver.cc stand at a step.
use tpst.Prelude.{ℕ, zero, suc, ◌+◌, ◌≡◌, refl, List, [], ◌∷◌, some, get_elem?, arith}
use tpst.Server.Threads.{
  Phase, counting, matching, marking, checking, taking, pushing, clearing, finished, Handler,
  set_handler,
}

-- Does the handler stand before its clearing of the flag; within the mutex; between that and the push?
abbrev pub before_check : Phase → ℕ
before_check checking = 1
before_check taking = 1
before_check counting = 0
before_check matching = 0
before_check (marking triggered) = 0
before_check pushing = 0
before_check clearing = 0
before_check finished = 0

abbrev pub holds_flag : Phase → ℕ
holds_flag pushing = 1
holds_flag counting = 0
holds_flag matching = 0
holds_flag (marking triggered) = 0
holds_flag checking = 0
holds_flag taking = 0
holds_flag clearing = 0
holds_flag finished = 0

abbrev pub holds_mutex : Phase → ℕ
holds_mutex taking = 1
holds_mutex counting = 0
holds_mutex matching = 0
holds_mutex (marking triggered) = 0
holds_mutex checking = 0
holds_mutex pushing = 0
holds_mutex clearing = 0
holds_mutex finished = 0

abbrev pub total : (Phase → ℕ) → List Handler → ℕ
total weight [] = 0
total weight (h ∷ handlers) = weight h.phase + total weight handlers

abbrev pub AllAt : Phase → List Handler → Type 0
AllAt phase [] = Unit
AllAt phase (h ∷ handlers) = (h.phase ≡ phase) × AllAt phase handlers

pub total-set_handler :
    (weight : Phase → ℕ) (i : ℕ) (g h : Handler) (handlers : List Handler)
    → get_elem? handlers i ≡ some g
    → total weight (set_handler i h handlers) + weight g.phase
      ≡ total weight handlers + weight h.phase
total-set_handler weight i g h [] found = cc
total-set_handler weight zero g h (f ∷ handlers) found =
    let same : f ≡ g = cc in rw same (omega arith)
total-set_handler weight (suc i) g h (f ∷ handlers) found =
    omega (arith, total-set_handler weight i g h handlers found)

pub total-AllAt :
    (weight : Phase → ℕ) (phase : Phase) (handlers : List Handler)
    → weight phase ≡ 0
    → AllAt phase handlers
    → total weight handlers ≡ 0
total-AllAt weight phase [] light all = refl
total-AllAt weight phase (h ∷ handlers) light all =
    rw all.0 (omega (arith, light, total-AllAt weight phase handlers light all.1))
