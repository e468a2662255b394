-- ===== src/TaskManager/Delete/Loop.antt =====
-- The inner loop of `deleteTmfromES`, src/observer/taskmanager.cpp: its bound is the length of the
-- list before the erasure.
use tpst.Prelude.{
  ℕ, suc, ◌+◌, ◌≡◌, refl, sym, ◌∙◌, ap, true, false, List, [], ◌∷◌, ◌++◌, none, some, Bytes,
  bytes_eq, err, ok, bad_index, length, length-append, get_elem?, arith,
}
use mathlib.Core.List.{append_assoc, append-nil}
use tpst.TaskManager.{TaskManagerMeta, HeadNode}
use tpst.TaskManager.Register.{has_name}
use tpst.TaskManager.Register.Laws.{has_event}
use tpst.TaskManager.Delete.{erase_at, delete_name, delete_nodes}

module _ {ℓ} {T : Type ℓ} where
  get_elem?-length : (xs : List T) → get_elem? xs (length xs) ≡ none
  get_elem?-length [] = refl
  get_elem?-length (x ∷ xs) = get_elem?-length xs

  get_elem?-middle :
      (xs : List T) (y : T) (zs : List T) → get_elem? (xs ++ y ∷ zs) (length xs) ≡ some y
  get_elem?-middle [] y zs = refl
  get_elem?-middle (x ∷ xs) y zs = get_elem?-middle xs y zs

  erase_at-middle :
      (xs : List T) (y : T) (zs : List T) → erase_at (length xs) (xs ++ y ∷ zs) ≡ xs ++ zs
  erase_at-middle [] y zs = refl
  erase_at-middle (x ∷ xs) y zs = ap (λ r. x ∷ r) (erase_at-middle xs y zs)

  length-snoc : (xs : List T) (y : T) → length (xs ++ y ∷ []) ≡ suc (length xs)
  length-snoc xs y = omega (arith, length-append xs (y ∷ []))

module _ (name : Bytes) where
  delete_name-other :
      (rounds : ℕ) (before : List TaskManagerMeta) (m : TaskManagerMeta)
      (rest : List TaskManagerMeta)
      → bytes_eq name m.name ≡ false
      → delete_name (suc rounds) (length before) name (before ++ m ∷ rest)
        ≡ delete_name rounds (suc (length before)) name (before ++ m ∷ rest)
  unfolding delete_name
  delete_name-other rounds before m rest other =
      rw (get_elem?-middle before m rest, delete_name) (rw other refl)

  delete_name-hit :
      (rounds : ℕ) (before : List TaskManagerMeta) (m : TaskManagerMeta)
      (rest : List TaskManagerMeta)
      → bytes_eq name m.name ≡ true
      → delete_name (suc rounds) (length before) name (before ++ m ∷ rest)
        ≡ delete_name rounds (suc (length before)) name (before ++ rest)
  unfolding delete_name
  delete_name-hit rounds before m rest hit =
      rw (get_elem?-middle before m rest, delete_name)
        (rw hit (
          ap (λ r. delete_name rounds (suc (length before)) name r)
            (erase_at-middle before m rest)))

  -- The rounds over tasks of other names.
  delete_name-skip :
      (part : List TaskManagerMeta) (before rest : List TaskManagerMeta) (rounds all : ℕ)
      → all ≡ length part + rounds
      → has_name name part ≡ false
      → delete_name all (length before) name (before ++ (part ++ rest))
        ≡ delete_name rounds (length (before ++ part)) name ((before ++ part) ++ rest)
  unfolding has_name
  delete_name-skip [] before rest rounds all count h =
      rw (append-nil before)
        (ap (λ n. delete_name n (length before) name (before ++ rest)) (omega (arith, count)))
  delete_name-skip (m ∷ part) before rest rounds all count h =
      let all' : ℕ = length part + rounds in
      let more : all ≡ suc all' = omega (arith, count) in
      rw more (
        delete_name-other all' before m (part ++ rest) (ground (arith, h))
        ∙ rw (← length-snoc before m, ← append_assoc before (m ∷ []) (part ++ rest))
            (delete_name-skip part (before ++ m ∷ []) rest rounds all' refl (ground (arith, h))
              ∙ ap (λ r. delete_name rounds (length r) name (r ++ rest))
                  (append_assoc before (m ∷ []) part)))

  delete_name-past : (ms : List TaskManagerMeta) → delete_name 1 (length ms) name ms ≡ err bad_index
  unfolding delete_name
  delete_name-past ms = rw (get_elem?-length ms, delete_name) refl

  module _ (front : List TaskManagerMeta) (m : TaskManagerMeta)
      (fresh : has_name name front ≡ false) (hit : bytes_eq name m.name ≡ true) where
    delete_name-reach :
        (back : List TaskManagerMeta)
        → delete_name (length (front ++ m ∷ back)) 0 name (front ++ m ∷ back)
          ≡ delete_name (length back) (suc (length front)) name (front ++ back)
    delete_name-reach back =
        delete_name-skip front [] (m ∷ back) (suc (length back)) (length (front ++ m ∷ back))
          (omega (arith, length-append front (m ∷ back))) fresh
        ∙ delete_name-hit (length back) front m back hit

    pub delete_name-last :
        delete_name (length (front ++ m ∷ [])) 0 name (front ++ m ∷ []) ≡ ok front
    unfolding delete_name
    delete_name-last = delete_name-reach [] ∙ ap ok (append-nil front)

    pub delete_name-inner :
        (b : TaskManagerMeta) (back : List TaskManagerMeta)
        → has_name name back ≡ false
        → delete_name (length (front ++ m ∷ b ∷ back)) 0 name (front ++ m ∷ b ∷ back)
          ≡ err bad_index
    delete_name-inner b back none_left =
        delete_name-reach (b ∷ back)
        ∙ rw (← length-snoc front b, ← append_assoc front (b ∷ []) back)
            (ap
                (λ r.
                  delete_name (suc (length back)) (length (front ++ b ∷ [])) name
                    ((front ++ b ∷ []) ++ r))
                (sym (append-nil back))
              ∙ delete_name-skip back (front ++ b ∷ []) [] 1 (suc (length back)) (omega arith)
                  none_left
              ∙ rw (append-nil ((front ++ b ∷ []) ++ back))
                  (delete_name-past ((front ++ b ∷ []) ++ back)))

  pub delete_nodes-other :
      (sub : Bytes) (es : List HeadNode)
      → has_event sub es ≡ false
      → delete_nodes sub name es ≡ ok es
  unfolding delete_nodes has_event
  delete_nodes-other sub [] h = refl
  delete_nodes-other sub (node ∷ es) h = ground (arith, delete_nodes-other sub es)
