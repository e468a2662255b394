-- ===== src/GroupManager/Pool.antt =====
-- `getFreeNodeList` of src/utils/groupManager/groupManager.cpp: which servers it takes out of the
-- pool.
use tpst.Prelude.{
  ℕ, zero, suc, ◌+◌, ◌≡◌, refl, ◌∙◌, Bool, true, false, not, ◌&&◌, List, [], ◌∷◌, none, some, ℤ,
  pos, negsuc, Bytes, bytes_eq, bytes_eq_iff, bytes_eq_refl, codes, ok, take, if◌then◌else◌,
  Bool-cases, inl, inr, arith, ap, sym, ok-injective, Option-cases,
}
use tpst.GroupManager.{
  free_pool_dir, below, FileSystem, proper, take_free, delete_free, get_free_node_list,
}

abbrev pub has : Bytes → List Bytes → Bool
has x [] = false
has x (y ∷ ys) = if bytes_eq x y then true else has x ys

-- What the loop takes of the pool: the first `need` servers, and all of them if `need` is not above 0.
abbrev pub chosen : ℤ → List Bytes → List Bytes
chosen (pos zero) names = names
chosen (pos (suc n)) names = take (suc n) names
chosen (negsuc n) names = names

take_free-all : (count : ℕ) (names : List Bytes) → take_free count (pos 0) names ≡ names
unfolding take_free
take_free-all count [] = refl
take_free-all count (name ∷ names) = ground (arith, take_free-all (suc count) names)

take_free-negative : (count n : ℕ) (names : List Bytes) → take_free count (negsuc n) names ≡ names
unfolding take_free
take_free-negative count n [] = refl
take_free-negative count n (name ∷ names) = ground (arith, take_free-negative (suc count) n names)

take_free-first :
    (left count n : ℕ) (names : List Bytes)
    → n ≡ suc left + count
    → take_free count (pos n) names ≡ take (suc left) names
unfolding take_free
take_free-first left count n [] h = refl
take_free-first zero count n (name ∷ names) h = ground (arith, h)
take_free-first (suc left) count n (name ∷ names) h =
    ground (arith, h, take_free-first left (suc count) n names)

take_free-chosen : (need : ℤ) (names : List Bytes) → take_free 0 need names ≡ chosen need names
take_free-chosen (pos zero) names = take_free-all 0 names
take_free-chosen (pos (suc n)) names = take_free-first n 0 (suc n) names (omega arith)
take_free-chosen (negsuc n) names = take_free-negative 0 n names

has-take : (x : Bytes) (n : ℕ) (xs : List Bytes) → has x (take n xs) ≡ true → has x xs ≡ true
has-take x zero xs h = cc
has-take x (suc n) [] h = cc
has-take x (suc n) (y ∷ xs) h = ground (arith, h, has-take x n xs)

has-chosen-all :
    (x : Bytes) (need : ℤ) (names : List Bytes)
    → has x (chosen need names) ≡ true
    → has x names ≡ true
has-chosen-all x (pos zero) names h = h
has-chosen-all x (pos (suc n)) names h = has-take x (suc n) names h
has-chosen-all x (negsuc n) names h = h

has-proper :
    (x : Bytes) (xs : List Bytes)
    → has x (proper xs) ≡ true
    → (has x xs ≡ true) × (bytes_eq x (codes ".") ≡ false) × (bytes_eq x (codes "..") ≡ false)
unfolding proper
has-proper x [] h = cc
has-proper x (y ∷ xs) h = ground (arith, h, has-proper x xs, bytes_eq_iff x y)

-- What is taken of the pool is in the pool, and is neither `.` nor `..`.
pub has-chosen :
    (x : Bytes) (need : ℤ) (xs : List Bytes)
    → has x (chosen need (proper xs)) ≡ true
    → (has x xs ≡ true) × (bytes_eq x (codes ".") ≡ false) × (bytes_eq x (codes "..") ≡ false)
has-chosen x need xs h = has-proper x xs (has-chosen-all x need (proper xs) h)

module _ (fs : FileSystem) where
  -- The pool holds these entries.
  abbrev pub Holds : fs.Disk → (Bytes → Bool) → Type 0
  Holds d held =
      (names : List Bytes) × (fs.entries free_pool_dir d ≡ some names)
      × ((x : Bytes) → has x names ≡ held x)

  -- A name that `readdir` returns for the pool, and neither `.` nor `..`.
  abbrev pub IsName : Bytes → Type 0
  IsName name =
      (bytes_eq name (codes ".") ≡ false)
      × (bytes_eq name (codes "..") ≡ false)
      × (d : fs.Disk) × (names : List Bytes) × (fs.entries free_pool_dir d ≡ some names)
      × (has name names ≡ true)

  -- What is taken of the pool are names of files.
  pub get_free_node_list-IsName :
      (need : ℤ) (d e : fs.Disk) (addrs : List Bytes)
      → get_free_node_list fs need d ≡ ok (addrs, e)
      → (x : Bytes) → has x addrs ≡ true
      → IsName x
  unfolding get_free_node_list
  get_free_node_list-IsName need d e addrs h x taken =
      elim (Option-cases (fs.entries free_pool_dir d)) [
        | inl missing ↦ ground (arith, h, missing)
        | inr (names, listed) ↦
            let same : take_free 0 need (proper names) ≡ addrs =
              ap {A = List Bytes × fs.Disk} (λ r. r.0)
                (ok-injective (rw (listed, get_free_node_list) at h)) in
            let all : chosen need (proper names) ≡ addrs =
              sym (take_free-chosen need (proper names)) ∙ same in
            let (held, first, second) = has-chosen x need names (ap (has x) all ∙ taken) in
            (first, second, d, names, listed, held)
      ]

  -- The pool is files that the process may remove: `remove` of one takes out this entry, and of a
  -- file that is not there fails.
  pub record Deletes : Type 0 where
    pub gone :
        (d : fs.Disk) (held : Bytes → Bool) (name : Bytes)
        → IsName name
        → Holds d held
        → held name ≡ true
        → (e : fs.Disk) × (fs.delete (below free_pool_dir name) d ≡ some e)
          × Holds e (λ x. if bytes_eq x name then false else held x)
    pub absent :
        (d : fs.Disk) (held : Bytes → Bool) (name : Bytes)
        → IsName name
        → Holds d held
        → held name ≡ false
        → fs.delete (below free_pool_dir name) d ≡ none

  module _ (laws : Deletes) where
    Holds-ext :
        (d : fs.Disk) (f g : Bytes → Bool) → ((x : Bytes) → f x ≡ g x) → Holds d f → Holds d g
    Holds-ext d f g same (names, there, exactly) = (names, there, λ x. exactly x ∙ same x)

    delete_free-Holds :
        (taken : List Bytes) (d : fs.Disk) (held : Bytes → Bool)
        → ((x : Bytes) → has x taken ≡ true → IsName x)
        → Holds d held
        → Holds (delete_free fs taken d) (λ x. held x && not (has x taken))
    unfolding delete_free
    delete_free-Holds [] d held named h = Holds-ext d held _ (λ x. ground arith) h
    delete_free-Holds (name ∷ taken) d held named h =
        let first = named name (rw (bytes_eq_refl name) refl) in
        let rest : (x : Bytes) → has x taken ≡ true → IsName x =
          λ x there. named x (ground (arith, there)) in
        elim (Bool-cases (held name)) [
          | inl there ↦
              let (e, done, h') = laws.gone d held name first h there in
              rw (done, delete_free)
                (Holds-ext (delete_free fs taken e)
                  (λ x. (if bytes_eq x name then false else held x) && not (has x taken))
                  (λ x. held x && not (has x (name ∷ taken))) (λ x. ground arith)
                  (delete_free-Holds taken e (λ x. if bytes_eq x name then false else held x) rest
                    h'))
          | inr missing ↦
              rw (laws.absent d held name first h missing, delete_free)
                (Holds-ext (delete_free fs taken d) (λ x. held x && not (has x taken))
                  (λ x. held x && not (has x (name ∷ taken)))
                  (λ x. ground (arith, missing, bytes_eq_iff x name))
                  (delete_free-Holds taken d held rest h))
        ]

    -- Where the pool can be read and its files can be removed: the servers that are
    -- returned are the first `need` of the pool, or all of it if `need` is not above 0, and the pool is
    -- left with the entries that are not returned.
    pub get_free_node_list-chosen :
        (need : ℤ) (d : fs.Disk) (names : List Bytes)
        → fs.entries free_pool_dir d ≡ some names
        → (d' : fs.Disk) × (get_free_node_list fs need d ≡ ok (chosen need (proper names), d'))
          × Holds d' (λ x. has x names && not (has x (chosen need (proper names))))
    unfolding get_free_node_list
    get_free_node_list-chosen need d names there = (
      delete_free fs (chosen need (proper names)) d,
      rw (there, get_free_node_list) (rw (take_free-chosen need (proper names)) refl),
      delete_free-Holds (chosen need (proper names)) d (λ x. has x names)
          (λ x taken.
            let (held, first, second) = has-chosen x need names taken in
            (first, second, d, names, there, held))
          (names, there, λ x. refl),
    )
