-- ===== src/StdMap/Sorted.antt =====
-- The keys of a map stay strictly increasing, so that no key occurs twice.
use tpst.Prelude.{◌≡◌, true, List, [], ◌∷◌, arith, All, none, some, refl, suc, length}
use tpst.StdMap.{Key, Map, find, put, erase, insert, keys}

module _ {ℓ} {K : Type ℓ} ⦃o : Key K⦄ where
  abbrev pub Above : K → List K → Type 0
  Above k s = All (λ j. o.lt k j ≡ true) s

  abbrev pub IsSorted : List K → Type 0
  IsSorted [] = Unit
  IsSorted (k ∷ s) = Above k s × IsSorted s

  pub Above-trans : (k j : K) (s : List K) → o.lt k j ≡ true → Above j s → Above k s
  Above-trans k j [] h a = tt
  Above-trans k j (i ∷ s) h a = (o.lt_trans k j i h a.0, Above-trans k j s h a.1)

  insert-Above : (k j : K) (s : List K) → o.lt k j ≡ true → Above k s → Above k (insert j s)
  unfolding insert
  insert-Above k j [] h a = (h, tt)
  insert-Above k j (i ∷ s) h a = ground (arith, insert-Above k j s)

  pub insert-IsSorted : (k : K) (s : List K) → IsSorted s → IsSorted (insert k s)
  unfolding insert
  insert-IsSorted k [] h = (tt, tt)
  insert-IsSorted k (i ∷ s) h = ground (
    arith,
    insert-IsSorted k s,
    insert-Above i k s,
    Above-trans k i s,
    o.lt_total i k,
    o.eqb_iff i k,
    o.lt_total k i,
    o.eqb_iff k i,
  )

module _ {ℓ κ} {K : Type ℓ} {V : Type κ} ⦃o : Key K⦄ where
  put-Above :
      (k j : K) (v : V) (m : Map K V)
      → o.lt k j ≡ true
      → Above k (keys m)
      → Above k (keys (put j v m))
  unfolding put
  put-Above k j v [] h a = (h, tt)
  put-Above k j v ((i, w) ∷ m) h a = ground (arith, put-Above k j v m, o.eqb_iff i j)

  pub put-IsSorted : (k : K) (v : V) (m : Map K V) → IsSorted (keys m) → IsSorted (keys (put k v m))
  unfolding put
  put-IsSorted k v [] h = (tt, tt)
  put-IsSorted k v ((i, w) ∷ m) h = ground (
    arith,
    put-IsSorted k v m,
    put-Above i k v m,
    Above-trans k i (keys m),
    o.lt_total k i,
    o.eqb_iff i k,
    o.eqb_iff k i,
  )

  erase-Above : (k j : K) (m : Map K V) → Above k (keys m) → Above k (keys (erase j m))
  unfolding erase
  erase-Above k j [] a = tt
  erase-Above k j ((i, w) ∷ m) a = ground (arith, erase-Above k j m)

  pub erase-IsSorted : (k : K) (m : Map K V) → IsSorted (keys m) → IsSorted (keys (erase k m))
  unfolding erase
  erase-IsSorted k [] h = tt
  erase-IsSorted k ((i, w) ∷ m) h = ground (arith, erase-IsSorted k m, erase-Above i k m)

module _ {ℓ κ} {K : Type ℓ} {V : Type κ} ⦃o : Key K⦄ where
  -- No entry is found at a key that lies below all of them.
  pub find-Above : (k : K) (m : Map K V) → Above k (keys m) → find k m ≡ none
  unfolding find
  find-Above k [] a = refl
  find-Above k ((j, w) ∷ m) a = ground (arith, find-Above k m, o.eqb_iff j k, o.lt_irrefl k)

  -- What is found behind the first entry is found in the whole map.
  pub find-tail :
      (j k : K) (v w : V) (m : Map K V)
      → Above j (keys m)
      → find k m ≡ some v
      → find k ((j, w) ∷ m) ≡ some v
  unfolding find
  find-tail j k v w m a h = ground (arith, find-Above j m a, o.eqb_iff j k)

  tail-entries :
      (j : K) (w : V) (m n : Map K V)
      → Above j (keys m)
      → All (λ e. find e.0 m ≡ some e.1) n
      → All (λ e. find e.0 ((j, w) ∷ m) ≡ some e.1) n
  tail-entries j w m [] a h = tt
  tail-entries j w m ((k, v) ∷ n) a h = (find-tail j k v w m a h.0, tail-entries j w m n a h.1)

  pub find_self : (k : K) (v : V) (m : Map K V) → find k ((k, v) ∷ m) ≡ some v
  unfolding find
  find_self k v m = ground (arith, o.eqb_iff k k)

  -- The iterator and `find` agree.
  pub entries-find : (m : Map K V) → IsSorted (keys m) → All (λ e. find e.0 m ≡ some e.1) m
  entries-find [] s = tt
  entries-find ((k, v) ∷ m) s = (find_self k v m, tail-entries k v m m s.0 (entries-find m s.1))

  -- An absent key leaves the map as it is, and one that is there leaves one entry less.
  erase-absent : (k : K) (m : Map K V) → find k m ≡ none → erase k m ≡ m
  unfolding find erase
  erase-absent k [] h = refl
  erase-absent k ((j, w) ∷ m) h = ground (arith, erase-absent k m)

  pub size-erase :
      (k : K) (v : V) (m : Map K V)
      → IsSorted (keys m)
      → find k m ≡ some v
      → suc (length (erase k m)) ≡ length m
  unfolding find erase
  size-erase k v [] s h = cc
  size-erase k v ((j, w) ∷ m) s h =
      ground (arith, size-erase k v m, erase-absent k m, find-Above j m s.0, o.eqb_iff j k)
