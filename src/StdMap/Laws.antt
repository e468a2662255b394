-- ===== src/StdMap/Laws.antt =====
-- What reads of a map or of a set return after a write.
use tpst.Prelude.{
  ◌≡◌, refl, List, [], ◌∷◌, none, some, arith, suc, ◌≤◌, length, if◌then◌else◌, ◌||◌,
}
use tpst.StdMap.{Key, Map, find, put, erase, find_or, touch, insert, contains}

module _ {ℓ κ} {K : Type ℓ} {V : Type κ} ⦃o : Key K⦄ where
  pub find-put :
      (j k : K) (v : V) (m : Map K V)
      → find j (put k v m) ≡ (if o.eqb k j then some v else find j m)
  unfolding find put
  find-put j k v [] = refl
  find-put j k v ((i, w) ∷ m) =
      ground (arith, o.eqb_iff k j, o.eqb_iff i k, o.eqb_iff i j, find-put j k v m)

  pub find-erase :
      (j k : K) (m : Map K V) → find j (erase k m) ≡ (if o.eqb k j then none else find j m)
  unfolding find erase
  find-erase j k [] = ground arith
  find-erase j k ((i, w) ∷ m) =
      ground (arith, o.eqb_iff k j, o.eqb_iff i k, o.eqb_iff i j, find-erase j k m)

  pub find_or-some : (d : V) (k : K) (v : V) (m : Map K V) → find k m ≡ some v → find_or d k m ≡ v
  unfolding find_or
  find_or-some d k v m h = rw (h, find_or)

  pub find_or-none : (d : V) (k : K) (m : Map K V) → find k m ≡ none → find_or d k m ≡ d
  unfolding find_or
  find_or-none d k m h = rw (h, find_or)

  pub find_or-put :
      (d : V) (j k : K) (v : V) (m : Map K V)
      → find_or d j (put k v m) ≡ (if o.eqb k j then v else find_or d j m)
  unfolding find_or
  find_or-put d j k v m = ground (arith, find-put j k v m)

  -- `m[k]` leaves every value that `m[j]` reads as it was.
  pub find_or-touch : (d : V) (j k : K) (m : Map K V) → find_or d j (touch d k m) ≡ find_or d j m
  unfolding find_or touch
  find_or-touch d j k m = ground (arith, find-put j k d m, o.eqb_iff k j)

  pub size-put-le : (k : K) (v : V) (m : Map K V) → length (put k v m) ≤ suc (length m)
  unfolding put
  size-put-le k v [] = omega arith
  size-put-le k v ((i, w) ∷ m) = ground (arith, size-put-le k v m)

  pub size-put :
      (k : K) (v : V) (m : Map K V) → find k m ≡ none → length (put k v m) ≡ suc (length m)
  unfolding put find
  size-put k v [] h = refl
  size-put k v ((i, w) ∷ m) h = ground (arith, size-put k v m)

module _ {ℓ} {K : Type ℓ} ⦃o : Key K⦄ where
  pub contains-insert :
      (j k : K) (s : List K) → contains j (insert k s) ≡ (o.eqb k j || contains j s)
  unfolding contains insert
  contains-insert j k [] = ground arith
  contains-insert j k (i ∷ s) =
      ground (arith, o.eqb_iff k j, o.eqb_iff i k, o.eqb_iff i j, contains-insert j k s)
