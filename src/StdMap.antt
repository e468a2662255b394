-- ===== src/StdMap.antt =====
-- `std::map` and `std::set` of the standard library, as the sources use them: iteration is in the
-- order of the keys, `m[k] = v` inserts or replaces, `erase` of an absent key does nothing.
pub mod Laws
pub mod Sorted
use tpst.Prelude.{
  ℕ, ◌≡◌, ◌↔◌, refl, Bool, true, false, List, [], ◌∷◌, Option, none, some, ℤ, eqb_ℤ, eqb_ℤ_iff,
  ltb_ℤ, Bytes, bytes_eq, bytes_eq_iff, bytes_lt, bytes_lt_irrefl, bytes_lt_trans, bytes_lt_total,
  arith, length, ltb, ◌==◌, ==_iff, if◌then◌else◌,
}

-- The order `std::less` of a key type.
pub record Key {ℓ} (K : Type ℓ) : Type ℓ where
  pub eqb : K → K → Bool
  pub lt : K → K → Bool
  pub eqb_iff : (a b : K) → (eqb a b ≡ true) ↔ (a ≡ b)
  pub lt_irrefl : (a : K) → lt a a ≡ false
  pub lt_trans : (a b c : K) → lt a b ≡ true → lt b c ≡ true → lt a c ≡ true
  pub lt_total : (a b : K) → eqb a b ≡ false → lt a b ≡ false → lt b a ≡ true

instance abbrev pub bytes_key : Key Bytes
bytes_key = record {
  eqb = bytes_eq;
  lt = bytes_lt;
  eqb_iff = bytes_eq_iff;
  lt_irrefl = bytes_lt_irrefl;
  lt_trans = bytes_lt_trans;
  lt_total = bytes_lt_total;
}

pub ltb_ℤ_irrefl : (a : ℤ) → ltb_ℤ a a ≡ false
ltb_ℤ_irrefl a = ground arith

pub ltb_ℤ_trans : (a b c : ℤ) → ltb_ℤ a b ≡ true → ltb_ℤ b c ≡ true → ltb_ℤ a c ≡ true
ltb_ℤ_trans a b c h k = ground arith

pub ltb_ℤ_total : (a b : ℤ) → eqb_ℤ a b ≡ false → ltb_ℤ a b ≡ false → ltb_ℤ b a ≡ true
ltb_ℤ_total a b h k = ground arith

instance abbrev pub int_key : Key ℤ
int_key = record {
  eqb = eqb_ℤ;
  lt = ltb_ℤ;
  eqb_iff = eqb_ℤ_iff;
  lt_irrefl = ltb_ℤ_irrefl;
  lt_trans = ltb_ℤ_trans;
  lt_total = ltb_ℤ_total;
}

pub ltb_irrefl : (a : ℕ) → ltb a a ≡ false
ltb_irrefl a = ground arith

pub ltb_trans : (a b c : ℕ) → ltb a b ≡ true → ltb b c ≡ true → ltb a c ≡ true
ltb_trans a b c h k = ground arith

pub ltb_total : (a b : ℕ) → (a == b) ≡ false → ltb a b ≡ false → ltb b a ≡ true
ltb_total a b h k = ground arith

instance abbrev pub nat_key : Key ℕ
nat_key = record {
  eqb = ◌==◌;
  lt = ltb;
  eqb_iff = ==_iff;
  lt_irrefl = ltb_irrefl;
  lt_trans = ltb_trans;
  lt_total = ltb_total;
}

-- The entries in the order of iteration.
abbrev pub Map {ℓ κ} : Type ℓ → Type κ → Type (ℓ ⊔ κ)
Map K V = List (K × V)

module _ {ℓ κ} {K : Type ℓ} {V : Type κ} ⦃o : Key K⦄ where
  -- `m.find(k)`: `none` is `m.end()`.
  unfoldable pub find : K → Map K V → Option V
  find k [] = none
  find k ((j, w) ∷ m) = if o.eqb j k then some w else find k m

  -- `m[k] = v`.
  unfoldable pub put : K → V → Map K V → Map K V
  put k v [] = (k, v) ∷ []
  put k v ((j, w) ∷ m) =
      if o.eqb j k then (k, v) ∷ m else if o.lt k j then (k, v) ∷ (j, w) ∷ m else (j, w) ∷ put k v m

  -- `m.erase(k)`.
  pub erase : K → Map K V → Map K V
  erase k [] = []
  erase k ((j, w) ∷ m) = let rest = erase k m in if o.eqb j k then rest else (j, w) ∷ rest

  -- The value that `m[k]` reads: a missing key is value-initialised, to `d`.
  unfoldable pub find_or : V → K → Map K V → V
  unfolding find
  find_or d k m = elim (find k m) [ none ↦ d | some v ↦ v ]

  -- The map that `m[k]` leaves: a missing key has been inserted.
  unfoldable pub touch : V → K → Map K V → Map K V
  unfolding find put
  touch d k m = elim (find k m) [ none ↦ put k d m | some v ↦ m ]

module _ {ℓ} {K : Type ℓ} ⦃o : Key K⦄ where
  -- `s.insert(k)`.
  unfoldable pub insert : K → List K → List K
  insert k [] = k ∷ []
  insert k (j ∷ s) = if o.eqb j k then j ∷ s else if o.lt k j then k ∷ j ∷ s else j ∷ insert k s

  -- `s.find(k) != s.end()`.
  unfoldable pub contains : K → List K → Bool
  contains k [] = false
  contains k (j ∷ s) = if o.eqb j k then true else contains k s

-- The keys in the order of iteration.
abbrev pub keys {ℓ κ} : {K : Type ℓ} {V : Type κ} → Map K V → List K
keys [] = []
keys ((k, v) ∷ m) = k ∷ keys m

-- `m.size()`.
abbrev pub size {ℓ κ} : {K : Type ℓ} {V : Type κ} → Map K V → ℕ
size m = length m
