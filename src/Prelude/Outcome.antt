-- ===== src/Prelude/Outcome.antt =====
-- What a call that the program does not survive ends in, and the monad over it.
use mathlib.Core.Path.{◌≡◌, refl, ap}
use mathlib.Core.Logic.{◌≢◌, ◌⊎◌, inl, inr}

-- `invalid_argument` and `out_of_range` are the exceptions of the standard library, which no caller
-- catches. `bad_index` is an access outside a container and `bad_iterator` a step past its end, both
-- undefined behaviour, as are `overflow`, a write past the end of an array, `dangling`, a read through
-- a pointer that is null or unset, and `division_by_zero`. `exit_failure` is `exit`.
-- `out_of_fuel` is no behaviour of the program: a loop of the model was given too few rounds.
pub data Error : Type 0 where
  invalid_argument out_of_range bad_index bad_iterator dangling : Error
  overflow division_by_zero exit_failure out_of_fuel : Error

pub data Result {ℓ} (T : Type ℓ) : Type ℓ where
  err : Error → Result T
  ok : T → Result T

pub ok-injective {ℓ} : {T : Type ℓ} {t u : T} → ok t ≡ ok u → t ≡ u
ok-injective same = cc

infixl 5 ◌>>=◌
abbrev pub ◌>>=◌ {ℓ κ} : {T : Type ℓ} {U : Type κ} → Result T → (T → Result U) → Result U
err cause >>= next = err cause
ok t >>= next = next t

-- A bind that returned has run both parts.
pub >>=-eq-ok {ℓ κ} :
    {T : Type ℓ} {U : Type κ} (first : Result T) (next : T → Result U) {u : U}
    → first >>= next ≡ ok u
    → (t : T) × (first ≡ ok t) × (next t ≡ ok u)
>>=-eq-ok (err cause) next returned = cc
>>=-eq-ok (ok t) next returned = (t, refl, returned)

err-injective {ℓ} : (T : Type ℓ) {e f : Error} → ◌≡◌ {A = Result T} (err e) (err f) → e ≡ f
err-injective T same = cc

-- A bind runs out of fuel only where one of its parts does.
pub >>=-returns {ℓ κ} :
    {T : Type ℓ} {U : Type κ} (m : Result T) (f : T → Result U)
    → m ≢ err out_of_fuel
    → ((t : T) → f t ≢ err out_of_fuel)
    → (m >>= f) ≢ err out_of_fuel
>>=-returns (err e) f first each h = first (ap err (err-injective _ h))
>>=-returns (ok t) f first each h = each t h

pub >>=-returns_on {ℓ κ} :
    {T : Type ℓ} {U : Type κ} (m : Result T) (f : T → Result U)
    → m ≢ err out_of_fuel
    → ((t : T) → m ≡ ok t → f t ≢ err out_of_fuel)
    → (m >>= f) ≢ err out_of_fuel
>>=-returns_on (err e) f first each h = first (ap err (err-injective _ h))
>>=-returns_on (ok t) f first each h = each t refl h

pub ok-returns {ℓ} : {T : Type ℓ} (t : T) → ok t ≢ err out_of_fuel
ok-returns t h = cc

pub Result-cases {ℓ} :
    {T : Type ℓ} (r : Result T) → ((e : Error) × (r ≡ err e)) ⊎ ((t : T) × (r ≡ ok t))
Result-cases (err e) = inl (e, refl)
Result-cases (ok t) = inr (t, refl)
