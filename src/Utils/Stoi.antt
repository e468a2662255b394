-- ===== src/Utils/Stoi.antt =====
-- `std::stoi` of the standard library, with an `int` of 32 bits.
use tpst.Prelude.{
  out_of_fuel, ◌≢◌, >>=-returns, ℕ, ◌+◌, ◌-◌, ◌*◌, ◌^◌, ◌<◌, ◌≡◌, Bool, true, false, ◌&&◌, ◌||◌, [],
  ◌∷◌, ℤ, pos, sub_ℕ, Bytes, Result, ok, err, invalid_argument, out_of_range, arith, leb, ltb, ◌==◌,
  if◌then◌else◌, ◌>>=◌,
}

abbrev pub is_digit : ℕ → Bool
is_digit c = leb b'0' c && leb c b'9'

-- `isspace` in the C locale.
abbrev is_space : ℕ → Bool
is_space c = c == 32 || (leb 9 c && leb c 13)

skip_spaces : Bytes → Bytes
skip_spaces [] = []
skip_spaces (c ∷ s) = let rest = skip_spaces s in if is_space c then rest else c ∷ s

-- The number that the leading digits denote, after `acc`.
unfoldable pub digits_value : ℕ → Bytes → ℕ
digits_value acc [] = acc
digits_value acc (c ∷ s) =
    let rest = digits_value (acc * 10 + (c - b'0')) s in if is_digit c then rest else acc

abbrev starts_with_digit : Bytes → Bool
starts_with_digit [] = false
starts_with_digit (c ∷ s) = is_digit c

unsigned_value : Bytes → Result ℕ
unfolding digits_value
unsigned_value s = if starts_with_digit s then ok (digits_value 0 s) else err invalid_argument

in_range : ℕ → Result ℤ
in_range n = if ltb n (2 ^ 31) then ok (pos n) else err out_of_range

in_range_neg : ℕ → Result ℤ
in_range_neg n = if leb n (2 ^ 31) then ok (sub_ℕ 0 n) else err out_of_range

signed : Bytes → Result ℤ
unfolding unsigned_value in_range in_range_neg
signed [] = err invalid_argument
signed (c ∷ s) =
    if c == b'-'
    then (do n ← unsigned_value s; in_range_neg n)
    else if c == b'+'
    then (do n ← unsigned_value s; in_range n)
    else (do n ← unsigned_value (c ∷ s); in_range n)

unfoldable pub stoi : Bytes → Result ℤ
unfolding skip_spaces signed
stoi s = signed (skip_spaces s)

-- A text of digits denotes their value, if that fits an `int`.
pub stoi-digits :
    (c : ℕ) (s : Bytes)
    → is_digit c ≡ true
    → digits_value 0 (c ∷ s) < 2 ^ 31
    → stoi (c ∷ s) ≡ ok (pos (digits_value 0 (c ∷ s)))
unfolding stoi
stoi-digits c s h small = ground arith

unsigned_value-returns : (s : Bytes) → unsigned_value s ≢ err out_of_fuel
unfolding unsigned_value
unsigned_value-returns s h = ground (arith, h)

in_range-returns : (n : ℕ) → in_range n ≢ err out_of_fuel
unfolding in_range
in_range-returns n h = ground (arith, h)

in_range_neg-returns : (n : ℕ) → in_range_neg n ≢ err out_of_fuel
unfolding in_range_neg
in_range_neg-returns n h = ground (arith, h)

signed-returns : (s : Bytes) → signed s ≢ err out_of_fuel
unfolding signed
signed-returns [] h = cc
signed-returns (c ∷ s) h = ground (
  arith,
  h,
  >>=-returns (unsigned_value s) in_range (unsigned_value-returns s) in_range-returns,
  >>=-returns (unsigned_value s) in_range_neg (unsigned_value-returns s) in_range_neg-returns,
  >>=-returns (unsigned_value (c ∷ s)) in_range (unsigned_value-returns (c ∷ s)) in_range-returns,
)

-- `stoi` has no loop that a bound could cut short.
pub stoi-returns : (s : Bytes) → stoi s ≢ err out_of_fuel
unfolding stoi
stoi-returns s h = signed-returns (skip_spaces s) h
