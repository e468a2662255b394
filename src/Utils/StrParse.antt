-- ===== src/Utils/StrParse.antt =====
-- src/utils/strparse/strparse.cpp: the metadata `GRID[<l0,l1>:<u0,u1>]%TS[n]`.
pub mod RoundTrip
pub mod Fuel
use tpst.Prelude.{
  ℕ, zero, suc, ◌+◌, ◌-◌, ◌^◌, ◌≡◌, refl, List, [], ◌∷◌, ◌++◌, Option, none, some, ℤ, pos, negsuc,
  Bytes, codes, Result, Error, ok, err, ◌>>=◌, invalid_argument, out_of_range, bad_iterator,
  out_of_fuel, length, take, drop, ltb, leb, ◌==◌, if◌then◌else◌,
}
use tpst.Utils.Stoi.{stoi}

-- `s.find(c)` of one character: `none` is `npos`.
unfoldable pub find : ℕ → Bytes → Option ℕ
find c [] = none
find c (d ∷ s) = if d == c then some 0 else elim (find c s) [ none ↦ none | some i ↦ some (suc i) ]

-- `s.substr(pos, n)`.
unfoldable pub substr : ℕ → ℕ → Bytes → Result Bytes
substr at n s = if ltb (length s) at then err out_of_range else ok (take n (drop at s))

-- `a - b` in `size_t`.
abbrev pub size_sub : ℕ → ℕ → ℕ
size_sub a b = if leb b a then a - b else a + 2 ^ 64 - b

abbrev pub or_fail {ℓ} : {A : Type ℓ} → Option A → Error → Result A
or_fail none e = err e
or_fail (some a) e = ok a

-- `str.substr(leftIdx, rightIdx - leftIdx)` where the inner loop stops, and the suffix behind the
-- comma.
field : Bytes → Bytes
field [] = []
field (c ∷ s) = let rest = field s in if c == b',' then [] else c ∷ rest

behind : Bytes → Bytes
behind [] = []
behind (c ∷ s) = let rest = behind s in if c == b',' then s else rest

-- `while (rightIdx < str.size())`, one unit of fuel a word.
str_split_loop : ℕ → Bytes → List ℤ → Result (List ℤ)
str_split_loop fuel [] words = ok words
str_split_loop zero (c ∷ s) words = err out_of_fuel
str_split_loop (suc fuel) (c ∷ s) words =
    stoi (field (c ∷ s)) >>= λ n. str_split_loop fuel (behind (c ∷ s)) (words ++ n ∷ [])

unfoldable pub str_split : Bytes → Result (List ℤ)
unfolding str_split_loop field behind
str_split s = str_split_loop (length s) s []

-- Without a `%` the erase begins before the string. For `rawGrid` shorter than 6 the length that
-- is passed to `substr` wraps round.
unfoldable pub get_grid_from_raw_meta : Bytes → Result Bytes
get_grid_from_raw_meta published = do
  position ← or_fail (find b'%' published) bad_iterator
  let raw_grid = take position published
  substr 5 (size_sub (length raw_grid) 6) raw_grid

-- Without a `%` nothing is erased, since position is -1.
behind_percent : Option ℕ → Bytes → Bytes
behind_percent none published = published
behind_percent (some position) published = drop (suc position) published

unfoldable pub get_ts_from_raw_meta : Bytes → Result ℤ
unfolding behind_percent
get_ts_from_raw_meta published = do
  let raw_ts = behind_percent (find b'%' published) published
  number ← substr 3 (size_sub (length raw_ts) 4) raw_ts
  stoi number

-- The last and then the first byte of one corner are cut off.
unfoldable pub trim : Bytes → Result Bytes
trim s = do front ← substr 0 (size_sub (length s) 1) s; substr 1 (length front) front

-- The corners `lb` and `ub` of `<l0,l1>:<u0,u1>`.
unfoldable pub get_bbx_from_grid_meta : Bytes → Result (List ℤ × List ℤ)
get_bbx_from_grid_meta meta = do
  start ← or_fail (find b':' meta) bad_iterator
  let lbmeta = take start meta
  let ubmeta = drop (suc start) meta
  lbmeta ← trim lbmeta
  ubmeta ← trim ubmeta
  lb ← str_split lbmeta
  ub ← str_split ubmeta
  ok (lb, ub)
