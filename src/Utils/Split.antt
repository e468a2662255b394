-- ===== src/Utils/Split.antt =====
-- src/utils/split/split.cc: `split` over a set of separator characters. The indices i and j into the
-- string are the suffixes that begin there.
pub mod Words
use tpst.Prelude.{
  ℕ, zero, suc, ◌≡◌, refl, Bool, true, false, ◌||◌, List, [], ◌∷◌, ◌++◌, Bytes, codes, Result, ok,
  err, out_of_fuel, length, ◌==◌, if◌then◌else◌,
}

-- One of the loops over `seperator`.
pub is_sep : Bytes → ℕ → Bool
is_sep [] c = false
is_sep (x ∷ seps) c = c == x || is_sep seps c

-- `while (i != s.size() && flag == 0)`: the suffix at which i stops.
skip : Bytes → Bytes → Bytes
unfolding is_sep
skip seps [] = []
skip seps (c ∷ s) = let rest = skip seps s in if is_sep seps c then rest else c ∷ s

-- `while (j != s.size() && flag == 0)`: `s.substr(i, j - i)`, and the suffix at which j stops.
token : Bytes → Bytes → Bytes
unfolding is_sep
token seps [] = []
token seps (c ∷ s) = let rest = token seps s in if is_sep seps c then [] else c ∷ rest

after : Bytes → Bytes → Bytes
unfolding is_sep
after seps [] = []
after seps (c ∷ s) = let rest = after seps s in if is_sep seps c then c ∷ s else rest

-- `if (i != j)`
push_token : List Bytes → Bytes → List Bytes
push_token result [] = result
push_token result (c ∷ t) = result ++ (c ∷ t) ∷ []

-- The outer loop, one unit of fuel a round.
split_loop : ℕ → Bytes → Bytes → List Bytes → Result (List Bytes)
unfolding skip token after push_token
split_loop fuel seps [] result = ok result
split_loop zero seps (c ∷ s) result = err out_of_fuel
split_loop (suc fuel) seps (c ∷ s) result =
    let i = skip seps (c ∷ s) in
    split_loop fuel seps (after seps i) (push_token result (token seps i))

unfoldable pub split : Bytes → Bytes → Result (List Bytes)
unfolding split_loop
split s seps = split_loop (length s) seps s []
