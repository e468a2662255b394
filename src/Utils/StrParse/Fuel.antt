-- ===== src/Utils/StrParse/Fuel.antt =====
-- The loop of `strSplit` in src/utils/strparse/strparse.cpp ends.
use tpst.Prelude.{
  ℕ, zero, suc, ◌≤◌, ◌≢◌, List, [], ◌∷◌, ◌++◌, ℤ, Bytes, err, >>=-returns, out_of_fuel, length,
  arith,
}
use native.Mathlib.Nat.{le_refl}
use tpst.Utils.Stoi.{stoi, stoi-returns}
use tpst.Utils.StrParse.{field, behind, str_split_loop, str_split}

length-behind-le : (c : ℕ) (s : Bytes) → length (behind (c ∷ s)) ≤ length s
unfolding behind
length-behind-le c [] = ground arith
length-behind-le c (d ∷ s) = ground (arith, length-behind-le d s)

str_split_loop-ends :
    (fuel : ℕ) (s : Bytes) (ws : List ℤ)
    → length s ≤ fuel
    → str_split_loop fuel s ws ≢ err out_of_fuel
unfolding str_split_loop
str_split_loop-ends fuel [] ws enough h = cc
str_split_loop-ends zero (c ∷ s) ws enough h = absurd (omega arith)
str_split_loop-ends (suc fuel) (c ∷ s) ws enough h =
    >>=-returns (stoi (field (c ∷ s))) (λ n. str_split_loop fuel (behind (c ∷ s)) (ws ++ n ∷ []))
      (stoi-returns (field (c ∷ s)))
      (λ n.
        str_split_loop-ends fuel (behind (c ∷ s)) (ws ++ n ∷ [])
          (omega (arith, length-behind-le c s)))
      h

-- The loop of `strSplit` ends on every text: a round for each byte is enough.
pub str_split-ends : (s : Bytes) → str_split s ≢ err out_of_fuel
unfolding str_split
str_split-ends s = str_split_loop-ends (length s) s [] (le_refl _)
