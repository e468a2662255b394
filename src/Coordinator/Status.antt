-- ===== src/Coordinator/Status.antt =====
-- `eventRecordMap` of src/utils/coordinator/coordinator.cpp: for each event, the number of
-- subscriptions on each server.
pub mod Laws
pub mod Total
use tpst.Prelude.{
  ℕ, suc, ◌≡◌, refl, Bool, List, [], ◌∷◌, Option, none, some, ℤ, pos, negsuc, ◌+ℤ◌, ◌-ℤ◌, ltb_ℤ,
  Bytes, codes, if◌then◌else◌,
}
use tpst.StdMap.{bytes_key, Map, find, find_or, put, size}
use tpst.Coordinator.Double.{Double}

abbrev pub StatusMap : Type 0
StatusMap = Map Bytes (Map Bytes ℤ)

-- `eventRecordMap[event][serverAddr] = n`
pub assign : Bytes → Bytes → ℤ → StatusMap → StatusMap
assign event addr n m = put event (put addr n (find_or [] event m)) m

-- The value that `eventRecordMap[event][serverAddr]` reads.
pub recorded : Bytes → Bytes → StatusMap → ℤ
recorded event addr m = find_or (pos 0) addr (find_or [] event m)

-- `eventRecordMap[event][serverAddr] += subNumber`
pub redistribute_status_map : Bytes → Bytes → ℤ → StatusMap → StatusMap
unfolding assign recorded
redistribute_status_map event addr n m = assign event addr (recorded event addr m +ℤ n) m

-- A known event keeps the larger number. Reading it has already entered the server, at 0.
unfoldable pub update_status_map : Bytes → Bytes → ℤ → StatusMap → StatusMap
unfolding assign recorded
update_status_map event addr n m = elim (find event m) [
  | none ↦ assign event addr n m
  | some servers ↦
      if ltb_ℤ (recorded event addr m) n
      then assign event addr n m
      else assign event addr (recorded event addr m) m
]

-- `AddNewServer`
unfoldable pub add_new_server : Bytes → List Bytes → StatusMap → StatusMap
add_new_server event [] m = m
add_new_server event (addr ∷ addrs) m = add_new_server event addrs (assign event addr (pos 0) m)

module _ {ℓ} {W : Type ℓ} ⦃d : Double W⦄ where
  -- `sum += inerit->second`
  sum_from : W → Map Bytes ℤ → W
  sum_from acc [] = acc
  sum_from acc ((addr, n) ∷ servers) = sum_from (d.add acc (d.of_int n)) servers

  average_of : Map Bytes ℤ → W
  unfolding sum_from
  average_of [] = d.of_int (pos 0)
  average_of (e ∷ servers) =
      d.mul
        (d.div (sum_from (d.of_int (pos 0)) (e ∷ servers)) (d.of_int (pos (size (e ∷ servers)))))
        (d.of_int (pos 1))

  unfoldable pub get_average : Bytes → StatusMap → W
  unfolding average_of
  get_average event m = elim (find event m) [
    | none ↦ d.of_int (pos 0)
    | some servers ↦ average_of servers
  ]

  unfoldable pub calculate_new_server_num : W → ℤ → ℤ → ℤ
  calculate_new_server_num avg curr_sub_num over_load_threshold = d.floor (
      d.sub (d.div (d.mul avg (d.of_int curr_sub_num)) (d.of_int over_load_threshold))
        (d.of_int curr_sub_num))
