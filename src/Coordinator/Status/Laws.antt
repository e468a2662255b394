-- ===== src/Coordinator/Status/Laws.antt =====
-- What the status table of src/utils/coordinator/coordinator.cpp holds after its updates.
use tpst.Prelude.{
  ◌≡◌, ◌&&◌, [], none, some, ℤ, pos, ltb_ℤ, Bytes, bytes_eq, bytes_eq_iff, arith, if◌then◌else◌,
  Option-cases, inl, inr, Bool-cases,
}
use tpst.StdMap.{bytes_key, Map, find, find_or, put}
use tpst.StdMap.Laws.{find_or-put}
use tpst.Coordinator.Status.{StatusMap, assign, recorded, update_status_map}

pub recorded-assign :
    (e a : Bytes) (n : ℤ) (m : StatusMap) (e' a' : Bytes)
    → recorded e' a' (assign e a n m)
      ≡ (if bytes_eq e e' && bytes_eq a a' then n else recorded e' a' m)
unfolding recorded assign
recorded-assign e a n m e' a' = ground (
  arith,
  find_or-put [] e' e (put a n (find_or [] e m)) m,
  find_or-put (pos 0) a' a n (find_or [] e m),
  bytes_eq_iff e e',
)

update_new :
    (e a : Bytes) (n : ℤ) (m : StatusMap)
    → find e m ≡ none
    → update_status_map e a n m ≡ assign e a n m
unfolding update_status_map
update_new e a n m new = rw (new, update_status_map)

update_known :
    (e a : Bytes) (n : ℤ) (m : StatusMap) (servers : Map Bytes ℤ)
    → find e m ≡ some servers
    → update_status_map e a n m
      ≡ (if ltb_ℤ (recorded e a m) n then assign e a n m else assign e a (recorded e a m) m)
unfolding update_status_map
update_known e a n m servers known = rw (known, update_status_map)

-- `updateStatusMap`: the entry that it names gets the number where the event is new or the number is
-- larger than the recorded one, and keeps its own otherwise. No other entry changes.
pub update_status_map-recorded :
    (e a : Bytes) (n : ℤ) (m : StatusMap) (e' a' : Bytes)
    → recorded e' a' (update_status_map e a n m) ≡ (
        if bytes_eq e e' && bytes_eq a a'
        then (elim (find e m) [
          | none ↦ n
          | some servers ↦ if ltb_ℤ (recorded e a m) n then n else recorded e a m
        ])
        else recorded e' a' m)
update_status_map-recorded e a n m e' a' = elim (Option-cases (find e m)) [
  | inl new ↦ simp (update_new e a n m new, new, recorded-assign)
  | inr (servers, known) ↦ elim (Bool-cases (ltb_ℤ (recorded e a m) n)) [
    | inl lt ↦ simp (update_known e a n m servers known, known, lt, recorded-assign)
    | inr ge ↦ simp (update_known e a n m servers known, known, ge, recorded-assign)
  ]
]
