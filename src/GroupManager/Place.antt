-- ===== src/GroupManager/Place.antt =====
-- Where a server of some rank stands, and the directory of an event: `getClusterDir` and
-- `recordIPortIntoClusterDir` of src/utils/groupManager/groupManager.cpp, and
-- src/utils/dht/dht.cc.
use tpst.Prelude.{
  ℕ, ◌+◌, ◌*◌, ◌%◌, ◌^◌, ◌<◌, ◌≡◌, refl, false, ◌∷◌, ◌++◌, Option, none, some, pos, Bytes, ok, ltb,
  ◌==◌, if◌then◌else◌, arith, Bool, Result, ◌>>=◌,
}
use tpst.Utils.Decimal.{to_string, stoi-to_string}
use tpst.Utils.StrParse.RoundTrip.{Lacks, find-append, drop-suc-length}
use tpst.GroupManager.{
  FileSystem, multinodeip, Status, create_dir, addr_file, final_dir, free_pool_dir, coordinator_dir,
  worker_dir, below, cluster_path, get_cluster_dir, get_cluster_dir_from_event, behind_mark,
  get_cluster_dir_from_event_msg, status_coor, status_worker, status_free, third_dir,
}

-- The directory for the address of a server and its role: whether it is the first of its cluster, and
-- whether it is a member of it at all.
abbrev dir_of : Bool → Bool → Bytes → Bytes
dir_of first member cluster_dir =
    if first
    then below cluster_dir coordinator_dir
    else if member
    then below cluster_dir worker_dir
    else free_pool_dir

abbrev status_of : Bool → Bool → Status
status_of first member =
    if first then status_coor else if member then status_worker else status_free

-- The same by its slot.
abbrev pub dir_at : ℕ → ℕ → Bytes → Bytes
dir_at slot required_size = dir_of (slot == 0) (ltb slot required_size)

abbrev pub status_at : ℕ → ℕ → Status
status_at slot required_size = status_of (slot == 0) (ltb slot required_size)

module _ (slot cluster group_number required_size rank : ℕ)
    (at_place : rank ≡ slot * group_number + cluster) (in_range : cluster < group_number) where
  module _ (fs : FileSystem) (rounds : ℕ) (ip port : Bytes) where
    -- The address is written to a file in the directory.
    abbrev pub write_below : Bytes → Status → fs.Disk → Result (fs.Disk × Status × Option Bytes)
    write_below dir status d = do
      file ← addr_file fs dir (ip ++ (b':' ∷ port))
      ok (elim (fs.make_file file d) [ none ↦ (d, status, none) | some e ↦ (e, status, some ip) ])

    -- The directory of the slot is made in that of the cluster, and the address is written there.
    abbrev pub write_at : Bytes → fs.Disk → Result (fs.Disk × Status × Option Bytes)
    write_at dir d = do
      d' ←
          if ltb slot required_size
          then create_dir fs rounds (dir_at slot required_size dir) d
          else ok d
      write_below (dir_at slot required_size dir) (status_at slot required_size) d'

    -- The code's three directories for a role and a second directory.
    abbrev writes : Status → Bytes → fs.Disk → Result (fs.Disk × Status × Option Bytes)
    writes status second d = create_dir fs rounds multinodeip d >>= λ d.
        create_dir fs rounds second d >>= λ d.
        final_dir fs rounds (third_dir status second) second d >>= λ r. write_below r.0 status r.1

-- The number of an event that its text ends in, behind the first `_`, decides its cluster, which is
-- one of the group's, and that which a server of this rank has.
pub event_msg_cluster :
    (prefix : Bytes) (i group_number : ℕ)
    → Lacks b'_' prefix
    → i < 2 ^ 31
    → 0 < group_number
    → (cluster : ℕ) × (cluster < group_number)
      × (get_cluster_dir_from_event_msg (prefix ++ (b'_' ∷ to_string (pos i))) group_number
          ≡ ok (cluster_path (pos cluster)))
      × (get_cluster_dir (pos i) group_number ≡ ok (cluster_path (pos cluster)))
unfolding get_cluster_dir_from_event_msg get_cluster_dir_from_event get_cluster_dir
event_msg_cluster prefix i group_number lacks small positive =
    let some_group : (group_number == 0) ≡ false = ground (arith, positive) in
    (
      i % group_number,
      ground (arith, positive),
      rw (find-append b'_' prefix (to_string (pos i)) lacks, behind_mark)
          (rw (drop-suc-length prefix b'_' (to_string (pos i)))
            (rw (stoi-to_string i small) (rw some_group refl))),
      rw some_group refl,
    )
