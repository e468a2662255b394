-- ===== src/GroupManager.antt =====
-- The cluster directories, src/utils/groupManager/groupManager.cpp, and the directory of an event,
-- src/utils/dht/dht.cc. The file system is a parameter: `Disk` is its state, and the operations are
-- the calls that the code makes. The address of the network interface is an argument.
pub mod Place
pub mod Address
pub mod Pool
use tpst.Prelude.{
  ℕ, zero, suc, ◌+◌, ◌-◌, ◌*◌, ◌%◌, ◌≡◌, Bool, true, false, List, [], ◌∷◌, ◌++◌, Option, none, some,
  ℤ, pos, negsuc, sub_ℕ, eqb_ℤ, Bytes, codes, bytes_eq, Result, err, ok, overflow, division_by_zero,
  dangling, out_of_range, out_of_fuel, ◌>>=◌, length, take, drop, ltb, leb, ◌==◌, if◌then◌else◌,
}
use tpst.StdMap.{bytes_key, Map, find, put, insert}
use tpst.Utils.Stoi.{stoi}
use tpst.Utils.Decimal.{to_string}
use tpst.Utils.StrParse as StrParse

abbrev pub multinodeip : Bytes
multinodeip = codes "./multinodeip"

abbrev pub free_pool_dir : Bytes
free_pool_dir = codes "./multinodeip/FreePool"

abbrev pub coordinator_dir : Bytes
coordinator_dir = codes "coordinator"

abbrev pub worker_dir : Bytes
worker_dir = codes "worker"

-- `a + "/" + b`.
abbrev pub below : Bytes → Bytes → Bytes
below a b = a ++ (b'/' ∷ b)

abbrev pub cluster_path : ℤ → Bytes
cluster_path i = multinodeip ++ codes "/cluster" ++ to_string i

-- `a % n` of a signed `a`, which is rounded towards 0, of an `n` that is not 0.
abbrev pub remainder : ℤ → ℕ → ℤ
remainder (pos a) n = pos (a % n)
remainder (negsuc a) n = sub_ℕ 0 (suc a % n)

-- `getClusterDir` and `getClusterDirFromEvent`.
unfoldable pub get_cluster_dir : ℤ → ℕ → Result Bytes
unfolding to_string
get_cluster_dir id group_number =
    if group_number == 0
    then err division_by_zero
    else ok (cluster_path (remainder id group_number))

unfoldable pub get_cluster_dir_from_event : ℤ → ℕ → Result Bytes
unfolding to_string
get_cluster_dir_from_event i group_number =
    if group_number == 0 then err division_by_zero else ok (cluster_path (remainder i group_number))

-- The text behind the first `_`, or the whole text.
abbrev pub behind_mark : Option ℕ → Bytes → Bytes
behind_mark none s = s
behind_mark (some i) s = drop (suc i) s

-- `getClusterDirFromEventMsg`.
unfoldable pub get_cluster_dir_from_event_msg : Bytes → ℕ → Result Bytes
unfolding get_cluster_dir_from_event StrParse.find
get_cluster_dir_from_event_msg msg group_number = do
  index ← stoi (behind_mark (StrParse.find b'_' msg) msg)
  get_cluster_dir_from_event index group_number

-- `clientClusterDir`.
unfoldable pub client_cluster_dir : ℕ → ℕ → Bytes
unfolding to_string
client_cluster_dir rank required_size =
    let cluster_num = if required_size == 0 then 1 else required_size in
    cluster_path (pos (rank % cluster_num))

-- `SERVERSTATUS`.
pub data Status : Type 0 where
  status_coor status_worker status_free : Status

-- The directory below that of a cluster which a server of the status writes its address to.
unfoldable pub server_status : ℕ → ℕ → ℕ → Status
server_status rank group_number required_size =
    if ltb rank group_number
    then status_coor
    else if leb group_number rank
    then (if ltb rank (group_number * required_size) then status_worker else status_free)
    else status_free

abbrev pub second_dir : ℕ → ℕ → ℕ → Bytes → Bytes
second_dir rank group_number required_size cluster_dir =
    if leb (group_number * required_size) rank then free_pool_dir else cluster_dir

abbrev pub third_dir : Status → Bytes → Option Bytes
third_dir status_coor second = some (below second coordinator_dir)
third_dir status_worker second = some (below second worker_dir)
third_dir status_free second = none

-- The file system.
pub record FileSystem : Type 1 where
  pub Disk : Type 0
  -- `opendir` and `readdir` to the end: the entries in the order in which they are read.
  pub entries : Bytes → Disk → Option (List Bytes)
  -- `fstream::open` for reading.
  pub readable : Bytes → Disk → Bool
  -- `mkdir`, `fopen(path, "w")` and `remove`: `none` is a failure.
  pub make_dir : Bytes → Disk → Option Disk
  pub make_file : Bytes → Disk → Option Disk
  pub delete : Bytes → Disk → Option Disk

-- The entries but `.` and `..`.
unfoldable pub proper : List Bytes → List Bytes
proper [] = []
proper (name ∷ names) =
    let rest = proper names in
    if bytes_eq name (codes ".")
    then rest
    else if bytes_eq name (codes "..")
    then rest
    else name ∷ rest

-- The addresses that the loop of `getFreeNodeList` reads: it stops once it has `need` of them.
unfoldable pub take_free : ℕ → ℤ → List Bytes → List Bytes
take_free count need [] = []
take_free count need (name ∷ names) =
    let rest = take_free (suc count) need names in
    if eqb_ℤ (pos (suc count)) need then name ∷ [] else name ∷ rest

module _ (fs : FileSystem) where
  -- `loadAddrInDir`.
  unfoldable pub load_addr_in_dir : Bytes → fs.Disk → List Bytes
  unfolding proper
  load_addr_in_dir dir d = elim (fs.entries dir d) [ none ↦ [] | some names ↦ proper names ]

  -- `getFileNumInDir`.
  unfoldable pub get_file_num_in_dir : Bytes → fs.Disk → ℕ
  unfolding proper
  get_file_num_in_dir dir d = elim (fs.entries dir d) [
    | none ↦ 0
    | some names ↦ length (proper names)
  ]

  -- The `while (1)` of `createDir`: `mkdir` is tried until it succeeds or the path can be read.
  unfoldable pub create_dir_loop : ℕ → Bytes → fs.Disk → Result fs.Disk
  create_dir_loop zero dir d = err out_of_fuel
  create_dir_loop (suc rounds) dir d = elim (fs.make_dir dir d) [
    | some e ↦ ok e
    | none ↦ elim (fs.readable dir d) [ true ↦ ok d | false ↦ create_dir_loop rounds dir d ]
  ]

  -- `createDir`.
  unfoldable pub create_dir : ℕ → Bytes → fs.Disk → Result fs.Disk
  unfolding create_dir_loop
  create_dir rounds dir d = if fs.readable dir d then ok d else create_dir_loop rounds dir d

  -- `sprintf(addrFile, "%s/%s", …)` into a `char[100]`.
  unfoldable pub addr_file : Bytes → Bytes → Result Bytes
  addr_file dir addr =
      if ltb (length (below dir addr)) 100 then ok (below dir addr) else err overflow

  -- What the third directory is and the file in it; without one, the address goes to the second.
  unfoldable pub final_dir : ℕ → Option Bytes → Bytes → fs.Disk → Result (Bytes × fs.Disk)
  unfolding create_dir
  final_dir rounds none second d = ok (second, d)
  final_dir rounds (some third) second d = create_dir rounds third d >>= λ e. ok (third, e)

  -- `recordIPortIntoClusterDir`: the disk, the status of the server, and the address if it has been
  -- written; `ip` is what the interface returns.
  unfoldable pub record_ip_port :
      ℕ → Bytes → Bytes → Bytes → ℕ → ℕ → ℕ → fs.Disk → Result (fs.Disk × Status × Option Bytes)
  unfolding create_dir final_dir addr_file server_status
  record_ip_port rounds ip port cluster_dir rank group_number required_size d = do
    let second = second_dir rank group_number required_size cluster_dir
    let status = server_status rank group_number required_size
    d ← create_dir rounds multinodeip d
    d ← create_dir rounds second d
    (final, d) ← final_dir rounds (third_dir status second) second d
    file ← addr_file final (ip ++ (b':' ∷ port))
    ok (elim (fs.make_file file d) [ none ↦ (d, status, none) | some e ↦ (e, status, some ip) ])

  -- `nodeAttach`.
  unfoldable pub node_attach : ℕ → Bytes → Bytes → fs.Disk → Result (fs.Disk × Bool)
  unfolding create_dir addr_file
  node_attach rounds dir addr d = do
    d ← create_dir rounds (below dir worker_dir) d
    file ← addr_file (below dir worker_dir) addr
    ok (elim (fs.make_file file d) [ none ↦ (d, false) | some e ↦ (e, true) ])

  -- A failure to delete is printed.
  unfoldable pub delete_free : List Bytes → fs.Disk → fs.Disk
  delete_free [] d = d
  delete_free (name ∷ names) d =
      delete_free names (elim (fs.delete (below free_pool_dir name) d) [ none ↦ d | some e ↦ e ])

  -- `getFreeNodeList`. Where the pool cannot be opened the code passes the null pointer to
  -- `closedir`, which takes an open stream.
  unfoldable pub get_free_node_list : ℤ → fs.Disk → Result (List Bytes × fs.Disk)
  unfolding proper take_free delete_free
  get_free_node_list need d = elim (fs.entries free_pool_dir d) [
    | none ↦ err dangling
    | some names ↦ let taken = take_free 0 need (proper names) in ok (taken, delete_free taken d)
  ]

  -- `updateWorkerAddrMap` between `getLock` and `releaseLock`, which leave the addresses alone:
  -- `loaded` is `loadCoordinatorMap`.
  unfoldable pub update_worker_addr_map :
      Bytes
      → fs.Disk
      → Map Bytes (List Bytes) × Map Bytes Bool
      → Map Bytes (List Bytes) × Map Bytes Bool
  unfolding load_addr_in_dir put find
  update_worker_addr_map dir d (addrs, loaded) =
      let workers = load_addr_in_dir (below dir worker_dir) d in
      let coordinators = load_addr_in_dir (below dir coordinator_dir) d in
      if elim (find dir loaded) [ none ↦ true | some done ↦ if done then false else true ]
      then (put dir (workers ++ coordinators) addrs, put dir true loaded)
      else (addrs, loaded)

  -- The loop of `updateCoordinatorAddr`: only the first address of each directory.
  unfoldable pub add_coordinators : List Bytes → fs.Disk → List Bytes → List Bytes
  unfolding load_addr_in_dir insert
  add_coordinators [] d known = known
  add_coordinators (cluster ∷ clusters) d known =
      add_coordinators clusters d
        (elim (load_addr_in_dir (below (below multinodeip cluster) coordinator_dir) d) [
          | [] ↦ known
          | addr ∷ addrs ↦ insert addr known
        ])

  unfoldable pub update_coordinator_addr : fs.Disk → List Bytes → List Bytes
  unfolding add_coordinators
  update_coordinator_addr d known = add_coordinators (load_addr_in_dir multinodeip d) d known

  -- `getSingleClientFromDir`, of the directory that the code names.
  unfoldable pub get_single_client : Bytes → fs.Disk → Bytes
  unfolding load_addr_in_dir
  get_single_client dir d = elim (load_addr_in_dir dir d) [ [] ↦ [] | addr ∷ addrs ↦ addr ]
