-- ===== src/GetIp.antt =====
-- The addresses of the servers, src/utils/getip/getip.cpp: the file `./ipconfig` and the cluster
-- directories. The globals GETIPCOMPONENTNUM, GETIPNUMPERCLUSTER, GETIPCOMPONENTID and
-- SERVERCLUSTERNUM, which are no less than 0, and the address of the network interface are arguments.
pub mod Config
pub mod Registry
use tpst.Prelude.{
  ℕ, zero, suc, Bool, ◌/◌, ◌%◌, List, [], ◌∷◌, ◌++◌, Option, none, some, pos, ℤ, Bytes, codes,
  bytes_eq, Result, err, ok, ◌>>=◌, overflow, dangling, division_by_zero, exit_failure, out_of_fuel,
  length, take, ltb, ◌==◌, if◌then◌else◌,
}
use tpst.GroupManager.{
  FileSystem, multinodeip, below, cluster_path, remainder, proper, create_dir, addr_file,
}

-- `fgets`: at most `room` bytes, up to a line feed and with it, and what is left of the file.
unfoldable fgets : ℕ → Bytes → Bytes × Bytes
fgets zero s = ([], s)
fgets (suc room) [] = ([], [])
fgets (suc room) (c ∷ s) =
    let rest = fgets room s in if c == b'\n' then (c ∷ [], s) else (c ∷ rest.0, rest.1)

-- A buffer as a C string, which ends before its first NUL.
unfoldable c_string : Bytes → Bytes
c_string [] = []
c_string (c ∷ s) = let rest = c_string s in if c == 0 then [] else c ∷ rest

-- `buf[strlen(buf) - 1] = '\0'`: of an empty string it is the byte before the buffer.
unfoldable cut_last : Bytes → Result Bytes
cut_last [] = err overflow
cut_last (c ∷ s) = ok (take (length s) (c ∷ s))

-- The loop over the lines of the file into a `char[256]`, one unit of fuel a line: `buf` is what the
-- last line has left.
unfoldable read_lines : ℕ → Bytes → Option Bytes → Result (Option Bytes)
unfolding fgets c_string cut_last
read_lines fuel [] buf = ok buf
read_lines zero (c ∷ s) buf = err out_of_fuel
read_lines (suc fuel) (c ∷ s) buf = cut_last (c_string (fgets 255 (c ∷ s)).0) >>= λ line.
    read_lines fuel (fgets 255 (c ∷ s)).1 (some line)

-- `strtok` with the separator `:`, from where the last token has ended: leading separators are passed,
-- and the separator behind the token too.
unfoldable skip_colons : Bytes → Bytes
skip_colons [] = []
skip_colons (c ∷ s) = let rest = skip_colons s in if c == b':' then rest else c ∷ s

unfoldable until_colon : Bytes → Bytes × Bytes
until_colon [] = ([], [])
until_colon (c ∷ s) =
    let rest = until_colon s in if c == b':' then ([], s) else (c ∷ rest.0, rest.1)

unfoldable strtok : Bytes → Option (Bytes × Bytes)
unfolding skip_colons until_colon
strtok s = elim (skip_colons s) [ [] ↦ none | c ∷ t ↦ some (until_colon (c ∷ t)) ]

-- `string(p)` of a token.
abbrev string_of : Option (Bytes × Bytes) → Result (Bytes × Bytes)
string_of none = err dangling
string_of (some t) = ok t

-- The two tokens of the buffer, which no line has filled where it is `none`.
unfoldable split_addr : Option Bytes → Result (Bytes × Bytes)
unfolding strtok
split_addr none = err dangling
split_addr (some buf) = do
  (ip, rest) ← string_of (strtok buf)
  (port, end) ← string_of (strtok rest)
  ok (ip, port)

-- `loadIPPort`: what is returned, and then the strings `ipstr` and `port`; `file` is the contents of
-- `configpath`.
unfoldable pub load_ip_port : Option Bytes → Bytes × Bytes → Result (ℕ × Bytes × Bytes)
unfolding read_lines split_addr
load_ip_port none (ipstr, port) = ok (1, ipstr, port)
load_ip_port (some file) (ipstr, port) = do
  buf ← read_lines (length file) file none
  addr ← split_addr buf
  ok (0, addr.0, addr.1)

-- `recordIPPort`: the contents of `./ipconfig` and `ipstr`; `opened` says if it can be written, and
-- `old` is what it held.
unfoldable pub record_ip_config : Bool → Bytes → Bytes → Option Bytes → Bytes → Option Bytes × Bytes
record_ip_config opened ip port old ipstr =
    if opened then (some (ip ++ b':' ∷ (port ++ b'\n' ∷ [])), ip) else (old, ipstr)

-- `getClusterDir`: with no instance for a cluster the division is by 0.
unfoldable pub get_own_cluster_dir : ℕ → ℕ → ℕ → Result Bytes
get_own_cluster_dir component_num num_per_cluster id = elim num_per_cluster [
  | zero ↦ err division_by_zero
  | suc n ↦
      let quotient = component_num / suc n in
      let cluster_num = if quotient == 0 then 1 else quotient in
      ok (cluster_path (pos (id % cluster_num)))
]

-- `clientClusterDir`.
unfoldable pub get_client_cluster_dir : ℕ → ℕ → Bytes
get_client_cluster_dir server_cluster_num id =
    let cluster_num = if server_cluster_num == 0 then 1 else server_cluster_num in
    cluster_path (pos (id % cluster_num))

module _ (fs : FileSystem) where
  -- `getsubClientNum`.
  unfoldable pub get_sub_client_num : fs.Disk → Result ℕ
  unfolding proper
  get_sub_client_num d = elim (fs.entries multinodeip d) [
    | none ↦ err exit_failure
    | some names ↦ ok (length (proper names))
  ]

  -- `getClusterDirByTopicId`.
  unfoldable pub get_cluster_dir_by_topic_id : ℤ → fs.Disk → Result Bytes
  unfolding get_sub_client_num
  get_cluster_dir_by_topic_id topicid d = do
    num ← get_sub_client_num d
    if num == 0 then err exit_failure else ok (cluster_path (remainder topicid num))

  -- `loadMultiNodeIPPortByClusterDir`.
  unfoldable pub load_multi_node_by_cluster_dir : Bytes → fs.Disk → Result (List Bytes)
  unfolding proper
  load_multi_node_by_cluster_dir dir d = elim (fs.entries dir d) [
    | none ↦ err exit_failure
    | some names ↦ ok (proper names)
  ]

  -- `loadMultiNodeIPPort`.
  unfoldable pub load_multi_node : Bytes → ℕ → ℕ → ℕ → ℕ → fs.Disk → Result (List Bytes)
  unfolding get_own_cluster_dir get_client_cluster_dir load_multi_node_by_cluster_dir
  load_multi_node identity component_num num_per_cluster server_cluster_num id d = do
    dir ←
        if bytes_eq identity (codes "client")
        then ok (get_client_cluster_dir server_cluster_num id)
        else get_own_cluster_dir component_num num_per_cluster id
    load_multi_node_by_cluster_dir dir d

  -- `recordIPortForMultiNode`: the disk and `ipstr`. The two loops are those of `createDir`.
  unfoldable pub record_multi_node :
      ℕ → Bytes → Bytes → ℕ → ℕ → ℕ → Bytes → fs.Disk → Result (fs.Disk × Bytes)
  unfolding get_own_cluster_dir create_dir addr_file
  record_multi_node rounds ip port component_num num_per_cluster id ipstr d = do
    dir ← get_own_cluster_dir component_num num_per_cluster id
    d ← create_dir fs rounds multinodeip d
    d ← create_dir fs rounds dir d
    file ← addr_file fs dir (ip ++ b':' ∷ port)
    ok (elim (fs.make_file file d) [ none ↦ (d, ipstr) | some e ↦ (e, ip) ])
