-- ===== src/MetaClient.antt =====
-- The client of the metadata server, src/metadatamanagement/metaclient.cc.
pub mod Calls
use tpst.Prelude.{List, [], ◌∷◌, ◌++◌, Option, none, some, Bytes, codes, bytes_eq, if◌then◌else◌}
use tpst.Rpc.{Stub, call}
use tpst.GroupManager.{FileSystem, load_addr_in_dir}

-- `metaserverDir`.
abbrev pub project_dir : Bytes
project_dir =
    codes "/project1/parashar-001/zw241/software/eventDrivenWorkflow/src/metadatamanagement"

abbrev pub metaserver_dir : Bytes
metaserver_dir = project_dir ++ codes "/Metaserver"

pub record PutRequest : Type 0 where
  pub key : Bytes
  pub value : Bytes

-- The methods of `MetaClient`. A `TimeRequest` and a `GetRequest` are a key.
module _ {ℓ} {S : Type ℓ} where
  unfoldable pub recordtime : Stub S Bytes Bytes → Bytes → S → Bytes × S
  recordtime stub key s = call stub key s

  unfoldable pub recordtimestart : Stub S Bytes Bytes → Bytes → S → Bytes × S
  recordtimestart stub key s = call stub key s

  unfoldable pub recordtimetick : Stub S Bytes Bytes → Bytes → S → Bytes × S
  recordtimetick stub key s = call stub key s

  unfoldable pub getmeta : Stub S Bytes Bytes → Bytes → S → Bytes × S
  getmeta stub key s = call stub key s

  unfoldable pub putmeta : Stub S PutRequest Bytes → Bytes → Bytes → S → Bytes × S
  putmeta stub key value s = call stub (record { key = key; value = value }) s

-- `getAddr`: the first address of the directory, or "".
unfoldable pub get_addr : (fs : FileSystem) → fs.Disk → Bytes
unfolding load_addr_in_dir
get_addr fs d = elim (load_addr_in_dir fs metaserver_dir d) [ [] ↦ [] | addr ∷ addrs ↦ addr ]

-- `recordKey`, `recordKeyStart` and `recordKeyTick`: the reply that is printed, and nothing without an
-- address. `connect` is the channel to an address.
module _ {ℓ} {S : Type ℓ} (fs : FileSystem) (connect : Bytes → Stub S Bytes Bytes) where
  unfoldable pub record_key : Bytes → fs.Disk → S → Option Bytes × S
  unfolding get_addr recordtime
  record_key key d s =
      let reply = recordtime (connect (get_addr fs d)) key s in
      if bytes_eq (get_addr fs d) [] then (none, s) else (some reply.0, reply.1)

  unfoldable pub record_key_start : Bytes → fs.Disk → S → Option Bytes × S
  unfolding get_addr recordtimestart
  record_key_start key d s =
      let reply = recordtimestart (connect (get_addr fs d)) key s in
      if bytes_eq (get_addr fs d) [] then (none, s) else (some reply.0, reply.1)

  unfoldable pub record_key_tick : Bytes → fs.Disk → S → Option Bytes × S
  unfolding get_addr recordtimetick
  record_key_tick key d s =
      let reply = recordtimetick (connect (get_addr fs d)) key s in
      if bytes_eq (get_addr fs d) [] then (none, s) else (some reply.0, reply.1)
