-- ===== src/PublishClient.antt =====
-- The clients of the servers, src/publishclient/pubsubclient.cc, and the events of the trigger files,
-- src/observer/eventmanager.cpp. A `GreeterClient` is the address of its channel. The JSON parser and
-- the generator of client ids are libraries: a file is taken as its members, an id as an argument, as
-- is what `rand` returns and what a request is answered.
pub mod Listed
pub mod Forgotten
pub mod Reaches
pub mod Stub
use tpst.Prelude.{
  ℕ, zero, suc, ◌%◌, Bool, true, false, List, [], ◌∷◌, ◌++◌, Option, none, some, Bytes, codes,
  bytes_eq, Result, err, ok, ◌>>=◌, bad_index, ◌==◌, if◌then◌else◌,
}
use tpst.StdMap.{bytes_key, Map, find, find_or, put, touch, size}
use tpst.GroupManager.{
  FileSystem, below, coordinator_dir, load_addr_in_dir, update_worker_addr_map,
  get_cluster_dir_from_event_msg,
}

-- `workerClients`, `coordinatorClients`, `workerAddrMap` and `loadCoordinatorMap`.
pub record Clients : Type 0 where
  pub workers : Map Bytes (Map Bytes Bytes)
  pub coordinators : List Bytes
  pub addrs : Map Bytes (List Bytes)
  pub loaded : Map Bytes Bool

-- The loop of `updateWorkerClients`: an address is looked for among the directories.
unfoldable pub add_worker_clients :
    Bytes → List Bytes → Map Bytes (Map Bytes Bytes) → Map Bytes (Map Bytes Bytes)
unfolding find find_or put
add_worker_clients dir [] m = m
add_worker_clients dir (addr ∷ addrs) m =
    add_worker_clients dir addrs
      (elim (find addr m) [ some known ↦ m | none ↦ put dir (put addr addr (find_or [] dir m)) m ])

-- `updateWorkerClients`, which reads `workerAddrMap[groupDir]`.
unfoldable pub update_worker_clients : Bytes → Clients → Clients
unfolding add_worker_clients find_or touch
update_worker_clients dir s = record s {
  addrs = touch [] dir s.addrs;
  workers = add_worker_clients dir (find_or [] dir s.addrs) s.workers;
}

-- `eventPublish` and `eventSubscribe` send nothing without a client.
pub data Call : Type 0 where
  no_server : Call
  call : Bytes → Call

-- The loop over the map of one directory: the client at the place `id`.
unfoldable pub client_at : ℕ → ℕ → Map Bytes Bytes → Option Bytes
client_at counter id [] = none
client_at counter id ((addr, client) ∷ m) =
    let rest = client_at (suc counter) id m in if counter == id then some client else rest

-- `getServerIdFromAddr`.
unfoldable pub get_server_id_from_addr : ℕ → ℕ → ℕ
get_server_id_from_addr random server_num = random % server_num

module _ (fs : FileSystem) where
  -- `updateCoordinatorClients`: the clients are added to those that are there.
  unfoldable pub update_coordinator_clients : Bytes → fs.Disk → Clients → Clients
  unfolding load_addr_in_dir
  update_coordinator_clients dir d s = record s {
    coordinators = s.coordinators ++ load_addr_in_dir fs (below dir coordinator_dir) d;
  }

  -- `initClients`.
  unfoldable pub init_clients : Bytes → fs.Disk → Clients → Clients
  unfolding update_worker_addr_map update_worker_clients update_coordinator_clients
  init_clients dir d s =
      let maps = update_worker_addr_map fs dir d (s.addrs, s.loaded) in
      update_coordinator_clients dir d
        (update_worker_clients dir (record s { addrs = maps.0; loaded = maps.1 }))

  -- The directory is loaded once there is no entry for it.
  unfoldable pub with_cluster : Bytes → fs.Disk → Clients → Clients
  unfolding init_clients find
  with_cluster dir d s = elim (find dir s.workers) [
    | none ↦ init_clients dir d s
    | some clients ↦ s
  ]

  -- `getClientFromEvent`: the first reading of `workerClients[clusterDir]` makes an entry.
  unfoldable pub get_client_from_event :
      Bytes → ℕ → ℕ → fs.Disk → Clients → Result (Option Bytes × Clients)
  unfolding get_cluster_dir_from_event_msg with_cluster find_or touch client_at
      get_server_id_from_addr
  get_client_from_event event random group_number d s = do
    dir ← get_cluster_dir_from_event_msg event group_number
    let s' = with_cluster dir d s
    let clients = find_or [] dir s'.workers
    let s'' = record s' { workers = touch [] dir s'.workers }
    ok (
        if size clients == 0
        then (none, s'')
        else (client_at 0 (get_server_id_from_addr random (size clients)) clients, s''))

  -- `eventPublish` and `eventSubscribe`, up to the request: the first event of a publication decides
  -- the cluster.
  unfoldable pub event_publish : List Bytes → ℕ → ℕ → fs.Disk → Clients → Result (Call × Clients)
  unfolding get_client_from_event
  event_publish [] random group_number d s = err bad_index
  event_publish (event ∷ events) random group_number d s = do
    (client, s') ← get_client_from_event event random group_number d s
    ok (elim client [ none ↦ (no_server, s') | some addr ↦ (call addr, s') ])

-- `EventTriggure`.
pub record EventTriggure : Type 0 where
  pub match_type : Bytes
  pub meta_data : Bytes
  pub driver : Bytes
  pub event_sub_list : List Bytes
  pub event_pub_list : List Bytes
  pub action_list : List Bytes

-- The members of a trigger file.
pub record TriggureFile : Type 0 where
  pub match_type : Bytes
  pub driver : Bytes
  pub meta_data : Bytes
  pub event_sub_list : List Bytes
  pub action_list : List Bytes

-- `addNewConfig`: the trigger, and `clientIdtoConfig` with it under the id.
unfoldable pub add_new_config :
    TriggureFile → Bytes → Map Bytes EventTriggure → EventTriggure × Map Bytes EventTriggure
unfolding put
add_new_config d id configs =
    let triggure : EventTriggure = record {
      match_type = d.match_type;
      meta_data = d.meta_data;
      driver = d.driver;
      event_sub_list = d.event_sub_list;
      event_pub_list = [];
      action_list = d.action_list;
    } in
    (triggure, put id triggure configs)

-- `jsonIfTriggerorOperator`, of the member `type`.
pub data FileKind : Type 0 where
  trigger operator unknown : FileKind

unfoldable pub json_kind : Bytes → FileKind
json_kind type =
    if bytes_eq type (codes "TRIGGER")
    then trigger
    else if bytes_eq type (codes "OPERATOR")
    then operator
    else unknown
