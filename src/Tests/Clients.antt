-- ===== src/Tests/Clients.antt =====
-- src/publishclient/pubsubclient.cc on one cluster of four.
use tpst.Prelude.{
  ◌≡◌, refl, true, false, List, [], ◌∷◌, none, some, Bytes, codes, bytes_eq, ok, if◌then◌else◌,
}
use tpst.StdMap.{bytes_key, Map, find}
use tpst.Utils.Stoi.{stoi}
use tpst.GroupManager.{FileSystem}
use tpst.PublishClient.{Clients, get_client_from_event}
use tpst.Server.State.{status_coor}
use tpst.Server.Network.{Member, Network}
use tpst.Server.Network.Same.{Same}
use tpst.Tests.Tables.{one_client}
use tpst.PublishClient.Forgotten.{get_client_from_event-forgotten}

-- A disk is its directories with their entries.
abbrev directories : FileSystem
directories = record {
  Disk = Map Bytes (List Bytes);
  entries = λ dir d. find dir d;
  readable = λ dir d. true;
  make_dir = λ dir d. none;
  make_file = λ file d. none;
  delete = λ path d. none;
}

abbrev cluster : Bytes
cluster = codes "./multinodeip/cluster1"

abbrev one_group : Map Bytes (List Bytes)
one_group =
    (codes "./multinodeip/cluster1/coordinator", codes "." ∷ codes "10.0.0.1:1" ∷ [])
    ∷ (codes "./multinodeip/cluster1/worker", codes "10.0.0.2:1" ∷ [])
    ∷ []

abbrev no_clients : Clients
no_clients = record { workers = []; coordinators = []; addrs = []; loaded = [] }

-- Nothing was on the disk when the cluster was looked up.
abbrev too_early : Clients
too_early = record {
  workers = (cluster, []) ∷ [];
  coordinators = [];
  addrs = (cluster, []) ∷ [];
  loaded = (cluster, true) ∷ [];
}

early_lookup :
    get_client_from_event directories (codes "e_5") 17 4 [] no_clients ≡ ok (none, too_early)
unfolding get_client_from_event bytes_eq stoi
early_lookup = refl

get_client_from_event-forgotten_example :
    get_client_from_event directories (codes "e_5") 3 4 one_group too_early ≡ ok (none, too_early)
get_client_from_event-forgotten_example =
    get_client_from_event-forgotten directories (codes "e_5") 4 17 3 [] one_group no_clients
      too_early early_lookup

-- The coordinator and the worker of the cluster, each with the client of `T1` that waits for it twice.
abbrev coordinator_addr : Bytes
coordinator_addr = codes "10.0.0.1:1"

abbrev worker_addr : Bytes
worker_addr = codes "10.0.0.2:1"

abbrev server_of : Bytes → Bytes → Member
server_of addr status = record {
  config = record {
    server_status = status;
    server_addr = addr;
    propagate_sub = false;
    propagate_pub = true;
  };
  state = record { pubsub = one_client; notify_queue = []; tasks = []; event_record_map = [] };
  worker_list = worker_addr ∷ [];
}

abbrev one_cluster : Network
one_cluster = record {
  member = λ addr.
      if bytes_eq addr coordinator_addr
      then some (server_of coordinator_addr status_coor)
      else if bytes_eq addr worker_addr
      then some (server_of worker_addr (codes "worker"))
      else none;
  coordinators = coordinator_addr ∷ [];
}
