-- ===== src/Tests/Addresses.antt =====
-- src/utils/file/loaddata.cpp, and src/utils/getip/getip.cpp with an address of two digits for a
-- port, and three servers in clusters of
-- one.
use tpst.Prelude.{
  ◌≡◌, refl, ap, true, false, List, [], ◌∷◌, none, some, pos, Bytes, codes, bytes_eq, bytes_eq_refl,
  ok, err, overflow, dangling, exit_failure, division_by_zero, out_of_fuel, arith, sym, ◌∙◌, ◌&&◌,
  ◌⊎◌,
}
use tpst.GroupManager.{FileSystem, multinodeip, below}
use tpst.GroupManager.Pool.{has}
use tpst.GetIp.{
  load_ip_port, record_ip_config, get_own_cluster_dir, get_client_cluster_dir,
  get_cluster_dir_by_topic_id, load_multi_node, record_multi_node,
}
use tpst.GroupManager.Address.{starts_with, find_text}
use tpst.LoadData.{if_json, get_task_name_from_event_name}
use tpst.GetIp.Config.{IsPart, load_ip_port-record}
use tpst.GetIp.Registry.{Enters, Finds, addr, record_multi_node-loaded}
use tpst.Utils.Decimal.{to_string}
use tpst.Tests.Groups.{strip}

abbrev ip : Bytes
ip = codes "10.0.0.1"

abbrev port : Bytes
port = codes "50"

ip-IsPart : IsPart ip
ip-IsPart = record {
  full = λ e. cc;
  no_colon = omega arith;
  one_line = omega arith;
  no_nul = omega arith;
}

port-IsPart : IsPart port
port-IsPart = record {
  full = λ e. cc;
  no_colon = omega arith;
  one_line = omega arith;
  no_nul = omega arith;
}

load_ip_port-record_example :
    load_ip_port (record_ip_config true ip port (some (codes "old")) []).0 ([], [])
    ≡ ok (0, ip, port)
load_ip_port-record_example =
    load_ip_port-record ip port [] [] [] (some (codes "old")) ip-IsPart port-IsPart (omega arith)

-- A missing file, an empty one, one with no colon; of two lines the last counts.
load_ip_port_tests :
    (load_ip_port none (ip, port) ≡ ok (1, ip, port))
    × (load_ip_port (some []) (ip, port) ≡ err dangling)
    × (load_ip_port (some (codes "10\n")) ([], []) ≡ err dangling)
    × (load_ip_port (some (codes "a:1\nb::2\n")) ([], []) ≡ ok (0, codes "b", codes "2"))
    × (load_ip_port (some (codes "a:12")) ([], []) ≡ ok (0, codes "a", codes "1"))
unfolding load_ip_port
load_ip_port_tests = (refl, refl, refl, refl, refl)

-- A disk that is the paths of its files and directories.
abbrev children : Bytes → List Bytes → List Bytes
children dir [] = []
children dir (path ∷ d) =
    let rest = children dir d in
    elim (strip (below dir []) path) [ none ↦ rest | some name ↦ name ∷ rest ]

abbrev paths : FileSystem
paths = record {
  Disk = List Bytes;
  entries = λ dir d. some (children dir d);
  readable = has;
  make_dir = λ dir d. some (dir ∷ d);
  make_file = λ file d. some (file ∷ d);
  delete = λ path d. none;
}

has-first : (x : Bytes) (d : List Bytes) → has x (x ∷ d) ≡ true
has-first x d = rw (bytes_eq_refl x) refl

strip-below : (dir name : Bytes) → strip (below dir []) (below dir name) ≡ some name
strip-below [] name = refl
strip-below (c ∷ dir) name = ground (arith, strip-below dir name)

children-first :
    (dir name : Bytes) (d : List Bytes) → children dir (below dir name ∷ d) ≡ name ∷ children dir d
children-first dir name d = rw (strip-below dir name, children) refl

paths-Enters : (dir : Bytes) → Enters paths dir
paths-Enters dir d e name names lacks first second made listed =
    let whole : below dir name ∷ d ≡ e = cc in
    let all : children dir e ≡ names = cc in
    ap (has name) (sym all ∙ ap (children dir) (sym whole) ∙ children-first dir name d)
    ∙ has-first name (children dir d)

record_multi_node-loaded_example :
    ((record_multi_node paths 1 ip port 3 1 5 [] [] ≡ err out_of_fuel)
      × (has multinodeip [] && has (get_client_cluster_dir 3 2) [] ≡ false))
    ⊎ (((e : List Bytes) × (record_multi_node paths 1 ip port 3 1 5 [] [] ≡ ok (e, []))
          × (paths.make_file (below (get_client_cluster_dir 3 2) (addr ip port)) e ≡ none))
        ⊎ ((e : List Bytes) × (record_multi_node paths 1 ip port 3 1 5 [] [] ≡ ok (e, ip))
            × Finds paths 0 0 3 2 (codes "10.0.0.1:50") e))
unfolding get_client_cluster_dir to_string
record_multi_node-loaded_example =
    record_multi_node-loaded paths 1 ip port 3 0 5 2 3 [] []
      (paths-Enters (get_client_cluster_dir 3 2)) refl refl (omega arith) (omega arith) 0 0

-- The third of the three cases.
registered :
    record_multi_node paths 1 ip port 3 1 5 [] []
    ≡ ok (
      codes "./multinodeip/cluster2/10.0.0.1:50"
          ∷ codes "./multinodeip/cluster2"
          ∷ codes "./multinodeip"
          ∷ [],
      ip,
    )
unfolding record_multi_node to_string get_own_cluster_dir bytes_eq
registered = refl

-- The directory of a topic, and what stops the program: no cluster, no directory, no instance for one.
abbrev no_directory : FileSystem
no_directory = record paths { entries = λ dir d. none }

cluster_dir_tests :
    (get_cluster_dir_by_topic_id paths
        (pos 7)
        (codes "./multinodeip/cluster0" ∷ codes "./multinodeip/cluster1" ∷ [])
      ≡ ok (codes "./multinodeip/cluster1"))
    × (get_cluster_dir_by_topic_id paths (pos 7) [] ≡ err exit_failure)
    × (get_own_cluster_dir 8 0 1 ≡ err division_by_zero)
    × (get_own_cluster_dir 7 8 5 ≡ ok (codes "./multinodeip/cluster0"))
    × (load_multi_node paths
          (codes "server")
          16
          8
          0
          3
          (codes "./multinodeip/cluster1/10.0.0.1:50" ∷ [])
        ≡ ok (codes "10.0.0.1:50" ∷ []))
unfolding get_cluster_dir_by_topic_id get_own_cluster_dir load_multi_node to_string bytes_eq
cluster_dir_tests = (refl, refl, refl, refl, refl)

-- `json` in the middle of the name passes only one of the two functions.
load_data_tests :
    (if_json (codes "sim.json") ≡ true)
    × (if_json (codes ".sim.json.swp") ≡ false)
    × (if_json (codes "a.json.bak") ≡ false)
    × (get_task_name_from_event_name (codes "a.json.bak") ≡ ok (some (codes "a.jso")))
    × (get_task_name_from_event_name (codes "simulate.json") ≡ err overflow)
    × (get_task_name_from_event_name (codes "json") ≡ err overflow)
    × (get_task_name_from_event_name (codes "task.txt") ≡ ok none)
unfolding if_json get_task_name_from_event_name bytes_eq find_text starts_with
load_data_tests = (refl, refl, refl, refl, refl, refl, refl)
