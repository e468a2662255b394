-- ===== src/Server/Overload.antt =====
-- `checkOverload` and `UpdateCluster` of src/server/workflowserver.cc. The answers to `UpdateCluster`
-- are only printed, and left out.
pub mod Ends
pub mod Pool
use tpst.Prelude.{ℕ, List, [], ◌∷◌, ◌++◌, ℤ, pos, ltb_ℤ, Bytes, Result, ok, ◌>>=◌, if◌then◌else◌}
use tpst.StdMap.{bytes_key, find_or, size}
use tpst.Coordinator.Double.{Double}
use tpst.Coordinator.Status.{StatusMap, get_average, calculate_new_server_num, update_status_map}
use tpst.Coordinator.Plan.{SubMeta, generate_plan_for_event}
use tpst.GroupManager.{FileSystem, get_free_node_list, node_attach}
use tpst.PublishClient.{Clients, update_coordinator_clients}
use tpst.Server.State.{ServerState}
use tpst.Server.Redistribute.{RedistributeRequest, redistribute_by_plan}

-- `updateStatusMap(imbEvent, serAddr, 0)` for each new server.
unfoldable pub enter_servers : Bytes → List Bytes → StatusMap → StatusMap
unfolding update_status_map
enter_servers event [] m = m
enter_servers event (addr ∷ addrs) m =
    enter_servers event addrs (update_status_map event addr (pos 0) m)

-- `max(a, b)`.
abbrev pub max_ℤ : ℤ → ℤ → ℤ
max_ℤ a b = if ltb_ℤ a b then b else a

module _ (fs : FileSystem) where
  -- `UpdateCluster`: the new `GM_CLUSTERDIR`, and the clients.
  unfoldable pub update_cluster : Bytes → fs.Disk → Clients → Bytes × Clients
  unfolding update_coordinator_clients
  update_cluster dir d s = (dir, update_coordinator_clients fs dir d s)

  -- `nodeAttach` for each new server; a failure is printed.
  unfoldable pub attach_all : ℕ → Bytes → List Bytes → fs.Disk → Result fs.Disk
  unfolding node_attach
  attach_all rounds dir [] d = ok d
  attach_all rounds dir (addr ∷ addrs) d = do
    (d, attached) ← node_attach fs rounds dir addr d
    attach_all rounds dir addrs d

  -- What `checkOverload` leaves and sends: the servers that get an `UpdateCluster` request and the
  -- `RedistributeSub` requests, in order.
  pub record Overload : Type 0 where
    pub state : ServerState
    pub disk : fs.Disk
    pub server_number : ℤ
    pub updated : List Bytes
    pub redistributed : List RedistributeRequest

  module _ {ℓ} (W : Type ℓ) ⦃w : Double W⦄ (sort : List SubMeta → List SubMeta)
      (threshold : ℤ) where
    -- The first loop: the events whose average is above the threshold.
    unfoldable pub imbalanced_events : StatusMap → StatusMap → List Bytes
    unfolding get_average
    imbalanced_events [] all = []
    imbalanced_events ((event, servers) ∷ m) all =
        let rest = imbalanced_events m all in
        if w.gt (get_average {W = W} event all) (w.mul (w.of_int threshold) (w.of_int (pos 1)))
        then event ∷ rest
        else rest

    -- One round of the second loop. The number of servers is that of the rounds before, unless this
    -- event needs more.
    unfoldable pub relieve_event : ℕ → Bytes → Bytes → Overload → Result Overload
    unfolding get_average calculate_new_server_num get_free_node_list enter_servers
        generate_plan_for_event redistribute_by_plan attach_all
    relieve_event rounds dir event o = do
      let records = o.state.event_record_map
      let sub_size = size (find_or [] event records)
      let add_number =
          calculate_new_server_num {W = W} (get_average {W = W} event records) (pos sub_size)
            threshold
      let server_number = max_ℤ o.server_number add_number
      (addrs, d) ← get_free_node_list fs server_number o.disk
      (plans, records) ← generate_plan_for_event W sort event (enter_servers event addrs records)
      let sent = redistribute_by_plan plans (record (o.state) { event_record_map = records })
      d ← attach_all rounds dir addrs d
      ok (record {
        state = sent.1;
        disk = d;
        server_number = server_number;
        updated = o.updated ++ addrs;
        redistributed = o.redistributed ++ sent.0;
      })

    unfoldable pub relieve_all : ℕ → Bytes → List Bytes → Overload → Result Overload
    unfolding relieve_event
    relieve_all rounds dir [] o = ok o
    relieve_all rounds dir (event ∷ events) o =
        relieve_event rounds dir event o >>= λ o'. relieve_all rounds dir events o'

    -- `checkOverload` of a coordinator with the directory `dir`.
    unfoldable pub check_overload : ℕ → Bytes → ServerState → fs.Disk → Result Overload
    unfolding imbalanced_events relieve_all
    check_overload rounds dir s d =
        relieve_all rounds dir (imbalanced_events s.event_record_map s.event_record_map)
          (record { state = s; disk = d; server_number = pos 1; updated = []; redistributed = [] })
