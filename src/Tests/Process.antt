-- ===== src/Tests/Process.antt =====
-- src/server/workflowserver.cc on concrete states.
use tpst.Prelude.{
  ◌≡◌, refl, true, false, List, [], ◌∷◌, ◌++◌, pos, Bytes, bytes_eq, codes, ok, err, bad_iterator,
  arith,
}
use mathlib.Core.List.{map}
use tpst.StdMap.{bytes_key, nat_key, find, contains}
use tpst.PubSub.State.{PubsubWrapper, State}
use tpst.PubSub.Subscribe.{new_wrapper, get_simplepubsub_wrapper}
use tpst.Server.State.{NotifyInfo, ServerState, source_client, status_coor}
use tpst.Server.Drain.{drain_rounds, drain_rounds-all}
use tpst.Server.Notify.{run_tasks}
use tpst.Server.Notify.Once.{Notified, run_tasks-Notified}
use tpst.Server.Redistribute.{Moved, redistribute_sub, resubscribe}
use tpst.Server.Redistribute.Every.{every_other, Holds, Leaves, redistribute_sub-every}
use tpst.Server.Redistribute.Overrun.{redistribute_sub-overruns}
use tpst.Server.Handlers.{Config, publish, group_broadcast, coordinator_broadcast}
use tpst.Server.Handlers.Spec.{named, Published, publish-notifies}
use tpst.Tests.Tables.{wrapper, one_client, one_client-IsWellFormed}

-- A coordinator with one client of `T1`.
abbrev config : Config
config = record {
  server_status = status_coor;
  server_addr = codes "s";
  propagate_sub = false;
  propagate_pub = true;
}

abbrev pub server : ServerState
server = record { pubsub = one_client; notify_queue = []; tasks = []; event_record_map = [] }

publish-notifies_example :
    (s' : ServerState) × (s'' : ServerState) × (publish config
        (named (codes "T1" ∷ codes "T1" ∷ []) source_client (codes "m"))
        server
      ≡ ok (
        codes "OK",
        group_broadcast config (named (codes "T1" ∷ codes "T1" ∷ []) source_client (codes "m"))
            ++ coordinator_broadcast config
                (named (codes "T1" ∷ codes "T1" ∷ []) source_client (codes "m"))
                server,
        s',
      ))
    × Published config (named (codes "T1" ∷ codes "T1" ∷ []) source_client (codes "m")) server s'
    × (run_tasks (λ s. ok s) s'.tasks s' ≡ ok s'')
    × Notified s'.tasks s' s''
publish-notifies_example =
    publish-notifies (λ s. ok s) config (codes "T1") (codes "T1" ∷ []) source_client (codes "m")
      server (λ s. refl) one_client-IsWellFormed refl

-- The same server with its client marked.
abbrev marked : ServerState
marked = record server {
  pubsub = record one_client {
    heap = (0, record wrapper { iftrigure = true; pub_metadata = codes "m" }) ∷ [];
  };
}

run_tasks-Notified_example :
    (s' : ServerState) × (run_tasks (λ s. ok s) (0 ∷ 0 ∷ []) marked ≡ ok s')
    × Notified (0 ∷ 0 ∷ []) marked s'
unfolding find
run_tasks-Notified_example =
    run_tasks-Notified (λ s. ok s) (0 ∷ 0 ∷ []) marked (λ s. refl)
      (
        (record wrapper { iftrigure = true; pub_metadata = codes "m" }, refl),
        ((record wrapper { iftrigure = true; pub_metadata = codes "m" }, refl), tt),
      )

abbrev info : NotifyInfo
info = record { addr = codes "addr"; meta_info = codes "m"; clientid = codes "c" }

drain_rounds-all_example : drain_rounds 1 (info ∷ info ∷ []) ≡ (info ∷ info ∷ [], [])
drain_rounds-all_example = drain_rounds-all 1 (info ∷ info ∷ []) (omega arith)

abbrev client : Bytes → PubsubWrapper
client name =
    new_wrapper name (codes "addr") (codes "NAME") (codes "meta") ((codes "T", pos 1 ∷ []) ∷ [])

-- Three clients of `T`.
abbrev three_clients : State
three_clients = record {
  sub_to_client = (codes "T", (codes "a", 0) ∷ (codes "b", 1) ∷ (codes "c", 2) ∷ []) ∷ [];
  get_index_map = (codes "T", codes "T" ∷ []) ∷ [];
  heap = (0, client (codes "a")) ∷ (1, client (codes "b")) ∷ (2, client (codes "c")) ∷ [];
  next = 3;
}

abbrev three_wrappers : List PubsubWrapper
three_wrappers = client (codes "a") ∷ client (codes "b") ∷ client (codes "c") ∷ []

three-Holds :
    Holds ((codes "a", 0) ∷ (codes "b", 1) ∷ (codes "c", 2) ∷ []) three_wrappers three_clients.heap
unfolding find contains
three-Holds = (refl, refl, (refl, refl, (refl, refl, tt)))

redistribute_sub-every_example :
    (m' : Moved) × (redistribute_sub (codes "T") (pos 2) three_clients
      ≡ ok (
        map resubscribe (map get_simplepubsub_wrapper (every_other 2 three_wrappers)),
        m'.pubsub,
      ))
    × Leaves
        (codes "T")
        (every_other 2 ((codes "a", 0) ∷ (codes "b", 1) ∷ (codes "c", 2) ∷ []))
        (every_other 2 three_wrappers)
        (record { pubsub = three_clients; spsw = [] })
        m'
unfolding find bytes_eq
redistribute_sub-every_example =
    redistribute_sub-every (codes "T") 1 ((codes "a", 0) ∷ (codes "b", 1) ∷ (codes "c", 2) ∷ [])
      three_wrappers three_clients refl three-Holds (omega arith)

redistribute_sub-overruns_example :
    redistribute_sub (codes "T") (pos 3) three_clients ≡ err bad_iterator
unfolding find bytes_eq
redistribute_sub-overruns_example =
    redistribute_sub-overruns (codes "T") 1 3
      ((codes "a", 0) ∷ (codes "b", 1) ∷ (codes "c", 2) ∷ []) three_wrappers three_clients refl
      three-Holds refl (omega arith)
