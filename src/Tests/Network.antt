-- ===== src/Tests/Network.antt =====
-- src/server/workflowserver.cc with two groups: the coordinator `a` with the workers `a1` and `a2`, and
-- the coordinator `b` with the worker `b1`, which has reported subscriptions to `T1`.
use tpst.Prelude.{
  ◌≡◌, refl, true, false, List, [], ◌∷◌, Option, none, some, pos, Bytes, codes, bytes_eq, ok,
  if◌then◌else◌, Bool-cases, inl, inr, ◌≢◌,
}
use mathlib.Core.Path.{subst}
use tpst.StdMap.{bytes_key, find}
use tpst.PubSub.State
use tpst.PubSub.Invariant.{IsWellFormed, init-IsWellFormed}
use tpst.Coordinator.Status.{StatusMap}
use tpst.Server.State.{source_client, source_ingroup, source_betweengroup, status_coor}
use tpst.Server.Handlers.{PublishRequest, last_event}
use tpst.Server.Handlers.Reach.{broadcast_request}
use tpst.Server.Network.{Member, Network, deliver}
use tpst.Server.Network.Same.{Same}
use tpst.Server.Network.Clients.{deliver-client_of_worker, deliver-client_of_coordinator}
use tpst.Server.Network.Group.{IsWorker}
use tpst.Server.Network.Groups.{IsCoordinator}

abbrev server_of : Bytes → Bytes → StatusMap → List Bytes → Member
server_of addr status records workers = record {
  config = record {
    server_status = status;
    server_addr = addr;
    propagate_sub = false;
    propagate_pub = true;
  };
  state = record {
    pubsub = tpst.PubSub.State.init;
    notify_queue = [];
    tasks = [];
    event_record_map = records;
  };
  worker_list = workers;
}

abbrev workers_of_a : List Bytes
workers_of_a = codes "a1" ∷ codes "a2" ∷ []

abbrev member_of : Bytes → Option Member
member_of addr =
    if bytes_eq addr (codes "a")
    then some (server_of (codes "a") status_coor [] workers_of_a)
    else if bytes_eq addr (codes "a1")
    then some (server_of (codes "a1") (codes "worker") [] workers_of_a)
    else if bytes_eq addr (codes "a2")
    then some (server_of (codes "a2") (codes "worker") [] workers_of_a)
    else if bytes_eq addr (codes "b")
    then some (
        server_of (codes "b") status_coor ((codes "T1", (codes "b1", pos 1) ∷ []) ∷ [])
          (codes "b1" ∷ []))
    else if bytes_eq addr (codes "b1")
    then some (server_of (codes "b1") (codes "worker") [] (codes "b1" ∷ []))
    else none

abbrev two_groups : Network
two_groups = record { member = member_of; coordinators = codes "a" ∷ codes "b" ∷ [] }

abbrev client_request : PublishRequest
client_request = broadcast_request (codes "T1" ∷ []) (codes "m") source_client

a1_IsWorker : IsWorker two_groups (codes "a1")
unfolding bytes_eq
a1_IsWorker = record {
  member = server_of (codes "a1") (codes "worker") [] workers_of_a;
  reached = refl;
  no_coordinator = refl;
}

a2_IsWorker : IsWorker two_groups (codes "a2")
unfolding bytes_eq
a2_IsWorker = record {
  member = server_of (codes "a2") (codes "worker") [] workers_of_a;
  reached = refl;
  no_coordinator = refl;
}

b1_IsWorker : IsWorker two_groups (codes "b1")
unfolding bytes_eq
b1_IsWorker = record {
  member = server_of (codes "b1") (codes "worker") [] (codes "b1" ∷ []);
  reached = refl;
  no_coordinator = refl;
}

b_IsCoordinator : IsCoordinator two_groups (codes "b")
unfolding bytes_eq
b_IsCoordinator = record {
  member =
      server_of (codes "b") status_coor ((codes "T1", (codes "b1", pos 1) ∷ []) ∷ [])
        (codes "b1" ∷ []);
  reached = refl;
  coordinates = refl;
  workers = (b1_IsWorker, tt);
}

of_some :
    (q m : Member) → some q ≡ some m → IsWellFormed q.state.pubsub → IsWellFormed m.state.pubsub
of_some q m same wf = let here : q ≡ m = cc in subst (λ v. IsWellFormed v.state.pubsub) here wf

no_member : (m : Member) → ◌≢◌ {A = Option Member} none (some m)
no_member m h = cc

two_groups-formed :
    (addr : Bytes) (m : Member) → two_groups.member addr ≡ some m → IsWellFormed m.state.pubsub
two_groups-formed addr m found = elim (Bool-cases (bytes_eq addr (codes "a"))) [
  | inl e ↦ of_some _ m (rw e at found) init-IsWellFormed
  | inr e1 ↦ elim (Bool-cases (bytes_eq addr (codes "a1"))) [
    | inl e ↦ of_some _ m (rw (e1, e) at found) init-IsWellFormed
    | inr e2 ↦ elim (Bool-cases (bytes_eq addr (codes "a2"))) [
      | inl e ↦ of_some _ m (rw (e1, e2, e) at found) init-IsWellFormed
      | inr e3 ↦ elim (Bool-cases (bytes_eq addr (codes "b"))) [
        | inl e ↦ of_some _ m (rw (e1, e2, e3, e) at found) init-IsWellFormed
        | inr e4 ↦ elim (Bool-cases (bytes_eq addr (codes "b1"))) [
          | inl e ↦ of_some _ m (rw (e1, e2, e3, e4, e) at found) init-IsWellFormed
          | inr e5 ↦ absurd (no_member m (rw (e1, e2, e3, e4, e5) at found))
        ]
      ]
    ]
  ]
]

deliver-client_of_worker_example :
    (n' : Network) × (deliver 2 two_groups (codes "a1", client_request)
      ≡ ok (n', (codes "a1", source_client) ∷ (codes "a2", source_ingroup) ∷ []))
    × Same two_groups n'
unfolding bytes_eq
deliver-client_of_worker_example =
    deliver-client_of_worker two_groups two_groups-formed 0 (codes "a1")
      (server_of (codes "a1") (codes "worker") [] workers_of_a) client_request refl refl refl refl
      (a2_IsWorker, tt) refl

deliver-client_of_coordinator_example :
    (n' : Network) × (deliver 3 two_groups (codes "a", client_request)
      ≡ ok (
        n',
        (codes "a", source_client)
            ∷ (codes "a1", source_ingroup)
            ∷ (codes "a2", source_ingroup)
            ∷ (codes "b", source_betweengroup)
            ∷ (codes "b1", source_ingroup)
            ∷ [],
      ))
    × Same two_groups n'
unfolding bytes_eq last_event find b_IsCoordinator
deliver-client_of_coordinator_example =
    deliver-client_of_coordinator two_groups two_groups-formed 0 (codes "a")
      (server_of (codes "a") status_coor [] workers_of_a) client_request refl refl refl refl
      (a1_IsWorker, (a2_IsWorker, tt)) refl (b_IsCoordinator, tt)
