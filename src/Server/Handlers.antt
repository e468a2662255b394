-- ===== src/Server/Handlers.antt =====
-- The handlers of the service in src/server/workflowserver.cc that read or change its tables.
pub mod Spec
pub mod Reach
use tpst.Prelude.{
  ℕ, ◌≡◌, Bool, true, false, ◌&&◌, ◌||◌, List, [], ◌∷◌, ◌++◌, Option, none, some, ℤ, pos, Bytes,
  codes, bytes_eq, Result, ok, err, ◌>>=◌, bad_index, if◌then◌else◌,
}
use tpst.StdMap.{bytes_key, Map, find, find_or, size}
use tpst.PubSub.Subscribe.{pubsub_subscribe, get_subscribed_clients_number}
use tpst.PubSub.Publish.{pubsub_publish}
use tpst.Coordinator.Status.{update_status_map}
use tpst.Server.State.{ServerState, source_client, source_ingroup, source_betweengroup, status_coor}
use tpst.Server.Notify.{start_notify}
use tpst.Server.Redistribute.{SubscribeRequest}

-- `SERVERSTATUS`, `ServerAddr`, `propagateSub` and `propagatePub` of this server.
pub record Config : Type 0 where
  pub server_status : Bytes
  pub server_addr : Bytes
  pub propagate_sub : Bool
  pub propagate_pub : Bool

-- A `Publish` request.
pub record PublishRequest : Type 0 where
  pub events : List Bytes
  pub source : Bytes
  pub metadata : Bytes
  pub match_type : Bytes

-- The detached threads that `Publish` starts: `publishMultiServer` and `publishMultiGroup`.
pub data Broadcast : Type 0 where
  multi_server : List Bytes → Bytes → Broadcast
  multi_group : List Bytes → Bytes → Broadcast

-- `eventStr` after the loop: the last event, or "".
unfoldable pub last_event : Bytes → List Bytes → Bytes
last_event event_str [] = event_str
last_event event_str (event ∷ events) = last_event event events

-- To the servers of this group.
unfoldable pub group_broadcast : Config → PublishRequest → List Broadcast
group_broadcast c r =
    if c.propagate_pub && bytes_eq r.source source_client
    then multi_server r.events r.metadata ∷ []
    else []

-- What a coordinator adds: to the other groups, or from another group to its own.
unfoldable pub coordinator_broadcast : Config → PublishRequest → ServerState → List Broadcast
unfolding last_event
coordinator_broadcast c r s =
    if bytes_eq c.server_status status_coor
    then ((if bytes_eq r.source source_ingroup || bytes_eq r.source source_client
          then multi_group r.events r.metadata ∷ []
          else [])
        ++ (if bytes_eq r.source source_betweengroup
            then elim (find (last_event [] r.events) s.event_record_map) [
              | none ↦ []
              | some servers ↦ multi_server r.events r.metadata ∷ []
            ]
            else []))
    else []

-- `startNotify` for each index event in the set.
pub start_notify_all : List Bytes → ServerState → ServerState
unfolding start_notify
start_notify_all [] s = s
start_notify_all (index ∷ indexes) s = start_notify_all indexes (start_notify index s)

unfoldable pub notify_indexes : List Bytes → ServerState → ServerState
unfolding last_event start_notify_all
notify_indexes [] s = s
notify_indexes (event ∷ events) s = elim (find (last_event event events) s.pubsub.get_index_map) [
  | none ↦ s
  | some indexes ↦ start_notify_all indexes s
]

-- `Publish`: its reply, its broadcasts, and the tables. The timing and the messages are left out.
unfoldable pub publish :
    Config → PublishRequest → ServerState → Result (Bytes × List Broadcast × ServerState)
unfolding group_broadcast coordinator_broadcast notify_indexes
publish c r s = do
  let match_type = if bytes_eq r.match_type [] then codes "NAME" else r.match_type
  pubsub ← pubsub_publish r.events match_type r.metadata s.pubsub
  let s' = record s { pubsub = pubsub }
  ok (codes "OK", group_broadcast c r ++ coordinator_broadcast c r s', notify_indexes r.events s')

-- A `RecordSub` request.
pub record RecordRequest : Type 0 where
  pub subevent : Bytes
  pub serveraddr : Bytes
  pub subnum : ℤ

-- `RecordSub`: its reply and the tables.
unfoldable pub record_sub : RecordRequest → ServerState → Bytes × ServerState
record_sub r s = (
  codes "OK",
  record s {
    event_record_map = update_status_map r.subevent r.serveraddr r.subnum s.event_record_map;
  },
)

-- `GetSubscribedNumber`
abbrev pub get_subscribed_number : List Bytes → ServerState → ℕ
get_subscribed_number events s = get_subscribed_clients_number events s.pubsub

-- The loop that reports to the coordinator, for the events that are index events as they are written.
pub record_requests : Config → List Bytes → ServerState → List RecordRequest
record_requests c [] s = []
record_requests c (event ∷ events) s =
    let rest = record_requests c events s in
    elim (find event s.pubsub.sub_to_client) [
      | none ↦ rest
      | some clients ↦
          record { subevent = event; serveraddr = c.server_addr; subnum = pos (size clients) }
          ∷ rest
    ]

-- The loop that propagates a subscription to the other workers.
pub forwards : Config → SubscribeRequest → List Bytes → List (Bytes × SubscribeRequest)
forwards c r [] = []
forwards c r (addr ∷ addrs) =
    let rest = forwards c r addrs in
    if bytes_eq addr c.server_addr
    then rest
    else (
      addr,
      record r { source = source_ingroup; match_type = codes "NAME"; metadata = codes "testMeta" },
    )
      ∷ rest

-- What `Subscribe` answers and sends.
pub record Subscription : Type 0 where
  pub reply : Bytes
  pub records : List RecordRequest
  pub propagated : List (Bytes × SubscribeRequest)
  pub state : ServerState

-- `Subscribe`. `coordinators` are the clients in `coordinatorClients` after the update, and `workers`
-- gives the addresses below `getClusterDirFromEventMsg` of an event, which are read from a
-- directory. A message of the handler reads `eventList[0]`.
unfoldable pub subscribe :
    Config
    → List Bytes
    → (Bytes → List Bytes)
    → SubscribeRequest
    → ServerState
    → Result Subscription
unfolding record_requests forwards last_event
subscribe c coordinators workers r s =
    if bytes_eq r.client_id []
    then ok (record { reply = []; records = []; propagated = []; state = s })
    else (do
      pubsub ←
          pubsub_subscribe r.events r.client_id r.notify_server r.match_type r.metadata s.pubsub
      let s' = record s { pubsub = pubsub }
      elim r.events [
        | [] ↦ err bad_index
        | event ∷ events ↦ elim coordinators [
          | [] ↦
              ok (record { reply = codes "SUBSCRIBED"; records = []; propagated = []; state = s' })
          | coordinator ∷ others ↦ ok (record {
            reply = codes "SUBSCRIBED";
            records = record_requests c r.events s';
            propagated =
                if c.propagate_sub && bytes_eq r.source source_client
                then forwards c r (workers (last_event event events))
                else [];
            state = s';
          })
        ]
      ])

-- The requests of `publishMultiGroup`, to the coordinators in the order of their addresses.
unfoldable pub publish_multi_group :
    Config → List Bytes → Bytes → List Bytes → List (Bytes × PublishRequest)
publish_multi_group c events metadata [] = []
publish_multi_group c events metadata (addr ∷ addrs) =
    let rest = publish_multi_group c events metadata addrs in
    if bytes_eq addr c.server_addr
    then rest
    else (
      addr,
      record {
        events = events;
        source = source_betweengroup;
        metadata = metadata;
        match_type = codes "NAME";
      },
    )
      ∷ rest

-- The requests of `publishMultiServer`. `reply` is what a server answers; another answer than "OK"
-- ends the function.
unfoldable pub publish_multi_server :
    Config → (Bytes → Bytes) → List Bytes → Bytes → List Bytes → List (Bytes × PublishRequest)
publish_multi_server c reply events metadata [] = []
publish_multi_server c reply events metadata (addr ∷ addrs) =
    let rest = publish_multi_server c reply events metadata addrs in
    if bytes_eq c.server_addr addr
    then rest
    else (
      addr,
      record {
        events = events;
        source = source_ingroup;
        metadata = metadata;
        match_type = codes "NAME";
      },
    )
      ∷ (if bytes_eq (reply addr) (codes "OK") then rest else [])
