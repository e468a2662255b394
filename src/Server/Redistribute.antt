-- ===== src/Server/Redistribute.antt =====
-- `RedistributeSub` and `RedistributeByPlan` of src/server/workflowserver.cc.
pub mod Every
pub mod Overrun
use tpst.Prelude.{
  ℕ, suc, ◌≡◌, Bool, List, [], ◌∷◌, ◌++◌, Option, none, some, ℤ, pos, eqb_ℤ, Bytes, codes, Result,
  ok, err, bad_iterator, ◌>>=◌, if◌then◌else◌,
}
use tpst.StdMap.{bytes_key, nat_key, Map, find, find_or, put, erase, size, touch}
use tpst.PubSub.State
use tpst.PubSub.State.{PubsubWrapper, SimplepubsubWrapper, deref}
use tpst.PubSub.Subscribe.{get_simplepubsub_wrapper}
use tpst.Coordinator.Plan.{Plan}
use tpst.Coordinator.Status.{assign}
use tpst.Server.State.{ServerState, source_ingroup}

-- A `Subscribe` request.
pub record SubscribeRequest : Type 0 where
  pub events : List Bytes
  pub client_id : Bytes
  pub notify_server : Bytes
  pub source : Bytes
  pub match_type : Bytes
  pub metadata : Bytes

-- What the loop changes: `subtoClient`, the heap, and the vector `spsw`.
pub record Moved : Type 0 where
  pub pubsub : tpst.PubSub.State.State
  pub spsw : List SimplepubsubWrapper

-- `delete itera->second; subtoClient[eventStr].erase(itera++)`
abbrev pub move_client : Bytes → Bytes → ℕ → PubsubWrapper → Moved → Moved
move_client event client p w m = record {
  pubsub = record (m.pubsub) {
    sub_to_client =
        put event (erase client (find_or [] event m.pubsub.sub_to_client)) m.pubsub.sub_to_client;
    heap = erase p m.pubsub.heap;
  };
  spsw = m.spsw ++ get_simplepubsub_wrapper w ∷ [];
}

-- The loop, over the clients from the iterator on. `erase(itera++)` steps to the next client, and the
-- loop's own `++itera` steps over it: where there is none, it steps past `end()`.
pub redistribute_loop : Bytes → ℤ → Map Bytes ℕ → ℕ → Moved → Result Moved
redistribute_loop event diff [] count m = ok m
redistribute_loop event diff ((client, p) ∷ []) count m = do
  w ← deref p m.pubsub
  if eqb_ℤ (pos (suc count)) diff then ok (move_client event client p w m) else err bad_iterator
redistribute_loop event diff ((client, p) ∷ skipped ∷ clients) count m = deref p m.pubsub >>= λ w.
    let rest = redistribute_loop event diff clients (suc count) (move_client event client p w m) in
    if eqb_ℤ (pos (suc count)) diff then ok (move_client event client p w m) else rest

-- The requests to the destination. Of a subscription's metadata and match type nothing is kept.
pub resubscribe : SimplepubsubWrapper → SubscribeRequest
resubscribe w = record {
  events = w.event_list;
  client_id = w.client_id;
  notify_server = w.peer_url;
  source = source_ingroup;
  match_type = codes "NAME";
  metadata = codes "testMeta";
}

resubscribe_all : List SimplepubsubWrapper → List SubscribeRequest
unfolding resubscribe
resubscribe_all [] = []
resubscribe_all (w ∷ ws) = resubscribe w ∷ resubscribe_all ws

-- `RedistributeSub`: the requests that it sends to `destaddr`, in order.
pub redistribute_sub :
    Bytes → ℤ → tpst.PubSub.State.State → Result (List SubscribeRequest × tpst.PubSub.State.State)
unfolding redistribute_loop resubscribe_all
redistribute_sub event diff s = elim (find event s.sub_to_client) [
  | none ↦ ok ([], s)
  | some clients ↦
      redistribute_loop event diff clients 0 (record { pubsub = s; spsw = [] }) >>= λ m.
      ok (resubscribe_all m.spsw, m.pubsub)
]

-- A `RedistributeSub` request, to `src_addr`.
pub record RedistributeRequest : Type 0 where
  pub subevent : Bytes
  pub src_addr : Bytes
  pub dest_addr : Bytes
  pub diff : ℤ

-- `RedistributeByPlan`: the requests that it sends. The number that it records for the source is that
-- of this server's own clients, and `subtoClient[moveEvent]` enters an unknown event.
unfoldable pub redistribute_by_plan :
    List Plan → ServerState → List RedistributeRequest × ServerState
redistribute_by_plan [] s = ([], s)
redistribute_by_plan (plan ∷ plans) s =
    let event = plan.move_subscription in
    let rest = redistribute_by_plan plans (record s {
      event_record_map =
          assign event plan.src_addr (pos (size (find_or [] event s.pubsub.sub_to_client)))
            s.event_record_map;
      pubsub = record (s.pubsub) { sub_to_client = touch [] event s.pubsub.sub_to_client };
    }) in
    (
      record {
        subevent = event;
        src_addr = plan.src_addr;
        dest_addr = plan.dest_addr;
        diff = plan.move_number;
      }
          ∷ rest.0,
      rest.1,
    )
