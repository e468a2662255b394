-- ===== src/PublishClient/Stub.antt =====
-- The requests of `GreeterClient`, src/publishclient/pubsubclient.cc, and the publication and the
-- subscription of a client up to the reply, src/observer/eventmanager.cpp.
use tpst.Prelude.{
  ℕ, suc, ◌≡◌, ◌∙◌, sym, List, [], ◌∷◌, ◌++◌, Option, none, some, ℤ, negsuc, Bytes, codes, Result,
  ok, err, bad_index, ◌>>=◌,
}
use mathlib.Core.List.{append_assoc, append-nil}
use tpst.StdMap.{bytes_key, Map, put}
use tpst.Rpc.{refused, answered, Stub, call}
use tpst.GroupManager.{FileSystem}
use tpst.Server.State.{source_client}
use tpst.Server.Handlers.{PublishRequest, RecordRequest}
use tpst.Server.Redistribute.{SubscribeRequest, RedistributeRequest}
use tpst.PublishClient.{Clients, EventTriggure, get_client_from_event}

-- The loop of `add_pubsubmessage`, or of `add_subevent`.
unfoldable pub add_messages : List Bytes → List Bytes → List Bytes
add_messages request [] = request
add_messages request (event ∷ events) = add_messages (request ++ event ∷ []) events

pub record NotifyRequest : Type 0 where
  pub client_id : Bytes
  pub metadata : Bytes

module _ {ℓ} {S : Type ℓ} where
  unfoldable pub notify_back : Stub S NotifyRequest Bytes → Bytes → Bytes → S → Bytes × S
  notify_back stub client_id metadata s =
      call stub (record { client_id = client_id; metadata = metadata }) s

  unfoldable pub say_hello : Stub S Bytes Bytes → Bytes → S → Bytes × S
  say_hello stub user s = call stub user s

  unfoldable pub stub_subscribe :
      Stub S SubscribeRequest Bytes
      → List Bytes
      → Bytes
      → Bytes
      → Bytes
      → Bytes
      → Bytes
      → S
      → Bytes × S
  unfolding add_messages
  stub_subscribe stub events client_id notify_addr source match_type metadata s =
      call stub
        (record {
          events = add_messages [] events;
          client_id = client_id;
          notify_server = notify_addr;
          source = source;
          match_type = match_type;
          metadata = metadata;
        })
        s

  unfoldable pub stub_publish :
      Stub S PublishRequest Bytes → List Bytes → Bytes → Bytes → Bytes → S → Bytes × S
  unfolding add_messages
  stub_publish stub events source metadata match_type s =
      call stub
        (record {
          events = add_messages [] events;
          source = source;
          metadata = metadata;
          match_type = match_type;
        })
        s

  -- -1 is a call that failed.
  unfoldable pub stub_get_subscribed_number : Stub S (List Bytes) ℤ → List Bytes → S → ℤ × S
  unfolding add_messages
  stub_get_subscribed_number stub events s =
      let reply = stub (add_messages [] events) s in
      (elim reply.0 [ refused ↦ negsuc 0 | answered n ↦ n ], reply.1)

  unfoldable pub stub_record_sub : Stub S RecordRequest Bytes → Bytes → Bytes → ℤ → S → Bytes × S
  stub_record_sub stub event server_addr n s =
      call stub (record { subevent = event; serveraddr = server_addr; subnum = n }) s

  unfoldable pub stub_redistribute_sub :
      Stub S RedistributeRequest Bytes → Bytes → Bytes → Bytes → ℤ → S → Bytes × S
  stub_redistribute_sub stub event src dst n s =
      call stub (record { subevent = event; src_addr = src; dest_addr = dst; diff = n }) s

  unfoldable pub stub_update_cluster : Stub S Bytes Bytes → Bytes → S → Bytes × S
  stub_update_cluster stub dir s = call stub dir s

-- The request that the loop builds has the events in their order.
pub add_messages-append :
    (request events : List Bytes) → add_messages request events ≡ request ++ events
unfolding add_messages
add_messages-append request [] = sym (append-nil request)
add_messages-append request (event ∷ events) =
    add_messages-append (request ++ event ∷ []) events ∙ append_assoc request (event ∷ []) events

module _ {ℓ} {S : Type ℓ} (fs : FileSystem) where
  -- `eventPublish`: the reply, if there was a client. `connect` is the channel to an address.
  unfoldable pub publish_event_list :
      (Bytes → Stub S PublishRequest Bytes)
      → List Bytes
      → Bytes
      → ℕ
      → ℕ
      → fs.Disk
      → Clients
      → S
      → Result (Option Bytes × Clients × S)
  unfolding get_client_from_event stub_publish
  publish_event_list connect [] metadata random groups d c s = err bad_index
  publish_event_list connect (event ∷ events) metadata random groups d c s = do
    (client, c') ← get_client_from_event fs event random groups d c
    elim client [
      | none ↦ ok (none, c', s)
      | some addr ↦
          let reply =
            stub_publish (connect addr) (event ∷ events) source_client metadata (codes "NAME") s in
          ok (some reply.0, c', reply.1)
    ]

  -- `eventSubscribe`: the reply, and `SubscribedClient`.
  unfoldable pub event_subscribe :
      (Bytes → Stub S SubscribeRequest Bytes)
      → EventTriggure
      → Bytes
      → Bytes
      → Bytes
      → ℕ
      → ℕ
      → fs.Disk
      → ℕ
      → Clients
      → S
      → Result (Option Bytes × ℕ × Clients × S)
  unfolding get_client_from_event stub_subscribe
  event_subscribe connect t client_id notify_addr event random groups d subscribed c s = do
    (client, c') ← get_client_from_event fs event random groups d c
    elim client [
      | none ↦ ok (none, subscribed, c', s)
      | some addr ↦
          let reply =
            stub_subscribe (connect addr) t.event_sub_list client_id notify_addr source_client
              t.match_type t.meta_data s in
          ok (some reply.0, suc subscribed, c', reply.1)
    ]

-- `fakeaddNewConfig`, which leaves the metadata empty.
unfoldable pub fake_add_new_config :
    Bytes
    → List Bytes
    → List Bytes
    → List Bytes
    → Bytes
    → Map Bytes EventTriggure
    → EventTriggure × Map Bytes EventTriggure
fake_add_new_config driver subs pubs actions id configs =
    let triggure : EventTriggure = record {
      match_type = codes "NAME";
      meta_data = [];
      driver = driver;
      event_sub_list = subs;
      event_pub_list = pubs;
      action_list = actions;
    } in
    (triggure, put id triggure configs)
