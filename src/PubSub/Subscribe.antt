-- ===== src/PubSub/Subscribe.antt =====
-- Subscriptions in src/server/pubsub.cc: `addNewClient`, and the functions that read or drop them.
pub mod Spec
pub mod Number
pub mod Local
use tpst.Prelude.{
  ℕ, zero, suc, ◌+◌, ◌≡◌, refl, Bool, true, false, List, [], ◌∷◌, Option, none, some, ℤ, Bytes,
  codes, Result, ok, err, ◌>>=◌,
}
use tpst.StdMap.{
  bytes_key, int_key, nat_key, Map, find, find_or, put, erase, insert, keys, size, touch,
}
use tpst.PubSub.State.{PubsubWrapper, SimplepubsubWrapper, State}
use tpst.PubSub.Event.{parse_event}

abbrev IndexMap : Type 0
IndexMap = Map Bytes (List Bytes)

-- `getIndexMap[eventWithoutNum]` gets the index event, in a new set where it had none.
unfoldable pub index_event : Bytes → Bytes → IndexMap → IndexMap
index_event event index m = elim (find event m) [
  | some indexes ↦ put event (insert index indexes) m
  | none ↦ put event (index ∷ []) m
]

-- `psw->requiredeventMap[eventWithoutNum].insert(requireNum)`
unfoldable pub require : Bytes → ℤ → Map Bytes (List ℤ) → Map Bytes (List ℤ)
require event n m = put event (insert n (find_or [] event m)) m

-- The loop over `eventList`.
unfoldable pub add_events :
    Bytes → List Bytes → IndexMap → Map Bytes (List ℤ) → Result (IndexMap × Map Bytes (List ℤ))
unfolding index_event require
add_events index [] indexes required = ok (indexes, required)
add_events index (full ∷ events) indexes required = parse_event full >>= λ e.
    add_events index events (index_event e.0 index indexes) (require e.0 e.1 required)

-- `subtoClient[indexEventWithoutNum][clientid] = psw`
unfoldable pub link : Bytes → Bytes → ℕ → Map Bytes (Map Bytes ℕ) → Map Bytes (Map Bytes ℕ)
link index client p m = put index (put client p (find_or [] index m)) m

-- The wrapper that `addNewClient` fills in.
abbrev pub new_wrapper : Bytes → Bytes → Bytes → Bytes → Map Bytes (List ℤ) → PubsubWrapper
new_wrapper client notify_addr match_type sub_metadata required = record {
  peer_url = notify_addr;
  client_id = client;
  sub_metadata = sub_metadata;
  pub_metadata = [];
  match_type = match_type;
  iftrigure = false;
  published_event = [];
  required_event_map = required;
}

-- The first event of the list is the index. Without one there is a message and no subscription.
unfoldable pub add_new_client : Bytes → Bytes → List Bytes → Bytes → Bytes → State → Result State
add_new_client client notify_addr [] match_type sub_metadata s = ok s
add_new_client client notify_addr (full ∷ events) match_type sub_metadata s = do
  e ← parse_event full
  r ← add_events e.0 (full ∷ events) s.get_index_map []
  ok (record {
    sub_to_client = link e.0 client s.next s.sub_to_client;
    get_index_map = r.0;
    heap = put s.next (new_wrapper client notify_addr match_type sub_metadata r.1) s.heap;
    next = suc s.next;
  })

unfoldable pub pubsub_subscribe : List Bytes → Bytes → Bytes → Bytes → Bytes → State → Result State
pubsub_subscribe event_list client notify_addr match_type sub_metadata s =
    add_new_client client notify_addr event_list match_type sub_metadata s

-- `deleteClient`: `subtoClient[subevent].erase(clientid)`.
unfoldable pub delete_client : Bytes → Bytes → State → State
delete_client event client s = record s {
  sub_to_client = put event (erase client (find_or [] event s.sub_to_client)) s.sub_to_client;
}

-- `eventUnSubscribe` looks for the event and for the client first.
unfoldable pub event_unsubscribe : Bytes → Bytes → State → State
event_unsubscribe event client s = elim (find event s.sub_to_client) [
  | none ↦ s
  | some clients ↦ elim (find client clients) [ none ↦ s | some p ↦ delete_client event client s ]
]

-- The number of clients whose index event is one of `events`.
unfoldable pub get_subscribed_clients_number : List Bytes → State → ℕ
get_subscribed_clients_number [] s = 0
get_subscribed_clients_number (event ∷ events) s =
    elim (find event s.sub_to_client) [ none ↦ 0 | some clients ↦ size clients ]
    + get_subscribed_clients_number events s

unfoldable pub get_simplepubsub_wrapper : PubsubWrapper → SimplepubsubWrapper
get_simplepubsub_wrapper psw = record {
  event_list = keys psw.required_event_map;
  peer_url = psw.peer_url;
  client_id = psw.client_id;
  sub_metadata = psw.sub_metadata;
}

-- `deletePubEvent`
abbrev pub delete_pub_event : PubsubWrapper → PubsubWrapper
delete_pub_event psw = record psw { published_event = [] }
