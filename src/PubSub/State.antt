-- ===== src/PubSub/State.antt =====
-- The data of src/server/pubsub.h. A `pubsubWrapper *` is a number, its address in `heap`.
use tpst.Prelude.{ℕ, Bool, List, [], none, some, ℤ, Bytes, Result, ok, err, dangling}
use tpst.StdMap.{Map, find, put, nat_key}

pub record PubsubWrapper : Type 0 where
  pub peer_url : Bytes
  pub client_id : Bytes
  pub sub_metadata : Bytes
  pub pub_metadata : Bytes
  pub match_type : Bytes
  pub iftrigure : Bool
  pub published_event : Map Bytes ℤ
  pub required_event_map : Map Bytes (List ℤ)

pub record SimplepubsubWrapper : Type 0 where
  pub event_list : List Bytes
  pub peer_url : Bytes
  pub client_id : Bytes
  pub sub_metadata : Bytes

-- The global tables. `heap` holds the wrappers that are allocated and not deleted, and `next` is an
-- address that was never used.
pub record State : Type 0 where
  pub sub_to_client : Map Bytes (Map Bytes ℕ)
  pub get_index_map : Map Bytes (List Bytes)
  pub heap : Map ℕ PubsubWrapper
  pub next : ℕ

abbrev pub init : State
init = record { sub_to_client = []; get_index_map = []; heap = []; next = 0 }

-- `*p`
unfoldable pub deref : ℕ → State → Result PubsubWrapper
deref p s = elim (find p s.heap) [ none ↦ err dangling | some w ↦ ok w ]

-- `*p = w`
abbrev pub store : ℕ → PubsubWrapper → State → State
store p w s = record s { heap = put p w s.heap }
