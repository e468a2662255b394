-- ===== src/Tests/Tables.antt =====
-- src/server/pubsub.cc on concrete tables.
use tpst.Prelude.{
  ◌≡◌, ◌↔◌, refl, true, List, [], ◌∷◌, none, some, ◌+◌, ℤ, pos, Bytes, codes, ok, err, bad_index,
  invalid_argument,
}
use tpst.StdMap.{bytes_key, int_key, nat_key, find, find_or, put, insert}
use tpst.Utils.Split.{split}
use tpst.Utils.Stoi.{stoi}
use tpst.PubSub.State.{PubsubWrapper, State, init}
use tpst.PubSub.Event.{parse_event}
use tpst.PubSub.Trigger.{check_if_triggure}
use tpst.PubSub.Trigger.Spec.{Requires, check_if_triggure_iff}
use tpst.PubSub.Subscribe.{
  index_event, require, add_events, link, new_wrapper, add_new_client, pubsub_subscribe,
  event_unsubscribe, get_subscribed_clients_number,
}
use tpst.PubSub.Subscribe.Spec.{entry, Subscribed, add_new_client-Subscribed}
use tpst.PubSub.Subscribe.Number.{times_named, event_unsubscribe-add_new_client}
use tpst.PubSub.Invariant.{
  IsWellFormed, init-IsWellFormed, pubsub_subscribe-IsWellFormed, pubsub_subscribe-Parses,
  event_unsubscribe-IsWellFormed,
}
use tpst.PubSub.Publish.{pubsub_publish}
use tpst.PubSub.Publish.Delivery.{Delivered, pubsub_publish-Delivered}

parse_event_tests :
    (parse_event (codes "T1") ≡ ok (codes "T1", pos 1))
    × (parse_event (codes "T1:3") ≡ ok (codes "T1", pos 3))
    × (parse_event (codes "") ≡ err bad_index)
    × (parse_event (codes "T1:x") ≡ err invalid_argument)
unfolding parse_event split stoi
parse_event_tests = (refl, refl, refl, refl)

-- A client that asks for the event `T1` twice.
abbrev pub wrapper : PubsubWrapper
wrapper =
    new_wrapper (codes "c") (codes "addr") (codes "NAME") (codes "meta")
      ((codes "T1", pos 2 ∷ []) ∷ [])

-- The tables with this client alone.
abbrev pub one_client : State
one_client = record {
  sub_to_client = (codes "T1", (codes "c", 0) ∷ []) ∷ [];
  get_index_map = (codes "T1", codes "T1" ∷ []) ∷ [];
  heap = (0, wrapper) ∷ [];
  next = 1;
}

subscribe_one :
    pubsub_subscribe
      (codes "T1:2" ∷ [])
      (codes "c")
      (codes "addr")
      (codes "NAME")
      (codes "meta")
      init
    ≡ ok one_client
unfolding pubsub_subscribe add_new_client parse_event split stoi add_events index_event require link
    put find find_or insert
subscribe_one = refl

pubsub_subscribe-Parses_example :
    (s' : State) × (pubsub_subscribe
        (codes "T1:2" ∷ codes "T2" ∷ [])
        (codes "d")
        (codes "addr")
        (codes "NAME")
        (codes "meta")
        init
      ≡ ok s')
    × IsWellFormed s'
unfolding parse_event split stoi
pubsub_subscribe-Parses_example =
    pubsub_subscribe-Parses (codes "T1:2" ∷ codes "T2" ∷ []) (codes "d") (codes "addr")
      (codes "NAME") (codes "meta") init init-IsWellFormed
      (((codes "T1", pos 2), refl), (((codes "T2", pos 1), refl), tt))

pub one_client-IsWellFormed : IsWellFormed one_client
one_client-IsWellFormed =
    pubsub_subscribe-IsWellFormed (codes "T1:2" ∷ []) (codes "c") (codes "addr") (codes "NAME")
      (codes "meta") init one_client init-IsWellFormed subscribe_one

event_unsubscribe-IsWellFormed_example :
    IsWellFormed (event_unsubscribe (codes "T1") (codes "c") one_client)
event_unsubscribe-IsWellFormed_example =
    event_unsubscribe-IsWellFormed (codes "T1") (codes "c") one_client one_client-IsWellFormed

add_new_client-Subscribed_example :
    Subscribed
      (codes "c")
      (codes "addr")
      (codes "NAME")
      (codes "meta")
      (codes "T1:2")
      []
      init
      one_client
unfolding pubsub_subscribe
add_new_client-Subscribed_example =
    add_new_client-Subscribed (codes "c") (codes "addr") (codes "NAME") (codes "meta")
      (codes "T1:2") [] init one_client subscribe_one

t1_twice : parse_event (codes "T1:2") ≡ ok (codes "T1", pos 2)
unfolding parse_event split stoi
t1_twice = refl

nothing_filed : entry (codes "T1") (codes "c") init ≡ none
unfolding find find_or
nothing_filed = refl

-- The client of `one_client` in empty tables.
event_unsubscribe-add_new_client_example :
    ((named : List Bytes)
      → (get_subscribed_clients_number named one_client
          ≡ times_named (codes "T1") named + get_subscribed_clients_number named init)
        × (get_subscribed_clients_number named
              (event_unsubscribe (codes "T1") (codes "c") one_client)
            ≡ get_subscribed_clients_number named init))
    × ((i c : Bytes)
        → entry i c (event_unsubscribe (codes "T1") (codes "c") one_client) ≡ entry i c init)
unfolding pubsub_subscribe
event_unsubscribe-add_new_client_example =
    event_unsubscribe-add_new_client (codes "c") (codes "addr") (codes "NAME") (codes "meta")
      (codes "T1:2") [] init (codes "T1") (pos 2) t1_twice nothing_filed init-IsWellFormed
      one_client subscribe_one

pubsub_publish-Delivered_example :
    (s' : State) × (pubsub_publish
        (codes "T1" ∷ codes "T2" ∷ [])
        (codes "NAME")
        (codes "m")
        one_client
      ≡ ok s')
    × Delivered (codes "m") (codes "T1" ∷ codes "T2" ∷ []) one_client s'
pubsub_publish-Delivered_example =
    pubsub_publish-Delivered (codes "T1" ∷ codes "T2" ∷ []) (codes "m") one_client
      one_client-IsWellFormed

check_if_triggure_iff_example :
    (check_if_triggure (record wrapper { published_event = (codes "T1", pos 2) ∷ [] }) ≡ true) ↔ (
      (event : Bytes) (n : ℤ)
      → Requires ((codes "T1", pos 2 ∷ []) ∷ []) event n
      → find event ((codes "T1", pos 2) ∷ []) ≡ some n)
check_if_triggure_iff_example =
    check_if_triggure_iff (record wrapper { published_event = (codes "T1", pos 2) ∷ [] }) (tt, tt)
