-- ===== src/Tests/Waits.antt =====
-- src/server/pubsub.cc with a client that waits for two publications of `T1` and one of `T2`.
use tpst.Prelude.{
  ◌≡◌, ◌↔◌, refl, true, false, List, [], ◌∷◌, ◌++◌, some, pos, Bytes, codes, bytes_eq, bytes_lt, ok,
  arith, eqb_ℤ, eqb_ℤ_iff, Bool-cases, inl, inr,
}
use tpst.Utils.Split.{split}
use tpst.Utils.Stoi.{stoi}
use tpst.StdMap.{bytes_key, nat_key, find, find_or, put, insert}
use tpst.PubSub.State.{PubsubWrapper, State, init}
use tpst.PubSub.Event.{parse_event}
use tpst.PubSub.Subscribe.{
  pubsub_subscribe, add_new_client, add_events, index_event, require, link, new_wrapper,
}
use tpst.PubSub.Publish.{pubsub_publish}
use tpst.PubSub.Publish.Occurrences.{WasComplete, AsksPositive}
use tpst.PubSub.Publish.Together.{subscription_completes, overtaken_never}
use tpst.PubSub.Invariant.{init-IsWellFormed}

abbrev request : List Bytes
request = codes "T1:2" ∷ codes "T2" ∷ []

abbrev waiting : State
waiting = record {
  sub_to_client = (codes "T1", (codes "c", 0) ∷ []) ∷ [];
  get_index_map = (codes "T1", codes "T1" ∷ []) ∷ (codes "T2", codes "T1" ∷ []) ∷ [];
  heap =
      (
        0,
        new_wrapper (codes "c") (codes "addr") (codes "NAME") (codes "meta")
            ((codes "T1", pos 2 ∷ []) ∷ (codes "T2", pos 1 ∷ []) ∷ []),
      )
      ∷ [];
  next = 1;
}

subscribe_two :
    pubsub_subscribe request (codes "c") (codes "addr") (codes "NAME") (codes "meta") init
    ≡ ok waiting
unfolding pubsub_subscribe add_new_client parse_event split stoi add_events index_event require link
    put find find_or insert bytes_eq bytes_lt
subscribe_two = refl

request-AsksPositive : AsksPositive request
unfolding parse_event split stoi bytes_eq
request-AsksPositive event n asked = elim (Bool-cases (eqb_ℤ (pos 2) n)) [
  | inl two ↦ (1, ground (arith, two, eqb_ℤ_iff (pos 2) n))
  | inr other ↦ (0, ground (arith, asked, other, eqb_ℤ_iff (pos 1) n))
]

subscription_completes_example :
    (after : State) × (w : PubsubWrapper) × (pubsub_publish
        (codes "T1" ∷ codes "T2" ∷ codes "T1" ∷ [])
        (codes "NAME")
        (codes "m")
        waiting
      ≡ ok after)
    × (find 0 after.heap ≡ some w)
    × (w.client_id ≡ codes "c")
    × ((w.iftrigure ≡ true) ↔ WasComplete request (codes "T1" ∷ codes "T2" ∷ codes "T1" ∷ []))
subscription_completes_example =
    subscription_completes (codes "c") (codes "addr") (codes "NAME") (codes "meta") (codes "T1:2")
      (codes "T2" ∷ []) init waiting init-IsWellFormed request-AsksPositive subscribe_two
      (codes "T1" ∷ codes "T2" ∷ codes "T1" ∷ []) (codes "m")

-- Three publications of `T1` before the first of `T2`.
overtaken_never_example :
    (after : State) × (w : PubsubWrapper) × (pubsub_publish
        ((codes "T1" ∷ codes "T1" ∷ codes "T1" ∷ []) ++ (codes "T2" ∷ codes "T1" ∷ []))
        (codes "NAME")
        (codes "m")
        waiting
      ≡ ok after)
    × (find 0 after.heap ≡ some w)
    × (w.client_id ≡ codes "c")
    × (w.iftrigure ≡ false)
unfolding parse_event split stoi bytes_eq
overtaken_never_example =
    overtaken_never (codes "c") (codes "addr") (codes "NAME") (codes "meta") (codes "T1:2")
      (codes "T2" ∷ []) init waiting (codes "T1") (codes "T2") 2 1 init-IsWellFormed
      request-AsksPositive refl refl subscribe_two (codes "T1" ∷ codes "T1" ∷ codes "T1" ∷ [])
      (codes "T2" ∷ codes "T1" ∷ []) (codes "m") (omega arith) (omega arith)
