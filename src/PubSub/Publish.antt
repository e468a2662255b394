-- ===== src/PubSub/Publish.antt =====
-- `pubsubPublish` of src/server/pubsub.cc, by its loops: over the events, over the index events of one
-- event, and over the clients below one index event.
pub mod Spec
pub mod Tables
pub mod Delivery
pub mod Gridded
pub mod Timing
pub mod Occurrences
pub mod Tracks
pub mod Together
use tpst.Prelude.{
  ℕ, ◌≡◌, refl, Bool, true, false, List, [], ◌∷◌, Option, none, some, ℤ, pos, ◌+ℤ◌, Bytes, codes,
  bytes_eq, Result, ok, err, ◌>>=◌, dangling, if◌then◌else◌,
}
use tpst.StdMap.{bytes_key, Map, find, find_or, put}
use tpst.PubSub.State.{PubsubWrapper, State, deref, store}
use tpst.PubSub.Trigger.{check_if_triggure}
use tpst.PubSub.Grid.{check_if_triggure_meta_grid}

-- `publishedEvent[eventwithoutNum]++`, from 0 where it is missing.
unfoldable pub count_event : Bytes → PubsubWrapper → PubsubWrapper
count_event event w = record w {
  published_event = put event (find_or (pos 0) event w.published_event +ℤ pos 1) w.published_event;
}

-- What the match does to the wrapper, and `tempiftrigure`.
pub match_wrapper : Bytes → Bytes → Bytes → PubsubWrapper → Result (PubsubWrapper × Bool)
match_wrapper match_type metadata event w =
    if bytes_eq match_type (codes "NAME")
    then (let w' = count_event event w in ok (w', check_if_triggure w'))
    else if bytes_eq match_type (codes "META_GRID")
    then (do b ← check_if_triggure_meta_grid w metadata; ok (w, b))
    else ok (w, false)

-- `subtoClient[indexEvent][clientId]`. A missing client would be inserted as a null pointer.
pub pointer_at : Bytes → Bytes → State → Result ℕ
pointer_at index client s = elim (find client (find_or [] index s.sub_to_client)) [
  | none ↦ err dangling
  | some p ↦ ok p
]

abbrev pub mark : Bytes → PubsubWrapper → PubsubWrapper
mark metadata w = record w { pub_metadata = metadata; iftrigure = true }

-- `if (tempiftrigure == true)`
pub mark_triggered : Bytes → Bytes → Bytes → Bool → State → Result State
mark_triggered metadata index client false s = ok s
mark_triggered metadata index client true s = do
  p ← pointer_at index client s
  w ← deref p s
  ok (store p (mark metadata w) s)

pub publish_client : Bytes → Bytes → Bytes → Bytes → Bytes → ℕ → State → Result State
publish_client match_type metadata event index client p s = do
  w ← deref p s
  r ← match_wrapper match_type metadata event w
  mark_triggered metadata index client r.1 (store p r.0 s)

module _ (match_type metadata event : Bytes) where
  -- The loop over a copy of the clients below `index`.
  pub publish_clients : Bytes → Map Bytes ℕ → State → Result State
  publish_clients index [] s = ok s
  publish_clients index ((client, p) ∷ clients) s =
      publish_client match_type metadata event index client p s >>= λ s'.
      publish_clients index clients s'

  -- The loop over a copy of the index set. An index without clients ends the whole function: the
  -- answer says whether it went on.
  pub publish_indexes : List Bytes → State → Result (Bool × State)
  publish_indexes [] s = ok (true, s)
  publish_indexes (index ∷ indexes) s = elim (find index s.sub_to_client) [
    | none ↦ ok (false, s)
    | some clients ↦ publish_clients index clients s >>= λ s'. publish_indexes indexes s'
  ]

module _ (match_type metadata : Bytes) where
  pub publish_event : Bytes → State → Result (Bool × State)
  publish_event event s = elim (find event s.get_index_map) [
    | none ↦ ok (true, s)
    | some indexes ↦ publish_indexes match_type metadata event indexes s
  ]

  pub publish_events : List Bytes → State → Result State
  publish_events [] s = ok s
  publish_events (event ∷ events) s = publish_event event s >>= λ r.
      let rest = publish_events events r.1 in if r.0 then rest else ok r.1

pub pubsub_publish : List Bytes → Bytes → Bytes → State → Result State
unfolding publish_events
pubsub_publish event_list match_type metadata s = publish_events match_type metadata event_list s
