-- ===== src/PubSub/Publish/Delivery.antt =====
-- A whole call of `pubsubPublish` of src/server/pubsub.cc, for a match type whose match is known and for
-- the match type `NAME`.
use tpst.Prelude.{
  ℕ, ◌≡◌, refl, true, List, [], ◌∷◌, Option, none, some, Bytes, codes, ok, if◌then◌else◌, inl, inr,
  Option-cases, ap, ◌∙◌,
}
use mathlib.Core.Path.{subst}
use tpst.StdMap.{bytes_key, nat_key, Map, find, find_or, contains}
use tpst.StdMap.Laws.{find_or-some, find_or-none}
use tpst.StdMap.Sorted.{IsSorted}
use tpst.PubSub.State.{PubsubWrapper, State}
use tpst.PubSub.Subscribe.Spec.{entry}
use tpst.PubSub.Invariant.{IsWellFormed}
use tpst.PubSub.Publish.{publish_event, publish_events, pubsub_publish}
use tpst.PubSub.Publish.Spec.{Match, by_name, gets?, bump?}
use tpst.PubSub.Publish.Tables.{
  AllFit, Received, Received-live, Received-AllFit, reached, reached-nil, reached-contains,
  heap-IsWellFormed, publish_indexes-gets,
}

-- What a client below `index` gets of a list of events: each one that leads to `index`, in order.
module _ {match_type metadata : Bytes} (m : Match match_type metadata) where
  abbrev pub get_all :
      Bytes → Map Bytes (List Bytes) → List Bytes → Option PubsubWrapper → Option PubsubWrapper
  get_all index leads [] w = w
  get_all index leads (event ∷ events) w =
      get_all index leads events
        (if contains index (find_or [] event leads) then gets? m event w else w)

  -- `s'` is `s` after the delivery of `events`: nothing but the wrappers has changed, and the one of
  -- each client is the old one after what the client gets.
  pub record Got (events : List Bytes) (s s' : State) : Type 0 where
    pub same_clients : s'.sub_to_client ≡ s.sub_to_client
    pub same_leads : s'.get_index_map ≡ s.get_index_map
    pub well_formed : IsWellFormed s'
    pub clients :
        (i c : Bytes) (p : ℕ)
        → entry i c s ≡ some p
        → find p s'.heap ≡ get_all i s.get_index_map events (find p s.heap)

-- The same by name.
abbrev pub receive :
    Bytes
    → Bytes
    → Map Bytes (List Bytes)
    → List Bytes
    → Option PubsubWrapper
    → Option PubsubWrapper
receive metadata index leads [] w = w
receive metadata index leads (event ∷ events) w =
    receive metadata index leads events
      (if contains index (find_or [] event leads) then bump? metadata event w else w)

-- `s'` is `s` after the delivery of `events`: nothing but the wrappers has changed, and the one of
-- each client is the old one after what the client receives.
pub record Delivered (metadata : Bytes) (events : List Bytes) (s s' : State) : Type 0 where
  pub same_clients : s'.sub_to_client ≡ s.sub_to_client
  pub same_leads : s'.get_index_map ≡ s.get_index_map
  pub well_formed : IsWellFormed s'
  pub clients :
      (i c : Bytes) (p : ℕ)
      → entry i c s ≡ some p
      → find p s'.heap ≡ receive metadata i s.get_index_map events (find p s.heap)

module _ {match_type metadata : Bytes} (m : Match match_type metadata) where
  publish_event-gets :
      (event : Bytes) (s : State)
      → IsWellFormed s
      → AllFit m s.heap
      → (heap : Map ℕ PubsubWrapper) × (publish_event match_type metadata event s
          ≡ ok (true, record s { heap = heap }))
        × Received m event (reached s.sub_to_client (find_or [] event s.get_index_map)) s.heap heap
  unfolding publish_event
  publish_event-gets event s wf fits = elim (Option-cases (find event s.get_index_map)) [
    | inl e ↦ (
      s.heap,
      rw (e, publish_event),
      rw (find_or-none [] event s.get_index_map e) (λ q. rw (reached-nil s.sub_to_client q)),
    )
    | inr (indexes, e) ↦
        let same : find_or [] event s.get_index_map ≡ indexes =
          find_or-some [] event indexes s.get_index_map e in
        let (heap, done, r) =
          publish_indexes-gets m event indexes s wf fits (subst IsSorted same (wf.index_sets event))
            (λ i h. wf.indexed event i (rw same h)) in
        (heap, rw (e, publish_event) done, rw same r)
  ]

  publish_events-Got :
      (events : List Bytes) (s : State)
      → IsWellFormed s
      → AllFit m s.heap
      → (s' : State) × (publish_events match_type metadata events s ≡ ok s') × Got m events s s'
  unfolding publish_events
  publish_events-Got [] s wf fits = (
    s,
    refl,
    record { same_clients = refl; same_leads = refl; well_formed = wf; clients = λ i c p h. refl },
  )
  publish_events-Got (event ∷ events) s wf fits =
      let (heap, done, r) = publish_event-gets event s wf fits in
      let (s', done', d) =
        publish_events-Got events (record s { heap = heap })
          (heap-IsWellFormed s wf heap (Received-live m event _ s.heap heap r))
          (Received-AllFit m event _ s.heap heap r fits) in
      (
        s',
        rw (done, publish_events) done',
        record {
          same_clients = d.same_clients;
          same_leads = d.same_leads;
          well_formed = d.well_formed;
          clients = λ i c p h.
              d.clients i c p h
              ∙ ap (get_all m i s.get_index_map events)
                  (r p ∙ rw (reached-contains s wf i c p (find_or [] event s.get_index_map) h));
        },
      )

  pub pubsub_publish-Got :
      (events : List Bytes) (s : State)
      → IsWellFormed s
      → AllFit m s.heap
      → (s' : State) × (pubsub_publish events match_type metadata s ≡ ok s') × Got m events s s'
  unfolding pubsub_publish
  pubsub_publish-Got events s wf fits = publish_events-Got events s wf fits

bump?-gets? :
    (metadata event : Bytes) (o : Option PubsubWrapper)
    → gets? (by_name metadata) event o ≡ bump? metadata event o
unfolding by_name
bump?-gets? metadata event none = refl
bump?-gets? metadata event (some w) = refl

get_all-receive :
    (metadata index : Bytes) (leads : Map Bytes (List Bytes)) (events : List Bytes)
    (o : Option PubsubWrapper)
    → get_all (by_name metadata) index leads events o ≡ receive metadata index leads events o
get_all-receive metadata index leads [] o = refl
get_all-receive metadata index leads (event ∷ events) o = rw (bump?-gets? metadata event o) (
    get_all-receive metadata index leads events
      (if contains index (find_or [] event leads) then bump? metadata event o else o))

-- From well-formed tables a publication by name returns, keeps them well-formed and the clients where
-- they are, and every client receives, once and in order, exactly the events that lead to the index
-- event below which it is filed: each is counted, and the client is marked with the metadata where
-- its requirements are met.
pub pubsub_publish-Delivered :
    (events : List Bytes) (metadata : Bytes) (s : State)
    → IsWellFormed s
    → (s' : State) × (pubsub_publish events (codes "NAME") metadata s ≡ ok s')
      × Delivered metadata events s s'
unfolding by_name
pubsub_publish-Delivered events metadata s wf =
    let (s', done, d) = pubsub_publish-Got (by_name metadata) events s wf (λ q w f. tt) in
    (
      s',
      done,
      record {
        same_clients = d.same_clients;
        same_leads = d.same_leads;
        well_formed = d.well_formed;
        clients = λ i c p h.
            d.clients i c p h ∙ get_all-receive metadata i s.get_index_map events (find p s.heap);
      },
    )
