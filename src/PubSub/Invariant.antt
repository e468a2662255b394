-- ===== src/PubSub/Invariant.antt =====
-- The invariant of the tables of src/server/pubsub.cc, and the operations that keep it.
use tpst.Prelude.{
  All, refl, ℕ, ◌<◌, ◌≡◌, ◌≢◌, true, false, ◌&&◌, List, [], ◌∷◌, none, some, Bytes, bytes_eq,
  bytes_eq_iff, ℤ, ok, ok-injective, arith, Bool-cases, inl, inr, if◌then◌else◌, ◌==◌, Option-cases,
}
use mathlib.Core.Path.{subst}
use tpst.StdMap.{bytes_key, nat_key, Map, find, find_or, put, erase, contains, keys}
use tpst.StdMap.Laws.{find-put, find_or-put, find-erase}
use tpst.StdMap.Sorted.{IsSorted, put-IsSorted, erase-IsSorted}
use tpst.PubSub.State.{PubsubWrapper, State, init}
use tpst.PubSub.Event.{parse_event}
use tpst.PubSub.Subscribe.{
  index_event, require, add_events, link, add_new_client, event_unsubscribe, delete_client,
  pubsub_subscribe,
}
use tpst.PubSub.Subscribe.Spec.{
  entry, subscribed_state, add_events-set, add_events-indexes, entry-link, add_new_client_cases,
}

-- Every index event that an event leads to has a table of clients; every address in those tables is
-- allocated, was handed out before, and stands in one place only; sets and tables have no duplicates.
pub record IsWellFormed (s : State) : Type 0 where
  pub indexed :
      (e i : Bytes)
      → contains i (find_or [] e s.get_index_map) ≡ true
      → find i s.sub_to_client ≢ none
  pub live :
      (i c : Bytes) (p : ℕ) → entry i c s ≡ some p → (w : PubsubWrapper) × (find p s.heap ≡ some w)
  pub used : (i c : Bytes) (p : ℕ) → entry i c s ≡ some p → p < s.next
  pub unique :
      (i c j d : Bytes) (p : ℕ) → entry i c s ≡ some p → entry j d s ≡ some p → (i ≡ j) × (c ≡ d)
  pub index_sets : (e : Bytes) → IsSorted (find_or [] e s.get_index_map)
  pub client_tables : (i : Bytes) → IsSorted (keys (find_or [] i s.sub_to_client))

pub init-IsWellFormed : IsWellFormed init
unfolding find find_or contains
init-IsWellFormed = record {
  indexed = λ e i h. cc;
  live = λ i c p h. cc;
  used = λ i c p h. cc;
  unique = λ i c j d p h k. cc;
  index_sets = λ e. tt;
  client_tables = λ i. tt;
}

-- The table of an index event after `link`.
find-link :
    (i index client : Bytes) (p : ℕ) (m : Map Bytes (Map Bytes ℕ))
    → find i (link index client p m)
      ≡ (if bytes_eq index i then some (put client p (find_or [] index m)) else find i m)
unfolding link
find-link i index client p m = find-put i index (put client p (find_or [] index m)) m

pub find_or-link :
    (i index client : Bytes) (p : ℕ) (m : Map Bytes (Map Bytes ℕ))
    → find_or [] i (link index client p m)
      ≡ (if bytes_eq index i then put client p (find_or [] index m) else find_or [] i m)
unfolding link
find_or-link i index client p m = find_or-put [] i index (put client p (find_or [] index m)) m

-- A write keeps what is allocated so, and allocates its own address.
pub put-live :
    (p q : ℕ) (v : PubsubWrapper) (heap : Map ℕ PubsubWrapper)
    → ((p == q) ≡ false → (w : PubsubWrapper) × (find q heap ≡ some w))
    → (w : PubsubWrapper) × (find q (put p v heap) ≡ some w)
put-live p q v heap old = elim (Bool-cases (p == q)) [
  | inl e ↦ (v, rw find-put (rw e))
  | inr e ↦ let (w, l) = old e in (w, rw find-put (rw e l))
]

module _ (client addr mt meta full : Bytes) (events : List Bytes) (s : State)
    (wf : IsWellFormed s) where
  subscribed_state-IsWellFormed :
      (p : Bytes × ℤ) (r : Map Bytes (List Bytes) × Map Bytes (List ℤ))
      → parse_event full ≡ ok p
      → add_events p.0 (full ∷ events) s.get_index_map [] ≡ ok r
      → IsWellFormed (subscribed_state p.0 client addr mt meta r s)
  subscribed_state-IsWellFormed p r first added = record {
    indexed = λ e i h. ground (
      arith,
      add_events-indexes p.0 (full ∷ events) s.get_index_map [] r e i added,
      find-link i p.0 client s.next s.sub_to_client,
      wf.indexed e i,
    );
    live = λ i c q h.
        put-live s.next q _ s.heap
          λ e. wf.live i c q (ground (arith, entry-link i c p.0 client s.next s.sub_to_client));
    used =
        λ i c q h. ground (arith, entry-link i c p.0 client s.next s.sub_to_client, wf.used i c q);
    unique = λ i c j d q h k. ground (
      arith,
      entry-link i c p.0 client s.next s.sub_to_client,
      entry-link j d p.0 client s.next s.sub_to_client,
      wf.used i c q,
      wf.used j d q,
      wf.unique i c j d q,
      bytes_eq_iff p.0 i,
      bytes_eq_iff p.0 j,
      bytes_eq_iff client c,
      bytes_eq_iff client d,
    );
    index_sets = add_events-set p.0 (full ∷ events) s.get_index_map [] r added wf.index_sets;
    client_tables = λ i. ground (
      arith,
      find_or-link i p.0 client s.next s.sub_to_client,
      wf.client_tables i,
      put-IsSorted client s.next (find_or [] p.0 s.sub_to_client) (wf.client_tables p.0),
    );
  }

-- A subscription that returns keeps the invariant of the tables.
pub pubsub_subscribe-IsWellFormed :
    (events : List Bytes) (client notify_addr match_type sub_metadata : Bytes) (s s' : State)
    → IsWellFormed s
    → pubsub_subscribe events client notify_addr match_type sub_metadata s ≡ ok s'
    → IsWellFormed s'
unfolding pubsub_subscribe add_new_client
pubsub_subscribe-IsWellFormed [] client addr mt meta s s' wf h =
    subst IsWellFormed (ok-injective h) wf
pubsub_subscribe-IsWellFormed (full ∷ events) client addr mt meta s s' wf h =
    add_new_client_cases client addr mt meta full events s IsWellFormed
      (subscribed_state-IsWellFormed client addr mt meta full events s wf) s' h

module _ (event client : Bytes) (s : State) (wf : IsWellFormed s) where
  -- The table of one index event after a client was dropped from it.
  pub entry-drop :
      (i c : Bytes)
      → find c (
          find_or [] i
            (put event (erase client (find_or [] event s.sub_to_client)) s.sub_to_client))
        ≡ (if bytes_eq event i && bytes_eq client c then none else entry i c s)
  entry-drop i c = ground (
    arith,
    find_or-put [] i event (erase client (find_or [] event s.sub_to_client)) s.sub_to_client,
    find-erase c client (find_or [] event s.sub_to_client),
    bytes_eq_iff event i,
  )

  -- Dropping a client keeps the invariant.
  pub delete_client-IsWellFormed : IsWellFormed (delete_client event client s)
  unfolding delete_client
  delete_client-IsWellFormed = record {
    indexed = λ e i h. ground (
      arith,
      find-put i event (erase client (find_or [] event s.sub_to_client)) s.sub_to_client,
      wf.indexed e i,
    );
    live = λ i c p h. wf.live i c p (ground (arith, entry-drop i c));
    used = λ i c p h. ground (arith, entry-drop i c, wf.used i c p);
    unique = λ i c j d p h k. ground (arith, entry-drop i c, entry-drop j d, wf.unique i c j d p);
    index_sets = wf.index_sets;
    client_tables = λ i. ground (
      arith,
      find_or-put [] i event (erase client (find_or [] event s.sub_to_client)) s.sub_to_client,
      wf.client_tables i,
      erase-IsSorted client (find_or [] event s.sub_to_client) (wf.client_tables event),
    );
  }

  -- `eventUnSubscribe` drops the client or changes nothing.
  pub event_unsubscribe_cases :
      (P : State → Type 0)
      → P s
      → P (delete_client event client s)
      → P (event_unsubscribe event client s)
  unfolding event_unsubscribe
  event_unsubscribe_cases P unknown known = elim (Option-cases (find event s.sub_to_client)) [
    | inl e ↦ rw (e, event_unsubscribe) unknown
    | inr (clients, e) ↦ elim (Option-cases (find client clients)) [
      | inl n ↦ rw (e, event_unsubscribe, n) unknown
      | inr (p, l) ↦ rw (e, event_unsubscribe, l) known
    ]
  ]

  -- `eventUnSubscribe` keeps the invariant of the tables, whether it finds the client or not.
  pub event_unsubscribe-IsWellFormed : IsWellFormed (event_unsubscribe event client s)
  event_unsubscribe-IsWellFormed =
      event_unsubscribe_cases IsWellFormed wf delete_client-IsWellFormed

-- An event that `ParseEvent` reads.
abbrev pub Parses : Bytes → Type 0
Parses full = (p : Bytes × ℤ) × (parse_event full ≡ ok p)

add_events-Parses :
    (index : Bytes) (events : List Bytes) (indexes : Map Bytes (List Bytes))
    (required : Map Bytes (List ℤ))
    → All Parses events
    → (r : Map Bytes (List Bytes) × Map Bytes (List ℤ)) × (add_events index events indexes required
        ≡ ok r)
unfolding add_events
add_events-Parses index [] indexes required parses = ((indexes, required), refl)
add_events-Parses index (full ∷ events) indexes required parses =
    let (p, parsed) = parses.0 in
    let (r, added) =
      add_events-Parses index events (index_event p.0 index indexes) (require p.0 p.1 required)
        parses.1 in
    (r, rw (parsed) added)

-- A request whose events can all be read is answered, and the tables stay well-formed.
pub pubsub_subscribe-Parses :
    (events : List Bytes) (client notify_addr match_type sub_metadata : Bytes) (s : State)
    → IsWellFormed s
    → All Parses events
    → (s' : State) × (pubsub_subscribe events client notify_addr match_type sub_metadata s ≡ ok s')
      × IsWellFormed s'
unfolding pubsub_subscribe add_new_client
pubsub_subscribe-Parses [] client addr mt meta s wf parses = (s, refl, wf)
pubsub_subscribe-Parses (full ∷ events) client addr mt meta s wf parses =
    let (p, parsed) = parses.0 in
    let (r, added) = add_events-Parses p.0 (full ∷ events) s.get_index_map [] parses in
    (
      subscribed_state p.0 client addr mt meta r s,
      rw (parsed, added) refl,
      subscribed_state-IsWellFormed client addr mt meta full events s wf p r parsed added,
    )
