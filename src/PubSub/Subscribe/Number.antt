-- ===== src/PubSub/Subscribe/Number.antt =====
-- How `getSubscribedClientsNumber` of src/server/pubsub.cc follows subscriptions and unsubscriptions.
use tpst.Prelude.{
  ℕ, ◌+◌, ◌≡◌, ◌≢◌, refl, sym, ◌∙◌, ap, ◌&&◌, List, [], ◌∷◌, none, some, ℤ, Bytes, bytes_eq,
  bytes_eq_iff, bytes_eq_refl, ok, ok-injective, length, arith, if◌then◌else◌, inl, inr,
  Option-cases,
}
use tpst.StdMap.{bytes_key, Map, find, find_or, keys}
use tpst.StdMap.Laws.{find_or-put, find_or-some, find_or-none, size-put}
use tpst.StdMap.Sorted.{IsSorted, size-erase}
use tpst.PubSub.State.{State}
use tpst.PubSub.Event.{parse_event}
use tpst.PubSub.Subscribe.{
  link, add_new_client, pubsub_subscribe, delete_client, event_unsubscribe,
  get_subscribed_clients_number,
}
use tpst.PubSub.Subscribe.Spec.{entry, entry-link, add_new_client_cases}
use tpst.PubSub.Invariant.{IsWellFormed, find_or-link, entry-drop, pubsub_subscribe-IsWellFormed}

-- How often an event stands in a list.
abbrev pub times_named : Bytes → List Bytes → ℕ
times_named event [] = 0
times_named event (e ∷ events) = (if bytes_eq event e then 1 else 0) + times_named event events

-- The clients below an index event.
abbrev clients_below : Bytes → State → ℕ
clients_below i s = length (find_or [] i s.sub_to_client)

number-cons :
    (e : Bytes) (events : List Bytes) (s : State)
    → get_subscribed_clients_number (e ∷ events) s
      ≡ clients_below e s + get_subscribed_clients_number events s
unfolding get_subscribed_clients_number find_or
number-cons e events s = ground arith

-- A table that differs by one client below one event.
number-more :
    (index : Bytes) (s s' : State)
    → ((i : Bytes) → clients_below i s' ≡ (if bytes_eq index i then 1 else 0) + clients_below i s)
    → (events : List Bytes)
    → get_subscribed_clients_number events s'
      ≡ times_named index events + get_subscribed_clients_number events s
unfolding get_subscribed_clients_number
number-more index s s' more [] = refl
number-more index s s' more (e ∷ events) = omega (
  arith,
  number-cons e events s,
  number-cons e events s',
  more e,
  number-more index s s' more events,
)

size-link :
    (i index client : Bytes) (p : ℕ) (m : Map Bytes (Map Bytes ℕ))
    → find client (find_or [] index m) ≡ none
    → length (find_or [] i (link index client p m))
      ≡ (if bytes_eq index i then 1 else 0) + length (find_or [] i m)
size-link i index client p m new =
    rw find_or-link
      (ground (arith, size-put client p (find_or [] index m) new, bytes_eq_iff index i))

-- What `delete_client` takes out of the tables.
delete_client-below :
    (i index client : Bytes) (p : ℕ) (s : State)
    → IsSorted (keys (find_or [] index s.sub_to_client))
    → entry index client s ≡ some p
    → clients_below i s
      ≡ (if bytes_eq index i then 1 else 0) + clients_below i (delete_client index client s)
unfolding delete_client
delete_client-below i index client p s sorted there = rw find_or-put (
    ground (
      arith,
      size-erase client p (find_or [] index s.sub_to_client) sorted there,
      bytes_eq_iff index i,
    ))

absent_entry :
    (event client : Bytes) (p : ℕ) (s : State)
    → find event s.sub_to_client ≡ none
    → entry event client s ≢ some p
unfolding find
absent_entry event client p s absent there =
    cc (ap (find client) (sym (find_or-none [] event s.sub_to_client absent)) ∙ there)

delete_client-entry :
    (event client : Bytes) (s : State)
    → IsWellFormed s
    → (i c : Bytes)
    → entry i c (delete_client event client s)
      ≡ (if bytes_eq event i && bytes_eq client c then none else entry i c s)
unfolding delete_client
delete_client-entry event client s wf = entry-drop event client s wf

-- A client that is found is dropped.
event_unsubscribe-known :
    (event client : Bytes) (p : ℕ) (s : State)
    → entry event client s ≡ some p
    → event_unsubscribe event client s ≡ delete_client event client s
unfolding event_unsubscribe
event_unsubscribe-known event client p s there = elim (Option-cases (find event s.sub_to_client)) [
  | inl absent ↦ absurd (absent_entry event client p s absent there)
  | inr (clients, e) ↦
      let known : find client clients ≡ some p =
        ap (find client) (sym (find_or-some [] event clients s.sub_to_client e)) ∙ there in
      rw (e, event_unsubscribe, known) refl
]

-- A subscription of a client that is not yet filed below the index event, and the unsubscription that
-- follows it.
module _ (client addr mt meta full : Bytes) (events : List Bytes) (s : State) (index : Bytes)
    (number : ℤ) (first : parse_event full ≡ ok (index, number))
    (new : entry index client s ≡ none) where
  Filed : State → Type 0
  Filed s' =
      ((i : Bytes) → clients_below i s' ≡ (if bytes_eq index i then 1 else 0) + clients_below i s)
      × ((i c : Bytes)
          → entry i c s'
            ≡ (if bytes_eq index i && bytes_eq client c then some s.next else entry i c s))

  add_new_client-Filed :
      (s' : State) → add_new_client client addr (full ∷ events) mt meta s ≡ ok s' → Filed s'
  unfolding Filed
  add_new_client-Filed =
      add_new_client_cases client addr mt meta full events s Filed λ p r parsed added.
        let same : p.0 ≡ index = ap (λ q. q.0) (ok-injective (sym parsed ∙ first)) in
        rw same (
          λ i. size-link i index client s.next s.sub_to_client new,
          λ i c. entry-link i c index client s.next s.sub_to_client,
        )

  -- A subscription that returns, of a client that is not filed below the index event yet, makes the
  -- number of subscribed clients grow by one for each time that a list of events names the index event.
  -- The unsubscription from the index event then takes the number back, for every list, and leaves
  -- every entry of the table of clients as it was before.
  pub event_unsubscribe-add_new_client :
      IsWellFormed s
      → (s' : State) → add_new_client client addr (full ∷ events) mt meta s ≡ ok s'
      → ((named : List Bytes)
          → (get_subscribed_clients_number named s'
              ≡ times_named index named + get_subscribed_clients_number named s)
            × (get_subscribed_clients_number named (event_unsubscribe index client s')
                ≡ get_subscribed_clients_number named s))
        × ((i c : Bytes) → entry i c (event_unsubscribe index client s') ≡ entry i c s)
  unfolding Filed pubsub_subscribe
  event_unsubscribe-add_new_client wf s' h =
      let (grown, entries) = add_new_client-Filed s' h in
      let wf' : IsWellFormed s' =
        pubsub_subscribe-IsWellFormed (full ∷ events) client addr mt meta s s' wf h in
      let there : entry index client s' ≡ some s.next =
        ground (arith, entries index client, bytes_eq_refl index, bytes_eq_refl client) in
      rw (event_unsubscribe-known index client s.next s' there) (
        λ named.
            let more = number-more index s s' grown named in
            let less =
              number-more index (delete_client index client s') s'
                (λ i. delete_client-below i index client s.next s' (wf'.client_tables index) there)
                named in
            (more, omega (arith, more, less)),
        λ i c. ground (
          arith,
          delete_client-entry index client s' wf' i c,
          entries i c,
          new,
          bytes_eq_iff index i,
          bytes_eq_iff client c,
        ),
      )
