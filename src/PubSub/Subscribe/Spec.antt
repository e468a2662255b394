-- ===== src/PubSub/Subscribe/Spec.antt =====
-- What `addNewClient` of src/server/pubsub.cc leaves in the tables.
use tpst.Prelude.{
  ℕ, suc, ◌≡◌, refl, Bool, false, ◌&&◌, ◌||◌, List, [], ◌∷◌, Option, some, ℤ, eqb_ℤ, Bytes,
  bytes_eq, bytes_eq_iff, Result, ok, err, >>=-eq-ok, ok-injective, arith, if◌then◌else◌, ◌==◌,
}
use mathlib.Core.Path.{subst}
use tpst.StdMap.{bytes_key, int_key, nat_key, Map, find, find_or, put, insert, contains, keys}
use tpst.StdMap.Laws.{find-put, find_or-put, contains-insert}
use tpst.StdMap.Sorted.{IsSorted, put-IsSorted, insert-IsSorted}
use tpst.PubSub.State.{State}
use tpst.PubSub.Event.{parse_event}
use tpst.PubSub.Subscribe.{index_event, require, add_events, link, new_wrapper, add_new_client}

abbrev is_for : Bytes → Result (Bytes × ℤ) → Bool
is_for event (ok p) = bytes_eq p.0 event
is_for event (err x) = false

abbrev is_for_times : Bytes → ℤ → Result (Bytes × ℤ) → Bool
is_for_times event n (ok p) = bytes_eq p.0 event && eqb_ℤ p.1 n
is_for_times event n (err x) = false

-- Some event of the request names `event`; some event names it with the number `n`.
abbrev pub mentions : Bytes → List Bytes → Bool
mentions event [] = false
mentions event (full ∷ events) = is_for event (parse_event full) || mentions event events

abbrev pub asks : Bytes → ℤ → List Bytes → Bool
asks event n [] = false
asks event n (full ∷ events) = is_for_times event n (parse_event full) || asks event n events

-- Both branches insert into the set that `getIndexMap[eventWithoutNum]` reads.
index_event-insert :
    (event index : Bytes) (m : Map Bytes (List Bytes))
    → index_event event index m ≡ put event (insert index (find_or [] event m)) m
unfolding index_event find_or insert
index_event-insert event index m = ground arith

contains-index_event :
    (e i event index : Bytes) (m : Map Bytes (List Bytes))
    → contains i (find_or [] e (index_event event index m))
      ≡ ((bytes_eq event e && bytes_eq index i) || contains i (find_or [] e m))
contains-index_event e i event index m = rw index_event-insert (
    ground (
      arith,
      find_or-put [] e event (insert index (find_or [] event m)) m,
      contains-insert i index (find_or [] event m),
      bytes_eq_iff event e,
    ))

contains-require :
    (e event : Bytes) (k n : ℤ) (m : Map Bytes (List ℤ))
    → contains k (find_or [] e (require event n m))
      ≡ ((bytes_eq event e && eqb_ℤ n k) || contains k (find_or [] e m))
unfolding require
contains-require e event k n m = ground (
  arith,
  find_or-put [] e event (insert n (find_or [] event m)) m,
  contains-insert k n (find_or [] event m),
  bytes_eq_iff event e,
)

pub add_events-indexes :
    (index : Bytes) (events : List Bytes) (indexes : Map Bytes (List Bytes))
    (required : Map Bytes (List ℤ)) (r : Map Bytes (List Bytes) × Map Bytes (List ℤ)) (e i : Bytes)
    → add_events index events indexes required ≡ ok r
    → contains i (find_or [] e r.0)
      ≡ ((bytes_eq index i && mentions e events) || contains i (find_or [] e indexes))
unfolding add_events
add_events-indexes index [] indexes required r e i h = ground arith
add_events-indexes index (full ∷ events) indexes required r e i h =
    let (p, parsed, rest) = >>=-eq-ok (parse_event full) _ h in
    let ih = add_events-indexes index events _ _ r e i rest in
    ground (arith, parsed, ih, contains-index_event e i p.0 index indexes)

add_events-required :
    (index : Bytes) (events : List Bytes) (indexes : Map Bytes (List Bytes))
    (required : Map Bytes (List ℤ)) (r : Map Bytes (List Bytes) × Map Bytes (List ℤ)) (e : Bytes)
    (k : ℤ)
    → add_events index events indexes required ≡ ok r
    → contains k (find_or [] e r.1) ≡ (asks e k events || contains k (find_or [] e required))
unfolding add_events
add_events-required index [] indexes required r e k h = ground arith
add_events-required index (full ∷ events) indexes required r e k h =
    let (p, parsed, rest) = >>=-eq-ok (parse_event full) _ h in
    let ih = add_events-required index events _ _ r e k rest in
    ground (arith, parsed, ih, contains-require e p.0 k p.1 required)

add_events-IsSorted :
    (index : Bytes) (events : List Bytes) (indexes : Map Bytes (List Bytes))
    (required : Map Bytes (List ℤ)) (r : Map Bytes (List Bytes) × Map Bytes (List ℤ))
    → add_events index events indexes required ≡ ok r
    → IsSorted (keys required)
    → IsSorted (keys r.1)
unfolding add_events require
add_events-IsSorted index [] indexes required r h s = ground (arith, s)
add_events-IsSorted index (full ∷ events) indexes required r h s =
    let (p, parsed, rest) = >>=-eq-ok (parse_event full) _ h in
    add_events-IsSorted index events _ _ r rest (put-IsSorted p.0 _ required s)

pub add_events-set :
    (index : Bytes) (events : List Bytes) (indexes : Map Bytes (List Bytes))
    (required : Map Bytes (List ℤ)) (r : Map Bytes (List Bytes) × Map Bytes (List ℤ))
    → add_events index events indexes required ≡ ok r
    → ((e : Bytes) → IsSorted (find_or [] e indexes))
    → ((e : Bytes) → IsSorted (find_or [] e r.0))
unfolding add_events
add_events-set index [] indexes required r h s = λ e. ground (arith, s e)
add_events-set index (full ∷ events) indexes required r h s =
    let (p, parsed, rest) = >>=-eq-ok (parse_event full) _ h in
    add_events-set index events _ _ r rest λ e. rw index_event-insert (
      ground (
        arith,
        find_or-put [] e p.0 (insert index (find_or [] p.0 indexes)) indexes,
        s e,
        insert-IsSorted index (find_or [] p.0 indexes) (s p.0),
      ))

-- The address below `index` for `client`.
abbrev pub entry : Bytes → Bytes → State → Option ℕ
entry index client s = find client (find_or [] index s.sub_to_client)

-- `s'` is `s` with one more client: the request's events, the first of them `full`, and the rest of
-- what it says.
pub record Subscribed (client notify_addr match_type sub_metadata full : Bytes)
    (events : List Bytes) (s s' : State) : Type 0 where
  pub index : Bytes
  pub number : ℤ
  pub first : parse_event full ≡ ok (index, number)
  -- The client is filed below its index event alone, under a new address.
  pub entries :
      (i c : Bytes)
      → entry i c s' ≡ (if bytes_eq index i && bytes_eq client c then some s.next else entry i c s)
  -- Every event of the request leads to the index event, and nothing that led elsewhere is lost.
  pub leads :
      (e i : Bytes)
      → contains i (find_or [] e s'.get_index_map) ≡ (
          (bytes_eq index i && mentions e (full ∷ events))
          || contains i (find_or [] e s.get_index_map))
  pub required : Map Bytes (List ℤ)
  pub wrapper :
      find s.next s'.heap ≡ some (new_wrapper client notify_addr match_type sub_metadata required)
  -- It waits for exactly the numbers that the request names.
  pub requires : (e : Bytes) (n : ℤ) → contains n (find_or [] e required) ≡ asks e n (full ∷ events)
  pub sorted : IsSorted (keys required)
  pub others : (q : ℕ) → (s.next == q) ≡ false → find q s'.heap ≡ find q s.heap
  pub fresh : s'.next ≡ suc s.next

pub entry-link :
    (i c index client : Bytes) (p : ℕ) (m : Map Bytes (Map Bytes ℕ))
    → find c (find_or [] i (link index client p m))
      ≡ (if bytes_eq index i && bytes_eq client c then some p else find c (find_or [] i m))
unfolding link
entry-link i c index client p m = ground (
  arith,
  find_or-put [] i index (put client p (find_or [] index m)) m,
  find-put c client p (find_or [] index m),
  bytes_eq_iff index i,
)

-- The state that `add_new_client` builds from its parts.
abbrev pub subscribed_state :
    Bytes
    → Bytes
    → Bytes
    → Bytes
    → Bytes
    → Map Bytes (List Bytes) × Map Bytes (List ℤ)
    → State
    → State
subscribed_state index client notify_addr match_type sub_metadata r s = record {
  sub_to_client = link index client s.next s.sub_to_client;
  get_index_map = r.0;
  heap = put s.next (new_wrapper client notify_addr match_type sub_metadata r.1) s.heap;
  next = suc s.next;
}

module _ (client addr mt meta full : Bytes) (events : List Bytes) (s : State) where
  subscribed_state-Subscribed :
      (p : Bytes × ℤ) (r : Map Bytes (List Bytes) × Map Bytes (List ℤ))
      → parse_event full ≡ ok p
      → add_events p.0 (full ∷ events) s.get_index_map [] ≡ ok r
      → Subscribed client addr mt meta full events s (subscribed_state p.0 client addr mt meta r s)
  subscribed_state-Subscribed p r first added = record {
    index = p.0;
    number = p.1;
    first = first;
    entries = λ i c. entry-link i c p.0 client s.next s.sub_to_client;
    leads = λ e i. add_events-indexes p.0 (full ∷ events) s.get_index_map [] r e i added;
    required = r.1;
    wrapper = rw (find-put s.next s.next) (ground arith);
    requires = λ e n.
        unfold find_or find contains in
        ground (arith, add_events-required p.0 (full ∷ events) s.get_index_map [] r e n added);
    sorted = add_events-IsSorted p.0 (full ∷ events) s.get_index_map [] r added tt;
    others = λ q h. rw find-put (rw h);
    fresh = refl;
  }

  -- What holds of the state that is built holds after a subscription that returns.
  pub add_new_client_cases :
      (P : State → Type 0)
      → ((p : Bytes × ℤ) (r : Map Bytes (List Bytes) × Map Bytes (List ℤ))
          → parse_event full ≡ ok p
          → add_events p.0 (full ∷ events) s.get_index_map [] ≡ ok r
          → P (subscribed_state p.0 client addr mt meta r s))
      → (s' : State) → add_new_client client addr (full ∷ events) mt meta s ≡ ok s'
      → P s'
  unfolding add_new_client
  add_new_client_cases P built s' h =
      let (p, first, rest) = >>=-eq-ok (parse_event full) _ h in
      let (r, added, done) = >>=-eq-ok (add_events p.0 (full ∷ events) s.get_index_map []) _ rest in
      subst P (ok-injective done) (built p r first added)

  -- A subscription that returns leaves what `Subscribed` lists: a new wrapper at an address of its own,
  -- filed below the index event, its requirements and the index sets as the events of the request ask,
  -- and every other entry, set and wrapper as it was.
  pub add_new_client-Subscribed :
      (s' : State)
      → add_new_client client addr (full ∷ events) mt meta s ≡ ok s'
      → Subscribed client addr mt meta full events s s'
  add_new_client-Subscribed =
      add_new_client_cases (Subscribed client addr mt meta full events s)
        subscribed_state-Subscribed
