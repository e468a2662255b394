-- ===== src/PubSub/Subscribe/Local.antt =====
-- `addNewClientLocal` of src/server/pubsub.cc, which nothing calls.
use tpst.Prelude.{
  ℕ, suc, ◌≡◌, sym, ◌&&◌, List, [], ◌∷◌, some, ℤ, Bytes, bytes_eq, Result, ok, ◌>>=◌, >>=-eq-ok,
  ok-injective, ap, arith, if◌then◌else◌, ◌∙◌,
}
use tpst.StdMap.{bytes_key, nat_key, Map, find, find_or, put}
use tpst.PubSub.State.{State}
use tpst.PubSub.Event.{parse_event}
use tpst.PubSub.Subscribe.{require, link, new_wrapper}
use tpst.PubSub.Subscribe.Spec.{mentions, entry, entry-link}

abbrev Subs : Type 0
Subs = Map Bytes (Map Bytes ℕ)

-- The loop over `eventList`: `psw` stands at `p`.
unfoldable pub add_local :
    Bytes → ℕ → List Bytes → Subs → Map Bytes (List ℤ) → Result (Subs × Map Bytes (List ℤ))
unfolding link require
add_local client p [] subs required = ok (subs, required)
add_local client p (full ∷ events) subs required = parse_event full >>= λ e.
    add_local client p events (link e.0 client p subs) (require e.0 e.1 required)

-- The address of the client, its match type and its metadata are left empty.
unfoldable pub add_new_client_local : Bytes → List Bytes → State → Result State
unfolding add_local
add_new_client_local client event_list s = do
  r ← add_local client s.next event_list s.sub_to_client []
  ok (record s {
    sub_to_client = r.0;
    heap = put s.next (new_wrapper client [] [] [] r.1) s.heap;
    next = suc s.next;
  })

add_local-entries :
    (client : Bytes) (p : ℕ) (events : List Bytes) (subs : Subs) (required : Map Bytes (List ℤ))
    (r : Subs × Map Bytes (List ℤ)) (i c : Bytes)
    → add_local client p events subs required ≡ ok r
    → find c (find_or [] i r.0)
      ≡ (if mentions i events && bytes_eq client c then some p else find c (find_or [] i subs))
unfolding add_local
add_local-entries client p [] subs required r i c h = ground (arith, h)
add_local-entries client p (full ∷ events) subs required r i c h =
    let (e, parsed, rest) = >>=-eq-ok (parse_event full) _ h in
    let later = add_local-entries client p events _ _ r i c rest in
    ground (arith, parsed, later, entry-link i c e.0 client p subs)

-- A local subscription that returns files the client below each event that it names, under one new
-- address, where `addNewClient` files it below the first alone; every other entry stays, and no event
-- leads to the client.
pub add_new_client_local-entries :
    (client : Bytes) (events : List Bytes) (s s' : State)
    → add_new_client_local client events s ≡ ok s'
    → (s'.get_index_map ≡ s.get_index_map)
      × ((i c : Bytes)
          → entry i c s'
            ≡ (if mentions i events && bytes_eq client c then some s.next else entry i c s))
unfolding add_new_client_local
add_new_client_local-entries client events s s' h =
    let (r, added, done) = >>=-eq-ok (add_local client s.next events s.sub_to_client []) _ h in
    let same = ok-injective done in
    (
      ground (arith, ap (λ t. t.get_index_map) same),
      λ i c.
          ap (λ t. entry i c t) (sym same)
          ∙ add_local-entries client s.next events s.sub_to_client [] r i c added,
    )
