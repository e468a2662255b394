-- ===== src/Server/Redistribute/Every.antt =====
-- Which clients `RedistributeSub` of src/server/workflowserver.cc moves.
use tpst.Prelude.{
  ℕ, zero, suc, ◌+◌, ◌≤◌, ◌<◌, ◌≡◌, refl, sym, ◌∙◌, false, List, [], ◌∷◌, ◌++◌, none, some, pos,
  Bytes, bytes_eq, bytes_eq_iff, ok, arith, length, if◌then◌else◌,
}
use mathlib.Core.List.{append_assoc, append-nil, map}
use tpst.StdMap.{bytes_key, nat_key, Map, find, find_or, erase, contains, keys}
use tpst.StdMap.Laws.{find-erase, find_or-put}
use tpst.PubSub.State
use tpst.PubSub.State.{PubsubWrapper, SimplepubsubWrapper, deref}
use tpst.PubSub.Subscribe.{get_simplepubsub_wrapper}
use tpst.Server.Notify.{pointers}
use tpst.Server.Redistribute.{
  Moved, move_client, redistribute_loop, redistribute_sub, resubscribe, resubscribe_all,
}

-- `n` elements, one of each two.
abbrev pub every_other {ℓ} : {A : Type ℓ} → ℕ → List A → List A
every_other zero xs = []
every_other (suc n) [] = []
every_other (suc n) (x ∷ []) = x ∷ []
every_other (suc n) (x ∷ y ∷ xs) = x ∷ every_other n xs

-- The clients have the wrappers `ws`, in order, at pointers that differ from one another.
abbrev pub Holds : Map Bytes ℕ → List PubsubWrapper → Map ℕ PubsubWrapper → Type 0
Holds [] [] heap = Unit
Holds [] (w ∷ ws) heap = ⊥
Holds ((client, p) ∷ clients) [] heap = ⊥
Holds ((client, p) ∷ clients) (w ∷ ws) heap =
    (find p heap ≡ some w) × (contains p (pointers clients) ≡ false) × Holds clients ws heap

pub Holds-erase :
    (p : ℕ) (clients : Map Bytes ℕ) (ws : List PubsubWrapper) (heap : Map ℕ PubsubWrapper)
    → contains p (pointers clients) ≡ false
    → Holds clients ws heap
    → Holds clients ws (erase p heap)
unfolding contains
Holds-erase p [] [] heap out h = tt
Holds-erase p [] (w ∷ ws) heap out h = absurd h
Holds-erase p (c ∷ clients) [] heap out h = absurd h
Holds-erase p ((client, q) ∷ clients) (w ∷ ws) heap out h = (
  ground (arith, find-erase q p heap, h.0),
  h.1,
  Holds-erase p clients ws heap (ground (arith, out)) h.2,
)

-- What `moved` clients of `event` make of the tables.
pub record Leaves (event : Bytes) (moved : Map Bytes ℕ) (ws : List PubsubWrapper) (m m' : Moved)
    : Type 0 where
  pub listed : m'.spsw ≡ m.spsw ++ map get_simplepubsub_wrapper ws
  pub clients :
      (e client : Bytes)
      → find client (find_or [] e m'.pubsub.sub_to_client) ≡ (
          if bytes_eq event e
          then (if contains client (keys moved)
              then none
              else find client (find_or [] e m.pubsub.sub_to_client))
          else find client (find_or [] e m.pubsub.sub_to_client))
  pub freed :
      (p : ℕ)
      → find p m'.pubsub.heap ≡ (if contains p (pointers moved) then none else find p m.pubsub.heap)

module _ (event : Bytes) where
  Leaves-nothing : (m : Moved) → Leaves event [] [] m m
  unfolding contains
  Leaves-nothing m = record {
    listed = sym (append-nil m.spsw);
    clients = λ e client. ground arith;
    freed = λ p. refl;
  }

  module _ (client : Bytes) (p : ℕ) (w : PubsubWrapper) (m : Moved) where
    Leaves-client :
        (moved : Map Bytes ℕ) (ws : List PubsubWrapper) (m' : Moved)
        → Leaves event moved ws (move_client event client p w m) m'
        → Leaves event ((client, p) ∷ moved) (w ∷ ws) m m'
    unfolding contains
    Leaves-client moved ws m' l = record {
      listed =
          l.listed
          ∙ append_assoc m.spsw (get_simplepubsub_wrapper w ∷ []) (map get_simplepubsub_wrapper ws);
      clients = λ e c. ground (
        arith,
        l.clients e c,
        find_or-put [] e event (erase client (find_or [] event m.pubsub.sub_to_client))
            m.pubsub.sub_to_client,
        find-erase c client (find_or [] event m.pubsub.sub_to_client),
        bytes_eq_iff event e,
      );
      freed = λ q. ground (arith, l.freed q, find-erase q p m.pubsub.heap);
    }

  loop-last :
      (client : Bytes) (p : ℕ) (clients : Map Bytes ℕ) (w : PubsubWrapper) (count diff : ℕ)
      (m : Moved)
      → find p m.pubsub.heap ≡ some w
      → diff ≡ suc count
      → redistribute_loop event (pos diff) ((client, p) ∷ clients) count m
        ≡ ok (move_client event client p w m)
  unfolding redistribute_loop deref
  loop-last client p [] w count diff m at_p last = rw (at_p, deref) (ground arith)
  loop-last client p (skipped ∷ clients) w count diff m at_p last = rw (at_p, deref) (ground arith)

  pub loop-more :
      (client : Bytes) (p : ℕ) (skipped : Bytes × ℕ) (clients : Map Bytes ℕ) (w : PubsubWrapper)
      (count diff : ℕ) (m : Moved)
      → find p m.pubsub.heap ≡ some w
      → suc count < diff
      → redistribute_loop event (pos diff) ((client, p) ∷ skipped ∷ clients) count m
        ≡ redistribute_loop event (pos diff) clients (suc count) (move_client event client p w m)
  unfolding redistribute_loop deref
  loop-more client p skipped clients w count diff m at_p more = rw (at_p, deref) (ground arith)

  redistribute_loop-every :
      (n count diff : ℕ) (clients : Map Bytes ℕ) (ws : List PubsubWrapper) (m : Moved)
      → diff ≡ suc n + count
      → Holds clients ws m.pubsub.heap
      → suc n + suc n ≤ suc (length clients)
      → (m' : Moved) × (redistribute_loop event (pos diff) clients count m ≡ ok m')
        × Leaves event (every_other (suc n) clients) (every_other (suc n) ws) m m'
  unfolding contains
  redistribute_loop-every n count diff [] ws m total h enough = absurd (omega arith)
  redistribute_loop-every n count diff (c ∷ clients) [] m total h enough = absurd h
  redistribute_loop-every zero count diff ((client, p) ∷ []) (w ∷ []) m total h enough = (
    move_client event client p w m,
    loop-last client p [] w count diff m h.0 (omega arith),
    Leaves-client client p w m [] [] (move_client event client p w m)
        (Leaves-nothing (move_client event client p w m)),
  )
  redistribute_loop-every n count diff ((client, p) ∷ []) (w ∷ v ∷ ws) m total h enough = absurd h.2
  redistribute_loop-every (suc n) count diff ((client, p) ∷ []) (w ∷ []) m total h enough =
      absurd (omega arith)
  redistribute_loop-every n count diff ((client, p) ∷ d ∷ clients) (w ∷ []) m total h enough =
      absurd h.2
  redistribute_loop-every zero count diff ((client, p) ∷ d ∷ clients) (w ∷ v ∷ ws) m total h
        enough =
      (
        move_client event client p w m,
        loop-last client p (d ∷ clients) w count diff m h.0 (omega arith),
        Leaves-client client p w m [] [] (move_client event client p w m)
            (Leaves-nothing (move_client event client p w m)),
      )
  redistribute_loop-every (suc n) count diff ((client, p) ∷ d ∷ clients) (w ∷ v ∷ ws) m total h
        enough =
      let (m', run, leaves) =
        redistribute_loop-every n (suc count) diff clients ws (move_client event client p w m)
          (omega arith) (Holds-erase p clients ws m.pubsub.heap (ground (arith, h.1)) h.2.2)
          (omega arith) in
      (
        m',
        loop-more client p d clients w count diff m h.0 (omega arith) ∙ run,
        Leaves-client client p w m (every_other (suc n) clients) (every_other (suc n) ws) m' leaves,
      )

resubscribe_all-map : (ws : List SimplepubsubWrapper) → resubscribe_all ws ≡ map resubscribe ws
unfolding resubscribe_all
resubscribe_all-map [] = refl
resubscribe_all-map (w ∷ ws) = λ i. resubscribe w ∷ resubscribe_all-map ws i

-- `RedistributeSub` for `n` clients, at a server where the event has at least `2 n - 1`: it asks the
-- destination to subscribe the first, third, fifth client and so on, `n` in all, in order, and
-- drops exactly these and their wrappers. The clients in between stay, as does every other event.
pub redistribute_sub-every :
    (event : Bytes) (n : ℕ) (clients : Map Bytes ℕ) (ws : List PubsubWrapper)
    (s : tpst.PubSub.State.State)
    → find event s.sub_to_client ≡ some clients
    → Holds clients ws s.heap
    → suc n + suc n ≤ suc (length clients)
    → (m' : Moved) × (redistribute_sub event (pos (suc n)) s
        ≡ ok (map resubscribe (map get_simplepubsub_wrapper (every_other (suc n) ws)), m'.pubsub))
      × Leaves event
          (every_other (suc n) clients)
          (every_other (suc n) ws)
          (record { pubsub = s; spsw = [] })
          m'
unfolding redistribute_sub
redistribute_sub-every event n clients ws s known h enough =
    let (m', run, leaves) =
      redistribute_loop-every event n 0 (suc n) clients ws (record { pubsub = s; spsw = [] })
        (omega arith) h enough in
    (m', rw (known, redistribute_sub, run, leaves.listed, resubscribe_all-map), leaves)
