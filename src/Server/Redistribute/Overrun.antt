-- ===== src/Server/Redistribute/Overrun.antt =====
-- Where `RedistributeSub` of src/server/workflowserver.cc leaves its map.
use tpst.Prelude.{
  ℕ, zero, suc, ◌+◌, ◌<◌, ◌≡◌, List, [], ◌∷◌, some, pos, Bytes, err, bad_iterator, arith, length,
  ◌∙◌,
}
use tpst.StdMap.{bytes_key, nat_key, Map, find, contains}
use tpst.PubSub.State
use tpst.PubSub.State.{PubsubWrapper, deref}
use tpst.Server.Redistribute.{Moved, move_client, redistribute_loop, redistribute_sub}
use tpst.Server.Redistribute.Every.{Holds, Holds-erase, loop-more}

module _ (event : Bytes) where
  loop-end :
      (client : Bytes) (p : ℕ) (w : PubsubWrapper) (count diff : ℕ) (m : Moved)
      → find p m.pubsub.heap ≡ some w
      → suc count < diff
      → redistribute_loop event (pos diff) ((client, p) ∷ []) count m ≡ err bad_iterator
  unfolding redistribute_loop deref
  loop-end client p w count diff m at_p more = rw (at_p, deref) (ground arith)

  redistribute_loop-overruns :
      (j count diff : ℕ) (clients : Map Bytes ℕ) (ws : List PubsubWrapper) (m : Moved)
      → length clients ≡ suc (j + j)
      → suc (j + count) < diff
      → Holds clients ws m.pubsub.heap
      → redistribute_loop event (pos diff) clients count m ≡ err bad_iterator
  unfolding contains
  redistribute_loop-overruns j count diff [] ws m odd more h = absurd (omega arith)
  redistribute_loop-overruns j count diff (c ∷ clients) [] m odd more h = absurd h
  redistribute_loop-overruns j count diff ((client, p) ∷ []) (w ∷ ws) m odd more h =
      loop-end client p w count diff m h.0 (omega arith)
  redistribute_loop-overruns j count diff ((client, p) ∷ d ∷ clients) (w ∷ []) m odd more h =
      absurd h.2
  redistribute_loop-overruns zero count diff (c ∷ d ∷ clients) (w ∷ v ∷ ws) m odd more h =
      absurd (omega arith)
  redistribute_loop-overruns (suc j) count diff ((client, p) ∷ d ∷ clients) (w ∷ v ∷ ws) m odd more
        h =
      loop-more event client p d clients w count diff m h.0 (omega arith)
      ∙ redistribute_loop-overruns j (suc count) diff clients ws (move_client event client p w m)
          (omega arith) (omega arith)
          (Holds-erase p clients ws m.pubsub.heap (ground (arith, h.1)) h.2.2)

-- `RedistributeSub` at a server with `2 j + 1` clients of the event, asked for more than `j + 1` of
-- them, moves its iterator past the end of the map.
pub redistribute_sub-overruns :
    (event : Bytes) (j diff : ℕ) (clients : Map Bytes ℕ) (ws : List PubsubWrapper)
    (s : tpst.PubSub.State.State)
    → find event s.sub_to_client ≡ some clients
    → Holds clients ws s.heap
    → length clients ≡ suc (j + j)
    → suc j < diff
    → redistribute_sub event (pos diff) s ≡ err bad_iterator
unfolding redistribute_sub
redistribute_sub-overruns event j diff clients ws s known h odd more = rw (
  known,
  redistribute_sub,
  redistribute_loop-overruns event j 0 diff clients ws (record { pubsub = s; spsw = [] }) odd
      (omega arith) h,
)
