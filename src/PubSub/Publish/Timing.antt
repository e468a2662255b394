-- ===== src/PubSub/Publish/Timing.antt =====
-- When a client is marked for notification: src/server/pubsub.cc, from the subscription on.
use tpst.Prelude.{
  ℕ, zero, suc, ◌+◌, ◌≤◌, ◌≡◌, refl, sym, true, List, [], ◌∷◌, some, ℤ, pos, ◌+ℤ◌, eqb_ℤ_iff, Bytes,
  bytes_eq_refl, bytes_eq_iff, codes, ok, ok-injective, arith, leb, ◌==◌, Bool_ext, ◌↔◌, ◌∙◌, ap,
}
use mathlib.Core.Path.{subst}
use tpst.StdMap.{bytes_key, int_key, nat_key, Map, find, find_or, contains, keys}
use tpst.StdMap.Laws.{find-put, find_or-some}
use tpst.StdMap.Sorted.{IsSorted}
use tpst.PubSub.State.{PubsubWrapper, State}
use tpst.PubSub.Event.{parse_event}
use tpst.PubSub.Trigger.{check_if_triggure}
use tpst.PubSub.Trigger.Spec.{Requires, check_if_triggure_iff}
use tpst.PubSub.Subscribe.{pubsub_subscribe, new_wrapper}
use tpst.PubSub.Subscribe.Spec.{entry, Subscribed, add_new_client-Subscribed}
use tpst.PubSub.Invariant.{IsWellFormed, pubsub_subscribe-IsWellFormed}
use tpst.PubSub.Publish.{count_event, pubsub_publish}
use tpst.PubSub.Publish.Spec.{bump}
use tpst.PubSub.Publish.Delivery.{receive, pubsub_publish-Delivered}

abbrev pub replicate {ℓ} : {A : Type ℓ} → ℕ → A → List A
replicate zero a = []
replicate (suc k) a = a ∷ replicate k a

count_event-keeps :
    (event : Bytes) (w : PubsubWrapper)
    → ((count_event event w).required_event_map ≡ w.required_event_map)
      × ((count_event event w).iftrigure ≡ w.iftrigure)
      × ((count_event event w).client_id ≡ w.client_id)
unfolding count_event
count_event-keeps event w = (refl, refl, refl)

module _ (metadata event client : Bytes) (n : ℕ) (required : Map Bytes (List ℤ)) where
  bumps : ℕ → PubsubWrapper → PubsubWrapper
  bumps zero w = w
  bumps (suc k) w = bumps k (bump metadata event w)

  -- A wrapper that requires the event `n` times alone, after `k` publications of it.
  record Counts (k : ℕ) (w : PubsubWrapper) : Type 0 where
    counted : find_or (pos 0) event w.published_event ≡ pos k
    requires : w.required_event_map ≡ required
    marked : w.iftrigure ≡ leb n k
    same_client : w.client_id ≡ client

  module _ (sorted : IsSorted (keys required))
      (only : (e : Bytes) (m : ℤ) → Requires required e m → (e ≡ event) × (m ≡ pos n))
      (asked : Requires required event (pos n)) (positive : 1 ≤ n) where
    find-count_event :
        (k : ℕ) (w : PubsubWrapper)
        → Counts k w
        → find event (count_event event w).published_event ≡ some (pos (suc k))
    unfolding count_event ◌+ℤ◌
    find-count_event k w c = ground (
      arith,
      find-put event event (find_or (pos 0) event w.published_event +ℤ pos 1) w.published_event,
      bytes_eq_refl event,
      c.counted,
    )

    check-count_event :
        (k : ℕ) (w : PubsubWrapper)
        → Counts k w
        → check_if_triggure (count_event event w) ≡ (n == suc k)
    check-count_event k w c =
        Bool_ext _ (n == suc k)
          (λ h. ground (
            arith,
            find-count_event k w c,
            iff.0 h event (pos n) (subst (λ r. Requires r event (pos n)) (sym keeps) asked),
          ))
          (λ h. iff.1 (λ e m r.
            let (same, times) = only e m (subst (λ q. Requires q e m) keeps r) in
            ground (arith, h, same, times, find-count_event k w c)))
      where
        keeps : (count_event event w).required_event_map ≡ required
        keeps = unfold count_event in c.requires

        iff : (check_if_triggure (count_event event w) ≡ true) ↔ (
            (e : Bytes) (m : ℤ)
            → Requires (count_event event w).required_event_map e m
            → find e (count_event event w).published_event ≡ some m)
        iff =
            check_if_triggure_iff (count_event event w)
              (subst (λ r. IsSorted (keys r)) (sym keeps) sorted)

    Counts-bump : (k : ℕ) (w : PubsubWrapper) → Counts k w → Counts (suc k) (bump metadata event w)
    Counts-bump k w c = record {
      counted = ground (
        arith,
        find_or-some (pos 0) event (pos (suc k)) (count_event event w).published_event
            (find-count_event k w c),
      );
      requires = ground (arith, (count_event-keeps event w).0, c.requires);
      marked = ground (arith, (count_event-keeps event w).1, check-count_event k w c);
      same_client = ground (arith, (count_event-keeps event w).2, c.same_client);
    }

    Counts-bumps : (j k : ℕ) (w : PubsubWrapper) → Counts j w → Counts (k + j) (bumps k w)
    unfolding bumps
    Counts-bumps j zero w c = subst (λ m. Counts m w) (omega arith) c
    Counts-bumps j (suc k) w c =
        subst (λ m. Counts m (bumps (suc k) w)) (omega arith)
          (Counts-bumps (suc j) k (bump metadata event w) (Counts-bump j w c))

  receive-replicate :
      (index : Bytes) (leads : Map Bytes (List Bytes)) (k : ℕ) (w : PubsubWrapper)
      → contains index (find_or [] event leads) ≡ true
      → receive metadata index leads (replicate k event) (some w) ≡ some (bumps k w)
  unfolding bumps
  receive-replicate index leads zero w h = refl
  receive-replicate index leads (suc k) w h =
      rw (receive, h) (receive-replicate index leads k (bump metadata event w) h)

module _ (client addr mt meta full index : Bytes) (n : ℕ) (s s' : State)
    (sub : Subscribed client addr mt meta full [] s s')
    (parsed : parse_event full ≡ ok (index, pos n)) where
  same_index : sub.index ≡ index
  same_index = ap (λ p. p.0) (ok-injective (sym sub.first ∙ parsed))

  filed : entry index client s' ≡ some s.next
  filed =
      ground
        (arith, sub.entries index client, same_index, bytes_eq_refl index, bytes_eq_refl client)

  leads_back : contains index (find_or [] index s'.get_index_map) ≡ true
  leads_back = ground (arith, sub.leads index index, same_index, bytes_eq_refl index, parsed)

  asks_only : (e : Bytes) (m : ℤ) → Requires sub.required e m → (e ≡ index) × (m ≡ pos n)
  asks_only e m r =
      ground (arith, sub.requires e m, parsed, r, bytes_eq_iff index e, eqb_ℤ_iff (pos n) m)

  asks_index : Requires sub.required index (pos n)
  asks_index = ground (arith, sub.requires index (pos n), parsed, bytes_eq_refl index)

  start-Counts :
      1 ≤ n
      → (metadata : Bytes)
      → Counts metadata index client n sub.required 0 (new_wrapper client addr mt meta sub.required)
  start-Counts positive metadata = record {
    counted = unfold find_or find in refl;
    requires = refl;
    marked = ground arith;
    same_client = refl;
  }

-- A client that subscribes to `full`, which asks for `n` publications of one event, is filed at the
-- address `s.next`. However often the event is then published, each call returns, and the client is
-- marked for notification exactly from the `n`-th publication on.
pub subscription_fires :
    (client notify_addr match_type sub_metadata full index : Bytes) (n : ℕ) (s s' : State)
    → IsWellFormed s
    → 1 ≤ n
    → parse_event full ≡ ok (index, pos n)
    → pubsub_subscribe (full ∷ []) client notify_addr match_type sub_metadata s ≡ ok s'
    → (k : ℕ) (metadata : Bytes)
    → (after : State) × (w : PubsubWrapper) × (pubsub_publish
          (replicate k index)
          (codes "NAME")
          metadata
          s'
        ≡ ok after)
      × (find s.next after.heap ≡ some w)
      × (w.client_id ≡ client)
      × (find_or (pos 0) index w.published_event ≡ pos k)
      × (w.iftrigure ≡ leb n k)
subscription_fires client addr mt meta full index n s s' wf positive parsed h k metadata =
    let sub : Subscribed client addr mt meta full [] s s' =
      add_new_client-Subscribed client addr mt meta full [] s s' (unfold pubsub_subscribe in h) in
    let wf' = pubsub_subscribe-IsWellFormed (full ∷ []) client addr mt meta s s' wf h in
    let (after, done, d) = pubsub_publish-Delivered (replicate k index) metadata s' wf' in
    let start = new_wrapper client addr mt meta sub.required in
    let c =
      Counts-bumps metadata index client n sub.required sub.sorted
        (asks_only client addr mt meta full index n s s' sub parsed)
        (asks_index client addr mt meta full index n s s' sub parsed) positive 0 k start
        (start-Counts client addr mt meta full index n s s' sub parsed positive metadata) in
    let total : k + 0 ≡ k = omega arith in
    (
      after,
      bumps metadata index client n sub.required k start,
      done,
      d.clients index client s.next (filed client addr mt meta full index n s s' sub parsed)
          ∙ ap (receive metadata index s'.get_index_map (replicate k index)) sub.wrapper
          ∙ receive-replicate metadata index client n sub.required index s'.get_index_map k start
              (leads_back client addr mt meta full index n s s' sub parsed),
      c.same_client,
      c.counted ∙ ap pos total,
      c.marked ∙ ap (leb n) total,
    )
