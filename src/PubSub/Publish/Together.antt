-- ===== src/PubSub/Publish/Together.antt =====
-- When a client that waits for several events is marked for notification: src/server/pubsub.cc, from
-- the subscription on.
use tpst.Prelude.{
  ℕ, zero, suc, ◌≤◌, ◌<◌, ◌≡◌, ◌↔◌, inl, inr, refl, ◌∙◌, ap, true, false, List, [], ◌∷◌, ◌++◌, some,
  pos, Bytes, codes, ok, arith, eqb_ℤ_iff, bytes_eq_refl, take, length, Bool-cases,
}
use tpst.StdMap.{bytes_key, int_key, nat_key, find}
use tpst.PubSub.State.{PubsubWrapper, State}
use tpst.PubSub.Subscribe.{pubsub_subscribe, new_wrapper}
use tpst.PubSub.Subscribe.Spec.{entry, asks, Subscribed, add_new_client-Subscribed}
use tpst.PubSub.Publish.Occurrences.{
  occurrences, WasComplete, AsksPositive, take_past, take-within, k-cases,
}
use tpst.PubSub.Publish.Tracks.{receive-Tracks}
use tpst.PubSub.Invariant.{IsWellFormed, pubsub_subscribe-IsWellFormed}
use tpst.PubSub.Publish.{pubsub_publish}
use tpst.PubSub.Publish.Delivery.{receive, pubsub_publish-Delivered}

pos-injective : {m n : ℕ} → pos m ≡ pos n → m ≡ n
pos-injective h = ground (arith, h)

occurrences-take-le :
    (event : Bytes) (k : ℕ) (events : List Bytes)
    → occurrences event (take k events) ≤ occurrences event events
occurrences-take-le event zero events = omega arith
occurrences-take-le event (suc k) [] = omega arith
occurrences-take-le event (suc k) (e ∷ events) = ground (arith, occurrences-take-le event k events)

-- Beyond `early`, `take` keeps all of it.
occurrences-le-take :
    (event : Bytes) (k : ℕ) (early late : List Bytes)
    → length early < k
    → occurrences event early ≤ occurrences event (take k (early ++ late))
occurrences-le-take event k [] late h = omega arith
occurrences-le-take event zero (e ∷ early) late h = absurd (omega (arith, h))
occurrences-le-take event (suc k) (e ∷ early) late h =
    ground (arith, occurrences-le-take event k early late (omega (arith, h)))

not-Complete :
    (early late : List Bytes) (event other : Bytes) (n m : ℕ)
    → n < occurrences event early
    → occurrences other early < m
    → (k : ℕ) → n ≡ occurrences event (take k (early ++ late))
    → ¬ (m ≡ occurrences other (take k (early ++ late)))
not-Complete early late event other n m overtaken waiting k is_n is_m = elim (k-cases k early) [
  | inl within ↦
      let cut : occurrences other (take k (early ++ late)) ≡ occurrences other (take k early) =
        ap (occurrences other) (take-within k early late within) in
      omega (arith, cut, occurrences-take-le other k early, is_m, waiting)
  | inr past ↦ omega (arith, occurrences-le-take event k early late past, is_n, overtaken)
]

-- A client that subscribes to a list of events, asking for each a positive number of times, is filed
-- at the address `s.next`. A call that then publishes any list of events by NAME returns, and the client
-- is marked for notification exactly if after some of these events each event of the subscription had
-- been published as often as the client asks, no less and no more.
pub subscription_completes :
    (client notify_addr match_type sub_metadata full : Bytes) (more : List Bytes) (s s' : State)
    → IsWellFormed s
    → AsksPositive (full ∷ more)
    → pubsub_subscribe (full ∷ more) client notify_addr match_type sub_metadata s ≡ ok s'
    → (published : List Bytes) (metadata : Bytes)
    → (after : State) × (w : PubsubWrapper) × (pubsub_publish published (codes "NAME") metadata s'
        ≡ ok after)
      × (find s.next after.heap ≡ some w)
      × (w.client_id ≡ client)
      × ((w.iftrigure ≡ true) ↔ WasComplete (full ∷ more) published)
subscription_completes client addr mt meta full more s s' wf positive h published metadata =
    let sub : Subscribed client addr mt meta full more s s' =
      add_new_client-Subscribed client addr mt meta full more s s' (unfold pubsub_subscribe in h) in
    let wf' = pubsub_subscribe-IsWellFormed (full ∷ more) client addr mt meta s s' wf h in
    let (after, done, d) = pubsub_publish-Delivered published metadata s' wf' in
    let start = new_wrapper client addr mt meta sub.required in
    let filed : entry sub.index client s' ≡ some s.next =
      ground (arith, sub.entries sub.index client, bytes_eq_refl sub.index, bytes_eq_refl client) in
    let (w, received, t) =
      receive-Tracks metadata client (full ∷ more) sub.required sub.sorted positive sub.requires
        sub.index s'.get_index_map
        (λ e named. ground (arith, named, sub.leads e sub.index, bytes_eq_refl sub.index)) published
        [] start
        (record {
          counted = λ e named. unfold find in refl;
          requires = refl;
          marked = (
            λ marked. cc,
            λ (k, complete).
                let asked : asks sub.index sub.number (full ∷ more) ≡ true =
                  ground
                    (arith, sub.first, bytes_eq_refl sub.index, eqb_ℤ_iff sub.number sub.number) in
                let (m, is) = positive sub.index sub.number asked in
                let none_yet =
                  complete sub.index sub.number asked
                  ∙ ap (λ es. pos (occurrences sub.index es)) (take_past k [] (omega arith)) in
                cc (is, none_yet),
          );
          same_client = refl;
        }) in
    (
      after,
      w,
      done,
      d.clients sub.index client s.next filed
          ∙ ap (receive metadata sub.index s'.get_index_map published) sub.wrapper
          ∙ received,
      t.same_client,
      t.marked,
    )

-- A client that asks for `event` in the number `n` and for `other` in the number `m` is never marked
-- once `event` has been published more than `n` times while `other` had been published less than `m`
-- times, whatever is published by NAME from there on.
pub overtaken_never :
    (client notify_addr match_type sub_metadata full : Bytes) (more : List Bytes) (s s' : State)
    (event other : Bytes) (n m : ℕ)
    → IsWellFormed s
    → AsksPositive (full ∷ more)
    → asks event (pos n) (full ∷ more) ≡ true
    → asks other (pos m) (full ∷ more) ≡ true
    → pubsub_subscribe (full ∷ more) client notify_addr match_type sub_metadata s ≡ ok s'
    → (early late : List Bytes) (metadata : Bytes) → n < occurrences event early
    → occurrences other early < m
    → (after : State) × (w : PubsubWrapper) × (pubsub_publish
          (early ++ late)
          (codes "NAME")
          metadata
          s'
        ≡ ok after)
      × (find s.next after.heap ≡ some w)
      × (w.client_id ≡ client)
      × (w.iftrigure ≡ false)
overtaken_never client addr mt meta full more s s' event other n m wf positive asks_n asks_m h early
      late metadata overtaken waiting =
    let (after, w, done, found, same, marked) =
      subscription_completes client addr mt meta full more s s' wf positive h (early ++ late)
        metadata in
    (
      after,
      w,
      done,
      found,
      same,
      elim (Bool-cases w.iftrigure) [
        | inl yes_ ↦
            let (k, complete) = marked.0 yes_ in
            absurd (
              not-Complete early late event other n m overtaken waiting k
                (pos-injective (complete event (pos n) asks_n))
                (pos-injective (complete other (pos m) asks_m)))
        | inr no_ ↦ no_
      ],
    )
