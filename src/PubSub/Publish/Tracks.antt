-- ===== src/PubSub/Publish/Tracks.antt =====
-- The wrapper of a client that waits for several events, src/server/pubsub.cc, from one publication to
-- the next.
use tpst.Prelude.{
  ℕ, zero, suc, ◌≡◌, ◌↔◌, inl, inr, refl, sym, ◌∙◌, ap, true, false, List, [], ◌∷◌, ◌++◌, Option,
  none, some, ℤ, pos, ◌+ℤ◌, Bytes, bytes_eq, bytes_eq_iff, arith, Bool-cases,
}
use mathlib.Core.Path.{subst}
use mathlib.Core.List.{append-nil, append_assoc}
use tpst.StdMap.{bytes_key, int_key, nat_key, Map, find, find_or, contains, keys}
use tpst.StdMap.Laws.{find-put, find_or-some, find_or-none}
use tpst.StdMap.Sorted.{IsSorted}
use tpst.PubSub.State.{PubsubWrapper}
use tpst.PubSub.Trigger.{check_if_triggure}
use tpst.PubSub.Trigger.Spec.{Requires, check_if_triggure_iff}
use tpst.PubSub.Subscribe.Spec.{mentions, asks}
use tpst.PubSub.Publish.Occurrences.{
  occurrences, Complete, WasComplete, AsksPositive, occurrences-snoc, WasComplete-append,
  WasComplete-snoc, WasComplete-whole,
}
use tpst.PubSub.Publish.{count_event}
use tpst.PubSub.Publish.Spec.{bump}
use tpst.PubSub.Publish.Delivery.{receive}

asks-mentions :
    (event : Bytes) (n : ℤ) (request : List Bytes)
    → asks event n request ≡ true
    → mentions event request ≡ true
asks-mentions event n [] h = cc
asks-mentions event n (full ∷ request) h = ground (arith, h, asks-mentions event n request)

-- `publishedEvent` of an event that has been published so often.
abbrev pub times : ℕ → Option ℤ
times zero = none
times (suc k) = some (pos (suc k))

times-some : (k m : ℕ) → times k ≡ some (pos (suc m)) → k ≡ suc m
times-some zero m h = cc
times-some (suc k) m h = ground (arith, h)

find_or-times :
    (e : Bytes) (k : ℕ) (m : Map Bytes ℤ) → find e m ≡ times k → find_or (pos 0) e m ≡ pos k
find_or-times e zero m h = find_or-none (pos 0) e m h
find_or-times e (suc k) m h = find_or-some (pos 0) e (pos (suc k)) m h

other-occurrences :
    (request : List Bytes) (e event : Bytes) (seen : List Bytes)
    → mentions e request ≡ true
    → mentions event request ≡ false
    → occurrences e (seen ++ event ∷ []) ≡ occurrences e seen
other-occurrences request e event seen named unnamed = elim (Bool-cases (bytes_eq event e)) [
  | inl same ↦ cc (ap (λ b. mentions b request) ((bytes_eq_iff event e).0 same), named, unnamed)
  | inr other ↦ rw (occurrences-snoc e event seen) (rw other refl)
]

module _ (metadata client : Bytes) (request : List Bytes) (required : Map Bytes (List ℤ)) where
  -- A wrapper that has the requirements of the request, after the publications `seen`.
  pub record Tracks (seen : List Bytes) (w : PubsubWrapper) : Type 0 where
    pub counted :
        (e : Bytes)
        → mentions e request ≡ true
        → find e w.published_event ≡ times (occurrences e seen)
    pub requires : w.required_event_map ≡ required
    pub marked : (w.iftrigure ≡ true) ↔ WasComplete request seen
    pub same_client : w.client_id ≡ client

  module _ (sorted : IsSorted (keys required)) (positive : AsksPositive request)
      (asked : (e : Bytes) (n : ℤ) → contains n (find_or [] e required) ≡ asks e n request) where
    count_event-counted :
        (seen : List Bytes) (event : Bytes) (w : PubsubWrapper)
        → Tracks seen w
        → (e : Bytes) → mentions e request ≡ true
        → find e (count_event event w).published_event ≡ times (occurrences e (seen ++ event ∷ []))
    unfolding count_event ◌+ℤ◌
    count_event-counted seen event w t e named = elim (Bool-cases (bytes_eq event e)) [
      | inl same ↦
          let here : event ≡ e = (bytes_eq_iff event e).0 same in
          let had : find_or (pos 0) event w.published_event ≡ pos (occurrences e seen) =
            rw here (find_or-times e (occurrences e seen) w.published_event (t.counted e named)) in
          rw (find-put e event _ w.published_event)
            (rw same (rw had (rw (occurrences-snoc e event seen) (rw same (ground arith)))))
      | inr other ↦
          rw (find-put e event _ w.published_event)
            (rw other (rw (occurrences-snoc e event seen) (rw other (t.counted e named))))
    ]

    check_if_triggure-Complete :
        (seen : List Bytes) (event : Bytes) (w : PubsubWrapper)
        → Tracks seen w
        → (check_if_triggure (count_event event w) ≡ true) ↔ Complete request (seen ++ event ∷ [])
    check_if_triggure-Complete seen event w t =
        let seen' = seen ++ event ∷ [] in
        let keeps : (count_event event w).required_event_map ≡ required =
          unfold count_event in t.requires in
        let (to, from) =
          check_if_triggure_iff (count_event event w)
            (subst (λ r. IsSorted (keys r)) (sym keeps) sorted) in
        (
          λ yes_ e n asks_it.
              let had : find e (count_event event w).published_event ≡ some n =
                to yes_ e n (subst (λ r. Requires r e n) (sym keeps) (asked e n ∙ asks_it)) in
              let (m, is) = positive e n asks_it in
              let named = asks-mentions e n request asks_it in
              is
              ∙ ap pos (
                  sym (
                    times-some (occurrences e seen') m
                      (sym (count_event-counted seen event w t e named) ∙ had ∙ ap some is))),
          λ complete. from (λ e n r.
              let asks_it : asks e n request ≡ true =
                sym (asked e n) ∙ subst (λ q. Requires q e n) keeps r in
              let (m, is) = positive e n asks_it in
              let count : occurrences e seen' ≡ suc m = ground (arith, complete e n asks_it, is) in
              count_event-counted seen event w t e (asks-mentions e n request asks_it)
              ∙ ap times count
              ∙ ap some (sym is)),
        )

    Tracks-bump :
        (seen : List Bytes) (event : Bytes) (w : PubsubWrapper)
        → Tracks seen w
        → Tracks (seen ++ event ∷ []) (bump metadata event w)
    Tracks-bump seen event w t =
        let (to, from) = check_if_triggure-Complete seen event w t in
        elim (Bool-cases (check_if_triggure (count_event event w))) [
          | inl done ↦ rw done (record {
            counted = count_event-counted seen event w t;
            requires = unfold count_event in t.requires;
            marked = (λ h. WasComplete-whole request (seen ++ event ∷ []) (to done), λ h. refl);
            same_client = unfold count_event in t.same_client;
          })
          | inr undone ↦ rw undone (record {
            counted = count_event-counted seen event w t;
            requires = unfold count_event in t.requires;
            marked = (
              λ h.
                  WasComplete-append request seen (event ∷ [])
                    (t.marked.0 (unfold count_event in h)),
              λ was. elim (WasComplete-snoc request seen event was) [
                | inl before ↦ unfold count_event in t.marked.1 before
                | inr now ↦ cc (from now, undone)
              ],
            );
            same_client = unfold count_event in t.same_client;
          })
        ]

    Tracks-other :
        (seen : List Bytes) (event : Bytes) (w : PubsubWrapper)
        → mentions event request ≡ false
        → Tracks seen w
        → Tracks (seen ++ event ∷ []) w
    Tracks-other seen event w unnamed t =
        let same : (e : Bytes)
            → mentions e request ≡ true
            → occurrences e (seen ++ event ∷ []) ≡ occurrences e seen =
          λ e named. other-occurrences request e event seen named unnamed in
        let still : Complete request (seen ++ event ∷ []) → Complete request seen =
          λ now e n asks_it.
            now e n asks_it ∙ ap pos (same e (asks-mentions e n request asks_it)) in
        record {
          counted = λ e named. t.counted e named ∙ ap times (sym (same e named));
          requires = t.requires;
          marked = (
            λ h. WasComplete-append request seen (event ∷ []) (t.marked.0 h),
            λ was. elim (WasComplete-snoc request seen event was) [
              | inl before ↦ t.marked.1 before
              | inr now ↦ t.marked.1 (WasComplete-whole request seen (still now))
            ],
          );
          same_client = t.same_client;
        }

    pub receive-Tracks :
        (index : Bytes) (leads : Map Bytes (List Bytes))
        → ((e : Bytes) → mentions e request ≡ true → contains index (find_or [] e leads) ≡ true)
        → (events seen : List Bytes) (w : PubsubWrapper) → Tracks seen w
        → (w' : PubsubWrapper) × (receive metadata index leads events (some w) ≡ some w')
          × Tracks (seen ++ events) w'
    receive-Tracks index leads all [] seen w t =
        (w, refl, subst (λ es. Tracks es w) (sym (append-nil seen)) t)
    receive-Tracks index leads all (event ∷ events) seen w t =
        elim (Bool-cases (contains index (find_or [] event leads))) [
          | inl leads_there ↦
              let (w', done, t') =
                receive-Tracks index leads all events (seen ++ event ∷ []) (bump metadata event w)
                  (Tracks-bump seen event w t) in
              (
                w',
                rw (receive, leads_there) done,
                subst (λ es. Tracks es w') (append_assoc seen (event ∷ []) events) t',
              )
          | inr elsewhere ↦
              let unnamed : mentions event request ≡ false = ground (arith, elsewhere, all event) in
              let (w', done, t') =
                receive-Tracks index leads all events (seen ++ event ∷ []) w
                  (Tracks-other seen event w unnamed t) in
              (
                w',
                rw (receive, elsewhere) done,
                subst (λ es. Tracks es w') (append_assoc seen (event ∷ []) events) t',
              )
        ]
