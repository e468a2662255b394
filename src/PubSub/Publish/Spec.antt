-- ===== src/PubSub/Publish/Spec.antt =====
-- What `pubsubPublish` of src/server/pubsub.cc does to the clients below one index event, for a match
-- type whose match is known.
use tpst.Prelude.{
  ℕ, ◌≡◌, refl, Bool, true, false, [], ◌∷◌, Option, none, some, Bytes, codes, bytes_eq, ok, arith,
  All, if◌then◌else◌, ◌==◌, Bool-cases, inl, inr,
}
use tpst.StdMap.{bytes_key, nat_key, Map, find, put}
use tpst.StdMap.Laws.{find-put}
use tpst.PubSub.State.{PubsubWrapper, State, deref, store}
use tpst.PubSub.Trigger.{check_if_triggure}
use tpst.PubSub.Subscribe.Spec.{entry}
use tpst.PubSub.Publish.{
  count_event, match_wrapper, pointer_at, mark, mark_triggered, publish_client, publish_clients,
}

-- What the match of one type does to a wrapper that fits it, for one publication.
pub record Match (match_type metadata : Bytes) : Type 1 where
  pub counted : Bytes → PubsubWrapper → PubsubWrapper
  pub triggers : Bytes → PubsubWrapper → Bool
  pub Fits : PubsubWrapper → Type 0
  pub matches :
      (event : Bytes) (w : PubsubWrapper)
      → Fits w
      → match_wrapper match_type metadata event w ≡ ok (counted event w, triggers event w)
  pub counted_fits : (event : Bytes) (w : PubsubWrapper) → Fits w → Fits (counted event w)
  pub mark_fits : (w : PubsubWrapper) → Fits w → Fits (mark metadata w)

unfoldable pub by_name : (metadata : Bytes) → Match (codes "NAME") metadata
unfolding match_wrapper bytes_eq
by_name metadata = record {
  counted = count_event;
  triggers = λ event w. check_if_triggure (count_event event w);
  Fits = λ w. Unit;
  matches = λ event w fits. refl;
  counted_fits = λ event w fits. tt;
  mark_fits = λ w fits. tt;
}

module _ {match_type metadata : Bytes} (m : Match match_type metadata) where
  -- One publication, as one client sees it: the client is marked for notification, with the
  -- publisher's metadata, when the match says so.
  abbrev pub gets : Bytes → PubsubWrapper → PubsubWrapper
  gets event w = if m.triggers event w then mark metadata (m.counted event w) else m.counted event w

  abbrev pub gets? : Bytes → Option PubsubWrapper → Option PubsubWrapper
  gets? event none = none
  gets? event (some w) = some (gets event w)

  pub gets-Fits : (event : Bytes) (w : PubsubWrapper) → m.Fits w → m.Fits (gets event w)
  gets-Fits event w fits =
      ground (arith, fits, m.counted_fits event w, m.mark_fits (m.counted event w))

-- By name the event is counted, and the client is marked when that completes what it requires.
abbrev pub bump : Bytes → Bytes → PubsubWrapper → PubsubWrapper
bump metadata event w =
    if check_if_triggure (count_event event w)
    then mark metadata (count_event event w)
    else count_event event w

abbrev pub bump? : Bytes → Bytes → Option PubsubWrapper → Option PubsubWrapper
bump? metadata event none = none
bump? metadata event (some w) = some (bump metadata event w)

-- Does some client of the table stand at `q`?
unfoldable pub points_to : Map Bytes ℕ → ℕ → Bool
points_to [] q = false
points_to ((c, p) ∷ clients) q = if p == q then true else points_to clients q

-- No two clients of a table stand at one address.
abbrev pub Apart : Map Bytes ℕ → Type 0
Apart [] = Unit
Apart ((c, p) ∷ clients) = (points_to clients p ≡ false) × Apart clients

pub deref-live : (p : ℕ) (s : State) (w : PubsubWrapper) → find p s.heap ≡ some w → deref p s ≡ ok w
unfolding deref
deref-live p s w live = rw (live, deref)

points_to-tail :
    (c : Bytes) (p : ℕ) (clients : Map Bytes ℕ) (q : ℕ)
    → points_to clients q ≡ true
    → points_to ((c, p) ∷ clients) q ≡ true
unfolding points_to
points_to-tail c p clients q h = ground arith

module _ {match_type metadata : Bytes} (m : Match match_type metadata) (event : Bytes) where
  -- An address with a wrapper that fits.
  abbrev pub Live : Map ℕ PubsubWrapper → ℕ → Type 0
  Live heap q = (w : PubsubWrapper) × (find q heap ≡ some w) × m.Fits w

  got_heap : ℕ → PubsubWrapper → Map ℕ PubsubWrapper → Map ℕ PubsubWrapper
  got_heap p w heap =
      if m.triggers event w
      then put p (mark metadata (m.counted event w)) (put p (m.counted event w) heap)
      else put p (m.counted event w) heap

  find-got_heap :
      (q p : ℕ) (w : PubsubWrapper) (heap : Map ℕ PubsubWrapper)
      → find q (got_heap p w heap) ≡ (if p == q then some (gets m event w) else find q heap)
  unfolding got_heap
  find-got_heap q p w heap = elim (Bool-cases (m.triggers event w)) [
    | inl e ↦
        rw (e, got_heap)
          (ground (
            arith,
            find-put q p (m.counted event w) heap,
            find-put q p (mark metadata (m.counted event w)) (put p (m.counted event w) heap),
          ))
    | inr e ↦ rw (e, got_heap) (find-put q p (m.counted event w) heap)
  ]

  got_heap-Live :
      (q p : ℕ) (w : PubsubWrapper) (heap : Map ℕ PubsubWrapper)
      → m.Fits w
      → Live heap q
      → Live (got_heap p w heap) q
  got_heap-Live q p w heap fits (v, old, fits') = elim (Bool-cases (p == q)) [
    | inl e ↦ (gets m event w, rw find-got_heap (rw e), gets-Fits m event w fits)
    | inr e ↦ (v, rw find-got_heap (rw (e, old)), fits')
  ]

  -- The first client is not visited again by the rest.
  got_once :
      (p : ℕ) (w : PubsubWrapper) (clients : Map Bytes ℕ) (before after : Map ℕ PubsubWrapper)
      → find p before ≡ some w
      → points_to clients p ≡ false
      → (q : ℕ)
      → find q after ≡ (
          if points_to clients q
          then gets? m event (find q (got_heap p w before))
          else find q (got_heap p w before))
      → find q after ≡ (
          if (if p == q then true else points_to clients q)
          then gets? m event (find q before)
          else find q before)
  got_once p w clients before after at_p apart q found =
      ground (arith, found, find-got_heap q p w before, apart, at_p)

  mark_triggered-counted :
      (index client : Bytes) (p : ℕ) (s : State) (w : PubsubWrapper) (b : Bool)
      → entry index client s ≡ some p
      → mark_triggered metadata index client b (store p w s)
        ≡ ok (record s {
          heap = if b then put p (mark metadata w) (put p w s.heap) else put p w s.heap;
        })
  unfolding mark_triggered pointer_at deref
  mark_triggered-counted index client p s w false linked = refl
  mark_triggered-counted index client p s w true linked = ground (arith, find-put p p w s.heap)

  publish_client-gets :
      (index client : Bytes) (p : ℕ) (s : State) (w : PubsubWrapper)
      → entry index client s ≡ some p
      → find p s.heap ≡ some w
      → m.Fits w
      → publish_client match_type metadata event index client p s
        ≡ ok (record s { heap = got_heap p w s.heap })
  unfolding publish_client got_heap
  publish_client-gets index client p s w linked live fits =
      rw (deref-live p s w live, publish_client, m.matches event w fits)
        (mark_triggered-counted index client p s (m.counted event w) _ linked)

  -- The clients of a table, one after the other.
  pub publish_clients-gets :
      (index : Bytes) (clients : Map Bytes ℕ) (s : State)
      → All (λ e. entry index e.0 s ≡ some e.1) clients
      → Apart clients
      → ((q : ℕ) → points_to clients q ≡ true → Live s.heap q)
      → (heap : Map ℕ PubsubWrapper) × (publish_clients match_type metadata event index clients s
          ≡ ok (record s { heap = heap }))
        × ((q : ℕ)
            → find q heap
              ≡ (if points_to clients q then gets? m event (find q s.heap) else find q s.heap))
  unfolding publish_clients points_to
  publish_clients-gets index [] s linked apart live = (s.heap, refl, λ q. refl)
  publish_clients-gets index ((c, p) ∷ clients) s linked apart live =
      let (w, at_p, fits) = live p (ground arith) in
      let (heap, done, found) =
        publish_clients-gets index clients (record s { heap = got_heap p w s.heap }) linked.1
          apart.1
          (λ q h. got_heap-Live q p w s.heap fits (live q (points_to-tail c p clients q h))) in
      (
        heap,
        rw (publish_client-gets index c p s w linked.0 at_p fits) done,
        λ q. got_once p w clients s.heap heap at_p apart.0 q (found q),
      )
