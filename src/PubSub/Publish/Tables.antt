-- ===== src/PubSub/Publish/Tables.antt =====
-- `pubsubPublish` of src/server/pubsub.cc over all tables: whoever is filed below an index event that
-- the published event leads to receives it once.
use tpst.Prelude.{
  ℕ, ◌≡◌, ◌≢◌, refl, sym, Bool, true, false, ◌||◌, List, [], ◌∷◌, Option, none, some, Bytes,
  bytes_eq_iff, bytes_lt_irrefl, ok, arith, All, if◌then◌else◌, ◌==◌, ==_iff, Bool-cases, inl, inr,
  Option-cases, ◌∙◌, ap,
}
use mathlib.Core.Path.{subst}
use tpst.StdMap.{bytes_key, nat_key, Map, find, find_or, contains, keys}
use tpst.StdMap.Laws.{find_or-some}
use tpst.StdMap.Sorted.{Above, IsSorted, find-Above, find-tail, find_self, entries-find}
use tpst.PubSub.State.{PubsubWrapper, State}
use tpst.PubSub.Subscribe.Spec.{entry}
use tpst.PubSub.Invariant.{IsWellFormed}
use tpst.PubSub.Publish.{publish_clients, publish_indexes}
use tpst.PubSub.Publish.Spec.{Match, gets, gets?, gets-Fits, points_to, Apart, publish_clients-gets}

points_to-find :
    (m : Map Bytes ℕ) (q : ℕ)
    → IsSorted (keys m)
    → points_to m q ≡ true
    → (c : Bytes) × (find c m ≡ some q)
unfolding points_to
points_to-find [] q s h = absurd (cc)
points_to-find ((c, p) ∷ m) q s h = elim (Bool-cases (p == q)) [
  | inl e ↦ (c, find_self c p m ∙ ap some ((==_iff p q).0 e))
  | inr e ↦ let (d, f) = points_to-find m q s.1 (rw e at h) in (d, find-tail c d q p m s.0 f)
]

find-points_to : (m : Map Bytes ℕ) (c : Bytes) (q : ℕ) → find c m ≡ some q → points_to m q ≡ true
unfolding points_to find
find-points_to [] c q h = cc
find-points_to ((d, p) ∷ m) c q h = ground (arith, find-points_to m c q)

-- A table in which no address stands below two clients.
Apart-of_unique :
    (m : Map Bytes ℕ)
    → IsSorted (keys m)
    → ((c d : Bytes) (q : ℕ) → find c m ≡ some q → find d m ≡ some q → c ≡ d)
    → Apart m
Apart-of_unique [] s unique = tt
Apart-of_unique ((c, p) ∷ m) s unique = (
  elim (Bool-cases (points_to m p)) [
    | inl e ↦
        let (d, f) = points_to-find m p s.1 e in
        let same : c ≡ d = unique c d p (find_self c p m) (find-tail c d p p m s.0 f) in
        ground (arith, same, f, find-Above c m s.0)
    | inr e ↦ e
  ],
  Apart-of_unique m s.1
      (λ a b q f g. unique a b q (find-tail c a q p m s.0 f) (find-tail c b q p m s.0 g)),
)

-- Is some client below one of the index events at `q`?
pub reached : Map Bytes (Map Bytes ℕ) → List Bytes → ℕ → Bool
reached subs [] q = false
reached subs (i ∷ indexes) q = points_to (find_or [] i subs) q || reached subs indexes q

pub reached-nil : (subs : Map Bytes (Map Bytes ℕ)) (q : ℕ) → reached subs [] q ≡ false
unfolding reached
reached-nil subs q = refl

module _ (s : State) (wf : IsWellFormed s) where
  reached-apart :
      (i : Bytes) (indexes : List Bytes) (q : ℕ)
      → Above i indexes
      → points_to (find_or [] i s.sub_to_client) q ≡ true
      → reached s.sub_to_client indexes q ≡ false
  unfolding reached
  reached-apart i [] q a h = refl
  reached-apart i (j ∷ indexes) q a h =
      elim (Bool-cases (points_to (find_or [] j s.sub_to_client) q)) [
        | inl e ↦
            let (c, f) = points_to-find _ q (wf.client_tables i) h in
            let (d, g) = points_to-find _ q (wf.client_tables j) e in
            let same : i ≡ j = (wf.unique i c j d q f g).0 in
            ground (arith, same, a.0, bytes_lt_irrefl j)
        | inr e ↦ rw e (reached-apart i indexes q a.1 h)
      ]

  pub reached-contains :
      (i c : Bytes) (q : ℕ) (indexes : List Bytes)
      → entry i c s ≡ some q
      → reached s.sub_to_client indexes q ≡ contains i indexes
  unfolding reached contains
  reached-contains i c q [] h = refl
  reached-contains i c q (j ∷ indexes) h =
      elim (Bool-cases (points_to (find_or [] j s.sub_to_client) q)) [
        | inl e ↦
            let (d, g) = points_to-find _ q (wf.client_tables j) e in
            let same : i ≡ j = (wf.unique i c j d q h g).0 in
            ground (arith, e, same, bytes_eq_iff j i)
        | inr e ↦ ground (
          arith,
          e,
          reached-contains i c q indexes h,
          bytes_eq_iff j i,
          find-points_to (find_or [] i s.sub_to_client) c q h,
        )
      ]

  -- Another heap in which nothing was deleted.
  pub heap-IsWellFormed :
      (heap : Map ℕ PubsubWrapper)
      → ((q : ℕ)
          → (w : PubsubWrapper) × (find q s.heap ≡ some w)
          → (w : PubsubWrapper) × (find q heap ≡ some w))
      → IsWellFormed (record s { heap = heap })
  heap-IsWellFormed heap keeps = record {
    indexed = wf.indexed;
    live = λ i c p h. keeps p (wf.live i c p h);
    used = wf.used;
    unique = wf.unique;
    index_sets = wf.index_sets;
    client_tables = wf.client_tables;
  }

module _ {match_type metadata : Bytes} (m : Match match_type metadata) where
  -- Every wrapper fits the match.
  abbrev pub AllFit : Map ℕ PubsubWrapper → Type 0
  AllFit heap = (q : ℕ) (w : PubsubWrapper) → find q heap ≡ some w → m.Fits w

some-same {ℓ} : {A : Type ℓ} {a b : A} → some a ≡ some b → a ≡ b
some-same h = cc

module _ {match_type metadata : Bytes} (m : Match match_type metadata) (event : Bytes) where
  -- A heap on which the addresses of `hit` have each received the event once.
  abbrev pub Received : (ℕ → Bool) → Map ℕ PubsubWrapper → Map ℕ PubsubWrapper → Type 0
  Received hit before after =
      (q : ℕ) → find q after ≡ (if hit q then gets? m event (find q before) else find q before)

  pub Received-live :
      (hit : ℕ → Bool) (before after : Map ℕ PubsubWrapper)
      → Received hit before after
      → (q : ℕ) → (w : PubsubWrapper) × (find q before ≡ some w)
      → (w : PubsubWrapper) × (find q after ≡ some w)
  Received-live hit before after r q (w, f) = elim (Bool-cases (hit q)) [
    | inl e ↦ (gets m event w, r q ∙ rw (e, f))
    | inr e ↦ (w, r q ∙ rw (e, f))
  ]

  gets?-Fits :
      (o : Option PubsubWrapper) (w : PubsubWrapper)
      → ((v : PubsubWrapper) → o ≡ some v → m.Fits v)
      → gets? m event o ≡ some w
      → m.Fits w
  gets?-Fits none w fits h = cc
  gets?-Fits (some v) w fits h = subst m.Fits (some-same h) (gets-Fits m event v (fits v refl))

  pub Received-AllFit :
      (hit : ℕ → Bool) (before after : Map ℕ PubsubWrapper)
      → Received hit before after
      → AllFit m before
      → AllFit m after
  Received-AllFit hit before after r fits q w f = elim (Bool-cases (hit q)) [
    | inl e ↦ gets?-Fits (find q before) w (fits q) (sym (r q ∙ rw e refl) ∙ f)
    | inr e ↦ fits q w (sym (r q ∙ rw e refl) ∙ f)
  ]

  Received-trans :
      (first rest : ℕ → Bool) (a b c : Map ℕ PubsubWrapper)
      → ((q : ℕ) → first q ≡ true → rest q ≡ false)
      → Received first a b
      → Received rest b c
      → Received (λ q. first q || rest q) a c
  Received-trans first rest a b c apart r t q = ground (arith, apart q, r q, t q)

  publish_table :
      (index : Bytes) (s : State) (clients : Map Bytes ℕ)
      → IsWellFormed s
      → AllFit m s.heap
      → find index s.sub_to_client ≡ some clients
      → (heap : Map ℕ PubsubWrapper) × (publish_clients match_type metadata event index clients s
          ≡ ok (record s { heap = heap }))
        × Received (points_to (find_or [] index s.sub_to_client)) s.heap heap
  publish_table index s clients wf fits at_index = rw same (
      publish_clients-gets m event index clients s
        (subst (λ m. All (λ e. find e.0 m ≡ some e.1) clients) (sym same)
          (entries-find clients sorted))
        (Apart-of_unique clients sorted
          (λ c d q f g. (wf.unique index c index d q (rw same f) (rw same g)).1))
        (λ q h.
          let (c, f) = points_to-find clients q sorted h in
          let (w, there) = wf.live index c q (rw same f) in (w, there, fits q w there)))
    where
      same : find_or [] index s.sub_to_client ≡ clients
      same = find_or-some [] index clients s.sub_to_client at_index

      sorted : IsSorted (keys clients)
      sorted = subst (λ m. IsSorted (keys m)) same (wf.client_tables index)

  pub publish_indexes-gets :
      (indexes : List Bytes) (s : State)
      → IsWellFormed s
      → AllFit m s.heap
      → IsSorted indexes
      → ((i : Bytes) → contains i indexes ≡ true → find i s.sub_to_client ≢ none)
      → (heap : Map ℕ PubsubWrapper) × (publish_indexes match_type metadata event indexes s
          ≡ ok (true, record s { heap = heap }))
        × Received (reached s.sub_to_client indexes) s.heap heap
  unfolding publish_indexes reached
  publish_indexes-gets [] s wf fits sorted filed = (s.heap, refl, λ q. refl)
  publish_indexes-gets (i ∷ indexes) s wf fits sorted filed =
      elim (Option-cases (find i s.sub_to_client)) [
        | inl e ↦ absurd (filed i (unfold contains in ground (arith, bytes_eq_iff i i)) e)
        | inr (clients, e) ↦
            let (heap, done, r) = publish_table i s clients wf fits e in
            let (heap', done', r') =
              publish_indexes-gets indexes (record s { heap = heap })
                (heap-IsWellFormed s wf heap (Received-live _ s.heap heap r))
                (Received-AllFit _ s.heap heap r fits) sorted.1
                (λ j h. filed j (unfold contains in ground (arith, h))) in
            (
              heap',
              rw (e, publish_indexes, done) done',
              Received-trans _ _ s.heap heap heap'
                  (λ q h. reached-apart s wf i indexes q sorted.0 h) r r',
            )
      ]
