-- ===== src/PubSub/Publish/Gridded.antt =====
-- A whole call of `pubsubPublish` of src/server/pubsub.cc with the match type `META_GRID`.
use tpst.Prelude.{
  ℕ, ◌≡◌, ◌↔◌, ◌⊎◌, refl, ◌∙◌, Bool, true, false, ◌||◌, List, [], ◌∷◌, none, some, Bytes, codes,
  bytes_eq, Result, ok, err, if◌then◌else◌,
}
use tpst.StdMap.{bytes_key, nat_key, Map, find, find_or, contains}
use tpst.Utils.StrParse as StrParse
use tpst.Utils.StrParse.RoundTrip.{Lacks, box, raw_meta}
use tpst.PubSub.State.{PubsubWrapper, State}
use tpst.PubSub.Grid.{check_if_triggure_meta_grid}
use tpst.PubSub.Grid.Overlap.{Corner, IsGrid, Overlap, fields, point, check_meta_grid-marked}
use tpst.PubSub.Subscribe.Spec.{entry}
use tpst.PubSub.Invariant.{IsWellFormed}
use tpst.PubSub.Publish.{match_wrapper, mark}
use tpst.PubSub.Publish.Spec.{Match}

-- The answer of a check that returns.
abbrev answer : Result Bool → Bool
answer (err e) = false
answer (ok b) = b

-- The check returns for the wrapper.
abbrev Checked : Bytes → PubsubWrapper → Type 0
Checked raw w = (b : Bool) × (check_if_triggure_meta_grid w raw ≡ ok b)

Checked-mark : (raw : Bytes) (w : PubsubWrapper) → Checked raw w → Checked raw (mark raw w)
Checked-mark raw w (b, returned) = (b, check_meta_grid-marked w raw raw true ∙ returned)

match_wrapper-grid :
    (raw event : Bytes) (w : PubsubWrapper)
    → Checked raw w
    → match_wrapper (codes "META_GRID") raw event w
      ≡ ok (w, answer (check_if_triggure_meta_grid w raw))
unfolding match_wrapper bytes_eq
match_wrapper-grid raw event w (b, returned) = rw (returned, match_wrapper) refl

-- Nothing is counted, and the check is of the metadata alone.
abbrev by_grid : (raw : Bytes) → Match (codes "META_GRID") raw
by_grid raw = record {
  counted = λ event w. w;
  triggers = λ event w. answer (check_if_triggure_meta_grid w raw);
  Fits = Checked raw;
  matches = λ event w fits. match_wrapper-grid raw event w fits;
  counted_fits = λ event w fits. fits;
  mark_fits = Checked-mark raw;
}

-- Some event of the publication leads to the index event.
abbrev pub leads_to : Bytes → Map Bytes (List Bytes) → List Bytes → Bool
leads_to index leads [] = false
leads_to index leads (event ∷ events) =
    contains index (find_or [] event leads) || leads_to index leads events

abbrev marked_if : Bytes → Bool → PubsubWrapper → PubsubWrapper
marked_if raw b w = if b then mark raw w else w

-- Every wrapper is a subscription to a box, or its metadata has no `:`.
pub record Subscribes (w : PubsubWrapper) : Type 0 where
  pub boxed :
      ((lb : Corner) × (ub : Corner) × IsGrid lb ub
        × (w.sub_metadata ≡ box (fields lb) (fields ub)))
      ⊎ (StrParse.find b':' w.sub_metadata ≡ none)

module _ (plb pub_ub : Corner) (number : Bytes) (grid : IsGrid plb pub_ub)
    (percent : Lacks b'%' (box (fields plb) (fields pub_ub))) where
  abbrev published : Bytes
  published = raw_meta (box (fields plb) (fields pub_ub)) number

  -- `s'` is `s` after the publication of the box: the tables stay where they are, a client that has
  -- subscribed to a box is marked with the publisher's metadata exactly if some event of the
  -- publication leads to its index event and the two boxes share a point, a client whose metadata has
  -- no `:` is as it was, and nobody's publications are counted.
  pub record Boxed (events : List Bytes) (s s' : State) : Type 0 where
    pub same_clients : s'.sub_to_client ≡ s.sub_to_client
    pub same_leads : s'.get_index_map ≡ s.get_index_map
    pub well_formed : IsWellFormed s'
    pub boxes :
        (i c : Bytes) (p : ℕ) (w : PubsubWrapper) (lb ub : Corner)
        → entry i c s ≡ some p
        → find p s.heap ≡ some w
        → IsGrid lb ub
        → w.sub_metadata ≡ box (fields lb) (fields ub)
        → (b : Bool) × (find p s'.heap ≡ some (if b then mark published w else w))
          × ((b ≡ true) ↔ (
              (leads_to i s.get_index_map events ≡ true)
              × Overlap (point plb) (point pub_ub) (point lb) (point ub)))
    pub others :
        (i c : Bytes) (p : ℕ) (w : PubsubWrapper)
        → entry i c s ≡ some p
        → find p s.heap ≡ some w
        → StrParse.find b':' w.sub_metadata ≡ none
        → find p s'.heap ≡ some w
