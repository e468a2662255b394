-- ===== src/PubSub/Grid.antt =====
-- `checkIfTriggureMetaGrid` of src/server/pubsub.cc: do the published and the subscribed bounding
-- boxes meet?
pub mod Overlap
use tpst.Prelude.{
  ℕ, zero, suc, Bool, true, false, ◌||◌, List, [], ◌∷◌, Option, none, some, ℤ, ltb_ℤ, Bytes, Result,
  ok, err, ◌>>=◌, bad_index, get_elem?, if◌then◌else◌,
}
use tpst.Utils.StrParse.{find, or_fail, get_grid_from_raw_meta, get_bbx_from_grid_meta}
use tpst.PubSub.State.{PubsubWrapper}

-- The first two coordinates of a corner. The messages read them first, whatever the box holds.
abbrev corner : List ℤ → Result (ℤ × ℤ)
corner v = do
  x ← or_fail (get_elem? v 0) bad_index
  y ← or_fail (get_elem? v 1) bad_index
  ok (x, y)

-- The two tests on `sublb`, `subub`, `publb` and `pubub`.
pub boxes_meet : ℤ × ℤ → ℤ × ℤ → ℤ × ℤ → ℤ × ℤ → Bool
boxes_meet publb pubub sublb subub =
    if ltb_ℤ pubub.0 sublb.0 || ltb_ℤ subub.0 publb.0
    then false
    else if ltb_ℤ subub.1 publb.1 || ltb_ℤ pubub.1 sublb.1
    then false
    else true

check_sub_grid : ℤ × ℤ → ℤ × ℤ → Bytes → Result Bool
unfolding boxes_meet
check_sub_grid publb pubub sub_metadata = do
  sub ← get_bbx_from_grid_meta sub_metadata
  sublb ← corner sub.0
  subub ← corner sub.1
  ok (boxes_meet publb pubub sublb subub)

pub check_if_triggure_meta_grid : PubsubWrapper → Bytes → Result Bool
unfolding check_sub_grid find
check_if_triggure_meta_grid psw published_meta = do
  grid ← get_grid_from_raw_meta published_meta
  box ← get_bbx_from_grid_meta grid
  publb ← corner box.0
  pubub ← corner box.1
  elim (find b':' psw.sub_metadata) [
    | none ↦ ok false
    | some position ↦ check_sub_grid publb pubub psw.sub_metadata
  ]
