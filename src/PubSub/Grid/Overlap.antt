-- ===== src/PubSub/Grid/Overlap.antt =====
-- `checkIfTriggureMetaGrid` of src/server/pubsub.cc decides whether two boxes share a point.
use tpst.Prelude.{
  ℕ, ◌≡◌, ◌↔◌, Bool, true, false, List, [], ◌∷◌, ℤ, ltb_ℤ, ◌≤ℤ◌, Bytes, ok, arith, All,
  if◌then◌else◌, some, none, refl,
}
use tpst.Utils.StrParse.{find, get_bbx_from_grid_meta, get_grid_from_raw_meta}
use tpst.Utils.StrParse.RoundTrip.{
  IsField, Lacks, join, texts, numbers, box, raw_meta, get_bbx-box, get_grid-raw_meta, find-box,
}
use tpst.PubSub.State.{PubsubWrapper}
use tpst.PubSub.Grid.{boxes_meet, check_sub_grid, check_if_triggure_meta_grid}

-- The point `p` lies in the box with the corners `lb` and `ub`.
abbrev pub InBox : ℤ × ℤ → ℤ × ℤ → ℤ × ℤ → Type 0
InBox p lb ub = (lb.0 ≤ℤ p.0) × (p.0 ≤ℤ ub.0) × (lb.1 ≤ℤ p.1) × (p.1 ≤ℤ ub.1)

abbrev IsBox : ℤ × ℤ → ℤ × ℤ → Type 0
IsBox lb ub = (lb.0 ≤ℤ ub.0) × (lb.1 ≤ℤ ub.1)

max_ℤ : ℤ → ℤ → ℤ
max_ℤ a b = if ltb_ℤ a b then b else a

-- Two boxes share a point.
abbrev pub Overlap : ℤ × ℤ → ℤ × ℤ → ℤ × ℤ → ℤ × ℤ → Type 0
Overlap publb pubub sublb subub = (p : ℤ × ℤ) × InBox p publb pubub × InBox p sublb subub

boxes_meet_point :
    (publb pubub sublb subub : ℤ × ℤ)
    → IsBox publb pubub
    → IsBox sublb subub
    → boxes_meet publb pubub sublb subub ≡ true
    → Overlap publb pubub sublb subub
unfolding boxes_meet max_ℤ
boxes_meet_point publb pubub sublb subub b c h =
    ((max_ℤ publb.0 sublb.0, max_ℤ publb.1 sublb.1), ground arith, ground arith)

point_boxes_meet :
    (publb pubub sublb subub : ℤ × ℤ)
    → Overlap publb pubub sublb subub
    → boxes_meet publb pubub sublb subub ≡ true
unfolding boxes_meet
point_boxes_meet publb pubub sublb subub (p, i, j) = ground arith

-- A corner of two coordinates, each with its text.
pub record Corner : Type 0 where
  pub x : Bytes × ℤ
  pub y : Bytes × ℤ

abbrev pub fields : Corner → List (Bytes × ℤ)
fields c = c.x ∷ c.y ∷ []

abbrev pub point : Corner → ℤ × ℤ
point c = (c.x.1, c.y.1)

-- A box with readable numbers, no `:` in its first half, and corners in order.
pub record IsGrid (lb ub : Corner) : Type 0 where
  pub lower : All IsField (fields lb)
  pub upper : All IsField (fields ub)
  pub colon : Lacks b':' (join (texts (fields lb)))
  pub ordered : IsBox (point lb) (point ub)

get_bbx-grid :
    (lb ub : Corner)
    → IsGrid lb ub
    → get_bbx_from_grid_meta (box (fields lb) (fields ub))
      ≡ ok (numbers (fields lb), numbers (fields ub))
get_bbx-grid lb ub g = get_bbx-box (fields lb) (fields ub) g.lower g.upper g.colon

-- The steps of the function, given what each of them returns.
check_meta_grid_steps :
    (psw : PubsubWrapper) (raw grid sub : Bytes) (i : ℕ) (publb pubub sublb subub : ℤ × ℤ)
    → get_grid_from_raw_meta raw ≡ ok grid
    → get_bbx_from_grid_meta grid ≡ ok (publb.0 ∷ publb.1 ∷ [], pubub.0 ∷ pubub.1 ∷ [])
    → psw.sub_metadata ≡ sub
    → find b':' sub ≡ some i
    → get_bbx_from_grid_meta sub ≡ ok (sublb.0 ∷ sublb.1 ∷ [], subub.0 ∷ subub.1 ∷ [])
    → check_if_triggure_meta_grid psw raw ≡ ok (boxes_meet publb pubub sublb subub)
unfolding check_if_triggure_meta_grid check_sub_grid
check_meta_grid_steps psw raw grid sub i publb pubub sublb subub e1 e2 e3 e4 e5 = rw (
  e1, check_if_triggure_meta_grid, e2, check_if_triggure_meta_grid, e3, check_if_triggure_meta_grid,
  e4, e3, e5,
)

-- A publication of a box, matched by `META_GRID` against a subscribed box: the check returns, and its
-- answer is yes exactly when the two boxes share a point.
pub check_meta_grid_iff :
    (psw : PubsubWrapper) (plb pub_ub slb sub_ub : Corner) (number : Bytes)
    → IsGrid plb pub_ub
    → IsGrid slb sub_ub
    → Lacks b'%' (box (fields plb) (fields pub_ub))
    → psw.sub_metadata ≡ box (fields slb) (fields sub_ub)
    → (b : Bool) × (check_if_triggure_meta_grid psw
          (raw_meta (box (fields plb) (fields pub_ub)) number)
        ≡ ok b)
      × ((b ≡ true) ↔ Overlap (point plb) (point pub_ub) (point slb) (point sub_ub))
check_meta_grid_iff psw plb pub_ub slb sub_ub number g h percent same = (
  boxes_meet (point plb) (point pub_ub) (point slb) (point sub_ub),
  check_meta_grid_steps psw _ (box (fields plb) (fields pub_ub)) (box (fields slb) (fields sub_ub))
      _ (point plb) (point pub_ub) (point slb) (point sub_ub)
      (get_grid-raw_meta (box (fields plb) (fields pub_ub)) number percent)
      (get_bbx-grid plb pub_ub g) same (find-box (fields slb) (fields sub_ub) h.colon)
      (get_bbx-grid slb sub_ub h),
  (
    boxes_meet_point (point plb) (point pub_ub) (point slb) (point sub_ub) g.ordered h.ordered,
    point_boxes_meet (point plb) (point pub_ub) (point slb) (point sub_ub),
  ),
)

-- A client whose metadata is no box at all.
pub check_meta_grid-no_box :
    (psw : PubsubWrapper) (plb pub_ub : Corner) (number : Bytes)
    → IsGrid plb pub_ub
    → Lacks b'%' (box (fields plb) (fields pub_ub))
    → find b':' psw.sub_metadata ≡ none
    → check_if_triggure_meta_grid psw (raw_meta (box (fields plb) (fields pub_ub)) number)
      ≡ ok false
unfolding check_if_triggure_meta_grid
check_meta_grid-no_box psw plb pub_ub number g percent none_there = rw (
  get_grid-raw_meta (box (fields plb) (fields pub_ub)) number percent,
  check_if_triggure_meta_grid,
  get_bbx-grid plb pub_ub g,
  check_if_triggure_meta_grid,
  none_there,
)

-- The check reads nothing that a notification changes.
pub check_meta_grid-marked :
    (psw : PubsubWrapper) (meta raw : Bytes) (b : Bool)
    → check_if_triggure_meta_grid (record psw { pub_metadata = meta; iftrigure = b }) raw
      ≡ check_if_triggure_meta_grid psw raw
unfolding check_if_triggure_meta_grid
check_meta_grid-marked psw meta raw b = refl
