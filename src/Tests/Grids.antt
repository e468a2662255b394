-- ===== src/Tests/Grids.antt =====
-- A publication of a box in src/server/pubsub.cc, to one client that has subscribed to the same box.
use tpst.Prelude.{[], ◌∷◌, pos, Bytes, codes}
use tpst.StdMap.{bytes_key, int_key, nat_key}
use tpst.Utils.StrParse.RoundTrip.{box}
use tpst.PubSub.State.{PubsubWrapper, State}
use tpst.PubSub.Grid.Overlap.{fields}
use tpst.PubSub.Subscribe.{new_wrapper}
use tpst.Tests.Texts.{low, high}

abbrev square : Bytes
square = box (fields low) (fields high)

abbrev square_wrapper : PubsubWrapper
square_wrapper =
    new_wrapper (codes "c") (codes "addr") (codes "META_GRID") square
      ((codes "T1", pos 1 ∷ []) ∷ [])

abbrev square_client : State
square_client = record {
  sub_to_client = (codes "T1", (codes "c", 0) ∷ []) ∷ [];
  get_index_map = (codes "T1", codes "T1" ∷ []) ∷ [];
  heap = (0, square_wrapper) ∷ [];
  next = 1;
}
