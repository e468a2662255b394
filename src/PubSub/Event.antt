-- ===== src/PubSub/Event.antt =====
-- `ParseEvent` of src/server/pubsub.cc: an event `name:number`, or `name` for the number 1.
use tpst.Prelude.{List, [], ◌∷◌, ℤ, pos, Bytes, codes, Result, ok, err, ◌>>=◌, bad_index}
use tpst.Utils.Split.{split}
use tpst.Utils.Stoi.{stoi}

-- The branches on `v.size()`. An event of separators only has no part, and `v[0]` does not exist.
of_parts : List Bytes → Result (Bytes × ℤ)
of_parts [] = err bad_index
of_parts (name ∷ []) = ok (name, pos 1)
of_parts (name ∷ number ∷ rest) = do n ← stoi number; ok (name, n)

unfoldable pub parse_event : Bytes → Result (Bytes × ℤ)
unfolding of_parts
parse_event full_event = do v ← split full_event (codes ":"); of_parts v
