-- ===== src/Meta/Space.antt =====
-- The space of src/metadatamanagement/metaserver.cc: the first value of a key stays.
use tpst.Prelude.{
  ◌≡◌, [], ◌∷◌, none, some, Bytes, codes, bytes_eq, bytes_eq_iff, arith, if◌then◌else◌,
}
use tpst.StdMap.{bytes_key, Map, find}
use tpst.StdMap.Laws.{find-put}
use tpst.Meta.{MetaState, put_meta_space, get_meta_space}

-- `Putmetaspace` requests, in the order in which they are served.
abbrev pub put_all : Map Bytes Bytes → MetaState → MetaState
put_all [] s = s
put_all ((key, meta) ∷ requests) s = put_all requests (put_meta_space key meta s).1

put_meta_space-find :
    (key meta : Bytes) (s : MetaState) (k : Bytes)
    → find k (put_meta_space key meta s).1.meta_space ≡ elim (find k s.meta_space) [
      | some old ↦ some old
      | none ↦ if bytes_eq key k then some meta else none
    ]
unfolding put_meta_space
put_meta_space-find key meta s k =
    ground (arith, bytes_eq_iff key k, find-put k key meta s.meta_space)

-- `Getmetaspace` after any `Putmetaspace` requests answers the value that the key had before them; a
-- key that had none has the value of the first request that names it, and "NULL" where none does.
pub get_meta_space-first :
    (requests : Map Bytes Bytes) (s : MetaState) (k : Bytes)
    → get_meta_space k (put_all requests s) ≡ elim (find k s.meta_space) [
      | some old ↦ old
      | none ↦ elim (find k requests) [ some meta ↦ meta | none ↦ codes "NULL" ]
    ]
unfolding get_meta_space find
get_meta_space-first [] s k = ground arith
get_meta_space-first ((key, meta) ∷ requests) s k = ground (
  arith,
  get_meta_space-first requests (put_meta_space key meta s).1 k,
  put_meta_space-find key meta s k,
)
