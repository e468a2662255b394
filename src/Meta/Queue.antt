-- ===== src/Meta/Queue.antt =====
-- The queues of src/metadatamanagement/metaserver.cc against queues that are functions of the key.
use tpst.Prelude.{
  ◌≡◌, refl, List, [], ◌∷◌, ◌++◌, Bytes, codes, bytes_eq, bytes_eq_iff, arith, if◌then◌else◌,
}
use tpst.StdMap.{bytes_key, find_or}
use tpst.StdMap.Laws.{find_or-put}
use tpst.Meta.{MetaState, put_meta, get_meta}

pub data QueueRequest : Type 0 where
  put_request : Bytes → Bytes → QueueRequest
  get_request : Bytes → QueueRequest

-- The requests in the order in which they are served, with their replies.
abbrev pub serve_request : QueueRequest → MetaState → Bytes × MetaState
serve_request (put_request key meta) s = put_meta key meta s
serve_request (get_request key) s = get_meta key s

pub serve : List QueueRequest → MetaState → List Bytes × MetaState
serve [] s = ([], s)
serve (r ∷ rs) s =
    let first = serve_request r s in let rest = serve rs first.1 in (first.0 ∷ rest.0, rest.1)

-- The contract: each key has a queue, empty at first.
abbrev pub Queues : Type 0
Queues = Bytes → List Bytes

abbrev pub set_queue : Bytes → List Bytes → Queues → Queues
set_queue key queue q = λ k. if bytes_eq key k then queue else q k

abbrev pub head_or_null : List Bytes → Bytes
head_or_null [] = codes "NULL"
head_or_null (meta ∷ rest) = meta

abbrev pub tail_of : List Bytes → List Bytes
tail_of [] = []
tail_of (meta ∷ rest) = rest

abbrev pub request_contract : QueueRequest → Queues → Bytes × Queues
request_contract (put_request key meta) q = (codes "OK", set_queue key (q key ++ meta ∷ []) q)
request_contract (get_request key) q = (head_or_null (q key), set_queue key (tail_of (q key)) q)

abbrev pub contract : List QueueRequest → Queues → List Bytes × Queues
contract [] q = ([], q)
contract (r ∷ rs) q =
    let first = request_contract r q in let rest = contract rs first.1 in (first.0 ∷ rest.0, rest.1)

-- The queue of each key in the tables: an absent key is an empty queue.
abbrev pub queues_of : MetaState → Queues
queues_of s = λ key. find_or [] key s.meta_map

put_meta-refines :
    (key meta : Bytes) (s : MetaState)
    → ((put_meta key meta s).0 ≡ codes "OK")
      × ((k : Bytes)
          → queues_of (put_meta key meta s).1 k
            ≡ set_queue key (queues_of s key ++ meta ∷ []) (queues_of s) k)
unfolding put_meta find_or
put_meta-refines key meta s = (
  ground arith,
  λ k. ground (arith, find_or-put [] k key (queues_of s key ++ meta ∷ []) s.meta_map),
)

get_meta-refines :
    (key : Bytes) (s : MetaState)
    → ((get_meta key s).0 ≡ head_or_null (queues_of s key))
      × ((k : Bytes)
          → queues_of (get_meta key s).1 k
            ≡ set_queue key (tail_of (queues_of s key)) (queues_of s) k)
unfolding get_meta find_or
get_meta-refines key s = (
  ground arith,
  λ k.
      ground
        (arith, bytes_eq_iff key k, find_or-put [] k key (tail_of (queues_of s key)) s.meta_map),
)

pub request-refines :
    (r : QueueRequest) (s : MetaState) (q : Queues)
    → ((k : Bytes) → queues_of s k ≡ q k)
    → ((serve_request r s).0 ≡ (request_contract r q).0)
      × ((k : Bytes) → queues_of (serve_request r s).1 k ≡ (request_contract r q).1 k)
request-refines (put_request key meta) s q h =
    let (reply, queues) = put_meta-refines key meta s in
    (reply, λ k. ground (arith, queues k, h k, h key))
request-refines (get_request key) s q h =
    let (reply, queues) = get_meta-refines key s in
    (ground (arith, reply, h key), λ k. ground (arith, queues k, h k, h key))

-- Any sequence of `Putmeta` and `Getmeta` requests answers as one queue for each key would, first in,
-- first out: a put appends at its own key, a get takes the front or answers "NULL" on an empty
-- queue, and the tables agree with the queues at every key afterwards.
pub serve-refines :
    (rs : List QueueRequest) (s : MetaState) (q : Queues)
    → ((k : Bytes) → queues_of s k ≡ q k)
    → ((serve rs s).0 ≡ (contract rs q).0)
      × ((k : Bytes) → queues_of (serve rs s).1 k ≡ (contract rs q).1 k)
unfolding serve
serve-refines [] s q h = (refl, h)
serve-refines (r ∷ rs) s q h =
    let (reply, queues) = request-refines r s q h in
    let (replies, after) = serve-refines rs (serve_request r s).1 (request_contract r q).1 queues in
    (λ i. reply i ∷ replies i, after)
