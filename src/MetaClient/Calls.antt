-- ===== src/MetaClient/Calls.antt =====
-- The queues of src/metadatamanagement/metaserver.cc as the client of
-- src/metadatamanagement/metaclient.cc sees them over a network that loses messages.
use tpst.Prelude.{◌≡◌, refl, List, [], ◌∷◌, Bytes, codes}
use tpst.Rpc.{Fate, delivered, request_lost, reply_lost, through}
use tpst.Meta.{MetaState, put_meta, get_meta}
use tpst.Meta.Queue.{
  QueueRequest, put_request, get_request, Queues, request_contract, queues_of, request-refines,
}
use tpst.MetaClient.{PutRequest, getmeta, putmeta}

abbrev put_handler : PutRequest → MetaState → Bytes × MetaState
put_handler r s = put_meta r.key r.value s

-- The client's calls, one after the other, each with its fate; the replies and the server.
abbrev pub client_call : Fate → QueueRequest → MetaState → Bytes × MetaState
client_call fate (put_request key meta) s = putmeta (through fate put_handler) key meta s
client_call fate (get_request key) s = getmeta (through fate get_meta) key s

unfoldable pub client_calls : List (Fate × QueueRequest) → MetaState → List Bytes × MetaState
client_calls [] s = ([], s)
client_calls ((fate, r) ∷ calls) s =
    let first = client_call fate r s in
    let rest = client_calls calls first.1 in (first.0 ∷ rest.0, rest.1)

-- The contract over the network: a call whose request or reply is lost gives "RPC failed", and only
-- that of the request leaves the queues alone.
abbrev pub call_contract : Fate → QueueRequest → Queues → Bytes × Queues
call_contract delivered r q = request_contract r q
call_contract request_lost r q = (codes "RPC failed", q)
call_contract reply_lost r q = (codes "RPC failed", (request_contract r q).1)

abbrev pub calls_contract : List (Fate × QueueRequest) → Queues → List Bytes × Queues
calls_contract [] q = ([], q)
calls_contract ((fate, r) ∷ calls) q =
    let first = call_contract fate r q in
    let rest = calls_contract calls first.1 in (first.0 ∷ rest.0, rest.1)

client_call-refines :
    (fate : Fate) (r : QueueRequest) (s : MetaState) (q : Queues)
    → ((k : Bytes) → queues_of s k ≡ q k)
    → ((client_call fate r s).0 ≡ (call_contract fate r q).0)
      × ((k : Bytes) → queues_of (client_call fate r s).1 k ≡ (call_contract fate r q).1 k)
unfolding putmeta getmeta
client_call-refines delivered (put_request key meta) s q h =
    request-refines (put_request key meta) s q h
client_call-refines delivered (get_request key) s q h = request-refines (get_request key) s q h
client_call-refines request_lost (put_request key meta) s q h = (refl, h)
client_call-refines request_lost (get_request key) s q h = (refl, h)
client_call-refines reply_lost (put_request key meta) s q h =
    (refl, (request-refines (put_request key meta) s q h).1)
client_call-refines reply_lost (get_request key) s q h =
    (refl, (request-refines (get_request key) s q h).1)

-- Any sequence of puts and gets through the client, whatever the network loses: the replies are those
-- of one queue for each key, first in, first out, where a call whose request or reply is lost gives
-- "RPC failed"; a lost reply still appends, or takes the front, which no client then gets.
pub client_calls-refine :
    (calls : List (Fate × QueueRequest)) (s : MetaState) (q : Queues)
    → ((k : Bytes) → queues_of s k ≡ q k)
    → ((client_calls calls s).0 ≡ (calls_contract calls q).0)
      × ((k : Bytes) → queues_of (client_calls calls s).1 k ≡ (calls_contract calls q).1 k)
unfolding client_calls
client_calls-refine [] s q h = (refl, h)
client_calls-refine ((fate, r) ∷ calls) s q h =
    let (reply, queues) = client_call-refines fate r s q h in
    let (replies, after) =
      client_calls-refine calls (client_call fate r s).1 (call_contract fate r q).1 queues in
    (λ i. reply i ∷ replies i, after)
