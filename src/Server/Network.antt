-- ===== src/Server/Network.antt =====
-- The servers of src/server/workflowserver.cc together: what becomes of one `Publish` request, whose
-- handler sends requests to other servers, as `publishMultiServer` and `publishMultiGroup` do.
pub mod Spread
pub mod Same
pub mod Group
pub mod Groups
pub mod Clients
use tpst.Prelude.{
  ℕ, zero, suc, Bool, true, false, bytes_eq, if◌then◌else◌, List, [], ◌∷◌, ◌++◌, Option, none, some,
  Bytes, codes, Result, err, ok, ◌>>=◌, out_of_fuel,
}
use tpst.Server.State.{ServerState}
use tpst.Server.Handlers.{
  Config, PublishRequest, Broadcast, multi_server, multi_group, publish, publish_multi_server,
  publish_multi_group,
}

-- A server with what it reads in its directory, `GM_CLUSTERDIR` and then `worker`.
pub record Member : Type 0 where
  pub config : Config
  pub state : ServerState
  pub worker_list : List Bytes

-- The servers by their addresses, and `coordinatorAddrSet`.
pub record Network : Type 0 where
  pub member : Bytes → Option Member
  pub coordinators : List Bytes

-- What `Publish` of the stub returns: a server that can be reached answers "OK".
abbrev pub answer : Network → Bytes → Bytes
answer n addr = elim (n.member addr) [ none ↦ codes "RPC failed" | some m ↦ codes "OK" ]

-- The requests of one broadcast thread, and those of all that the handler starts.
unfoldable pub requests : Network → Member → Broadcast → List (Bytes × PublishRequest)
unfolding publish_multi_server publish_multi_group
requests n m (multi_server events metadata) =
    publish_multi_server m.config (answer n) events metadata m.worker_list
requests n m (multi_group events metadata) =
    publish_multi_group m.config events metadata n.coordinators

unfoldable pub all_requests : Network → Member → List Broadcast → List (Bytes × PublishRequest)
unfolding requests
all_requests n m [] = []
all_requests n m (b ∷ bs) = requests n m b ++ all_requests n m bs

abbrev pub set_state : Bytes → Member → ServerState → Network → Network
set_state addr m s n = record n {
  member = λ other. if bytes_eq other addr then some (record m { state = s }) else n.member other;
}

-- Requests that are delivered one after the other.
unfoldable pub deliver_all :
    (Network → Bytes × PublishRequest → Result (Network × List (Bytes × Bytes)))
    → Network
    → List (Bytes × PublishRequest)
    → Result (Network × List (Bytes × Bytes))
deliver_all next n [] = ok (n, [])
deliver_all next n (x ∷ xs) = do
  (n', a) ← next n x
  (n'', b) ← deliver_all next n' xs
  ok (n'', a ++ b)

-- The servers after a request and those that follow from it, and who handled one: each server with
-- the source of the request, once for each. The handler `Publish` runs first, and where it fails
-- nothing is sent. `depth` bounds the chain of requests.
unfoldable pub deliver :
    ℕ → Network → Bytes × PublishRequest → Result (Network × List (Bytes × Bytes))
unfolding all_requests deliver_all
deliver zero n (addr, r) = err out_of_fuel
deliver (suc depth) n (addr, r) = elim (n.member addr) [
  | none ↦ ok (n, [])
  | some m ↦ do
    (reply, broadcasts, s) ← publish m.config r m.state
    (n', rest) ←
        deliver_all (deliver depth) (set_state addr m s n)
          (all_requests (set_state addr m s n) (record m { state = s }) broadcasts)
    ok (n', (addr, r.source) ∷ rest)
]
