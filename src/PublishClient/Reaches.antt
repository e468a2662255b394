-- ===== src/PublishClient/Reaches.antt =====
-- A publication from the client of src/publishclient/pubsubclient.cc to one of the servers of
-- src/server/workflowserver.cc, whose handlers all run.
use tpst.Prelude.{
  ℕ, ◌≡◌, true, false, List, [], ◌∷◌, ◌++◌, some, Bytes, bytes_eq, Result, ok, err, All, ◌⊎◌, inl,
  inr,
}
use tpst.StdMap.{bytes_key}
use tpst.Server.State.{source_client, source_ingroup, status_coor}
use tpst.Server.Handlers.{PublishRequest}
use tpst.Server.Handlers.Reach.{others}
use tpst.Server.Network.{Member, Network, answer, deliver}
use tpst.Server.Network.Same.{Same}
use tpst.Server.Network.Group.{IsWorker, from}
use tpst.Server.Network.Groups.{IsCoordinator, between}
use tpst.PublishClient.{Clients}

-- The servers, and who has handled a request so far.
abbrev pub Served : Type 0
Served = Network × List (Bytes × Bytes)

-- A handler that throws leaves a state that is not modelled; the theorem below shows that none does.
abbrev kept : Bytes → Served → Result Served → Bytes × Served
kept addr served (err e) = ([], served)
kept addr (n, handled) (ok (n', more)) = (answer n addr, (n', handled ++ more))

-- The request of a client at the server with the address, and what the handler sends on.
unfoldable pub serve_publish : ℕ → Bytes → PublishRequest → Served → Bytes × Served
serve_publish depth addr r served = kept addr served (deliver depth served.0 (addr, r))

-- A worker, or a coordinator that reaches the other coordinators.
abbrev Role : Network → Member → Type 0
Role n m =
    (bytes_eq m.config.server_status status_coor ≡ false)
    ⊎ ((bytes_eq m.config.server_status status_coor ≡ true)
        × All (IsCoordinator n) (others m.config n.coordinators))

-- A server that propagates publications and whose directories hold servers that can be reached.
pub record IsServer (n : Network) (addr : Bytes) : Type 0 where
  pub member : Member
  pub reached : n.member addr ≡ some member
  pub propagates : member.config.propagate_pub ≡ true
  pub workers : All (IsWorker n) (others member.config member.worker_list)
  pub role : Role n member

-- Who handles the events that the server gets from a client.
abbrev pub reached_by : (n : Network) → (m : Member) → List Bytes → Role n m → List (Bytes × Bytes)
reached_by n m events (inl worker) = from source_ingroup (others m.config m.worker_list)
reached_by n m events (inr (coordinates, h)) =
    from source_ingroup (others m.config m.worker_list)
    ++ between n events (others m.config n.coordinators) h

abbrev pub reaches :
    (n : Network) → (addr : Bytes) → List Bytes → IsServer n addr → List (Bytes × Bytes)
reaches n addr events s = (addr, source_client) ∷ reached_by n s.member events s.role
