-- ===== src/Server/Network/Clients.antt =====
-- What becomes of a publication by name that a server of src/server/workflowserver.cc gets from a
-- client, when the handlers of all servers run.
use tpst.Prelude.{ℕ, suc, ◌≡◌, true, false, ◌∷◌, ◌++◌, some, Bytes, bytes_eq, ok, All}
use tpst.PubSub.Invariant.{IsWellFormed}
use tpst.Server.State.{source_client, source_ingroup, status_coor}
use tpst.Server.Handlers.{PublishRequest}
use tpst.Server.Handlers.Reach.{others}
use tpst.Server.Network.{Member, Network, deliver}
use tpst.Server.Network.Same.{Same, Same-refl, Named, deliver-spread}
use tpst.Server.Network.Group.{IsWorker, from, spread-client_of_worker}
use tpst.Server.Network.Groups.{IsCoordinator, between, spread-client_of_coordinator}

module _ (n : Network)
    (formed : (addr : Bytes) (m : Member) → n.member addr ≡ some m → IsWellFormed m.state.pubsub)
    (depth : ℕ) (addr : Bytes) (m : Member) (r : PublishRequest) (name : Named r)
    (reached : n.member addr ≡ some m) (propagates : m.config.propagate_pub ≡ true)
    (from_client : r.source ≡ source_client)
    (workers : All (IsWorker n) (others m.config m.worker_list)) where
  -- All servers have well-formed tables and the request has the match type NAME. A publication that a
  -- worker, which propagates publications, gets from a client is handled by this worker and once by
  -- each other server of its worker directory, if these can be reached and are no coordinators, and by
  -- nobody else. Every handler returns, and the servers keep their roles, directories and reports
  -- and well-formed tables.
  pub deliver-client_of_worker :
      bytes_eq m.config.server_status status_coor ≡ false
      → (n' : Network) × (deliver (suc (suc depth)) n (addr, r)
          ≡ ok (n', (addr, source_client) ∷ from source_ingroup (others m.config m.worker_list)))
        × Same n n'
  deliver-client_of_worker worker =
      deliver-spread (suc (suc depth)) n n (addr, r) (Same-refl n formed) name _
        (spread-client_of_worker n depth addr m r reached worker propagates from_client workers)

  -- All servers have well-formed tables and the request has the match type NAME. A publication that a
  -- coordinator, which propagates publications, gets from a client is handled by this coordinator, once
  -- by each worker of its directory, once by each other coordinator, and once by each worker of those
  -- whose coordinator has a report of subscriptions to the last event, if all these can be reached;
  -- then no request is left. Every handler returns, and the servers keep their roles, directories and
  -- reports and well-formed tables.
  pub deliver-client_of_coordinator :
      bytes_eq m.config.server_status status_coor ≡ true
      → (h : All (IsCoordinator n) (others m.config n.coordinators))
      → (n' : Network) × (deliver (suc (suc (suc depth))) n (addr, r)
          ≡ ok (
            n',
            (addr, source_client)
                ∷ (from source_ingroup (others m.config m.worker_list)
                    ++ between n r.events (others m.config n.coordinators) h),
          ))
        × Same n n'
  deliver-client_of_coordinator coordinates h =
      deliver-spread (suc (suc (suc depth))) n n (addr, r) (Same-refl n formed) name _
        (spread-client_of_coordinator n depth addr m r reached coordinates propagates from_client
          workers h)
