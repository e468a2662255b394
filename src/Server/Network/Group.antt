-- ===== src/Server/Network/Group.antt =====
-- One group: what a request that a worker gets from a client becomes,
-- src/server/workflowserver.cc.
use tpst.Prelude.{
  ℕ, suc, ◌≡◌, refl, ◌∙◌, ap, true, false, List, [], ◌∷◌, map, some, Bytes, bytes_eq, bytes_eq_refl,
  ok, All, arith,
}
use mathlib.Core.List.{append-nil}
use tpst.StdMap.{bytes_key}
use tpst.Server.State.{source_client, source_ingroup, status_coor}
use tpst.Server.Handlers.{PublishRequest, multi_server, group_broadcast, coordinator_broadcast}
use tpst.Server.Handlers.Reach.{until_failure, others, broadcast_request, broadcasts-until_failure}
use tpst.Server.Network.Spread.{sends, spread_all, spread}
use tpst.Server.Network.{Member, Network, answer, requests, all_requests}

-- A server that can be reached and is no coordinator.
pub record IsWorker (n : Network) (addr : Bytes) : Type 0 where
  pub member : Member
  pub reached : n.member addr ≡ some member
  pub no_coordinator : bytes_eq member.config.server_status status_coor ≡ false

-- The addresses with the source of the request.
abbrev pub from : Bytes → List Bytes → List (Bytes × Bytes)
from source addrs = map (λ addr. (addr, source)) addrs

pub ingroup-ne-client : bytes_eq source_ingroup source_client ≡ false
unfolding bytes_eq
ingroup-ne-client = refl

module _ (n : Network) where
  pub until_failure-reached :
      (addrs : List Bytes) → All (IsWorker n) addrs → until_failure (answer n) addrs ≡ addrs
  unfolding bytes_eq
  until_failure-reached [] h = refl
  until_failure-reached (addr ∷ addrs) h =
      rw (h.0.reached, answer) (ap (λ r. addr ∷ r) (until_failure-reached addrs h.1))

  -- A worker sends nothing on that it does not have from a client.
  worker-sends :
      (m : Member) (r : PublishRequest)
      → bytes_eq m.config.server_status status_coor ≡ false
      → bytes_eq r.source source_client ≡ false
      → sends n m r ≡ []
  unfolding sends group_broadcast coordinator_broadcast all_requests
  worker-sends m r worker other = ground (arith, worker, other)

  spread-worker :
      (depth : ℕ) (addr : Bytes) (r : PublishRequest)
      → IsWorker n addr
      → bytes_eq r.source source_client ≡ false
      → spread (suc depth) n (addr, r) ≡ ok ((addr, r.source) ∷ [])
  unfolding spread spread_all
  spread-worker depth addr r w other =
      rw (w.reached, spread) (rw (worker-sends w.member r w.no_coordinator other) refl)

  -- A broadcast within a group reaches each worker once.
  pub spread_all-workers :
      (depth : ℕ) (events : List Bytes) (metadata : Bytes) (addrs : List Bytes)
      → All (IsWorker n) addrs
      → spread_all
          (spread (suc depth) n)
          (map (λ addr. (addr, broadcast_request events metadata source_ingroup)) addrs)
        ≡ ok (from source_ingroup addrs)
  unfolding spread_all
  spread_all-workers depth events metadata [] h = refl
  spread_all-workers depth events metadata (addr ∷ addrs) h =
      rw
        (spread-worker depth addr (broadcast_request events metadata source_ingroup) h.0
          ingroup-ne-client)
        (rw (spread_all-workers depth events metadata addrs h.1) refl)

  -- The request that `publishMultiServer` sends to each other worker of its directory.
  pub requests-workers :
      (m : Member) (events : List Bytes) (metadata : Bytes)
      → All (IsWorker n) (others m.config m.worker_list)
      → requests n m (multi_server events metadata)
        ≡ map
            (λ addr. (addr, broadcast_request events metadata source_ingroup))
            (others m.config m.worker_list)
  unfolding requests
  requests-workers m events metadata workers =
      (broadcasts-until_failure m.config (answer n) events metadata m.worker_list).0
      ∙ ap (λ addrs. map (λ addr. (addr, broadcast_request events metadata source_ingroup)) addrs)
          (until_failure-reached (others m.config m.worker_list) workers)

  client-sends :
      (m : Member) (r : PublishRequest)
      → bytes_eq m.config.server_status status_coor ≡ false
      → m.config.propagate_pub ≡ true
      → r.source ≡ source_client
      → sends n m r ≡ requests n m (multi_server r.events r.metadata)
  unfolding sends group_broadcast coordinator_broadcast all_requests
  client-sends m r worker propagates from_client =
      rw (from_client, worker, propagates, bytes_eq_refl source_client)
        (append-nil (requests n m (multi_server r.events r.metadata)))

  -- What a worker has from a client spreads to each other worker of its directory.
  pub spread-client_of_worker :
      (depth : ℕ) (addr : Bytes) (m : Member) (r : PublishRequest)
      → n.member addr ≡ some m
      → bytes_eq m.config.server_status status_coor ≡ false
      → m.config.propagate_pub ≡ true
      → r.source ≡ source_client
      → All (IsWorker n) (others m.config m.worker_list)
      → spread (suc (suc depth)) n (addr, r)
        ≡ ok ((addr, source_client) ∷ from source_ingroup (others m.config m.worker_list))
  unfolding spread
  spread-client_of_worker depth addr m r reached worker propagates from_client workers =
      rw (reached, spread)
        (rw (client-sends m r worker propagates from_client) (
          rw (requests-workers m r.events r.metadata workers) (
            rw
              (spread_all-workers depth r.events r.metadata (others m.config m.worker_list) workers)
              (ap
                (λ source.
                  ok ((addr, source) ∷ from source_ingroup (others m.config m.worker_list)))
                from_client))))
