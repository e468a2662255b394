-- ===== src/Server/Network/Groups.antt =====
-- All groups: what a request that a coordinator gets from a client becomes,
-- src/server/workflowserver.cc.
use tpst.Prelude.{
  ℕ, suc, ◌≡◌, refl, sym, ◌∙◌, ap, Bool, true, false, List, [], ◌∷◌, ◌++◌, map, none, some, Bytes,
  bytes_eq, bytes_eq_refl, ok, ok-injective, >>=-eq-ok, if◌then◌else◌, All, arith, Bool-cases, inl,
  inr,
}
use mathlib.Core.List.{append-nil, append_assoc}
use tpst.StdMap.{bytes_key, find}
use tpst.Server.State.{source_client, source_ingroup, source_betweengroup, status_coor}
use tpst.Server.Handlers.{
  PublishRequest, multi_server, multi_group, last_event, group_broadcast, coordinator_broadcast,
}
use tpst.Server.Handlers.Reach.{others, broadcast_request, broadcasts-until_failure}
use tpst.Server.Network.Spread.{sends, spread_all, spread}
use tpst.Server.Network.{Member, Network, answer, requests, all_requests}
use tpst.Server.Network.Group.{IsWorker, from, spread_all-workers, requests-workers}

betweengroup-ne :
    (bytes_eq source_betweengroup source_client ≡ false)
    × (bytes_eq source_betweengroup source_ingroup ≡ false)
unfolding bytes_eq
betweengroup-ne = (refl, refl)

client-ne-betweengroup : bytes_eq source_client source_betweengroup ≡ false
unfolding bytes_eq
client-ne-betweengroup = refl

-- Has some server reported subscriptions for the last event of the request?
abbrev pub recorded : List Bytes → Member → Bool
recorded events m = elim (find (last_event [] events) m.state.event_record_map) [
  | none ↦ false
  | some servers ↦ true
]

-- The workers of its directory that a coordinator tells of a request from another group.
abbrev pub told : List Bytes → Member → List Bytes
told events m = if recorded events m then others m.config m.worker_list else []

-- A coordinator that can be reached, as can the workers of its directory.
pub record IsCoordinator (n : Network) (addr : Bytes) : Type 0 where
  pub member : Member
  pub reached : n.member addr ≡ some member
  pub coordinates : bytes_eq member.config.server_status status_coor ≡ true
  pub workers : All (IsWorker n) (others member.config member.worker_list)

module _ (n : Network) where
  -- Who handles a request between the groups: each coordinator, and the workers that it tells.
  abbrev pub between :
      List Bytes → (addrs : List Bytes) → All (IsCoordinator n) addrs → List (Bytes × Bytes)
  between events [] h = []
  between events (addr ∷ addrs) h =
      ((addr, source_betweengroup) ∷ from source_ingroup (told events (h.0.member)))
      ++ between events addrs h.1

  told-sends :
      (m : Member) (events : List Bytes) (metadata : Bytes)
      → bytes_eq m.config.server_status status_coor ≡ true
      → sends n m (broadcast_request events metadata source_betweengroup)
        ≡ (if recorded events m then requests n m (multi_server events metadata) else [])
  unfolding sends group_broadcast coordinator_broadcast all_requests
  told-sends m events metadata coordinates = ground (
    arith,
    coordinates,
    betweengroup-ne.0,
    betweengroup-ne.1,
    bytes_eq_refl source_betweengroup,
    append-nil (requests n m (multi_server events metadata)),
  )

  coordinator-sends :
      (m : Member) (r : PublishRequest)
      → bytes_eq m.config.server_status status_coor ≡ true
      → m.config.propagate_pub ≡ true
      → r.source ≡ source_client
      → sends n m r
        ≡ requests n m (multi_server r.events r.metadata)
          ++ requests n m (multi_group r.events r.metadata)
  unfolding sends group_broadcast coordinator_broadcast all_requests
  coordinator-sends m r coordinates propagates from_client = ground (
    arith,
    coordinates,
    propagates,
    from_client,
    client-ne-betweengroup,
    bytes_eq_refl source_client,
    append-nil (requests n m (multi_group r.events r.metadata)),
  )

  spread_all-append :
      (depth : ℕ) (xs ys : List (Bytes × PublishRequest)) (a b : List (Bytes × Bytes))
      → spread_all (spread depth n) xs ≡ ok a
      → spread_all (spread depth n) ys ≡ ok b
      → spread_all (spread depth n) (xs ++ ys) ≡ ok (a ++ b)
  unfolding spread_all
  spread_all-append depth [] ys a b first second =
      rw second (ap (λ r. ok (r ++ b)) (ok-injective first))
  spread_all-append depth (x ∷ xs) ys a b first second =
      let (one, at_x, rest) = >>=-eq-ok (spread depth n x) _ first in
      let (more, at_xs, done) = >>=-eq-ok (spread_all (spread depth n) xs) _ rest in
      rw at_x (
        rw (spread_all-append depth xs ys more b at_xs second)
          (ap ok (sym (append_assoc one more b) ∙ ap (λ r. r ++ b) (ok-injective done))))

  spread-coordinator :
      (depth : ℕ) (addr : Bytes) (events : List Bytes) (metadata : Bytes) (c : IsCoordinator n addr)
      → spread (suc (suc depth)) n (addr, broadcast_request events metadata source_betweengroup)
        ≡ ok ((addr, source_betweengroup) ∷ from source_ingroup (told events c.member))
  unfolding spread
  spread-coordinator depth addr events metadata c =
      rw (c.reached, spread)
        (rw (told-sends c.member events metadata c.coordinates)
          (elim (Bool-cases (recorded events c.member)) [
            | inl known ↦ rw known (
                rw (requests-workers n c.member events metadata c.workers) (
                  rw
                    (spread_all-workers n depth events metadata
                      (others c.member.config c.member.worker_list) c.workers)
                    refl))
            | inr unknown ↦ rw unknown (unfold spread_all in refl)
          ]))

  spread_all-coordinators :
      (depth : ℕ) (events : List Bytes) (metadata : Bytes) (addrs : List Bytes)
      (h : All (IsCoordinator n) addrs)
      → spread_all
          (spread (suc (suc depth)) n)
          (map (λ addr. (addr, broadcast_request events metadata source_betweengroup)) addrs)
        ≡ ok (between events addrs h)
  unfolding spread_all
  spread_all-coordinators depth events metadata [] h = refl
  spread_all-coordinators depth events metadata (addr ∷ addrs) h =
      rw (spread-coordinator depth addr events metadata h.0)
        (rw (spread_all-coordinators depth events metadata addrs h.1) refl)

  requests-coordinators :
      (m : Member) (events : List Bytes) (metadata : Bytes)
      → requests n m (multi_group events metadata)
        ≡ map
            (λ addr. (addr, broadcast_request events metadata source_betweengroup))
            (others m.config n.coordinators)
  unfolding requests
  requests-coordinators m events metadata =
      (broadcasts-until_failure m.config (answer n) events metadata n.coordinators).1

  -- What a coordinator has from a client spreads to its workers and between the groups.
  pub spread-client_of_coordinator :
      (depth : ℕ) (addr : Bytes) (m : Member) (r : PublishRequest)
      → n.member addr ≡ some m
      → bytes_eq m.config.server_status status_coor ≡ true
      → m.config.propagate_pub ≡ true
      → r.source ≡ source_client
      → All (IsWorker n) (others m.config m.worker_list)
      → (h : All (IsCoordinator n) (others m.config n.coordinators))
      → spread (suc (suc (suc depth))) n (addr, r)
        ≡ ok (
            (addr, source_client)
            ∷ (from source_ingroup (others m.config m.worker_list)
                ++ between r.events (others m.config n.coordinators) h))
  unfolding spread
  spread-client_of_coordinator depth addr m r reached coordinates propagates from_client workers h =
      let both : spread_all (spread (suc (suc depth)) n) (sends n m r)
          ≡ ok (
              from source_ingroup (others m.config m.worker_list)
              ++ between r.events (others m.config n.coordinators) h) =
        ap (spread_all (spread (suc (suc depth)) n))
          (coordinator-sends m r coordinates propagates from_client)
        ∙ spread_all-append (suc (suc depth)) (requests n m (multi_server r.events r.metadata))
            (requests n m (multi_group r.events r.metadata))
            (from source_ingroup (others m.config m.worker_list))
            (between r.events (others m.config n.coordinators) h)
            (ap (spread_all (spread (suc (suc depth)) n))
                (requests-workers n m r.events r.metadata workers)
              ∙ spread_all-workers n (suc depth) r.events r.metadata (others m.config m.worker_list)
                  workers)
            (ap (spread_all (spread (suc (suc depth)) n))
                (requests-coordinators m r.events r.metadata)
              ∙ spread_all-coordinators depth r.events r.metadata (others m.config n.coordinators)
                  h) in
      rw (reached, spread) (rw both (rw from_client refl))
