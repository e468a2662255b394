-- ===== src/Server/Handlers/Reach.antt =====
-- Whom the broadcasts of src/server/workflowserver.cc reach.
use tpst.Prelude.{
  ◌≡◌, refl, not, List, [], ◌∷◌, Bytes, bytes_eq, bytes_eq_iff, codes, filter, if◌then◌else◌, arith,
  Bool-cases, inl, inr,
}
use mathlib.Core.List.{map}
use tpst.Server.State.{source_ingroup, source_betweengroup}
use tpst.Server.Handlers.{Config, PublishRequest, publish_multi_server, publish_multi_group}

bytes_eq_sym : (a b : Bytes) → bytes_eq a b ≡ bytes_eq b a
bytes_eq_sym a b = ground (arith, bytes_eq_iff a b, bytes_eq_iff b a)

-- The servers up to the first that does not answer "OK", this one included.
abbrev pub until_failure : (Bytes → Bytes) → List Bytes → List Bytes
until_failure reply [] = []
until_failure reply (addr ∷ addrs) =
    let rest = until_failure reply addrs in
    if bytes_eq (reply addr) (codes "OK") then addr ∷ rest else addr ∷ []

-- The servers of a directory other than this one, in its order.
abbrev pub others : Config → List Bytes → List Bytes
others c addrs = filter (λ addr. not (bytes_eq c.server_addr addr)) addrs

abbrev pub broadcast_request : List Bytes → Bytes → Bytes → PublishRequest
broadcast_request events metadata source = record {
  events = events;
  source = source;
  metadata = metadata;
  match_type = codes "NAME";
}

-- `publishMultiServer` sends the same request, by name and marked as from the group, to each other
-- server of its directory, in order, up to the first that does not answer "OK": the servers behind
-- that one get nothing. `publishMultiGroup` sends its request to every other coordinator, whatever
-- they answer.
pub broadcasts-until_failure :
    (c : Config) (reply : Bytes → Bytes) (events : List Bytes) (metadata : Bytes)
    (addrs : List Bytes)
    → (publish_multi_server c reply events metadata addrs
        ≡ map
            (λ addr. (addr, broadcast_request events metadata source_ingroup))
            (until_failure reply (others c addrs)))
      × (publish_multi_group c events metadata addrs
          ≡ map
              (λ addr. (addr, broadcast_request events metadata source_betweengroup))
              (others c addrs))
unfolding publish_multi_server publish_multi_group
broadcasts-until_failure c reply events metadata [] = (refl, refl)
broadcasts-until_failure c reply events metadata (addr ∷ addrs) =
    let (servers, coordinators) = broadcasts-until_failure c reply events metadata addrs in
    elim (Bool-cases (bytes_eq c.server_addr addr)) [
      | inl own ↦ (simp (own, servers), simp (own, bytes_eq_sym addr c.server_addr, coordinators))
      | inr other ↦ elim (Bool-cases (bytes_eq (reply addr) (codes "OK"))) [
        | inl answered ↦ (
          simp (other, answered, servers),
          simp (other, bytes_eq_sym addr c.server_addr, coordinators),
        )
        | inr failed ↦
            (simp (other, failed), simp (other, bytes_eq_sym addr c.server_addr, coordinators))
      ]
    ]
