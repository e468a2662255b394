-- ===== src/Server/Network/Spread.antt =====
-- How a request spreads between the servers of src/server/workflowserver.cc as long as no handler
-- fails: what their tables hold does not matter then.
use tpst.Prelude.{
  ℕ, zero, suc, List, [], ◌∷◌, ◌++◌, none, some, Bytes, Result, err, ok, ◌>>=◌, out_of_fuel,
}
use tpst.Server.Handlers.{PublishRequest, group_broadcast, coordinator_broadcast}
use tpst.Server.Network.{Member, Network, all_requests}

-- The requests that a handler sends.
unfoldable pub sends : Network → Member → PublishRequest → List (Bytes × PublishRequest)
unfolding all_requests group_broadcast coordinator_broadcast
sends n m r =
    all_requests n m (group_broadcast m.config r ++ coordinator_broadcast m.config r m.state)

unfoldable pub spread_all {ℓ κ} :
    {A : Type ℓ} {B : Type κ} → (A → Result (List B)) → List A → Result (List B)
spread_all next [] = ok []
spread_all next (x ∷ xs) = do a ← next x; b ← spread_all next xs; ok (a ++ b)

-- Who handles a request or one that follows from it.
unfoldable pub spread : ℕ → Network → Bytes × PublishRequest → Result (List (Bytes × Bytes))
unfolding sends spread_all
spread zero n (addr, r) = err out_of_fuel
spread (suc depth) n (addr, r) = elim (n.member addr) [
  | none ↦ ok []
  | some m ↦ spread_all (spread depth n) (sends n m r) >>= λ rest. ok ((addr, r.source) ∷ rest)
]
