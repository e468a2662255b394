-- ===== src/Tests/Metadata.antt =====
-- src/metadatamanagement/metaserver.cc on concrete requests.
use tpst.Prelude.{◌≡◌, refl, List, [], ◌∷◌, ℤ, ltb_ℤ, Bytes, codes, ◌+ℤ◌, ◌-ℤ◌}
use tpst.StdMap.{bytes_key, find, find_or}
use tpst.Coordinator.Double.{Double}
use tpst.Meta.{MetaState}
use tpst.Meta.Queue.{QueueRequest, put_request, get_request, queues_of}
use tpst.MetaClient.Calls.{client_calls, calls_contract, client_calls-refine}
use tpst.Rpc.{Fate, delivered, request_lost, reply_lost}

abbrev empty_meta : MetaState
empty_meta = record { timer_map = []; meta_map = []; meta_space = [] }

-- The reply to the first get is lost, and with it the first value.
abbrev calls : List (Fate × QueueRequest)
calls =
    (delivered, put_request (codes "k") (codes "1"))
    ∷ (request_lost, put_request (codes "k") (codes "x"))
    ∷ (delivered, put_request (codes "k") (codes "2"))
    ∷ (reply_lost, get_request (codes "k"))
    ∷ (delivered, get_request (codes "k"))
    ∷ []

client_calls-refine_example :
    ((client_calls calls empty_meta).0 ≡ (calls_contract calls (λ k. [])).0)
    × ((k : Bytes)
        → queues_of (client_calls calls empty_meta).1 k ≡ (calls_contract calls (λ k'. [])).1 k)
unfolding find_or find
client_calls-refine_example = client_calls-refine calls empty_meta (λ k. []) (λ k. refl)

-- Whole numbers in place of `double`: products and quotients are by one here.
instance abbrev whole : Double ℤ
whole = record {
  of_int = λ n. n;
  add = λ a b. a +ℤ b;
  sub = λ a b. a -ℤ b;
  mul = λ a b. a;
  div = λ a b. a;
  gt = λ a b. ltb_ℤ b a;
  floor = λ a. a;
  ceil = λ a. a;
}
