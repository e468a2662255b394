-- ===== src/Rpc.antt =====
-- A call of a gRPC service, as its client sees it. gRPC is a library: a stub is an argument, which takes
-- a request and the state of the server that it is connected to. Whether a call arrives, and its
-- reply comes back, is the network's choice.
use tpst.Prelude.{Bytes, codes}

-- `status.ok()` with the reply, or another status.
pub data Answer {ℓ} (T : Type ℓ) : Type ℓ where
  refused : Answer T
  answered : T → Answer T

abbrev pub Stub {ℓ κ τ} : Type ℓ → Type κ → Type τ → Type (ℓ ⊔ κ ⊔ τ)
Stub S R T = R → S → Answer T × S

-- `if (status.ok()) return reply.message(); … return "RPC failed";`
abbrev pub message_of : Answer Bytes → Bytes
message_of refused = codes "RPC failed"
message_of (answered message) = message

abbrev pub call {ℓ κ} : {S : Type ℓ} {R : Type κ} → Stub S R Bytes → R → S → Bytes × S
call stub request s = (message_of (stub request s).0, (stub request s).1)

-- What the network makes of a call: a handler runs once for a call that arrives.
pub data Fate : Type 0 where
  delivered request_lost reply_lost : Fate

abbrev pub through {ℓ κ τ} :
    {S : Type ℓ} {R : Type κ} {T : Type τ} → Fate → (R → S → T × S) → Stub S R T
through delivered handler request s = (answered (handler request s).0, (handler request s).1)
through request_lost handler request s = (refused, s)
through reply_lost handler request s = (refused, (handler request s).1)
