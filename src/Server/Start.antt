-- ===== src/Server/Start.antt =====
-- What src/server/workflowserver.cc does with an info of the notification queue: `startTask`, and
-- `notifyback`, which no thread is started for.
use tpst.Prelude.{◌++◌, Bytes, codes, Result, ok, err, overflow, length, ltb, if◌then◌else◌}
use tpst.Rpc.{Stub}
use tpst.Server.State.{NotifyInfo}
use tpst.PublishClient.Stub.{NotifyRequest, notify_back}

-- `sprintf` into a `char[200]`; the command is executed.
unfoldable pub start_task : NotifyInfo → Result Bytes
start_task info =
    let command =
      codes "srun --mpi=pmix_v2 --mem-per-cpu=1000 -n 8 ./anastartbyevent " ++ info.meta_info in
    if ltb (length command) 200 then ok command else err overflow

-- A call to the address that the client subscribed with.
unfoldable pub notifyback {ℓ} :
    {S : Type ℓ} → (Bytes → Stub S NotifyRequest Bytes) → NotifyInfo → S → Bytes × S
unfolding notify_back
notifyback connect info s = notify_back (connect info.addr) info.clientid info.meta_info s
