-- ===== src/Server/State.antt =====
-- The tables of one server process of src/server/workflowserver.cc, and the requests it sends.
use tpst.Prelude.{ℕ, List, Bytes, codes}
use tpst.PubSub.State
use tpst.Coordinator.Status.{StatusMap}

pub record NotifyInfo : Type 0 where
  pub addr : Bytes
  pub meta_info : Bytes
  pub clientid : Bytes

-- `pubsub` holds the tables of src/server/pubsub.cc. `tasks` are the `checkNotify` calls that the
-- thread pool holds, by their argument, the oldest first. `notify_queue` is listed from its front.
pub record ServerState : Type 0 where
  pub pubsub : tpst.PubSub.State.State
  pub notify_queue : List NotifyInfo
  pub tasks : List ℕ
  pub event_record_map : StatusMap

-- `sourceClient`, `sourceIngroup`, `sourceBetweengroup`, `status_coor`
abbrev pub source_client : Bytes
source_client = codes "CLIENT"

abbrev pub source_ingroup : Bytes
source_ingroup = codes "SERVERINGROUP"

abbrev pub source_betweengroup : Bytes
source_betweengroup = codes "SERVERBTGROUP"

abbrev pub status_coor : Bytes
status_coor = codes "coordinator"
