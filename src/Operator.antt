-- ===== src/Operator.antt =====
-- Tasks that are started by notifications: src/operator/operator.cc, the handler of
-- src/operator/notifyserver.cc, and `localTaskStart` of src/runtime/local.cc. The commands that are
-- executed are values; what `sbatch` prints for a template and the generated ids are arguments.
pub mod JobId
use tpst.Prelude.{
  ℕ, suc, ◌+◌, ◌-◌, ◌%◌, Bool, true, false, ◌&&◌, List, [], ◌∷◌, ◌++◌, Option, none, some, ℤ, pos,
  negsuc, ltb_ℤ, Bytes, codes, bytes_eq, Result, err, ok, ◌>>=◌, overflow, out_of_range, length,
  drop, ltb, ◌==◌, not, if◌then◌else◌,
}
use tpst.StdMap.{bytes_key, Map, find, find_or, put, touch}
use tpst.Utils.Decimal.{to_string}
use tpst.Utils.StrParse.{get_ts_from_raw_meta}
use tpst.PublishClient.{EventTriggure}
use tpst.Server.State.{source_client}
use tpst.Server.Redistribute.{SubscribeRequest}

-- `preTrg` and `postTrg`.
abbrev pub pre_trg : Bytes
pre_trg = codes "PRETRIGGURE"

abbrev pub post_trg : Bytes
post_trg = codes "POSTTRIGGURE"

pub record Triggure : Type 0 where
  pub type : Bytes
  pub subtopic : Bytes
  pub sub_meta : Bytes
  pub task_name : Bytes

pub record Bundle : Type 0 where
  pub task_name : Bytes
  pub task_templates : Bytes
  pub task_running_id : Bytes
  pub pretg : Triggure
  pub posttg : Triggure

abbrev pub no_triggure : Triggure
no_triggure = record { type = []; subtopic = []; sub_meta = []; task_name = [] }

abbrev pub no_bundle : Bundle
no_bundle = record {
  task_name = [];
  task_templates = [];
  task_running_id = [];
  pretg = no_triggure;
  posttg = no_triggure;
}

-- `bmap` and `submap`.
pub record Tasks : Type 0 where
  pub bmap : Map Bytes Bundle
  pub submap : Map Bytes Triggure

-- The last five bytes of what `sbatch` printed; a shorter text makes the position wrap round.
unfoldable pub job_id : Bytes → Result Bytes
job_id str = if ltb (length str) 5 then err out_of_range else ok (drop (length str - 5) str)

abbrev pub sbatch_command : Bytes → Bytes
sbatch_command template = codes "sbatch " ++ template ++ codes " >syscommand.txt"

-- `runTaskByTemplateSlurm`: the id and the command.
unfoldable pub run_task : (Bytes → Bytes) → Bytes → Result (Bytes × Bytes)
unfolding job_id
run_task sbatch template = job_id (sbatch template) >>= λ id. ok (id, sbatch_command template)

-- `stopTaskBySlurm` after it has recorded the time.
unfoldable pub stop_task : Bytes → Tasks → Bytes × Tasks
unfolding find_or touch
stop_task name s = (
  codes "scancel " ++ (find_or no_bundle name s.bmap).task_running_id,
  record s { bmap = touch no_bundle name s.bmap },
)

-- `ActionByOperator`: the commands. The id of a task that it starts is not kept.
unfoldable pub action_by_operator : (Bytes → Bytes) → Bytes → Tasks → Result (List Bytes × Tasks)
unfolding run_task find_or touch
action_by_operator sbatch client s =
    let triggure = find_or no_triggure client s.submap in
    let name = triggure.task_name in
    let bundle = find_or no_bundle name s.bmap in
    let s' = record s {
      submap = touch no_triggure client s.submap;
      bmap = touch no_bundle name s.bmap;
    } in
    if bytes_eq triggure.type pre_trg
    then run_task sbatch bundle.task_templates >>= (λ r. ok (r.1 ∷ [], s'))
    else ok ([], s')

-- The `Notify` handler: its reply, and the number of notifications.
unfoldable pub notify_handler :
    (Bytes → Bytes) → Bytes → ℕ → Tasks → Result (Bytes × ℕ × List Bytes × Tasks)
unfolding action_by_operator
notify_handler sbatch client notified s =
    action_by_operator sbatch client s >>= λ r. ok (codes "OK", suc notified, r.0, r.1)

abbrev pub subscription : Bytes → Bytes → Bytes → Bytes → SubscribeRequest
subscription topic id notify_addr meta = record {
  events = topic ∷ [];
  client_id = id;
  notify_server = notify_addr;
  source = source_client;
  match_type = codes "NAME";
  metadata = meta;
}

-- What `testBundleRegister` leaves and sends.
pub record Registration : Type 0 where
  pub tasks : Tasks
  pub subscriptions : List SubscribeRequest
  pub commands : List Bytes

-- The last part: the task with the topic INIT is started at once, and its id kept.
unfoldable pub register_pre :
    (Bytes → Bytes) → Bundle → Bytes → Bytes → List SubscribeRequest → Tasks → Result Registration
unfolding run_task find_or put
register_pre sbatch b id notify_addr sent s =
    if not (bytes_eq b.pretg.subtopic (codes "INIT"))
    then ok (record {
      tasks = s;
      subscriptions = sent ++ subscription b.pretg.subtopic id notify_addr b.pretg.sub_meta ∷ [];
      commands = [];
    })
    else run_task sbatch b.task_templates >>= (λ r. ok (record {
      tasks = record s {
        bmap =
            put b.task_name
              (record (find_or no_bundle b.task_name s.bmap) { task_running_id = r.0 }) s.bmap;
      };
      subscriptions = sent;
      commands = r.1 ∷ [];
    }))

-- The bundle that `testBundleRegister` makes.
unfoldable pub new_bundle : Bytes → Bytes → Bytes → Bytes → Bytes → Bytes → Bundle
new_bundle name templates pre_topic pre_meta post_topic post_meta = record {
  task_name = name;
  task_templates = templates;
  task_running_id = [];
  pretg = record { type = pre_trg; subtopic = pre_topic; sub_meta = pre_meta; task_name = name };
  posttg = record {
    type = post_trg;
    subtopic = post_topic;
    sub_meta = post_meta;
    task_name = name;
  };
}

-- The maps, the subscriptions and the start, with the two ids that it generates.
unfoldable pub register_bundle :
    (Bytes → Bytes) → Bundle → Bytes → Bytes → Bytes → Tasks → Result Registration
unfolding register_pre put
register_bundle sbatch b pre_id post_id notify_addr s =
    let s' : Tasks = record {
      bmap = put b.task_name b s.bmap;
      submap = put post_id b.posttg (put pre_id b.pretg s.submap);
    } in
    let sent =
      if not (bytes_eq b.posttg.subtopic (codes "NONE"))
      then subscription b.posttg.subtopic post_id notify_addr b.posttg.sub_meta ∷ []
      else [] in
    register_pre sbatch b pre_id notify_addr sent s'

-- `testBundleRegister`: the address to notify, the task and its template, and the topic and the
-- metadata of the two triggers.
unfoldable pub bundle_register :
    (Bytes → Bytes)
    → Bytes
    → Bytes
    → Bytes
    → Bytes
    → Bytes
    → Bytes
    → Bytes
    → Bytes
    → Bytes
    → Tasks
    → Result Registration
unfolding register_bundle new_bundle
bundle_register sbatch notify_addr name templates pre_topic pre_meta post_topic post_meta pre_id
      post_id s =
    register_bundle sbatch (new_bundle name templates pre_topic pre_meta post_topic post_meta)
      pre_id post_id notify_addr s

-- `(ts + 1) % 10 == 0`.
abbrev is_tenth : ℤ → Bool
is_tenth (pos n) = (n + 1) % 10 == 0
is_tenth (negsuc n) = n % 10 == 0

-- `localTaskStart`: only every tenth time step executes the command.
unfoldable pub local_task_start : Bytes → Bytes → Result (List Bytes)
unfolding get_ts_from_raw_meta to_string
local_task_start path metadata = do
  ts ← get_ts_from_raw_meta metadata
  let command = path ++ (32 ∷ to_string ts)
  (if ltb_ℤ (pos 0) ts && is_tenth ts
      then (if ltb (length command) 200 then ok (command ∷ []) else err overflow)
      else ok [])

local_task_starts : List Bytes → Bytes → Result (List Bytes)
unfolding local_task_start
local_task_starts [] metadata = ok []
local_task_starts (path ∷ paths) metadata = do
  a ← local_task_start path metadata
  b ← local_task_starts paths metadata
  ok (a ++ b)

-- `startAction`: nothing for an unknown client, or another driver than "local".
unfoldable pub start_action : Bytes → Bytes → Map Bytes EventTriggure → Result (List Bytes)
unfolding find local_task_starts
start_action client metadata configs = elim (find client configs) [
  | none ↦ ok []
  | some etrigger ↦
      if bytes_eq etrigger.driver (codes "local")
      then local_task_starts etrigger.action_list metadata
      else ok []
]
