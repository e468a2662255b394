-- ===== src/Server/Notify.antt =====
-- Notification in src/server/workflowserver.cc: `startNotify` and `checkNotify`.
pub mod Once
use tpst.Prelude.{
  ℕ, ◌≡◌, Bool, true, false, List, [], ◌∷◌, ◌++◌, Option, none, some, Bytes, codes, bytes_eq,
  Result, ok, err, ◌>>=◌, if◌then◌else◌,
}
use tpst.StdMap.{bytes_key, Map, find, find_or, put, touch}
use tpst.PubSub.State.{PubsubWrapper, deref, store}
use tpst.PubSub.Subscribe.{delete_pub_event}
use tpst.Server.State.{NotifyInfo, ServerState}

unfoldable pub notify_info : PubsubWrapper → NotifyInfo
notify_info w = record { addr = w.peer_url; meta_info = w.pub_metadata; clientid = w.client_id }

-- `psw->iftrigure = false`, and `deletePubEvent` for a "NAME" subscription.
unfoldable pub reset : PubsubWrapper → PubsubWrapper
reset w =
    if bytes_eq w.match_type (codes "NAME")
    then delete_pub_event (record w { iftrigure = false })
    else (record w { iftrigure = false })

-- `checkNotify`. Once it has notified it runs off its end without a `return`, though it returns
-- `void *`, which is undefined: `ends` is what the compiled function does then.
unfoldable pub check_notify :
    (ServerState → Result ServerState) → ℕ → ServerState → Result ServerState
unfolding notify_info reset
check_notify ends p s = do
  w ← deref p s.pubsub
  if w.iftrigure
      then ends (record s {
        notify_queue = s.notify_queue ++ notify_info w ∷ [];
        pubsub = store p (reset w) s.pubsub;
      })
      else ok s

-- The loop over the clients: a task for each.
abbrev pub pointers : Map Bytes ℕ → List ℕ
pointers [] = []
pointers ((client, p) ∷ clients) = p ∷ pointers clients

-- `subtoClient[eventwithoutNum]` enters an unknown event, with no client.
unfoldable pub start_notify : Bytes → ServerState → ServerState
start_notify event s = record s {
  tasks = s.tasks ++ pointers (find_or [] event s.pubsub.sub_to_client);
  pubsub = record (s.pubsub) { sub_to_client = touch [] event s.pubsub.sub_to_client };
}

-- The tasks with the given arguments, run one after the other.
pub run_tasks : (ServerState → Result ServerState) → List ℕ → ServerState → Result ServerState
run_tasks ends [] s = ok s
run_tasks ends (p ∷ ps) s = check_notify ends p s >>= λ s'. run_tasks ends ps s'

-- The compiler makes it return to its caller.
abbrev pub Returns : (ServerState → Result ServerState) → Type 0
Returns ends = (s : ServerState) → ends s ≡ ok s
