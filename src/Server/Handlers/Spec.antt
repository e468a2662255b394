-- ===== src/Server/Handlers/Spec.antt =====
-- What a publication does at one server of src/server/workflowserver.cc, up to the notification.
use tpst.Prelude.{
  ℕ, ◌≡◌, ◌≢◌, refl, ◌∙◌, ap, true, List, [], ◌∷◌, ◌++◌, none, some, Bytes, bytes_eq, codes, Result,
  ok, arith, All, All-append, Option-cases, inl, inr,
}
use mathlib.Core.List.{append_assoc, append-nil}
use mathlib.Core.Path.{subst}
use tpst.StdMap.{bytes_key, nat_key, Map, find, find_or, touch, contains}
use tpst.StdMap.Laws.{find_or-some, find_or-none}
use tpst.StdMap.Sorted.{entries-find}
use tpst.PubSub.State
use tpst.PubSub.Invariant.{IsWellFormed}
use tpst.PubSub.Publish.{pubsub_publish}
use tpst.PubSub.Publish.Delivery.{Delivered, pubsub_publish-Delivered}
use tpst.Server.State.{ServerState}
use tpst.Server.Notify.{start_notify, pointers, run_tasks, Returns}
use tpst.Server.Notify.Once.{Live, Notified, run_tasks-Notified}
use tpst.Server.Handlers.{
  Config, PublishRequest, last_event, start_notify_all, notify_indexes, publish, group_broadcast,
  coordinator_broadcast,
}

-- The clients below some index events, by their pointers, in the order of the tables.
pub clients_below : List Bytes → Map Bytes (Map Bytes ℕ) → List ℕ
clients_below [] m = []
clients_below (index ∷ indexes) m = pointers (find_or [] index m) ++ clients_below indexes m

touch-known : (k : Bytes) (m : Map Bytes (Map Bytes ℕ)) → find k m ≢ none → touch [] k m ≡ m
unfolding touch
touch-known k m known = elim (Option-cases (find k m)) [
  | inl e ↦ absurd (known e)
  | inr (v, e) ↦ rw (e, touch)
]

start_notify-known :
    (index : Bytes) (s : ServerState)
    → find index s.pubsub.sub_to_client ≢ none
    → start_notify index s
      ≡ record s { tasks = s.tasks ++ pointers (find_or [] index s.pubsub.sub_to_client) }
unfolding start_notify
start_notify-known index s known = rw (touch-known index s.pubsub.sub_to_client known)

start_notify_all-tasks :
    (indexes : List Bytes) (s : ServerState)
    → All (λ i. find i s.pubsub.sub_to_client ≢ none) indexes
    → start_notify_all indexes s
      ≡ record s { tasks = s.tasks ++ clients_below indexes s.pubsub.sub_to_client }
unfolding start_notify_all clients_below
start_notify_all-tasks [] s known = rw (append-nil)
start_notify_all-tasks (index ∷ indexes) s known = rw (
  start_notify-known index s known.0,
  start_notify_all-tasks indexes
      (record s { tasks = s.tasks ++ pointers (find_or [] index s.pubsub.sub_to_client) }) known.1,
  append_assoc s.tasks (pointers (find_or [] index s.pubsub.sub_to_client))
      (clients_below indexes s.pubsub.sub_to_client),
)

All-contains :
    {P : Bytes → Type 0} (xs : List Bytes) → ((i : Bytes) → contains i xs ≡ true → P i) → All P xs
unfolding contains
All-contains [] h = tt
All-contains (x ∷ xs) h =
    (h x (ground (arith, bytes_key.eqb_iff x x)), All-contains xs (λ i k. h i (ground (arith, k))))

module _ (s : ServerState) (wf : IsWellFormed s.pubsub) where
  leads-known :
      (event : Bytes)
      → All (λ i. find i s.pubsub.sub_to_client ≢ none) (find_or [] event s.pubsub.get_index_map)
  leads-known event =
      All-contains (find_or [] event s.pubsub.get_index_map) (λ i h. wf.indexed event i h)

  pointers-Live :
      (index : Bytes) (clients : Map Bytes ℕ)
      → All (λ e. find e.0 (find_or [] index s.pubsub.sub_to_client) ≡ some e.1) clients
      → All (Live s) (pointers clients)
  pointers-Live index [] h = tt
  pointers-Live index ((client, p) ∷ clients) h =
      (wf.live index client p h.0, pointers-Live index clients h.1)

  clients_below-Live :
      (indexes : List Bytes) → All (Live s) (clients_below indexes s.pubsub.sub_to_client)
  unfolding clients_below
  clients_below-Live [] = tt
  clients_below-Live (index ∷ indexes) =
      All-append (Live s) (pointers (find_or [] index s.pubsub.sub_to_client))
        (clients_below indexes s.pubsub.sub_to_client)
        (pointers-Live index (find_or [] index s.pubsub.sub_to_client)
          (entries-find (find_or [] index s.pubsub.sub_to_client) (wf.client_tables index)))
        (clients_below-Live indexes)

  pub notify_indexes-tasks :
      (event : Bytes) (events : List Bytes)
      → notify_indexes (event ∷ events) s ≡ record s {
        tasks =
            s.tasks
            ++ clients_below
                (find_or [] (last_event event events) s.pubsub.get_index_map)
                s.pubsub.sub_to_client;
      }
  unfolding notify_indexes clients_below
  notify_indexes-tasks event events =
      elim (Option-cases (find (last_event event events) s.pubsub.get_index_map)) [
        | inl e ↦ rw (
          e,
          notify_indexes,
          find_or-none [] (last_event event events) s.pubsub.get_index_map e,
          append-nil,
        )
        | inr (indexes, e) ↦
            rw
              (
                e,
                notify_indexes,
                find_or-some [] (last_event event events) indexes s.pubsub.get_index_map e,
              )
              (start_notify_all-tasks indexes s (
                subst (All (λ i. find i s.pubsub.sub_to_client ≢ none))
                  (find_or-some [] (last_event event events) indexes s.pubsub.get_index_map e)
                  (leads-known (last_event event events))))
      ]

-- The tables after the publication, and the tasks that it starts: those of the clients below the
-- index events of the last event of the request.
pub record Published (c : Config) (r : PublishRequest) (s s' : ServerState) : Type 0 where
  pub delivered : Delivered r.metadata r.events s.pubsub s'.pubsub
  pub same_queue : s'.notify_queue ≡ s.notify_queue
  pub same_records : s'.event_record_map ≡ s.event_record_map
  pub started :
      s'.tasks
      ≡ s.tasks
        ++ clients_below
            (find_or [] (last_event [] r.events) s.pubsub.get_index_map)
            s.pubsub.sub_to_client

-- A request to publish by name.
abbrev pub named : List Bytes → Bytes → Bytes → PublishRequest
named events source metadata = record {
  events = events;
  source = source;
  metadata = metadata;
  match_type = codes "NAME";
}

pub publish-named :
    (c : Config) (events : List Bytes) (source metadata : Bytes) (s : ServerState)
    (pubsub : tpst.PubSub.State.State)
    → pubsub_publish events (codes "NAME") metadata s.pubsub ≡ ok pubsub
    → publish c (named events source metadata) s
      ≡ ok (
        codes "OK",
        group_broadcast c (named events source metadata)
            ++ coordinator_broadcast c (named events source metadata) s,
        notify_indexes events (record s { pubsub = pubsub }),
      )
unfolding publish coordinator_broadcast bytes_eq
publish-named c events source metadata s pubsub done = rw (done) refl

tasks-Live :
    (s s' : ServerState) (indexes : List Bytes)
    → IsWellFormed s.pubsub
    → s'.pubsub ≡ s.pubsub
    → s'.tasks ≡ clients_below indexes s.pubsub.sub_to_client
    → All (Live s') s'.tasks
tasks-Live s s' indexes wf same tasks = rw (same, tasks) (clients_below-Live s wf indexes)

-- A publication by name at one server with well-formed tables, where the thread pool was empty: it
-- answers "OK" with the broadcasts that the server's role asks for, delivers every event of the
-- request, and starts the tasks of the clients below the index events of the last event of the
-- request, of it alone. If a `checkNotify` that runs off its end returns to its caller, these tasks
-- all return, and each of these clients that is marked then gets exactly one info.
pub publish-notifies :
    (ends : ServerState → Result ServerState) (c : Config) (event : Bytes) (events : List Bytes)
    (source metadata : Bytes) (s : ServerState)
    → Returns ends
    → IsWellFormed s.pubsub
    → s.tasks ≡ []
    → (s' : ServerState) × (s'' : ServerState) × (publish c
          (named (event ∷ events) source metadata)
          s
        ≡ ok (
          codes "OK",
          group_broadcast c (named (event ∷ events) source metadata)
              ++ coordinator_broadcast c (named (event ∷ events) source metadata) s,
          s',
        ))
      × Published c (named (event ∷ events) source metadata) s s'
      × (run_tasks ends s'.tasks s' ≡ ok s'')
      × Notified s'.tasks s' s''
unfolding last_event
publish-notifies ends c event events source metadata s returns wf idle =
    let (pubsub, done, d) = pubsub_publish-Delivered (event ∷ events) metadata s.pubsub wf in
    let indexes : List Bytes = find_or [] (last_event event events) pubsub.get_index_map in
    let s' : ServerState = record s {
      pubsub = pubsub;
      tasks = s.tasks ++ clients_below indexes pubsub.sub_to_client;
    } in
    let (s'', ran, notified) = run_tasks-Notified ends s'.tasks s' returns (
      tasks-Live (record s { pubsub = pubsub }) s' indexes d.well_formed refl
        (ap (λ ts. ts ++ clients_below indexes pubsub.sub_to_client) idle)) in
    (
      s',
      s'',
      publish-named c (event ∷ events) source metadata s pubsub done
          ∙ ap
              (λ t. ok (
                codes "OK",
                group_broadcast c (named (event ∷ events) source metadata)
                    ++ coordinator_broadcast c (named (event ∷ events) source metadata) s,
                t,
              ))
              (notify_indexes-tasks (record s { pubsub = pubsub }) d.well_formed event events),
      record {
        delivered = d;
        same_queue = refl;
        same_records = refl;
        started = rw (d.same_clients, d.same_leads) refl;
      },
      ran,
      notified,
    )
