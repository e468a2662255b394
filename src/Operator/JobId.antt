-- ===== src/Operator/JobId.antt =====
-- The id that src/operator/operator.cc takes from what `sbatch` printed.
use tpst.Prelude.{
  ◌+◌, ◌-◌, ◌≡◌, refl, ◌∙◌, ap, List, [], ◌∷◌, ◌++◌, Bytes, codes, bytes_eq, bytes_eq_refl, ok,
  length, length-append, ltb, false, arith,
}
use tpst.Utils.StrParse.RoundTrip.{drop-length}
use tpst.StdMap.{bytes_key, find_or, put}
use tpst.StdMap.Laws.{find_or-put}
use tpst.Server.Redistribute.{SubscribeRequest}
use tpst.Operator.{
  no_bundle, Bundle, Tasks, job_id, run_task, stop_task, register_pre, register_bundle, new_bundle,
  bundle_register, Registration, sbatch_command,
}

-- The id is the four bytes before the line feed that ends the output, and the line feed.
pub job_id-line :
    (front four : Bytes)
    → length four ≡ 4
    → job_id (front ++ (four ++ 10 ∷ [])) ≡ ok (four ++ 10 ∷ [])
unfolding job_id
job_id-line front four short =
    let whole : length (front ++ (four ++ 10 ∷ [])) ≡ length front + 5 =
      omega (arith, short, length-append front (four ++ 10 ∷ []), length-append four (10 ∷ [])) in
    let from : length (front ++ (four ++ 10 ∷ [])) - 5 ≡ length front = omega (arith, whole) in
    let long : ltb (length (front ++ (four ++ 10 ∷ []))) 5 ≡ false = ground (arith, whole) in
    rw (long, from, drop-length front (four ++ 10 ∷ [])) refl

module _ (sbatch : Bytes → Bytes) (b : Bundle) (front four : Bytes)
    (init : b.pretg.subtopic ≡ codes "INIT")
    (printed : sbatch b.task_templates ≡ front ++ (four ++ 10 ∷ [])) (short : length four ≡ 4) where
  stop_task-register_pre :
      (id notify_addr : Bytes) (sent : List SubscribeRequest) (s : Tasks)
      → (r : Registration) × (register_pre sbatch b id notify_addr sent s ≡ ok r)
        × ((stop_task b.task_name r.tasks).0 ≡ codes "scancel " ++ (four ++ 10 ∷ []))
  unfolding register_pre run_task stop_task
  stop_task-register_pre id notify_addr sent s =
      let taken = job_id-line front four short in
      let old : Bundle = find_or no_bundle b.task_name s.bmap in
      let kept : Bundle = record old { task_running_id = four ++ 10 ∷ [] } in
      let read : find_or no_bundle b.task_name (put b.task_name kept s.bmap) ≡ kept =
        find_or-put no_bundle b.task_name b.task_name kept s.bmap
        ∙ rw (bytes_eq_refl b.task_name) refl in
      (
        record {
          tasks = record s { bmap = put b.task_name kept s.bmap };
          subscriptions = sent;
          commands = sbatch_command b.task_templates ∷ [];
        },
        rw (ap (λ topic. bytes_eq topic (codes "INIT")) init ∙ bytes_eq_refl (codes "INIT"))
            (rw printed (rw taken refl)),
        ap (λ bundle. codes "scancel " ++ bundle.task_running_id) read,
      )

-- A task with the topic INIT, whose `sbatch` prints a text that ends in four bytes and a line feed: the
-- command that is to stop it is `scancel `, these four bytes and the line feed, whatever stands
-- before them.
pub stop_task-bundle_register :
    (sbatch : Bytes → Bytes) (name templates front four : Bytes)
    → sbatch templates ≡ front ++ (four ++ 10 ∷ [])
    → length four ≡ 4
    → (notify_addr pre_meta post_topic post_meta pre_id post_id : Bytes) (s : Tasks)
    → (r : Registration) × (bundle_register sbatch notify_addr name templates
          (codes "INIT")
          pre_meta
          post_topic
          post_meta
          pre_id
          post_id
          s
        ≡ ok r)
      × ((stop_task name r.tasks).0 ≡ codes "scancel " ++ (four ++ 10 ∷ []))
unfolding bundle_register register_bundle new_bundle
stop_task-bundle_register sbatch name templates front four printed short notify_addr pre_meta
      post_topic post_meta pre_id post_id s =
    stop_task-register_pre sbatch
      (new_bundle name templates (codes "INIT") pre_meta post_topic post_meta) front four refl
      printed short pre_id notify_addr _ _
