-- ===== src/Server/Notify/Once.antt =====
-- Each marked client is notified once: src/server/workflowserver.cc, `checkNotify`.
use tpst.Prelude.{
  ℕ, suc, ◌≡◌, refl, sym, ◌∙◌, ap, Bool, true, false, ◌&&◌, List, [], ◌∷◌, ◌++◌, none, some, Result,
  ok, arith, All, ◌==◌, if◌then◌else◌, Bool-cases, inl, inr,
}
use mathlib.Core.List.{append_assoc, append-nil}
use tpst.StdMap.{nat_key, find, contains}
use tpst.StdMap.Laws.{find-put}
use tpst.PubSub.State.{PubsubWrapper, deref, store}
use tpst.Server.State.{NotifyInfo, ServerState}
use tpst.Server.Notify.{notify_info, reset, check_notify, run_tasks, Returns}

-- Is the client below the pointer marked for notification?
pub triggered : ℕ → ServerState → Bool
triggered p s = elim (find p s.pubsub.heap) [ none ↦ false | some w ↦ w.iftrigure ]

-- What the clients below the pointers are told.
pub infos : List ℕ → ServerState → List NotifyInfo
infos [] s = []
infos (p ∷ ps) s =
    let rest = infos ps s in
    elim (find p s.pubsub.heap) [ none ↦ rest | some w ↦ notify_info w ∷ rest ]

pub occurrences : ℕ → List ℕ → ℕ
occurrences q [] = 0
occurrences q (p ∷ ps) = let rest = occurrences q ps in if p == q then suc rest else rest

abbrev pub Live : ServerState → ℕ → Type 0
Live s p = (w : PubsubWrapper) × (find p s.pubsub.heap ≡ some w)

-- What the tasks `ps` made of `s`: `notified` are the clients that got an info.
pub record Notified (ps : List ℕ) (s s' : ServerState) : Type 0 where
  pub notified : List ℕ
  pub queue : s'.notify_queue ≡ s.notify_queue ++ infos notified s
  pub once : (p : ℕ) → occurrences p notified ≡ (if contains p ps && triggered p s then 1 else 0)
  pub cleared : (p : ℕ) → triggered p s' ≡ (if contains p ps then false else triggered p s)

-- The state after the task of a marked client.
abbrev pub told : ℕ → PubsubWrapper → ServerState → ServerState
told p w s = record s {
  notify_queue = s.notify_queue ++ notify_info w ∷ [];
  pubsub = store p (reset w) s.pubsub;
}

module _ (p : ℕ) (w : PubsubWrapper) (s : ServerState) (found : find p s.pubsub.heap ≡ some w) where
  pub check_notify-marked :
      (ends : ServerState → Result ServerState)
      → w.iftrigure ≡ true
      → check_notify ends p s ≡ ends (told p w s)
  unfolding check_notify deref
  check_notify-marked ends marked = rw (found, deref) (ground (arith, marked))

  pub check_notify-quiet :
      (ends : ServerState → Result ServerState) → w.iftrigure ≡ false → check_notify ends p s ≡ ok s
  unfolding check_notify deref
  check_notify-quiet ends quiet = rw (found, deref) (ground (arith, quiet))

  triggered-live : triggered p s ≡ w.iftrigure
  unfolding triggered
  triggered-live = rw (found, triggered) refl

  triggered-told : (q : ℕ) → triggered q (told p w s) ≡ (if p == q then false else triggered q s)
  unfolding triggered reset
  triggered-told q = ground (arith, find-put q p (reset w) s.pubsub.heap)

  infos-told : (ps : List ℕ) → infos ps (told p w s) ≡ infos ps s
  unfolding infos notify_info reset
  infos-told [] = refl
  infos-told (q ∷ ps) = ground (arith, infos-told ps, find-put q p (reset w) s.pubsub.heap, found)

  infos-live : (ps : List ℕ) → infos (p ∷ ps) s ≡ notify_info w ∷ infos ps s
  unfolding infos
  infos-live ps = rw (found, infos) refl

  Live-told : (q : ℕ) → Live s q → Live (told p w s) q
  Live-told q (v, at_q) =
      (if p == q then reset w else v, ground (arith, find-put q p (reset w) s.pubsub.heap, at_q))

  All-Live-told : (ps : List ℕ) → All (Live s) ps → All (Live (told p w s)) ps
  All-Live-told [] live = tt
  All-Live-told (q ∷ ps) live = (Live-told q live.0, All-Live-told ps live.1)

  told-Notified :
      (ps : List ℕ) (s' : ServerState)
      → w.iftrigure ≡ true
      → Notified ps (told p w s) s'
      → Notified (p ∷ ps) s s'
  unfolding contains occurrences
  told-Notified ps s' marked n = record {
    notified = p ∷ n.notified;
    queue =
        n.queue
        ∙ ap (λ r. (s.notify_queue ++ notify_info w ∷ []) ++ r) (infos-told n.notified)
        ∙ append_assoc s.notify_queue (notify_info w ∷ []) (infos n.notified s)
        ∙ ap (λ r. s.notify_queue ++ r) (sym (infos-live n.notified));
    once = λ q. ground (arith, n.once q, triggered-told q, triggered-live, marked);
    cleared = λ q. ground (arith, n.cleared q, triggered-told q, triggered-live, marked);
  }

  quiet-Notified :
      (ps : List ℕ) (s' : ServerState)
      → w.iftrigure ≡ false
      → Notified ps s s'
      → Notified (p ∷ ps) s s'
  unfolding contains
  quiet-Notified ps s' quiet n = record {
    notified = n.notified;
    queue = n.queue;
    once = λ q. ground (arith, n.once q, triggered-live, quiet);
    cleared = λ q. ground (arith, n.cleared q, triggered-live, quiet);
  }

nothing-Notified : (s : ServerState) → Notified [] s s
unfolding infos occurrences contains
nothing-Notified s = record {
  notified = [];
  queue = sym (append-nil s.notify_queue);
  once = λ q. refl;
  cleared = λ q. refl;
}

-- If a `checkNotify` that runs off its end returns to its caller, which C++ leaves undefined, the tasks
-- of the thread pool for any list of live clients, run in any order and with repetitions, each whole,
-- all return. Each client that is in the list and was marked gets exactly one info, at the end of the
-- queue, and the others get none. No client of the list stays marked, and a client outside the list
-- stays as it was.
pub run_tasks-Notified :
    (ends : ServerState → Result ServerState) (ps : List ℕ) (s : ServerState)
    → Returns ends
    → All (Live s) ps
    → (s' : ServerState) × (run_tasks ends ps s ≡ ok s') × Notified ps s s'
unfolding run_tasks
run_tasks-Notified ends [] s returns live = (s, refl, nothing-Notified s)
run_tasks-Notified ends (p ∷ ps) s returns live =
    let (w, found) = live.0 in
    let (s1, run1, n1) =
      run_tasks-Notified ends ps (told p w s) returns (All-Live-told p w s found ps live.1) in
    let (s2, run2, n2) = run_tasks-Notified ends ps s returns live.1 in
    elim (Bool-cases w.iftrigure) [
      | inl marked ↦ (
        s1,
        rw (check_notify-marked p w s found ends marked) (rw (returns (told p w s)) run1),
        told-Notified p w s found ps s1 marked n1,
      )
      | inr quiet ↦ (
        s2,
        rw (check_notify-quiet p w s found ends quiet) run2,
        quiet-Notified p w s found ps s2 quiet n2,
      )
    ]
