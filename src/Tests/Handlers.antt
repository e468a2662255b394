-- ===== src/Tests/Handlers.antt =====
-- Two handlers of src/server/workflowserver.cc that publish `T1` to a client which waits for it twice.
use tpst.Prelude.{
  ℕ, ◌+◌, ◌≤◌, ◌<◌, ◌≡◌, ◌⊎◌, refl, false, List, [], ◌∷◌, ◌+ℤ◌, Bytes, codes, bytes_eq, length,
}
use tpst.StdMap.{bytes_key, nat_key, find, find_or, put}
use tpst.PubSub.Trigger.{check_if_triggure}
use tpst.PubSub.Publish.{count_event}
use tpst.Server.Threads.{Phase, counting, Handler, Shared, run}
use tpst.Server.Threads.Served.{run-served}
use tpst.Tests.Tables.{wrapper}

abbrev publisher : Bytes → Phase → Handler
publisher metadata phase = record { event = codes "T1"; metadata = metadata; phase = phase }

abbrev both : Shared
both = record {
  wrapper = wrapper;
  queue = [];
  handlers = publisher (codes "a") counting ∷ publisher (codes "b") counting ∷ [];
  locked = false;
  marks = 0;
}

-- Both count and match, and the second writes the flag between the first one's reading and clearing.
abbrev schedule : List ℕ
schedule = 0 ∷ 1 ∷ 0 ∷ 1 ∷ 0 ∷ 0 ∷ 1 ∷ 0 ∷ 1 ∷ 0 ∷ 0 ∷ []

run-served_example :
    ((run schedule both).wrapper.iftrigure ≡ false)
    × (length (run schedule both).queue ≤ 0 + (run schedule both).marks)
    × (((run schedule both).marks ≡ 0) ⊎ (0 < length (run schedule both).queue))
unfolding run check_if_triggure count_event find_or find put ◌+ℤ◌ bytes_eq
run-served_example = run-served schedule both (refl, (refl, tt)) refl refl refl (refl, (refl, tt))

-- Both have seen that the client is complete, and both write the flag: one info.
merged : (length (run schedule both).queue ≡ 1) × ((run schedule both).marks ≡ 2)
unfolding run check_if_triggure count_event find_or find put ◌+ℤ◌ bytes_eq
merged = (refl, refl)
