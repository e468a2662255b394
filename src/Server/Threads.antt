-- ===== src/Server/Threads.antt =====
-- Handlers of `Publish` that run at the same time, as one client sees them: `pubsubPublish` of
-- src/server/pubsub.cc for one event of the match type `NAME` and one client, and the `checkNotify` of
-- src/server/workflowserver.cc that the handler then starts for this client. What a thread does
-- under one lock, or with one access to the client's object, is a step; a list of steps is an
-- interleaving. The accesses to `publishedEvent` and the reading of `pubMetadata` stand under no lock:
-- each is taken to be whole, though two of them at once are a data race.
pub mod Count
pub mod Served
use tpst.Prelude.{
  ℕ, zero, suc, ◌+◌, ◌≡◌, Bool, true, false, List, [], ◌∷◌, ◌++◌, Option, none, some, Bytes, codes,
  bytes_eq, get_elem?, if◌then◌else◌,
}
use tpst.PubSub.State.{PubsubWrapper}
use tpst.PubSub.Trigger.{check_if_triggure}
use tpst.PubSub.Publish.{count_event, mark}
use tpst.PubSub.Subscribe.{delete_pub_event}
use tpst.Server.State.{NotifyInfo}
use tpst.Server.Notify.{notify_info}

-- What a handler does next: `publishedEvent[event]++`, `checkIfTriggure`, the writing of the flag if
-- that said yes, the reading of the flag in `checkNotify` and its clearing, both while it holds
-- `pswmtx`, the push of the info, `deletePubEvent`. The flag is written under another mutex,
-- `subtoClientMtx`, so that a writing can fall between the reading and the clearing.
pub data Phase : Type 0 where
  counting matching : Phase
  marking : Bool → Phase
  checking taking pushing clearing finished : Phase

pub record Handler : Type 0 where
  pub event : Bytes
  pub metadata : Bytes
  pub phase : Phase

abbrev pub set_handler : ℕ → Handler → List Handler → List Handler
set_handler i h [] = []
set_handler zero h (g ∷ handlers) = h ∷ handlers
set_handler (suc i) h (g ∷ handlers) = g ∷ set_handler i h handlers

-- The client's object, the notification queue and the handlers. `locked` says if `pswmtx` is held
-- from one step to the next, and `marks` counts how often the flag has been written.
pub record Shared : Type 0 where
  pub wrapper : PubsubWrapper
  pub queue : List NotifyInfo
  pub handlers : List Handler
  pub locked : Bool
  pub marks : ℕ

abbrev pub move : ℕ → Handler → Phase → Shared → Shared
move i h phase s = record s { handlers = set_handler i (record h { phase = phase }) s.handlers }

-- `if (tempiftrigure == true)`
unfoldable pub mark_if : Bool → Bytes → Shared → Shared
mark_if triggered metadata s =
    if triggered then (record s { wrapper = mark metadata s.wrapper; marks = suc s.marks }) else s

-- `if (psw->iftrigure == false)`: a held mutex is waited for, and then the function ends or keeps it.
unfoldable pub read_flag : ℕ → Handler → Shared → Shared
read_flag i h s =
    if s.locked
    then s
    else if s.wrapper.iftrigure
    then move i h taking (record s { locked = true })
    else move i h finished s

-- `psw->iftrigure = false`, and the mutex is left.
unfoldable pub take_flag : ℕ → Handler → Shared → Shared
take_flag i h s =
    move i h pushing
      (record s { wrapper = record (s.wrapper) { iftrigure = false }; locked = false })

-- `deletePubEvent`, for a "NAME" subscription.
unfoldable pub clear_if_name : PubsubWrapper → PubsubWrapper
clear_if_name w = if bytes_eq w.match_type (codes "NAME") then delete_pub_event w else w

-- The next step of one handler.
unfoldable pub advance : Phase → ℕ → Handler → Shared → Shared
unfolding mark_if read_flag take_flag clear_if_name
advance counting i h s = move i h matching (record s { wrapper = count_event h.event s.wrapper })
advance matching i h s = move i h (marking (check_if_triggure s.wrapper)) s
advance (marking triggered) i h s = move i h checking (mark_if triggered h.metadata s)
advance checking i h s = read_flag i h s
advance taking i h s = take_flag i h s
advance pushing i h s =
    move i h clearing (record s { queue = s.queue ++ notify_info s.wrapper ∷ [] })
advance clearing i h s = move i h finished (record s { wrapper = clear_if_name s.wrapper })
advance finished i h s = s

unfoldable pub step : ℕ → Shared → Shared
unfolding advance
step i s = elim (get_elem? s.handlers i) [ none ↦ s | some h ↦ advance h.phase i h s ]

unfoldable pub run : List ℕ → Shared → Shared
unfolding step
run [] s = s
run (i ∷ schedule) s = run schedule (step i s)
