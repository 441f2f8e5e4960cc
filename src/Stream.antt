-- ===== src/Stream.antt =====
-- apps/api/app/services/events.py: one connection of a browser to the events of a job. The messages
-- are what the subscription yields from before the log is read until the stream's hour is over.
pub mod Order
pub mod Lossless
use zolexai.Prelude.{
  ℕ, Bool, true, false, Option, none, some, List, [], ◌∷◌, if◌then◌else◌, max, leb,
}
use zolexai.Job.{Event, is_terminal}
use zolexai.Database.{list_events}

-- A timeout without a message, a payload that does not parse, or an event.
pub data Message : Type 0 where
  quiet bad_payload : Message
  live : Event → Message

-- The live feed; `none` is a keepalive.
unfoldable pub follow : ℕ → List Message → List (Option Event)
unfolding is_terminal
follow highest [] = []
follow highest (quiet ∷ messages) = none ∷ follow highest messages
follow highest (bad_payload ∷ messages) = follow highest messages
follow highest (live e ∷ messages) =
    let skipped = follow highest messages in
    let rest = follow e.seq messages in
    if leb e.seq highest
    then skipped
    else if is_terminal e.status
    then some e ∷ []
    else some e ∷ rest

-- The replay, and the live feed after it.
unfoldable pub catch_up : ℕ → List Event → List Message → List (Option Event)
unfolding follow is_terminal
catch_up highest [] messages = follow highest messages
catch_up highest (e ∷ replay) messages =
    let rest = catch_up (max highest e.seq) replay messages in
    if is_terminal e.status then some e ∷ [] else some e ∷ rest

unfoldable pub stream_job_events : ℕ → ℕ → List Event → List Message → List (Option Event)
unfolding catch_up list_events
stream_job_events job last_event_id log messages =
    catch_up last_event_id (list_events job last_event_id log) messages
