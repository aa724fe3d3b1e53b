-- ===== src/Samples/Streams.antt =====
-- Two streams, one of which reads and leaves, and another that only listens.
use changelogue.Prelude.{ℕ, ◌≡◌, refl, false, true, Option, none, some, List, [], ◌∷◌, bytes}
use changelogue.Events.{
  SseEvent, Channel, Broadcaster, new_broadcaster, Call, subscribes, unsubscribes, receives, sends,
  run,
}
use changelogue.Events.Channels.{alone}
use changelogue.Events.Served.{sent_in, Served}
use changelogue.Events.Alone.{run-alone}

abbrev event : SseEvent
event = record { event = bytes "release"; payload = bytes "1" }

abbrev next : SseEvent
next = record { event = bytes "release"; payload = bytes "2" }

abbrev calls : List Call
calls =
    subscribes
    ∷ subscribes
    ∷ sends event
    ∷ receives 0
    ∷ unsubscribes 0
    ∷ unsubscribes 0
    ∷ sends next
    ∷ []

abbrev channel_after : ℕ → Option Broadcaster → Option Channel
channel_after id none = none
channel_after id (some b) = b.channels id

-- The first stream has read one event and is closed.
calls-left :
    channel_after 0 (run new_broadcaster calls)
    ≡ some (record { received = event ∷ []; buffer = []; is_closed = true })
unfolding run
calls-left = refl

-- The second one has both events before it.
calls-listens :
    channel_after 1 (run new_broadcaster calls)
    ≡ some (record { received = []; buffer = event ∷ next ∷ []; is_closed = false })
unfolding run
calls-listens = refl

run-alone_example :
    (b : Broadcaster) × (run new_broadcaster calls ≡ some b)
    × ((id : ℕ)
        → (alone id (record { made = 0; channel = none }) calls
            ≡ record { made = b.made; channel = b.channels id })
          × Served (sent_in calls) (b.channels id))
run-alone_example = run-alone calls
