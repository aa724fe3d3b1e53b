-- ===== src/Events.antt =====
-- The Broadcaster of internal/api/events.go, with the streams that read from it. Each call of it
-- holds its mutex, so calls are taken one after another.
pub mod Channels
pub mod Steps
pub mod Closings
pub mod Served
pub mod Alone
use changelogue.Prelude.{
  ℕ, ◌+◌, Bool, true, false, not, Option, none, some, List, [], ◌∷◌, ◌++◌, Bytes, ltb, ◌==◌,
  if◌then◌else◌, length, contains, keep,
}

pub record SseEvent : Type 0 where
  pub event : Bytes
  pub payload : Bytes

-- A channel of a client, with what its stream has written after the greeting.
pub record Channel : Type 0 where
  pub received : List SseEvent
  pub buffer : List SseEvent
  pub is_closed : Bool

abbrev pub new_channel : Channel
new_channel = record { received = []; buffer = []; is_closed = false }

-- The channels that were made, by their number, and the set of those that are registered.
pub record Broadcaster : Type 0 where
  pub clients : List ℕ
  pub channels : ℕ → Option Channel
  pub made : ℕ

abbrev pub new_broadcaster : Broadcaster
new_broadcaster = record { clients = []; channels = λ id. none; made = 0 }

abbrev pub update : ℕ → Channel → (ℕ → Option Channel) → ℕ → Option Channel
update id c channels j = if j == id then some c else channels j

-- `make(chan SSEEvent, 64)`
abbrev pub capacity : ℕ
capacity = 64

-- `select { case ch <- evt: default: }` on an open channel
unfoldable pub push : SseEvent → Channel → Channel
push e c = if ltb (length c.buffer) capacity then record c { buffer = c.buffer ++ e ∷ [] } else c

abbrev pub taken : Channel → List SseEvent → Channel
taken c [] = c
taken c (e ∷ rest) = record c { received = c.received ++ e ∷ []; buffer = rest }

-- The stream takes an event and writes it; an empty buffer makes it wait, or ends it.
unfoldable pub take_one : Channel → Channel
take_one c = taken c c.buffer

-- Subscribe
unfoldable pub subscribe : Broadcaster → Broadcaster
subscribe b = record {
  clients = b.made ∷ b.clients;
  channels = update b.made new_channel b.channels;
  made = b.made + 1;
}

-- `none` is a panic: on a send to a closed channel, or on closing it again.
abbrev pub closing : Broadcaster → ℕ → Option Channel → Option Broadcaster
closing b id none = none
closing b id (some c) =
    if c.is_closed
    then none
    else some (record b {
      clients = keep (λ j. not (j == id)) b.clients;
      channels = update id (record c { is_closed = true }) b.channels;
    })

-- Unsubscribe
unfoldable pub unsubscribe : Broadcaster → ℕ → Option Broadcaster
unfolding contains keep
unsubscribe b id = if contains b.clients id then closing b id (b.channels id) else some b

unfoldable pub send_all : SseEvent → List ℕ → (ℕ → Option Channel) → Option (ℕ → Option Channel)
unfolding push
send_all e [] channels = some channels
send_all e (id ∷ ids) channels = elim (channels id) [
  | none ↦ none
  | some c ↦ elim c.is_closed [
    | true ↦ none
    | false ↦ send_all e ids (update id (push e c) channels)
  ]
]

abbrev pub with_channels : Broadcaster → Option (ℕ → Option Channel) → Option Broadcaster
with_channels b none = none
with_channels b (some channels) = some (record b { channels = channels })

-- Send
unfoldable pub send : Broadcaster → SseEvent → Option Broadcaster
unfolding send_all
send b e = with_channels b (send_all e b.clients b.channels)

abbrev pub taking : Broadcaster → ℕ → Option Channel → Broadcaster
taking b id none = b
taking b id (some c) = record b { channels = update id (take_one c) b.channels }

-- A round of Stream's loop
unfoldable pub receive : Broadcaster → ℕ → Broadcaster
unfolding take_one
receive b id = taking b id (b.channels id)

pub data Call : Type 0 where
  subscribes : Call
  unsubscribes receives : ℕ → Call
  sends : SseEvent → Call

unfoldable pub step : Broadcaster → Call → Option Broadcaster
unfolding subscribe unsubscribe send receive
step b subscribes = some (subscribe b)
step b (unsubscribes id) = unsubscribe b id
step b (receives id) = some (receive b id)
step b (sends e) = send b e

abbrev pub or_panic : Option Broadcaster → (Broadcaster → Option Broadcaster) → Option Broadcaster
or_panic none f = none
or_panic (some b) f = f b

unfoldable pub run : Broadcaster → List Call → Option Broadcaster
unfolding step
run b [] = some b
run b (c ∷ cs) = or_panic (step b c) (λ b'. run b' cs)
