-- ===== src/Events/Steps.antt =====
-- What subscribing, receiving and sending leave, for each channel.
use mathlib.Core.Path.{subst}
use changelogue.Prelude.{
  ℕ, ◌≡◌, refl, sym, ap, ◌∙◌, false, not, Option, none, some, List, [], ◌∷◌, ◌==◌, if◌then◌else◌,
  contains, Bool-cases, inl, inr, ==_iff, arith,
}
use changelogue.Events.{
  SseEvent, Channel, Broadcaster, update, push, taken, take_one, subscribe, with_channels, send,
  taking, receive, Call, subscribes, receives, sends,
}
use changelogue.Events.Channels.{
  Client, alone_step, Inv, on_channel, is_open, heard, ==_swap, send_all-heard, is_open-heard,
  hear-heard,
}

-- After a call the invariant holds, and each channel is what its client alone makes of the call.
abbrev pub Stepped : Broadcaster → Call → Broadcaster → Type 0
Stepped b c b' =
    Inv b'
    × ((id : ℕ)
        → alone_step id (record { made = b.made; channel = b.channels id }) c
          ≡ record { made = b'.made; channel = b'.channels id })

abbrev pub client_of : ℕ → Option Channel → Client
client_of made channel = record { made = made; channel = channel }

pub subscribe-Stepped : (b : Broadcaster) → Inv b → Stepped b subscribes (subscribe b)
unfolding subscribe contains
subscribe-Stepped b inv = (
  record {
    once = (inv.registered b.made ∙ ap is_open (inv.unmade b.made (omega arith)), inv.once);
    registered = λ id. elim (Bool-cases (id == b.made)) [
      | inl hit ↦ rw (==_swap b.made id, hit) refl
      | inr miss ↦ rw (==_swap b.made id, miss) (inv.registered id)
    ];
    unmade = λ id h.
        let later : (id == b.made) ≡ false = ground arith in
        rw (later) (inv.unmade id (omega arith));
  },
  λ id. refl,
)

-- A change of one channel.
module _ (f : Channel → Channel) (channels : ℕ → Option Channel) (j : ℕ) (c : Channel)
    (found : channels j ≡ some c) where
  pub at_update :
      (id : ℕ)
      → (if id == j then on_channel f (channels id) else channels id) ≡ update j (f c) channels id
  at_update id = elim (Bool-cases (id == j)) [
    | inl hit ↦ rw (hit) (ap (on_channel f) (ap channels ((==_iff id j).0 hit) ∙ found))
    | inr miss ↦ rw (miss) refl
  ]

  pub is_open-update :
      (f c).is_closed ≡ c.is_closed
      → (id : ℕ) → is_open (channels id) ≡ is_open (update j (f c) channels id)
  is_open-update same id = elim (Bool-cases (id == j)) [
    | inl hit ↦
        rw (hit) (ap is_open (ap channels ((==_iff id j).0 hit) ∙ found) ∙ ap not (sym same))
    | inr miss ↦ rw (miss) refl
  ]

  pub unmade-update : (id : ℕ) → channels id ≡ none → update j (f c) channels id ≡ none
  unmade-update id h = elim (Bool-cases (id == j)) [
    | inl hit ↦ cc (h, found, ap channels ((==_iff id j).0 hit))
    | inr miss ↦ rw (miss) h
  ]

is_closed-taken : (c : Channel) (l : List SseEvent) → (taken c l).is_closed ≡ c.is_closed
is_closed-taken c [] = refl
is_closed-taken c (e ∷ rest) = refl

-- A change of a channel that is not there changes nothing.
pub no_change :
    (f : Channel → Channel) (channels : ℕ → Option Channel) (j : ℕ)
    → on_channel f (channels j) ≡ channels j
    → (id : ℕ) → (if id == j then on_channel f (channels id) else channels id) ≡ channels id
no_change f channels j h id = elim (Bool-cases (id == j)) [
  | inl hit ↦
      rw (hit) (subst (λ k. on_channel f (channels k) ≡ channels k) (sym ((==_iff id j).0 hit)) h)
  | inr miss ↦ rw (miss) refl
]

pub receive-Stepped : (b : Broadcaster) (j : ℕ) → Inv b → Stepped b (receives j) (receive b j)
unfolding receive
receive-Stepped b j inv = by_channel (b.channels j) refl
  where
    by_channel : (o : Option Channel) → b.channels j ≡ o → Stepped b (receives j) (taking b j o)
    by_channel none e = (
      inv,
      λ id.
          ap (client_of b.made)
            (no_change take_one b.channels j (ap (on_channel take_one) e ∙ sym e) id),
    )
    by_channel (some c) e = (
      record {
        once = inv.once;
        registered = λ id.
            inv.registered id
            ∙ is_open-update take_one b.channels j c e (is_closed-taken c c.buffer) id;
        unmade = λ id h. unmade-update take_one b.channels j c e id (inv.unmade id h);
      },
      λ id. ap (client_of b.made) (at_update take_one b.channels j c e id),
    )

pub send-Stepped :
    (b : Broadcaster) (e : SseEvent)
    → Inv b
    → (b' : Broadcaster) × (send b e ≡ some b') × Stepped b (sends e) b'
unfolding send
send-Stepped b e inv =
    let (after, sent, each) =
      send_all-heard e b.clients b.channels inv.once (λ j h. sym (inv.registered j) ∙ h) in
    (
      record b { channels = after },
      ap (with_channels b) sent,
      (
        record {
          once = inv.once;
          registered = λ id.
              inv.registered id
              ∙ is_open-heard e b.clients b.channels id
              ∙ ap is_open (sym (each id));
          unmade = λ id h. each id ∙ unheard id (inv.unmade id h);
        },
        λ id. ap (client_of b.made) (
            hear-heard e (b.channels id) (contains b.clients id) (inv.registered id)
            ∙ sym (each id)),
      ),
    )
  where
    unheard : (id : ℕ) → b.channels id ≡ none → heard e b.clients b.channels id ≡ none
    unheard id h = elim (Bool-cases (contains b.clients id)) [
      | inl member ↦ rw (member) (ap (on_channel (push e)) h)
      | inr other ↦ rw (other) h
    ]
