-- ===== src/Events/Closings.antt =====
-- What closing a channel leaves, and so what each call does, for each channel.
use changelogue.Prelude.{
  ℕ, ◌≡◌, refl, sym, ap, ◌∙◌, Bool, true, false, not, ◌&&◌, Option, none, some, List, [], ◌∷◌, ◌==◌,
  contains, keep, Bool-cases, inl, inr, arith,
}
use changelogue.Events.{
  Channel, Broadcaster, update, subscribe, unsubscribe, receive, Call, subscribes, unsubscribes,
  receives, sends, step,
}
use changelogue.Events.Channels.{Inv, on_channel, is_open, Distinct, open_channel, closed}
use changelogue.Events.Steps.{
  Stepped, client_of, at_update, unmade-update, no_change, subscribe-Stepped, receive-Stepped,
  send-Stepped,
}

contains-keep :
    (j id : ℕ) (xs : List ℕ)
    → contains (keep (λ k. not (k == j)) xs) id ≡ (contains xs id && not (id == j))
unfolding contains keep
contains-keep j id [] = refl
contains-keep j id (x ∷ xs) = ground (arith, contains-keep j id xs)

Distinct-keep : (j : ℕ) (xs : List ℕ) → Distinct xs → Distinct (keep (λ k. not (k == j)) xs)
unfolding keep
Distinct-keep j [] d = tt
Distinct-keep j (x ∷ xs) (new, d) = elim (Bool-cases (x == j)) [
  | inl hit ↦ rw (hit) (Distinct-keep j xs d)
  | inr miss ↦
      rw (miss) (contains-keep j x xs ∙ ap (λ b. b && not (x == j)) new, Distinct-keep j xs d)
]

-- Closing a channel that is not registered would change nothing.
pub closed_again : (o : Option Channel) → is_open o ≡ false → on_channel closed o ≡ o
closed_again none h = refl
closed_again (some c) h =
    let was : c.is_closed ≡ true = ground arith in
    ap (λ (b : Bool). let q : Option Channel = some (record c { is_closed = b }) in q) (sym was)

and_other : (b : Bool) → (b && true) ≡ b
and_other b = ground arith

pub unsubscribe-Stepped :
    (b : Broadcaster) (j : ℕ)
    → Inv b
    → (b' : Broadcaster) × (unsubscribe b j ≡ some b') × Stepped b (unsubscribes j) b'
unfolding unsubscribe
unsubscribe-Stepped b j inv = elim (Bool-cases (contains b.clients j)) [
  | inl member ↦ registered member
  | inr other ↦ (
    b,
    rw (other) refl,
    (
      inv,
      λ id. ap (client_of b.made) (
          no_change closed b.channels j
            (closed_again (b.channels j) (sym (inv.registered j) ∙ other)) id),
    ),
  )
]
  where
    still :
        (c : Channel)
        → b.channels j ≡ some c
        → (id : ℕ)
        → contains (keep (λ k. not (k == j)) b.clients) id
          ≡ is_open (update j (closed c) b.channels id)
    still c e id = elim (Bool-cases (id == j)) [
      | inl hit ↦ contains-keep j id b.clients ∙ rw (hit) (ground arith)
      | inr miss ↦
          contains-keep j id b.clients
          ∙ rw (miss) (and_other (contains b.clients id) ∙ inv.registered id)
    ]

    registered :
        contains b.clients j ≡ true
        → (b' : Broadcaster) × (unsubscribe b j ≡ some b') × Stepped b (unsubscribes j) b'
    registered member =
        let (c, e, unclosed) = open_channel (b.channels j) (sym (inv.registered j) ∙ member) in
        (
          record b {
            clients = keep (λ k. not (k == j)) b.clients;
            channels = update j (closed c) b.channels;
          },
          rw (member, e, unclosed) refl,
          (
            record {
              once = Distinct-keep j b.clients inv.once;
              registered = still c e;
              unmade = λ id h. unmade-update closed b.channels j c e id (inv.unmade id h);
            },
            λ id. ap (client_of b.made) (at_update closed b.channels j c e id),
          ),
        )

pub step-Stepped :
    (b : Broadcaster) (c : Call)
    → Inv b
    → (b' : Broadcaster) × (step b c ≡ some b') × Stepped b c b'
unfolding step
step-Stepped b subscribes inv = (subscribe b, refl, subscribe-Stepped b inv)
step-Stepped b (unsubscribes j) inv = unsubscribe-Stepped b j inv
step-Stepped b (receives j) inv = (receive b j, refl, receive-Stepped b j inv)
step-Stepped b (sends e) inv = send-Stepped b e inv
