-- ===== src/Events/Channels.antt =====
-- One channel of the Broadcaster as if it were alone, the registered ones, and what a send does to
-- each.
use changelogue.Prelude.{
  ℕ, ◌+◌, ◌≤◌, ◌≡◌, refl, sym, ap, ◌∙◌, Bool, true, false, not, Option, none, some, List, [], ◌∷◌,
  ltb, ◌==◌, if◌then◌else◌, length, contains, Bool-cases, inl, inr, ==_iff, ==_refl, arith,
}
use changelogue.Events.{
  SseEvent, Channel, new_channel, Broadcaster, new_broadcaster, update, capacity, push, take_one,
  send_all, Call, subscribes, unsubscribes, receives, sends,
}

abbrev pub closed : Channel → Channel
closed c = record c { is_closed = true }

-- One bounded queue, without the others: the channel number `id`, once `made` reaches it.
pub record Client : Type 0 where
  pub made : ℕ
  pub channel : Option Channel

abbrev pub on_channel : (Channel → Channel) → Option Channel → Option Channel
on_channel f none = none
on_channel f (some c) = some (f c)

abbrev pub hear : SseEvent → Channel → Channel
hear e c = if c.is_closed then c else push e c

abbrev pub alone_step : ℕ → Client → Call → Client
alone_step id q subscribes = record {
  made = q.made + 1;
  channel = if id == q.made then some new_channel else q.channel;
}
alone_step id q (unsubscribes j) = record q {
  channel =
      if id == j then on_channel (λ c. record c { is_closed = true }) q.channel else q.channel;
}
alone_step id q (receives j) = record q {
  channel = if id == j then on_channel take_one q.channel else q.channel;
}
alone_step id q (sends e) = record q { channel = on_channel (hear e) q.channel }

unfoldable pub alone : ℕ → Client → List Call → Client
alone id q [] = q
alone id q (c ∷ cs) = alone id (alone_step id q c) cs

abbrev pub is_open : Option Channel → Bool
is_open none = false
is_open (some c) = not c.is_closed

abbrev pub Distinct : List ℕ → Type 0
Distinct [] = Unit
Distinct (x ∷ xs) = (contains xs x ≡ false) × Distinct xs

-- The registered channels are the open ones, each registered once.
pub record Inv (b : Broadcaster) : Type 0 where
  pub once : Distinct b.clients
  pub registered : (id : ℕ) → contains b.clients id ≡ is_open (b.channels id)
  pub unmade : (id : ℕ) → b.made ≤ id → b.channels id ≡ none

pub new-Inv : Inv new_broadcaster
unfolding contains
new-Inv = record { once = tt; registered = λ id. refl; unmade = λ id h. refl }

-- What a send does to one channel.
abbrev pub heard : SseEvent → List ℕ → (ℕ → Option Channel) → ℕ → Option Channel
heard e ids channels j = if contains ids j then on_channel (push e) (channels j) else channels j

pub open_channel :
    (x : Option Channel) → is_open x ≡ true → (c : Channel) × (x ≡ some c) × (c.is_closed ≡ false)
open_channel none h = cc
open_channel (some c) h = (c, refl, ground arith)

pub is_closed-push : (e : SseEvent) (c : Channel) → (push e c).is_closed ≡ c.is_closed
unfolding push
is_closed-push e c = elim (Bool-cases (ltb (length c.buffer) capacity)) [
  | inl room ↦ rw (room) refl
  | inr full ↦ rw (full) refl
]

pub ==_swap : (i j : ℕ) → (i == j) ≡ (j == i)
==_swap i j = ground arith

-- What a send to the first client leaves for the others.
update_other :
    (id : ℕ) (c : Channel) (channels : ℕ → Option Channel) (j : ℕ)
    → (id == j) ≡ false
    → update id c channels j ≡ channels j
update_other id c channels j h = rw (==_swap j id, h) refl

update_same :
    (id : ℕ) (c : Channel) (channels : ℕ → Option Channel) (j : ℕ)
    → (id == j) ≡ true
    → update id c channels j ≡ some c
update_same id c channels j h = rw (==_swap j id, h) refl

pub send_all-heard :
    (e : SseEvent) (ids : List ℕ) (channels : ℕ → Option Channel)
    → Distinct ids
    → ((j : ℕ) → contains ids j ≡ true → is_open (channels j) ≡ true)
    → (after : ℕ → Option Channel) × (send_all e ids channels ≡ some after)
      × ((j : ℕ) → after j ≡ heard e ids channels j)
unfolding send_all contains
send_all-heard e [] channels d o = (channels, refl, λ j. refl)
send_all-heard e (id ∷ ids) channels (new, d) o =
    let (c, found, unclosed) = open_channel (channels id) (o id (rw (==_refl id) refl)) in
    let (after, sent, each) =
      send_all-heard e ids (update id (push e c) channels) d (still_open c) in
    (after, rw (found, unclosed, send_all) sent, λ j. each j ∙ at_each c found j)
  where
    apart : (j : ℕ) → contains ids j ≡ true → (id == j) ≡ false
    apart j h = elim (Bool-cases (id == j)) [
      | inr other ↦ other
      | inl one ↦ cc (new, h, ap (contains ids) ((==_iff id j).0 one))
    ]

    still_open :
        (c : Channel) (j : ℕ)
        → contains ids j ≡ true
        → is_open (update id (push e c) channels j) ≡ true
    still_open c j h =
        ap is_open (update_other id (push e c) channels j (apart j h)) ∙ o j (rw (apart j h) h)

    at_each :
        (c : Channel)
        → channels id ≡ some c
        → (j : ℕ) → heard e ids (update id (push e c) channels) j ≡ heard e (id ∷ ids) channels j
    at_each c found j = elim (Bool-cases (id == j)) [
      | inl one ↦
          let here : id ≡ j = (==_iff id j).0 one in
          let gone : contains ids j ≡ false = ap (contains ids) (sym here) ∙ new in
          rw (one, gone)
            (update_same id (push e c) channels j one
              ∙ ap (on_channel (push e)) (sym found ∙ ap channels here))
      | inr other ↦
          ap (λ x. if contains ids j then on_channel (push e) x else x)
            (update_other id (push e c) channels j other)
          ∙ rw (other) refl
    ]

pub is_open-heard :
    (e : SseEvent) (ids : List ℕ) (channels : ℕ → Option Channel) (id : ℕ)
    → is_open (channels id) ≡ is_open (heard e ids channels id)
is_open-heard e ids channels id = elim (Bool-cases (contains ids id)) [
  | inl member ↦ rw (member) (pushed_open (channels id))
  | inr other ↦ rw (other) refl
]
  where
    pushed_open : (o : Option Channel) → is_open o ≡ is_open (on_channel (push e) o)
    pushed_open none = refl
    pushed_open (some c) = ap not (sym (is_closed-push e c))

-- A registered channel takes the event; any other one is closed, or not there.
pub hear-heard :
    (e : SseEvent) (o : Option Channel) (b : Bool)
    → b ≡ is_open o
    → on_channel (hear e) o ≡ (if b then on_channel (push e) o else o)
hear-heard e none true h = refl
hear-heard e none false h = refl
hear-heard e (some c) true h = rw (flip c h) refl
  where
    flip : (c : Channel) → true ≡ not c.is_closed → c.is_closed ≡ false
    flip c h = ground arith
hear-heard e (some c) false h = rw (flip c h) refl
  where
    flip : (c : Channel) → false ≡ not c.is_closed → c.is_closed ≡ true
    flip c h = ground arith
