-- ===== src/Events/Served.antt =====
-- What the stream of one client gets of the events that are sent.
use mathlib.Core.Path.{subst}
use mathlib.Core.List.{append_assoc, append-nil}
use changelogue.Prelude.{
  ℕ, ◌≤◌, ◌<◌, ◌≡◌, refl, sym, ap, ◌∙◌, Bool, true, false, Option, none, some, List, [], ◌∷◌, ◌++◌,
  ltb, ◌==◌, if◌then◌else◌, length, length-append, Bool-cases, inl, inr, arith,
}
use changelogue.Events.{
  SseEvent, Channel, new_channel, capacity, push, taken, take_one, Call, subscribes, unsubscribes,
  receives, sends,
}
use changelogue.Events.Channels.{Client, alone_step, alone, on_channel, hear, closed}

-- The events that are sent, in order.
unfoldable pub sent_in : List Call → List SseEvent
sent_in [] = []
sent_in (subscribes ∷ cs) = sent_in cs
sent_in (unsubscribes j ∷ cs) = sent_in cs
sent_in (receives j ∷ cs) = sent_in cs
sent_in (sends e ∷ cs) = e ∷ sent_in cs

-- Some of the elements, in their order.
pub data Some : List SseEvent → List SseEvent → Type 0 where
  nothing : Some [] []
  left_out : (e : SseEvent) (xs ys : List SseEvent) → Some xs ys → Some xs (e ∷ ys)
  taken_up : (e : SseEvent) (xs ys : List SseEvent) → Some xs ys → Some (e ∷ xs) (e ∷ ys)

left_out_last : (e : SseEvent) (xs ys : List SseEvent) → Some xs ys → Some xs (ys ++ e ∷ [])
left_out_last e _ _ nothing = left_out e [] [] nothing
left_out_last e _ _ (left_out x xs ys k) = left_out x xs (ys ++ e ∷ []) (left_out_last e xs ys k)
left_out_last e _ _ (taken_up x xs ys k) = taken_up x xs (ys ++ e ∷ []) (left_out_last e xs ys k)

taken_up_last :
    (e : SseEvent) (xs ys : List SseEvent) → Some xs ys → Some (xs ++ e ∷ []) (ys ++ e ∷ [])
taken_up_last e _ _ nothing = taken_up e [] [] nothing
taken_up_last e _ _ (left_out x xs ys k) =
    left_out x (xs ++ e ∷ []) (ys ++ e ∷ []) (taken_up_last e xs ys k)
taken_up_last e _ _ (taken_up x xs ys k) =
    taken_up x (xs ++ e ∷ []) (ys ++ e ∷ []) (taken_up_last e xs ys k)

none_of : (ys : List SseEvent) → Some [] ys
none_of [] = nothing
none_of (e ∷ ys) = left_out e [] ys (none_of ys)

-- What a client has got and waits for is some of what was sent, and its buffer is within its size.
abbrev pub Served : List SseEvent → Option Channel → Type 0
Served done none = Unit {0}
Served done (some c) = (length c.buffer ≤ capacity) × Some (c.received ++ c.buffer) done

push-Served :
    (e : SseEvent) (c : Channel) (done : List SseEvent)
    → Served done (some c)
    → Served (done ++ e ∷ []) (some (push e c))
unfolding push
push-Served e c done (size, some_of) = elim (Bool-cases (ltb (length c.buffer) capacity)) [
  | inl room ↦ rw (room) (
    let below : length c.buffer < capacity = ground arith in
        omega (arith, length-append c.buffer (e ∷ [])),
    subst (λ l. Some l (done ++ e ∷ [])) (append_assoc c.received c.buffer (e ∷ []))
        (taken_up_last e (c.received ++ c.buffer) done some_of),
  )
  | inr full ↦ rw (full) (size, left_out_last e (c.received ++ c.buffer) done some_of)
]

take-Served :
    (c : Channel) (l : List SseEvent) (done : List SseEvent)
    → c.buffer ≡ l
    → Served done (some c)
    → Served done (some (taken c l))
take-Served c [] done is_l h = h
take-Served c (e ∷ rest) done is_l (size, some_of) = (
  omega (arith, ap length is_l),
  subst (λ l. Some l done)
      (ap (λ l. c.received ++ l) is_l ∙ sym (append_assoc c.received (e ∷ []) rest)) some_of,
)

if_Served :
    (b : Bool) (done : List SseEvent) (o p : Option Channel)
    → Served done o
    → Served done p
    → Served done (if b then o else p)
if_Served true done o p h k = h
if_Served false done o p h k = k

either_channel :
    (b : Bool) (done : List SseEvent) (c d : Channel)
    → Served done (some c)
    → Served done (some d)
    → Served done (some (if b then c else d))
either_channel true done c d h k = h
either_channel false done c d h k = k

alone_step-Served :
    (id : ℕ) (q : Client) (c : Call) (done : List SseEvent)
    → Served done q.channel
    → Served (done ++ sent_in (c ∷ [])) (alone_step id q c).channel
unfolding sent_in take_one
alone_step-Served id q c done h = by_call c q.channel h
  where
    same_sent : (o : Option Channel) → Served done o → Served (done ++ []) o
    same_sent o k = subst (λ l. Served l o) (sym (append-nil done)) k

    close_one : (o : Option Channel) → Served done o → Served done (on_channel closed o)
    close_one none k = tt
    close_one (some c) k = k

    take : (o : Option Channel) → Served done o → Served done (on_channel take_one o)
    take none k = tt
    take (some c) k = take-Served c c.buffer done refl k

    hear_one :
        (e : SseEvent) (o : Option Channel)
        → Served done o
        → Served (done ++ e ∷ []) (on_channel (hear e) o)
    hear_one e none k = tt
    hear_one e (some c) k =
        either_channel c.is_closed (done ++ e ∷ []) c (push e c)
          (k.0, left_out_last e (c.received ++ c.buffer) done k.1) (push-Served e c done k)

    by_call :
        (c : Call) (o : Option Channel)
        → Served done o
        → Served
            (done ++ sent_in (c ∷ []))
            (alone_step id (record { made = q.made; channel = o }) c).channel
    by_call subscribes o k =
        same_sent _
          (if_Served (id == q.made) done (some new_channel) o (omega arith, none_of done) k)
    by_call (unsubscribes j) o k =
        same_sent _ (if_Served (id == j) done (on_channel closed o) o (close_one o k) k)
    by_call (receives j) o k =
        same_sent _ (if_Served (id == j) done (on_channel take_one o) o (take o k) k)
    by_call (sends e) o k = hear_one e o k

sent_in-cons : (c : Call) (cs : List Call) → sent_in (c ∷ cs) ≡ sent_in (c ∷ []) ++ sent_in cs
unfolding sent_in
sent_in-cons subscribes cs = refl
sent_in-cons (unsubscribes j) cs = refl
sent_in-cons (receives j) cs = refl
sent_in-cons (sends e) cs = refl

pub alone-Served :
    (id : ℕ) (q : Client) (cs : List Call) (done : List SseEvent)
    → Served done q.channel
    → Served (done ++ sent_in cs) (alone id q cs).channel
unfolding alone sent_in
alone-Served id q [] done h = subst (λ l. Served l q.channel) (sym (append-nil done)) h
alone-Served id q (c ∷ cs) done h =
    subst (λ l. Served l (alone id q (c ∷ cs)).channel)
      (append_assoc done (sent_in (c ∷ [])) (sent_in cs)
        ∙ ap (λ l. done ++ l) (sym (sent_in-cons c cs)))
      (alone-Served id (alone_step id q c) cs (done ++ sent_in (c ∷ []))
        (alone_step-Served id q c done h))
