-- ===== src/Events/Alone.antt =====
-- Each client of the Broadcaster is served as if it were alone.
use mathlib.Core.Path.{subst}
use changelogue.Prelude.{ℕ, ◌≡◌, refl, ap, ◌∙◌, none, some, List, [], ◌∷◌}
use changelogue.Events.{Broadcaster, new_broadcaster, Call, or_panic, run}
use changelogue.Events.Channels.{Client, alone, Inv, new-Inv}
use changelogue.Events.Closings.{step-Stepped}
use changelogue.Events.Served.{sent_in, Served, alone-Served}

run-alone_from :
    (b : Broadcaster) (cs : List Call)
    → Inv b
    → (b' : Broadcaster) × (run b cs ≡ some b')
      × ((id : ℕ)
          → alone id (record { made = b.made; channel = b.channels id }) cs
            ≡ record { made = b'.made; channel = b'.channels id })
unfolding run alone
run-alone_from b [] inv = (b, refl, λ id. refl)
run-alone_from b (c ∷ cs) inv =
    let (d, stepped, kept) = step-Stepped b c inv in
    let (b', ran, rest) = run-alone_from d cs kept.0 in
    (
      b',
      ap (λ o. or_panic o (λ q. run q cs)) stepped ∙ ran,
      λ id. ap (λ q. alone id q cs) (kept.1 id) ∙ rest id,
    )

-- Whatever calls are made, in whatever order: no call sends to a closed channel or closes one again;
-- each client has received, and waits to receive, what it would without the other clients, so that no
-- client holds up another one; and that is some of the events that were sent, in their order, with
-- at most 64 of them waiting.
pub run-alone :
    (cs : List Call)
    → (b : Broadcaster) × (run new_broadcaster cs ≡ some b)
      × ((id : ℕ)
          → (alone id (record { made = 0; channel = none }) cs
              ≡ record { made = b.made; channel = b.channels id })
            × Served (sent_in cs) (b.channels id))
run-alone cs =
    let (b, ran, each) = run-alone_from new_broadcaster cs new-Inv in
    (
      b,
      ran,
      λ id. (
        each id,
        subst (λ (q : Client). Served (sent_in cs) q.channel) (each id)
            (alone-Served id (record { made = 0; channel = none }) cs [] tt),
      ),
    )
