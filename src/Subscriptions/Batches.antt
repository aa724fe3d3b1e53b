-- ===== src/Subscriptions/Batches.antt =====
-- Batches of subscriptions in internal/api/pgstore.go.
use mathlib.Core.Path.{subst}
use changelogue.Prelude.{
  ℕ, ◌+◌, ◌≡◌, refl, sym, ap, ◌∙◌, Bool, true, false, Option, none, some, List, [], ◌∷◌, pushed,
}
use changelogue.Exec.{Outcome, pure}
use changelogue.Exec.Rules.{bind-Outcome}
use changelogue.Models.{Subscription}
use changelogue.Db.{Db, past_call, statement}
use changelogue.Db.Rows.{or_refuse}
use changelogue.Db.Rules.{statement-Outcome, transaction-Outcome}
use changelogue.Ingestion.Atomic.{
  calm, IsHonest, pure-IsHonest, statement-IsHonest, bind-IsHonest, IsAtomic, transaction-IsAtomic,
}
use changelogue.Subscriptions.{
  is_accepted, insert_if, create_subscription, insert_all, create_subscription_batch,
}

-- The rows of a batch are those that were asked for, with identifiers from `next` on that rise.
pub data AsAsked : ℕ → List Subscription → List Subscription → Type 0 where
  no_rows : (next : ℕ) → AsAsked next [] []
  row :
      (next : ℕ) (sub : Subscription) (subs rows : List Subscription)
      → AsAsked (next + 1) subs rows
      → AsAsked next (sub ∷ subs) (record sub { id = next } ∷ rows)

-- What one INSERT leaves.
abbrev Inserted : Subscription → Db → Subscription → Db → Type 0
Inserted sub db r d =
    (r ≡ record sub { id = db.next_id })
    × (d.subscriptions ≡ r ∷ db.subscriptions)
    × (d.next_id ≡ db.next_id + 1)

abbrev InsertedIf : Subscription → Db → Option Subscription → Db → Type 0
InsertedIf sub db none d = Unit
InsertedIf sub db (some r) d = Inserted sub db r d

insert_if-InsertedIf :
    (b : Bool) (sub : Subscription) (db : Db)
    → InsertedIf sub db (insert_if b sub db).0 (insert_if b sub db).1
insert_if-InsertedIf false sub db = tt
insert_if-InsertedIf true sub db = (refl, refl, refl)

create-Inserted :
    (sub : Subscription) (db : Db)
    → Outcome (λ _. Unit {0}) (Inserted sub db) (create_subscription sub db)
unfolding create_subscription
create-Inserted sub db =
    bind-Outcome (λ _. Unit {0}) (InsertedIf sub db) (Inserted sub db)
      (statement (λ d. insert_if (is_accepted d sub) sub d)) or_refuse db
      (statement-Outcome (λ _. Unit {0}) (InsertedIf sub db)
        (λ d. insert_if (is_accepted d sub) sub d) db (λ r d k. tt) tt
        (insert_if-InsertedIf (is_accepted (past_call db) sub) sub (past_call db)))
      given
  where
    given :
        (o : Option Subscription) (d : Db)
        → InsertedIf sub db o d
        → Outcome (λ _. Unit {0}) (Inserted sub db) (or_refuse o d)
    given none d k = tt
    given (some r) d k = k

abbrev pub Stored : List Subscription → Db → List Subscription → Db → Type 0
Stored subs db rows d =
    AsAsked db.next_id subs rows × (d.subscriptions ≡ pushed rows db.subscriptions)

one_more :
    (sub : Subscription) (subs rows : List Subscription) (r : Subscription) (db d e : Db)
    → Inserted sub db r d
    → Stored subs d rows e
    → Stored (sub ∷ subs) db (r ∷ rows) e
unfolding pushed
one_more sub subs rows r db d e (made, stored, next) (asked, kept) = (
  subst (λ q. AsAsked db.next_id (sub ∷ subs) (q ∷ rows)) (sym made)
      (AsAsked.row db.next_id sub subs rows (subst (λ n. AsAsked n subs rows) next asked)),
  kept ∙ ap (pushed rows) stored,
)

insert_all-Stored :
    (subs : List Subscription) (db : Db)
    → Outcome (λ _. Unit {0}) (Stored subs db) (insert_all subs db)
unfolding insert_all pushed
insert_all-Stored [] db = (AsAsked.no_rows db.next_id, refl)
insert_all-Stored (sub ∷ subs) db =
    bind-Outcome (λ _. Unit {0}) (Inserted sub db) (Stored (sub ∷ subs) db)
      (create_subscription sub) _ db (create-Inserted sub db)
      λ r d k.
        bind-Outcome (λ _. Unit {0}) (Stored subs d) (Stored (sub ∷ subs) db) (insert_all subs)
          (λ rows. pure (r ∷ rows)) d (insert_all-Stored subs d)
          (λ rows e q. one_more sub subs rows r db d e k q)

create-IsHonest : (sub : Subscription) → IsHonest (create_subscription sub)
unfolding create_subscription is_accepted
create-IsHonest sub =
    bind-IsHonest (statement (λ db. insert_if (is_accepted db sub) sub db)) or_refuse
      (statement-IsHonest (λ db. insert_if (is_accepted db sub) sub db)
        (λ db. calm_insert (is_accepted db sub) db))
      given
  where
    calm_insert :
        (b : Bool) (db : Db)
        → insert_if b sub (calm db) ≡ ((insert_if b sub db).0, calm (insert_if b sub db).1)
    calm_insert false db = refl
    calm_insert true db = refl

    given : (o : Option Subscription) → IsHonest (or_refuse o)
    given none db = tt
    given (some r) db = refl

insert_all-IsHonest : (subs : List Subscription) → IsHonest (insert_all subs)
unfolding insert_all
insert_all-IsHonest [] = pure-IsHonest []
insert_all-IsHonest (sub ∷ subs) =
    bind-IsHonest (create_subscription sub) _ (create-IsHonest sub) λ r.
      bind-IsHonest (insert_all subs) (λ rows. pure (r ∷ rows)) (insert_all-IsHonest subs)
        (λ rows. pure-IsHonest (r ∷ rows))

-- Whatever calls fail: a batch that returns has stored every subscription that was asked for, each
-- under an identifier of its own, in their order, and nothing else among the subscriptions; a batch
-- that returns an error leaves the database as before, or as after a run without faults (when only the
-- answer to COMMIT was lost).
pub create_subscription_batch-Stored :
    (subs : List Subscription) (db : Db)
    → Outcome (λ _. Unit {0}) (Stored subs db) (create_subscription_batch subs db)
      × IsAtomic (create_subscription_batch subs) db
unfolding create_subscription_batch
create_subscription_batch-Stored subs db = (
  transaction-Outcome (λ _. Unit {0}) (Stored subs db) (λ d fs k. tt) (λ rows d fs k. k)
      (λ rows d k. tt) (insert_all subs) db tt (insert_all-Stored subs (past_call db)),
  transaction-IsAtomic (insert_all subs) db (insert_all-IsHonest subs),
)
