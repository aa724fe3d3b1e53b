-- ===== src/Subscriptions.antt =====
-- The subscription operations of internal/api/pgstore.go.
pub mod Batches
pub mod Api
use changelogue.Prelude.{
  ℕ, ◌+◌, Bool, true, false, ◌&&◌, ◌||◌, not, Option, none, some, List, [], ◌∷◌, ◌==◌,
  if◌then◌else◌, keep, contains,
}
use changelogue.Exec.{Exec, not_found, pure, raise, ◌>>=◌}
use changelogue.Models.{Subscription, SubscriptionType, source_release, semantic_release}
use changelogue.Db.{Db, statement, query, transaction}
use changelogue.Db.Rows.{required, or_missing, or_refuse}
use changelogue.Gate.Store.{find_source}
use changelogue.Routing.Store.{find_project, find_channel}

abbrev is_there {ℓ} : {A : Type ℓ} → Option A → Bool
is_there none = false
is_there (some a) = true

-- The CHECK of the table, and the foreign keys of the two columns that it is about.
abbrev is_shaped : Db → SubscriptionType → Option ℕ → Option ℕ → Bool
is_shaped db source_release (some source) none = is_there (find_source source db.sources)
is_shaped db semantic_release none (some project) = is_there (find_project project db.projects)
is_shaped db source_release none project = false
is_shaped db source_release (some source) (some project) = false
is_shaped db semantic_release none none = false
is_shaped db semantic_release (some source) project = false

-- What the constraints of `subscriptions` let in.
unfoldable pub is_accepted : Db → Subscription → Bool
unfolding find_source find_project find_channel
is_accepted db sub =
    is_there (find_channel sub.channel_id db.channels)
    && is_shaped db sub.kind sub.source_id sub.project_id

abbrev pub insert_if : Bool → Subscription → Db → Option Subscription × Db
insert_if false sub db = (none, db)
insert_if true sub db = (
  some (record sub { id = db.next_id }),
  record db {
    subscriptions = record sub { id = db.next_id } ∷ db.subscriptions;
    next_id = db.next_id + 1;
  },
)

-- CreateSubscription; the caller's `sub` with its identifier is the result.
unfoldable pub create_subscription : Subscription → Exec Db Subscription
unfolding statement is_accepted
create_subscription sub = do
  row ← statement (λ db. insert_if (is_accepted db sub) sub db)
  or_refuse row

-- The loop of CreateSubscriptionBatch, whose statement is that of CreateSubscription.
unfoldable pub insert_all : List Subscription → Exec Db (List Subscription)
unfolding create_subscription
insert_all [] = pure []
insert_all (sub ∷ subs) = do
  row ← create_subscription sub
  rows ← insert_all subs
  pure (row ∷ rows)

unfoldable pub create_subscription_batch : List Subscription → Exec Db (List Subscription)
unfolding transaction insert_all
create_subscription_batch subs = transaction (insert_all subs)

unfoldable pub find_subscription : ℕ → List Subscription → Option Subscription
find_subscription id [] = none
find_subscription id (s ∷ ss) = if s.id == id then some s else find_subscription id ss

unfoldable pub get_subscription : ℕ → Exec Db Subscription
unfolding query find_subscription
get_subscription id = do row ← query (λ db. find_subscription id db.subscriptions); required row

unfoldable pub replace_id : ℕ → Subscription → List Subscription → List Subscription
replace_id id sub [] = []
replace_id id sub (s ∷ ss) =
    (if s.id == id then record sub { id = s.id } else s) ∷ replace_id id sub ss

-- No row is an error of its own, as is a row that the constraints refuse.
abbrev update_if :
    Option Subscription → Bool → ℕ → Subscription → Db → Option (Option Subscription) × Db
update_if none fits id sub db = (some none, db)
update_if (some old) false id sub db = (none, db)
update_if (some old) true id sub db =
    (some (some old), record db { subscriptions = replace_id id sub db.subscriptions })

unfoldable pub update_subscription : ℕ → Subscription → Exec Db (Unit {0})
unfolding statement is_accepted find_subscription replace_id
update_subscription id sub = do
  answer ←
      statement
        (λ db. update_if (find_subscription id db.subscriptions) (is_accepted db sub) id sub db)
  row ← or_refuse answer
  _ ← required row
  pure tt

unfoldable pub delete_subscription : ℕ → Exec Db (Unit {0})
unfolding statement find_subscription keep
delete_subscription id = do
  affected ← statement (λ db. (
    is_there (find_subscription id db.subscriptions),
    record db { subscriptions = keep (λ s. not (s.id == id)) db.subscriptions },
  ))
  or_missing affected

unfoldable pub any_of : List ℕ → List Subscription → Bool
unfolding contains
any_of ids [] = false
any_of ids (s ∷ ss) = contains ids s.id || any_of ids ss

-- `WHERE id = ANY($1)`
unfoldable pub delete_subscription_batch : List ℕ → Exec Db (Unit {0})
unfolding statement keep contains any_of
delete_subscription_batch ids = do
  affected ← statement (λ db. (
    any_of ids db.subscriptions,
    record db { subscriptions = keep (λ s. not (contains ids s.id)) db.subscriptions },
  ))
  or_missing affected
