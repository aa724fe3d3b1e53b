-- ===== src/Subscriptions/Api.antt =====
-- The handlers of internal/api/subscriptions.go, but for the list by pages.
use changelogue.Prelude.{
  ℕ, Bool, true, ◌||◌, Option, none, some, List, [], ◌∷◌, Bytes, bytes, is_empty, same,
  if◌then◌else◌,
}
use changelogue.Exec.{Exec, Result, ok, err, external, pure, raise, attempt, ◌>>=◌}
use changelogue.Text.{trim_space}
use changelogue.Models.{Subscription, SubscriptionType, source_release, semantic_release}
use changelogue.Db.{Db, statement}
use changelogue.Subscriptions.{
  create_subscription, create_subscription_batch, get_subscription, update_subscription,
  delete_subscription, delete_subscription_batch,
}

-- The body of a request, as encoding/json reads it.
pub record SubscriptionInput : Type 0 where
  pub kind : Bytes
  pub channel_id : Bytes
  pub source_id : Option Bytes
  pub project_id : Option Bytes
  pub version_filter : Bytes
  pub config : Option Bytes

pub record BatchInput : Type 0 where
  pub kind : Bytes
  pub channel_id : Bytes
  pub project_ids : List Bytes
  pub source_ids : List Bytes
  pub version_filter : Bytes

pub data SubscriptionReply : Type 0 where
  bad_request validation_error not_found internal_error no_content : SubscriptionReply
  created found updated : Subscription → SubscriptionReply
  all_created : List Subscription → SubscriptionReply

-- PostgreSQL reads a text as a UUID: a parameter; `none` is a text that it refuses.
abbrev pub Uuids : Type 0
Uuids = Bytes → Option ℕ

abbrev pub kind_of : Bytes → Option SubscriptionType
kind_of text =
    if same text (bytes "source_release")
    then some source_release
    else if same text (bytes "semantic_release")
    then some semantic_release
    else none

abbrev is_missing : Option Bytes → Bool
is_missing none = true
is_missing (some text) = is_empty text

-- The type that is asked for, where its tests pass.
abbrev lacks_id : SubscriptionInput → SubscriptionType → Bool
lacks_id input source_release = is_missing input.source_id
lacks_id input semantic_release = is_missing input.project_id

abbrev checked_ids : SubscriptionInput → Option SubscriptionType → Option SubscriptionType
checked_ids input none = none
checked_ids input (some kind) =
    if is_empty (trim_space input.channel_id) || lacks_id input kind then none else some kind

unfoldable pub validated : SubscriptionInput → Option SubscriptionType
unfolding trim_space same
validated input = checked_ids input (kind_of (trim_space input.kind))

-- A column that may be NULL: the outer `none` is a text that is refused.
abbrev column : Uuids → Option Bytes → Option (Option ℕ)
column uuids none = some none
column uuids (some text) = elim (uuids text) [ none ↦ none | some id ↦ some (some id) ]

abbrev row_of_ids :
    SubscriptionType
    → SubscriptionInput
    → Option ℕ
    → Option (Option ℕ)
    → Option (Option ℕ)
    → Option Subscription
row_of_ids kind input (some channel) (some source) (some project) = some (record {
  id = 0;
  channel_id = channel;
  kind = kind;
  source_id = source;
  project_id = project;
  version_filter = input.version_filter;
  config = input.config;
})
row_of_ids kind input none source project = none
row_of_ids kind input (some channel) none project = none
row_of_ids kind input (some channel) (some source) none = none

unfoldable pub subscription_of : Uuids → SubscriptionType → SubscriptionInput → Option Subscription
unfolding trim_space
subscription_of uuids kind input =
    row_of_ids kind input (uuids (trim_space input.channel_id)) (column uuids input.source_id)
      (column uuids input.project_id)

-- A statement with a text that is no UUID is refused.
unfoldable pub refused_statement : {A : Type 0} → Exec Db A
unfolding statement
refused_statement = do _ ← statement (λ db. (tt, db)); raise external

abbrev pub with_row : {A B : Type 0} → (A → Exec Db B) → Option A → Exec Db B
with_row action none = refused_statement
with_row action (some a) = action a

abbrev after_creation : Result Subscription → SubscriptionReply
after_creation (err e) = internal_error
after_creation (ok sub) = created sub

abbrev create_checked :
    Uuids → SubscriptionInput → Option SubscriptionType → Exec Db SubscriptionReply
create_checked uuids input none = pure validation_error
create_checked uuids input (some kind) = do
  answer ← attempt (with_row create_subscription (subscription_of uuids kind input))
  pure (after_creation answer)

-- Create; no input is a body that does not decode.
unfoldable pub create_one : Uuids → Option SubscriptionInput → Exec Db SubscriptionReply
unfolding validated subscription_of create_subscription refused_statement
create_one uuids none = pure bad_request
create_one uuids (some input) = create_checked uuids input (validated input)

abbrev found_or_missing : Result Subscription → SubscriptionReply
found_or_missing (err e) = not_found
found_or_missing (ok sub) = found sub

-- Get
unfoldable pub get_one : Uuids → Bytes → Exec Db SubscriptionReply
unfolding get_subscription refused_statement
get_one uuids [] = pure bad_request
get_one uuids (c ∷ id) = do
  answer ← attempt (with_row get_subscription (uuids (c ∷ id)))
  pure (found_or_missing answer)

abbrev after_update : ℕ → Subscription → Result (Unit {0}) → SubscriptionReply
after_update id sub (err e) = not_found
after_update id sub (ok u) = updated (record sub { id = id })

abbrev update_row : Option ℕ → Option Subscription → Exec Db SubscriptionReply
update_row (some id) (some sub) = do
  answer ← attempt (update_subscription id sub)
  pure (after_update id sub answer)
update_row none sub = do _ ← attempt (refused_statement {A = Unit {0}}); pure not_found
update_row (some id) none = do _ ← attempt (refused_statement {A = Unit {0}}); pure not_found

abbrev update_checked :
    Uuids → Bytes → SubscriptionInput → Option SubscriptionType → Exec Db SubscriptionReply
update_checked uuids id input none = pure validation_error
update_checked uuids id input (some kind) = update_row (uuids id) (subscription_of uuids kind input)

-- Update: every error of the store is answered as a row that is not there.
unfoldable pub update_one : Uuids → Bytes → Option SubscriptionInput → Exec Db SubscriptionReply
unfolding validated subscription_of update_subscription refused_statement
update_one uuids [] input = pure bad_request
update_one uuids (c ∷ id) none = pure bad_request
update_one uuids (c ∷ id) (some input) = update_checked uuids (c ∷ id) input (validated input)

abbrev gone_or : SubscriptionReply → Result (Unit {0}) → SubscriptionReply
gone_or reply (err e) = reply
gone_or reply (ok u) = no_content

-- Delete
unfoldable pub delete_one : Uuids → Bytes → Exec Db SubscriptionReply
unfolding delete_subscription refused_statement
delete_one uuids [] = pure bad_request
delete_one uuids (c ∷ id) = do
  answer ← attempt (with_row delete_subscription (uuids (c ∷ id)))
  pure (gone_or not_found answer)

-- The subscriptions of a batch, one for each of the identifiers that its type asks for.
abbrev one_of_batch : BatchInput → SubscriptionType → Bytes → SubscriptionInput
one_of_batch input source_release id = record {
  kind = input.kind;
  channel_id = input.channel_id;
  source_id = some id;
  project_id = none;
  version_filter = input.version_filter;
  config = none;
}
one_of_batch input semantic_release id = record {
  kind = input.kind;
  channel_id = input.channel_id;
  source_id = none;
  project_id = some id;
  version_filter = input.version_filter;
  config = none;
}

abbrev ids_of_batch : BatchInput → SubscriptionType → List Bytes
ids_of_batch input source_release = input.source_ids
ids_of_batch input semantic_release = input.project_ids

abbrev add_row : Option Subscription → Option (List Subscription) → Option (List Subscription)
add_row none rows = none
add_row (some row) none = none
add_row (some row) (some rows) = some (row ∷ rows)

unfoldable pub rows_of_batch :
    Uuids → BatchInput → SubscriptionType → List Bytes → Option (List Subscription)
unfolding subscription_of
rows_of_batch uuids input kind [] = some []
rows_of_batch uuids input kind (id ∷ ids) =
    add_row (subscription_of uuids kind (one_of_batch input kind id))
      (rows_of_batch uuids input kind ids)

abbrev after_batch : Result (List Subscription) → SubscriptionReply
after_batch (err e) = internal_error
after_batch (ok subs) = all_created subs

-- A text that is no UUID makes its statement fail, and with it the transaction: nothing is stored.
abbrev create_rows : Uuids → BatchInput → SubscriptionType → List Bytes → Exec Db SubscriptionReply
create_rows uuids input kind [] = pure validation_error
create_rows uuids input kind (id ∷ ids) = do
  answer ← attempt (with_row create_subscription_batch (rows_of_batch uuids input kind (id ∷ ids)))
  pure (after_batch answer)

abbrev batch_checked : Uuids → BatchInput → Option SubscriptionType → Exec Db SubscriptionReply
batch_checked uuids input none = pure validation_error
batch_checked uuids input (some kind) =
    if is_empty (trim_space input.channel_id)
    then pure validation_error
    else create_rows uuids input kind (ids_of_batch input kind)

-- BatchCreate
unfoldable pub batch_create : Uuids → Option BatchInput → Exec Db SubscriptionReply
unfolding trim_space same rows_of_batch create_subscription_batch refused_statement
batch_create uuids none = pure bad_request
batch_create uuids (some input) = batch_checked uuids input (kind_of (trim_space input.kind))

abbrev add_id : Option ℕ → Option (List ℕ) → Option (List ℕ)
add_id none ids = none
add_id (some id) none = none
add_id (some id) (some ids) = some (id ∷ ids)

unfoldable pub read_ids : Uuids → List Bytes → Option (List ℕ)
read_ids uuids [] = some []
read_ids uuids (text ∷ texts) = add_id (uuids text) (read_ids uuids texts)

-- BatchDelete
unfoldable pub batch_delete : Uuids → Option (List Bytes) → Exec Db SubscriptionReply
unfolding read_ids delete_subscription_batch refused_statement
batch_delete uuids none = pure bad_request
batch_delete uuids (some []) = pure validation_error
batch_delete uuids (some (text ∷ texts)) = do
  answer ← attempt (with_row delete_subscription_batch (read_ids uuids (text ∷ texts)))
  pure (gone_or internal_error answer)
