-- ===== src/Samples/Subscribed.antt =====
-- A batch of two subscriptions, one of them to a channel that is not there.
use changelogue.Prelude.{◌≡◌, refl, ◌-◌, bytes, none, some, List, [], ◌∷◌}
use changelogue.Exec.{Outcome, ok, served, unacked}
use changelogue.Models.{Subscription, source_release, semantic_release}
use changelogue.Db.{Db, statement}
use changelogue.Text.{trim_space}
use changelogue.Ingestion.Atomic.{calm, IsAtomic}
use changelogue.Subscriptions.{is_accepted, create_subscription, create_subscription_batch}
use changelogue.Subscriptions.Api.{
  SubscriptionInput, Uuids, internal_error, created, validated, subscription_of, create_one,
}
use changelogue.Subscriptions.Batches.{Stored, create_subscription_batch-Stored}
use changelogue.Samples.Notified.{stored}

abbrev wished : List Subscription
wished =
    record {
      id = 0;
      channel_id = 6;
      kind = source_release;
      source_id = some 2;
      project_id = none;
      version_filter = bytes "1";
      config = some (bytes "{}");
    }
    ∷ record {
      id = 0;
      channel_id = 60;
      kind = semantic_release;
      source_id = none;
      project_id = some 1;
      version_filter = [];
      config = none;
    }
    ∷ []

abbrev shaky : Db
shaky = record stored { faults = served ∷ served ∷ unacked ∷ [] }

create_subscription_batch-Stored_example :
    Outcome (λ _. Unit {0}) (Stored wished shaky) (create_subscription_batch wished shaky)
    × IsAtomic (create_subscription_batch wished) shaky
create_subscription_batch-Stored_example = create_subscription_batch-Stored wished shaky

-- The numeral as a UUID.
abbrev uuids : Uuids
uuids text = elim text [ [] ↦ none | c ∷ rest ↦ some (c - b'0') ]

abbrev asked_twice : SubscriptionInput
asked_twice = record {
  kind = bytes " source_release";
  channel_id = bytes "6 ";
  source_id = some (bytes "2");
  project_id = some (bytes "1");
  version_filter = bytes "^1";
  config = none;
}

-- A subscription with both identifiers passes the tests of Create, and the table refuses it.
create_one-both : (create_one uuids (some asked_twice) (calm stored)).0 ≡ ok internal_error
unfolding create_one validated subscription_of create_subscription is_accepted statement trim_space
create_one-both = refl

-- One with the identifier that its type asks for is created.
create_one-source :
    (create_one uuids (some (record asked_twice { project_id = none })) (calm stored)).0
    ≡ ok (
        created (record {
          id = stored.next_id;
          channel_id = 6;
          kind = source_release;
          source_id = some 2;
          project_id = none;
          version_filter = bytes "^1";
          config = none;
        }))
unfolding create_one validated subscription_of create_subscription is_accepted statement trim_space
create_one-source = refl
