-- ===== src/Samples/Notified.antt =====
-- A release of a source with two subscriptions, and todos for its releases.
use changelogue.Prelude.{ℕ, ◌≡◌, refl, same, true, false, none, some, [], ◌∷◌, bytes}
use changelogue.Exec.{ok, refused}
use changelogue.Models
use changelogue.Models.{absent, Source, Release, Todo, NotificationChannel, Subscription, Sent}
use changelogue.Db.{Db}
use changelogue.Gate.Store.{find_source, exists_gate}
use changelogue.Gate.Starts.{plain_gate}
use changelogue.Ingestion.Atomic.{calm}
use changelogue.Routing.Rules.{Matcher, version_passes_filter}
use changelogue.Routing.Store.{find_release_id, find_todo_of, find_channel, join, subscriptions_of}
use changelogue.Routing.Notify.{Setup, is_wanted, message, is_known, work}
use changelogue.Routing.Notify.Gated.{gated_starts_none}
use changelogue.Routing.Notify.Delivered.{deliveries, log_all, work-deliveries}
use changelogue.Routing.Notify.TodoFirst.{TodoFirst, work-TodoFirst}
use changelogue.Todos.{find_todo, acknowledge_todo, resolve_todo}
use changelogue.Todos.Resolved.{resolved_stays}

abbrev no_match : Matcher
no_match pattern text = some false

abbrev pub setup : Setup
setup = record { matcher = no_match; escape = λ s. s; public_url = [] }

abbrev pub watched : Source
watched = record {
  id = 2;
  project_id = 1;
  provider = bytes "npm";
  repository = bytes "r";
  poll_interval_seconds = 300;
  enabled = true;
  version_filter_include = none;
  version_filter_exclude = none;
  exclude_prereleases = false;
  releases_only = false;
  last_polled_at = none;
  last_error = false;
}

abbrev pub release : ℕ → ℕ → Release
release id date = record {
  id = id;
  source_id = 2;
  version = bytes "1.0";
  raw_data = [];
  released_at = some date;
  created_at = date;
}

abbrev resolved_todo : Todo
resolved_todo = record {
  id = 8;
  release_id = some 4;
  semantic_release_id = none;
  status = Models.TodoStatus.resolved;
  created_at = 300;
  acknowledged_at = none;
  resolved_at = some 500;
}

abbrev open_todo : Todo
open_todo = record {
  id = 9;
  release_id = some 5;
  semantic_release_id = none;
  status = Models.TodoStatus.pending;
  created_at = 300;
  acknowledged_at = none;
  resolved_at = none;
}

abbrev pub webhook : NotificationChannel
webhook = record { id = 6; name = bytes "ops"; kind = bytes "webhook" }

abbrev pigeon : NotificationChannel
pigeon = record { id = 7; name = bytes "roof"; kind = bytes "pigeon" }

abbrev pub stored : Db
stored = record {
  projects = record { id = 1; name = []; agent_rules = absent } ∷ [];
  sources = watched ∷ [];
  releases = release 4 100 ∷ release 5 200 ∷ [];
  gates = plain_gate 3 1 2 [] 24 [] ∷ [];
  readiness = [];
  events = [];
  runs = [];
  jobs = [];
  todos = resolved_todo ∷ open_todo ∷ [];
  channels = webhook ∷ pigeon ∷ [];
  subscriptions =
      record {
        id = 11;
        channel_id = 7;
        kind = Models.source_release;
        source_id = some 2;
        project_id = none;
        version_filter = [];
        config = none;
      }
      ∷ record {
        id = 12;
        channel_id = 6;
        kind = Models.source_release;
        source_id = some 2;
        project_id = none;
        version_filter = [];
        config = none;
      }
      ∷ [];
  semantic_releases = [];
  semantic_sources = [];
  users = [];
  sessions = [];
  scans = [];
  scan_jobs = [];
  sent = [];
  now = 1000;
  next_id = 20;
  faults = refused ∷ [];
}

found_watched : find_source 2 stored.sources ≡ some watched
unfolding find_source
found_watched = refl

gated_one : exists_gate 1 stored.gates ≡ true
unfolding exists_gate
gated_one = refl

gated_starts_none_example :
    ((work setup 5 2 false stored).1.runs ≡ []) × ((work setup 5 2 false stored).1.jobs ≡ [])
gated_starts_none_example = gated_starts_none setup 5 2 false watched stored found_watched gated_one

found_release : find_release_id 5 stored.releases ≡ some (release 5 200)
unfolding find_release_id
found_release = refl

wanted :
    is_wanted no_match watched (join (release 5 200) (find_source 2 stored.sources) stored.projects)
    ≡ true
unfolding is_wanted version_passes_filter
wanted = refl

work-deliveries_example :
    let info = join (release 5 200) (find_source 2 stored.sources) stored.projects in
    let x = work setup 5 2 false (calm stored) in
    (x.0 ≡ ok tt)
    × (x.1.sent ≡ (record { channel = webhook; message = message setup info false 9 } ∷ []))
    × (x.1.todos ≡ stored.todos)
unfolding find_todo_of deliveries log_all find_channel is_known subscriptions_of same
work-deliveries_example =
    work-deliveries setup 5 2 false (release 5 200) watched stored found_release found_watched
      wanted

found_resolved : find_todo 8 stored.todos ≡ some resolved_todo
unfolding find_todo
found_resolved = refl

resolved_stays_example :
    (find_todo 8 (acknowledge_todo 9 true stored).1.todos ≡ some resolved_todo)
    × (find_todo 8 (resolve_todo 9 true stored).1.todos ≡ some resolved_todo)
resolved_stays_example = resolved_stays 8 resolved_todo 9 true stored found_resolved refl refl

work-TodoFirst_example : TodoFirst 5 [] (work setup 5 2 false stored).1
work-TodoFirst_example = work-TodoFirst setup 5 2 false (release 5 200) stored found_release
