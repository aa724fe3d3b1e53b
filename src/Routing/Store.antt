-- ===== src/Routing/Store.antt =====
-- The operations of internal/api/pgstore.go that the notification worker uses.
use changelogue.Prelude.{
  ℕ, ◌+◌, Bool, true, false, ◌&&◌, not, Option, none, some, List, [], ◌∷◌, Bytes, leb, ◌==◌,
  if◌then◌else◌, same, keep,
}
use changelogue.Exec.{Exec, ◌>>=◌}
use changelogue.Models
use changelogue.Models.{
  Project, Source, Release, Todo, NotificationChannel, Subscription, SubscriptionType,
  source_release, semantic_release, StringMap,
}
use changelogue.Db.Rows.{equals, required}
use changelogue.Db.{Db, statement, query}
use changelogue.Gate.Store.{find_source}

-- The release with the fields that the worker reads from the joined tables; COALESCE gives the empty
-- text where there is no row.
pub record ReleaseInfo : Type 0 where
  pub id : ℕ
  pub version : Bytes
  pub raw_data : StringMap
  pub project_name : Bytes
  pub provider : Bytes
  pub repository : Bytes

unfoldable pub find_release_id : ℕ → List Release → Option Release
find_release_id id [] = none
find_release_id id (r ∷ rs) = if r.id == id then some r else find_release_id id rs

unfoldable pub find_project : ℕ → List Project → Option Project
find_project id [] = none
find_project id (p ∷ ps) = if p.id == id then some p else find_project id ps

unfoldable pub find_channel : ℕ → List NotificationChannel → Option NotificationChannel
find_channel id [] = none
find_channel id (c ∷ cs) = if c.id == id then some c else find_channel id cs

abbrev name_of : Option Project → Bytes
name_of none = []
name_of (some p) = p.name

-- `LEFT JOIN sources … LEFT JOIN projects …`: its name, or the empty text.
abbrev project_of : Option Source → List Project → Bytes
project_of none projects = []
project_of (some s) projects = name_of (find_project s.project_id projects)

abbrev provider_of : Option Source → Bytes
provider_of none = []
provider_of (some s) = s.provider

abbrev repository_of : Option Source → Bytes
repository_of none = []
repository_of (some s) = s.repository

abbrev pub join : Release → Option Source → List Project → ReleaseInfo
join r source projects = record {
  id = r.id;
  version = r.version;
  raw_data = r.raw_data;
  project_name = project_of source projects;
  provider = provider_of source;
  repository = repository_of source;
}

abbrev pub joined : Db → Option Release → Option ReleaseInfo
joined db none = none
joined db (some r) = some (join r (find_source r.source_id db.sources) db.projects)

unfoldable pub get_release : ℕ → Exec Db ReleaseInfo
unfolding query find_release_id find_source find_project
get_release id = do row ← query (λ db. joined db (find_release_id id db.releases)); required row

unfoldable pub get_source : ℕ → Exec Db Source
unfolding query find_source
get_source id = do row ← query (λ db. find_source id db.sources); required row

unfoldable pub get_project : ℕ → Exec Db Project
unfolding query find_project
get_project id = do row ← query (λ db. find_project id db.projects); required row

unfoldable pub get_channel : ℕ → Exec Db NotificationChannel
unfolding query find_channel
get_channel id = do row ← query (λ db. find_channel id db.channels); required row

abbrev is_of_source : SubscriptionType → Bool
is_of_source source_release = true
is_of_source semantic_release = false

-- `type = 'source_release' AND source_id = $1`
unfoldable pub subscriptions_of : ℕ → List Subscription → List Subscription
unfolding keep
subscriptions_of source subs = keep (λ s. is_of_source s.kind && equals s.source_id source) subs

unfoldable pub list_source_subscriptions : ℕ → Exec Db (List Subscription)
unfolding query subscriptions_of
list_source_subscriptions source = query (λ db. subscriptions_of source db.subscriptions)

-- `COALESCE(released_at, created_at)`
abbrev pub date_of : Release → ℕ
date_of r = elim r.released_at [ none ↦ r.created_at | some t ↦ t ]

abbrev pub later_of : Release → Option Release → Option Release
later_of r none = some r
later_of r (some q) = if leb (date_of q) (date_of r) then some r else some q

-- `ORDER BY … DESC LIMIT 1`
unfoldable pub latest : List Release → Option Release
latest [] = none
latest (r ∷ rs) = later_of r (latest rs)

abbrev is_other_release : ℕ → Bytes → Release → Bool
is_other_release source version r = r.source_id == source && not (same r.version version)

-- `none`: there is no other release.
unfoldable pub get_previous_release : ℕ → Bytes → Exec Db (Option Release)
unfolding query latest keep
get_previous_release source version =
    query (λ db. latest (keep (is_other_release source version) db.releases))

abbrev pub is_todo_of : ℕ → Todo → Bool
is_todo_of release t = equals t.release_id release

unfoldable pub find_todo_of : ℕ → List Todo → Option Todo
find_todo_of release [] = none
find_todo_of release (t ∷ ts) = if is_todo_of release t then some t else find_todo_of release ts

abbrev pub new_todo : ℕ → ℕ → ℕ → Todo
new_todo id release now = record {
  id = id;
  release_id = some release;
  semantic_release_id = none;
  status = Models.TodoStatus.pending;
  created_at = now;
  acknowledged_at = none;
  resolved_at = none;
}

-- `INSERT … ON CONFLICT … RETURNING id`
abbrev pub todo_at : Option Todo → ℕ → Db → ℕ × Db
todo_at (some t) release db = (t.id, db)
todo_at none release db = (
  db.next_id,
  record db { todos = new_todo db.next_id release db.now ∷ db.todos; next_id = db.next_id + 1 },
)

unfoldable pub create_release_todo : ℕ → Exec Db ℕ
unfolding statement find_todo_of
create_release_todo release = statement (λ db. todo_at (find_todo_of release db.todos) release db)
