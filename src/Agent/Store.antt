-- ===== src/Agent/Store.antt =====
-- The OrchestratorStore operations of internal/api/pgstore.go.
use changelogue.Prelude.{
  ℕ, ◌+◌, Bool, true, false, ◌&&◌, ◌||◌, Option, none, some, List, [], ◌∷◌, Bytes, ◌==◌, same,
  if◌then◌else◌, keep,
}
use changelogue.Exec.{Exec, pure, ◌>>=◌, ◌>>◌}
use changelogue.Models
use changelogue.Models.{
  AgentRun, RunStatus, waiting, running, completed, failed, SemanticRelease, Subscription,
  SubscriptionType, source_release, semantic_release, Todo, VersionReadiness, Release,
}
use changelogue.Db.{Db, statement, query, transaction}
use changelogue.Db.Rows.{equals, required, or_missing, or_refuse}
use changelogue.Gate.Store.{update_run, find_key}
use changelogue.Ingestion.Store.{find_release}

unfoldable pub find_run : ℕ → List AgentRun → Option AgentRun
find_run id [] = none
find_run id (r ∷ rs) = if r.id == id then some r else find_run id rs

unfoldable pub get_agent_run : ℕ → Exec Db AgentRun
unfolding query find_run
get_agent_run id = do row ← query (λ db. find_run id db.runs); required row

-- The columns that each of the three statements sets.
abbrev pub set_status : RunStatus → ℕ → AgentRun → AgentRun
set_status running now r = record r { status = running; started_at = some now }
set_status completed now r = record r { status = completed; completed_at = some now }
set_status RunStatus.pending now r = record r { status = RunStatus.pending }
set_status waiting now r = record r { status = waiting }
set_status failed now r = record r { status = failed }

unfoldable pub has_run : ℕ → List AgentRun → Bool
has_run id [] = false
has_run id (r ∷ rs) = r.id == id || has_run id rs

unfoldable pub update_agent_run_status : ℕ → RunStatus → Exec Db (Unit {0})
unfolding statement has_run update_run
update_agent_run_status id status = do
  affected ← statement (λ db.
      (has_run id db.runs, record db { runs = update_run id (set_status status db.now) db.runs }))
  or_missing affected

-- The project has a semantic release of the version: UNIQUE (project_id, version).
unfoldable pub has_semantic : ℕ → Bytes → List SemanticRelease → Bool
unfolding same
has_semantic project version [] = false
has_semantic project version (s ∷ ss) =
    (s.project_id == project && same s.version version) || has_semantic project version ss

-- What the INSERT does, by whether the key is taken.
abbrev pub insert_semantic : Bool → ℕ → Bytes → Bytes → Db → Option ℕ × Db
insert_semantic true project version report db = (none, db)
insert_semantic false project version report db = (
  some db.next_id,
  record db {
    semantic_releases =
        record {
          id = db.next_id;
          project_id = project;
          version = version;
          report = report;
          completed_at = some db.now;
          created_at = db.now;
        }
        ∷ db.semantic_releases;
    next_id = db.next_id + 1;
  },
)

-- `INSERT INTO semantic_releases … RETURNING id, created_at`: it is refused where the key is taken. The
-- width of the version column is left to the calls that are refused.
unfoldable pub insert_semantic_release : ℕ → Bytes → Bytes → Exec Db ℕ
unfolding statement has_semantic
insert_semantic_release project version report =
    statement (λ db.
      insert_semantic (has_semantic project version db.semantic_releases) project version report db)
    >>= or_refuse

unfoldable pub has_link : ℕ → ℕ → List (ℕ × ℕ) → Bool
has_link semantic release [] = false
has_link semantic release ((s, r) ∷ rest) =
    (s == semantic && r == release) || has_link semantic release rest

-- `INSERT INTO semantic_release_sources … ON CONFLICT DO NOTHING`
unfoldable pub link_release : ℕ → ℕ → Exec Db (Unit {0})
unfolding statement has_link
link_release semantic release = statement (λ db. (
  tt,
  record db {
    semantic_sources =
        if has_link semantic release db.semantic_sources
        then db.semantic_sources
        else (semantic, release) ∷ db.semantic_sources;
  },
))

unfoldable pub link_releases : ℕ → List ℕ → Exec Db (Unit {0})
unfolding link_release
link_releases semantic [] = pure tt
link_releases semantic (release ∷ releases) = do
  link_release semantic release
  link_releases semantic releases

-- CreateSemanticRelease; the caller's `sr.ID` is the result.
unfoldable pub create_semantic_release : ℕ → Bytes → Bytes → List ℕ → Exec Db ℕ
unfolding transaction insert_semantic_release link_releases
create_semantic_release project version report releases = transaction (do
  semantic ← insert_semantic_release project version report
  link_releases semantic releases
  pure semantic)

abbrev pub set_result : ℕ → AgentRun → AgentRun
set_result semantic r = record r { semantic_release_id = some semantic }

unfoldable pub update_agent_run_result : ℕ → ℕ → Exec Db (Unit {0})
unfolding statement has_run update_run
update_agent_run_result id semantic = do
  affected ←
      statement (λ db.
        (has_run id db.runs, record db { runs = update_run id (set_result semantic) db.runs }))
  or_missing affected

abbrev is_of_project : SubscriptionType → Bool
is_of_project source_release = false
is_of_project semantic_release = true

-- `type = 'semantic_release' AND project_id = $1`
unfoldable pub project_subscriptions_of : ℕ → List Subscription → List Subscription
unfolding keep
project_subscriptions_of project subs =
    keep (λ s. is_of_project s.kind && equals s.project_id project) subs

unfoldable pub list_project_subscriptions : ℕ → Exec Db (List Subscription)
unfolding query project_subscriptions_of
list_project_subscriptions project = query (λ db. project_subscriptions_of project db.subscriptions)

abbrev pub is_found {ℓ} : {A : Type ℓ} → Option A → Bool
is_found none = false
is_found (some a) = true

unfoldable pub has_release_for_version : ℕ → Bytes → Exec Db Bool
unfolding query find_release
has_release_for_version source version =
    query (λ db. is_found (find_release source version db.releases))

unfoldable pub get_version_readiness_by_version : ℕ → Bytes → Exec Db (Option VersionReadiness)
unfolding query find_key
get_version_readiness_by_version project version =
    query (λ db. find_key project version db.readiness)

unfoldable pub find_semantic_todo : ℕ → List Todo → Option Todo
find_semantic_todo semantic [] = none
find_semantic_todo semantic (t ∷ ts) =
    if equals t.semantic_release_id semantic then some t else find_semantic_todo semantic ts

abbrev pub semantic_todo_at : Option Todo → ℕ → Db → ℕ × Db
semantic_todo_at (some t) semantic db = (t.id, db)
semantic_todo_at none semantic db = (
  db.next_id,
  record db {
    todos =
        record {
          id = db.next_id;
          release_id = none;
          semantic_release_id = some semantic;
          status = Models.TodoStatus.pending;
          created_at = db.now;
          acknowledged_at = none;
          resolved_at = none;
        }
        ∷ db.todos;
    next_id = db.next_id + 1;
  },
)

unfoldable pub create_semantic_release_todo : ℕ → Exec Db ℕ
unfolding statement find_semantic_todo
create_semantic_release_todo semantic =
    statement (λ db. semantic_todo_at (find_semantic_todo semantic db.todos) semantic db)
