-- ===== src/Agent/Orchestrator.antt =====
-- Orchestrator of internal/agent/orchestrator.go: one run of the agent, from its start to its report.
use changelogue.Prelude.{
  ℕ, Bool, true, false, Option, none, some, List, [], ◌∷◌, ◌++◌, Bytes, bytes, if◌then◌else◌, same,
  contains, is_empty, drop, length,
}
use changelogue.Exec.{Exec, Result, ok, err, external, pure, raise, attempt, ◌>>=◌, ◌>>◌}
use changelogue.Text.{has_prefix}
use changelogue.Models.{
  Project, Source, AgentRun, running, completed, failed, Trigger, gate, gate_timeout, auto_version,
  requested, VersionReadiness, Subscription, Notification, plain_text, semantic_link,
}
use changelogue.Db.{Db}
use changelogue.Gate.Version.{default_version}
use changelogue.Gate.Store.{list_sources_by_project}
use changelogue.Pages.{Pagination}
use changelogue.Releases.{Catalog, Row, list_releases, list_releases_by_project, no_filter}
use changelogue.Routing.Store.{get_project}
use changelogue.Routing.Notify.{notify_all, provider_url}
use changelogue.Agent.Store.{
  update_agent_run_status, create_semantic_release, update_agent_run_result,
  list_project_subscriptions, has_release_for_version, get_version_readiness_by_version,
  create_semantic_release_todo,
}
use changelogue.Agent.Report.{SemanticReport, ReadReport, parse_report}

-- What the orchestrator is made with. `analyse` is the conversation with the model, for a project, its
-- sources, the version and the database that the tools read: the final text, or an error.
-- `write_summary` is the JSON text of a report that has a summary only.
pub record Setup : Type 0 where
  pub analyse : Project → List Source → Bytes → Db → Result Bytes
  pub read_report : ReadReport
  pub write_summary : Bytes → Bytes
  pub catalog : Catalog
  pub escape : Bytes → Bytes
  pub public_url : Bytes

-- agentResult
pub record AgentResult : Type 0 where
  pub semantic_release_id : ℕ
  pub version : Bytes
  pub report_text : Bytes
  pub project_name : Bytes

abbrev pub auto_prefix : Bytes
auto_prefix = bytes "auto:version:"

-- The version that a trigger text names.
abbrev pub trigger_version : Trigger → Bytes
trigger_version (auto_version version) = version
trigger_version (requested text) =
    if has_prefix auto_prefix text then drop (length auto_prefix) text else []
trigger_version (gate id) = []
trigger_version (gate_timeout version) = []

abbrev pub target_version : AgentRun → Bytes
target_version run = if is_empty run.version then trigger_version run.trigger else run.version

abbrev pub non_empty : Bytes → Exec Db Bytes
non_empty [] = raise external
non_empty (c ∷ text) = pure (c ∷ text)

-- The report's JSON text; a text that is no report is kept as a summary.
abbrev pub report_json : Setup → Bytes → Option SemanticReport → Bytes
report_json setup text none = setup.write_summary text
report_json setup text (some report) = report.text

-- The releases whose version is the target, as the default spelling of both has it.
unfoldable pub matching_releases : Bytes → List Row → List ℕ
unfolding default_version
matching_releases version [] = []
matching_releases version (row ∷ rows) =
    let rest = matching_releases version rows in
    if same (default_version row.release.version) (default_version version)
    then row.release.id ∷ rest
    else rest

abbrev first_version : List Row → Bytes
first_version [] = bytes "unknown"
first_version (row ∷ rows) = row.release.version

abbrev pub semantic_version : Bytes → List Row → Bytes
semantic_version [] rows = first_version rows
semantic_version (c ∷ version) rows = c ∷ version

-- The semantic release and what is told of it.
abbrev pub store_report : Setup → AgentRun → Project → Bytes → List Row → Exec Db AgentResult
store_report setup run project text rows = do
  semantic ←
      create_semantic_release run.project_id (semantic_version (target_version run) rows)
        (report_json setup text (parse_report setup.read_report text))
        (matching_releases (target_version run) rows)
  pure (record {
    semantic_release_id = semantic;
    version = semantic_version (target_version run) rows;
    report_text = text;
    project_name = project.name;
  })

abbrev pub first_releases : Pagination
first_releases = record { page = 1; per_page = 200 }

unfoldable pub execute_agent : Setup → AgentRun → Exec Db AgentResult
unfolding get_project list_sources_by_project parse_report list_releases matching_releases
    create_semantic_release
execute_agent setup run = do
  project ← get_project run.project_id
  sources ← list_sources_by_project project.id 100
  answer ← (λ db. (setup.analyse project sources (target_version run) db, db))
  text ← non_empty answer
  page ← list_releases_by_project setup.catalog run.project_id first_releases false no_filter
  store_report setup run project text page.0

-- defaultSenders
abbrev pub report_senders : List Bytes
report_senders = bytes "webhook" ∷ bytes "slack" ∷ bytes "discord" ∷ []

-- " ✓" or " ✗ (not yet available)", in UTF-8
abbrev mark_of : Bool → Bytes
mark_of true = 32 ∷ 226 ∷ 156 ∷ 147 ∷ []
mark_of false = 32 ∷ 226 ∷ 156 ∷ 151 ∷ bytes " (not yet available)"

abbrev status_part : List ℕ → Source → Bytes
status_part met s = s.provider ++ b'/' ∷ s.repository ++ mark_of (contains met s.id)

unfoldable pub status_parts : List ℕ → List Source → Bytes
unfolding contains
status_parts met [] = []
status_parts met (s ∷ []) = status_part met s
status_parts met (s ∷ t ∷ ss) = status_part met s ++ bytes ", " ++ status_parts met (t ∷ ss)

abbrev pub status_line : List ℕ → Result (List Source) → Bytes
status_line met (err e) = []
status_line met (ok []) = []
status_line met (ok (s ∷ ss)) = bytes "Sources: " ++ status_parts met (s ∷ ss)

abbrev pub lines_for : ℕ → Result (Option VersionReadiness) → Exec Db Bytes
lines_for project (err e) = pure []
lines_for project (ok none) = pure []
lines_for project (ok (some vr)) = do
  sources ← attempt (list_sources_by_project project 1000)
  pure (status_line vr.sources_met sources)

-- buildSourceStatusLines: the empty text where there is no gate.
unfoldable pub build_source_status_lines : ℕ → Bytes → Exec Db Bytes
unfolding get_version_readiness_by_version list_sources_by_project status_parts
build_source_status_lines project version = do
  readiness ← attempt (get_version_readiness_by_version project version)
  lines_for project readiness

abbrev pub todo_of : Result ℕ → Option ℕ
todo_of (err e) = none
todo_of (ok id) = some id

abbrev with_lines : Bytes → Bytes → Bytes
with_lines text [] = text
with_lines text (c ∷ line) = text ++ bytes "\n\n" ++ c ∷ line

-- The first source, for the upstream link.
abbrev provider_of : Result (List Source) → Bytes
provider_of (err e) = []
provider_of (ok []) = []
provider_of (ok (s ∷ ss)) = s.provider

abbrev repository_of : Result (List Source) → Bytes
repository_of (err e) = []
repository_of (ok []) = []
repository_of (ok (s ∷ ss)) = s.repository

abbrev link_of : (Bytes → Bytes) → Bytes → Result (List Source) → Bytes
link_of escape version (err e) = []
link_of escape version (ok []) = []
link_of escape version (ok (s ∷ ss)) = provider_url escape s.provider s.repository version

abbrev url_if : Option ℕ → Bytes → Bytes
url_if none url = []
url_if (some todo) url = url

unfoldable pub report_message :
    Setup → AgentRun → AgentResult → Option ℕ → Bytes → Result (List Source) → Notification
unfolding provider_url
report_message setup run result todo line sources = record {
  title = bytes "AI Report: " ++ result.project_name ++ b' ' ∷ result.version;
  body = plain_text (with_lines result.report_text line);
  version = result.version;
  project_name = result.project_name;
  provider = provider_of sources;
  repository = repository_of sources;
  release_url =
      if is_empty setup.public_url
      then none
      else some (semantic_link setup.public_url run.project_id result.semantic_release_id);
  source_url = link_of setup.escape result.version sources;
  todo_id = todo;
  public_url = url_if todo setup.public_url;
}

abbrev pub announce :
    Setup → AgentRun → AgentResult → Result (List Subscription) → Exec Db (Unit {0})
announce setup run result (err e) = pure tt
announce setup run result (ok []) = pure tt
announce setup run result (ok (sub ∷ subs)) = do
  todo ← attempt (create_semantic_release_todo result.semantic_release_id)
  line ← build_source_status_lines run.project_id result.version
  sources ← attempt (list_sources_by_project run.project_id 1)
  notify_all report_senders (report_message setup run result (todo_of todo) line sources)
      (sub ∷ subs)

unfoldable pub send_project_notifications : Setup → AgentRun → AgentResult → Exec Db (Unit {0})
unfolding list_project_subscriptions create_semantic_release_todo build_source_status_lines
    list_sources_by_project notify_all report_message
send_project_notifications setup run result = do
  subs ← attempt (list_project_subscriptions run.project_id)
  announce setup run result subs

abbrev pub after_execute : Setup → AgentRun → Result AgentResult → Exec Db (Unit {0})
after_execute setup run (err e) = do _ ← attempt (update_agent_run_status run.id failed); raise e
after_execute setup run (ok result) = do
  update_agent_run_result run.id result.semantic_release_id
  update_agent_run_status run.id completed
  send_project_notifications setup run result

unfoldable pub run_agent : Setup → AgentRun → Exec Db (Unit {0})
unfolding update_agent_run_status execute_agent update_agent_run_result send_project_notifications
run_agent setup run = do
  update_agent_run_status run.id running
  result ← attempt (execute_agent setup run)
  after_execute setup run result

-- The loop of checkAllSourcesReady.
unfoldable pub all_have : Bytes → List Source → Exec Db Bool
unfolding has_release_for_version
all_have version [] = pure true
all_have version (s ∷ ss) = do
  has ← has_release_for_version s.id version
  (if has then all_have version ss else pure false)

unfoldable pub check_all_sources_ready : ℕ → Bytes → Exec Db Bool
unfolding list_sources_by_project all_have
check_all_sources_ready project version = do
  sources ← list_sources_by_project project 1000
  all_have version sources
