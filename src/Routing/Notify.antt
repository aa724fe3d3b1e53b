-- ===== src/Routing/Notify.antt =====
-- NotifyWorker of internal/routing/worker.go: one release goes out to the channels of its source, and
-- may start an agent run.
pub mod Gated
pub mod Delivered
pub mod TodoFirst
use changelogue.Prelude.{
  ℕ, Bool, true, false, ◌&&◌, ◌||◌, not, Option, none, some, List, [], ◌∷◌, ◌++◌, Bytes, bytes,
  if◌then◌else◌, same, is_empty,
}
use changelogue.Exec.{Exec, Result, ok, err, external, pure, raise, attempt, ◌>>=◌, ◌>>◌}
use changelogue.Text.{to_lower}
use changelogue.Models.{
  RulesColumn, absent, malformed, parsed, Source, Release, StringMap, auto_version, Subscription,
  NotificationChannel, raw_json, release_link, Notification,
}
use changelogue.Db.{Db, statement}
use changelogue.Gate.Store.{has_release_gate, enqueue_agent_run}
use changelogue.Ingestion.Store.{lookup}
use changelogue.Routing.Rules.{
  AgentRules, Matcher, no_rules, check_agent_rules, version_passes_filter,
}
use changelogue.Routing.Store.{
  ReleaseInfo, get_release, get_source, get_project, get_channel, list_source_subscriptions,
  get_previous_release, create_release_todo,
}

-- What the worker is made with: regexp, url.QueryEscape, and the public URL.
pub record Setup : Type 0 where
  pub matcher : Matcher
  pub escape : Bytes → Bytes
  pub public_url : Bytes

-- The keys of NewSenders.
abbrev pub senders : List Bytes
senders = bytes "webhook" ∷ bytes "slack" ∷ bytes "discord" ∷ bytes "email" ∷ bytes "shell" ∷ []

unfoldable pub is_known : Bytes → List Bytes → Bool
is_known kind [] = false
is_known kind (k ∷ ks) = same k kind || is_known kind ks

-- ProviderURL
unfoldable pub provider_url : (Bytes → Bytes) → Bytes → Bytes → Bytes → Bytes
provider_url escape provider repository version =
    let p = to_lower provider in
    if same p (bytes "github")
    then bytes "https://github.com/" ++ repository ++ bytes "/releases/tag/" ++ version
    else if same p (bytes "dockerhub")
    then bytes "https://hub.docker.com/r/" ++ repository ++ bytes "/tags?name=" ++ escape version
    else if same p (bytes "ecr-public")
    then bytes "https://gallery.ecr.aws/" ++ repository
    else if same p (bytes "ghcr")
    then if is_empty version
      then bytes "https://ghcr.io/" ++ repository
      else bytes "https://ghcr.io/" ++ repository ++ bytes ":" ++ escape version
    else if same p (bytes "gitlab")
    then bytes "https://gitlab.com/" ++ repository ++ bytes "/-/releases/" ++ version
    else []

abbrev pub title_of : ReleaseInfo → Bool → Bytes
title_of release is_update =
    (if is_empty release.project_name then release.version else release.project_name)
    ++ (if is_update then bytes " [Updated]" else [])

unfoldable pub message : Setup → ReleaseInfo → Bool → ℕ → Notification
unfolding provider_url
message setup release is_update todo = record {
  title = title_of release is_update;
  body = raw_json release.raw_data;
  version = release.version;
  project_name = release.project_name;
  provider = release.provider;
  repository = release.repository;
  release_url =
      if is_empty setup.public_url then none else some (release_link setup.public_url release.id);
  source_url = provider_url setup.escape release.provider release.repository release.version;
  todo_id = some todo;
  public_url = setup.public_url;
}

-- `sender.Send`: a call that may fail, before or after the message went out.
unfoldable pub send : NotificationChannel → Notification → Exec Db (Unit {0})
unfolding statement
send channel msg =
    statement
      (λ db. (tt, record db { sent = record { channel = channel; message = msg } ∷ db.sent }))

-- An error, or a channel type without a sender, is logged, and the loop goes on.
abbrev pub send_to : List Bytes → Notification → Result NotificationChannel → Exec Db (Unit {0})
send_to kinds msg (err e) = pure tt
send_to kinds msg (ok channel) =
    if is_known channel.kind kinds then attempt (send channel msg) >>= (λ _. pure tt) else pure tt

unfoldable pub notify_all : List Bytes → Notification → List Subscription → Exec Db (Unit {0})
unfolding get_channel send is_known
notify_all kinds msg [] = pure tt
notify_all kinds msg (sub ∷ subs) = do
  channel ← attempt (get_channel sub.channel_id)
  send_to kinds msg channel
  notify_all kinds msg subs

abbrev pub rules_of : RulesColumn → Exec Db AgentRules
rules_of absent = pure no_rules
rules_of (malformed partial) = raise external
rules_of (parsed rules) = pure rules

abbrev pub version_or_empty : Option Release → Bytes
version_or_empty none = []
version_or_empty (some r) = r.version

abbrev pub start_if : Bool → ℕ → Bytes → Exec Db (Unit {0})
start_if true project version = enqueue_agent_run project (auto_version version) version
start_if false project version = pure tt

abbrev pub unless_gated : Matcher → RulesColumn → Source → Bytes → Bool → Exec Db (Unit {0})
unless_gated matcher column source version true = pure tt
unless_gated matcher column source version false = do
  rules ← rules_of column
  previous ← get_previous_release source.id version
  start_if (check_agent_rules matcher (some rules) version (version_or_empty previous))
      source.project_id version

-- The body of checkAgentRules: it returns at its first error.
unfoldable pub try_agent_rules : Matcher → Source → Bytes → Exec Db (Unit {0})
unfolding get_project has_release_gate get_previous_release enqueue_agent_run
try_agent_rules matcher source version = do
  project ← get_project source.project_id
  gated ← has_release_gate source.project_id
  unless_gated matcher project.agent_rules source version gated

abbrev pub is_prerelease : StringMap → Bool
is_prerelease raw_data = elim (lookup (bytes "prerelease") raw_data) [
  | none ↦ false
  | some text ↦ same text (bytes "true")
]

-- The two early returns of Work.
unfoldable pub is_wanted : Matcher → Source → ReleaseInfo → Bool
unfolding lookup version_passes_filter
is_wanted matcher source release =
    version_passes_filter matcher release.version source.version_filter_include
      source.version_filter_exclude
    && not (source.exclude_prereleases && is_prerelease release.raw_data)

unfoldable pub deliver : Setup → Source → ReleaseInfo → ℕ → Bool → Exec Db (Unit {0})
unfolding create_release_todo list_source_subscriptions notify_all message try_agent_rules
deliver setup source release source_id is_update = do
  todo ← create_release_todo release.id
  subs ← list_source_subscriptions source_id
  notify_all senders (message setup release is_update todo) subs
  _ ← attempt (try_agent_rules setup.matcher source release.version)
  pure tt

abbrev pub deliver_if : Bool → Setup → Source → ReleaseInfo → ℕ → Bool → Exec Db (Unit {0})
deliver_if true setup source release source_id is_update =
    deliver setup source release source_id is_update
deliver_if false setup source release source_id is_update = pure tt

unfoldable pub work : Setup → ℕ → ℕ → Bool → Exec Db (Unit {0})
unfolding get_release get_source is_wanted deliver
work setup release_id source_id is_update = do
  release ← get_release release_id
  source ← get_source source_id
  deliver_if (is_wanted setup.matcher source release) setup source release source_id is_update
