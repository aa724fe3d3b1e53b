-- ===== src/Models.antt =====
-- internal/models and internal/queue/jobs.go: the rows of the database and the jobs of the queue.
-- Identifiers are UUIDs, which the code only compares: numbers here. Times are seconds. A JSON
-- column stands as what encoding/json makes of it.
use changelogue.Prelude.{ℕ, Bool, Option, List, Bytes}
use changelogue.Routing.Rules.{AgentRules}

-- What `json.Unmarshal(project.AgentRules, &rules)` finds.
pub data RulesColumn : Type 0 where
  absent : RulesColumn
  -- an error, and what it had read by then
  malformed : AgentRules → RulesColumn
  parsed : AgentRules → RulesColumn

pub record Project : Type 0 where
  pub id : ℕ
  pub name : Bytes
  pub agent_rules : RulesColumn

pub record Source : Type 0 where
  pub id : ℕ
  pub project_id : ℕ
  pub provider : Bytes
  pub repository : Bytes
  pub poll_interval_seconds : ℕ
  pub enabled : Bool
  pub version_filter_include : Option Bytes
  pub version_filter_exclude : Option Bytes
  pub exclude_prereleases : Bool
  pub releases_only : Bool
  pub last_polled_at : Option ℕ
  -- whether `last_error` is set
  pub last_error : Bool

-- A JSON object of strings, such as `raw_data`.
abbrev pub StringMap : Type 0
StringMap = List (Bytes × Bytes)

pub record Release : Type 0 where
  pub id : ℕ
  pub source_id : ℕ
  pub version : Bytes
  pub raw_data : StringMap
  pub released_at : Option ℕ
  pub created_at : ℕ

pub record VersionMapping : Type 0 where
  pub pattern : Bytes
  pub template : Bytes

pub record ReleaseGate : Type 0 where
  pub id : ℕ
  pub project_id : ℕ
  -- empty = all sources of the project
  pub required_sources : List ℕ
  pub timeout_hours : ℕ
  -- keyed by source
  pub version_mapping : List (ℕ × VersionMapping)
  pub nl_rule : Bytes
  pub enabled : Bool

pub data Status : Type 0 where
  pending ready timed_out : Status

pub record VersionReadiness : Type 0 where
  pub id : ℕ
  pub project_id : ℕ
  pub version : Bytes
  pub status : Status
  pub sources_met : List ℕ
  pub sources_missing : List ℕ
  pub nl_rule_passed : Option Bool
  pub timeout_at : ℕ
  pub opened_at : Option ℕ
  pub agent_triggered : Bool
  pub updated_at : ℕ

-- The `trigger` text of an agent run: "gate:<id>", "gate:timeout:<version>", "auto:version:<version>",
-- or what an API request gives.
pub data Trigger : Type 0 where
  gate : ℕ → Trigger
  gate_timeout : Bytes → Trigger
  auto_version : Bytes → Trigger
  requested : Bytes → Trigger

pub data EventType : Type 0 where
  source_met gate_opened gate_timed_out agent_triggered : EventType
  nl_eval_started nl_eval_passed nl_eval_failed : EventType

pub data Details : Type 0 where
  no_details : Details
  trigger : Trigger → Details
  reason : Bytes → Details
  missing : List ℕ → Details
  partial : Details

pub record GateEvent : Type 0 where
  pub version_readiness_id : ℕ
  pub project_id : ℕ
  pub version : Bytes
  pub event_type : EventType
  pub source_id : Option ℕ
  pub details : Details

pub data RunStatus : Type 0 where
  pending waiting running completed failed : RunStatus

pub record AgentRun : Type 0 where
  pub id : ℕ
  pub project_id : ℕ
  pub trigger : Trigger
  pub version : Bytes
  pub status : RunStatus
  pub semantic_release_id : Option ℕ
  pub started_at : Option ℕ
  pub completed_at : Option ℕ

-- internal/queue/jobs.go
pub data Job : Type 0 where
  notify_release : ℕ → ℕ → Bool → Job
  agent_run : ℕ → ℕ → Bytes → Job
  gate_check : ℕ → ℕ → Bytes → Job
  gate_nl_eval : ℕ → ℕ → Bytes → Job

pub data TodoStatus : Type 0 where
  pending acknowledged resolved : TodoStatus

-- One of the two references is set.
pub record Todo : Type 0 where
  pub id : ℕ
  pub release_id : Option ℕ
  pub semantic_release_id : Option ℕ
  pub status : TodoStatus
  pub created_at : ℕ
  pub acknowledged_at : Option ℕ
  pub resolved_at : Option ℕ

pub record SemanticRelease : Type 0 where
  pub id : ℕ
  pub project_id : ℕ
  pub version : Bytes
  pub report : Bytes
  pub completed_at : Option ℕ
  pub created_at : ℕ

pub record NotificationChannel : Type 0 where
  pub id : ℕ
  pub name : Bytes
  -- the Go field `Type`
  pub kind : Bytes

-- "source_release" or "semantic_release"
pub data SubscriptionType : Type 0 where
  source_release semantic_release : SubscriptionType

pub record Subscription : Type 0 where
  pub id : ℕ
  pub channel_id : ℕ
  -- the Go field `Type`
  pub kind : SubscriptionType
  pub source_id : Option ℕ
  pub project_id : Option ℕ
  pub version_filter : Bytes
  -- a JSON value; `none` is nil, and NULL in the table
  pub config : Option Bytes

-- The text of a release's JSON object, or a plain text.
pub data Body : Type 0 where
  raw_json : StringMap → Body
  plain_text : Bytes → Body

-- "<public URL>/releases/<id>" and "<public URL>/projects/<id>/semantic-releases/<id>"
pub data Link : Type 0 where
  release_link : Bytes → ℕ → Link
  semantic_link : Bytes → ℕ → ℕ → Link

-- Notification of internal/routing/sender.go. An empty link or todo identifier is `none`.
pub record Notification : Type 0 where
  pub title : Bytes
  pub body : Body
  pub version : Bytes
  pub project_name : Bytes
  pub provider : Bytes
  pub repository : Bytes
  pub release_url : Option Link
  pub source_url : Bytes
  pub todo_id : Option ℕ
  pub public_url : Bytes

-- A message that a sender has delivered to a channel.
pub record Sent : Type 0 where
  pub channel : NotificationChannel
  pub message : Notification

-- User of internal/auth/user.go, with the row of `users`.
pub record User : Type 0 where
  pub id : ℕ
  pub github_id : ℕ
  pub github_login : Bytes
  pub name : Bytes
  pub avatar_url : Bytes

-- A row of `sessions`.
pub record Session : Type 0 where
  pub id : ℕ
  pub user_id : ℕ
  pub expires_at : ℕ

pub data ScanStatus : Type 0 where
  pending processing completed failed : ScanStatus

-- A dependency that a scan found; `provider` and `upstream_repo` are the model's guesses.
pub record ScannedDependency : Type 0 where
  pub name : Bytes
  pub version : Bytes
  pub ecosystem : Bytes
  pub upstream_repo : Bytes
  pub provider : Bytes

-- A row of `onboard_scans`.
pub record OnboardScan : Type 0 where
  pub id : ℕ
  pub repo_url : Bytes
  pub status : ScanStatus
  pub results : Option (List ScannedDependency)
  -- whether `error` is set
  pub error : Bool
  pub created_at : ℕ
  pub started_at : Option ℕ
  pub completed_at : Option ℕ
