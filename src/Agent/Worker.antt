-- ===== src/Agent/Worker.antt =====
-- AgentWorker of internal/agent/worker.go: it waits for the sources of a version, or runs the agent.
pub mod Waiting
pub mod Notices
pub mod Stored
pub mod Marked
pub mod Reports
use changelogue.Prelude.{
  ℕ, Bool, true, false, ◌&&◌, not, Option, none, some, List, [], ◌∷◌, Bytes, ltb, leb,
  if◌then◌else◌, is_empty,
}
use changelogue.Exec.{Exec, pure, attempt, ◌>>=◌, ◌>>◌}
use changelogue.Models.{RulesColumn, absent, malformed, parsed, AgentRun, waiting}
use changelogue.Db.{Db}
use changelogue.Routing.Rules.{AgentRules, no_rules}
use changelogue.Routing.Store.{get_project}
use changelogue.Agent.Store.{get_agent_run, update_agent_run_status}
use changelogue.Agent.Orchestrator.{Setup, run_agent, check_all_sources_ready}

-- What the queue is told beside an error: the job is done, or it comes again in five minutes.
pub data Verdict : Type 0 where
  done snooze : Verdict

abbrev pub max_wait_attempts : ℕ
max_wait_attempts = 12

-- An error of json.Unmarshal is logged, and what it had read counts.
abbrev pub waits_for_all : RulesColumn → Bool
waits_for_all absent = false
waits_for_all (malformed partial) = partial.wait_for_all_sources
waits_for_all (parsed rules) = rules.wait_for_all_sources

abbrev pub start : Setup → AgentRun → Exec Db Verdict
start setup run = run_agent setup run >> pure done

-- Not ready: wait, or go on with what there is.
abbrev pub wait_or_start : Setup → ℕ → AgentRun → Bool → Exec Db Verdict
wait_or_start setup job_attempt run true = start setup run
wait_or_start setup job_attempt run false =
    if leb max_wait_attempts job_attempt
    then start setup run
    else attempt (update_agent_run_status run.id waiting) >>= (λ _. pure snooze)

abbrev pub if_waiting : Setup → ℕ → AgentRun → Bool → Exec Db Verdict
if_waiting setup job_attempt run false = start setup run
if_waiting setup job_attempt run true = do
  ready ← check_all_sources_ready run.project_id run.version
  wait_or_start setup job_attempt run ready

abbrev pub with_version : Setup → ℕ → AgentRun → Bytes → Exec Db Verdict
with_version setup job_attempt run [] = start setup run
with_version setup job_attempt run (c ∷ version) = do
  project ← get_project run.project_id
  if_waiting setup job_attempt run (waits_for_all project.agent_rules)

unfoldable pub work : Setup → ℕ → ℕ → Exec Db Verdict
unfolding get_agent_run get_project check_all_sources_ready update_agent_run_status run_agent
work setup job_attempt run_id = do
  run ← get_agent_run run_id
  with_version setup job_attempt run run.version
