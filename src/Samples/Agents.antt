-- ===== src/Samples/Agents.antt =====
-- A run of the agent for a project whose rules wait for all sources.
use changelogue.Prelude.{
  ◌≡◌, refl, ◌&&◌, not, true, false, none, some, [], ◌∷◌, bytes, leb, is_empty,
}
use changelogue.Exec.{ok, Outcome, unacked, served}
use changelogue.Models
use changelogue.Models.{Project, parsed, AgentRun, requested}
use changelogue.Db.{Db}
use changelogue.Ingestion.Atomic.{calm}
use changelogue.Text.{has_prefix, trim_space}
use changelogue.Routing.Rules.{no_rules}
use changelogue.Routing.Store.{find_project}
use changelogue.Agent.Store.{find_run}
use changelogue.Agent.Report.{ReadReport, fence, parse_report}
use changelogue.Agent.Report.Fences.{fenced, parse_report-fenced}
use changelogue.Agent.Orchestrator.{Setup}
use changelogue.Agent.Worker.{done, max_wait_attempts, waits_for_all, work}
use changelogue.Agent.Worker.Waiting.{is_snooze, has_all, watched, work-is_snooze}
use changelogue.Agent.Worker.Stored.{AreReported}
use changelogue.Agent.Worker.Marked.{AreCompleted}
use changelogue.Agent.Worker.Reports.{work-AreReported}
use changelogue.Samples.Notified.{stored}
use changelogue.Samples.Listed.{catalog}

-- Any text is a report with the text as its summary.
abbrev read_summary : ReadReport
read_summary text = some (record { subject = []; summary = text; text = text })

abbrev agents : Setup
agents = record {
  analyse = λ project sources version db. ok (bytes "fine");
  read_report = read_summary;
  write_summary = λ summary. summary;
  catalog = catalog;
  escape = λ text. text;
  public_url = [];
}

abbrev project : Project
project = record {
  id = 1;
  name = bytes "p";
  agent_rules = parsed (record no_rules { wait_for_all_sources = true });
}

abbrev run : AgentRun
run = record {
  id = 30;
  project_id = 1;
  trigger = requested [];
  version = bytes "2.0";
  status = Models.RunStatus.pending;
  semantic_release_id = none;
  started_at = none;
  completed_at = none;
}

abbrev asked : Db
asked = record stored {
  projects = project ∷ [];
  runs = run ∷ [];
  faults = served ∷ served ∷ unacked ∷ [];
}

found_run : find_run 30 asked.runs ≡ some run
unfolding find_run
found_run = refl

found_project : find_project 1 asked.projects ≡ some project
unfolding find_project
found_project = refl

work-is_snooze_example : is_snooze (work agents 11 30 (calm asked)).0 ≡ (
    not (is_empty run.version)
    && (waits_for_all project.agent_rules
        && not (has_all run.version (watched 1 asked) asked)
        && not (leb max_wait_attempts 11)))
work-is_snooze_example = work-is_snooze agents 11 30 run project asked found_run found_project

asked-AreReported : AreReported asked.runs asked.semantic_releases
asked-AreReported = (λ e. cc, tt)

work-AreReported_example :
    Outcome
      (λ d. AreReported d.runs d.semantic_releases)
      (λ v d. AreReported d.runs d.semantic_releases × (v ≡ done → AreCompleted 30 d.runs))
      (work agents 12 30 asked)
work-AreReported_example = work-AreReported agents 12 30 asked asked-AreReported

bare : has_prefix fence (trim_space (bytes "{`x`}")) ≡ false
unfolding has_prefix trim_space
bare = refl

parse_report-fenced_example :
    parse_report read_summary (fenced (bytes "json") (bytes "{`x`}"))
    ≡ parse_report read_summary (bytes "{`x`}")
parse_report-fenced_example =
    parse_report-fenced read_summary (bytes "json") (bytes "{`x`}")
      (refl, (refl, (refl, (refl, tt)))) bare
