-- ===== src/Gate/Check.antt =====
-- internal/gate/worker.go: the job that a new release starts.
use changelogue.Prelude.{
  ℕ, Bool, true, false, Option, none, some, List, [], ◌∷◌, map, Bytes, if◌then◌else◌, is_empty,
}
use changelogue.Exec.{Exec, Result, ok, err, pure, attempt, ◌>>=◌}
use changelogue.Models.{
  Source, ReleaseGate, VersionReadiness, ready, Trigger, gate, source_met, gate_opened,
  agent_triggered, no_details, trigger, gate_nl_eval,
}
use changelogue.Db.{Db}
use changelogue.Gate.Version.{Submatcher, normalize_version_for_source}
use changelogue.Gate.Store.{
  get_release_gate_by_source, list_sources_by_project, upsert_version_readiness, open_gate,
  mark_agent_triggered, record_gate_event, enqueue_agent_run, insert_job,
}

abbrev pub after_enqueue : ℕ → ℕ → Bytes → Trigger → Result (Unit {0}) → Exec Db (Unit {0})
after_enqueue readiness project version t (err e) = pure tt
after_enqueue readiness project version t (ok _) = do
  _ ← attempt (mark_agent_triggered readiness)
  _ ← attempt (record_gate_event readiness project version agent_triggered none (trigger t))
  pure tt

-- triggerAgent: errors are logged and dropped.
unfoldable pub trigger_agent : ℕ → ℕ → Bytes → Exec Db (Unit {0})
trigger_agent readiness project version = do
  enqueued ← attempt (enqueue_agent_run project (gate readiness) version)
  after_enqueue readiness project version (gate readiness) enqueued

-- Steps 7 and 8, for the worker whose OpenGate made the transition.
abbrev pub after_open : ℕ → ℕ → Bytes → Bool → Exec Db (Unit {0})
after_open readiness project version false = pure tt
after_open readiness project version true = do
  _ ← attempt (record_gate_event readiness project version gate_opened none no_details)
  trigger_agent readiness project version

-- Steps 6 to 8.
unfoldable pub open_ready : ℕ → ℕ → Bytes → Exec Db (Unit {0})
open_ready readiness project version = do
  transitioned ← open_gate readiness ready
  after_open readiness project version transitioned

abbrev pub has_passed : Option Bool → Bool
has_passed none = false
has_passed (some b) = b

-- Step 5: where a natural-language rule has not passed yet, its evaluation is queued instead.
abbrev pub rule_or_open : ReleaseGate → VersionReadiness → Bytes → Bool → Exec Db (Unit {0})
rule_or_open g vr version true = open_ready vr.id g.project_id version
rule_or_open g vr version false = do
  _ ← attempt (insert_job (gate_nl_eval vr.id g.project_id version))
  pure tt

abbrev pub after_upsert : ReleaseGate → ℕ → Bytes → VersionReadiness × Bool → Exec Db (Unit {0})
after_upsert g source version (vr, all_met) = do
  _ ← attempt (record_gate_event vr.id g.project_id version source_met (some source) no_details)
  if all_met
      then rule_or_open g vr version
          (if is_empty g.nl_rule then true else has_passed vr.nl_rule_passed)
      else pure tt

-- Step 3: no list of required sources means all sources of the project.
unfoldable pub required_of : ReleaseGate → List ℕ → Exec Db (List ℕ)
required_of g (s ∷ ss) = pure (s ∷ ss)
required_of g [] = do
  sources ← list_sources_by_project g.project_id 1000
  pure (map (λ (s : Source). s.id) sources)

unfoldable pub check_gate : Submatcher → ℕ → Bytes → ReleaseGate → Exec Db (Unit {0})
check_gate submatch source raw_version g = do
  let version = normalize_version_for_source submatch raw_version source g.version_mapping
  required ← required_of g g.required_sources
  upserted ← upsert_version_readiness g.project_id version source required g.timeout_hours
  after_upsert g source version upserted

abbrev pub if_enabled : Option ReleaseGate → (ReleaseGate → Exec Db (Unit {0})) → Exec Db (Unit {0})
if_enabled none f = pure tt
if_enabled (some g) f = if g.enabled then f g else pure tt

-- GateCheckWorker.work
unfoldable pub work : Submatcher → ℕ → Bytes → Exec Db (Unit {0})
work submatch source raw_version = do
  g ← get_release_gate_by_source source
  if_enabled g (check_gate submatch source raw_version)
