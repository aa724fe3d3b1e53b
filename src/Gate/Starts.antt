-- ===== src/Gate/Starts.antt =====
-- When the gate check starts an agent run, where no call fails.
use changelogue.Prelude.{
  ℕ, ◌≡◌, refl, Bool, true, false, ◌&&◌, Option, none, some, List, [], ◌∷◌, ◌++◌, Bytes,
  if◌then◌else◌, is_empty, Bool-cases, inl, inr,
}
use changelogue.Exec.{ok, pure}
use changelogue.Models
use changelogue.Models.{ReleaseGate, VersionReadiness, AgentRun, Job, agent_run, gate, ready}
use changelogue.Db.{Db, GateRow}
use changelogue.Gate.Version.{Submatcher, normalize_version_for_source}
use changelogue.Gate.Store.{
  find_source, gate_of_source, find_key, any_pending, upsert_at, open_gate, mark_agent_triggered,
  record_gate_event, enqueue_agent_run, get_release_gate_by_source, upsert_version_readiness,
}
use changelogue.Gate.Check
use changelogue.Ingestion.Atomic.{calm}

abbrev pub gate_run : Db → ℕ → ℕ → Bytes → AgentRun
gate_run db i p v = record {
  id = db.next_id;
  project_id = p;
  trigger = gate i;
  version = v;
  status = Models.RunStatus.pending;
  semantic_release_id = none;
  started_at = none;
  completed_at = none;
}

module _ (i p : ℕ) (v : Bytes) (db : Db) where
  -- Opening a gate that is closed starts one run, with its job; opening it again starts none.
  open_ready_starts :
      ((Check.open_ready i p v (calm db)).0 ≡ ok tt)
      × ((Check.open_ready i p v (calm db)).1.runs
          ≡ (if any_pending i db.readiness then gate_run db i p v ∷ db.runs else db.runs))
      × ((Check.open_ready i p v (calm db)).1.jobs ≡ (
          if any_pending i db.readiness then db.jobs ++ agent_run db.next_id p v ∷ [] else db.jobs))
  unfolding Check.open_ready Check.trigger_agent open_gate mark_agent_triggered record_gate_event
      enqueue_agent_run
  open_ready_starts = elim (Bool-cases (any_pending i db.readiness)) [
    | inl closed ↦ rw closed (refl, refl, refl)
    | inr open_already ↦ rw open_already (refl, refl, refl)
  ]

-- A gate that is on, with a list of required sources and no natural-language rule.
abbrev pub plain_gate : ℕ → ℕ → ℕ → List ℕ → ℕ → List (ℕ × Models.VersionMapping) → GateRow
plain_gate id p required others hours mappings = record {
  id = id;
  project_id = p;
  required_sources = required ∷ others;
  timeout_hours = hours;
  version_mapping = mappings;
  nl_rule = some [];
  enabled = true;
}

module _ (submatch : Submatcher) (source : ℕ) (raw : Bytes) (db : Db) (id p s : ℕ) (ss : List ℕ)
    (hours : ℕ) (mappings : List (ℕ × Models.VersionMapping)) where
  abbrev spelled : Bytes
  spelled = normalize_version_for_source submatch raw source mappings

  -- The row of the version after the report of `source`, and the database with it.
  abbrev reported : VersionReadiness × Db
  reported = upsert_at (find_key p spelled db.readiness) p spelled source (s ∷ ss) hours (calm db)

  if_met_runs :
      (i : ℕ) (d : Db) (met : Bool)
      → let x = (if met then Check.open_ready i p spelled else pure tt) (calm d) in
        (x.0 ≡ ok tt)
        × (x.1.runs ≡ (
            if met && any_pending i d.readiness then gate_run d i p spelled ∷ d.runs else d.runs))
        × (x.1.jobs ≡ (
            if met && any_pending i d.readiness
            then d.jobs ++ agent_run d.next_id p spelled ∷ []
            else d.jobs))
  if_met_runs i d true = open_ready_starts i p spelled d
  if_met_runs i d false = (refl, refl, refl)

  abbrev scanned : ReleaseGate
  scanned = record {
    id = id;
    project_id = p;
    required_sources = s ∷ ss;
    timeout_hours = hours;
    version_mapping = mappings;
    nl_rule = [];
    enabled = true;
  }

  after_report :
      (o : Option VersionReadiness)
      → let (vr, d) = upsert_at o p spelled source (s ∷ ss) hours (calm db) in
        let x = Check.after_upsert scanned source spelled (vr, is_empty vr.sources_missing) d in
        (x.0 ≡ ok tt)
        × (x.1.runs ≡ (
            if is_empty vr.sources_missing && any_pending vr.id d.readiness
            then gate_run d vr.id p spelled ∷ db.runs
            else db.runs))
        × (x.1.jobs ≡ (
            if is_empty vr.sources_missing && any_pending vr.id d.readiness
            then db.jobs ++ agent_run d.next_id p spelled ∷ []
            else db.jobs))
  unfolding record_gate_event
  after_report none =
      let (vr, d) = upsert_at none p spelled source (s ∷ ss) hours (calm db) in
      if_met_runs vr.id
        (record_gate_event vr.id p spelled Models.source_met (some source) Models.no_details d).1
        (is_empty vr.sources_missing)
  after_report (some old) =
      let (vr, d) = upsert_at (some old) p spelled source (s ∷ ss) hours (calm db) in
      if_met_runs vr.id
        (record_gate_event vr.id p spelled Models.source_met (some source) Models.no_details d).1
        (is_empty vr.sources_missing)

  -- Where no call fails and the source's project has a gate that is on, with required sources and no
  -- rule to evaluate: the check returns; if the report leaves no source missing and the version's gate
  -- is still closed, it starts one run, for the project and the version as it is spelled after
  -- normalisation, whatever the agent rules of the project say, and queues one job, for that run;
  -- else it starts no run and queues no job.
  pub check_starts :
      gate_of_source (find_source source db.sources) db.gates
        ≡ some (plain_gate id p s ss hours mappings)
      → ((Check.work submatch source raw (calm db)).0 ≡ ok tt)
        × ((Check.work submatch source raw (calm db)).1.runs ≡ (
            if is_empty reported.0.sources_missing && any_pending reported.0.id reported.1.readiness
            then gate_run reported.1 reported.0.id p spelled ∷ db.runs
            else db.runs))
        × ((Check.work submatch source raw (calm db)).1.jobs ≡ (
            if is_empty reported.0.sources_missing && any_pending reported.0.id reported.1.readiness
            then db.jobs ++ agent_run reported.1.next_id p spelled ∷ []
            else db.jobs))
  unfolding Check.work Check.check_gate Check.required_of get_release_gate_by_source
      upsert_version_readiness
  check_starts e = rw e (after_report (find_key p spelled db.readiness))
