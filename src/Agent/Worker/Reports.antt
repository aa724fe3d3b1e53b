-- ===== src/Agent/Worker/Reports.antt =====
-- The runs of internal/agent/worker.go and their reports.
use mathlib.Core.Path.{subst}
use changelogue.Prelude.{
  ℕ, ◌≡◌, refl, Bool, true, false, Option, none, some, List, [], ◌∷◌, Bytes, ◌==◌, leb,
  if◌then◌else◌, Bool-cases, inl, inr, ==_iff,
}
use changelogue.Exec.{Exec, Result, ok, err, Outcome, pure, raise, attempt}
use changelogue.Exec.Rules.{bind-Outcome, Outcome-imp}
use changelogue.Models.{AgentRun, RunStatus, running, completed, failed, waiting, SemanticRelease}
use changelogue.Models
use changelogue.Db.{Db, query}
use changelogue.Db.Rows.{required}
use changelogue.Db.Rules.{query-Outcome}
use changelogue.Db.Preserve.{query-Preserves, attempt-Preserves}
use changelogue.Gate.Store.{list_sources_by_project}
use changelogue.Routing.Store.{get_project}
use changelogue.Agent.Store.{
  find_run, get_agent_run, update_agent_run_status, update_agent_run_result,
  has_release_for_version,
}
use changelogue.Agent.Orchestrator.{
  Setup, AgentResult, execute_agent, after_execute, send_project_notifications, run_agent, all_have,
  check_all_sources_ready,
}
use changelogue.Agent.Worker.{
  Verdict, done, snooze, start, wait_or_start, if_waiting, with_version, work, max_wait_attempts,
  waits_for_all,
}
use changelogue.Agent.Worker.Notices
use changelogue.Agent.Worker.Stored.{
  AreReported, Holds, Keeps, Made, then-Outcome, get_project-Keeps, execute-Made,
}
use changelogue.Agent.Worker.Marked.{
  Ready, result-Ready, AreCompleted, Finished, completed-Finished, status-Keeps,
}

-- The job's runs are completed where it is done.
abbrev pub WhenDone : ℕ → Verdict → Db → Type 0
WhenDone id v db = Holds db × (v ≡ done → AreCompleted id db.runs)

after-Outcome :
    (setup : Setup) (run : AgentRun) (r : Result AgentResult) (db : Db)
    → Outcome Holds Made (r, db)
    → Outcome Holds (λ _. Notices.Holds (Finished run.id)) (after_execute setup run r db)
after-Outcome setup run (err e) db h =
    bind-Outcome {B = Unit {0}} Holds (λ _. Holds) (λ _. Notices.Holds (Finished run.id))
      (attempt (update_agent_run_status run.id failed)) (λ _. raise e) db
      (attempt-Preserves Holds (Notices.blind AreReported) _ (status-Keeps run.id failed refl) db h)
      (λ _ d k. k)
after-Outcome setup run (ok result) db h =
    bind-Outcome Holds (λ _. Ready run.id) (λ _. Notices.Holds (Finished run.id))
      (update_agent_run_result run.id result.semantic_release_id) _ db
      (result-Ready run.id result.semantic_release_id db h)
      λ _ d k.
        bind-Outcome Holds (λ _. Notices.Holds (Finished run.id))
          (λ _. Notices.Holds (Finished run.id)) (update_agent_run_status run.id completed)
          (λ _. send_project_notifications setup run result) d (completed-Finished run.id d k)
          λ _ e q.
            Outcome-imp (Notices.Holds (Finished run.id)) Holds
              (λ _. Notices.Holds (Finished run.id)) (λ _. Notices.Holds (Finished run.id)) _
              (λ x y. y.0) (λ _ x y. y)
              (Notices.notifications-Keeps (Finished run.id) setup run result e q)

run_agent-Outcome :
    (setup : Setup) (run : AgentRun) (db : Db)
    → Holds db
    → Outcome Holds (λ _. Notices.Holds (Finished run.id)) (run_agent setup run db)
unfolding run_agent
run_agent-Outcome setup run =
    then-Outcome (λ _. Notices.Holds (Finished run.id)) (update_agent_run_status run.id running) _
      (status-Keeps run.id running refl)
      λ _ d h.
        after-Outcome setup run (execute_agent setup run d).0 (execute_agent setup run d).1
          (execute-Made setup run d h)

start-Outcome :
    (setup : Setup) (run : AgentRun) (db : Db)
    → Holds db
    → Outcome Holds (WhenDone run.id) (start setup run db)
start-Outcome setup run db h =
    bind-Outcome Holds (λ _. Notices.Holds (Finished run.id)) (WhenDone run.id)
      (run_agent setup run) (λ _. pure done) db (run_agent-Outcome setup run db h)
      (λ _ d k. (k.0, λ _. k.1))

wait_or_start-Outcome :
    (setup : Setup) (k : ℕ) (run : AgentRun) (ready : Bool) (db : Db)
    → Holds db
    → Outcome Holds (WhenDone run.id) (wait_or_start setup k run ready db)
wait_or_start-Outcome setup k run true db h = start-Outcome setup run db h
wait_or_start-Outcome setup k run false db h = elim (Bool-cases (leb max_wait_attempts k)) [
  | inl late ↦ rw (late) (start-Outcome setup run db h)
  | inr early ↦ rw (early) (
      then-Outcome (WhenDone run.id) (attempt (update_agent_run_status run.id waiting))
        (λ _. pure snooze)
        (attempt-Preserves Holds (Notices.blind AreReported) _ (status-Keeps run.id waiting refl))
        (λ _ d q. (q, λ e. cc)) db h)
]

if_has-Keeps : (has : Bool) (m : Exec Db Bool) → Keeps m → Keeps (if has then m else pure false)
if_has-Keeps true m keeps db h = keeps db h
if_has-Keeps false m keeps db h = h

all_have-Keeps : (version : Bytes) (ss : List Models.Source) → Keeps (all_have version ss)
unfolding all_have has_release_for_version
all_have-Keeps version [] db h = h
all_have-Keeps version (s ∷ ss) db h =
    then-Outcome (λ _. Holds) (has_release_for_version s.id version)
      (λ has. if has then all_have version ss else pure false)
      (query-Preserves Holds (Notices.blind AreReported) _)
      (λ has. if_has-Keeps has (all_have version ss) (all_have-Keeps version ss)) db h

ready-Keeps : (project : ℕ) (version : Bytes) → Keeps (check_all_sources_ready project version)
unfolding check_all_sources_ready
ready-Keeps project version =
    then-Outcome (λ _. Holds) (list_sources_by_project project 1000) (all_have version)
      (Notices.sources-Keeps AreReported project 1000) (all_have-Keeps version)

if_waiting-Outcome :
    (setup : Setup) (k : ℕ) (run : AgentRun) (waits : Bool) (db : Db)
    → Holds db
    → Outcome Holds (WhenDone run.id) (if_waiting setup k run waits db)
if_waiting-Outcome setup k run false = start-Outcome setup run
if_waiting-Outcome setup k run true =
    then-Outcome (WhenDone run.id) (check_all_sources_ready run.project_id run.version)
      (wait_or_start setup k run) (ready-Keeps run.project_id run.version)
      (wait_or_start-Outcome setup k run)

with_version-Outcome :
    (setup : Setup) (k : ℕ) (run : AgentRun) (version : Bytes) (db : Db)
    → Holds db
    → Outcome Holds (WhenDone run.id) (with_version setup k run version db)
with_version-Outcome setup k run [] = start-Outcome setup run
with_version-Outcome setup k run (c ∷ version) =
    then-Outcome (WhenDone run.id) (get_project run.project_id) _ (get_project-Keeps run.project_id)
      (λ p. if_waiting-Outcome setup k run (waits_for_all p.agent_rules))

-- The row that a lookup gives has the identifier it was looked up by.
abbrev Names : ℕ → Option AgentRun → Type 0
Names id none = Unit
Names id (some r) = r.id ≡ id

find_run-Names : (id : ℕ) (rs : List AgentRun) → Names id (find_run id rs)
unfolding find_run
find_run-Names id [] = tt
find_run-Names id (r ∷ rs) = elim (Bool-cases (r.id == id)) [
  | inl hit ↦ rw (hit) ((==_iff r.id id).0 hit)
  | inr miss ↦ rw (miss) (find_run-Names id rs)
]

-- Whatever calls fail and whatever the agent answers: where every completed run had its report stored,
-- the worker leaves it so, and where it says that the job is done, the run of the job is completed.
pub work-AreReported :
    (setup : Setup) (k id : ℕ) (db : Db)
    → AreReported db.runs db.semantic_releases
    → Outcome
        (λ d. AreReported d.runs d.semantic_releases)
        (λ v d. AreReported d.runs d.semantic_releases × (v ≡ done → AreCompleted id d.runs))
        (work setup k id db)
unfolding work get_agent_run
work-AreReported setup k id db h =
    bind-Outcome Holds (λ (r : AgentRun) d. Holds d × (r.id ≡ id)) (WhenDone id) (get_agent_run id)
      (λ run. with_version setup k run run.version) db
      (bind-Outcome Holds (λ (o : Option AgentRun) d. Holds d × Names id o)
        (λ (r : AgentRun) d. Holds d × (r.id ≡ id)) (query (λ d. find_run id d.runs)) required db
        (query-Outcome Holds (λ (o : Option AgentRun) d. Holds d × Names id o) _ db h
          (h, find_run-Names id db.runs))
        named)
      λ run d q.
        subst (λ (i : ℕ). Outcome Holds (WhenDone i) (with_version setup k run run.version d)) q.1
          (with_version-Outcome setup k run run.version d q.0)
  where
    named :
        (o : Option AgentRun) (d : Db)
        → Holds d × Names id o
        → Outcome Holds (λ (r : AgentRun) e. Holds e × (r.id ≡ id)) (required o d)
    named none d q = q.0
    named (some r) d q = q
