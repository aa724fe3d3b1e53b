-- ===== src/Agent/Worker/Waiting.antt =====
-- When AgentWorker.Work of internal/agent/worker.go puts a run off.
use changelogue.Prelude.{
  ℕ, ◌≡◌, refl, ap, ◌∙◌, Bool, true, false, ◌&&◌, not, Option, some, List, [], ◌∷◌, Bytes, leb,
  ◌==◌, is_empty, keep, take, Bool-cases, inl, inr,
}
use changelogue.Exec.{Exec, pure, Result, ok, err, Outcome, continue, ◌>>=◌}
use changelogue.Exec.Rules.{bind-Outcome}
use changelogue.Models.{Project, Source, AgentRun}
use changelogue.Db.{Db, query}
use changelogue.Db.Rows.{required}
use changelogue.Ingestion.Atomic.{calm}
use changelogue.Ingestion.Store.{find_release}
use changelogue.Gate.Store.{list_sources_by_project}
use changelogue.Routing.Store.{find_project, get_project}
use changelogue.Agent.Store.{is_found, find_run, get_agent_run, has_release_for_version}
use changelogue.Agent.Orchestrator.{Setup, run_agent, all_have, check_all_sources_ready}
use changelogue.Agent.Worker.{
  Verdict, done, snooze, max_wait_attempts, waits_for_all, start, wait_or_start, if_waiting,
  with_version, work,
}

trivial : {A : Type 0} (x : Result A × Db) → Outcome (λ _. Unit {0}) (λ _ _. Unit {0}) x
trivial (ok a, db) = tt
trivial (err e, db) = tt

-- What holds of the answer, where there is one.
abbrev Answers : (Verdict → Type 0) → Exec Db Verdict → Type 0
Answers P m = (db : Db) → Outcome (λ _. Unit {0}) (λ v _. P v) (m db)

bind-Answers :
    {A : Type 0} (P : Verdict → Type 0) (m : Exec Db A) (f : A → Exec Db Verdict)
    → ((a : A) → Answers P (f a))
    → Answers P (m >>= f)
bind-Answers P m f k db =
    bind-Outcome (λ _. Unit {0}) (λ _ _. Unit {0}) (λ v _. P v) m f db (trivial (m db))
      (λ a d _. k a d)

abbrev IsDone : Verdict → Type 0
IsDone v = v ≡ done

start-IsDone : (setup : Setup) (run : AgentRun) → Answers IsDone (start setup run)
start-IsDone setup run = bind-Answers IsDone (run_agent setup run) (λ _. pure done) (λ _ _. refl)

-- Whether the answer is to come again.
abbrev pub is_snooze : Result Verdict → Bool
is_snooze (ok done) = false
is_snooze (ok snooze) = true
is_snooze (err e) = false

not_snooze :
    (x : Result Verdict × Db) → Outcome (λ _. Unit {0}) (λ v _. v ≡ done) x → is_snooze x.0 ≡ false
not_snooze (ok v, db) h = rw h refl
not_snooze (err e, db) h = refl

start-not_snooze :
    (setup : Setup) (run : AgentRun) (db : Db) → is_snooze (start setup run db).0 ≡ false
start-not_snooze setup run db = not_snooze (start setup run db) (start-IsDone setup run db)

-- Every source has a release of exactly this version.
unfoldable pub has_all : Bytes → List Source → Db → Bool
has_all version [] db = true
has_all version (s ∷ ss) db =
    is_found (find_release s.id version db.releases) && has_all version ss db

all_have-calm :
    (version : Bytes) (ss : List Source) (db : Db)
    → all_have version ss (calm db) ≡ (ok (has_all version ss db), calm db)
unfolding all_have has_all has_release_for_version query
all_have-calm version [] db = refl
all_have-calm version (s ∷ ss) db =
    elim (Bool-cases (is_found (find_release s.id version db.releases))) [
      | inl hit ↦ rw (hit, all_have-calm version ss db)
      | inr miss ↦ rw (miss)
    ]

-- The project's sources that are looked at: the first thousand.
abbrev pub watched : ℕ → Db → List Source
watched project db = take 1000 (keep (λ s. s.project_id == project) db.sources)

ready-calm :
    (project : ℕ) (version : Bytes) (db : Db)
    → check_all_sources_ready project version (calm db)
      ≡ (ok (has_all version (watched project db) db), calm db)
unfolding check_all_sources_ready list_sources_by_project query
ready-calm project version db = all_have-calm version (watched project db) db

wait_or_start-is_snooze :
    (setup : Setup) (k : ℕ) (run : AgentRun) (ready : Bool) (db : Db)
    → is_snooze (wait_or_start setup k run ready db).0
      ≡ (not ready && not (leb max_wait_attempts k))
wait_or_start-is_snooze setup k run true db = start-not_snooze setup run db
wait_or_start-is_snooze setup k run false db = elim (Bool-cases (leb max_wait_attempts k)) [
  | inl late ↦ rw (late) (start-not_snooze setup run db)
  | inr early ↦ rw (early)
]

if_waiting-is_snooze :
    (setup : Setup) (k : ℕ) (run : AgentRun) (waits : Bool) (db : Db)
    → is_snooze (if_waiting setup k run waits (calm db)).0 ≡ (
        waits
        && not (has_all run.version (watched run.project_id db) db)
        && not (leb max_wait_attempts k))
if_waiting-is_snooze setup k run false db = start-not_snooze setup run (calm db)
if_waiting-is_snooze setup k run true db =
    ap (λ (x : Result Bool × Db). is_snooze (continue x.0 (wait_or_start setup k run) x.1).0)
      (ready-calm run.project_id run.version db)
    ∙ wait_or_start-is_snooze setup k run _ (calm db)

with_version-is_snooze :
    (setup : Setup) (k : ℕ) (run : AgentRun) (project : Project) (version : Bytes) (db : Db)
    → find_project run.project_id db.projects ≡ some project
    → is_snooze (with_version setup k run version (calm db)).0 ≡ (
        not (is_empty version)
        && (waits_for_all project.agent_rules
            && not (has_all run.version (watched run.project_id db) db)
            && not (leb max_wait_attempts k)))
unfolding get_project query
with_version-is_snooze setup k run project [] db found = start-not_snooze setup run (calm db)
with_version-is_snooze setup k run project (c ∷ version) db found =
    ap
      (λ (row : Option Project).
        let x : Result Project × Db = required row (calm db) in
        is_snooze (continue x.0 (λ p. if_waiting setup k run (waits_for_all p.agent_rules)) x.1).0)
      found
    ∙ if_waiting-is_snooze setup k run (waits_for_all project.agent_rules) db

-- Where no call fails, and whether or not its project has a release gate, a run that is found is put
-- off exactly where it has a version, its project's rules wait for all sources, one of the project's
-- sources lacks a release of that version, and it is not yet the twelfth attempt.
pub work-is_snooze :
    (setup : Setup) (k id : ℕ) (run : AgentRun) (project : Project) (db : Db)
    → find_run id db.runs ≡ some run
    → find_project run.project_id db.projects ≡ some project
    → is_snooze (work setup k id (calm db)).0 ≡ (
        not (is_empty run.version)
        && (waits_for_all project.agent_rules
            && not (has_all run.version (watched run.project_id db) db)
            && not (leb max_wait_attempts k)))
unfolding work get_agent_run query
work-is_snooze setup k id run project db here found =
    ap
      (λ (row : Option AgentRun).
        let x : Result AgentRun × Db = required row (calm db) in
        is_snooze (continue x.0 (λ r. with_version setup k r r.version) x.1).0)
      here
    ∙ with_version-is_snooze setup k run project run.version db found
