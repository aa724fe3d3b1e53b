-- ===== src/Agent/Worker/Marked.antt =====
-- The status updates of internal/agent/orchestrator.go: what each leaves of the completed runs.
use changelogue.Prelude.{ℕ, ◌≡◌, refl, Bool, true, false, List, [], ◌∷◌, ◌==◌, All}
use changelogue.Exec.{Outcome, ◌>>=◌}
use changelogue.Exec.Rules.{bind-Outcome}
use changelogue.Models.{AgentRun, RunStatus, running, completed, failed, waiting, SemanticRelease}
use changelogue.Models
use changelogue.Db.{Db, past_call, statement}
use changelogue.Db.Rows.{or_missing}
use changelogue.Db.Rules.{statement-Outcome}
use changelogue.Gate.Store.{update_run}
use changelogue.Agent.Store.{
  has_run, set_status, set_result, update_agent_run_status, update_agent_run_result,
}
use changelogue.Agent.Worker.Notices
use changelogue.Agent.Worker.Stored.{
  is_stored, IsReported, AreReported, All-update_run, Holds, Keeps, With,
}

-- Each run of this identifier names a stored report.
abbrev pub Ready : ℕ → Db → Type 0
Ready id db =
    Holds db
    × All
        (λ (r : AgentRun).
          (r.id == id) ≡ true → is_stored r.semantic_release_id db.semantic_releases ≡ true)
        db.runs

pub update-Outcome :
    (Q : Db → Type 0) (id : ℕ) (f : ℕ → AgentRun → AgentRun) (db : Db)
    → ((d : Db) → Q d → Holds d)
    → Holds db
    → Q (record (past_call db) { runs = update_run id (f db.now) db.runs })
    → Outcome Holds
        (λ _. Q)
        ((statement (λ d. (has_run id d.runs, record d { runs = update_run id (f d.now) d.runs }))
            >>= or_missing)
          db)
update-Outcome Q id f db weaken h q =
    bind-Outcome Holds (λ _. Q) (λ _. Q)
      (statement (λ d. (has_run id d.runs, record d { runs = update_run id (f d.now) d.runs })))
      or_missing db
      (statement-Outcome Holds (λ _. Q)
        (λ d. (has_run id d.runs, record d { runs = update_run id (f d.now) d.runs })) db
        (λ a d k. weaken d k) h q)
      go
  where
    go : (b : Bool) (d : Db) → Q d → Outcome Holds (λ _. Q) (or_missing b d)
    go true d k = k
    go false d k = weaken d k

pub absurd : {A : Type 0} {b : Bool} → b ≡ false → b ≡ true → A
absurd miss hit = cc

pub result-Ready :
    (id semantic : ℕ) (db : Db)
    → With semantic db
    → Outcome Holds (λ _. Ready id) (update_agent_run_result id semantic db)
unfolding update_agent_run_result
result-Ready id semantic db h =
    update-Outcome (Ready id) id (λ _. set_result semantic) db (λ d k. k.0) h.0
      (
        All-update_run (IsReported db.semantic_releases) (IsReported db.semantic_releases) id
            (set_result semantic) (λ r hit k e. h.1) (λ r miss k. k) db.runs h.0,
        All-update_run (IsReported db.semantic_releases)
            (λ (r : AgentRun).
              (r.id == id) ≡ true → is_stored r.semantic_release_id db.semantic_releases ≡ true)
            id (set_result semantic) (λ r hit k e. h.1) (λ r miss k e. absurd miss e) db.runs h.0,
      )

-- Each run of this identifier is completed.
abbrev pub AreCompleted : ℕ → List AgentRun → Type 0
AreCompleted id runs = All (λ (r : AgentRun). (r.id == id) ≡ true → r.status ≡ completed) runs

abbrev pub Finished : ℕ → List AgentRun → List SemanticRelease → Type 0
Finished id runs rows = AreReported runs rows × AreCompleted id runs

pub All-both :
    {A : Type 0} (P Q : A → Type 0) (xs : List A) → All P xs → All Q xs → All (λ a. P a × Q a) xs
All-both P Q [] h k = tt
All-both P Q (x ∷ xs) h k = ((h.0, k.0), All-both P Q xs h.1 k.1)

pub completed-Finished :
    (id : ℕ) (db : Db)
    → Ready id db
    → Outcome Holds (λ _. Notices.Holds (Finished id)) (update_agent_run_status id completed db)
unfolding update_agent_run_status
completed-Finished id db h =
    update-Outcome (Notices.Holds (Finished id)) id (set_status completed) db (λ d k. k.0) h.0
      (
        All-update_run
            (λ r.
              IsReported db.semantic_releases r
              × ((r.id == id) ≡ true → is_stored r.semantic_release_id db.semantic_releases ≡ true))
            (IsReported db.semantic_releases) id (set_status completed db.now)
            (λ r hit k e. k.1 hit) (λ r miss k. k.0) db.runs (All-both _ _ db.runs h.0 h.1),
        All-update_run (IsReported db.semantic_releases)
            (λ (r : AgentRun). (r.id == id) ≡ true → r.status ≡ completed) id
            (set_status completed db.now) (λ r hit k e. refl) (λ r miss k e. absurd miss e) db.runs
            h.0,
      )

-- The three states that the agent sets before there is a report.
abbrev pub is_early : RunStatus → Bool
is_early running = true
is_early waiting = true
is_early failed = true
is_early completed = false
is_early Models.RunStatus.pending = false

pub set_status-IsReported :
    (status : RunStatus) (now : ℕ) (rows : List SemanticRelease) (r : AgentRun)
    → is_early status ≡ true
    → IsReported rows (set_status status now r)
set_status-IsReported running now rows r early e = cc
set_status-IsReported waiting now rows r early e = cc
set_status-IsReported failed now rows r early e = cc
set_status-IsReported completed now rows r early e = cc
set_status-IsReported Models.RunStatus.pending now rows r early e = cc

pub status-Keeps :
    (id : ℕ) (status : RunStatus)
    → is_early status ≡ true
    → Keeps (update_agent_run_status id status)
unfolding update_agent_run_status
status-Keeps id status early db h =
    update-Outcome Holds id (set_status status) db (λ d k. k) h
      (All-update_run (IsReported db.semantic_releases) (IsReported db.semantic_releases) id
        (set_status status db.now)
        (λ r hit k. set_status-IsReported status db.now db.semantic_releases r early)
        (λ r miss k. k) db.runs h)
