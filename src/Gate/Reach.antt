-- ===== src/Gate/Reach.antt =====
-- The gates over time: whole jobs run one after another, in any order and any number of times, calls
-- fail, and everything else in the system changes in between.
use mathlib.Core.List.{Memᴰ}
use mathlib.Core.Path.{subst}
use changelogue.Prelude.{
  ℕ, ◌+◌, ◌≤◌, ◌≡◌, refl, sym, Bool, true, false, Option, none, some, List, [], ◌∷◌, ◌++◌, Bytes,
  arith, All, ◌==◌, Bool-cases, inl, inr,
}
use changelogue.Exec.{Outcome}
use changelogue.Exec.Rules.{bind-Outcome, outcome_state}
use changelogue.Models.{
  VersionReadiness, AgentRun, Trigger, Job, notify_release, agent_run, gate_check, gate_nl_eval,
}
use changelogue.Db.{Db, past_call}
use changelogue.Db.Rules.{statement-Outcome, transaction-Outcome}
use changelogue.Gate.Version.{Submatcher}
use changelogue.Gate.Store.{
  update_run, find_id, find_key, is_pending, insert_run, insert_job, enqueue_agent_run,
}
use changelogue.Gate.Check
use changelogue.Gate.Evaluate
use changelogue.Gate.Timeout
use changelogue.Gate.Table.{IdsBelow-weaken, find_id-eq}
use changelogue.Gate.Once.{
  counts_for, is_gate_trigger, gate_runs, opened_count, opened_gates, Names, IsGenuine, IsNamed,
  IsSafe, IsSafeWith, Safe,
}
use changelogue.Gate.Once.Steps.{gate_runs-cons, IsGenuine-append}
use changelogue.Gate.Once.Jobs.{check-Keeps, evaluate-Keeps, timeout-Keeps}

-- A job that evaluates the rule of a gate.
abbrev pub is_evaluation : Job → Bool
is_evaluation (gate_nl_eval i p v) = true
is_evaluation (notify_release r s u) = false
is_evaluation (agent_run i p v) = false
is_evaluation (gate_check s r v) = false

-- A change of a run that leaves what it was started for.
pub record KeepsRun (f : AgentRun → AgentRun) : Type 0 where
  pub trigger : (r : AgentRun) → (f r).trigger ≡ r.trigger
  pub project : (r : AgentRun) → (f r).project_id ≡ r.project_id
  pub version : (r : AgentRun) → (f r).version ≡ r.version

counts_for-KeepsRun :
    (f : AgentRun → AgentRun) (p : ℕ) (v : Bytes) (r : AgentRun)
    → KeepsRun f
    → counts_for p v (f r) ≡ counts_for p v r
counts_for-KeepsRun f p v r k = rw (k.trigger r, k.project r, k.version r)

gate_runs-update_run :
    (id : ℕ) (f : AgentRun → AgentRun) (k : KeepsRun f) (p : ℕ) (v : Bytes) (rs : List AgentRun)
    → gate_runs p v (update_run id f rs) ≡ gate_runs p v rs
unfolding gate_runs update_run
gate_runs-update_run id f k p v [] = refl
gate_runs-update_run id f k p v (r ∷ rs) = elim (Bool-cases (r.id == id)) [
  | inl hit ↦ rw (hit, counts_for-KeepsRun f p v r k, gate_runs-update_run id f k p v rs)
  | inr miss ↦ rw (miss, gate_runs-update_run id f k p v rs)
]

pub data Step (db : Db) : Db → Type 0 where
  -- GateCheckWorker runs, for any source and raw version
  check :
      (submatch : Submatcher) (source : ℕ) (raw : Bytes)
      → Step db (Check.work submatch source raw db).1
  -- GateNLEvalWorker runs, for any job of the queue, with any evaluator
  evaluate :
      (evaluator : Evaluate.Evaluator) (i p : ℕ) (v : Bytes)
      → Memᴰ (gate_nl_eval i p v) db.jobs
      → Step db (Evaluate.work evaluator i p v db).1
  -- GateTimeoutWorker runs
  timeout : Step db (Timeout.work db).1
  -- a version rule or an API request starts a run
  start_run :
      (t : Trigger) (p : ℕ) (v : Bytes)
      → is_gate_trigger t ≡ false
      → Step db (enqueue_agent_run p t v db).1
  -- another component queues a job
  queue :
      (job : Job) → is_evaluation job ≡ false → Step db (record db { jobs = db.jobs ++ job ∷ [] })
  -- a job is done, or given up
  complete :
      (before after : List Job) (job : Job)
      → db.jobs ≡ before ++ job ∷ after
      → Step db (record db { jobs = before ++ after })
  -- the agent sets the status or the result of a run
  change_run :
      (id : ℕ) (f : AgentRun → AgentRun)
      → KeepsRun f
      → Step db (record db { runs = update_run id f db.runs })
  -- time passes, the other tables are edited, and other faults lie ahead
  environment :
      (other : Db)
      → db.next_id ≤ other.next_id
      → Step db (record other { readiness = db.readiness; runs = db.runs; jobs = db.jobs })

pub data Reach (db : Db) : Db → Type 0 where
  here : Reach db db
  next : {d e : Db} → Reach db d → Step d e → Reach db e

genuine_member :
    (rows : List VersionReadiness) (i p : ℕ) (v : Bytes) (jobs : List Job)
    → All (IsGenuine rows) jobs
    → Memᴰ (gate_nl_eval i p v) jobs
    → Names i p v rows
genuine_member rows i p v [] h m = elim m [ ]
genuine_member rows i p v (job ∷ js) h (Memᴰ.head e) = subst (IsGenuine rows) (sym e) h.0
genuine_member rows i p v (job ∷ js) h (Memᴰ.tail m) = genuine_member rows i p v js h.1 m

IsGenuine-other :
    (rows : List VersionReadiness) (job : Job) → is_evaluation job ≡ false → IsGenuine rows job
IsGenuine-other rows (gate_nl_eval i p v) e = cc
IsGenuine-other rows (notify_release r s u) e = tt
IsGenuine-other rows (agent_run i p v) e = tt
IsGenuine-other rows (gate_check s r v) e = tt

IsGenuine-without :
    (rows : List VersionReadiness) (before after : List Job) (job : Job)
    → All (IsGenuine rows) (before ++ job ∷ after)
    → All (IsGenuine rows) (before ++ after)
IsGenuine-without rows [] after job h = h.1
IsGenuine-without rows (j ∷ js) after job h = (h.0, IsGenuine-without rows js after job h.1)

module _ (held : List VersionReadiness) where
  with_jobs :
      (db : Db) (jobs : List Job)
      → All (IsGenuine db.readiness) jobs
      → IsSafeWith held db
      → IsSafeWith held (record db { jobs = jobs })
  with_jobs db jobs g s = record {
    ids = s.ids;
    keys = s.keys;
    genuine = g;
    named = s.named;
    budget = s.budget;
  }

  add_other_run :
      (bound : ℕ) (rows : List VersionReadiness) (run : AgentRun) (runs : List AgentRun)
      (jobs : List Job)
      → is_gate_trigger run.trigger ≡ false
      → Safe held bound rows runs jobs
      → Safe held (bound + 1) rows (run ∷ runs) jobs
  add_other_run bound rows run runs jobs other s = record {
    ids = IdsBelow-weaken bound (bound + 1) rows (omega arith) s.ids;
    keys = s.keys;
    genuine = s.genuine;
    named = s.named;
    budget =
        λ q w. rw (gate_runs-cons held 0 q w q w run runs, other) (omega (arith, s.budget q w));
  }

  start_run-Keeps :
      (t : Trigger) (p : ℕ) (v : Bytes) (db : Db)
      → is_gate_trigger t ≡ false
      → IsSafeWith held db
      → Outcome (IsSafeWith held) (λ _. IsSafeWith held) (enqueue_agent_run p t v db)
  unfolding enqueue_agent_run insert_run insert_job
  start_run-Keeps t p v db other s =
      transaction-Outcome (IsSafeWith held) (λ _. IsSafeWith held) (λ d fs k. k) (λ a d fs k. k)
        (λ a d k. k) _ db s
        (bind-Outcome (λ _. Unit) (λ _. IsSafeWith held) (λ _. IsSafeWith held) (insert_run p t v)
          (λ run. insert_job (agent_run run p v)) (past_call db)
          (statement-Outcome (λ _. Unit) (λ _. IsSafeWith held) _ (past_call db) (λ a d k. tt) tt
            (add_other_run db.next_id db.readiness _ db.runs db.jobs other s))
          λ run d k.
            statement-Outcome (λ _. Unit) (λ _. IsSafeWith held) _ d (λ a e l. tt) tt
              (with_jobs d (d.jobs ++ agent_run run p v ∷ [])
                (IsGenuine-append [] 0 0 [] d.readiness d.jobs (agent_run run p v) k.genuine tt) k))

  Step-IsSafe : {db db' : Db} → Step db db' → IsSafeWith held db → IsSafeWith held db'
  Step-IsSafe {db} (check submatch source raw) s =
      outcome_state (IsSafeWith held) (Check.work submatch source raw db)
        (check-Keeps held submatch source raw db s)
  Step-IsSafe {db} (evaluate evaluator i p v m) s =
      outcome_state (IsSafeWith held) (Evaluate.work evaluator i p v db) (
        evaluate-Keeps held evaluator i p v db s
          (genuine_member db.readiness i p v db.jobs s.genuine m))
  Step-IsSafe {db} timeout s =
      outcome_state (IsSafeWith held) (Timeout.work db) (timeout-Keeps held db s)
  Step-IsSafe {db} (start_run t p v other) s =
      outcome_state (IsSafeWith held) (enqueue_agent_run p t v db)
        (start_run-Keeps t p v db other s)
  Step-IsSafe {db} (queue job e) s =
      with_jobs db (db.jobs ++ job ∷ [])
        (IsGenuine-append [] 0 0 [] db.readiness db.jobs job s.genuine
          (IsGenuine-other db.readiness job e))
        s
  Step-IsSafe {db} (complete before after job e) s =
      with_jobs db (before ++ after)
        (IsGenuine-without db.readiness before after job
          (subst (All (IsGenuine db.readiness)) e s.genuine))
        s
  Step-IsSafe {db} (environment other grown) s = record {
    ids = IdsBelow-weaken db.next_id other.next_id db.readiness grown s.ids;
    keys = s.keys;
    genuine = s.genuine;
    named = s.named;
    budget = s.budget;
  }
  Step-IsSafe {db} (change_run id f kept) s = record {
    ids = s.ids;
    keys = s.keys;
    genuine = s.genuine;
    named = s.named;
    budget = λ p v. rw (gate_runs-update_run id f kept p v db.runs) (s.budget p v);
  }

  pub Reach-IsSafe : {db db' : Db} → IsSafeWith held db → Reach db db' → IsSafeWith held db'
  Reach-IsSafe s here = s
  Reach-IsSafe s (next r st) = Step-IsSafe st (Reach-IsSafe s r)

opened_gates-le-one : (p : ℕ) (v : Bytes) (rows : List VersionReadiness) → opened_gates p v rows ≤ 1
unfolding opened_gates
opened_gates-le-one p v rows = at_most_one (find_key p v rows)
  where
    at_most_one : (o : Option VersionReadiness) → opened_count o ≤ 1
    at_most_one none = omega arith
    at_most_one (some r) = ground arith

-- From a state that meets the invariant, whatever jobs run, in whatever order and however often, and
-- whatever calls fail: for every project and version, the agent runs that its gate has started are
-- at most the gates opened for it, and that is at most one.
pub one_run_per_version :
    {db db' : Db} (p : ℕ) (v : Bytes)
    → IsSafe db
    → Reach db db'
    → (gate_runs p v db'.runs ≤ opened_gates p v db'.readiness)
      × (opened_gates p v db'.readiness ≤ 1)
one_run_per_version {db} {db'} p v s r =
    ((Reach-IsSafe [] s r).budget p v, opened_gates-le-one p v db'.readiness)

-- A row stays, under its key, and with its status if that is final.
pub row_stays :
    {db db' : Db} (r : VersionReadiness)
    → IsSafe db
    → Reach db db'
    → find_id r.id db.readiness ≡ some r
    → IsNamed db'.readiness r
row_stays {db} {db'} r s reach found =
    (Reach-IsSafe (r ∷ [])
      (record {
        ids = s.ids;
        keys = s.keys;
        genuine = s.genuine;
        named = ((r, found, refl, refl, λ _. refl), tt);
        budget = s.budget;
      })
      reach).named.0

-- From a state that meets the invariant, once the gate of a row is open, the row is still there at
-- any later time, with its project, its version and the status with which it was opened.
pub opened_forever :
    {db db' : Db} (i : ℕ) (r : VersionReadiness)
    → IsSafe db
    → Reach db db'
    → find_id i db.readiness ≡ some r
    → is_pending r.status ≡ false
    → (q : VersionReadiness) × (find_id i db'.readiness ≡ some q)
      × (q.project_id ≡ r.project_id)
      × (q.version ≡ r.version)
      × (q.status ≡ r.status)
opened_forever {db} {db'} i r s reach found final =
    let same_id = find_id-eq i db.readiness r found in
    let (q, found', same_p, same_v, kept) =
      row_stays r s reach (subst (λ j. find_id j db.readiness ≡ some r) (sym same_id) found) in
    (q, subst (λ j. find_id j db'.readiness ≡ some q) same_id found', same_p, same_v, kept final)
