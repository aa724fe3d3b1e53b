-- ===== src/Gate/Once/Steps.antt =====
-- What each store operation does to the invariant and to the credit of the worker that calls it.
use changelogue.Prelude.{
  ℕ, ◌+◌, ◌≤◌, ◌≡◌, refl, sym, ◌∙◌, Bool, true, false, Option, some, List, [], ◌∷◌, ◌++◌, Bytes,
  ◌==◌, if◌then◌else◌, same_iff, ==_refl, arith, Bool-cases, inl, inr, All,
}
use mathlib.Core.Path.{subst}
use changelogue.Exec.{Outcome}
use changelogue.Exec.Rules.{bind-Outcome}
use changelogue.Models.{
  VersionReadiness, Status, EventType, Details, Trigger, AgentRun, Job, agent_run, gate_nl_eval,
}
use changelogue.Db.{Db, past_call}
use changelogue.Db.Rules.{statement-Outcome, transaction-Outcome}
use changelogue.Gate.Store.{
  find_id, find_key, update_id, is_pending, any_pending, opened, meet_source, open_gate,
  mark_agent_triggered, update_nl_rule_passed, record_gate_event, insert_run, insert_job,
  enqueue_agent_run,
}
use changelogue.Gate.Table.{
  IdsBelow, UniqueKeys, IdsBelow-weaken, find_key-update_id, find_key_of_find_id, find_id-eq,
}
use changelogue.Gate.Once.{
  counts_for, gate_runs, opened_gates, Names, IsGenuine, Holding, Holds, KeepsOpen,
  Holding-update_id,
}

any_pending-lt :
    (i bound : ℕ) (rows : List VersionReadiness)
    → bound ≤ i
    → IdsBelow bound rows
    → any_pending i rows ≡ false
unfolding any_pending
any_pending-lt i bound [] h k = refl
any_pending-lt i bound (r ∷ rs) h k = ground (arith, any_pending-lt i r.id rs)

any_pending-find_id :
    (i bound : ℕ) (rows : List VersionReadiness) (r : VersionReadiness)
    → IdsBelow bound rows
    → find_id i rows ≡ some r
    → any_pending i rows ≡ true
    → is_pending r.status ≡ true
unfolding any_pending find_id
any_pending-find_id i bound [] r k h a = cc
any_pending-find_id i bound (q ∷ qs) r k h a = elim (Bool-cases (q.id == i)) [
  | inl hit ↦
      let is_r : q ≡ r = cc (rw hit at h) in
      let none_below = any_pending-lt i q.id qs (ground arith) k.1 in
      subst (λ x. is_pending x.status ≡ true) is_r (ground arith)
  | inr miss ↦ any_pending-find_id i q.id qs r k.1 (rw miss at h) (rw miss at a)
]

opened-KeepsOpen : (s : Status) (now : ℕ) → KeepsOpen (opened s now)
opened-KeepsOpen s now = record {
  key = record { id = λ r. ground arith; project = λ r. ground arith; version = λ r. ground arith };
  status_stays = λ r h. ground arith;
}

mark-KeepsOpen : (now : ℕ) → KeepsOpen (λ r. record r { agent_triggered = true; updated_at = now })
mark-KeepsOpen now = record {
  key = record { id = λ r. refl; project = λ r. refl; version = λ r. refl };
  status_stays = λ r h. refl;
}

passed-KeepsOpen :
    (passed : Bool) (now : ℕ)
    → KeepsOpen (λ r. record r { nl_rule_passed = some passed; updated_at = now })
passed-KeepsOpen passed now = record {
  key = record { id = λ r. refl; project = λ r. refl; version = λ r. refl };
  status_stays = λ r h. refl;
}

-- The credit that a transition gives.
abbrev pub credit_of : Bool → ℕ
credit_of true = 1
credit_of false = 0

module _ (held : List VersionReadiness) (i p : ℕ) (v : Bytes) where
  -- An opened gate counts.
  opened_gates-opened :
      (s : Status) (now : ℕ) (rows : List VersionReadiness)
      → is_pending s ≡ false
      → UniqueKeys rows
      → (names : Names i p v rows) → is_pending names.0.status ≡ true
      → (opened_gates p v rows ≡ 0) × (opened_gates p v (update_id i (opened s now) rows) ≡ 1)
  unfolding opened_gates
  opened_gates-opened s now rows final u (r, found, same_p, same_v) waiting =
      let by_key : find_key p v rows ≡ some r =
        rw (← same_p, ← same_v) (find_key_of_find_id i rows r u found) in
      let is_i : r.id ≡ i = find_id-eq i rows r found in
      (
        rw (by_key, waiting),
        rw (find_key-update_id (opened s now) (opened-KeepsOpen s now).key i p v rows, by_key)
            (ground (arith, ==_refl i)),
      )

  drop_credit :
      (c bound : ℕ) (rows : List VersionReadiness) (runs : List AgentRun) (jobs : List Job)
      → Holding held i p v c bound rows runs jobs
      → Holding held i p v 0 bound rows runs jobs
  drop_credit c bound rows runs jobs h = record {
    safe = h.safe;
    names = h.names;
    spare = omega (arith, h.spare);
  }

  open-Holding :
      (b : Bool) (s : Status) (db : Db)
      → is_pending s ≡ false
      → any_pending i db.readiness ≡ b
      → Holds held i p v 0 db
      → Holding held i p v
          (credit_of b)
          db.next_id
          (update_id i (opened s db.now) db.readiness)
          db.runs
          db.jobs
  open-Holding false s db final e h =
      Holding-update_id (opened s db.now) (opened-KeepsOpen s db.now) i held i p v 0 db.next_id
        db.readiness db.runs db.jobs h
  open-Holding true s db final e h =
      let kept =
        Holding-update_id (opened s db.now) (opened-KeepsOpen s db.now) i held i p v 0 db.next_id
          db.readiness db.runs db.jobs h in
      let waiting =
        any_pending-find_id i db.next_id db.readiness h.names.0 h.safe.ids h.names.1 e in
      let (before, after) =
        opened_gates-opened s db.now db.readiness final h.safe.keys h.names waiting in
      record {
        safe = kept.safe;
        names = kept.names;
        spare = omega (arith, h.safe.budget p v, before, after);
      }

  -- A worker whose OpenGate made the transition may start one run; any other worker, none.
  pub open_gate-Holds :
      (s : Status) (db : Db)
      → is_pending s ≡ false
      → Holds held i p v 0 db
      → Outcome (Holds held i p v 0) (λ b. Holds held i p v (credit_of b)) (open_gate i s db)
  unfolding open_gate
  open_gate-Holds s db final h =
      statement-Outcome (Holds held i p v 0) (λ b. Holds held i p v (credit_of b)) _ db
        (λ b d q. drop_credit (credit_of b) d.next_id d.readiness d.runs d.jobs q) h
        (open-Holding (any_pending i db.readiness) s db final refl h)

  pub mark-Holds :
      (c j : ℕ) (db : Db)
      → Holds held i p v c db
      → Outcome (Holds held i p v c) (λ _. Holds held i p v c) (mark_agent_triggered j db)
  unfolding mark_agent_triggered
  mark-Holds c j db h =
      statement-Outcome (Holds held i p v c) (λ _. Holds held i p v c) _ db (λ _ d q. q) h
        (Holding-update_id _ (mark-KeepsOpen db.now) j held i p v c db.next_id db.readiness db.runs
          db.jobs h)

  pub update_nl_rule_passed-Holds :
      (c j : ℕ) (passed : Bool) (db : Db)
      → Holds held i p v c db
      → Outcome (Holds held i p v c) (λ _. Holds held i p v c) (update_nl_rule_passed j passed db)
  unfolding update_nl_rule_passed
  update_nl_rule_passed-Holds c j passed db h =
      statement-Outcome (Holds held i p v c) (λ _. Holds held i p v c) _ db (λ _ d q. q) h
        (Holding-update_id _ (passed-KeepsOpen passed db.now) j held i p v c db.next_id db.readiness
          db.runs db.jobs h)

  pub record_gate_event-Holds :
      (c j q : ℕ) (w : Bytes) (t : EventType) (s : Option ℕ) (d : Details) (db : Db)
      → Holds held i p v c db
      → Outcome (Holds held i p v c) (λ _. Holds held i p v c) (record_gate_event j q w t s d db)
  unfolding record_gate_event
  record_gate_event-Holds c j q w t s d db h =
      statement-Outcome (Holds held i p v c) (λ _. Holds held i p v c) _ db (λ _ e k. k) h h

  pub IsGenuine-append :
      (rows : List VersionReadiness) (jobs : List Job) (job : Job)
      → All (IsGenuine rows) jobs
      → IsGenuine rows job
      → All (IsGenuine rows) (jobs ++ job ∷ [])
  IsGenuine-append rows [] job h g = (g, tt)
  IsGenuine-append rows (j ∷ js) job h g = (h.0, IsGenuine-append rows js job h.1 g)

  add_job :
      (c bound : ℕ) (rows : List VersionReadiness) (runs : List AgentRun) (jobs : List Job)
      (job : Job)
      → IsGenuine rows job
      → Holding held i p v c bound rows runs jobs
      → Holding held i p v c bound rows runs (jobs ++ job ∷ [])
  add_job c bound rows runs jobs job g h = record {
    safe = record {
      ids = h.safe.ids;
      keys = h.safe.keys;
      genuine = IsGenuine-append rows jobs job h.safe.genuine g;
      named = h.safe.named;
      budget = h.safe.budget;
    };
    names = h.names;
    spare = h.spare;
  }

  -- Queueing an evaluation of the row that the worker holds.
  pub insert_nl_job-Holds :
      (c : ℕ) (db : Db)
      → Holds held i p v c db
      → Outcome (Holds held i p v c) (λ _. Holds held i p v c) (insert_job (gate_nl_eval i p v) db)
  unfolding insert_job
  insert_nl_job-Holds c db h =
      statement-Outcome (Holds held i p v c) (λ _. Holds held i p v c) _ db (λ _ e k. k) h
        (add_job c db.next_id db.readiness db.runs db.jobs (gate_nl_eval i p v) h.names h)

  pub gate_runs-cons :
      (q : ℕ) (w : Bytes) (run : AgentRun) (runs : List AgentRun)
      → gate_runs q w (run ∷ runs) ≡ (if counts_for q w run then 1 else 0) + gate_runs q w runs
  unfolding gate_runs
  gate_runs-cons q w run runs = refl

  -- Starting one run uses up the credit.
  add_run :
      (t : Trigger) (bound : ℕ) (rows : List VersionReadiness) (run : AgentRun)
      (runs : List AgentRun) (jobs : List Job)
      → run.project_id ≡ p
      → run.version ≡ v
      → Holding held i p v 1 bound rows runs jobs
      → Holding held i p v 0 (bound + 1) rows (run ∷ runs) jobs
  add_run t bound rows run runs jobs same_p same_v h = record {
    safe = record {
      ids = IdsBelow-weaken bound (bound + 1) rows (omega arith) h.safe.ids;
      keys = h.safe.keys;
      genuine = h.safe.genuine;
      named = h.safe.named;
      budget = λ q w. elim (Bool-cases (counts_for q w run)) [
        | inl hit ↦
            let same_q : q ≡ p = ground (arith, same_p) in
            let same_w : w ≡ v = sym ((same_iff run.version w).0 (ground arith)) ∙ same_v in
            rw (gate_runs-cons q w run runs, hit, same_q, same_w) (omega (arith, h.spare))
        | inr miss ↦ rw (gate_runs-cons q w run runs, miss) (omega (arith, h.safe.budget q w))
      ];
    };
    names = h.names;
    spare = rw (gate_runs-cons p v run runs) (ground (arith, h.spare));
  }

  pub enqueue_agent_run-Holds :
      (t : Trigger) (db : Db)
      → Holds held i p v 1 db
      → Outcome (Holds held i p v 0) (λ _. Holds held i p v 0) (enqueue_agent_run p t v db)
  unfolding enqueue_agent_run
  enqueue_agent_run-Holds t db h =
      transaction-Outcome (Holds held i p v 0) (λ _. Holds held i p v 0) (λ d fs k. k)
        (λ a d fs k. k) (λ a d k. k) _ db (drop_credit 1 db.next_id db.readiness db.runs db.jobs h)
        (bind-Outcome (λ _. Unit) (λ _. Holds held i p v 0) (λ _. Holds held i p v 0)
          (insert_run p t v) (λ run. insert_job (agent_run run p v)) (past_call db)
          (statement-Outcome (λ _. Unit) (λ _. Holds held i p v 0) _ (past_call db) (λ a d k. tt) tt
            (add_run t db.next_id db.readiness _ db.runs db.jobs refl refl h))
          λ run d k.
            statement-Outcome (λ _. Unit) (λ _. Holds held i p v 0) _ d (λ a e l. tt) tt
              (add_job 0 d.next_id d.readiness d.runs d.jobs (agent_run run p v) tt k))

pub meet-id :
    (source : ℕ) (required : List ℕ) (now : ℕ) (r : VersionReadiness)
    → ((meet_source source required now r).id ≡ r.id)
      × ((meet_source source required now r).project_id ≡ r.project_id)
      × ((meet_source source required now r).version ≡ r.version)
      × ((meet_source source required now r).status ≡ r.status)
unfolding meet_source
meet-id source required now r = ground arith
