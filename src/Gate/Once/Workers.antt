-- ===== src/Gate/Once/Workers.antt =====
-- Each of the three gate workers keeps the invariant, whatever calls fail.
use changelogue.Prelude.{ℕ, refl, Bool, true, false, Option, none, some, List, Bytes, if◌then◌else◌}
use changelogue.Exec.{Result, ok, err, Exec, Outcome, attempt, pure, lift, ◌>>=◌, ◌>>◌}
use changelogue.Exec.Rules.{bind-Outcome, Outcome-imp, outcome_state}
use changelogue.Models.{
  ReleaseGate, VersionReadiness, ready, Trigger, gate, EventType, gate_opened, agent_triggered,
  Details, no_details, trigger, reason, nl_eval_started,
}
use changelogue.Db.{Db, query}
use changelogue.Db.Rules.{query-Outcome}
use changelogue.Gate.Store.{
  open_gate, mark_agent_triggered, record_gate_event, enqueue_agent_run, update_nl_rule_passed,
}
use changelogue.Gate.Check
use changelogue.Gate.Evaluate
use changelogue.Gate.Once.{IsSafeWith, Holds}
use changelogue.Gate.Once.Steps.{
  credit_of, open_gate-Holds, mark-Holds, update_nl_rule_passed-Holds, record_gate_event-Holds,
  enqueue_agent_run-Holds,
}

-- An action that keeps the invariant, from a state in which the worker holds `c` for the row.
abbrev pub Uses : List VersionReadiness → ℕ → ℕ → Bytes → ℕ → Exec Db (Unit {0}) → Type 0
Uses held i p v c m =
    (db : Db) → Holds held i p v c db → Outcome (IsSafeWith held) (λ _. IsSafeWith held) (m db)

module _ (held : List VersionReadiness) (i p : ℕ) (v : Bytes) where
  -- A call whose error is logged only.
  pub attempt-Uses :
      {A : Type 0} (c d : ℕ) (m : Exec Db A) (f : Result A → Exec Db (Unit {0}))
      → ((db : Db)
          → Holds held i p v c db
          → Outcome (Holds held i p v d) (λ _. Holds held i p v d) (m db))
      → ((r : Result A) → Uses held i p v d (f r))
      → Uses held i p v c (attempt m >>= f)
  attempt-Uses c d m f step next db h =
      next (m db).0 (m db).1 (outcome_state (Holds held i p v d) (m db) (step db h))

  pub pure-Uses : (c : ℕ) → Uses held i p v c (pure tt)
  pure-Uses c db h = h.safe

  -- A logged event, and then the rest.
  pub event-Uses :
      (c : ℕ) (t : EventType) (source : Option ℕ) (d : Details) (rest : Exec Db (Unit {0}))
      → Uses held i p v c rest
      → Uses held i p v c (attempt (record_gate_event i p v t source d) >> rest)
  event-Uses c t source d rest next =
      attempt-Uses c c (record_gate_event i p v t source d) (λ _. rest)
        (record_gate_event-Holds held i p v c i p v t source d) (λ _. next)

  pub marked-Uses :
      (d : Details)
      → Uses held i p v 0 (do
        _ ← attempt (mark_agent_triggered i)
        _ ← attempt (record_gate_event i p v agent_triggered none d)
        pure tt)
  marked-Uses d =
      attempt-Uses 0 0 (mark_agent_triggered i)
        (λ _. attempt (record_gate_event i p v agent_triggered none d) >> pure tt)
        (mark-Holds held i p v 0 i)
        (λ _. event-Uses 0 agent_triggered none d (pure tt) (pure-Uses 0))

  after_enqueue-Uses :
      (t : Trigger) (r : Result (Unit {0})) → Uses held i p v 0 (Check.after_enqueue i p v t r)
  after_enqueue-Uses t (err e) = pure-Uses 0
  after_enqueue-Uses t (ok _) = marked-Uses (trigger t)

  after_open-Uses : (b : Bool) → Uses held i p v (credit_of b) (Check.after_open i p v b)
  unfolding Check.trigger_agent
  after_open-Uses false = pure-Uses 0
  after_open-Uses true = event-Uses 1 gate_opened none no_details (Check.trigger_agent i p v) (
      attempt-Uses 1 0 (enqueue_agent_run p (gate i) v) (Check.after_enqueue i p v (gate i))
        (enqueue_agent_run-Holds held i p v (gate i)) (after_enqueue-Uses (gate i)))

  pub open_ready-Uses : Uses held i p v 0 (Check.open_ready i p v)
  unfolding Check.open_ready
  open_ready-Uses db h =
      bind-Outcome (IsSafeWith held) (λ b. Holds held i p v (credit_of b)) (λ _. IsSafeWith held)
        (open_gate i ready) (Check.after_open i p v) db
        (Outcome-imp (Holds held i p v 0) (IsSafeWith held) (λ b. Holds held i p v (credit_of b))
          (λ b. Holds held i p v (credit_of b)) (open_gate i ready db) (λ d k. k.safe) (λ b d k. k)
          (open_gate-Holds held i p v ready db refl h))
        after_open-Uses

  if_passed-Uses : (b : Bool) → Uses held i p v 0 (if b then Check.open_ready i p v else pure tt)
  if_passed-Uses true = open_ready-Uses
  if_passed-Uses false = pure-Uses 0

  after_evaluation-Uses :
      (verdict : Bool × Bytes) → Uses held i p v 0 (Evaluate.after_evaluation i p v verdict)
  after_evaluation-Uses (passed, why) db h =
      bind-Outcome (IsSafeWith held) (λ _. Holds held i p v 0) (λ _. IsSafeWith held)
        (update_nl_rule_passed i passed)
        (λ _.
          attempt (record_gate_event i p v (Evaluate.verdict_event passed) none (reason why))
          >> (if passed then Check.open_ready i p v else pure tt))
        db
        (Outcome-imp (Holds held i p v 0) (IsSafeWith held) (λ _. Holds held i p v 0)
          (λ _. Holds held i p v 0) (update_nl_rule_passed i passed db) (λ d k. k.safe) (λ b d k. k)
          (update_nl_rule_passed-Holds held i p v 0 i passed db h))
        λ _.
          event-Uses 0 (Evaluate.verdict_event passed) none (reason why)
            (if passed then Check.open_ready i p v else pure tt) (if_passed-Uses passed)

  lift-Uses :
      {A : Type 0} (r : Result A) (f : A → Exec Db (Unit {0}))
      → ((a : A) → Uses held i p v 0 (f a))
      → Uses held i p v 0 (lift r >>= f)
  lift-Uses (ok a) f next db h = next a db h
  lift-Uses (err e) f next db h = h.safe

  pub with_gate-Uses :
      (evaluate : Evaluate.Evaluator) (vr : VersionReadiness) (g : Option ReleaseGate)
      → Uses held i p v 0 (Evaluate.with_gate evaluate i p v vr g)
  with_gate-Uses evaluate vr none = λ db h. h.safe
  with_gate-Uses evaluate vr (some g) =
      event-Uses 0 nl_eval_started none no_details
        (lift (evaluate g.nl_rule vr) >>= Evaluate.after_evaluation i p v)
        (lift-Uses (evaluate g.nl_rule vr) (Evaluate.after_evaluation i p v) after_evaluation-Uses)

  -- A query by a worker that holds the row.
  query-Uses :
      {A : Type 0} (q : Db → A) (f : A → Exec Db (Unit {0}))
      → ((a : A) → Uses held i p v 0 (f a))
      → Uses held i p v 0 (query q >>= f)
  query-Uses q f next db h =
      bind-Outcome (IsSafeWith held) (λ _. Holds held i p v 0) (λ _. IsSafeWith held) (query q) f db
        (query-Outcome (IsSafeWith held) (λ _. Holds held i p v 0) q db h.safe h) next
