-- ===== src/Gate/Evaluate.antt =====
-- internal/gate/nl_worker.go: the job that evaluates a gate's natural-language rule.
use changelogue.Prelude.{ℕ, Bool, true, false, Option, none, some, Bytes, if◌then◌else◌}
use changelogue.Exec.{Exec, Result, not_found, pure, raise, lift, attempt, ◌>>=◌, ◌>>◌}
use changelogue.Models.{
  ReleaseGate, VersionReadiness, EventType, nl_eval_started, nl_eval_passed, nl_eval_failed,
  no_details, reason,
}
use changelogue.Db.{Db}
use changelogue.Gate.Store.{
  is_pending, get_version_readiness, get_release_gate, record_gate_event, update_nl_rule_passed,
}
use changelogue.Gate.Check.{open_ready}

-- NLEvaluator.Evaluate: whether the rule passed, and the reason, or an error.
abbrev pub Evaluator : Type 0
Evaluator = Bytes → VersionReadiness → Result (Bool × Bytes)

abbrev pub verdict_event : Bool → EventType
verdict_event true = nl_eval_passed
verdict_event false = nl_eval_failed

-- Steps 5 to 12.
abbrev pub after_evaluation : ℕ → ℕ → Bytes → Bool × Bytes → Exec Db (Unit {0})
after_evaluation readiness project version (passed, why) = do
  update_nl_rule_passed readiness passed
  _ ← attempt (record_gate_event readiness project version (verdict_event passed) none (reason why))
  if passed then open_ready readiness project version else pure tt

-- Steps 3 to 12.
abbrev pub with_gate :
    Evaluator → ℕ → ℕ → Bytes → VersionReadiness → Option ReleaseGate → Exec Db (Unit {0})
with_gate evaluate readiness project version vr none = raise not_found
with_gate evaluate readiness project version vr (some g) = do
  _ ← attempt (record_gate_event readiness project version nl_eval_started none no_details)
  verdict ← lift (evaluate g.nl_rule vr)
  after_evaluation readiness project version verdict

abbrev pub with_readiness : Evaluator → ℕ → ℕ → Bytes → Option VersionReadiness → Exec Db (Unit {0})
with_readiness evaluate readiness project version none = pure tt
with_readiness evaluate readiness project version (some vr) =
    if is_pending vr.status
    then (do g ← get_release_gate project; with_gate evaluate readiness project version vr g)
    else pure tt

-- GateNLEvalWorker.Work
unfoldable pub work : Evaluator → ℕ → ℕ → Bytes → Exec Db (Unit {0})
work evaluate readiness project version = do
  vr ← get_version_readiness readiness
  with_readiness evaluate readiness project version vr
