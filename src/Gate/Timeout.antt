-- ===== src/Gate/Timeout.antt =====
-- internal/gate/timeout_worker.go: the periodic job that opens the gates that have waited too long.
pub mod Left
pub mod Sweep
use changelogue.Prelude.{Bool, true, false, none, List, [], ◌∷◌}
use changelogue.Exec.{Exec, Result, ok, err, pure, attempt, ◌>>=◌, ◌>>◌}
use changelogue.Models.{
  VersionReadiness, timed_out, gate_timeout, gate_timed_out, agent_triggered, missing, partial,
}
use changelogue.Db.{Db}
use changelogue.Gate.Store.{
  list_expired_gates, open_gate, record_gate_event, enqueue_agent_run, mark_agent_triggered,
}

abbrev pub after_enqueue : VersionReadiness → Result (Unit {0}) → Exec Db (Unit {0})
after_enqueue vr (err e) = pure tt
after_enqueue vr (ok _) = do
  _ ← attempt (mark_agent_triggered vr.id)
  _ ← attempt (record_gate_event vr.id vr.project_id vr.version agent_triggered none partial)
  pure tt

-- An error of OpenGate, or a gate that is open already, ends this round of the loop.
abbrev pub after_open : VersionReadiness → Result Bool → Exec Db (Unit {0})
after_open vr (err e) = pure tt
after_open vr (ok false) = pure tt
after_open vr (ok true) = do
  _ ← attempt (
      record_gate_event vr.id vr.project_id vr.version gate_timed_out none
        (missing vr.sources_missing))
  enqueued ← attempt (enqueue_agent_run vr.project_id (gate_timeout vr.version) vr.version)
  after_enqueue vr enqueued

unfoldable pub expire : VersionReadiness → Exec Db (Unit {0})
expire vr = do transitioned ← attempt (open_gate vr.id timed_out); after_open vr transitioned

unfoldable pub expire_all : List VersionReadiness → Exec Db (Unit {0})
expire_all [] = pure tt
expire_all (vr ∷ rest) = do expire vr; expire_all rest

-- GateTimeoutWorker.Work
unfoldable pub work : Exec Db (Unit {0})
work = do expired ← list_expired_gates 100; expire_all expired
