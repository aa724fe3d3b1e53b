-- ===== src/Gate/Timeout/Sweep.antt =====
-- What one sweep of internal/gate/timeout_worker.go opens where no call fails.
use mathlib.Core.Path.{subst}
use changelogue.Prelude.{
  ℕ, ◌≤◌, ◌≡◌, refl, sym, ap, Bool, true, false, Option, none, List, [], ◌∷◌, Bytes, All, keep,
  take, length,
}
use changelogue.Exec.{Exec, Result, ok, err, Fault, continue, pure, attempt, ◌>>=◌, ◌>>◌}
use changelogue.Exec.Rules.{outcome_state}
use changelogue.Models.{
  VersionReadiness, timed_out, gate_timeout, gate_timed_out, agent_triggered, missing, partial,
  EventType, Details,
}
use changelogue.Ingestion.Atomic.{calm}
use changelogue.Db.{Db, statement, query}
use changelogue.Db.Preserve.{
  Preserves, statement-Preserves, bind-Preserves, attempt-Preserves, transaction-Preserves,
}
use changelogue.Db.Quiet.{
  IsQuiet, statement-IsQuiet, bind-IsQuiet, attempt-IsQuiet, transaction-IsQuiet,
}
use changelogue.Gate.Store.{
  update_id, any_pending, is_expired, opened, by_timeout, list_expired_gates, open_gate,
  mark_agent_triggered, record_gate_event, enqueue_agent_run, insert_run, insert_job,
}
use changelogue.Gate.Timeout.{after_enqueue, after_open, expire, expire_all, work}
use changelogue.Gate.Timeout.Left.{Left, Left-update_id, open-Left, listed-Left, none-Left}

-- What comes after OpenGate leaves the rest as it is.
module _ (now : ℕ) (rest : List VersionReadiness) where
  abbrev P : Db → Type 0
  P db = Left now rest db.readiness

  blind : (db : Db) (fs : List Fault) → P db → P (record db { faults = fs })
  blind db fs h = h

  mark-Left : (i : ℕ) → Preserves P blind (mark_agent_triggered i)
  unfolding mark_agent_triggered
  mark-Left i =
      statement-Preserves P blind _
        (λ db h. Left-update_id now rest rest i _ (λ r hit k. k) (λ r miss k. k) db.readiness h)

  enqueue-Left :
      (vr : VersionReadiness)
      → Preserves P blind (enqueue_agent_run vr.project_id (gate_timeout vr.version) vr.version)
  unfolding enqueue_agent_run insert_run insert_job
  enqueue-Left vr = transaction-Preserves P blind _ (
      bind-Preserves P blind (insert_run vr.project_id (gate_timeout vr.version) vr.version) _
        (statement-Preserves P blind _ (λ d h. h))
        (λ run. statement-Preserves P blind _ (λ d h. h)))

  event-Left :
      (i p : ℕ) (v : Bytes) (e : EventType) (source : Option ℕ) (d : Details)
      → Preserves P blind (attempt (record_gate_event i p v e source d))
  unfolding record_gate_event
  event-Left i p v e source d =
      attempt-Preserves P blind (record_gate_event i p v e source d)
        (statement-Preserves P blind _ (λ db h. h))

  enqueued-Left :
      (vr : VersionReadiness) (r : Result (Unit {0})) → Preserves P blind (after_enqueue vr r)
  enqueued-Left vr (err e) db h = h
  enqueued-Left vr (ok _) db h =
      bind-Preserves P blind (attempt (mark_agent_triggered vr.id))
        (λ _.
          attempt (record_gate_event vr.id vr.project_id vr.version agent_triggered none partial)
          >> pure tt)
        (attempt-Preserves P blind (mark_agent_triggered vr.id) (mark-Left vr.id))
        (λ _.
          bind-Preserves P blind
            (attempt
              (record_gate_event vr.id vr.project_id vr.version agent_triggered none partial))
            (λ _. pure tt) (event-Left vr.id vr.project_id vr.version agent_triggered none partial)
            (λ _ d k. k))
        db h

  after_open-Left : (vr : VersionReadiness) (r : Result Bool) → Preserves P blind (after_open vr r)
  after_open-Left vr (err e) db h = h
  after_open-Left vr (ok false) db h = h
  after_open-Left vr (ok true) db h =
      bind-Preserves P blind
        (attempt (
          record_gate_event vr.id vr.project_id vr.version gate_timed_out none
            (missing vr.sources_missing)))
        (λ _.
          attempt (enqueue_agent_run vr.project_id (gate_timeout vr.version) vr.version)
          >>= after_enqueue vr)
        (event-Left vr.id vr.project_id vr.version gate_timed_out none (missing vr.sources_missing))
        (λ _.
          bind-Preserves P blind
            (attempt (enqueue_agent_run vr.project_id (gate_timeout vr.version) vr.version))
            (after_enqueue vr)
            (attempt-Preserves P blind
              (enqueue_agent_run vr.project_id (gate_timeout vr.version) vr.version)
              (enqueue-Left vr))
            (enqueued-Left vr))
        db h

enqueue-IsQuiet :
    (vr : VersionReadiness)
    → IsQuiet (enqueue_agent_run vr.project_id (gate_timeout vr.version) vr.version)
unfolding enqueue_agent_run insert_run insert_job
enqueue-IsQuiet vr = transaction-IsQuiet _ (
    bind-IsQuiet (insert_run vr.project_id (gate_timeout vr.version) vr.version) _
      (statement-IsQuiet _ (λ d. refl)) (λ run. statement-IsQuiet _ (λ d. refl)))

event-IsQuiet :
    (i p : ℕ) (v : Bytes) (e : EventType) (source : Option ℕ) (d : Details)
    → IsQuiet (attempt (record_gate_event i p v e source d))
unfolding record_gate_event
event-IsQuiet i p v e source d =
    attempt-IsQuiet (record_gate_event i p v e source d) (statement-IsQuiet _ (λ db. refl))

mark-IsQuiet : (i : ℕ) → IsQuiet (attempt (mark_agent_triggered i))
unfolding mark_agent_triggered
mark-IsQuiet i = attempt-IsQuiet (mark_agent_triggered i) (statement-IsQuiet _ (λ db. refl))

enqueued-IsQuiet : (vr : VersionReadiness) (r : Result (Unit {0})) → IsQuiet (after_enqueue vr r)
enqueued-IsQuiet vr (err e) db q = q
enqueued-IsQuiet vr (ok _) db q =
    bind-IsQuiet (attempt (mark_agent_triggered vr.id))
      (λ _.
        attempt (record_gate_event vr.id vr.project_id vr.version agent_triggered none partial)
        >> pure tt)
      (mark-IsQuiet vr.id)
      (λ _.
        bind-IsQuiet
          (attempt (record_gate_event vr.id vr.project_id vr.version agent_triggered none partial))
          (λ _. pure tt) (event-IsQuiet vr.id vr.project_id vr.version agent_triggered none partial)
          (λ _ d k. k))
      db q

after_open-IsQuiet : (vr : VersionReadiness) (r : Result Bool) → IsQuiet (after_open vr r)
after_open-IsQuiet vr (err e) db q = q
after_open-IsQuiet vr (ok false) db q = q
after_open-IsQuiet vr (ok true) db q =
    bind-IsQuiet
      (attempt (
        record_gate_event vr.id vr.project_id vr.version gate_timed_out none
          (missing vr.sources_missing)))
      (λ _.
        attempt (enqueue_agent_run vr.project_id (gate_timeout vr.version) vr.version)
        >>= after_enqueue vr)
      (event-IsQuiet vr.id vr.project_id vr.version gate_timed_out none
        (missing vr.sources_missing))
      (λ _.
        bind-IsQuiet
          (attempt (enqueue_agent_run vr.project_id (gate_timeout vr.version) vr.version))
          (after_enqueue vr)
          (attempt-IsQuiet (enqueue_agent_run vr.project_id (gate_timeout vr.version) vr.version)
            (enqueue-IsQuiet vr))
          (enqueued-IsQuiet vr))
      db q

-- The state of a sweep between two rows.
abbrev Sweeping : ℕ → List VersionReadiness → Db → Type 0
Sweeping now rest db = (db.faults ≡ []) × Left now rest db.readiness

expire-Sweeping :
    (now : ℕ) (vr : VersionReadiness) (rest : List VersionReadiness) (db : Db)
    → Left now (vr ∷ rest) db.readiness
    → Sweeping now rest (expire vr (calm db)).1
unfolding expire open_gate statement
expire-Sweeping now vr rest db h =
    let d : Db = record (calm db) {
      readiness = update_id vr.id (opened timed_out db.now) db.readiness;
    } in
    (
      after_open-IsQuiet vr (ok (any_pending vr.id db.readiness)) d refl,
      outcome_state (P now rest) (after_open vr (ok (any_pending vr.id db.readiness)) d) (
          after_open-Left now rest vr (ok (any_pending vr.id db.readiness)) d
            (open-Left now db.now vr rest db.readiness h)),
    )

-- Errors are logged and dropped.
after_enqueue-returns :
    (vr : VersionReadiness) (r : Result (Unit {0})) (db : Db) → (after_enqueue vr r db).0 ≡ ok tt
after_enqueue-returns vr (err e) db = refl
after_enqueue-returns vr (ok _) db = refl

after_open-returns :
    (vr : VersionReadiness) (r : Result Bool) (db : Db) → (after_open vr r db).0 ≡ ok tt
after_open-returns vr (err e) db = refl
after_open-returns vr (ok false) db = refl
after_open-returns vr (ok true) db = after_enqueue-returns vr _ _

expire-returns : (vr : VersionReadiness) (db : Db) → (expire vr db).0 ≡ ok tt
unfolding expire
expire-returns vr db = after_open-returns vr _ _

then-Sweeping :
    (now : ℕ) (x : Result (Unit {0}) × Db) (m : Exec Db (Unit {0}))
    → x.0 ≡ ok tt
    → Sweeping now [] (m x.1).1
    → Sweeping now [] (continue x.0 (λ _. m) x.1).1
then-Sweeping now x m returns h =
    subst (λ (r : Result (Unit {0})). Sweeping now [] (continue r (λ _. m) x.1).1) (sym returns) h

expire_all-Sweeping :
    (now : ℕ) (rows : List VersionReadiness) (db : Db)
    → Sweeping now rows db
    → Sweeping now [] (expire_all rows db).1
unfolding expire_all
expire_all-Sweeping now [] db h = h
expire_all-Sweeping now (vr ∷ rest) db h =
    let quiet : calm db ≡ db = ap (λ (fs : List Fault). record db { faults = fs }) (sym h.0) in
    then-Sweeping now (expire vr db) (expire_all rest) (expire-returns vr db) (
      expire_all-Sweeping now rest (expire vr db).1
        (subst (λ d. Sweeping now rest (expire vr d).1) quiet (expire-Sweeping now vr rest db h.1)))

-- Where no call fails and at most a hundred gates have waited too long, a sweep leaves none of them
-- closed: no gate is pending after it whose time was over when it began.
pub work-expires :
    (db : Db)
    → length (keep (is_expired db.now) db.readiness) ≤ 100
    → All (λ (r : VersionReadiness). is_expired db.now r ≡ false) (work (calm db)).1.readiness
unfolding work list_expired_gates query
work-expires db few =
    none-Left db.now (work (calm db)).1.readiness
      (expire_all-Sweeping db.now (take 100 (by_timeout (keep (is_expired db.now) db.readiness)))
        (calm db) (refl, listed-Left db.now db.readiness few)).1
