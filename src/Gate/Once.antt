-- ===== src/Gate/Once.antt =====
-- The invariant of the gates: no version of a project has more agent runs from its gate than gates
-- that were opened, and a version has one gate at most.
pub mod Steps
pub mod Upsert
pub mod Workers
pub mod Jobs
use changelogue.Prelude.{
  ℕ, zero, suc, ◌+◌, ◌≤◌, ◌<◌, ◌≡◌, refl, ap, Bool, true, false, ◌&&◌, not, Option, none, some,
  List, [], ◌∷◌, ◌++◌, Bytes, ◌==◌, if◌then◌else◌, same, same_refl, arith, Bool-cases, Option-cases,
  inl, inr, All,
}
use changelogue.Exec.{Result, ok, err, Fault, Exec, Outcome, attempt, ◌>>=◌, ◌>>◌}
use changelogue.Exec.Rules.{bind-Outcome, Outcome-imp}
use changelogue.Models.{
  VersionReadiness, Status, pending, ready, timed_out, EventType, Details, Trigger, gate,
  gate_timeout, auto_version, requested, AgentRun, Job, notify_release, agent_run, gate_check,
  gate_nl_eval,
}
use changelogue.Db.{Db, past_call, statement}
use changelogue.Db.Rules.{statement-Outcome, query-Outcome, transaction-Outcome}
use changelogue.Gate.Store.{
  find_id, find_key, has_key, update_id, is_pending, any_pending, is_pending_id, opened,
  meet_source, new_readiness, upsert_at, upsert_version_readiness, open_gate, mark_agent_triggered,
  update_nl_rule_passed, record_gate_event, insert_run, insert_job, enqueue_agent_run,
}
use changelogue.Gate.Table.{
  IdsBelow, UniqueKeys, KeepsKey, map_found, map_row, IdsBelow-update_id, IdsBelow-weaken,
  UniqueKeys-update_id, find_key-update_id, find_id-update_id, find_key_of_find_id,
  find_key-has_key, has_key-eq, find_id-lt, find_id-eq,
}

-- Agent runs that a gate started.
abbrev pub is_gate_trigger : Trigger → Bool
is_gate_trigger (gate id) = true
is_gate_trigger (gate_timeout version) = true
is_gate_trigger (auto_version version) = false
is_gate_trigger (requested text) = false

abbrev pub counts_for : ℕ → Bytes → AgentRun → Bool
counts_for p v r = is_gate_trigger r.trigger && (r.project_id == p && same r.version v)

unfoldable pub gate_runs : ℕ → Bytes → List AgentRun → ℕ
gate_runs p v [] = 0
gate_runs p v (r ∷ rs) = (if counts_for p v r then 1 else 0) + gate_runs p v rs

abbrev pub opened_count : Option VersionReadiness → ℕ
opened_count none = 0
opened_count (some r) = if is_pending r.status then 0 else 1

-- 1 if the version's gate has been opened, else 0.
unfoldable pub opened_gates : ℕ → Bytes → List VersionReadiness → ℕ
opened_gates p v rows = opened_count (find_key p v rows)

-- The row with this identifier is the one of project `p` and version `v`.
abbrev pub Names : ℕ → ℕ → Bytes → List VersionReadiness → Type 0
Names i p v rows =
    (r : VersionReadiness) × (find_id i rows ≡ some r) × (r.project_id ≡ p) × (r.version ≡ v)

-- An evaluation job carries the key of its row.
abbrev pub IsGenuine : List VersionReadiness → Job → Type 0
IsGenuine rows (gate_nl_eval i p v) = Names i p v rows
IsGenuine rows (notify_release r s u) = Unit
IsGenuine rows (agent_run i p v) = Unit
IsGenuine rows (gate_check s r v) = Unit

-- The table still has the row `r`, under its key, and with its status if that was final.
abbrev pub IsNamed : List VersionReadiness → VersionReadiness → Type 0
IsNamed rows r =
    (q : VersionReadiness) × (find_id r.id rows ≡ some q)
    × (q.project_id ≡ r.project_id)
    × (q.version ≡ r.version)
    × (is_pending r.status ≡ false → q.status ≡ r.status)

-- `held` are rows that were read earlier, on which a worker may still act.

pub record Safe (held : List VersionReadiness) (bound : ℕ) (rows : List VersionReadiness)
    (runs : List AgentRun) (jobs : List Job) : Type 0 where
  pub ids : IdsBelow bound rows
  pub keys : UniqueKeys rows
  pub genuine : All (IsGenuine rows) jobs
  pub named : All (IsNamed rows) held
  pub budget : (p : ℕ) (v : Bytes) → gate_runs p v runs ≤ opened_gates p v rows

abbrev pub IsSafeWith : List VersionReadiness → Db → Type 0
IsSafeWith held db = Safe held db.next_id db.readiness db.runs db.jobs

-- Between two jobs no row is held.
abbrev pub IsSafe : Db → Type 0
IsSafe db = Safe [] db.next_id db.readiness db.runs db.jobs

-- A worker that holds `credit` may still start so many runs for the version.
pub record Holding (held : List VersionReadiness) (i p : ℕ) (v : Bytes) (credit : ℕ) (bound : ℕ)
    (rows : List VersionReadiness) (runs : List AgentRun) (jobs : List Job) : Type 0 where
  pub safe : Safe held bound rows runs jobs
  pub names : Names i p v rows
  pub spare : gate_runs p v runs + credit ≤ opened_gates p v rows

abbrev pub Holds : List VersionReadiness → ℕ → ℕ → Bytes → ℕ → Db → Type 0
Holds held i p v credit db = Holding held i p v credit db.next_id db.readiness db.runs db.jobs

-- A change of a row that leaves its key and does not close its gate.
pub record KeepsOpen (f : VersionReadiness → VersionReadiness) : Type 0 where
  pub key : KeepsKey f
  pub status_stays : (r : VersionReadiness) → is_pending r.status ≡ false → (f r).status ≡ r.status

module _ (f : VersionReadiness → VersionReadiness) (k : KeepsOpen f) (i : ℕ) where
  opened_count-map_found :
      (o : Option VersionReadiness) → opened_count o ≤ opened_count (map_found f k.key i o)
  opened_count-map_found none = omega arith
  opened_count-map_found (some r) = elim (Bool-cases (r.id == i)) [
    | inl hit ↦ rw hit (ground (arith, k.status_stays r))
    | inr miss ↦ rw miss (omega arith)
  ]

  pub opened_gates-update_id :
      (p : ℕ) (v : Bytes) (rows : List VersionReadiness)
      → opened_gates p v rows ≤ opened_gates p v (update_id i f rows)
  unfolding opened_gates
  opened_gates-update_id p v rows =
      rw (find_key-update_id f k.key i p v rows) (opened_count-map_found (find_key p v rows))

  pub Names-update_id :
      (j p : ℕ) (v : Bytes) (rows : List VersionReadiness)
      → Names j p v rows
      → Names j p v (update_id i f rows)
  Names-update_id j p v rows (r, found, same_p, same_v) = (
    map_row f k.key i r,
    rw (find_id-update_id f k.key i j rows, found),
    elim (Bool-cases (r.id == i)) [
      | inl hit ↦ rw (hit, k.key.project r, same_p)
      | inr miss ↦ rw (miss, same_p)
    ],
    elim (Bool-cases (r.id == i)) [
      | inl hit ↦ rw (hit, k.key.version r, same_v)
      | inr miss ↦ rw (miss, same_v)
    ],
  )

  pub IsGenuine-update_id :
      (rows : List VersionReadiness) (jobs : List Job)
      → All (IsGenuine rows) jobs
      → All (IsGenuine (update_id i f rows)) jobs
  IsGenuine-update_id rows [] h = tt
  IsGenuine-update_id rows (notify_release r s u ∷ js) h = (tt, IsGenuine-update_id rows js h.1)
  IsGenuine-update_id rows (agent_run j p v ∷ js) h = (tt, IsGenuine-update_id rows js h.1)
  IsGenuine-update_id rows (gate_check s r v ∷ js) h = (tt, IsGenuine-update_id rows js h.1)
  IsGenuine-update_id rows (gate_nl_eval j p v ∷ js) h =
      (Names-update_id j p v rows h.0, IsGenuine-update_id rows js h.1)

  IsNamed-update_id :
      (rows : List VersionReadiness) (r : VersionReadiness)
      → IsNamed rows r
      → IsNamed (update_id i f rows) r
  IsNamed-update_id rows r (q, found, same_p, same_v, final) =
      let (q', found', p', v') =
        Names-update_id r.id r.project_id r.version rows (q, found, same_p, same_v) in
      (
        map_row f k.key i q,
        rw (find_id-update_id f k.key i r.id rows, found),
        cc (p', rw (find_id-update_id f k.key i r.id rows, found) at found'),
        cc (v', rw (find_id-update_id f k.key i r.id rows, found) at found'),
        λ done. elim (Bool-cases (q.id == i)) [
          | inl hit ↦ rw (hit, k.status_stays q (rw (final done) done), final done)
          | inr miss ↦ rw (miss, final done)
        ],
      )

  IsNamed-update_id-All :
      (rows held : List VersionReadiness)
      → All (IsNamed rows) held
      → All (IsNamed (update_id i f rows)) held
  IsNamed-update_id-All rows [] h = tt
  IsNamed-update_id-All rows (r ∷ rs) h =
      (IsNamed-update_id rows r h.0, IsNamed-update_id-All rows rs h.1)

  pub Safe-update_id :
      (held : List VersionReadiness) (bound : ℕ) (rows : List VersionReadiness)
      (runs : List AgentRun) (jobs : List Job)
      → Safe held bound rows runs jobs
      → Safe held bound (update_id i f rows) runs jobs
  Safe-update_id held bound rows runs jobs s = record {
    ids = IdsBelow-update_id f k.key i bound rows s.ids;
    keys = UniqueKeys-update_id f k.key i rows s.keys;
    genuine = IsGenuine-update_id rows jobs s.genuine;
    named = IsNamed-update_id-All rows held s.named;
    budget = λ p v. omega (arith, s.budget p v, opened_gates-update_id p v rows);
  }

  pub Holding-update_id :
      (held : List VersionReadiness) (j p : ℕ) (v : Bytes) (c bound : ℕ)
      (rows : List VersionReadiness) (runs : List AgentRun) (jobs : List Job)
      → Holding held j p v c bound rows runs jobs
      → Holding held j p v c bound (update_id i f rows) runs jobs
  Holding-update_id held j p v c bound rows runs jobs h = record {
    safe = Safe-update_id held bound rows runs jobs h.safe;
    names = Names-update_id j p v rows h.names;
    spare = omega (arith, h.spare, opened_gates-update_id p v rows);
  }
