-- ===== src/Gate/Store.antt =====
-- The release-gate operations of internal/api/pgstore.go, one definition per SQL statement, and
-- EnqueueAgentRun.
use changelogue.Prelude.{
  ℕ, ◌+◌, ◌*◌, Bool, true, false, ◌&&◌, ◌||◌, not, Option, none, some, List, [], ◌∷◌, ◌++◌, Bytes,
  ltb, leb, ◌==◌, if◌then◌else◌, same, keep, contains, take, length, is_empty,
}
use changelogue.Exec.{Exec, null_column, pure, raise, ◌>>=◌}
use changelogue.Models
use changelogue.Models.{
  Source, ReleaseGate, VersionReadiness, Status, pending, ready, timed_out, GateEvent, EventType,
  Details, Trigger, AgentRun, agent_run,
}
use changelogue.Db.{Db, GateRow, statement, query, transaction}

-- Lookups: the first row that the WHERE clause admits.
unfoldable pub find_source : ℕ → List Source → Option Source
find_source id [] = none
find_source id (s ∷ ss) = if s.id == id then some s else find_source id ss

unfoldable pub find_gate : ℕ → List GateRow → Option GateRow
find_gate project [] = none
find_gate project (g ∷ gs) = if g.project_id == project then some g else find_gate project gs

unfoldable pub find_id : ℕ → List VersionReadiness → Option VersionReadiness
find_id id [] = none
find_id id (r ∷ rs) = if r.id == id then some r else find_id id rs

abbrev pub has_key : ℕ → Bytes → VersionReadiness → Bool
has_key project version r = r.project_id == project && same r.version version

unfoldable pub find_key : ℕ → Bytes → List VersionReadiness → Option VersionReadiness
find_key project version [] = none
find_key project version (r ∷ rs) =
    if has_key project version r then some r else find_key project version rs

-- `UPDATE version_readiness SET … WHERE id = $1`
unfoldable pub update_id :
    ℕ → (VersionReadiness → VersionReadiness) → List VersionReadiness → List VersionReadiness
update_id id f [] = []
update_id id f (r ∷ rs) = (if r.id == id then f r else r) ∷ update_id id f rs

-- Scanning a NULL `nl_rule` into a Go string is an error.
abbrev pub scan_gate : Option GateRow → Exec Db (Option ReleaseGate)
scan_gate none = pure none
scan_gate (some g) = elim g.nl_rule [
  | none ↦ raise null_column
  | some rule ↦ pure (
      some (record {
        id = g.id;
        project_id = g.project_id;
        required_sources = g.required_sources;
        timeout_hours = g.timeout_hours;
        version_mapping = g.version_mapping;
        nl_rule = rule;
        enabled = g.enabled;
      }))
]

abbrev pub gate_of_source : Option Source → List GateRow → Option GateRow
gate_of_source none gates = none
gate_of_source (some s) gates = find_gate s.project_id gates

unfoldable pub get_release_gate_by_source : ℕ → Exec Db (Option ReleaseGate)
unfolding query find_source find_gate
get_release_gate_by_source source = do
  row ← query (λ db. gate_of_source (find_source source db.sources) db.gates)
  scan_gate row

unfoldable pub get_release_gate : ℕ → Exec Db (Option ReleaseGate)
unfolding query find_gate
get_release_gate project = do row ← query (λ db. find_gate project db.gates); scan_gate row

abbrev pub is_enabled_for : ℕ → GateRow → Bool
is_enabled_for project g = g.project_id == project && g.enabled

unfoldable pub exists_gate : ℕ → List GateRow → Bool
exists_gate project [] = false
exists_gate project (g ∷ gs) = is_enabled_for project g || exists_gate project gs

unfoldable pub has_release_gate : ℕ → Exec Db Bool
unfolding query exists_gate
has_release_gate project = query (λ db. exists_gate project db.gates)

-- ListSourcesByProject with page 1 and `limit` rows: the count, which no modelled caller reads, and the
-- rows, `ORDER BY created_at DESC`. New rows are put in front of the table, so it has the newest first.
unfoldable pub list_sources_by_project : ℕ → ℕ → Exec Db (List Source)
unfolding query keep
list_sources_by_project project limit =
    query (λ db. length (keep (λ s. s.project_id == project) db.sources))
    >>= (λ total. query (λ db. take limit (keep (λ s. s.project_id == project) db.sources)))

abbrev pub is_pending : Status → Bool
is_pending pending = true
is_pending ready = false
is_pending timed_out = false

-- The elements of `required` that are not in `met`.
unfoldable pub without : List ℕ → List ℕ → List ℕ
unfolding keep contains
without required met = keep (λ r. not (contains met r)) required

-- `ON CONFLICT (project_id, version) DO UPDATE SET …`
unfoldable pub meet_source : ℕ → List ℕ → ℕ → VersionReadiness → VersionReadiness
unfolding without contains
meet_source source required now r =
    if is_pending r.status && not (contains r.sources_met source)
    then record r {
      sources_met = r.sources_met ++ source ∷ [];
      sources_missing = without required (r.sources_met ++ source ∷ []);
      updated_at = now;
    }
    else record r { updated_at = now }

-- `VALUES ($1, …)`: the row that is inserted where no row has the key.
unfoldable pub new_readiness : ℕ → Bytes → ℕ → List ℕ → ℕ → Db → VersionReadiness
unfolding without contains
new_readiness project version source required timeout_hours db = record {
  id = db.next_id;
  project_id = project;
  version = version;
  status = pending;
  sources_met = source ∷ [];
  sources_missing = without required (source ∷ []);
  nl_rule_passed = none;
  timeout_at = db.now + timeout_hours * 3600;
  opened_at = none;
  agent_triggered = false;
  updated_at = db.now;
}

abbrev pub upsert_at :
    Option VersionReadiness → ℕ → Bytes → ℕ → List ℕ → ℕ → Db → VersionReadiness × Db
upsert_at none project version source required timeout_hours db =
    let r = new_readiness project version source required timeout_hours db in
    (r, record db { readiness = r ∷ db.readiness; next_id = db.next_id + 1 })
upsert_at (some old) project version source required timeout_hours db = (
  meet_source source required db.now old,
  record db { readiness = update_id old.id (meet_source source required db.now) db.readiness },
)

unfoldable pub upsert_version_readiness :
    ℕ → Bytes → ℕ → List ℕ → ℕ → Exec Db (VersionReadiness × Bool)
unfolding statement find_key update_id meet_source new_readiness
upsert_version_readiness project version source required timeout_hours = do
  r ← statement (λ db.
      upsert_at (find_key project version db.readiness) project version source required
        timeout_hours db)
  pure (r, is_empty r.sources_missing)

abbrev pub is_pending_id : ℕ → VersionReadiness → Bool
is_pending_id id r = r.id == id && is_pending r.status

unfoldable pub any_pending : ℕ → List VersionReadiness → Bool
any_pending id [] = false
any_pending id (r ∷ rs) = is_pending_id id r || any_pending id rs

abbrev pub opened : Status → ℕ → VersionReadiness → VersionReadiness
opened status now r =
    if is_pending r.status
    then record r { status = status; opened_at = some now; updated_at = now }
    else r

unfoldable pub open_gate : ℕ → Status → Exec Db Bool
unfolding statement any_pending update_id
open_gate id status = statement (λ db. (
  any_pending id db.readiness,
  record db { readiness = update_id id (opened status db.now) db.readiness },
))

unfoldable pub mark_agent_triggered : ℕ → Exec Db (Unit {0})
unfolding statement update_id
mark_agent_triggered id = statement (λ db. (
  tt,
  record db {
    readiness =
        update_id id (λ r. record r { agent_triggered = true; updated_at = db.now }) db.readiness;
  },
))

unfoldable pub update_nl_rule_passed : ℕ → Bool → Exec Db (Unit {0})
unfolding statement update_id
update_nl_rule_passed id passed = statement (λ db. (
  tt,
  record db {
    readiness =
        update_id id (λ r. record r { nl_rule_passed = some passed; updated_at = db.now })
          db.readiness;
  },
))

unfoldable pub record_gate_event :
    ℕ → ℕ → Bytes → EventType → Option ℕ → Details → Exec Db (Unit {0})
unfolding statement
record_gate_event readiness project version event_type source details = statement (λ db. (
  tt,
  record db {
    events =
        record {
          version_readiness_id = readiness;
          project_id = project;
          version = version;
          event_type = event_type;
          source_id = source;
          details = details;
        }
        ∷ db.events;
  },
))

unfoldable pub get_version_readiness : ℕ → Exec Db (Option VersionReadiness)
unfolding query find_id
get_version_readiness id = query (λ db. find_id id db.readiness)

-- `ORDER BY timeout_at ASC`
unfoldable pub insert_by_timeout : VersionReadiness → List VersionReadiness → List VersionReadiness
insert_by_timeout r [] = r ∷ []
insert_by_timeout r (q ∷ qs) =
    let later = insert_by_timeout r qs in
    if leb r.timeout_at q.timeout_at then r ∷ q ∷ qs else q ∷ later

unfoldable pub by_timeout : List VersionReadiness → List VersionReadiness
unfolding insert_by_timeout
by_timeout [] = []
by_timeout (r ∷ rs) = insert_by_timeout r (by_timeout rs)

abbrev pub is_expired : ℕ → VersionReadiness → Bool
is_expired now r = is_pending r.status && ltb r.timeout_at now

unfoldable pub list_expired_gates : ℕ → Exec Db (List VersionReadiness)
unfolding query keep by_timeout
list_expired_gates limit =
    query (λ db. take limit (by_timeout (keep (is_expired db.now) db.readiness)))

-- `UPDATE agent_runs SET … WHERE id = $1`
unfoldable pub update_run : ℕ → (AgentRun → AgentRun) → List AgentRun → List AgentRun
update_run id f [] = []
update_run id f (r ∷ rs) = (if r.id == id then f r else r) ∷ update_run id f rs

-- One transaction: the agent_runs row and the River job that carries its identifier.
unfoldable pub insert_run : ℕ → Trigger → Bytes → Exec Db ℕ
unfolding statement
insert_run project trigger version = statement (λ db. (
  db.next_id,
  record db {
    runs =
        record {
          id = db.next_id;
          project_id = project;
          trigger = trigger;
          version = version;
          status = Models.RunStatus.pending;
          semantic_release_id = none;
          started_at = none;
          completed_at = none;
        }
        ∷ db.runs;
    next_id = db.next_id + 1;
  },
))

unfoldable pub insert_job : Models.Job → Exec Db (Unit {0})
unfolding statement
insert_job job = statement (λ db. (tt, record db { jobs = db.jobs ++ job ∷ [] }))

unfoldable pub enqueue_agent_run : ℕ → Trigger → Bytes → Exec Db (Unit {0})
unfolding transaction insert_run insert_job
enqueue_agent_run project trigger version =
    transaction
      (do run ← insert_run project trigger version; insert_job (agent_run run project version))
