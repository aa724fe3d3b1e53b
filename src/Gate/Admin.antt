-- ===== src/Gate/Admin.antt =====
-- The gate of a project through the API: internal/api/gates.go, and the operations of
-- internal/api/pgstore.go behind it.
pub mod Upserts
use changelogue.Prelude.{
  ℕ, ◌+◌, Bool, true, false, not, Option, none, some, List, [], ◌∷◌, ◌==◌, if◌then◌else◌, keep,
}
use changelogue.Exec.{Exec, Result, ok, err, pure, attempt, ◌>>=◌}
use changelogue.Models.{Project, ReleaseGate}
use changelogue.Db.{Db, GateRow, statement}
use changelogue.Db.Rows.{required, or_missing, or_refuse}
use changelogue.Gate.Store.{find_gate, get_release_gate}
use changelogue.Routing.Store.{find_project}

-- The row that a gate is written to.
abbrev pub row_of : ℕ → ReleaseGate → GateRow
row_of id g = record {
  id = id;
  project_id = g.project_id;
  required_sources = g.required_sources;
  timeout_hours = g.timeout_hours;
  version_mapping = g.version_mapping;
  nl_rule = some g.nl_rule;
  enabled = g.enabled;
}

-- The key of the table and its reference to a project.
abbrev pub create_at : Option Project → Option GateRow → ReleaseGate → Db → Option ℕ × Db
create_at none old g db = (none, db)
create_at (some p) (some old) g db = (none, db)
create_at (some p) none g db = (
  some db.next_id,
  record db { gates = row_of db.next_id g ∷ db.gates; next_id = db.next_id + 1 },
)

unfoldable pub create_release_gate : ReleaseGate → Exec Db ℕ
unfolding statement find_project find_gate
create_release_gate g = do
  id ← statement (λ db.
      create_at (find_project g.project_id db.projects) (find_gate g.project_id db.gates) g db)
  or_refuse id

unfoldable pub write_gate : ReleaseGate → List GateRow → List GateRow
write_gate g [] = []
write_gate g (r ∷ rs) =
    (if r.project_id == g.project_id then row_of r.id g else r) ∷ write_gate g rs

abbrev pub id_of : Option GateRow → Option ℕ
id_of none = none
id_of (some r) = some r.id

unfoldable pub update_release_gate : ReleaseGate → Exec Db ℕ
unfolding statement find_gate write_gate
update_release_gate g = do
  id ←
      statement (λ db.
        (id_of (find_gate g.project_id db.gates), record db { gates = write_gate g db.gates }))
  required id

abbrev has_row {ℓ} : {A : Type ℓ} → Option A → Bool
has_row none = false
has_row (some a) = true

unfoldable pub delete_release_gate : ℕ → Exec Db (Unit {0})
unfolding statement find_gate keep
delete_release_gate project = do
  affected ← statement (λ db. (
    has_row (find_gate project db.gates),
    record db { gates = keep (λ r. not (r.project_id == project)) db.gates },
  ))
  or_missing affected

-- What the handlers answer.
pub data GateReply : Type 0 where
  bad_request not_found internal_error no_content : GateReply
  served : ReleaseGate → GateReply

abbrev pub shown : GateReply → Result (Option ReleaseGate) → Exec Db GateReply
shown failure (err e) = pure failure
shown failure (ok none) = pure failure
shown failure (ok (some g)) = pure (served g)

-- GetGate; no project is an empty path value.
unfoldable pub get_gate : Option ℕ → Exec Db GateReply
unfolding get_release_gate
get_gate none = pure bad_request
get_gate (some project) = attempt (get_release_gate project) >>= shown not_found

abbrev pub saved : ReleaseGate → Result ℕ → Exec Db GateReply
saved g (err e) = pure internal_error
saved g (ok id) = attempt (get_release_gate g.project_id) >>= shown internal_error

abbrev pub with_existing : ReleaseGate → Result (Option ReleaseGate) → Exec Db GateReply
with_existing g (err e) = pure internal_error
with_existing g (ok (some old)) = attempt (update_release_gate g) >>= saved g
with_existing g (ok none) = attempt (create_release_gate g) >>= saved g

-- UpsertGate; no gate is a body that does not decode.
unfoldable pub upsert_gate : Option ℕ → Option ReleaseGate → Exec Db GateReply
unfolding get_release_gate update_release_gate create_release_gate
upsert_gate none body = pure bad_request
upsert_gate (some project) none = pure bad_request
upsert_gate (some project) (some g) =
    attempt (get_release_gate project) >>= with_existing (record g { project_id = project })

abbrev deleted : Result (Unit {0}) → Exec Db GateReply
deleted (err e) = pure not_found
deleted (ok _) = pure no_content

-- DeleteGate
unfoldable pub delete_gate : Option ℕ → Exec Db GateReply
unfolding delete_release_gate
delete_gate none = pure bad_request
delete_gate (some project) = attempt (delete_release_gate project) >>= deleted
