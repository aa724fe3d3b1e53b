-- ===== src/Gate/Admin/Upserts.antt =====
-- UpsertGate of internal/api/gates.go, on every state of the gate's row.
use mathlib.Core.Path.{subst}
use changelogue.Prelude.{
  ℕ, ◌+◌, ◌≡◌, refl, sym, ap, Option, none, some, List, [], ◌∷◌, Bytes, ◌==◌, if◌then◌else◌,
  Bool-cases, inl, inr, ==_refl,
}
use changelogue.Exec.{Result, ok}
use changelogue.Models.{Project, ReleaseGate}
use changelogue.Db.{Db, GateRow, statement, query}
use changelogue.Db.Rows.{required, or_refuse}
use changelogue.Ingestion.Atomic.{calm}
use changelogue.Gate.Store.{find_gate, scan_gate, get_release_gate}
use changelogue.Routing.Store.{find_project}
use changelogue.Gate.Admin.{
  row_of, create_at, create_release_gate, write_gate, id_of, update_release_gate, GateReply,
  internal_error, served, shown, saved, with_existing, upsert_gate,
}

-- What a PUT leaves and answers, by the row that was there.
abbrev ByRule : ReleaseGate → Db → GateRow → Option Bytes → Result GateReply × Db → Type 0
ByRule g db row none x = (x.0 ≡ ok internal_error) × (x.1 ≡ calm db)
ByRule g db row (some rule) x =
    (x.0 ≡ ok (served (record g { id = row.id })))
    × (find_gate g.project_id x.1.gates ≡ some (row_of row.id g))

abbrev pub Upserted : ReleaseGate → Db → Option GateRow → Result GateReply × Db → Type 0
Upserted g db none x =
    (x.0 ≡ ok (served (record g { id = db.next_id })))
    × (find_gate g.project_id x.1.gates ≡ some (row_of db.next_id g))
Upserted g db (some row) x = ByRule g db row row.nl_rule x

find_gate-write :
    (g : ReleaseGate) (rows : List GateRow) (row : GateRow)
    → find_gate g.project_id rows ≡ some row
    → find_gate g.project_id (write_gate g rows) ≡ some (row_of row.id g)
unfolding find_gate write_gate
find_gate-write g [] row e = cc
find_gate-write g (r ∷ rs) row e = elim (Bool-cases (r.project_id == g.project_id)) [
  | inl hit ↦
      let same : r ≡ row = cc (rw (hit) at e) in
      rw (hit, ==_refl g.project_id) (ap (λ (q : GateRow). some (row_of q.id g)) same)
  | inr miss ↦ rw (miss, miss) (find_gate-write g rs row (rw (miss) at e))
]

-- A gate that was written is read back.
read_back :
    (g : ReleaseGate) (id : ℕ) (d : Db)
    → find_gate g.project_id d.gates ≡ some (row_of id g)
    → (saved g (ok id) (calm d)) ≡ (ok (served (record g { id = id })), calm d)
unfolding get_release_gate query
read_back g id d e =
    ap
      (λ (o : Option GateRow).
        let x : Result (Option ReleaseGate) × Db = scan_gate o (calm d) in
        shown internal_error x.0 x.1)
      e

abbrev by_create : ReleaseGate → Option Project → Option GateRow → Db → Result GateReply × Db
by_create g o old db =
    let x : Option ℕ × Db = create_at o old g (calm db) in
    let y : Result ℕ × Db = or_refuse x.0 x.1 in saved g y.0 y.1

by_create-Upserted :
    (g : ReleaseGate) (p : Project) (db : Db) → Upserted g db none (by_create g (some p) none db)
unfolding find_gate
by_create-Upserted g p db =
    let d : Db = record db { gates = row_of db.next_id g ∷ db.gates; next_id = db.next_id + 1 } in
    let found : find_gate g.project_id d.gates ≡ some (row_of db.next_id g) =
      ap (λ b. if b then some (row_of db.next_id g) else find_gate g.project_id db.gates)
        (==_refl g.project_id) in
    subst (Upserted g db none) (sym (read_back g db.next_id d found)) (refl, found)

abbrev by_update : ReleaseGate → Option GateRow → Db → Result GateReply × Db
by_update g old db =
    let y : Result ℕ × Db =
      required (id_of old) (record (calm db) { gates = write_gate g db.gates }) in
    saved g y.0 y.1

by_update-Upserted :
    (g : ReleaseGate) (row : GateRow) (rule : Bytes) (db : Db)
    → find_gate g.project_id db.gates ≡ some row
    → ByRule g db row (some rule) (by_update g (some row) db)
by_update-Upserted g row rule db e =
    let d : Db = record db { gates = write_gate g db.gates } in
    let found = find_gate-write g db.gates row e in
    subst (ByRule g db row (some rule)) (sym (read_back g row.id d found)) (refl, found)

abbrev after_scan : ReleaseGate → Option GateRow → Db → Result GateReply × Db
after_scan g seen db =
    let x : Result (Option ReleaseGate) × Db = scan_gate seen (calm db) in with_existing g x.0 x.1

none-Upserted :
    (g : ReleaseGate) (p : Project) (db : Db)
    → find_project g.project_id db.projects ≡ some p
    → find_gate g.project_id db.gates ≡ none
    → Upserted g db none (after_scan g none db)
unfolding create_release_gate statement
none-Upserted g p db ep eo =
    subst
      (λ (q : Option Project).
        Upserted g db none (by_create g q (find_gate g.project_id db.gates) db))
      (sym ep)
      (subst (λ (o : Option GateRow). Upserted g db none (by_create g (some p) o db)) (sym eo)
        (by_create-Upserted g p db))

some-ByRule :
    (g : ReleaseGate) (row : GateRow) (rule : Option Bytes) (db : Db)
    → find_gate g.project_id db.gates ≡ some row
    → ByRule g db row rule (after_scan g (some (record row { nl_rule = rule })) db)
unfolding update_release_gate statement
some-ByRule g row none db e = (refl, refl)
some-ByRule g row (some rule) db e =
    subst (λ (o : Option GateRow). ByRule g db row (some rule) (by_update g o db)) (sym e)
      (by_update-Upserted g row rule db e)

after_scan-Upserted :
    (g : ReleaseGate) (p : Project) (o : Option GateRow) (db : Db)
    → find_project g.project_id db.projects ≡ some p
    → find_gate g.project_id db.gates ≡ o
    → Upserted g db o (after_scan g o db)
after_scan-Upserted g p none db ep eo = none-Upserted g p db ep eo
after_scan-Upserted g p (some row) db ep eo = some-ByRule g row row.nl_rule db eo

-- Without faults, on a project that exists, PUT answers the gate it was given under the key of the
-- row, and stores it as the gate of the project: in a new row where there was none, in the old row
-- otherwise. A row whose rule is NULL is the exception: the answer is internal_error and nothing
-- changes.
pub upsert_gate-Upserted :
    (project : ℕ) (body : ReleaseGate) (p : Project) (o : Option GateRow) (db : Db)
    → find_project project db.projects ≡ some p
    → find_gate project db.gates ≡ o
    → Upserted
        (record body { project_id = project })
        db
        o
        (upsert_gate (some project) (some body) (calm db))
unfolding upsert_gate get_release_gate query
upsert_gate-Upserted project body p o db ep eo =
    let g : ReleaseGate = record body { project_id = project } in
    subst (λ (seen : Option GateRow). Upserted g db o (after_scan g seen db)) (sym eo)
      (after_scan-Upserted g p o db ep eo)
