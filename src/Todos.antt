-- ===== src/Todos.antt =====
-- The todo operations of internal/api/pgstore.go.
pub mod Resolved
pub mod Lists
pub mod Api
use changelogue.Prelude.{
  ℕ, ◌+◌, Bool, true, false, ◌&&◌, ◌||◌, not, Option, none, some, List, [], ◌∷◌, Bytes, leb, ◌==◌,
  if◌then◌else◌,
}
use changelogue.Exec.{Exec, not_found, pure, raise, attempt, ◌>>=◌, ◌>>◌}
use changelogue.Models.{Todo, TodoStatus, pending, acknowledged, resolved, Release, SemanticRelease}
use changelogue.Db.Rows.{or_missing}
use changelogue.Db.{Db, statement}
use changelogue.Routing.Store.{find_release_id, date_of}

unfoldable pub find_todo : ℕ → List Todo → Option Todo
find_todo id [] = none
find_todo id (t ∷ ts) = if t.id == id then some t else find_todo id ts

-- `UPDATE release_todos SET … WHERE …`: `f` is the change where the row is admitted.
unfoldable pub update_where : (Todo → Bool) → (Todo → Todo) → List Todo → List Todo
update_where admits f [] = []
update_where admits f (t ∷ ts) = (if admits t then f t else t) ∷ update_where admits f ts

unfoldable pub find_semantic : ℕ → List SemanticRelease → Option SemanticRelease
find_semantic id [] = none
find_semantic id (r ∷ rs) = if r.id == id then some r else find_semantic id rs

-- r2 is of the source of r1, not newer, and another.
abbrev older_release : Option Release → Option Release → Bool
older_release (some r1) (some r2) =
    r1.source_id == r2.source_id && (leb (date_of r2) (date_of r1) && not (r2.id == r1.id))
older_release (some r1) none = false
older_release none r2 = false

abbrev older_semantic : Option SemanticRelease → Option SemanticRelease → Bool
older_semantic (some s1) (some s2) =
    s1.project_id == s2.project_id && (leb s2.created_at s1.created_at && not (s2.id == s1.id))
older_semantic (some s1) none = false
older_semantic none s2 = false

-- The join of the addressed todo's release `p` with the release `q` of another todo.
abbrev joins_release : Db → Option ℕ → Option ℕ → Bool
joins_release db (some p) (some q) =
    older_release (find_release_id p db.releases) (find_release_id q db.releases)
joins_release db (some p) none = false
joins_release db none q = false

abbrev joins_semantic : Db → Option ℕ → Option ℕ → Bool
joins_semantic db (some p) (some q) =
    older_semantic (find_semantic p db.semantic_releases) (find_semantic q db.semantic_releases)
joins_semantic db (some p) none = false
joins_semantic db none q = false

abbrev is_older_than : Db → Option Todo → Todo → Bool
is_older_than db none t = false
is_older_than db (some t1) t =
    joins_release db t1.release_id t.release_id
    || joins_semantic db t1.semantic_release_id t.semantic_release_id

abbrev pub is_pending : TodoStatus → Bool
is_pending pending = true
is_pending acknowledged = false
is_pending resolved = false

abbrev pub is_open : TodoStatus → Bool
is_open pending = true
is_open acknowledged = true
is_open resolved = false

-- The WHERE clause of a cascade.
unfoldable pub cascades : (TodoStatus → Bool) → ℕ → Db → Todo → Bool
unfolding find_todo find_release_id find_semantic
cascades admits id db t =
    not (t.id == id) && (admits t.status && is_older_than db (find_todo id db.todos) t)

abbrev has_id : ℕ → Todo → Bool
has_id id t = t.id == id

unfoldable pub any_todo : ℕ → List Todo → Bool
any_todo id [] = false
any_todo id (t ∷ ts) = t.id == id || any_todo id ts

unfoldable pub update_todo : ℕ → (ℕ → Todo → Todo) → Exec Db (Unit {0})
unfolding statement update_where any_todo
update_todo id f = do
  affected ← statement (λ db.
      (any_todo id db.todos, record db { todos = update_where (has_id id) (f db.now) db.todos }))
  or_missing affected

-- The error of a cascade is dropped.
unfoldable pub cascade_todos : (TodoStatus → Bool) → ℕ → (ℕ → Todo → Todo) → Exec Db (Unit {0})
unfolding statement update_where cascades
cascade_todos admits id f =
    statement
      (λ db. (tt, record db { todos = update_where (cascades admits id db) (f db.now) db.todos }))

abbrev pub if_cascade : Bool → Exec Db (Unit {0}) → Exec Db (Unit {0})
if_cascade true m = attempt m >>= (λ _. pure tt)
if_cascade false m = pure tt

abbrev pub acknowledge : ℕ → Todo → Todo
acknowledge now t = record t { status = acknowledged; acknowledged_at = some now }

abbrev pub resolve : ℕ → Todo → Todo
resolve now t = record t { status = resolved; resolved_at = some now }

unfoldable pub acknowledge_todo : ℕ → Bool → Exec Db (Unit {0})
unfolding update_todo cascade_todos
acknowledge_todo id cascade = do
  update_todo id acknowledge
  if_cascade cascade (cascade_todos is_pending id acknowledge)

unfoldable pub resolve_todo : ℕ → Bool → Exec Db (Unit {0})
unfolding update_todo cascade_todos
resolve_todo id cascade = do
  update_todo id resolve
  if_cascade cascade (cascade_todos is_open id resolve)

unfoldable pub reopen_todo : ℕ → Exec Db (Unit {0})
unfolding update_todo
reopen_todo id =
    update_todo id
      (λ now t. record t { status = pending; acknowledged_at = none; resolved_at = none })
