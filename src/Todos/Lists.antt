-- ===== src/Todos/Lists.antt =====
-- ListTodos and GetTodo of internal/api/pgstore.go.
pub mod Partitions
pub mod Newest
use changelogue.Prelude.{
  ℕ, Bool, true, false, ◌&&◌, ◌||◌, not, Option, none, some, List, [], ◌∷◌, Bytes, bytes, leb, ltb,
  ◌==◌, if◌then◌else◌, same, length, is_empty,
}
use changelogue.Exec.{Exec, pure, ◌>>=◌}
use changelogue.Models.{
  Todo, TodoStatus, pending, acknowledged, resolved, Project, Source, Release, SemanticRelease,
}
use changelogue.Db.Rows.{required, or_refuse}
use changelogue.Db.{Db, query}
use changelogue.Pages.{Pagination, window}
use changelogue.Gate.Store.{find_source}
use changelogue.Routing.Store.{find_project, find_release_id}
use changelogue.Releases.{
  Catalog, links, latest_semantic, not_before, not_after, like, provider_of, project_of,
}
use changelogue.Todos.{find_todo, find_semantic}

-- TodoFilter; a project that is no UUID is one that no row has.
pub record TodoFilter : Type 0 where
  pub project_id : Option ℕ
  pub provider : Bytes
  pub urgency : Bytes
  pub date_from : Option ℕ
  pub date_to : Option ℕ

-- A todo with the rows that are joined to it: r, src, p1, sr, rel_sr and p2.
pub record TodoRow : Type 0 where
  pub todo : Todo
  pub release : Option Release
  pub source : Option Source
  pub project : Option Project
  pub semantic : Option SemanticRelease
  pub described_by : Option SemanticRelease
  pub semantic_project : Option Project

abbrev at_id : {A : Type 0} → (ℕ → Option A) → Option ℕ → Option A
at_id find none = none
at_id find (some id) = find id

abbrev source_of : Db → Option Release → Option Source
source_of db none = none
source_of db (some r) = find_source r.source_id db.sources

-- The lateral join: the latest semantic release that a release is linked to.
abbrev described : Db → Option Release → Option SemanticRelease
described db none = none
described db (some r) =
    latest_semantic (λ sr. links sr.id r.id db.semantic_sources) db.semantic_releases

abbrev project_of_semantic : Db → Option SemanticRelease → Option Project
project_of_semantic db none = none
project_of_semantic db (some sr) = find_project sr.project_id db.projects

unfoldable pub todo_row : Db → Todo → TodoRow
unfolding find_release_id find_source find_semantic find_project latest_semantic
todo_row db t =
    let release = at_id (λ id. find_release_id id db.releases) t.release_id in
    let source = source_of db release in
    let semantic = at_id (λ id. find_semantic id db.semantic_releases) t.semantic_release_id in
    record {
      todo = t;
      release = release;
      source = source;
      project = project_of source db.projects;
      semantic = semantic;
      described_by = described db release;
      semantic_project = project_of_semantic db semantic;
    }

unfoldable pub todo_rows : Db → List Todo → List TodoRow
unfolding todo_row
todo_rows db [] = []
todo_rows db (t ∷ ts) = todo_row db t ∷ todo_rows db ts

abbrev pub coalesce : {A : Type 0} → Option A → Option A → Option A
coalesce none b = b
coalesce (some a) b = some a

abbrev date_or : Option ℕ → ℕ → ℕ
date_or none at = at
date_or (some t) at = t

abbrev released_at_of : Option Release → Option ℕ
released_at_of none = none
released_at_of (some r) = r.released_at

abbrev created_at_of : Option SemanticRelease → Option ℕ
created_at_of none = none
created_at_of (some sr) = some sr.created_at

-- `COALESCE(r.released_at, sr.created_at, t.created_at)`
abbrev pub time_of : TodoRow → ℕ
time_of row =
    date_or (coalesce (released_at_of row.release) (created_at_of row.semantic)) row.todo.created_at

abbrev report_urgency : Catalog → Option SemanticRelease → Option Bytes
report_urgency catalog none = none
report_urgency catalog (some sr) = catalog.urgency sr.report

abbrev text_or_empty : Option Bytes → Bytes
text_or_empty none = []
text_or_empty (some text) = text

-- `COALESCE(sr.report->>'urgency', rel_sr.urgency, '')`
abbrev pub urgency_text : Catalog → TodoRow → Bytes
urgency_text catalog row =
    text_or_empty
      (coalesce (report_urgency catalog row.semantic) (report_urgency catalog row.described_by))

abbrev pub status_text : TodoStatus → Bytes
status_text pending = bytes "pending"
status_text acknowledged = bytes "acknowledged"
status_text resolved = bytes "resolved"

abbrev is_set : {A : Type 0} → Option A → Bool
is_set none = false
is_set (some a) = true

abbrev is_project : Option ℕ → Option Project → Bool
is_project none p = true
is_project (some id) none = false
is_project (some id) (some p) = p.id == id

-- The WHERE clause.
unfoldable pub is_admitted : Catalog → Bytes → TodoFilter → TodoRow → Bool
unfolding same
is_admitted catalog status f row =
    (is_empty status || same (status_text row.todo.status) status)
    && (is_set row.todo.release_id
        && (is_project f.project_id (coalesce row.project row.semantic_project)
            && ((is_empty f.provider || same (provider_of row.source) f.provider)
                && ((is_empty f.urgency || catalog.ilike (urgency_text catalog row) f.urgency)
                    && (not_before f.date_from (time_of row)
                        && not_after f.date_to (time_of row))))))

unfoldable pub admitted : (TodoRow → Bool) → List TodoRow → List TodoRow
admitted admits [] = []
admitted admits (row ∷ rows) =
    let rest = admitted admits rows in if admits row then row ∷ rest else rest

-- The partition of a row: the source of its release, or the project of its semantic release.
abbrev source_id_of : Option Release → Option ℕ
source_id_of none = none
source_id_of (some r) = some r.source_id

abbrev project_id_of : Option SemanticRelease → Option ℕ
project_id_of none = none
project_id_of (some sr) = some sr.project_id

abbrev pub partition_of : TodoRow → Option ℕ
partition_of row =
    if is_set row.todo.release_id then source_id_of row.release else project_id_of row.semantic

abbrev pub same_partition : Option ℕ → Option ℕ → Bool
same_partition none none = true
same_partition none (some b) = false
same_partition (some a) none = false
same_partition (some a) (some b) = a == b

-- Some row has the partition and is newer: `ROW_NUMBER() OVER (PARTITION BY … ORDER BY … DESC)` is
-- past 1. Rows of one time are in any order for PostgreSQL; here the later one comes first.
unfoldable pub is_outdone : TodoRow → List TodoRow → Bool
is_outdone row [] = false
is_outdone row (q ∷ qs) =
    (same_partition (partition_of q) (partition_of row) && leb (time_of row) (time_of q))
    || is_outdone row qs

unfoldable pub drop_older : TodoRow → List TodoRow → List TodoRow
drop_older row [] = []
drop_older row (q ∷ qs) =
    let rest = drop_older row qs in
    if same_partition (partition_of q) (partition_of row) then rest else q ∷ rest

-- `WHERE sub.rn = 1`
unfoldable pub newest_each : List TodoRow → List TodoRow
unfolding is_outdone drop_older
newest_each [] = []
newest_each (row ∷ rows) =
    let rest = newest_each rows in if is_outdone row rest then rest else row ∷ drop_older row rest

-- `ORDER BY released_at DESC`
-- `ORDER BY created_at DESC`. Todos of one time stay in the order of the table; PostgreSQL may put them
-- in another.
unfoldable pub insert_by_time : TodoRow → List TodoRow → List TodoRow
insert_by_time row [] = row ∷ []
insert_by_time row (q ∷ qs) =
    let later = insert_by_time row qs in
    if leb (time_of q) (time_of row) then row ∷ q ∷ qs else q ∷ later

unfoldable pub by_time : List TodoRow → List TodoRow
unfolding insert_by_time
by_time [] = []
by_time (row ∷ rows) = insert_by_time row (by_time rows)

abbrev newest_if : Bool → List TodoRow → List TodoRow
newest_if true rows = newest_each rows
newest_if false rows = rows

unfoldable pub selected_todos : Catalog → Bytes → Bool → TodoFilter → Db → List TodoRow
unfolding todo_rows is_admitted admitted newest_each
selected_todos catalog status aggregated f db =
    newest_if aggregated (admitted (is_admitted catalog status f) (todo_rows db db.todos))

-- ListTodos: the total, then the page.
unfoldable pub list_todos :
    Catalog → Bytes → Pagination → Bool → TodoFilter → Exec Db (List TodoRow × ℕ)
unfolding query selected_todos by_time window
list_todos catalog status p aggregated f = do
  total ← query (λ db. length (selected_todos catalog status aggregated f db))
  page ← query (λ db. window p (by_time (selected_todos catalog status aggregated f db)))
  rows ← or_refuse page
  pure (rows, total)

abbrev row_if : Db → Option Todo → Option TodoRow
row_if db none = none
row_if db (some t) = some (todo_row db t)

-- GetTodo
unfoldable pub get_todo : ℕ → Exec Db TodoRow
unfolding query find_todo todo_row
get_todo id = do row ← query (λ db. row_if db (find_todo id db.todos)); required row
