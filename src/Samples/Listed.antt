-- ===== src/Samples/Listed.antt =====
-- Pages and lists of the releases of Samples.Notified.
use changelogue.Prelude.{
  false, ◌≡◌, refl, true, none, some, List, [], ◌∷◌, bytes, length, leb, if◌then◌else◌,
}
use changelogue.Models.{Source}
use changelogue.Routing.Rules.{Matcher}
use changelogue.Routing.Store.{join, date_of}
use changelogue.Routing.Notify.{is_wanted}
use changelogue.Releases.{Catalog, Row, passes, rows_of}
use changelogue.Releases.Wanted.{missing, valid, passes-is_wanted}
use changelogue.Todos.Lists.{
  TodoFilter, TodoRow, is_admitted, admitted, todo_row, todo_rows, newest_each, selected_todos,
}
use changelogue.Samples.Notified.{watched, release, stored}

-- Texts that start with the byte after "^" match.
abbrev starts_with : Matcher
starts_with pattern text = some true

abbrev filtered : Source
filtered = record watched { version_filter_include = some (bytes "^1") }

passes-is_wanted_example :
    passes starts_with (record { release = release 5 200; source = some filtered; project = none })
    ≡ some (is_wanted starts_with filtered (join (release 5 200) (some filtered) []))
passes-is_wanted_example =
    passes-is_wanted starts_with (release 5 200) filtered [] none (valid b'^' (b'1' ∷ []) true refl)
      missing

-- An order by date, with rows of one date in the order of the table.
unfoldable insert_by_date : Row → List Row → List Row
insert_by_date row [] = row ∷ []
insert_by_date row (q ∷ qs) =
    let later = insert_by_date row qs in
    if leb (date_of q.release) (date_of row.release) then row ∷ q ∷ qs else q ∷ later

unfoldable pub by_date : List Row → List Row
unfolding insert_by_date
by_date [] = []
by_date (row ∷ rows) = insert_by_date row (by_date rows)

abbrev pub catalog : Catalog
catalog = record {
  matcher = starts_with;
  urgency = λ report. none;
  ilike = λ pattern text. true;
  order = by_date;
}

abbrev rows : List Row
rows = rows_of stored stored.releases

-- Every todo of Samples.Notified, the newest of each source.
abbrev all_todos : TodoFilter
all_todos = record {
  project_id = none;
  provider = [];
  urgency = [];
  date_from = none;
  date_to = none;
}

abbrev matching : List TodoRow
matching = admitted (is_admitted catalog [] all_todos) (todo_rows stored stored.todos)

-- Two todos of one source are one row of the aggregated list.
todos-aggregated : length (selected_todos catalog [] true all_todos stored) ≡ 1
unfolding selected_todos todo_rows is_admitted admitted newest_each todo_row
todos-aggregated = refl

todos-all : length (selected_todos catalog [] false all_todos stored) ≡ 2
unfolding selected_todos todo_rows is_admitted admitted todo_row
todos-all = refl
