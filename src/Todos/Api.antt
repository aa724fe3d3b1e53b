-- ===== src/Todos/Api.antt =====
-- The handlers of internal/api/todos.go, and ParseTodoFilters of internal/api/filters.go.
use changelogue.Prelude.{
  ℕ, ◌+◌, ◌&&◌, not, Option, none, some, List, ◌++◌, Bytes, bytes, is_empty, if◌then◌else◌, same,
}
use changelogue.Exec.{Exec, Result, ok, err, pure, attempt, ◌>>=◌}
use changelogue.Db.{Db}
use changelogue.Pages.{Pagination, parse_pagination}
use changelogue.Releases.{Catalog}
use changelogue.Todos.{acknowledge_todo, resolve_todo, reopen_todo}
use changelogue.Todos.Lists.{TodoFilter, TodoRow, list_todos, get_todo}

-- The query of a request: a parameter that is not given is empty.
pub record TodoQuery : Type 0 where
  pub page : Bytes
  pub per_page : Bytes
  pub status : Bytes
  pub aggregated : Bytes
  pub project : Bytes
  pub provider : Bytes
  pub urgency : Bytes
  pub date_from : Bytes
  pub date_to : Bytes

-- time.Parse of a day, and the row that a text names as its UUID: parameters.
pub record QueryReader : Type 0 where
  pub day : Bytes → Option ℕ
  pub uuid : Bytes → ℕ

-- To the end of the day: `24*time.Hour - time.Nanosecond` after its start, in whole seconds.
abbrev pub end_of_day : Option ℕ → Option ℕ
end_of_day none = none
end_of_day (some t) = some (t + 86399)

-- ParseTodoFilters
unfoldable pub parse_todo_filters : QueryReader → TodoQuery → TodoFilter
parse_todo_filters reader q = record {
  project_id = if is_empty q.project then none else some (reader.uuid q.project);
  provider = q.provider;
  urgency = q.urgency;
  date_from = if is_empty q.date_from then none else reader.day q.date_from;
  date_to = if is_empty q.date_to then none else end_of_day (reader.day q.date_to);
}

pub data TodoReply : Type 0 where
  internal_error not_found : TodoReply
  page_of_todos : List TodoRow → Pagination → ℕ → TodoReply
  one_todo : TodoRow → TodoReply
  redirected : Bytes → TodoReply
  now_is : Bytes → TodoReply

abbrev pub listed_todos : Pagination → Result (List TodoRow × ℕ) → TodoReply
listed_todos p (err e) = internal_error
listed_todos p (ok (rows, total)) = page_of_todos rows p total

-- List
unfoldable pub list : Catalog → QueryReader → TodoQuery → Exec Db TodoReply
unfolding parse_pagination parse_todo_filters list_todos same
list catalog reader q = do
  answer ← attempt (
      list_todos catalog q.status (parse_pagination q.page q.per_page)
        (same q.aggregated (bytes "true")) (parse_todo_filters reader q))
  pure (listed_todos (parse_pagination q.page q.per_page) answer)

abbrev pub todo_or_missing : Result TodoRow → TodoReply
todo_or_missing (err e) = not_found
todo_or_missing (ok row) = one_todo row

-- Get
unfoldable pub get : ℕ → Exec Db TodoReply
unfolding get_todo
get id = do answer ← attempt (get_todo id); pure (todo_or_missing answer)

-- Any error is answered as a todo that is not there.
abbrev pub done_or_missing : TodoReply → Result (Unit {0}) → TodoReply
done_or_missing reply (err e) = not_found
done_or_missing reply (ok u) = reply

-- To the page of todos where that is asked for and the public URL is set.
abbrev pub moved_or : Bytes → Bytes → TodoReply → TodoReply
moved_or public_url redirect reply =
    if same redirect (bytes "true") && not (is_empty public_url)
    then redirected (public_url ++ bytes "/todo")
    else reply

-- Acknowledge, with the parameters `cascade` and `redirect`.
unfoldable pub acknowledge : Bytes → ℕ → Bytes → Bytes → Exec Db TodoReply
unfolding acknowledge_todo same
acknowledge public_url id cascade redirect = do
  answer ← attempt (acknowledge_todo id (same cascade (bytes "true")))
  pure (done_or_missing (moved_or public_url redirect (now_is (bytes "acknowledged"))) answer)

-- Resolve
unfoldable pub resolve : Bytes → ℕ → Bytes → Bytes → Exec Db TodoReply
unfolding resolve_todo same
resolve public_url id cascade redirect = do
  answer ← attempt (resolve_todo id (same cascade (bytes "true")))
  pure (done_or_missing (moved_or public_url redirect (now_is (bytes "resolved"))) answer)

-- Reopen
unfoldable pub reopen : ℕ → Exec Db TodoReply
unfolding reopen_todo
reopen id = do
  answer ← attempt (reopen_todo id)
  pure (done_or_missing (now_is (bytes "pending")) answer)
