-- ===== src/Sources.antt =====
-- The operations of internal/api/pgstore.go that write sources.
pub mod Api
use changelogue.Prelude.{
  ℕ, ◌+◌, Bool, true, false, ◌&&◌, ◌||◌, not, Option, none, some, List, [], ◌∷◌, Bytes, leb, ◌==◌,
  if◌then◌else◌, keep, same,
}
use changelogue.Exec.{Exec, pure, ◌>>=◌}
use changelogue.Models.{Project, Source}
use changelogue.Db.{Db, statement}
use changelogue.Db.Rows.{required, or_missing, or_refuse}
use changelogue.Gate.Store.{find_source}
use changelogue.Routing.Store.{find_project}
use changelogue.Onboard.Store.{Width, is_watching, watched}

-- The widths of the columns; the interval is an INTEGER. A negative interval is left out.
abbrev pub fits_columns : Width → Source → Bool
fits_columns fits s =
    fits 50 s.provider && (fits 255 s.repository && leb s.poll_interval_seconds 2147483647)

abbrev insert_under : Option Project → Source → Db → Option Source × Db
insert_under none s db = (none, db)
insert_under (some p) s db = (
  some (record s { id = db.next_id }),
  record db {
    sources = record s { id = db.next_id; last_polled_at = none; last_error = false } ∷ db.sources;
    next_id = db.next_id + 1;
  },
)

abbrev insert_allowed : Bool → Source → Db → Option Source × Db
insert_allowed false s db = (none, db)
insert_allowed true s db = insert_under (find_project s.project_id db.projects) s db

-- CreateSource; the caller's source with its identifier is the result.
unfoldable pub create_source : Width → Source → Exec Db Source
unfolding statement watched find_project
create_source fits s = do
  row ← statement (λ db.
      insert_allowed (fits_columns fits s && not (watched s.provider s.repository db.sources)) s db)
  or_refuse row

-- Another row has the provider and the repository.
unfoldable pub is_taken : ℕ → Source → List Source → Bool
unfolding same
is_taken id s [] = false
is_taken id s (t ∷ ts) =
    (not (t.id == id) && is_watching s.provider s.repository t) || is_taken id s ts

abbrev changed : Source → Source → Source
changed s old = record old {
  provider = s.provider;
  repository = s.repository;
  poll_interval_seconds = s.poll_interval_seconds;
  enabled = s.enabled;
  version_filter_include = s.version_filter_include;
  version_filter_exclude = s.version_filter_exclude;
  exclude_prereleases = s.exclude_prereleases;
  releases_only = s.releases_only;
}

unfoldable pub change_source : ℕ → Source → List Source → List Source
change_source id s [] = []
change_source id s (t ∷ ts) = (if t.id == id then changed s t else t) ∷ change_source id s ts

-- No row is an error of its own, as is a row that the constraints refuse.
abbrev update_found : Option Source → Bool → ℕ → Source → Db → Option (Option Source) × Db
update_found none allowed id s db = (some none, db)
update_found (some old) false id s db = (none, db)
update_found (some old) true id s db =
    (some (some old), record db { sources = change_source id s db.sources })

-- UpdateSource
unfoldable pub update_source : Width → ℕ → Source → Exec Db (Unit {0})
unfolding statement find_source is_taken change_source
update_source fits id s = do
  answer ← statement (λ db.
      update_found (find_source id db.sources)
        (fits_columns fits s && not (is_taken id s db.sources)) id s db)
  row ← or_refuse answer
  _ ← required row
  pure tt

abbrev is_row : Option Source → Bool
is_row none = false
is_row (some s) = true

-- DeleteSource
unfoldable pub delete_source : ℕ → Exec Db (Unit {0})
unfolding statement find_source keep
delete_source id = do
  affected ← statement (λ db. (
    is_row (find_source id db.sources),
    record db { sources = keep (λ s. not (s.id == id)) db.sources },
  ))
  or_missing affected
