-- ===== src/Ingestion/Store.antt =====
-- internal/ingestion/pgstore.go.
use changelogue.Prelude.{
  ℕ, ◌+◌, Bool, true, false, ◌&&◌, ◌||◌, not, Option, none, some, List, [], ◌∷◌, Bytes, bytes, ◌==◌,
  if◌then◌else◌, same, keep, is_empty,
}
use changelogue.Exec.{Exec, pure, ◌>>=◌, ◌>>◌}
use changelogue.Models.{Source, Release, StringMap, notify_release, gate_check}
use changelogue.Db.{Db, statement, query, transaction}
use changelogue.Gate.Store.{insert_job}

pub record IngestionResult : Type 0 where
  pub repository : Bytes
  pub raw_version : Bytes
  pub changelog : Bytes
  pub metadata : StringMap
  pub timestamp : ℕ

pub data IngestResult : Type 0 where
  ingest_new ingest_updated ingest_skipped : IngestResult

-- `m[key]` and `m[key] = v` on a map of strings.
unfoldable pub lookup : Bytes → StringMap → Option Bytes
lookup key [] = none
lookup key ((k, v) ∷ m) = if same k key then some v else lookup key m

unfoldable pub insert : Bytes → Bytes → StringMap → StringMap
insert key v [] = (key, v) ∷ []
insert key v ((k, w) ∷ m) = if same k key then (key, v) ∷ m else (k, w) ∷ insert key v m

abbrev pub changelog_key : Bytes
changelog_key = bytes "changelog"

-- raw_data: the metadata, and the changelog unless it is empty.
unfoldable pub raw_data : IngestionResult → StringMap
raw_data r =
    if is_empty r.changelog then r.metadata else insert changelog_key r.changelog r.metadata

abbrev pub is_release : ℕ → Bytes → Release → Bool
is_release source version r = r.source_id == source && same r.version version

unfoldable pub find_release : ℕ → Bytes → List Release → Option Release
find_release source version [] = none
find_release source version (r ∷ rs) =
    if is_release source version r then some r else find_release source version rs

-- `UPDATE releases SET raw_data = $1, released_at = $2 WHERE id = $3`
unfoldable pub update_release : ℕ → StringMap → ℕ → List Release → List Release
update_release id raw released [] = []
update_release id raw released (r ∷ rs) =
    (if r.id == id then record r { raw_data = raw; released_at = some released } else r)
    ∷ update_release id raw released rs

unfoldable pub insert_release : ℕ → IngestionResult → Exec Db ℕ
unfolding statement raw_data
insert_release source r = statement (λ db. (
  db.next_id,
  record db {
    releases =
        record {
          id = db.next_id;
          source_id = source;
          version = r.raw_version;
          raw_data = raw_data r;
          released_at = some r.timestamp;
          created_at = db.now;
        }
        ∷ db.releases;
    next_id = db.next_id + 1;
  },
))

unfoldable pub set_release : ℕ → IngestionResult → Exec Db (Unit {0})
unfolding statement raw_data update_release
set_release id r =
    statement
      (λ db. (tt, record db { releases = update_release id (raw_data r) r.timestamp db.releases }))

-- Whether the changelog was added or changed, against `raw_data->>'changelog'` of the old row.
abbrev pub differs : Option Bytes → Bytes → Bool
differs none changelog = true
differs (some old) changelog = is_empty old || not (same old changelog)

unfoldable pub changelog_added : Release → IngestionResult → Bool
unfolding lookup
changelog_added old r =
    not (is_empty r.changelog) && differs (lookup changelog_key old.raw_data) r.changelog

-- A new release: its row, the notification and the gate check.
unfoldable pub ingest_new_release : ℕ → IngestionResult → Exec Db IngestResult
ingest_new_release source r = do
  release ← insert_release source r
  insert_job (notify_release release source false)
  insert_job (gate_check source release r.raw_version)
  pure ingest_new

-- A release that is there: its row, and a notification if the changelog was added or changed.
unfoldable pub ingest_old_release : ℕ → Release → IngestionResult → Bool → Exec Db IngestResult
ingest_old_release source old r false = do set_release old.id r; pure ingest_skipped
ingest_old_release source old r true = do
  set_release old.id r
  insert_job (notify_release old.id source true)
  pure ingest_updated

unfoldable pub ingest_found : ℕ → IngestionResult → Option Release → Exec Db IngestResult
ingest_found source r none = ingest_new_release source r
ingest_found source r (some old) = ingest_old_release source old r (changelog_added old r)

-- IngestRelease. The error of its SELECT is dropped in the code; a failed statement aborts the
-- transaction, so that the INSERT that follows fails: here the SELECT itself does.
unfoldable pub ingest_release : ℕ → IngestionResult → Exec Db IngestResult
unfolding transaction query find_release
ingest_release source r = transaction (do
  found ← query (λ db. find_release source r.raw_version db.releases)
  ingest_found source r found)

-- ListEnabledSources
unfoldable pub list_enabled_sources : Exec Db (List Source)
unfolding query keep
list_enabled_sources = query (λ db. keep (λ s. s.enabled) db.sources)

unfoldable pub set_polled : ℕ → Bool → ℕ → List Source → List Source
set_polled id failed now [] = []
set_polled id failed now (s ∷ ss) =
    (if s.id == id then record s { last_polled_at = some now; last_error = failed } else s)
    ∷ set_polled id failed now ss

-- UpdateSourcePollStatus
unfoldable pub update_source_poll_status : ℕ → Bool → Exec Db (Unit {0})
unfolding statement set_polled
update_source_poll_status id failed =
    statement (λ db. (tt, record db { sources = set_polled id failed db.now db.sources }))
