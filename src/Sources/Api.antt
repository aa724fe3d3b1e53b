-- ===== src/Sources/Api.antt =====
-- The handlers of internal/api/sources.go, but for the two lists. Identifiers in paths are read.
use changelogue.Prelude.{
  ℕ, ◌+◌, Bool, true, false, ◌||◌, Option, none, some, List, [], ◌∷◌, Bytes, is_empty,
  if◌then◌else◌,
}
use changelogue.Exec.{Exec, Result, ok, err, pure, attempt, ◌>>=◌, ◌>>◌}
use changelogue.Text.{trim_space}
use changelogue.Models.{Source}
use changelogue.Db.{Db}
use changelogue.Routing.Store.{get_source}
use changelogue.Ingestion.Store.{IngestionResult, update_source_poll_status}
use changelogue.Ingestion.Service.{Fetch, is_supported, process_results}
use changelogue.Onboard.Store.{Width}
use changelogue.Sources.{create_source, update_source, delete_source}

-- The body of a request, with the zero values of Go for what it leaves out, but for the two fields
-- whose absence is looked at.
pub record SourceInput : Type 0 where
  pub provider : Bytes
  pub repository : Bytes
  pub poll_interval_seconds : ℕ
  pub enabled : Bool
  pub version_filter_include : Option Bytes
  pub version_filter_exclude : Option Bytes
  pub exclude_prereleases : Option Bool
  pub releases_only : Option Bool

-- A created or updated source is polled at once, beside the answer.
pub data SourceReply : Type 0 where
  bad_request validation_error not_found internal_error no_content : SourceReply
  unsupported_provider upstream_error : SourceReply
  created found updated : Source → SourceReply
  new_releases : ℕ → SourceReply

abbrev pub flag_or : Bool → Option Bool → Bool
flag_or b none = b
flag_or b (some c) = c

-- A new source leaves prereleases out and looks at releases only (applySourceDefaults); where a
-- source is updated, what is left out is false.
unfoldable pub source_from : Bool → ℕ → ℕ → SourceInput → Source
unfolding trim_space
source_from default id project input = record {
  id = id;
  project_id = project;
  provider = trim_space input.provider;
  repository = trim_space input.repository;
  poll_interval_seconds = input.poll_interval_seconds;
  enabled = input.enabled;
  version_filter_include = input.version_filter_include;
  version_filter_exclude = input.version_filter_exclude;
  exclude_prereleases = flag_or default input.exclude_prereleases;
  releases_only = flag_or default input.releases_only;
  last_polled_at = none;
  last_error = false;
}

abbrev pub lacks_text : Source → Bool
lacks_text s = is_empty s.provider || is_empty s.repository

-- Each result on its own; what cannot be stored is passed over.
unfoldable pub process_each : ℕ → List IngestionResult → Exec Db ℕ
unfolding process_results
process_each source [] = pure 0
process_each source (r ∷ rs) = do
  answer ← attempt (process_results source (r ∷ []))
  n ← process_each source rs
  pure (elim answer [ err e ↦ n | ok u ↦ n + 1 ])

abbrev pub polled_async : ℕ → Result (List IngestionResult) → Exec Db (Unit {0})
polled_async source (err e) = do _ ← attempt (update_source_poll_status source true); pure tt
polled_async source (ok results) = do
  _ ← attempt (update_source_poll_status source false)
  _ ← process_each source results
  pure tt

-- pollSourceAsync
unfoldable pub poll_source_async : Fetch → Source → Exec Db (Unit {0})
unfolding is_supported process_each update_source_poll_status
poll_source_async fetch s = if is_supported s then polled_async s.id (fetch s) else pure tt

abbrev polled_if_created : Fetch → Result Source → Exec Db SourceReply
polled_if_created fetch (err e) = pure internal_error
polled_if_created fetch (ok s) = poll_source_async fetch s >> pure (created s)

-- Create. The poll stands before the answer here; the code does not wait for it.
unfoldable pub create_in : Width → Fetch → ℕ → Option SourceInput → Exec Db SourceReply
unfolding source_from create_source poll_source_async
create_in fits fetch project none = pure bad_request
create_in fits fetch project (some input) =
    let s = source_from true 0 project input in
    if lacks_text s
    then pure validation_error
    else (do answer ← attempt (create_source fits s); polled_if_created fetch answer)

abbrev found_or : Result Source → SourceReply
found_or (err e) = not_found
found_or (ok s) = found s

-- Get
unfoldable pub get_by_id : ℕ → Exec Db SourceReply
unfolding get_source
get_by_id id = do answer ← attempt (get_source id); pure (found_or answer)

abbrev after_change : Fetch → Source → Result (Unit {0}) → Exec Db SourceReply
after_change fetch s (err e) = pure not_found
after_change fetch s (ok u) = poll_source_async fetch s >> pure (updated s)

-- Update; the project of the answer is the one of the body, which the code does not look at.
unfoldable pub update_by_id : Width → Fetch → ℕ → ℕ → Option SourceInput → Exec Db SourceReply
unfolding source_from update_source poll_source_async
update_by_id fits fetch id project none = pure bad_request
update_by_id fits fetch id project (some input) =
    let s = source_from false id project input in
    if lacks_text s
    then pure validation_error
    else (do answer ← attempt (update_source fits id s); after_change fetch s answer)

abbrev deleted_or : Result (Unit {0}) → SourceReply
deleted_or (err e) = not_found
deleted_or (ok u) = no_content

-- Delete
unfoldable pub delete_by_id : ℕ → Exec Db SourceReply
unfolding delete_source
delete_by_id id = do answer ← attempt (delete_source id); pure (deleted_or answer)

abbrev after_upstream : ℕ → Result (List IngestionResult) → Exec Db SourceReply
after_upstream source (err e) = do
  _ ← attempt (update_source_poll_status source true)
  pure upstream_error
after_upstream source (ok results) = do
  _ ← attempt (update_source_poll_status source false)
  n ← process_each source results
  pure (new_releases n)

abbrev fetch_found : Fetch → Result Source → Exec Db SourceReply
fetch_found fetch (err e) = pure not_found
fetch_found fetch (ok s) =
    if is_supported s then after_upstream s.id (fetch s) else pure unsupported_provider

-- FetchReleases
unfoldable pub fetch_by_id : Fetch → ℕ → Exec Db SourceReply
unfolding get_source is_supported process_each update_source_poll_status
fetch_by_id fetch id = do answer ← attempt (get_source id); fetch_found fetch answer
