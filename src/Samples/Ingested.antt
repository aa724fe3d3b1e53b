-- ===== src/Samples/Ingested.antt =====
-- A release that a source reports, on a database in which it is new, with faults ahead.
use changelogue.Prelude.{◌≡◌, false, [], ◌∷◌}
use changelogue.Exec.{ok, refused, served, unacked}
use changelogue.Db.{Db}
use changelogue.Models.{notify_release, gate_check}
use changelogue.Ingestion.Store.{
  IngestionResult, ingest_new, ingest_skipped, ingest_release, find_release,
}
use changelogue.Ingestion.Atomic.{calm, IsAtomic, ingest_release-IsAtomic}
use changelogue.Ingestion.Jobs.{ingest_release_jobs, ingest_release_again}

abbrev empty_db : Db
empty_db = record {
  projects = [];
  sources = [];
  releases = [];
  gates = [];
  readiness = [];
  events = [];
  runs = [];
  jobs = notify_release 5 2 false ∷ [];
  todos = [];
  channels = [];
  subscriptions = [];
  semantic_releases = [];
  semantic_sources = [];
  users = [];
  sessions = [];
  scans = [];
  scan_jobs = [];
  sent = [];
  now = 1000;
  next_id = 10;
  faults = served ∷ served ∷ refused ∷ unacked ∷ [];
}

abbrev result : IngestionResult
result = record {
  repository = b'r' ∷ [];
  raw_version = b'v' ∷ b'2' ∷ [];
  changelog = b'f' ∷ b'x' ∷ [];
  metadata = [];
  timestamp = 990;
}

ingest_release-IsAtomic_example : IsAtomic (ingest_release 2 result) empty_db
ingest_release-IsAtomic_example = ingest_release-IsAtomic 2 result empty_db

ingest_release_jobs_example :
    ((ingest_release 2 result (calm empty_db)).0 ≡ ok ingest_new)
    × ((ingest_release 2 result (calm empty_db)).1.jobs ≡ (
        notify_release 5 2 false
        ∷ notify_release 10 2 false
        ∷ gate_check 2 10 (b'v' ∷ b'2' ∷ [])
        ∷ []))
unfolding find_release
ingest_release_jobs_example = ingest_release_jobs 2 result empty_db

ingest_release_again_example :
    let once = (ingest_release 2 result (calm empty_db)).1 in
    ((ingest_release 2 result (calm once)).0 ≡ ok ingest_skipped)
    × ((ingest_release 2 result (calm once)).1.jobs ≡ once.jobs)
ingest_release_again_example = ingest_release_again 2 result empty_db
