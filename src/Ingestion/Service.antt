-- ===== src/Ingestion/Service.antt =====
-- internal/ingestion/service.go, orchestrator.go and loader.go: one polling round.
use changelogue.Prelude.{
  ℕ, ◌+◌, Bool, true, false, ◌||◌, not, none, some, List, [], ◌∷◌, Bytes, bytes, ltb, if◌then◌else◌,
  same,
}
use changelogue.Exec.{Exec, Result, ok, err, pure, gets, attempt, ◌>>=◌, ◌>>◌}
use changelogue.Models.{Source}
use changelogue.Db.{Db}
use changelogue.Ingestion.Store.{
  IngestionResult, ingest_release, list_enabled_sources, update_source_poll_status,
}

-- ProcessResults: the first error ends the loop.
unfoldable pub process_results : ℕ → List IngestionResult → Exec Db (Unit {0})
process_results source [] = pure tt
process_results source (r ∷ rs) = do _ ← ingest_release source r; process_results source rs

-- What a source's FetchNewReleases returns: the upstream registry is a parameter.
abbrev pub Fetch : Type 0
Fetch = Source → Result (List IngestionResult)

-- The providers of BuildSourceWithTokenProvider; for any other it returns nil.
abbrev pub is_one_of : Bytes → List Bytes → Bool
is_one_of s [] = false
is_one_of s (t ∷ ts) = same s t || is_one_of s ts

abbrev pub providers : List Bytes
providers =
    bytes "dockerhub"
    ∷ bytes "github"
    ∷ bytes "ecr-public"
    ∷ bytes "ghcr"
    ∷ bytes "gitlab"
    ∷ bytes "pypi"
    ∷ bytes "npm"
    ∷ []

unfoldable pub is_supported : Source → Bool
is_supported s = is_one_of s.provider providers

-- LoadEnabledSources: sources of unknown providers are skipped.
unfoldable pub supported : List Source → List Source
unfolding is_supported
supported [] = []
supported (s ∷ ss) = let rest = supported ss in if is_supported s then s ∷ rest else rest

unfoldable pub load_enabled_sources : Exec Db (List Source)
load_enabled_sources = do sources ← list_enabled_sources; pure (supported sources)

abbrev pub store_results : ℕ → List IngestionResult → Exec Db (Unit {0})
store_results source [] = pure tt
store_results source (r ∷ rs) = do _ ← attempt (process_results source (r ∷ rs)); pure tt

abbrev pub after_fetch : ℕ → Result (List IngestionResult) → Exec Db (Unit {0})
after_fetch source (err e) = do _ ← attempt (update_source_poll_status source true); pure tt
after_fetch source (ok results) = do
  _ ← attempt (update_source_poll_status source false)
  store_results source results

-- pollSource
unfoldable pub poll_source : Fetch → Source → Exec Db (Unit {0})
poll_source fetch s = after_fetch s.id (fetch s)

-- `now.Before(LastPolledAt.Add(interval))` is the test that skips a source.
unfoldable pub is_due : ℕ → Source → Bool
is_due now s = elim s.last_polled_at [
  | none ↦ true
  | some last ↦ not (ltb now (last + s.poll_interval_seconds))
]

unfoldable pub poll_due : Fetch → ℕ → List Source → Exec Db (Unit {0})
unfolding is_due
poll_due fetch now [] = pure tt
poll_due fetch now (s ∷ ss) =
    (if is_due now s then poll_source fetch s else pure tt) >> poll_due fetch now ss

abbrev pub poll_loaded : Fetch → Result (List Source) → Exec Db (Unit {0})
poll_loaded fetch (err e) = pure tt
poll_loaded fetch (ok sources) = do now ← gets (λ db. db.now); poll_due fetch now sources

-- pollAll with sources from the database
unfoldable pub poll_all : Fetch → Exec Db (Unit {0})
poll_all fetch = do sources ← attempt load_enabled_sources; poll_loaded fetch sources
