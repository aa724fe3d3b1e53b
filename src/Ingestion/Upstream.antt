-- ===== src/Ingestion/Upstream.antt =====
-- The clients of the upstream registries in internal/ingestion: what FetchNewReleases returns.
pub mod Github
pub mod Registries
pub mod Challenge
pub mod OciTimes
pub mod Ghcr
pub mod Tags
pub mod Polled
use changelogue.Prelude.{
  Bool, true, false, ◌||◌, List, [], ◌∷◌, Bytes, bytes, ℕ, Option, none, some, same, if◌then◌else◌,
}
use changelogue.Ingestion.Store.{IngestionResult}
use changelogue.Models.{StringMap}

-- time.Parse with the layout of RFC 3339 is a parameter; the zero time is 0.
abbrev pub Dates : Type 0
Dates = Bytes → Option ℕ

abbrev pub or_zero : Option ℕ → ℕ
or_zero none = 0
or_zero (some t) = t

unfoldable pub is_in : Bytes → List Bytes → Bool
unfolding same
is_in s [] = false
is_in s (t ∷ ts) = same t s || is_in s ts

-- A result with its metadata.
abbrev pub result : Bytes → Bytes → Bytes → StringMap → ℕ → IngestionResult
result repository version changelog metadata timestamp = record {
  repository = repository;
  raw_version = version;
  changelog = changelog;
  metadata = metadata;
  timestamp = timestamp;
}

abbrev pub release_url : Bytes → Bytes × Bytes
release_url url = (bytes "release_url", url)

-- The metadata "prerelease", which is "true" or "false".
abbrev pub prerelease : Bool → Bytes × Bytes
prerelease flag = (bytes "prerelease", if flag then bytes "true" else bytes "false")

unfoldable pub versions : List IngestionResult → List Bytes
versions [] = []
versions (r ∷ rs) = r.raw_version ∷ versions rs
