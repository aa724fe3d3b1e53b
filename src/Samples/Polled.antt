-- ===== src/Samples/Polled.antt =====
-- A GitHub source whose repository has a release, a draft, and a tag without a release.
use changelogue.Prelude.{same, ◌≡◌, refl, true, false, none, some, List, [], ◌∷◌, Bytes, bytes}
use changelogue.Exec.{ok}
use changelogue.Models.{Source}
use changelogue.Githubauth.{not_configured, failed}
use changelogue.Ingestion.Atomic.{calm}
use changelogue.Ingestion.Store.{IngestionResult}
use changelogue.Ingestion.Service.{poll_source}
use changelogue.Ingestion.Upstream.Github.{
  GhRelease, GhTag, GithubApi, fetch_releases, fetch_tags, fetch_github,
}
use changelogue.Ingestion.Upstream.Challenge.{parse_bearer_challenge}
use changelogue.Ingestion.Stored.{Grew}
use changelogue.Ingestion.Upstream.Polled.{is_listed, InOrder, poll_source-Stores}
use changelogue.Db.{statement}
use changelogue.Routing.Store.{get_source}
use changelogue.Ingestion.Service.{process_results, is_supported}
use changelogue.Gate.Store.{insert_job}
use changelogue.Ingestion.Store.{
  ingest_release, update_source_poll_status, ingest_found, ingest_new_release, insert_release,
  ingest_old_release, changelog_added, set_release,
}
use changelogue.Sources.Api.{new_releases, process_each, fetch_by_id}
use changelogue.Samples.Notified.{watched, stored}

abbrev tagged : Source
tagged = record watched { repository = bytes "o/r"; releases_only = false }

abbrev rels : List GhRelease
rels =
    record {
      tag_name = bytes "v2";
      body = bytes "news";
      html_url = [];
      published_at = [];
      is_prerelease = false;
      draft = false;
    }
    ∷ record {
      tag_name = bytes "v3";
      body = [];
      html_url = [];
      published_at = [];
      is_prerelease = false;
      draft = true;
    }
    ∷ []

abbrev tags : List GhTag
tags = record { name = bytes "v2"; sha = [] } ∷ record { name = bytes "v1"; sha = bytes "c1" } ∷ []

abbrev github : GithubApi
github = record {
  base_url = bytes "https://api.github.com";
  token_for_repo = λ owner repo. failed not_configured;
  releases_answer = λ token url. some (200, some rels);
  tags_answer = λ token url. some (200, some tags);
  commit_answer = λ token url. some (404, none);
  dates = λ text. none;
}

poll_source-Stores_example :
    ((rs : List IngestionResult) × (fetch_github github tagged ≡ ok rs)
      × InOrder github tagged rels rs)
    × ((poll_source (fetch_github github) tagged (calm stored)).0 ≡ ok tt)
    × ((v : Bytes)
        → Grew tagged.id v stored.releases
            (poll_source (fetch_github github) tagged (calm stored)).1.releases
            (is_listed tagged rels tags v))
unfolding fetch_releases fetch_tags
poll_source-Stores_example = poll_source-Stores github tagged rels tags stored refl refl

-- A comma within a quoted value ends it.
split_scope :
    parse_bearer_challenge (bytes "Bearer realm=https://t,scope=repository:o/r:pull,push")
    ≡ record { realm = bytes "https://t"; service = []; scope = bytes "repository:o/r:pull" }
unfolding parse_bearer_challenge
split_scope = refl

abbrev once_more : IngestionResult
once_more = record {
  repository = bytes "o/r";
  raw_version = bytes "v9";
  changelog = [];
  metadata = [];
  timestamp = 7;
}

-- A release that is stored already counts as new when it is fetched again.
fetch_by_id-again :
    (fetch_by_id
      (λ s. ok (once_more ∷ []))
      2
      (fetch_by_id (λ s. ok (once_more ∷ [])) 2 (calm stored)).1).0
    ≡ ok (new_releases 1)
unfolding fetch_by_id get_source process_each process_results ingest_release is_supported statement
    update_source_poll_status same ingest_found ingest_new_release insert_release insert_job
    ingest_old_release changelog_added set_release
fetch_by_id-again = refl
