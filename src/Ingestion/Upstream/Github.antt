-- ===== src/Ingestion/Upstream/Github.antt =====
-- internal/ingestion/github.go.
use changelogue.Prelude.{
  ℕ, Bool, ◌&&◌, ◌||◌, not, Option, none, some, List, [], ◌∷◌, ◌++◌, Bytes, bytes, if◌then◌else◌,
  is_empty,
}
use changelogue.Exec.{Result, ok, err, external}
use changelogue.Http.{Answer, decoded}
use changelogue.Models.{Source}
use changelogue.Text.{split, trim_space}
use changelogue.Githubauth.{TokenError, not_configured, Reply, got, failed}
use changelogue.Ingestion.Store.{IngestionResult}
use changelogue.Ingestion.Upstream.{
  Dates, or_zero, is_in, result, release_url, prerelease, versions,
}

pub record GhRelease : Type 0 where
  pub tag_name : Bytes
  pub body : Bytes
  pub html_url : Bytes
  pub published_at : Bytes
  pub is_prerelease : Bool
  pub draft : Bool

pub record GhTag : Type 0 where
  pub name : Bytes
  pub sha : Bytes

-- GitHub and the token provider: answers to a GET with a token (the empty one sends none) by URL.
pub record GithubApi : Type 0 where
  pub base_url : Bytes
  pub token_for_repo : Bytes → Bytes → Reply Bytes
  pub releases_answer : Bytes → Bytes → Answer (List GhRelease)
  pub tags_answer : Bytes → Bytes → Answer (List GhTag)
  -- the date of the committer
  pub commit_answer : Bytes → Bytes → Answer Bytes
  pub dates : Dates

abbrev owner_and_repo : List Bytes → Option (Bytes × Bytes)
owner_and_repo [] = none
owner_and_repo (owner ∷ []) = none
owner_and_repo (owner ∷ repo ∷ rest) =
    if is_empty owner || is_empty repo then none else some (owner, repo)

unfoldable pub split_github_repo : Bytes → Option (Bytes × Bytes)
unfolding split trim_space
split_github_repo repository = owner_and_repo (split b'/' (trim_space repository))

-- An error of the token provider, other than that none is configured, is the request's.
abbrev pub with_token : {A : Type 0} → (Bytes → Bytes → Answer A) → Bytes → Reply Bytes → Result A
with_token answer url (got token) = decoded (answer token url)
with_token answer url (failed not_configured) = decoded (answer [] url)
with_token answer url (failed TokenError.no_installation) = err external
with_token answer url (failed TokenError.unauthorized) = err external
with_token answer url (failed TokenError.rate_limited) = err external
with_token answer url (failed TokenError.other) = err external

abbrev pub with_repo :
    {A : Type 0}
    → GithubApi
    → (Bytes → Bytes → Answer A)
    → Bytes
    → Option (Bytes × Bytes)
    → Result A
with_repo api answer url none = err external
with_repo api answer url (some (owner, repo)) =
    with_token answer url (api.token_for_repo owner repo)

-- doGitHubRequest with token, the test of the status, and the decoding.
unfoldable pub do_github_request :
    {A : Type 0} → GithubApi → (Bytes → Bytes → Answer A) → Bytes → Bytes → Result A
unfolding split_github_repo
do_github_request api answer repository url =
    with_repo api answer url (split_github_repo repository)

abbrev pub repo_url : GithubApi → Bytes → Bytes → Bytes
repo_url api repository rest = api.base_url ++ (bytes "/repos/" ++ (repository ++ rest))

abbrev pub release_result : GithubApi → Bytes → GhRelease → IngestionResult
release_result api repository rel =
    result repository rel.tag_name rel.body
      (release_url rel.html_url ∷ prerelease rel.is_prerelease ∷ [])
      (or_zero (api.dates rel.published_at))

-- Published: no draft, and with a tag.
abbrev pub is_published : GhRelease → Bool
is_published rel = not rel.draft && not (is_empty rel.tag_name)

unfoldable pub published : GithubApi → Bytes → List GhRelease → List IngestionResult
published api repository [] = []
published api repository (rel ∷ rels) =
    let rest = published api repository rels in
    if is_published rel then release_result api repository rel ∷ rest else rest

unfoldable pub fetch_releases : GithubApi → Bytes → Result (List GhRelease)
unfolding do_github_request
fetch_releases api repository =
    do_github_request api api.releases_answer repository
      (repo_url api repository (bytes "/releases?per_page=30"))

unfoldable pub fetch_tags : GithubApi → Bytes → Result (List GhTag)
unfolding do_github_request
fetch_tags api repository =
    do_github_request api api.tags_answer repository
      (repo_url api repository (bytes "/tags?per_page=30"))

abbrev pub date_or_zero : Dates → Result Bytes → ℕ
date_or_zero dates (err e) = 0
date_or_zero dates (ok date) = or_zero (dates date)

-- A failure gives the zero time.
unfoldable pub tag_commit_date : GithubApi → Bytes → Bytes → ℕ
unfolding do_github_request
tag_commit_date api repository sha =
    if is_empty sha
    then 0
    else date_or_zero api.dates (
        do_github_request api api.commit_answer repository
          (repo_url api repository (bytes "/commits/" ++ sha)))

abbrev pub tag_result : GithubApi → Bytes → GhTag → IngestionResult
tag_result api repository t =
    result repository t.name []
      (release_url
          (bytes "https://github.com/" ++ (repository ++ (bytes "/releases/tag/" ++ t.name)))
        ∷ (bytes "source_kind", bytes "tag")
        ∷ [])
      (tag_commit_date api repository t.sha)

-- The tags that no release and no earlier tag covers.
unfoldable pub uncovered : GithubApi → Bytes → List Bytes → List GhTag → List IngestionResult
unfolding is_in tag_commit_date
uncovered api repository seen [] = []
uncovered api repository seen (t ∷ ts) =
    let skipped = is_empty t.name || is_in t.name seen in
    let rest = uncovered api repository (if skipped then seen else t.name ∷ seen) ts in
    if skipped then rest else tag_result api repository t ∷ rest

abbrev pub and_tags :
    GithubApi → Bytes → List IngestionResult → Result (List GhTag) → Result (List IngestionResult)
and_tags api repository results (err e) = err e
and_tags api repository results (ok tags) =
    ok (results ++ uncovered api repository (versions results) tags)

abbrev pub and_releases :
    GithubApi → Source → Result (List GhRelease) → Result (List IngestionResult)
and_releases api s (err e) = err e
and_releases api s (ok rels) =
    if s.releases_only
    then ok (published api s.repository rels)
    else and_tags api s.repository (published api s.repository rels) (fetch_tags api s.repository)

-- FetchNewReleases of a GitHubSource
unfoldable pub fetch_github : GithubApi → Source → Result (List IngestionResult)
unfolding fetch_releases fetch_tags published uncovered versions
fetch_github api s = and_releases api s (fetch_releases api s.repository)
