-- ===== src/Ingestion/Upstream/Registries.antt =====
-- internal/ingestion/gitlab.go, dockerhub.go, npm.go, pypi.go and ecr_public.go.
use changelogue.Prelude.{
  ℕ, zero, suc, Bool, true, false, ◌||◌, Option, none, some, List, [], ◌∷◌, ◌++◌, Bytes, bytes, ltb,
  ◌==◌, if◌then◌else◌, is_empty, same,
}
use changelogue.Exec.{Result, ok, err, external}
use changelogue.Http.{Answer, decoded}
use changelogue.Text.{cut}
use changelogue.Ingestion.Store.{IngestionResult}
use changelogue.Ingestion.Upstream.{Dates, or_zero, result, release_url, prerelease}

pub record GlRelease : Type 0 where
  pub tag_name : Bytes
  pub description : Bytes
  pub released_at : Bytes
  pub upcoming_release : Bool
  pub self_link : Bytes

abbrev pub gitlab_result : Dates → Bytes → GlRelease → IngestionResult
gitlab_result dates repository rel =
    result repository rel.tag_name rel.description
      (release_url rel.self_link ∷ prerelease rel.upcoming_release ∷ [])
      (or_zero (dates rel.released_at))

unfoldable pub gitlab_results : Dates → Bytes → List GlRelease → List IngestionResult
gitlab_results dates repository [] = []
gitlab_results dates repository (rel ∷ rels) =
    let rest = gitlab_results dates repository rels in
    if is_empty rel.tag_name then rest else gitlab_result dates repository rel ∷ rest

abbrev pub with_body :
    {A : Type 0} → (A → List IngestionResult) → Result A → Result (List IngestionResult)
with_body results (err e) = err e
with_body results (ok body) = ok (results body)

-- FetchNewReleases of a GitLabSource. A registry is asked by the repository alone.
unfoldable pub fetch_gitlab :
    Dates → (Bytes → Answer (List GlRelease)) → Bytes → Result (List IngestionResult)
unfolding gitlab_results
fetch_gitlab dates answer repository =
    with_body (gitlab_results dates repository) (decoded (answer repository))

-- A tag with the time of its last update.
unfoldable pub dockerhub_results : Dates → Bytes → List (Bytes × Bytes) → List IngestionResult
dockerhub_results dates repository [] = []
dockerhub_results dates repository ((name, updated) ∷ tags) =
    result repository name [] [] (or_zero (dates updated)) ∷ dockerhub_results dates repository tags

-- FetchNewReleases of a DockerHubSource
unfoldable pub fetch_dockerhub :
    Dates → (Bytes → Answer (List (Bytes × Bytes))) → Bytes → Result (List IngestionResult)
unfolding dockerhub_results
fetch_dockerhub dates answer repository =
    with_body (dockerhub_results dates repository) (decoded (answer repository))

abbrev pub is_version : Bytes → Bool
is_version version =
    if same version (bytes "created") || same version (bytes "modified") || is_empty version
    then false
    else true

abbrev pub npm_result : Dates → Bytes → Bytes → Bytes → IngestionResult
npm_result dates pkg version published =
    result pkg version []
      (release_url (bytes "https://www.npmjs.com/package/" ++ (pkg ++ (bytes "/v/" ++ version)))
        ∷ [])
      (if is_empty published then 0 else or_zero (dates published))

-- The map of times is a list here: Go goes over a map in any order.
unfoldable pub npm_results : Dates → Bytes → List (Bytes × Bytes) → List IngestionResult
unfolding same
npm_results dates pkg [] = []
npm_results dates pkg ((version, published) ∷ times) =
    let rest = npm_results dates pkg times in
    if is_version version then npm_result dates pkg version published ∷ rest else rest

-- FetchNewReleases of an NpmSource
unfoldable pub fetch_npm :
    Dates → (Bytes → Answer (List (Bytes × Bytes))) → Bytes → Result (List IngestionResult)
unfolding npm_results
fetch_npm dates answer pkg = with_body (npm_results dates pkg) (decoded (answer pkg))

-- `if ts.IsZero() || parsed.Before(ts)`
abbrev pub earlier : Option ℕ → ℕ → ℕ
earlier none ts = ts
earlier (some t) ts = if (ts == 0) || ltb t ts then t else ts

unfoldable pub earliest : Dates → ℕ → List Bytes → ℕ
earliest dates ts [] = ts
earliest dates ts (uploaded ∷ files) =
    earliest dates (if is_empty uploaded then ts else earlier (dates uploaded) ts) files

abbrev pub pypi_result : Dates → Bytes → Bytes → Bytes → List Bytes → IngestionResult
pypi_result dates base pkg version files =
    result pkg version []
      (release_url (base ++ (bytes "/project/" ++ (pkg ++ (b'/' ∷ (version ++ (b'/' ∷ [])))))) ∷ [])
      (earliest dates 0 files)

-- Each version with the upload times of its files.
unfoldable pub pypi_results :
    Dates → Bytes → Bytes → List (Bytes × List Bytes) → List IngestionResult
unfolding earliest
pypi_results dates base pkg [] = []
pypi_results dates base pkg ((version, files) ∷ releases) =
    let rest = pypi_results dates base pkg releases in
    if is_empty version || is_empty files
    then rest
    else pypi_result dates base pkg version files ∷ rest

-- FetchNewReleases of a PyPISource
unfoldable pub fetch_pypi :
    Dates
    → Bytes
    → (Bytes → Answer (List (Bytes × List Bytes)))
    → Bytes
    → Result (List IngestionResult)
unfolding pypi_results
fetch_pypi dates base answer pkg = with_body (pypi_results dates base pkg) (decoded (answer pkg))

-- A loop that asks for page after page with the cursor of the page before, the empty one at first
-- and at the end: none is a loop that needs more rounds than `fuel`.
abbrev pub go_on :
    {A : Type 0}
    → (List A → Bytes → Option (Result (List A)))
    → List A
    → Result (List A × Bytes)
    → Option (Result (List A))
go_on again sofar (err e) = some (err e)
go_on again sofar (ok (items, [])) = some (ok (sofar ++ items))
go_on again sofar (ok (items, c ∷ next)) = again (sofar ++ items) (c ∷ next)

unfoldable pub all_pages :
    {A : Type 0} → ℕ → (Bytes → Result (List A × Bytes)) → List A → Bytes → Option (Result (List A))
all_pages zero page sofar cursor = none
all_pages (suc fuel) page sofar cursor = go_on (all_pages fuel page) sofar (page cursor)

-- splitRepository: at the first slash.
abbrev pub alias_and_repo : Bytes × Option Bytes → Result (Bytes × Bytes)
alias_and_repo (alias, none) = err external
alias_and_repo (alias, some repo) = ok (alias, repo)

unfoldable pub split_repository : Bytes → Result (Bytes × Bytes)
unfolding cut
split_repository repository = alias_and_repo (cut b'/' repository)

abbrev pub zero_is_now : ℕ → ℕ → ℕ
zero_is_now now ts = if ts == 0 then now else ts

-- A tag with the time at which it was pushed.
unfoldable pub ecr_results : Dates → ℕ → Bytes → List (Bytes × Bytes) → List IngestionResult
ecr_results dates now repository [] = []
ecr_results dates now repository ((tag, pushed) ∷ tags) =
    result repository tag [] [] (zero_is_now now (or_zero (dates pushed)))
    ∷ ecr_results dates now repository tags

-- The gallery: an alias, a repository and a cursor; its answer has the next cursor.
abbrev pub Gallery : Type 0
Gallery = Bytes → Bytes → Bytes → Answer (List (Bytes × Bytes) × Bytes)

abbrev pub fetch_ecr_tags :
    Dates
    → ℕ
    → Gallery
    → ℕ
    → Bytes
    → Result (Bytes × Bytes)
    → Option (Result (List IngestionResult))
fetch_ecr_tags dates now gallery fuel repository (err e) = some (err e)
fetch_ecr_tags dates now gallery fuel repository (ok (alias, repo)) =
    elim (all_pages fuel (λ cursor. decoded (gallery alias repo cursor)) [] []) [
      | none ↦ none
      | some tags ↦ some (with_body (ecr_results dates now repository) tags)
    ]

-- FetchNewReleases of an ECRPublicSource
unfoldable pub fetch_ecr : Dates → ℕ → Gallery → ℕ → Bytes → Option (Result (List IngestionResult))
unfolding split_repository all_pages ecr_results
fetch_ecr dates now gallery fuel repository =
    fetch_ecr_tags dates now gallery fuel repository (split_repository repository)
