-- ===== src/Ingestion/Upstream/Ghcr.antt =====
-- internal/ingestion/ghcr.go.
use changelogue.Prelude.{
  ℕ, Bool, false, ◌||◌, not, Option, none, some, List, [], ◌∷◌, ◌++◌, ◌+◌, ◌-◌, Bytes, bytes, leb,
  ◌==◌, if◌then◌else◌, is_empty, drop, take,
}
use changelogue.Exec.{Result, ok, err, external}
use changelogue.Http.{Answer, body_or_error, decoded}
use changelogue.Models.{StringMap}
use changelogue.Text.{contains_text, split, trim_space}
use changelogue.Text.Affix.{trim_prefix_text}
use changelogue.Githubauth.Lists.{index, rel_next}
use changelogue.Ingestion.Store.{IngestionResult, insert}
use changelogue.Ingestion.Upstream.{Dates, result}
use changelogue.Ingestion.Upstream.Registries.{all_pages}
use changelogue.Ingestion.Upstream.Challenge.{Challenge, parse_bearer_challenge}
use changelogue.Ingestion.Upstream.OciTimes.{
  Config, timestamp_from_annotations, timestamp_from_config, latest_child,
}

-- An answer of the registry, with its two headers.
pub record RegistryAnswer (A : Type 0) : Type 0 where
  pub status : ℕ
  pub challenge : Bytes
  pub link : Bytes
  pub body : Option A

pub record Manifest : Type 0 where
  -- the digest of the configuration; a missing one is the empty one
  pub config_digest : Bytes
  -- the annotations of each manifest of a list
  pub children : List StringMap
  pub annotations : StringMap

-- The registry, its token service and what net/url does: parameters. The empty token sends none.
pub record GhcrApi : Type 0 where
  pub tags_list : Bytes → Bytes → Bytes → Option (RegistryAnswer (List Bytes))
  pub manifest : Bytes → Bytes → Bytes → Option (RegistryAnswer Manifest)
  pub config_blob : Bytes → Bytes → Bytes → Option (RegistryAnswer Config)
  -- realm, service and scope; the answer has `token` and `access_token`
  pub token_service : Bytes → Bytes → Bytes → Answer (Bytes × Bytes)
  -- `last` of the query of a URL that parses
  pub last_of_url : Bytes → Option Bytes
  pub path_escape : Bytes → Bytes
  -- time.Parse with one of the three layouts
  pub dates : Dates

-- NewGHCRSource
abbrev pub ghcr_repository : Bytes → Bytes
ghcr_repository repository = trim_prefix_text (bytes "ghcr.io/") (trim_space repository)

abbrev pub names_image : List Bytes → Bool
names_image [] = false
names_image (owner ∷ []) = false
names_image (owner ∷ image ∷ rest) = not (is_empty owner || is_empty image)

-- validateGHCRRepository
unfoldable pub is_ghcr_repository : Bytes → Bool
unfolding split trim_space
is_ghcr_repository repository = names_image (split b'/' (trim_space repository))

abbrev pub or_pull : Bytes → Bytes → Bytes
or_pull repository scope =
    if is_empty scope then bytes "repository:" ++ (repository ++ bytes ":pull") else scope

abbrev pub either_token : Result (Bytes × Bytes) → Result Bytes
either_token (err e) = err e
either_token (ok (token, access)) =
    if is_empty token then if is_empty access then err external else ok access else ok token

abbrev pub ask_token : GhcrApi → Bytes → Challenge → Result Bytes
ask_token api repository c =
    if is_empty c.realm
    then err external
    else either_token (decoded (api.token_service c.realm c.service (or_pull repository c.scope)))

-- fetchBearerToken
unfoldable pub fetch_bearer_token : GhcrApi → Bytes → Bytes → Result Bytes
unfolding parse_bearer_challenge
fetch_bearer_token api repository challenge =
    ask_token api repository (parse_bearer_challenge challenge)

abbrev pub answered : {A : Type 0} → Option (RegistryAnswer A) → Result (RegistryAnswer A)
answered none = err external
answered (some a) = ok a

abbrev pub ask_again :
    {A : Type 0} → (Bytes → Option (RegistryAnswer A)) → Result Bytes → Result (RegistryAnswer A)
ask_again request (err e) = err e
ask_again request (ok token) = answered (request token)

abbrev pub unless_unauthorized :
    {A : Type 0}
    → GhcrApi
    → Bytes
    → (Bytes → Option (RegistryAnswer A))
    → Option (RegistryAnswer A)
    → Result (RegistryAnswer A)
unless_unauthorized api repository request none = err external
unless_unauthorized api repository request (some a) =
    if a.status == 401
    then ask_again request (fetch_bearer_token api repository a.challenge)
    else ok a

-- doRegistryRequest: a request that is answered by 401 is made again with the token that the
-- challenge asks for.
unfoldable pub do_registry_request :
    {A : Type 0} → GhcrApi → Bytes → (Bytes → Option (RegistryAnswer A)) → Result (RegistryAnswer A)
unfolding fetch_bearer_token
do_registry_request api repository request = unless_unauthorized api repository request (request [])

abbrev pub body_of : {A : Type 0} → Result (RegistryAnswer A) → Result A
body_of (err e) = err e
body_of (ok a) = if a.status == 200 then body_or_error a.body else err external

unfoldable pub fetch_manifest : GhcrApi → Bytes → Bytes → Result Manifest
unfolding do_registry_request
fetch_manifest api repository reference = body_of (
    do_registry_request api repository
      (λ token. api.manifest token repository (api.path_escape reference)))

unfoldable pub fetch_config : GhcrApi → Bytes → Bytes → Result Config
unfolding do_registry_request
fetch_config api repository digest =
    body_of (do_registry_request api repository (λ token. api.config_blob token repository digest))

abbrev pub between_marks : (Bytes → Option Bytes) → Bytes → Option ℕ → Option ℕ → Option Bytes
between_marks last_of part none last = none
between_marks last_of part (some first) none = none
between_marks last_of part (some first) (some last) =
    if leb last first
    then none
    else last_of (trim_space (take (last - (first + 1)) (drop (first + 1) part)))

abbrev pub or_empty : Bytes → Option Bytes → Bytes
or_empty rest none = rest
or_empty rest (some last) = last

unfoldable pub next_last : (Bytes → Option Bytes) → List Bytes → Bytes
unfolding contains_text index trim_space
next_last last_of [] = []
next_last last_of (part ∷ parts) =
    let rest = next_last last_of parts in
    if contains_text part rel_next
    then or_empty rest
        (between_marks last_of part (index part (b'<' ∷ [])) (index part (b'>' ∷ [])))
    else rest

-- parseRegistryNextLast
unfoldable pub parse_registry_next_last : (Bytes → Option Bytes) → Bytes → Bytes
unfolding split next_last
parse_registry_next_last last_of link = next_last last_of (split b',' link)

abbrev pub page_of : GhcrApi → Result (RegistryAnswer (List Bytes)) → Result (List Bytes × Bytes)
page_of api (err e) = err e
page_of api (ok a) = elim (body_of (ok a)) [
  | err e ↦ err e
  | ok tags ↦ ok (tags, parse_registry_next_last api.last_of_url a.link)
]

-- fetchTagsPage
unfoldable pub fetch_tags_page : GhcrApi → Bytes → Bytes → Result (List Bytes × Bytes)
unfolding do_registry_request parse_registry_next_last
fetch_tags_page api repository last =
    page_of api (do_registry_request api repository (λ token. api.tags_list token repository last))

abbrev pub time_source : Bytes → Bytes × Bytes
time_source value = (bytes "timestamp_source", value)

-- The text of an error is left out.
abbrev pub time_error : Bytes × Bytes
time_error = (bytes "timestamp_error", [])

abbrev pub from_children : StringMap → ℕ → ℕ × StringMap
from_children m latest =
    if latest == 0
    then (0, m ++ time_source (bytes "unavailable") ∷ [])
    else (latest, m ++ time_source (bytes "manifest_list_annotation") ∷ [])

abbrev pub from_config : Dates → Manifest → Result Config → ℕ × StringMap
from_config dates manifest (err e) =
    from_children (time_error ∷ []) (latest_child dates 0 manifest.children)
from_config dates manifest (ok c) = elim (timestamp_from_config dates c) [
  | none ↦ from_children [] (latest_child dates 0 manifest.children)
  | some t ↦ (t, time_source (bytes "image_config") ∷ [])
]

abbrev pub from_annotations : GhcrApi → Bytes → Manifest → Option ℕ → ℕ × StringMap
from_annotations api repository manifest (some t) =
    (t, time_source (bytes "manifest_annotation") ∷ [])
from_annotations api repository manifest none =
    if is_empty manifest.config_digest
    then from_children [] (latest_child api.dates 0 manifest.children)
    else from_config api.dates manifest (fetch_config api repository manifest.config_digest)

abbrev pub from_manifest : GhcrApi → Bytes → Result Manifest → ℕ × StringMap
from_manifest api repository (err e) = (0, time_source (bytes "unavailable") ∷ time_error ∷ [])
from_manifest api repository (ok manifest) =
    from_annotations api repository manifest
      (timestamp_from_annotations api.dates manifest.annotations)

-- fetchTagMetadata
unfoldable pub fetch_tag_metadata : GhcrApi → Bytes → Bytes → ℕ × StringMap
unfolding fetch_manifest fetch_config timestamp_from_annotations timestamp_from_config latest_child
fetch_tag_metadata api repository tag =
    from_manifest api repository (fetch_manifest api repository tag)

abbrev pub tag_url : GhcrApi → Bytes → Bytes → Bytes
tag_url api repository tag =
    bytes "https://ghcr.io/" ++ (repository ++ (b':' ∷ api.path_escape tag))

abbrev pub tag_result : GhcrApi → Bytes → Bytes → ℕ × StringMap → IngestionResult
tag_result api repository tag (t, metadata) =
    result repository tag [] (insert (bytes "release_url") (tag_url api repository tag) metadata) t

unfoldable pub tag_results : GhcrApi → Bytes → List Bytes → List IngestionResult
unfolding fetch_tag_metadata insert
tag_results api repository [] = []
tag_results api repository (tag ∷ tags) =
    let rest = tag_results api repository tags in
    if is_empty tag
    then rest
    else tag_result api repository tag (fetch_tag_metadata api repository tag) ∷ rest

abbrev pub with_tags :
    GhcrApi → Bytes → Option (Result (List Bytes)) → Option (Result (List IngestionResult))
with_tags api repository none = none
with_tags api repository (some (err e)) = some (err e)
with_tags api repository (some (ok tags)) = some (ok (tag_results api repository tags))

-- FetchNewReleases of a GHCRSource
unfoldable pub fetch_ghcr : GhcrApi → ℕ → Bytes → Option (Result (List IngestionResult))
unfolding is_ghcr_repository all_pages fetch_tags_page tag_results
fetch_ghcr api fuel source_repository =
    let repository = ghcr_repository source_repository in
    if is_ghcr_repository repository
    then with_tags api repository (all_pages fuel (fetch_tags_page api repository) [] [])
    else some (err external)
