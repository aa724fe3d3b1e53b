-- ===== src/Onboard/Scanner.antt =====
-- internal/onboard/scanner.go: the dependency files of a repository.
use changelogue.Prelude.{
  Bool, false, ◌||◌, Option, none, some, List, [], ◌∷◌, ◌++◌, Bytes, bytes, if◌then◌else◌, is_empty,
  same,
}
use changelogue.Exec.{Result, ok, err, external}
use changelogue.Http.{Answer, body_or_error, decoded}
use changelogue.Text.{split_n, trim_space, replace_all}
use changelogue.Text.Affix.{trim_prefix_text, trim_suffix_text, base_name}
use changelogue.Githubauth.{TokenError, not_configured, Reply, got, failed}

pub record RepoName : Type 0 where
  pub owner : Bytes
  pub repo : Bytes

abbrev pub repo_of : List Bytes → Option RepoName
repo_of [] = none
repo_of (owner ∷ []) = none
repo_of (owner ∷ repo ∷ rest) =
    if is_empty owner || is_empty repo then none else some (record { owner = owner; repo = repo })

-- The trimming of ParseRepoURL, which takes off each of these once.
unfoldable pub bare_url : Bytes → Bytes
unfolding trim_prefix_text trim_suffix_text
bare_url raw =
    let no_https = trim_prefix_text (bytes "https://") raw in
    let no_http = trim_prefix_text (bytes "http://") no_https in
    let no_host = trim_prefix_text (bytes "github.com/") no_http in
    trim_suffix_text (bytes "/") (trim_suffix_text (bytes ".git") no_host)

abbrev pub parse_trimmed : Bytes → Option RepoName
parse_trimmed [] = none
parse_trimmed (c ∷ raw) = repo_of (split_n b'/' 3 (bare_url (c ∷ raw)))

-- ParseRepoURL
unfoldable pub parse_repo_url : Bytes → Option RepoName
unfolding trim_space bare_url split_n
parse_repo_url raw = parse_trimmed (trim_space raw)

pub record TreeEntry : Type 0 where
  pub path : Bytes
  pub kind : Bytes

pub record FileContent : Type 0 where
  pub content : Bytes
  pub encoding : Bytes

pub record DependencyFile : Type 0 where
  pub path : Bytes
  pub content : Bytes

-- What the scanner calls: the token provider, GitHub's three answers to a GET with a token (the
-- empty one sends none) by their URL, with the status and the decoded body, and base64.
pub record Scanner : Type 0 where
  pub base_url : Bytes
  pub token_for_repo : Bytes → Bytes → Reply Bytes
  pub repo_answer : Bytes → Bytes → Answer Bytes
  pub tree_answer : Bytes → Bytes → Answer (List TreeEntry)
  pub file_answer : Bytes → Bytes → Answer FileContent
  pub decode_base64 : Bytes → Option Bytes

abbrev pub with_token : {A : Type 0} → (Bytes → Bytes → Answer A) → Bytes → Reply Bytes → Result A
with_token answer url (got token) = decoded (answer token url)
with_token answer url (failed not_configured) = decoded (answer [] url)
with_token answer url (failed TokenError.no_installation) = err external
with_token answer url (failed TokenError.unauthorized) = err external
with_token answer url (failed TokenError.rate_limited) = err external
with_token answer url (failed TokenError.other) = err external

-- doGet
unfoldable pub do_get :
    {A : Type 0} → Scanner → (Bytes → Bytes → Answer A) → RepoName → Bytes → Result A
do_get s answer r url = with_token answer url (s.token_for_repo r.owner r.repo)

-- "<base>/repos/<owner>/<repo>"
abbrev pub repo_path : Scanner → RepoName → Bytes
repo_path s r = s.base_url ++ (bytes "/repos/" ++ (r.owner ++ (b'/' ∷ r.repo)))

unfoldable pub get_default_branch : Scanner → RepoName → Result Bytes
unfolding do_get
get_default_branch s r = do_get s s.repo_answer r (repo_path s r)

unfoldable pub get_tree : Scanner → RepoName → Bytes → Result (List TreeEntry)
unfolding do_get
get_tree s r branch =
    do_get s s.tree_answer r
      (repo_path s r ++ (bytes "/git/trees/" ++ (branch ++ bytes "?recursive=1")))

abbrev pub content_of : Scanner → Result FileContent → Result Bytes
content_of s (err e) = err e
content_of s (ok f) =
    if same f.encoding (bytes "base64")
    then body_or_error (s.decode_base64 (replace_all f.content (10 ∷ []) []))
    else ok f.content

unfoldable pub get_file_content : Scanner → RepoName → Bytes → Result Bytes
unfolding do_get replace_all same
get_file_content s r path =
    content_of s (do_get s s.file_answer r (repo_path s r ++ (bytes "/contents/" ++ path)))

-- The names that `depFileNames` maps to true.
abbrev pub dep_file_names : List Bytes
dep_file_names =
    bytes "go.mod"
    ∷ bytes "package.json"
    ∷ bytes "requirements.txt"
    ∷ bytes "Pipfile"
    ∷ bytes "pyproject.toml"
    ∷ bytes "Cargo.toml"
    ∷ bytes "Gemfile"
    ∷ bytes "pom.xml"
    ∷ bytes "build.gradle"
    ∷ bytes "build.gradle.kts"
    ∷ bytes "Dockerfile"
    ∷ bytes "docker-compose.yml"
    ∷ bytes "docker-compose.yaml"
    ∷ []

unfoldable pub is_named : List Bytes → Bytes → Bool
unfolding same
is_named [] name = false
is_named (n ∷ ns) name = same n name || is_named ns name

unfoldable pub dep_paths : List TreeEntry → List Bytes
unfolding same is_named base_name
dep_paths [] = []
dep_paths (e ∷ es) =
    let rest = dep_paths es in
    if same e.kind (bytes "blob")
    then if is_named dep_file_names (base_name e.path) then e.path ∷ rest else rest
    else rest

abbrev pub add_file :
    Bytes → Result Bytes → Result (List DependencyFile) → Result (List DependencyFile)
add_file path (err e) rest = err e
add_file path (ok content) (err e) = err e
add_file path (ok content) (ok files) = ok (record { path = path; content = content } ∷ files)

unfoldable pub fetch_files : Scanner → RepoName → List Bytes → Result (List DependencyFile)
unfolding get_file_content
fetch_files s r [] = ok []
fetch_files s r (path ∷ paths) = add_file path (get_file_content s r path) (fetch_files s r paths)

abbrev pub files_of_tree :
    Scanner → RepoName → Result (List TreeEntry) → Result (List DependencyFile)
files_of_tree s r (err e) = err e
files_of_tree s r (ok tree) = fetch_files s r (dep_paths tree)

abbrev pub files_of_branch : Scanner → RepoName → Result Bytes → Result (List DependencyFile)
files_of_branch s r (err e) = err e
files_of_branch s r (ok branch) = files_of_tree s r (get_tree s r branch)

-- FetchDependencyFiles
unfoldable pub fetch_dependency_files : Scanner → RepoName → Result (List DependencyFile)
unfolding get_default_branch get_tree dep_paths fetch_files
fetch_dependency_files s r = files_of_branch s r (get_default_branch s r)
