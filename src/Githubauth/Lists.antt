-- ===== src/Githubauth/Lists.antt =====
-- The lists of internal/githubauth/app_provider.go, which GitHub gives page by page.
pub mod Complete
use changelogue.Prelude.{
  ℕ, zero, suc, ◌+◌, ◌-◌, Bool, true, false, Option, none, some, List, [], ◌∷◌, ◌++◌, map, Bytes,
  bytes, leb, ◌==◌, if◌then◌else◌, take, drop,
}
use changelogue.Text.{has_prefix, contains_text, split, trim_space}
use changelogue.Githubauth.{
  TokenError, not_configured, other, Reply, got, failed, AppTokenProvider, Remote, configured, jwt,
  refusal, installation_token,
}

pub record Installation : Type 0 where
  pub id : ℕ
  pub account_login : Bytes
  pub account_type : Bytes
  pub repository_selection : Bytes
  pub permissions : Bytes

pub record Repository : Type 0 where
  pub full_name : Bytes
  pub private_repository : Bool
  pub html_url : Bytes

-- GitHub's answer to a GET with a token: status, the items of the body, and the Link header.
abbrev pub Get : Type 0 → Type 0
Get A = Bytes → Bytes → Option (ℕ × Option (List A) × Bytes)

-- strings.Index
abbrev one_more : Option ℕ → Option ℕ
one_more none = none
one_more (some n) = some (n + 1)

unfoldable pub index : Bytes → Bytes → Option ℕ
unfolding has_prefix
index [] sub = if has_prefix sub [] then some 0 else none
index (x ∷ xs) sub =
    let rest = one_more (index xs sub) in if has_prefix sub (x ∷ xs) then some 0 else rest

abbrev from_installation : Bytes → Option ℕ → Option Bytes
from_installation raw none = none
from_installation raw (some i) = some (drop i raw)

abbrev from_app : Bytes → Option ℕ → Option Bytes
from_app raw none = from_installation raw (index raw (bytes "/installation/"))
from_app raw (some i) = some (drop i raw)

-- The path of a URL from its "/app/" or its "/installation/" on.
unfoldable pub path_in : Bytes → Option Bytes
unfolding index
path_in raw = from_app raw (index raw (bytes "/app/"))

abbrev between : Bytes → Option ℕ → Option ℕ → Option Bytes
between part none last = none
between part (some first) none = none
between part (some first) (some last) =
    if leb last first then none else path_in (take (last - (first + 1)) (drop (first + 1) part))

-- `rel="next"`
abbrev pub rel_next : Bytes
rel_next = bytes "rel=" ++ 34 ∷ (bytes "next" ++ 34 ∷ [])

unfoldable pub link_path : Bytes → Option Bytes
unfolding contains_text index path_in
link_path part =
    if contains_text part rel_next
    then between part (index part (b'<' ∷ [])) (index part (b'>' ∷ []))
    else none

abbrev or_next : Bytes → Option Bytes → Bytes
or_next rest none = rest
or_next rest (some path) = path

unfoldable pub first_path : List Bytes → Bytes
unfolding link_path trim_space
first_path [] = []
first_path (part ∷ parts) = or_next (first_path parts) (link_path (trim_space part))

-- nextPath
unfoldable pub next_path : Bytes → Bytes
unfolding split first_path
next_path header = first_path (split b',' header)

abbrev page_of : {A : Type 0} → Option TokenError → Option (List A) → Bytes → Reply (List A × Bytes)
page_of (some e) body link = failed e
page_of none none link = failed other
page_of none (some items) link = got (items, next_path link)

abbrev answered : {A : Type 0} → Option (ℕ × Option (List A) × Bytes) → Reply (List A × Bytes)
answered none = failed other
answered (some (status, body, link)) = page_of (refusal (λ s. s == 200) status) body link

-- bearerGet
unfoldable pub bearer_get : {A : Type 0} → Get A → Bytes → Bytes → Reply (List A × Bytes)
unfolding next_path
bearer_get get token path = answered (get token path)

abbrev go_on :
    {A : Type 0}
    → (List A → Bytes → Option (Reply (List A)))
    → List A
    → Reply (List A × Bytes)
    → Option (Reply (List A))
go_on again sofar (failed e) = some (failed e)
go_on again sofar (got (items, next)) = again (sofar ++ items) next

-- `for path != ""`: none is a loop that needs more rounds than `fuel`.
unfoldable pub collect :
    {A : Type 0} → ℕ → (Bytes → Reply (List A × Bytes)) → List A → Bytes → Option (Reply (List A))
collect fuel get sofar [] = some (got sofar)
collect zero get sofar (c ∷ path) = none
collect (suc fuel) get sofar (c ∷ path) = go_on (collect fuel get) sofar (get (c ∷ path))

-- appGet: each page is asked for with a JWT of its own. The clock stands still within a list.
abbrev with_jwt : {A : Type 0} → Get A → Bytes → Option Bytes → Reply (List A × Bytes)
with_jwt get path none = failed other
with_jwt get path (some signed) = bearer_get get signed path

abbrev pub app_get :
    {A : Type 0} → Remote → Get A → ℕ → AppTokenProvider → Bytes → Reply (List A × Bytes)
app_get remote get now p path = with_jwt get path (jwt remote now p)

-- ListInstallations
unfoldable pub list_installations :
    Remote → Get Installation → ℕ → ℕ → AppTokenProvider → Option (Reply (List Installation))
unfolding bearer_get collect
list_installations remote get fuel now p =
    if configured p
    then collect fuel (app_get remote get now p) [] (bytes "/app/installations?per_page=100")
    else some (failed not_configured)

abbrev collect_with :
    {A : Type 0}
    → ℕ
    → Get A
    → Bytes
    → Reply Bytes × AppTokenProvider
    → Option (Reply (List A)) × AppTokenProvider
collect_with fuel get path (failed e, p) = (some (failed e), p)
collect_with fuel get path (got token, p) = (collect fuel (bearer_get get token) [] path, p)

-- ListInstallationRepositories
unfoldable pub list_installation_repositories :
    Remote
    → Get Repository
    → ℕ
    → ℕ
    → ℕ
    → AppTokenProvider
    → Option (Reply (List Repository)) × AppTokenProvider
unfolding bearer_get collect installation_token
list_installation_repositories remote get fuel now id p =
    if configured p
    then collect_with fuel get (bytes "/installation/repositories?per_page=100")
        (installation_token remote now id p)
    else (some (failed not_configured), p)
