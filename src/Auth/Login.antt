-- ===== src/Auth/Login.antt =====
-- OAuthHandler of internal/auth/oauth.go.
pub mod Admitted
pub mod SignedIn
use changelogue.Prelude.{
  ℕ, ◌+◌, Bool, true, false, ◌&&◌, ◌||◌, not, Option, none, some, List, [], ◌∷◌, ◌++◌, map, Bytes,
  bytes, ltb, ◌==◌, if◌then◌else◌, is_empty,
}
use changelogue.Exec.{Exec, Result, ok, err, external, pure, attempt, ◌>>=◌}
use changelogue.Models.{User}
use changelogue.Db.{Db, statement}
use changelogue.Auth.Allowlist.{Allowlist, is_user_allowed}
use changelogue.Auth.Sessions.{SessionStore, create_session, validate_session, delete_session}
use changelogue.Auth.States.{StateStore, create, consume}

pub record GithubUser : Type 0 where
  pub id : ℕ
  pub login : Bytes
  pub name : Bytes
  pub avatar_url : Bytes

-- The body of the token response.
pub record TokenAnswer : Type 0 where
  pub access_token : Bytes
  pub error : Bytes

-- GitHub, as the handler meets it: the token response for a code, and status and body for a token.
-- `none` is a call that fails, or a body that does not decode.
pub record Github : Type 0 where
  pub token_for : Bytes → Option TokenAnswer
  pub user_for : Bytes → Option (ℕ × Option GithubUser)
  pub orgs_for : Bytes → Option (ℕ × Option (List Bytes))

pub record OauthHandler : Type 0 where
  pub github : Github
  pub client_id : Bytes
  pub sessions : SessionStore
  pub allowlist : Allowlist
  pub frontend_url : Bytes
  -- url.Values.Encode
  pub encode : List (Bytes × Bytes) → Bytes

-- The states in memory, and the database.
pub record Server : Type 0 where
  pub states : StateStore
  pub db : Db

-- What a handler answers.
pub data Response : Type 0 where
  redirect : Bytes → Response
  -- with the cookie, the time at which it expires, and where to
  sign_in : Bytes → ℕ → Bytes → Response
  too_many_requests : Response

-- exchangeCode
unfoldable pub exchange_code : Github → Bytes → Option Bytes
exchange_code g code = elim (g.token_for code) [
  | none ↦ none
  | some answer ↦
      if not (is_empty answer.error) || is_empty answer.access_token
      then none
      else some answer.access_token
]

-- A status other than 200 is an error.
abbrev pub body_of : {A : Type 0} → Option (ℕ × Option A) → Option A
body_of none = none
body_of (some (status, body)) = if status == 200 then body else none

-- fetchGitHubUser
abbrev pub fetch_github_user : Github → Bytes → Option GithubUser
fetch_github_user g token = body_of (g.user_for token)

-- fetchGitHubOrgs, whose error the handler goes on without organisations.
abbrev pub orgs_or_none : Option (List Bytes) → List Bytes
orgs_or_none none = []
orgs_or_none (some logins) = logins

abbrev pub fetch_github_orgs : Github → Bytes → Option (List Bytes)
fetch_github_orgs g token = body_of (g.orgs_for token)

-- strings.TrimRight at one byte
abbrev drop_slash : ℕ → Bytes → Bytes
drop_slash x [] = if x == b'/' then [] else x ∷ []
drop_slash x (y ∷ ys) = x ∷ y ∷ ys

unfoldable pub trim_slashes : Bytes → Bytes
trim_slashes [] = []
trim_slashes (x ∷ xs) = drop_slash x (trim_slashes xs)

-- frontendURL
unfoldable pub frontend_url : OauthHandler → Bytes → Bytes
unfolding trim_slashes
frontend_url h path = if is_empty h.frontend_url then path else trim_slashes h.frontend_url ++ path

abbrev pub scheme_of : Bool → Bytes → Bytes
scheme_of tls [] = if tls then bytes "https" else bytes "http"
scheme_of tls (c ∷ forwarded) = c ∷ forwarded

-- callbackURL: `forwarded` is the X-Forwarded-Proto header.
unfoldable pub callback_url : OauthHandler → Bool → Bytes → Bytes → Bytes
unfolding trim_slashes
callback_url h tls forwarded host =
    if is_empty h.frontend_url
    then scheme_of tls forwarded ++ bytes "://" ++ host ++ bytes "/auth/github/callback"
    else trim_slashes h.frontend_url ++ bytes "/auth/github/callback"

abbrev authorize : OauthHandler → Bytes → Bytes → Response
authorize h callback [] = too_many_requests
authorize h callback (c ∷ state) = redirect (
    bytes "https://github.com/login/oauth/authorize?"
    ++ h.encode (
        (bytes "client_id", h.client_id)
        ∷ (bytes "state", c ∷ state)
        ∷ (bytes "scope", bytes "read:org")
        ∷ (bytes "redirect_uri", callback)
        ∷ []))

-- HandleGitHubRedirect
unfoldable pub handle_github_redirect :
    OauthHandler → ℕ → Option Bytes → Bytes → Server → Response × Server
unfolding create
handle_github_redirect h now random callback s =
    let (state, states) = create now random s.states in
    (authorize h callback state, record s { states = states })

-- `ON CONFLICT (github_id) DO UPDATE SET …`
abbrev pub renew : GithubUser → User → User
renew g u = record u { github_login = g.login; name = g.name; avatar_url = g.avatar_url }

unfoldable pub find_github : ℕ → List User → Option User
find_github github [] = none
find_github github (u ∷ us) = if u.github_id == github then some u else find_github github us

unfoldable pub renew_user : GithubUser → List User → List User
renew_user g [] = []
renew_user g (u ∷ us) = (if u.github_id == g.id then renew g u else u) ∷ renew_user g us

abbrev pub upsert_at : GithubUser → Option User → Db → ℕ × Db
upsert_at g none db = (
  db.next_id,
  record db {
    users =
        record {
          id = db.next_id;
          github_id = g.id;
          github_login = g.login;
          name = g.name;
          avatar_url = g.avatar_url;
        }
        ∷ db.users;
    next_id = db.next_id + 1;
  },
)
upsert_at g (some u) db = (u.id, record db { users = renew_user g db.users })

unfoldable pub upsert_user : GithubUser → Exec Db ℕ
unfolding statement find_github renew_user
upsert_user g = statement (λ db. upsert_at g (find_github g.id db.users) db)

-- The two writes of a login that is let in.
unfoldable pub open_session : OauthHandler → GithubUser → Exec Db (Bytes × ℕ)
unfolding upsert_user create_session
open_session h g = do user ← upsert_user g; create_session h.sessions user

abbrev pub failure : OauthHandler → Bytes → Response
failure h reason = redirect (frontend_url h (bytes "/login?error=" ++ reason))

abbrev pub landing : OauthHandler → Result (Bytes × ℕ) → Response
landing h (err e) = failure h (bytes "server_error")
landing h (ok (cookie, expires)) = sign_in cookie expires (frontend_url h (bytes "/"))

abbrev pub if_allowed : OauthHandler → GithubUser → Bool → Db → Response × Db
if_allowed h g false db = (failure h (bytes "unauthorized"), db)
if_allowed h g true db = let (r, db') = open_session h g db in (landing h r, db')

abbrev pub with_user : OauthHandler → Bytes → Option GithubUser → Db → Response × Db
with_user h token none db = (failure h (bytes "user_fetch"), db)
with_user h token (some g) db =
    if_allowed h g
      (is_user_allowed h.allowlist g.login (orgs_or_none (fetch_github_orgs h.github token))) db

abbrev pub with_token : OauthHandler → Option Bytes → Db → Response × Db
with_token h none db = (failure h (bytes "token_exchange"), db)
with_token h (some token) db = with_user h token (fetch_github_user h.github token) db

abbrev pub with_code : OauthHandler → Bytes → Db → Response × Db
with_code h [] db = (failure h (bytes "missing_code"), db)
with_code h (c ∷ code) db = with_token h (exchange_code h.github (c ∷ code)) db

abbrev pub if_consumed : OauthHandler → Bytes → Bool → Db → Response × Db
if_consumed h code false db = (failure h (bytes "invalid_state"), db)
if_consumed h code true db = with_code h code db

-- HandleGitHubCallback
unfoldable pub handle_github_callback :
    OauthHandler → ℕ → Bytes → Bytes → Server → Response × Server
unfolding consume frontend_url exchange_code is_user_allowed open_session
handle_github_callback h now state code s =
    let (valid, states) = consume now state s.states in
    let (response, db) = if_consumed h code valid s.db in
    (response, record { states = states; db = db })

-- HandleLogout: the cookie goes, whatever the database says.
abbrev logged_out : OauthHandler → Option Bytes → Exec Db (Unit {0})
logged_out h none = pure tt
logged_out h (some cookie) = attempt (delete_session h.sessions cookie) >>= (λ _. pure tt)

unfoldable pub handle_logout : OauthHandler → Option Bytes → Exec Db (Unit {0})
unfolding delete_session
handle_logout h cookie = logged_out h cookie

abbrev user_or_none : Result User → Option User
user_or_none (err e) = none
user_or_none (ok u) = some u

abbrev session_user : OauthHandler → Option Bytes → Exec Db (Option User)
session_user h none = pure none
session_user h (some cookie) = do
  user ← attempt (validate_session h.sessions cookie)
  pure (user_or_none user)

-- RequireSession: the user for whom the next handler runs; none is the answer 401.
unfoldable pub require_session : OauthHandler → Option Bytes → Exec Db (Option User)
unfolding validate_session
require_session h cookie = session_user h cookie
