-- ===== src/Auth/Login/Admitted.antt =====
-- Who gets in through HandleGitHubCallback of internal/auth/oauth.go.
use mathlib.Core.Path.{subst}
use changelogue.Prelude.{
  ℕ, ◌≡◌, refl, Bool, true, false, Option, none, some, [], ◌∷◌, Bytes, if◌then◌else◌, Bool-cases,
  inl, inr, is_empty,
}
use changelogue.Db.{Db}
use changelogue.Auth.Allowlist.{is_user_allowed}
use changelogue.Auth.States.{consume}
use changelogue.Auth.Login.{
  GithubUser, OauthHandler, Server, Response, redirect, exchange_code, fetch_github_user,
  fetch_github_orgs, orgs_or_none, open_session, landing, with_user, with_token, with_code,
  if_consumed, handle_github_callback,
}

-- Whom a callback stands for, where he may log in.
abbrev pub if_listed : OauthHandler → Bytes → Option GithubUser → Option GithubUser
if_listed h token none = none
if_listed h token (some g) =
    if is_user_allowed h.allowlist g.login (orgs_or_none (fetch_github_orgs h.github token))
    then some g
    else none

abbrev pub owner_of : OauthHandler → Option Bytes → Option GithubUser
owner_of h none = none
owner_of h (some token) = if_listed h token (fetch_github_user h.github token)

abbrev pub owner : OauthHandler → Bytes → Option GithubUser
owner h code = if is_empty code then none else owner_of h (exchange_code h.github code)

-- The state is one that waits, and GitHub vouches for a user on the list.
abbrev pub admitted : OauthHandler → ℕ → Bytes → Bytes → Server → Option GithubUser
admitted h now state code s = if (consume now state s.states).0 then owner h code else none

-- The writes and the answer for the user that is admitted.
abbrev pub let_in : OauthHandler → GithubUser → Db → Response × Db
let_in h g db = let (r, db') = open_session h g db in (landing h r, db')

-- A login that is refused writes nothing and gives no cookie.
pub data IsRefused (db : Db) : Response × Db → Type 0 where
  refused_at : (path : Bytes) → IsRefused db (redirect path, db)

abbrev pub Decides : OauthHandler → Option GithubUser → Db → Response × Db → Type 0
Decides h none db x = IsRefused db x
Decides h (some g) db x = x ≡ let_in h g db

user-Decides :
    (h : OauthHandler) (token : Bytes) (o : Option GithubUser) (db : Db)
    → Decides h (if_listed h token o) db (with_user h token o db)
user-Decides h token none db = refused_at _
user-Decides h token (some g) db =
    elim (Bool-cases
      (is_user_allowed h.allowlist g.login (orgs_or_none (fetch_github_orgs h.github token)))) [
        | inl hit ↦ rw (hit) refl
        | inr miss ↦ rw (miss) (refused_at _)
      ]

token-Decides :
    (h : OauthHandler) (o : Option Bytes) (db : Db)
    → Decides h (owner_of h o) db (with_token h o db)
token-Decides h none db = refused_at _
token-Decides h (some token) db = user-Decides h token (fetch_github_user h.github token) db

code-Decides :
    (h : OauthHandler) (code : Bytes) (db : Db) → Decides h (owner h code) db (with_code h code db)
code-Decides h [] db = refused_at _
code-Decides h (c ∷ code) db = token-Decides h (exchange_code h.github (c ∷ code)) db

consumed-Decides :
    (h : OauthHandler) (code : Bytes) (valid : Bool) (db : Db)
    → Decides h (if valid then owner h code else none) db (if_consumed h code valid db)
consumed-Decides h code false db = refused_at _
consumed-Decides h code true db = code-Decides h code db

pub callback-Decides :
    (h : OauthHandler) (now : ℕ) (state code : Bytes) (s : Server)
    → Decides h (admitted h now state code s) s.db (
      (handle_github_callback h now state code s).0,
      (handle_github_callback h now state code s).1.db,
    )
unfolding handle_github_callback
callback-Decides h now state code s = consumed-Decides h code (consume now state s.states).0 s.db

-- Whatever calls fail, a callback whose state does not wait, or that GitHub does not vouch for, or
-- whose user is not on the list, writes nothing to the database and gives no cookie.
pub callback-IsRefused :
    (h : OauthHandler) (now : ℕ) (state code : Bytes) (s : Server)
    → admitted h now state code s ≡ none
    → IsRefused s.db (
      (handle_github_callback h now state code s).0,
      (handle_github_callback h now state code s).1.db,
    )
callback-IsRefused h now state code s e =
    subst
      (λ o. Decides h o s.db (
        (handle_github_callback h now state code s).0,
        (handle_github_callback h now state code s).1.db,
      ))
      e (callback-Decides h now state code s)
