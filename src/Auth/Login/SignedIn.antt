-- ===== src/Auth/Login/SignedIn.antt =====
-- As whom a callback of HandleGitHubCallback, in internal/auth/oauth.go, signs in.
use mathlib.Core.Path.{subst}
use mathlib.Core.Option.{map}
use changelogue.Prelude.{
  ℕ, ◌+◌, ◌≡◌, refl, ap, sym, ◌∙◌, Bool, true, false, Option, none, some, List, [], ◌∷◌, Bytes,
  bytes, ltb, ◌==◌, if◌then◌else◌, Bool-cases, inl, inr, ==_refl, ==_iff, arith, All, ◌<◌, ◌≤◌,
}
use changelogue.Exec.{Result}
use changelogue.Models.{User, Session}
use changelogue.Db.{Db, statement}
use changelogue.Ingestion.Atomic.{calm}
use changelogue.Auth.Sessions.{session_duration, find_user, create_session, validate_session}
use changelogue.Auth.Sessions.Lives.{ReadsBack, IsFresh, answer, create-validate}
use changelogue.Auth.Login.{
  GithubUser, OauthHandler, Server, Response, sign_in, frontend_url, renew, find_github, renew_user,
  upsert_at, upsert_user, open_session, landing, handle_github_callback,
}
use changelogue.Auth.Login.Admitted.{admitted, Decides, callback-Decides}

-- A user is found by identifier where it is found by its GitHub identifier, as keys are unique.
abbrev pub IsKeyed : List User → Type 0
IsKeyed users =
    (github : ℕ) (u : User) → find_github github users ≡ some u → find_user u.id users ≡ some u

abbrev Matches : ℕ → Option User → Type 0
Matches github none = Unit
Matches github (some u) = (u.github_id == github) ≡ true

find_github-Matches : (github : ℕ) (users : List User) → Matches github (find_github github users)
unfolding find_github
find_github-Matches github [] = tt
find_github-Matches github (v ∷ vs) = elim (Bool-cases (v.github_id == github)) [
  | inl hit ↦ rw (hit) hit
  | inr miss ↦ rw (miss) (find_github-Matches github vs)
]

abbrev renew_if : GithubUser → User → User
renew_if g u = if u.github_id == g.id then renew g u else u

renew_if-id : (g : GithubUser) (u : User) → (renew_if g u).id ≡ u.id
renew_if-id g u = elim (Bool-cases (u.github_id == g.id)) [
  | inl hit ↦ rw (hit) refl
  | inr miss ↦ rw (miss) refl
]

find_user-renew :
    (g : GithubUser) (id : ℕ) (users : List User)
    → find_user id (renew_user g users) ≡ map (renew_if g) (find_user id users)
unfolding find_user renew_user
find_user-renew g id [] = refl
find_user-renew g id (v ∷ vs) = elim (Bool-cases (v.id == id)) [
  | inl hit ↦ rw (renew_if-id g v, hit) refl
  | inr miss ↦ rw (renew_if-id g v, miss) (find_user-renew g id vs)
]

-- The row of the user whom an upsert has just written.
abbrev Written : GithubUser → Option User → Type 0
Written g o = (u : User) × (o ≡ some u) × (u.github_id ≡ g.id) × (u.github_login ≡ g.login)

upsert-Written :
    (g : GithubUser) (o : Option User) (db : Db)
    → find_github g.id db.users ≡ o
    → IsKeyed db.users
    → Written g (find_user (upsert_at g o db).0 (upsert_at g o db).1.users)
unfolding find_user
upsert-Written g none db e keyed = rw (==_refl db.next_id) (_, refl, refl, refl)
upsert-Written g (some u) db e keyed =
    let hit = subst (Matches g.id) e (find_github-Matches g.id db.users) in
    rw (find_user-renew g u.id db.users, keyed g.id u e, hit)
      (renew g u, refl, (==_iff u.github_id g.id).0 hit, refl)

-- What an account's cookie gives at the time `t`: the account, until the session is over.
abbrev pub StandsFor : GithubUser → Bool → Option User → Type 0
StandsFor g true o = Written g o
StandsFor g false o = o ≡ none

-- The answer `x.0` signs in with a cookie that stands for the account in `x.1`, at the time `t`.
abbrev pub SignsIn : OauthHandler → GithubUser → ℕ → ℕ → Response × Db → Type 0
SignsIn h g expires t x =
    (cookie : Bytes) × (x.0 ≡ sign_in cookie expires (frontend_url h (bytes "/")))
    × StandsFor g (ltb t expires)
        (answer (validate_session h.sessions cookie (calm (record x.1 { now = t }))).0)

StandsFor-if :
    (g : GithubUser) (u : User) (b : Bool)
    → u.github_id ≡ g.id
    → u.github_login ≡ g.login
    → StandsFor g b (if b then some u else none)
StandsFor-if g u true id login = (u, refl, id, login)
StandsFor-if g u false id login = refl

abbrev landed : OauthHandler → Result (Bytes × ℕ) × Db → Response × Db
landed h x = (landing h x.0, x.1)

session-SignsIn :
    (h : OauthHandler) (g : GithubUser) (user : ℕ) (db : Db) (t : ℕ)
    → ReadsBack h.sessions
    → IsFresh db
    → Written g (find_user user db.users)
    → SignsIn h g
        (db.now + session_duration)
        t
        (landed h (create_session h.sessions user (calm db)))
session-SignsIn h g user db t back fresh (u, found, id, login) =
    let (made, seen) = create-validate h.sessions user u db t back fresh found in
    (
      _,
      ap (landing h) made,
      subst (StandsFor g (ltb t (db.now + session_duration))) (sym seen)
          (StandsFor-if g u (ltb t (db.now + session_duration)) id login),
    )

-- The identifiers of the sessions are below those that the next rows get.
abbrev pub AreBelow : ℕ → List Session → Type 0
AreBelow n = All (λ (r : Session). r.id < n)

below_differs : (n m a : ℕ) → n ≤ m → a < n → (a == m) ≡ false
below_differs n m a h below = ground arith

AreBelow-IsFresh :
    (n m : ℕ) (ss : List Session)
    → n ≤ m
    → AreBelow n ss
    → All (λ (r : Session). (r.id == m) ≡ false) ss
AreBelow-IsFresh n m [] h below = tt
AreBelow-IsFresh n m (r ∷ ss) h below =
    (below_differs n m r.id h below.0, AreBelow-IsFresh n m ss h below.1)

upsert-SignsIn :
    (h : OauthHandler) (g : GithubUser) (o : Option User) (db : Db) (t : ℕ)
    → ReadsBack h.sessions
    → AreBelow db.next_id db.sessions
    → IsKeyed db.users
    → find_github g.id db.users ≡ o
    → SignsIn h g
        (db.now + session_duration)
        t
        (landed h (create_session h.sessions (upsert_at g o db).0 (calm (upsert_at g o db).1)))
upsert-SignsIn h g none db t back below keyed e =
    session-SignsIn h g (upsert_at g none db).0 (upsert_at g none db).1 t back
      (AreBelow-IsFresh db.next_id (db.next_id + 1) db.sessions (omega arith) below)
      (upsert-Written g none db e keyed)
upsert-SignsIn h g (some u) db t back below keyed e =
    session-SignsIn h g u.id (upsert_at g (some u) db).1 t back
      (AreBelow-IsFresh db.next_id db.next_id db.sessions (omega arith) below)
      (upsert-Written g (some u) db e keyed)

upsert_at-calm :
    (g : GithubUser) (o : Option User) (db : Db)
    → ((upsert_at g o (calm db)).0 ≡ (upsert_at g o db).0)
      × ((upsert_at g o (calm db)).1 ≡ calm (upsert_at g o db).1)
upsert_at-calm g none db = (refl, refl)
upsert_at-calm g (some u) db = (refl, refl)

open_session-calm :
    (h : OauthHandler) (g : GithubUser) (db : Db)
    → open_session h g (calm db)
      ≡ create_session h.sessions
          (upsert_at g (find_github g.id db.users) db).0
          (calm (upsert_at g (find_github g.id db.users) db).1)
unfolding open_session upsert_user statement
open_session-calm h g db =
    let same = upsert_at-calm g (find_github g.id db.users) db in
    ap
      (λ user. create_session h.sessions user (upsert_at g (find_github g.id db.users) (calm db)).1)
      same.0
    ∙ ap (create_session h.sessions (upsert_at g (find_github g.id db.users) db).0) same.1

-- Where no call fails, a callback that is admitted signs its user in at the front page for seven days,
-- and its cookie stands for the stored user of that GitHub account, under its present login, until then
-- and for nobody after that. The tables have keys: identifiers below the next one, and one user to an
-- identifier.
pub callback-SignsIn :
    (h : OauthHandler) (now : ℕ) (state code : Bytes) (s : Server) (g : GithubUser) (t : ℕ)
    → ReadsBack h.sessions
    → AreBelow s.db.next_id s.db.sessions
    → IsKeyed s.db.users
    → admitted h now state code s ≡ some g
    → SignsIn h g (s.db.now + session_duration) t (
      (handle_github_callback h now state code (record s { db = calm s.db })).0,
      (handle_github_callback h now state code (record s { db = calm s.db })).1.db,
    )
callback-SignsIn h now state code s g t back below keyed e =
    let decided =
      subst
        (λ o. Decides h o (calm s.db) (
          (handle_github_callback h now state code (record s { db = calm s.db })).0,
          (handle_github_callback h now state code (record s { db = calm s.db })).1.db,
        ))
        e (callback-Decides h now state code (record s { db = calm s.db })) in
    subst (SignsIn h g (s.db.now + session_duration) t)
      (sym (decided ∙ ap (landed h) (open_session-calm h g s.db)))
      (upsert-SignsIn h g (find_github g.id s.db.users) s.db t back below keyed refl)
