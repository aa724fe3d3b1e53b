-- ===== src/Samples/Logins.antt =====
-- A login through GitHub, and the session that it opens.
use changelogue.Prelude.{
  ℕ, ◌≡◌, ◌+◌, ◌||◌, refl, true, Option, none, some, [], ◌∷◌, Bytes, bytes, ltb, if◌then◌else◌,
  arith, same,
}
use changelogue.Exec.{ok, Outcome}
use changelogue.Models.{User, Session}
use changelogue.Db.{Db}
use changelogue.Ingestion.Atomic.{calm}
use changelogue.Text.{to_lower, trim_space}
use changelogue.Auth.Cookie.{sign_session_cookie}
use changelogue.Auth.Allowlist.{new_allowlist, listed, is_user_allowed}
use changelogue.Auth.Allowlist.Names.{comma_list, is_named, any_named, is_user_allowed-comma_list}
use changelogue.Auth.States.{consume, find_state}
use changelogue.Auth.Sessions.{
  SessionStore, session_duration, find_user, create_session, validate_session, delete_session,
  cleanup_expired,
}
use changelogue.Auth.Sessions.Lives.{
  ReadsBack, IsFresh, answer, logged_in_at, holder_at, Spares, create-validate, delete-Spares,
  cleanup-holder,
}
use changelogue.Auth.Login.{
  GithubUser, Github, OauthHandler, Server, exchange_code, find_github, handle_github_callback,
}
use changelogue.Auth.Login.Admitted.{admitted, IsRefused, callback-IsRefused}
use changelogue.Auth.Login.SignedIn.{SignsIn, IsKeyed, callback-SignsIn}
use changelogue.Samples.Notified.{stored}
use changelogue.Samples.Sessions.{first_state, short_mac}
use changelogue.Samples.Sessions

is_user_allowed-comma_list_example :
    is_user_allowed
      (new_allowlist (comma_list (bytes "ann") (bytes " Bob" ∷ [])) (comma_list (bytes "org") []))
      (bytes "eve")
      (bytes "home" ∷ bytes "Org" ∷ [])
    ≡ (is_named (bytes "eve") (bytes "ann" ∷ bytes " Bob" ∷ [])
        || any_named (bytes "home" ∷ bytes "Org" ∷ []) (bytes "org" ∷ []))
is_user_allowed-comma_list_example =
    is_user_allowed-comma_list (bytes "ann") (bytes " Bob" ∷ []) (bytes "org") [] (bytes "eve")
      (bytes "home" ∷ bytes "Org" ∷ []) (refl, (refl, (refl, tt)))
      ((refl, (refl, (refl, (refl, tt)))), tt) (refl, (refl, (refl, tt))) tt

allowed_by_organisation : any_named (bytes "home" ∷ bytes "Org" ∷ []) (bytes "org" ∷ []) ≡ true
unfolding any_named is_named to_lower trim_space same
allowed_by_organisation = refl

-- Identifiers of one byte.
abbrev first_byte : Bytes → Option ℕ
first_byte [] = none
first_byte (c ∷ text) = some c

abbrev store : SessionStore
store = record {
  mac = short_mac;
  secret = bytes "key";
  write_id = λ id. id ∷ [];
  read_id = first_byte;
}

store-ReadsBack : ReadsBack store
store-ReadsBack id = refl

abbrev bob : User
bob = record { id = 15; github_id = 5; github_login = bytes "bob"; name = []; avatar_url = [] }

abbrev older : Session
older = record { id = 16; user_id = 15; expires_at = 2000 }

abbrev known : Db
known = record stored { users = bob ∷ []; sessions = older ∷ [] }

known-IsFresh : IsFresh known
known-IsFresh = (refl, tt)

found_bob : find_user 15 known.users ≡ some bob
unfolding find_user
found_bob = refl

create-validate_example :
    ((create_session store 15 (calm known)).0
      ≡ ok (sign_session_cookie short_mac (20 ∷ []) (bytes "key"), 1000 + session_duration))
    × (answer
          (validate_session store
            (sign_session_cookie short_mac (20 ∷ []) (bytes "key"))
            (calm (logged_in_at store 15 known 5000))).0
        ≡ (if ltb 5000 (1000 + session_duration) then some bob else none))
create-validate_example =
    create-validate store 15 bob known 5000 store-ReadsBack known-IsFresh found_bob

abbrev cookie : Bytes
cookie = sign_session_cookie short_mac (16 ∷ []) (bytes "key")

cleanup-holder_example :
    Outcome
      (λ d. holder_at store cookie 1500 d ≡ holder_at store cookie 1500 known)
      (λ _ d. holder_at store cookie 1500 d ≡ holder_at store cookie 1500 known)
      (cleanup_expired known)
cleanup-holder_example = cleanup-holder store cookie 1500 known (omega arith)

delete-Spares_example :
    Outcome
      (Spares store cookie known)
      (λ _ d. ((t : ℕ) → holder_at store cookie t d ≡ none) × Spares store cookie known d)
      (delete_session store cookie known)
delete-Spares_example = delete-Spares store cookie known

abbrev carol : GithubUser
carol = record { id = 9; login = bytes "Carol"; name = bytes "C"; avatar_url = [] }

abbrev github : Github
github = record {
  token_for = λ code. some (record { access_token = bytes "t"; error = [] });
  user_for = λ token. some (200, some carol);
  orgs_for = λ token. none;
}

abbrev handler : OauthHandler
handler = record {
  github = github;
  client_id = bytes "id";
  sessions = store;
  allowlist = record { users = bytes "carol" ∷ []; orgs = [] };
  frontend_url = [];
  encode = λ values. [];
}

abbrev server : Server
server = record { states = Sessions.stored; db = record stored { sessions = older ∷ [] } }

unknown_state : admitted handler 105 (bytes "62") (bytes "c") server ≡ none
unfolding consume find_state same
unknown_state = refl

callback-IsRefused_example : IsRefused server.db (
  (handle_github_callback handler 105 (bytes "62") (bytes "c") server).0,
  (handle_github_callback handler 105 (bytes "62") (bytes "c") server).1.db,
)
callback-IsRefused_example =
    callback-IsRefused handler 105 (bytes "62") (bytes "c") server unknown_state

no_users-IsKeyed : IsKeyed []
unfolding find_github
no_users-IsKeyed github user e = cc

admitted-carol : admitted handler 105 first_state (bytes "c") server ≡ some carol
unfolding consume find_state same exchange_code is_user_allowed listed to_lower
admitted-carol = refl

callback-SignsIn_example : SignsIn handler carol (1000 + session_duration) 5000 (
  (handle_github_callback handler 105 first_state
      (bytes "c")
      (record server { db = calm server.db })).0,
  (handle_github_callback handler 105 first_state
      (bytes "c")
      (record server { db = calm server.db })).1.db,
)
callback-SignsIn_example =
    callback-SignsIn handler 105 first_state (bytes "c") server carol 5000 store-ReadsBack
      (omega arith, tt) no_users-IsKeyed admitted-carol
