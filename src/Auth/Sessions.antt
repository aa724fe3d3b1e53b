-- ===== src/Auth/Sessions.antt =====
-- SessionStore of internal/auth/session.go, on the tables `users` and `sessions`.
pub mod Lives
use changelogue.Prelude.{
  ℕ, ◌+◌, ◌*◌, Bool, true, false, ◌&&◌, not, Option, none, some, List, [], ◌∷◌, Bytes, ltb, ◌==◌,
  if◌then◌else◌, keep, length,
}
use changelogue.Exec.{Exec, pure, ◌>>=◌}
use changelogue.Models.{User, Session}
use changelogue.Db.{Db, statement, query}
use changelogue.Db.Rows.{required, or_refuse}
use changelogue.Auth.Cookie.{Mac, sign_session_cookie, parse_session_cookie}

-- `mac` and the text of a UUID are parameters; `read_id` is what PostgreSQL makes of a text.
pub record SessionStore : Type 0 where
  pub mac : Mac
  pub secret : Bytes
  pub write_id : ℕ → Bytes
  pub read_id : Bytes → Option ℕ

-- 7 * 24 * time.Hour
abbrev pub session_duration : ℕ
session_duration = 7 * 24 * 3600

-- `INSERT INTO sessions … RETURNING id`, for a user that is stored, with the row's `expires_at`. The
-- clocks of the server and of the database are one.
unfoldable pub insert_session : ℕ → Exec Db (ℕ × ℕ)
unfolding statement
insert_session user = statement (λ db. (
  (db.next_id, db.now + session_duration),
  record db {
    sessions =
        record { id = db.next_id; user_id = user; expires_at = db.now + session_duration }
        ∷ db.sessions;
    next_id = db.next_id + 1;
  },
))

-- CreateSession
unfoldable pub create_session : SessionStore → ℕ → Exec Db (Bytes × ℕ)
unfolding insert_session sign_session_cookie
create_session s user = do
  row ← insert_session user
  pure (sign_session_cookie s.mac (s.write_id row.0) s.secret, row.1)

unfoldable pub find_user : ℕ → List User → Option User
find_user id [] = none
find_user id (u ∷ us) = if u.id == id then some u else find_user id us

abbrev is_live : ℕ → ℕ → Session → Bool
is_live id now s = s.id == id && ltb now s.expires_at

-- `sessions s JOIN users u … WHERE s.id = $1 AND s.expires_at > NOW()`
unfoldable pub find_live : ℕ → ℕ → List Session → Option Session
find_live id now [] = none
find_live id now (s ∷ ss) = if is_live id now s then some s else find_live id now ss

abbrev pub user_of : Option Session → List User → Option User
user_of none users = none
user_of (some s) users = find_user s.user_id users

-- ParseSessionCookie's error is `external` here.
unfoldable pub validate_session : SessionStore → Bytes → Exec Db User
unfolding parse_session_cookie query find_live find_user
validate_session s cookie = do
  session ← or_refuse (parse_session_cookie s.mac cookie s.secret)
  id ← or_refuse (s.read_id session)
  row ← query (λ db. user_of (find_live id db.now db.sessions) db.users)
  required row

unfoldable pub delete_session : SessionStore → Bytes → Exec Db (Unit {0})
unfolding parse_session_cookie statement keep
delete_session s cookie = do
  session ← or_refuse (parse_session_cookie s.mac cookie s.secret)
  id ← or_refuse (s.read_id session)
  statement (λ db. (tt, record db { sessions = keep (λ r. not (r.id == id)) db.sessions }))

abbrev pub is_over : ℕ → Session → Bool
is_over now s = ltb s.expires_at now

-- The number of the rows that went.
unfoldable pub cleanup_expired : Exec Db ℕ
unfolding statement keep
cleanup_expired = statement (λ db. (
  length (keep (is_over db.now) db.sessions),
  record db { sessions = keep (λ r. not (is_over db.now r)) db.sessions },
))
