-- ===== src/Auth/Sessions/Lives.antt =====
-- The life of a session of internal/auth/session.go: from the login to its end.
use changelogue.Prelude.{
  ℕ, ◌+◌, ◌≡◌, ◌≢◌, refl, ap, sym, ◌∙◌, Bool, true, false, ◌&&◌, not, Option, none, some, List, [],
  ◌∷◌, Bytes, ltb, ◌==◌, if◌then◌else◌, keep, Bool-cases, inl, inr, ==_refl, ==_iff, arith, All,
  ◌≤◌,
}
use changelogue.Exec.{Result, ok, err, Outcome, ◌>>=◌}
use changelogue.Models.{User, Session}
use changelogue.Db.{Db, statement, query}
use changelogue.Db.Rules.{statement-Outcome}
use changelogue.Db.Rows.{required, or_refuse}
use changelogue.Ingestion.Atomic.{calm}
use changelogue.Auth.Cookie.{sign_session_cookie, parse_session_cookie}
use changelogue.Auth.Cookie.Laws.{parse_iff_signed}
use changelogue.Auth.Sessions.{
  SessionStore, session_duration, insert_session, create_session, find_user, find_live, user_of,
  validate_session, delete_session, is_over, cleanup_expired,
}

-- The session that a cookie names.
abbrev named : SessionStore → Option Bytes → Option ℕ
named s none = none
named s (some session) = s.read_id session

abbrev pub session_of : SessionStore → Bytes → Option ℕ
session_of s cookie = named s (parse_session_cookie s.mac cookie s.secret)

-- The user that a cookie stands for, read off the database.
abbrev holder_of : Option ℕ → ℕ → List Session → List User → Option User
holder_of none now sessions users = none
holder_of (some id) now sessions users = user_of (find_live id now sessions) users

abbrev pub holder : SessionStore → Bytes → Db → Option User
holder s cookie db = holder_of (session_of s cookie) db.now db.sessions db.users

-- The answer alone, its error left aside.
abbrev pub answer : {A : Type 0} → Result A → Option A
answer (ok a) = some a
answer (err e) = none

validate-answer :
    (s : SessionStore) (cookie : Bytes) (db : Db)
    → answer (validate_session s cookie (calm db)).0 ≡ holder s cookie db
unfolding validate_session query
validate-answer s cookie db = by_session (parse_session_cookie s.mac cookie s.secret)
  where
    row_answer : (o : Option User) → answer (required o (calm db)).0 ≡ o
    row_answer none = refl
    row_answer (some u) = refl

    by_id :
        (o : Option ℕ)
        → answer
            ((or_refuse o >>= λ id.
                query (λ d. user_of (find_live id d.now d.sessions) d.users) >>= required)
              (calm db)).0
          ≡ holder_of o db.now db.sessions db.users
    by_id none = refl
    by_id (some id) = row_answer (user_of (find_live id db.now db.sessions) db.users)

    by_session :
        (o : Option Bytes)
        → answer
            ((or_refuse o >>= λ session. or_refuse (s.read_id session) >>= λ id.
                query (λ d. user_of (find_live id d.now d.sessions) d.users) >>= required)
              (calm db)).0
          ≡ holder_of (named s o) db.now db.sessions db.users
    by_session none = refl
    by_session (some session) = by_id (s.read_id session)

-- No session has the identifier that the next row gets.
abbrev pub IsFresh : Db → Type 0
IsFresh db = All (λ (r : Session). (r.id == db.next_id) ≡ false) db.sessions

find_live-absent :
    (id now : ℕ) (ss : List Session)
    → All (λ (r : Session). (r.id == id) ≡ false) ss
    → find_live id now ss ≡ none
unfolding find_live
find_live-absent id now [] h = refl
find_live-absent id now (r ∷ ss) h = rw (h.0) (find_live-absent id now ss h.1)

-- What the database makes of its own text of an identifier.
abbrev pub ReadsBack : SessionStore → Type 0
ReadsBack s = (id : ℕ) → s.read_id (s.write_id id) ≡ some id

signed-session_of :
    (s : SessionStore) (id : ℕ)
    → ReadsBack s
    → session_of s (sign_session_cookie s.mac (s.write_id id) s.secret) ≡ some id
signed-session_of s id back =
    ap (named s) ((parse_iff_signed s.mac s.secret (s.write_id id) _).1 refl) ∙ back id

new_session-user :
    (id user expires t : ℕ) (u : User) (ss : List Session) (users : List User)
    → All (λ (r : Session). (r.id == id) ≡ false) ss
    → find_user user users ≡ some u
    → user_of (find_live id t (record { id = id; user_id = user; expires_at = expires } ∷ ss)) users
      ≡ (if ltb t expires then some u else none)
unfolding find_live
new_session-user id user expires t u ss users absent found = elim (Bool-cases (ltb t expires)) [
  | inl live ↦ rw (==_refl id, live) found
  | inr over ↦ rw (==_refl id, over, find_live-absent id t ss absent) refl
]

-- The database after the login at `db.now`, at the time `t`.
abbrev pub logged_in_at : SessionStore → ℕ → Db → ℕ → Db
logged_in_at s user db t = record (create_session s user (calm db)).1 { now = t }

-- Where no call fails, the cookie of a new session stands for its user for seven days to the second,
-- and for nobody after that.
pub create-validate :
    (s : SessionStore) (user : ℕ) (u : User) (db : Db) (t : ℕ)
    → ReadsBack s
    → IsFresh db
    → find_user user db.users ≡ some u
    → ((create_session s user (calm db)).0
        ≡ ok
            (sign_session_cookie s.mac (s.write_id db.next_id) s.secret, db.now + session_duration))
      × (answer
            (validate_session s
              (sign_session_cookie s.mac (s.write_id db.next_id) s.secret)
              (calm (logged_in_at s user db t))).0
          ≡ (if ltb t (db.now + session_duration) then some u else none))
unfolding create_session insert_session statement
create-validate s user u db t back fresh found = (
  refl,
  validate-answer s (sign_session_cookie s.mac (s.write_id db.next_id) s.secret)
        (logged_in_at s user db t)
      ∙ ap (λ o. holder_of o t (logged_in_at s user db t).sessions db.users)
          (signed-session_of s db.next_id back)
      ∙ new_session-user db.next_id user (db.now + session_duration) t u db.sessions db.users fresh
          found,
)

-- Whom a cookie stands for at the time `t`, where the tables stay as they are.
abbrev pub holder_at : SessionStore → Bytes → ℕ → Db → Option User
holder_at s cookie t db = holder s cookie (record db { now = t })

find_live-deleted :
    (id t : ℕ) (ss : List Session) → find_live id t (keep (λ r. not (r.id == id)) ss) ≡ none
unfolding find_live keep
find_live-deleted id t [] = refl
find_live-deleted id t (r ∷ ss) = elim (Bool-cases (r.id == id)) [
  | inl hit ↦ rw (hit) (find_live-deleted id t ss)
  | inr miss ↦ rw (miss, miss) (find_live-deleted id t ss)
]

and_false : (b : Bool) → (b && false) ≡ false
and_false true = refl
and_false false = refl

equal_differs : (a b c : ℕ) → (a == b) ≡ true → (b == c) ≡ false → (a == c) ≡ false
equal_differs a b c h k = ground arith

find_live-spared :
    (id other t : ℕ) (ss : List Session)
    → (id == other) ≡ false
    → find_live other t (keep (λ r. not (r.id == id)) ss) ≡ find_live other t ss
unfolding find_live keep
find_live-spared id other t [] h = refl
find_live-spared id other t (r ∷ ss) h = elim (Bool-cases (r.id == id)) [
  | inl hit ↦ rw (hit, equal_differs r.id id other hit h) (find_live-spared id other t ss h)
  | inr miss ↦ rw (miss, find_live-spared id other t ss h) refl
]

-- A cookie of another session, or of none, stands for whom it stood for.
abbrev pub Spares : SessionStore → Bytes → Db → Db → Type 0
Spares s cookie db d =
    (other : Bytes) (t : ℕ)
    → session_of s other ≢ session_of s cookie
    → holder_at s other t d ≡ holder_at s other t db

abbrev deleted : ℕ → Db → Db
deleted id db = record db { sessions = keep (λ r. not (r.id == id)) db.sessions }

holder-deleted :
    (id : ℕ) (o : Option ℕ) (t : ℕ) (db : Db)
    → o ≢ some id
    → holder_of o t (deleted id db).sessions db.users ≡ holder_of o t db.sessions db.users
holder-deleted id none t db h = refl
holder-deleted id (some other) t db h = elim (Bool-cases (id == other)) [
  | inl hit ↦ elim (h (ap some (sym ((==_iff id other).0 hit)))) [ ]
  | inr miss ↦ rw (find_live-spared id other t db.sessions miss) refl
]

-- Whatever calls fail, the end of a session ends no other one, and where it is reported, the cookie
-- stands for nobody from then on.
pub delete-Spares :
    (s : SessionStore) (cookie : Bytes) (db : Db)
    → Outcome
        (Spares s cookie db)
        (λ _ d. ((t : ℕ) → holder_at s cookie t d ≡ none) × Spares s cookie db d)
        (delete_session s cookie db)
unfolding delete_session
delete-Spares s cookie db = by_session (parse_session_cookie s.mac cookie s.secret) refl
  where
    Ended : Unit {0} → Db → Type 0
    Ended _ d = ((t : ℕ) → holder_at s cookie t d ≡ none) × Spares s cookie db d

    by_id :
        (o : Option ℕ)
        → session_of s cookie ≡ o
        → Outcome (Spares s cookie db) Ended (
            (or_refuse o >>= λ id.
            statement (λ d. (tt, record d { sessions = keep (λ r. not (r.id == id)) d.sessions })))
              db)
    by_id none e = λ other t away. refl
    by_id (some id) e =
        statement-Outcome (Spares s cookie db) Ended
          (λ d. (tt, record d { sessions = keep (λ r. not (r.id == id)) d.sessions })) db
          (λ _ d q. q.1) (λ other t away. refl)
          (
            λ t.
                ap (λ o. holder_of o t (deleted id db).sessions db.users) e
                ∙ ap (λ row. user_of row db.users) (find_live-deleted id t db.sessions),
            λ other t away.
                holder-deleted id (session_of s other) t db (λ same. away (same ∙ sym e)),
          )

    by_session :
        (o : Option Bytes)
        → parse_session_cookie s.mac cookie s.secret ≡ o
        → Outcome (Spares s cookie db) Ended (
            (or_refuse o >>= λ session. or_refuse (s.read_id session) >>= λ id.
            statement (λ d. (tt, record d { sessions = keep (λ r. not (r.id == id)) d.sessions })))
              db)
    by_session none e = λ other t away. refl
    by_session (some session) e = by_id (s.read_id session) (ap (named s) e)

not_over : (now t expires : ℕ) → now ≤ t → ltb expires now ≡ true → ltb t expires ≡ false
not_over now t expires h over = ground arith

find_live-swept :
    (id now t : ℕ) (ss : List Session)
    → now ≤ t
    → find_live id t (keep (λ r. not (is_over now r)) ss) ≡ find_live id t ss
unfolding find_live keep
find_live-swept id now t [] h = refl
find_live-swept id now t (r ∷ ss) h = elim (Bool-cases (is_over now r)) [
  | inl over ↦
      rw (over, not_over now t r.expires_at h over, and_false (r.id == id))
        (find_live-swept id now t ss h)
  | inr live ↦ rw (live, find_live-swept id now t ss h) refl
]

holder-swept :
    (o : Option ℕ) (now t : ℕ) (db : Db)
    → now ≤ t
    → holder_of o t (keep (λ r. not (is_over now r)) db.sessions) db.users
      ≡ holder_of o t db.sessions db.users
holder-swept none now t db h = refl
holder-swept (some id) now t db h =
    ap (λ row. user_of row db.users) (find_live-swept id now t db.sessions h)

-- Whatever calls fail, the hourly removal of expired sessions changes for no cookie whom it stands
-- for, at its own time or later.
pub cleanup-holder :
    (s : SessionStore) (cookie : Bytes) (t : ℕ) (db : Db)
    → db.now ≤ t
    → Outcome
        (λ d. holder_at s cookie t d ≡ holder_at s cookie t db)
        (λ _ d. holder_at s cookie t d ≡ holder_at s cookie t db)
        (cleanup_expired db)
unfolding cleanup_expired
cleanup-holder s cookie t db h =
    statement-Outcome (λ d. holder_at s cookie t d ≡ holder_at s cookie t db)
      (λ _ d. holder_at s cookie t d ≡ holder_at s cookie t db) _ db (λ _ d q. q) refl
      (holder-swept (session_of s cookie) db.now t db h)
