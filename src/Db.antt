-- ===== src/Db.antt =====
-- The PostgreSQL database behind the stores, with the job queue that lives in it, its clock, and a
-- script of the faults to come. A statement is atomic; a transaction is rolled back on an error.
pub mod Rules
pub mod Preserve
pub mod Quiet
pub mod Rows
use changelogue.Prelude.{ℕ, Bytes, Option, List, [], ◌∷◌, Bool}
use changelogue.Exec.{db_error, Result, ok, err, Fault, served, refused, unacked, Exec}
use changelogue.Models.{
  Project, Source, Release, VersionReadiness, GateEvent, AgentRun, Job, Todo, NotificationChannel,
  SemanticRelease, User, Session, Sent, Subscription, VersionMapping, OnboardScan,
}

-- A row of release_gates: here the column `nl_rule` may be NULL.
pub record GateRow : Type 0 where
  pub id : ℕ
  pub project_id : ℕ
  pub required_sources : List ℕ
  pub timeout_hours : ℕ
  pub version_mapping : List (ℕ × VersionMapping)
  pub nl_rule : Option Bytes
  pub enabled : Bool

pub record Db : Type 0 where
  pub projects : List Project
  pub sources : List Source
  pub releases : List Release
  pub gates : List GateRow
  pub readiness : List VersionReadiness
  pub events : List GateEvent
  pub runs : List AgentRun
  pub jobs : List Job
  pub todos : List Todo
  pub channels : List NotificationChannel
  pub subscriptions : List Subscription
  pub semantic_releases : List SemanticRelease
  -- semantic_release_sources: the semantic release, then the release
  pub semantic_sources : List (ℕ × ℕ)
  pub users : List User
  pub sessions : List Session
  pub scans : List OnboardScan
  -- the jobs of the kind scan_dependencies, by their scan
  pub scan_jobs : List ℕ
  -- what went out to the channels, the latest first
  pub sent : List Sent
  pub now : ℕ
  -- gen_random_uuid(): an identifier that no row has
  pub next_id : ℕ
  pub faults : List Fault

abbrev pub next_fault : List Fault → Fault
next_fault [] = served
next_fault (f ∷ fs) = f

abbrev pub later_faults : List Fault → List Fault
later_faults [] = []
later_faults (f ∷ fs) = fs

abbrev pub past_call : Db → Db
past_call db = record db { faults = later_faults db.faults }

-- A statement that writes: `f` is its effect and its answer.
abbrev pub under : {A : Type 0} → Fault → (Db → A × Db) → Db → Result A × Db
under served f db = let (a, db') = f db in (ok a, db')
under refused f db = (err db_error, db)
under unacked f db = let (a, db') = f db in (err db_error, db')

unfoldable pub statement : {A : Type 0} → (Db → A × Db) → Exec Db A
statement f db = under (next_fault db.faults) f (past_call db)

-- A statement that only reads.
abbrev pub read_under : {A : Type 0} → Fault → (Db → A) → Db → Result A × Db
read_under served f db = (ok (f db), db)
read_under refused f db = (err db_error, db)
read_under unacked f db = (err db_error, db)

unfoldable pub query : {A : Type 0} → (Db → A) → Exec Db A
query f db = read_under (next_fault db.faults) f (past_call db)

-- The state before a transaction, with the calls that it made behind it.
abbrev pub rolled_back : Db → Db → Db
rolled_back before after = record before { faults = after.faults }

abbrev pub commit : {A : Type 0} → Db → Fault → A → Db → Result A × Db
commit before served a db = (ok a, db)
commit before refused a db = (err db_error, rolled_back before db)
commit before unacked a db = (err db_error, db)

abbrev pub finish : {A : Type 0} → Db → Result A × Db → Result A × Db
finish before (ok a, db) = commit before (next_fault db.faults) a (past_call db)
finish before (err e, db) = (err e, rolled_back before db)

abbrev pub begin : {A : Type 0} → Fault → Exec Db A → Db → Result A × Db
begin served body db = finish db (body db)
begin refused body db = (err db_error, db)
begin unacked body db = (err db_error, db)

-- `tx := Begin(); defer tx.Rollback(); …; tx.Commit()`
unfoldable pub transaction : {A : Type 0} → Exec Db A → Exec Db A
transaction body db = begin (next_fault db.faults) body (past_call db)
