-- ===== src/Onboard/Store.antt =====
-- The onboarding operations of internal/api/pgstore.go.
pub mod Accounts
pub mod Selected
pub mod Calm
pub mod Applied
use changelogue.Prelude.{
  ℕ, ◌+◌, Bool, true, false, ◌&&◌, ◌||◌, not, Option, none, some, List, [], ◌∷◌, ◌++◌, Bytes, bytes,
  ltb, ◌==◌, if◌then◌else◌, is_empty, same,
}
use changelogue.Exec.{Exec, pure, ◌>>=◌, ◌>>◌}
use changelogue.Models.{
  Project, parsed, Source, ScanStatus, pending, processing, completed, failed, ScannedDependency,
  OnboardScan,
}
use changelogue.Db.{Db, statement, query, transaction}
use changelogue.Db.Rows.{required, or_refuse}
use changelogue.Routing.Rules.{no_rules}
use changelogue.Routing.Store.{find_project}

abbrev pub new_scan : ℕ → Bytes → ℕ → OnboardScan
new_scan id repo_url now = record {
  id = id;
  repo_url = repo_url;
  status = pending;
  results = none;
  error = false;
  created_at = now;
  started_at = none;
  completed_at = none;
}

unfoldable pub insert_scan : Bytes → Exec Db OnboardScan
unfolding statement
insert_scan repo_url = statement (λ db. (
  new_scan db.next_id repo_url db.now,
  record db { scans = new_scan db.next_id repo_url db.now ∷ db.scans; next_id = db.next_id + 1 },
))

unfoldable pub enqueue_scan : ℕ → Exec Db (Unit {0})
unfolding statement
enqueue_scan id = statement (λ db. (tt, record db { scan_jobs = id ∷ db.scan_jobs }))

-- CreateOnboardScan: the scan and its job are stored together.
unfoldable pub create_onboard_scan : Bytes → Exec Db OnboardScan
unfolding transaction insert_scan enqueue_scan
create_onboard_scan repo_url =
    transaction (do scan ← insert_scan repo_url; enqueue_scan scan.id; pure scan)

unfoldable pub find_scan : ℕ → List OnboardScan → Option OnboardScan
find_scan id [] = none
find_scan id (s ∷ ss) = if s.id == id then some s else find_scan id ss

unfoldable pub get_onboard_scan : ℕ → Exec Db OnboardScan
unfolding query find_scan
get_onboard_scan id = do row ← query (λ db. find_scan id db.scans); required row

-- `CASE WHEN $2 = 'processing' AND started_at IS NULL THEN NOW() ELSE started_at END`
abbrev started : ScanStatus → Option ℕ → ℕ → Option ℕ
started processing none now = some now
started processing (some at) now = some at
started pending at now = at
started completed at now = at
started failed at now = at

-- `CASE WHEN $2 IN ('completed', 'failed') THEN NOW() ELSE completed_at END`
abbrev ended : ScanStatus → Option ℕ → ℕ → Option ℕ
ended completed at now = some now
ended failed at now = some now
ended pending at now = at
ended processing at now = at

abbrev pub scan_with :
    ScanStatus → Option (List ScannedDependency) → Bool → ℕ → OnboardScan → OnboardScan
scan_with status results error now s = record s {
  status = status;
  results = results;
  error = error;
  started_at = started status s.started_at now;
  completed_at = ended status s.completed_at now;
}

unfoldable pub update_scan : ℕ → (OnboardScan → OnboardScan) → List OnboardScan → List OnboardScan
update_scan id change [] = []
update_scan id change (s ∷ ss) = (if s.id == id then change s else s) ∷ update_scan id change ss

-- No row is no error here. `error` says whether a text other than the empty one is given.
unfoldable pub update_onboard_scan_status :
    ℕ → ScanStatus → Option (List ScannedDependency) → Bool → Exec Db (Unit {0})
unfolding statement update_scan
update_onboard_scan_status id status results error = statement (λ db.
    (tt, record db { scans = update_scan id (scan_with status results error db.now) db.scans }))

abbrev pub is_active : ScanStatus → Bool
is_active pending = true
is_active processing = true
is_active completed = false
is_active failed = false

-- `ORDER BY created_at DESC LIMIT 1`
abbrev pub newer : OnboardScan → Option OnboardScan → Option OnboardScan
newer s none = some s
newer s (some t) = if ltb s.created_at t.created_at then some t else some s

unfoldable pub active_scan : Bytes → List OnboardScan → Option OnboardScan
unfolding same
active_scan repo_url [] = none
active_scan repo_url (s ∷ ss) =
    let rest = active_scan repo_url ss in
    if same s.repo_url repo_url && is_active s.status then newer s rest else rest

unfoldable pub active_scan_for_repo : Bytes → Exec Db (Option OnboardScan)
unfolding query active_scan
active_scan_for_repo repo_url = query (λ db. active_scan repo_url db.scans)

-- OnboardSelection of internal/api/onboard.go; no `project_id` is the empty one.
pub record OnboardSelection : Type 0 where
  pub dep_name : Bytes
  pub upstream_repo : Bytes
  pub provider : Bytes
  pub project_id : Option ℕ
  pub new_project_name : Bytes

pub record OnboardApplyResult : Type 0 where
  pub created_projects : List Project
  pub created_sources : List Source
  pub skipped : List Bytes

-- How many characters PostgreSQL counts in a text is a parameter: `fits n text` is at most `n`.
abbrev pub Width : Type 0
Width = ℕ → Bytes → Bool

unfoldable pub has_name : Bytes → List Project → Bool
unfolding same
has_name name [] = false
has_name name (p ∷ ps) = same p.name name || has_name name ps

abbrev pub new_project : ℕ → Bytes → Project
new_project id name = record { id = id; name = name; agent_rules = parsed no_rules }

abbrev pub insert_project : Bool → Bytes → Db → Option Project × Db
insert_project false name db = (none, db)
insert_project true name db = (
  some (new_project db.next_id name),
  record db { projects = new_project db.next_id name ∷ db.projects; next_id = db.next_id + 1 },
)

-- The insertion into `projects`, whose names are unique.
unfoldable pub create_named_project : Width → Bytes → Exec Db Project
unfolding statement has_name
create_named_project fits name = do
  row ← statement (λ db. insert_project (fits 100 name && not (has_name name db.projects)) name db)
  or_refuse row

-- The unique key of `sources`.
abbrev pub is_watching : Bytes → Bytes → Source → Bool
is_watching provider repository s = same s.provider provider && same s.repository repository

unfoldable pub watched : Bytes → Bytes → List Source → Bool
unfolding same
watched provider repository [] = false
watched provider repository (s ∷ ss) =
    is_watching provider repository s || watched provider repository ss

-- A new row with the defaults of the table.
abbrev pub new_source : ℕ → ℕ → Bytes → Bytes → Source
new_source id project provider repository = record {
  id = id;
  project_id = project;
  provider = provider;
  repository = repository;
  poll_interval_seconds = 86400;
  enabled = true;
  version_filter_include = none;
  version_filter_exclude = none;
  exclude_prereleases = true;
  releases_only = true;
  last_polled_at = none;
  last_error = false;
}

-- What PostgreSQL makes of the insertion: no row is a refusal, `some none` a conflict.
abbrev pub insert_known : Option Project → ℕ → Bytes → Bytes → Db → Option (Option Source) × Db
insert_known none project provider repository db = (none, db)
insert_known (some p) project provider repository db = (
  some (some (new_source db.next_id project provider repository)),
  record db {
    sources = new_source db.next_id project provider repository ∷ db.sources;
    next_id = db.next_id + 1;
  },
)

abbrev pub insert_new : Bool → ℕ → Bytes → Bytes → Db → Option (Option Source) × Db
insert_new true project provider repository db = (some none, db)
insert_new false project provider repository db =
    insert_known (find_project project db.projects) project provider repository db

abbrev pub insert_fitting : Bool → Option ℕ → Bytes → Bytes → Db → Option (Option Source) × Db
insert_fitting false project provider repository db = (none, db)
insert_fitting true none provider repository db = (none, db)
insert_fitting true (some project) provider repository db =
    insert_new (watched provider repository db.sources) project provider repository db

-- `INSERT … ON CONFLICT (provider, repository) DO NOTHING`
unfoldable pub create_source_once : Width → Option ℕ → Bytes → Bytes → Exec Db (Option Source)
unfolding statement watched find_project
create_source_once fits project provider repository = do
  row ← statement (λ db.
      insert_fitting (fits 50 provider && fits 255 repository) project provider repository db)
  or_refuse row

-- The project of a selection, created where a name is given.
unfoldable pub project_for :
    Width → OnboardSelection → OnboardApplyResult → Exec Db (OnboardApplyResult × Option ℕ)
unfolding create_named_project
project_for fits sel acc = if is_empty sel.new_project_name then pure (acc, sel.project_id) else (do
  p ← create_named_project fits sel.new_project_name
  pure (record acc { created_projects = acc.created_projects ++ p ∷ [] }, some p.id))

abbrev pub skip_text : OnboardSelection → Bytes
skip_text sel = sel.provider ++ (b'/' ∷ (sel.upstream_repo ++ bytes ": source already exists"))

abbrev pub note_source : OnboardSelection → OnboardApplyResult → Option Source → OnboardApplyResult
note_source sel acc none = record acc { skipped = acc.skipped ++ skip_text sel ∷ [] }
note_source sel acc (some s) = record acc { created_sources = acc.created_sources ++ s ∷ [] }

unfoldable pub apply_selection :
    Width → OnboardSelection → OnboardApplyResult → Exec Db OnboardApplyResult
unfolding project_for create_source_once
apply_selection fits sel acc = do
  (acc', project) ← project_for fits sel acc
  row ← create_source_once fits project sel.provider sel.upstream_repo
  pure (note_source sel acc' row)

unfoldable pub apply_all :
    Width → List OnboardSelection → OnboardApplyResult → Exec Db OnboardApplyResult
unfolding apply_selection
apply_all fits [] acc = pure acc
apply_all fits (sel ∷ sels) acc = do acc' ← apply_selection fits sel acc; apply_all fits sels acc'

abbrev pub nothing_applied : OnboardApplyResult
nothing_applied = record { created_projects = []; created_sources = []; skipped = [] }

-- ApplyOnboardScan, which does not look at the scan.
unfoldable pub apply_onboard_scan : Width → ℕ → List OnboardSelection → Exec Db OnboardApplyResult
unfolding transaction apply_all
apply_onboard_scan fits scan selections = transaction (apply_all fits selections nothing_applied)
