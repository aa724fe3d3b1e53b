-- ===== src/Samples/Gates.antt =====
-- A project with two sources and a gate that waits for both.
use changelogue.Prelude.{
  ℕ, ◌≤◌, ◌≡◌, ◌↔◌, refl, true, false, none, some, [], ◌∷◌, Bytes, arith, contains, is_empty, same,
  All, keep,
}
use changelogue.Exec.{ok, refused, served}
use changelogue.Models.{
  Project, ReleaseGate, absent, Source, VersionReadiness, pending, ready, AgentRun, gate,
  notify_release, agent_run, VersionMapping,
}
use changelogue.Models
use changelogue.Text.{to_lower, trim_prefix}
use changelogue.Db.{Db}
use changelogue.Gate.Version.{
  Submatcher, default_version, find_mapping, normalize_version, normalize_version_for_source,
}
use changelogue.Gate.Store.{
  find_id, find_key, find_source, find_gate, gate_of_source, any_pending, update_id, meet_source,
  new_readiness, without, is_expired,
}
use changelogue.Gate.Check
use changelogue.Gate.Timeout
use changelogue.Gate.Timeout.Sweep.{work-expires}
use changelogue.Gate.Once.{IsSafe, gate_runs, opened_gates}
use changelogue.Gate.Reach.{Reach, Step, opened_forever}
use changelogue.Gate.Latch.{Advances, phase, allowance, gates_refine_latch}
use changelogue.Gate.Readiness.{meet_all, sources_of, ready_when_all_reported}
use changelogue.Gate.Spelling.{spellings_agree}
use changelogue.Gate.Admin.{upsert_gate}
use changelogue.Gate.Admin.Upserts.{Upserted, upsert_gate-Upserted}
use changelogue.Routing.Store.{find_project}
use changelogue.Gate.Starts.{plain_gate, gate_run, check_starts}
use changelogue.Ingestion.Atomic.{calm}

abbrev no_match : Submatcher
no_match pattern text = none

abbrev version : Bytes
version = b'1' ∷ b'.' ∷ b'0' ∷ []

abbrev tagged : Bytes
tagged = b'v' ∷ version

abbrev source : ℕ → Source
source id = record {
  id = id;
  project_id = 1;
  provider = b'g' ∷ [];
  repository = b'r' ∷ [];
  poll_interval_seconds = 300;
  enabled = true;
  version_filter_include = none;
  version_filter_exclude = none;
  exclude_prereleases = false;
  releases_only = false;
  last_polled_at = none;
  last_error = false;
}

abbrev start : Db
start = record {
  projects = record { id = 1; name = b'p' ∷ []; agent_rules = absent } ∷ [];
  sources = source 2 ∷ source 3 ∷ [];
  releases = [];
  gates = plain_gate 4 1 2 (3 ∷ []) 24 [] ∷ [];
  readiness = [];
  events = [];
  runs = [];
  jobs = notify_release 5 2 false ∷ [];
  todos = [];
  channels = [];
  subscriptions = [];
  semantic_releases = [];
  semantic_sources = [];
  users = [];
  sessions = [];
  scans = [];
  scan_jobs = [];
  sent = [];
  now = 1000;
  next_id = 10;
  faults = served ∷ served ∷ refused ∷ [];
}

start-IsSafe : IsSafe start
unfolding gate_runs opened_gates find_key
start-IsSafe = record {
  ids = tt;
  keys = tt;
  genuine = (tt, tt);
  named = tt;
  budget = λ p v. omega arith;
}

abbrev after_one : Db
after_one = (Check.work no_match 2 tagged start).1

abbrev after_two : Db
after_two = (Check.work no_match 3 version after_one).1

abbrev after_three : Db
after_three = (Check.work no_match 3 tagged after_two).1

three_checks : Reach start after_three
three_checks =
    Reach.next
      (Reach.next (Reach.next Reach.here (Step.check no_match 2 tagged))
        (Step.check no_match 3 version))
      (Step.check no_match 3 tagged)

gates_refine_latch_example :
    Advances (phase 1 version start) (phase 1 version after_three)
    × (gate_runs 1 version after_three.runs ≤ allowance (phase 1 version after_three))
gates_refine_latch_example =
    gates_refine_latch {db = start} {db' = after_three} 1 version start-IsSafe three_checks

abbrev opened_row : VersionReadiness
opened_row = record {
  id = 6;
  project_id = 1;
  version = version;
  status = ready;
  sources_met = 2 ∷ 3 ∷ [];
  sources_missing = [];
  nl_rule_passed = none;
  timeout_at = 9000;
  opened_at = some 900;
  agent_triggered = true;
  updated_at = 900;
}

abbrev opened_before : Db
opened_before = record start {
  readiness = opened_row ∷ [];
  runs =
      record {
        id = 7;
        project_id = 1;
        trigger = gate 6;
        version = version;
        status = Models.RunStatus.pending;
        semantic_release_id = none;
        started_at = none;
        completed_at = none;
      }
      ∷ [];
}

opened_before-IsSafe : IsSafe opened_before
unfolding gate_runs opened_gates find_key
opened_before-IsSafe = record {
  ids = (omega arith, tt);
  keys = (refl, tt);
  genuine = (tt, tt);
  named = tt;
  budget = λ p v. ground arith;
}

one_check : Reach opened_before (Check.work no_match 3 tagged opened_before).1
one_check = Reach.next Reach.here (Step.check no_match 3 tagged)

found_opened : find_id 6 opened_before.readiness ≡ some opened_row
unfolding find_id
found_opened = refl

opened_forever_example :
    (q : VersionReadiness) × (find_id 6 (Check.work no_match 3 tagged opened_before).1.readiness
      ≡ some q)
    × (q.project_id ≡ 1)
    × (q.version ≡ version)
    × (q.status ≡ ready)
opened_forever_example =
    opened_forever {db = opened_before} {db' = (Check.work no_match 3 tagged opened_before).1} 6
      opened_row opened_before-IsSafe one_check found_opened refl

ready_when_all_reported_example :
    (is_empty
        (meet_all
          (2 ∷ 3 ∷ [])
          ((3, 1010) ∷ [])
          (new_readiness 1 version 2 (2 ∷ 3 ∷ []) 24 start)).sources_missing
      ≡ true)
    ↔ ((x : ℕ)
        → contains (2 ∷ 3 ∷ []) x ≡ true
        → contains (2 ∷ sources_of ((3, 1010) ∷ [])) x ≡ true)
ready_when_all_reported_example =
    ready_when_all_reported 1 version 2 (2 ∷ 3 ∷ []) 24 start ((3, 1010) ∷ [])

-- The version waits for source 3, which reports now.
abbrev waiting : Db
waiting = record start {
  readiness = new_readiness 1 version 2 (2 ∷ 3 ∷ []) 24 start ∷ [];
  next_id = 11;
}

gate_of_three :
    gate_of_source (find_source 3 waiting.sources) waiting.gates
    ≡ some (plain_gate 4 1 2 (3 ∷ []) 24 [])
unfolding find_source find_gate
gate_of_three = refl

check_starts_example :
    ((Check.work no_match 3 tagged (calm waiting)).0 ≡ ok tt)
    × ((Check.work no_match 3 tagged (calm waiting)).1.runs ≡ gate_run waiting 10 1 version ∷ [])
    × ((Check.work no_match 3 tagged (calm waiting)).1.jobs
        ≡ notify_release 5 2 false ∷ agent_run 11 1 version ∷ [])
unfolding normalize_version_for_source find_mapping normalize_version default_version find_key
    new_readiness meet_source without any_pending update_id same to_lower trim_prefix
check_starts_example = check_starts no_match 3 tagged waiting 4 1 2 (3 ∷ []) 24 [] gate_of_three

spellings_agree_example :
    (normalize_version_for_source no_match tagged 2 []
      ≡ normalize_version_for_source no_match version 3 [])
    × (normalize_version_for_source no_match (b'V' ∷ version) 2 []
        ≡ normalize_version_for_source no_match version 3 [])
    × (normalize_version_for_source no_match (b'v' ∷ to_lower version) 2 []
        ≡ normalize_version_for_source no_match version 3 [])
unfolding find_mapping
spellings_agree_example =
    spellings_agree no_match [] 2 3 b'1' (b'.' ∷ b'0' ∷ []) refl refl refl refl

-- The gate of the version has waited too long.
abbrev overdue : Db
overdue = record waiting { now = 200000 }

work-expires_example :
    All
      (λ (r : VersionReadiness). is_expired 200000 r ≡ false)
      (Timeout.work (calm overdue)).1.readiness
unfolding keep new_readiness
work-expires_example = work-expires overdue (omega arith)

abbrev new_gate : ReleaseGate
new_gate = record {
  id = 0;
  project_id = 9;
  required_sources = 2 ∷ [];
  timeout_hours = 12;
  version_mapping = [];
  nl_rule = b'r' ∷ [];
  enabled = true;
}

upsert_gate-Upserted_example :
    Upserted
      (record new_gate { project_id = 1 })
      start
      (some (plain_gate 4 1 2 (3 ∷ []) 24 []))
      (upsert_gate (some 1) (some new_gate) (calm start))
unfolding find_project find_gate
upsert_gate-Upserted_example =
    upsert_gate-Upserted 1 new_gate (record { id = 1; name = b'p' ∷ []; agent_rules = absent })
      (some (plain_gate 4 1 2 (3 ∷ []) 24 [])) start refl refl
