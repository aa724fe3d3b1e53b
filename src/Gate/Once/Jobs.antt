-- ===== src/Gate/Once/Jobs.antt =====
-- Each job of the gates, from end to end, keeps the invariant whatever calls fail.
use changelogue.Prelude.{
  ℕ, refl, Bool, true, false, Option, none, some, List, [], ◌∷◌, ◌++◌, Bytes, leb, if◌then◌else◌,
  arith, is_empty, All, All-keep, All-take, Bool-cases, inl, inr, keep, take, ==_refl,
}
use changelogue.Exec.{Result, ok, err, Exec, Outcome, pure, ◌>>=◌}
use changelogue.Exec.Rules.{bind-Outcome, Outcome-imp}
use changelogue.Models.{
  ReleaseGate, VersionReadiness, timed_out, gate_timeout, source_met, gate_timed_out, no_details,
  partial, missing, gate_nl_eval,
}
use changelogue.Db.{Db, GateRow, query}
use changelogue.Db.Rules.{query-Outcome}
use changelogue.Gate.Version.{Submatcher, normalize_version_for_source}
use changelogue.Gate.Store.{
  find_id, is_pending, get_release_gate_by_source, get_release_gate, list_sources_by_project,
  upsert_version_readiness, open_gate, enqueue_agent_run, insert_job, get_version_readiness,
  list_expired_gates, scan_gate, by_timeout, insert_by_timeout, is_expired,
}
use changelogue.Gate.Check
use changelogue.Gate.Evaluate
use changelogue.Gate.Timeout
use changelogue.Gate.Table.{IdsBelow}
use changelogue.Gate.Once.{Names, IsNamed, IsSafeWith, Holds}
use changelogue.Gate.Once.Steps.{
  credit_of, open_gate-Holds, insert_nl_job-Holds, enqueue_agent_run-Holds,
}
use changelogue.Gate.Once.Upsert.{upsert-Holds, IsNamed-cons-All}
use changelogue.Gate.Once.Workers.{
  Uses, pure-Uses, open_ready-Uses, event-Uses, marked-Uses, attempt-Uses, with_gate-Uses,
}

module _ (held : List VersionReadiness) where
  abbrev pub Keeps : {A : Type 0} → Exec Db A → Type 0
  Keeps m = (db : Db) → IsSafeWith held db → Outcome (IsSafeWith held) (λ _. IsSafeWith held) (m db)

  Keeps-query : {A : Type 0} (f : Db → A) → Keeps (query f)
  Keeps-query f db s = query-Outcome (IsSafeWith held) (λ _. IsSafeWith held) f db s s

  Keeps-bind :
      {A B : Type 0} (m : Exec Db A) (f : A → Exec Db B)
      → Keeps m
      → ((a : A) → Keeps (f a))
      → Keeps (m >>= f)
  Keeps-bind m f km kf db s =
      bind-Outcome (IsSafeWith held) (λ _. IsSafeWith held) (λ _. IsSafeWith held) m f db (km db s)
        kf

  Keeps-scan_gate : (row : Option GateRow) → Keeps (scan_gate row)
  Keeps-scan_gate none db s = s
  Keeps-scan_gate (some g) db s = scanned g.nl_rule
    where
      scanned :
          (o : Option Bytes)
          → Outcome
              (IsSafeWith held)
              (λ _. IsSafeWith held)
              (scan_gate (some (record g { nl_rule = o })) db)
      scanned none = s
      scanned (some rule) = s

  Keeps-gate_by_source : (source : ℕ) → Keeps (get_release_gate_by_source source)
  unfolding get_release_gate_by_source
  Keeps-gate_by_source source = Keeps-bind (query _) scan_gate (Keeps-query _) Keeps-scan_gate

  Keeps-gate : (project : ℕ) → Keeps (get_release_gate project)
  unfolding get_release_gate
  Keeps-gate project = Keeps-bind (query _) scan_gate (Keeps-query _) Keeps-scan_gate

  Keeps-required : (g : ReleaseGate) (l : List ℕ) → Keeps (Check.required_of g l)
  unfolding Check.required_of list_sources_by_project
  Keeps-required g [] =
      Keeps-bind (query _ >>= (λ total. query _)) _
        (Keeps-bind (query _) (λ total. query _) (Keeps-query _) (λ total. Keeps-query _))
        (λ sources db s. s)
  Keeps-required g (x ∷ xs) = λ db s. s

  rule_or_open-Uses :
      (g : ReleaseGate) (vr : VersionReadiness) (v : Bytes) (b : Bool)
      → Uses held vr.id g.project_id v 0 (Check.rule_or_open g vr v b)
  rule_or_open-Uses g vr v true = open_ready-Uses held vr.id g.project_id v
  rule_or_open-Uses g vr v false =
      attempt-Uses held vr.id g.project_id v 0 0 (insert_job (gate_nl_eval vr.id g.project_id v))
        (λ _. pure tt) (insert_nl_job-Holds held vr.id g.project_id v 0)
        (λ _. pure-Uses held vr.id g.project_id v 0)

  if_met-Uses :
      (g : ReleaseGate) (vr : VersionReadiness) (v : Bytes) (met b : Bool)
      → Uses held vr.id g.project_id v 0 (if met then Check.rule_or_open g vr v b else pure tt)
  if_met-Uses g vr v true b = rule_or_open-Uses g vr v b
  if_met-Uses g vr v false b = pure-Uses held vr.id g.project_id v 0

  after_upsert-Uses :
      (g : ReleaseGate) (source : ℕ) (v : Bytes) (r : VersionReadiness × Bool)
      → Uses held r.0.id g.project_id v 0 (Check.after_upsert g source v r)
  after_upsert-Uses g source v (vr, met) =
      event-Uses held vr.id g.project_id v 0 source_met (some source) no_details _ (
        if_met-Uses g vr v met
          (if is_empty g.nl_rule then true else Check.has_passed vr.nl_rule_passed))

  check_gate-Keeps :
      (submatch : Submatcher) (source : ℕ) (raw : Bytes) (g : ReleaseGate)
      → Keeps (Check.check_gate submatch source raw g)
  unfolding Check.check_gate
  check_gate-Keeps submatch source raw g =
      let v = normalize_version_for_source submatch raw source g.version_mapping in
      Keeps-bind (Check.required_of g g.required_sources) _ (Keeps-required g g.required_sources)
        λ required db s.
          bind-Outcome (IsSafeWith held) (λ r d. Holds held r.0.id g.project_id v 0 d)
            (λ _. IsSafeWith held)
            (upsert_version_readiness g.project_id v source required g.timeout_hours)
            (Check.after_upsert g source v) db
            (upsert-Holds held g.project_id v source required g.timeout_hours db s)
            (after_upsert-Uses g source v)

  Keeps-if : (b : Bool) (m : Exec Db (Unit {0})) → Keeps m → Keeps (if b then m else pure tt)
  Keeps-if true m k = k
  Keeps-if false m k = λ db s. s

  if_enabled-Keeps :
      (f : ReleaseGate → Exec Db (Unit {0})) (o : Option ReleaseGate)
      → ((g : ReleaseGate) → Keeps (f g))
      → Keeps (Check.if_enabled o f)
  if_enabled-Keeps f none k = λ db s. s
  if_enabled-Keeps f (some g) k = Keeps-if g.enabled (f g) (k g)

  pub check-Keeps :
      (submatch : Submatcher) (source : ℕ) (raw : Bytes) → Keeps (Check.work submatch source raw)
  unfolding Check.work
  check-Keeps submatch source raw =
      Keeps-bind (get_release_gate_by_source source) _ (Keeps-gate_by_source source) λ o.
        if_enabled-Keeps (Check.check_gate submatch source raw) o
          (check_gate-Keeps submatch source raw)

  -- From an invariant state, a worker may take up any row that it knows.
  hold :
      (i p : ℕ) (v : Bytes) (db : Db)
      → IsSafeWith held db
      → Names i p v db.readiness
      → Holds held i p v 0 db
  hold i p v db s n = record { safe = s; names = n; spare = omega (arith, s.budget p v) }

  with_pending-Uses :
      (evaluate : Evaluate.Evaluator) (i p : ℕ) (v : Bytes) (vr : VersionReadiness) (b : Bool)
      → Uses held i p v 0 (
          if b
          then (do g ← get_release_gate p; Evaluate.with_gate evaluate i p v vr g)
          else pure tt)
  unfolding get_release_gate
  with_pending-Uses evaluate i p v vr false db h = pure-Uses held i p v 0 db h
  with_pending-Uses evaluate i p v vr true db h =
      bind-Outcome (IsSafeWith held) (λ _. Holds held i p v 0) (λ _. IsSafeWith held)
        (get_release_gate p) (Evaluate.with_gate evaluate i p v vr) db
        (bind-Outcome (IsSafeWith held) (λ _. Holds held i p v 0) (λ _. Holds held i p v 0)
          (query _) scan_gate db
          (query-Outcome (IsSafeWith held) (λ _. Holds held i p v 0) _ db h.safe h) scanned)
        (with_gate-Uses held i p v evaluate vr)
    where
      scanned_rule :
          (g : GateRow) (o : Option Bytes) (d : Db)
          → Holds held i p v 0 d
          → Outcome
              (IsSafeWith held)
              (λ _. Holds held i p v 0)
              (scan_gate (some (record g { nl_rule = o })) d)
      scanned_rule g none d k = k.safe
      scanned_rule g (some rule) d k = k

      scanned :
          (row : Option GateRow) (d : Db)
          → Holds held i p v 0 d
          → Outcome (IsSafeWith held) (λ _. Holds held i p v 0) (scan_gate row d)
      scanned none d k = k
      scanned (some g) d k = scanned_rule g g.nl_rule d k

  with_readiness-Uses :
      (evaluate : Evaluate.Evaluator) (i p : ℕ) (v : Bytes) (o : Option VersionReadiness)
      → Uses held i p v 0 (Evaluate.with_readiness evaluate i p v o)
  with_readiness-Uses evaluate i p v none = pure-Uses held i p v 0
  with_readiness-Uses evaluate i p v (some vr) =
      with_pending-Uses evaluate i p v vr (is_pending vr.status)

  -- The job's arguments name a row of the table.
  pub evaluate-Keeps :
      (evaluate : Evaluate.Evaluator) (i p : ℕ) (v : Bytes) (db : Db)
      → IsSafeWith held db
      → Names i p v db.readiness
      → Outcome (IsSafeWith held) (λ _. IsSafeWith held) (Evaluate.work evaluate i p v db)
  unfolding Evaluate.work get_version_readiness
  evaluate-Keeps evaluate i p v db s n =
      bind-Outcome (IsSafeWith held) (λ _. Holds held i p v 0) (λ _. IsSafeWith held)
        (get_version_readiness i) (Evaluate.with_readiness evaluate i p v) db
        (query-Outcome (IsSafeWith held) (λ _. Holds held i p v 0) _ db s (hold i p v db s n))
        (with_readiness-Uses evaluate i p v)

  expired_run-Uses :
      (vr : VersionReadiness) (r : Result (Unit {0}))
      → Uses held vr.id vr.project_id vr.version 0 (Timeout.after_enqueue vr r)
  expired_run-Uses vr (err e) = pure-Uses held vr.id vr.project_id vr.version 0
  expired_run-Uses vr (ok _) = marked-Uses held vr.id vr.project_id vr.version partial

  expired_open-Uses :
      (vr : VersionReadiness) (x : Result Bool × Db)
      → Outcome
          (Holds held vr.id vr.project_id vr.version 0)
          (λ b. Holds held vr.id vr.project_id vr.version (credit_of b))
          x
      → Outcome (IsSafeWith held) (λ _. IsSafeWith held) (Timeout.after_open vr x.0 x.1)
  expired_open-Uses vr (err e, d) h = h.safe
  expired_open-Uses vr (ok false, d) h = h.safe
  expired_open-Uses vr (ok true, d) h =
      event-Uses held vr.id vr.project_id vr.version 1 gate_timed_out none
        (missing vr.sources_missing) _
        (attempt-Uses held vr.id vr.project_id vr.version 1 0
          (enqueue_agent_run vr.project_id (gate_timeout vr.version) vr.version)
          (Timeout.after_enqueue vr)
          (enqueue_agent_run-Holds held vr.id vr.project_id vr.version (gate_timeout vr.version))
          (expired_run-Uses vr))
        d h

  drop_held : (vr : VersionReadiness) (db : Db) → IsSafeWith (vr ∷ held) db → IsSafeWith held db
  drop_held vr db s = record {
    ids = s.ids;
    keys = s.keys;
    genuine = s.genuine;
    named = s.named.1;
    budget = s.budget;
  }

  pub expire-Keeps :
      (vr : VersionReadiness) (db : Db)
      → IsSafeWith (vr ∷ held) db
      → Outcome (IsSafeWith held) (λ _. IsSafeWith held) (Timeout.expire vr db)
  unfolding Timeout.expire
  expire-Keeps vr db s =
      let (q, found, same_p, same_v, final) = s.named.0 in
      expired_open-Uses vr (open_gate vr.id timed_out db) (
        open_gate-Holds held vr.id vr.project_id vr.version timed_out db refl
          (hold vr.id vr.project_id vr.version db (drop_held vr db s) (q, found, same_p, same_v)))

with_named :
    (rows held : List VersionReadiness) (db : Db)
    → All (IsNamed db.readiness) rows
    → IsSafeWith held db
    → IsSafeWith (rows ++ held) db
with_named [] held db n s = s
with_named (r ∷ rs) held db n s =
    let below = with_named rs held db n.1 s in
    record {
      ids = below.ids;
      keys = below.keys;
      genuine = below.genuine;
      named = (n.0, below.named);
      budget = below.budget;
    }

without_named :
    (rows held : List VersionReadiness) (db : Db)
    → IsSafeWith (rows ++ held) db
    → IsSafeWith held db
without_named [] held db s = s
without_named (r ∷ rs) held db s = without_named rs held db (drop_held (rs ++ held) r db s)

-- The rows that one sweep has still to expire stand before those in `held`.
expire_all-Keeps :
    (held rows : List VersionReadiness) (db : Db)
    → IsSafeWith (rows ++ held) db
    → Outcome (IsSafeWith held) (λ _. IsSafeWith held) (Timeout.expire_all rows db)
unfolding Timeout.expire_all
expire_all-Keeps held [] db s = s
expire_all-Keeps held (vr ∷ rest) db s =
    bind-Outcome (IsSafeWith held) (λ _. IsSafeWith (rest ++ held)) (λ _. IsSafeWith held)
      (Timeout.expire vr) (λ _. Timeout.expire_all rest) db
      (Outcome-imp (IsSafeWith (rest ++ held)) (IsSafeWith held) (λ _. IsSafeWith (rest ++ held))
        (λ _. IsSafeWith (rest ++ held)) (Timeout.expire vr db) (without_named rest held)
        (λ _ d k. k) (expire-Keeps (rest ++ held) vr db s))
      (λ _. expire_all-Keeps held rest)

-- Every row of the table is known to it.
rows-IsNamed :
    (bound : ℕ) (rows : List VersionReadiness) → IdsBelow bound rows → All (IsNamed rows) rows
unfolding find_id
rows-IsNamed bound [] k = tt
rows-IsNamed bound (r ∷ rs) k = (
  (r, rw (==_refl r.id), refl, refl, λ _. refl),
  IsNamed-cons-All r rs rs k.1 (rows-IsNamed r.id rs k.1),
)

All-insert_by_timeout :
    (P : VersionReadiness → Type 0) (r : VersionReadiness) (rs : List VersionReadiness)
    → P r
    → All P rs
    → All P (insert_by_timeout r rs)
unfolding insert_by_timeout
All-insert_by_timeout P r [] p h = (p, tt)
All-insert_by_timeout P r (q ∷ qs) p h = elim (Bool-cases (leb r.timeout_at q.timeout_at)) [
  | inl first ↦ rw first (p, h)
  | inr later ↦ rw later (h.0, All-insert_by_timeout P r qs p h.1)
]

pub All-by_timeout :
    (P : VersionReadiness → Type 0) (rs : List VersionReadiness) → All P rs → All P (by_timeout rs)
unfolding by_timeout
All-by_timeout P [] h = tt
All-by_timeout P (r ∷ rs) h =
    All-insert_by_timeout P r (by_timeout rs) h.0 (All-by_timeout P rs h.1)

pub timeout-Keeps :
    (held : List VersionReadiness) (db : Db)
    → IsSafeWith held db
    → Outcome (IsSafeWith held) (λ _. IsSafeWith held) (Timeout.work db)
unfolding Timeout.work list_expired_gates
timeout-Keeps held db s =
    let expired = take 100 (by_timeout (keep (is_expired db.now) db.readiness)) in
    bind-Outcome (IsSafeWith held) (λ rows. IsSafeWith (rows ++ held)) (λ _. IsSafeWith held)
      (list_expired_gates 100) Timeout.expire_all db
      (query-Outcome (IsSafeWith held) (λ rows. IsSafeWith (rows ++ held)) _ db s
        (with_named expired held db
          (All-take (IsNamed db.readiness) 100 _ (
            All-by_timeout (IsNamed db.readiness) _ (
              All-keep (IsNamed db.readiness) (is_expired db.now) db.readiness
                (rows-IsNamed db.next_id db.readiness s.ids))))
          s))
      (λ rows. expire_all-Keeps held rows)
