-- ===== src/Ingestion/Atomic.antt =====
-- A transaction is all or nothing: under any faults it leaves the state from before, or the state of
-- a run without faults.
use changelogue.Prelude.{
  ℕ, Bool, true, false, Option, none, some, [], ◌≡◌, ◌⊎◌, inl, inr, refl, ap, sym, ◌∙◌,
}
use changelogue.Exec.{
  continue, Exec, Result, ok, err, Fault, served, refused, unacked, Outcome, pure, ◌>>=◌,
}
use changelogue.Exec.Rules.{Outcome-imp}
use changelogue.Models.{Release, Job, notify_release, gate_check}
use changelogue.Db.{
  Db, next_fault, past_call, under, statement, read_under, query, commit, finish, begin,
  transaction,
}
use changelogue.Gate.Store.{insert_job}
use changelogue.Ingestion.Store.{
  IngestionResult, insert_release, set_release, ingest_new_release, ingest_old_release,
  ingest_found, ingest_release, changelog_added,
}

-- The state with no faults to come.
abbrev pub calm : Db → Db
calm db = record db { faults = [] }

-- Where `m` returns, it does what it does without faults.
abbrev pub IsHonest : {A : Type 0} → Exec Db A → Type 0
IsHonest {A} m =
    (db : Db) → Outcome (λ _. Unit {0}) (λ (a : A) d. m (calm db) ≡ (ok a, calm d)) (m db)

pub pure-IsHonest : {A : Type 0} (a : A) → IsHonest (pure a)
pure-IsHonest a db = refl

pub statement-IsHonest :
    {A : Type 0} (f : Db → A × Db)
    → ((db : Db) → f (calm db) ≡ ((f db).0, calm (f db).1))
    → IsHonest (statement f)
unfolding statement
statement-IsHonest {A} f same db = go (next_fault db.faults)
  where
    go :
        (fault : Fault)
        → Outcome
            (λ _. Unit {0})
            (λ a d. under served f (calm db) ≡ (ok a, calm d))
            (under fault f (past_call db))
    go served =
        ap (λ (x : A × Db). let r : Result A × Db = (ok x.0, x.1) in r) (same (past_call db))
    go refused = tt
    go unacked = tt

query-IsHonest : {A : Type 0} (f : Db → A) → ((db : Db) → f (calm db) ≡ f db) → IsHonest (query f)
unfolding query
query-IsHonest {A} f same db = go (next_fault db.faults)
  where
    go :
        (fault : Fault)
        → Outcome
            (λ _. Unit {0})
            (λ a d. read_under served f (calm db) ≡ (ok a, calm d))
            (read_under fault f (past_call db))
    go served = ap (λ (a : A). let r : Result A × Db = (ok a, calm db) in r) (same (past_call db))
    go refused = tt
    go unacked = tt

pub bind-IsHonest :
    {A B : Type 0} (m : Exec Db A) (f : A → Exec Db B)
    → IsHonest m
    → ((a : A) → IsHonest (f a))
    → IsHonest (m >>= f)
bind-IsHonest {A} {B} m f hm hf db = go (m db) (hm db)
  where
    go :
        (x : Result A × Db)
        → Outcome (λ _. Unit {0}) (λ a d. m (calm db) ≡ (ok a, calm d)) x
        → Outcome (λ _. Unit {0}) (λ b e. (m >>= f) (calm db) ≡ (ok b, calm e)) (continue x.0 f x.1)
    go (err c, d) h = tt
    go (ok a, d) h =
        Outcome-imp (λ _. Unit {0}) (λ _. Unit {0}) (λ b e. f a (calm d) ≡ (ok b, calm e))
          (λ b e. (m >>= f) (calm db) ≡ (ok b, calm e)) (f a d) (λ e _. tt)
          (λ b e k. ap (λ (y : Result A × Db). continue y.0 f y.1) h ∙ k) (hf a d)

-- What a transaction leaves, against the state before it and a run of it without faults.
abbrev pub IsAtomic : {A : Type 0} → Exec Db A → Db → Type 0
IsAtomic {A} m db =
    Outcome (λ d. (calm d ≡ calm db) ⊎ (calm d ≡ (m (calm db)).1))
      (λ (a : A) d. m (calm db) ≡ (ok a, calm d)) (m db)

pub transaction-IsAtomic :
    {A : Type 0} (body : Exec Db A) (db : Db) → IsHonest body → IsAtomic (transaction body) db
unfolding transaction
transaction-IsAtomic {A} body db honest = begun (next_fault db.faults)
  where
    calm_run :
        (a : A) (d : Db)
        → body (calm db) ≡ (ok a, calm d)
        → transaction body (calm db) ≡ (ok a, calm d)
    calm_run a d h = ap (finish (calm db)) h

    committed :
        (fault : Fault) (a : A) (d : Db)
        → body (calm db) ≡ (ok a, calm d)
        → Outcome
            (λ e. (calm e ≡ calm db) ⊎ (calm e ≡ (transaction body (calm db)).1))
            (λ b e. transaction body (calm db) ≡ (ok b, calm e))
            (commit (past_call db) fault a (past_call d))
    committed served a d h = calm_run a d h
    committed refused a d h = inl refl
    committed unacked a d h = inr (ap (λ (x : Result A × Db). x.1) (sym (calm_run a d h)))

    finished :
        (x : Result A × Db)
        → Outcome (λ _. Unit {0}) (λ a d. body (calm db) ≡ (ok a, calm d)) x
        → Outcome
            (λ e. (calm e ≡ calm db) ⊎ (calm e ≡ (transaction body (calm db)).1))
            (λ b e. transaction body (calm db) ≡ (ok b, calm e))
            (finish (past_call db) x)
    finished (ok a, d) h = committed (next_fault d.faults) a d h
    finished (err e, d) h = inl refl

    begun :
        (fault : Fault)
        → Outcome
            (λ e. (calm e ≡ calm db) ⊎ (calm e ≡ (transaction body (calm db)).1))
            (λ b e. transaction body (calm db) ≡ (ok b, calm e))
            (begin fault body (past_call db))
    begun served = finished (body (past_call db)) (honest (past_call db))
    begun refused = inl refl
    begun unacked = inl refl

insert_job-IsHonest : (job : Job) → IsHonest (insert_job job)
unfolding insert_job
insert_job-IsHonest job = statement-IsHonest _ (λ db. refl)

ingest_old-IsHonest :
    (source : ℕ) (old : Release) (r : IngestionResult) (added : Bool)
    → IsHonest (ingest_old_release source old r added)
unfolding ingest_old_release set_release
ingest_old-IsHonest source old r false =
    bind-IsHonest (set_release old.id r) _ (statement-IsHonest _ (λ db. refl))
      (λ _. pure-IsHonest _)
ingest_old-IsHonest source old r true =
    bind-IsHonest (set_release old.id r) _ (statement-IsHonest _ (λ db. refl)) λ _.
      bind-IsHonest (insert_job (notify_release old.id source true)) _
        (insert_job-IsHonest (notify_release old.id source true)) λ _. pure-IsHonest _

ingest_found-IsHonest :
    (source : ℕ) (r : IngestionResult) (o : Option Release) → IsHonest (ingest_found source r o)
unfolding ingest_found ingest_new_release insert_release
ingest_found-IsHonest source r (some old) = ingest_old-IsHonest source old r (changelog_added old r)
ingest_found-IsHonest source r none =
    bind-IsHonest (insert_release source r) _ (statement-IsHonest _ (λ db. refl)) λ release.
      bind-IsHonest (insert_job (notify_release release source false)) _
        (insert_job-IsHonest (notify_release release source false))
        λ _.
          bind-IsHonest (insert_job (gate_check source release r.raw_version)) _
            (insert_job-IsHonest (gate_check source release r.raw_version)) λ _. pure-IsHonest _

-- Whatever calls fail: if IngestRelease returns, it has done what it does without faults; if it
-- returns an error, the database and the queue are as before, or as after a run without faults (when
-- only the answer to COMMIT was lost).
pub ingest_release-IsAtomic :
    (source : ℕ) (r : IngestionResult) (db : Db) → IsAtomic (ingest_release source r) db
unfolding ingest_release
ingest_release-IsAtomic source r db = transaction-IsAtomic _ db (
    bind-IsHonest (query _) (ingest_found source r) (query-IsHonest _ (λ d. refl))
      (ingest_found-IsHonest source r))
