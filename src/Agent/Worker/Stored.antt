-- ===== src/Agent/Worker/Stored.antt =====
-- executeAgent of internal/agent/orchestrator.go: a result names a stored report.
use changelogue.Prelude.{
  ℕ, ◌≡◌, refl, Bool, true, false, ◌||◌, Option, none, some, List, [], ◌∷◌, Bytes, ◌==◌, All,
  Bool-cases, inl, inr, ==_refl,
}
use changelogue.Exec.{Exec, Result, ok, err, Outcome, pure, ◌>>=◌, ◌>>◌}
use changelogue.Exec.Rules.{bind-Outcome, Outcome-imp}
use changelogue.Models.{AgentRun, RunStatus, running, completed, failed, waiting, SemanticRelease}
use changelogue.Models
use changelogue.Db.{Db, statement, past_call, query}
use changelogue.Db.Rows.{required, or_refuse}
use changelogue.Db.Rules.{statement-Outcome, transaction-Outcome}
use changelogue.Db.Preserve.{query-Preserves, bind-Preserves}
use changelogue.Gate.Store.{update_run, list_sources_by_project}
use changelogue.Pages.{Pagination}
use changelogue.Releases.{
  Catalog, Row, Scope, of_project, ReleaseFilter, no_filter, total_of, page_of, selected,
  list_releases,
}
use changelogue.Routing.Store.{find_project, get_project}
use changelogue.Agent.Store.{
  has_semantic, insert_semantic, insert_semantic_release, link_release, link_releases,
  create_semantic_release,
}
use changelogue.Agent.Orchestrator.{
  Setup, AgentResult, target_version, non_empty, report_json, semantic_version, matching_releases,
  first_releases, store_report, execute_agent,
}
use changelogue.Agent.Report.{parse_report}
use changelogue.Agent.Worker.Notices

pub is_stored : Option ℕ → List SemanticRelease → Bool
is_stored none rows = false
is_stored (some id) [] = false
is_stored (some id) (s ∷ ss) = s.id == id || is_stored (some id) ss

-- A run that is completed has a report that is stored.
abbrev pub IsReported : List SemanticRelease → AgentRun → Type 0
IsReported rows r = r.status ≡ completed → is_stored r.semantic_release_id rows ≡ true

abbrev pub AreReported : List AgentRun → List SemanticRelease → Type 0
AreReported runs rows = All (IsReported rows) runs

pub All-imp :
    {A : Type 0} (P Q : A → Type 0) → ((a : A) → P a → Q a) → (xs : List A) → All P xs → All Q xs
All-imp P Q f [] h = tt
All-imp P Q f (x ∷ xs) h = (f x h.0, All-imp P Q f xs h.1)

-- An UPDATE of one run: `P` before it, `Q` after it.
pub All-update_run :
    (P Q : AgentRun → Type 0) (id : ℕ) (f : AgentRun → AgentRun)
    → ((r : AgentRun) → (r.id == id) ≡ true → P r → Q (f r))
    → ((r : AgentRun) → (r.id == id) ≡ false → P r → Q r)
    → (rs : List AgentRun) → All P rs
    → All Q (update_run id f rs)
unfolding update_run
All-update_run P Q id f at away [] h = tt
All-update_run P Q id f at away (r ∷ rs) h = elim (Bool-cases (r.id == id)) [
  | inl hit ↦ rw (hit) (at r hit h.0, All-update_run P Q id f at away rs h.1)
  | inr miss ↦ rw (miss) (away r miss h.0, All-update_run P Q id f at away rs h.1)
]

pub is_stored-cons :
    (o : Option ℕ) (s : SemanticRelease) (rows : List SemanticRelease)
    → is_stored o rows ≡ true
    → is_stored o (s ∷ rows) ≡ true
unfolding is_stored
is_stored-cons none s rows h = h
is_stored-cons (some id) s rows h = elim (Bool-cases (s.id == id)) [
  | inl hit ↦ rw (hit) refl
  | inr miss ↦ rw (miss) h
]

pub AreReported-cons :
    (runs : List AgentRun) (s : SemanticRelease) (rows : List SemanticRelease)
    → AreReported runs rows
    → AreReported runs (s ∷ rows)
AreReported-cons runs s rows h =
    All-imp (IsReported rows) (IsReported (s ∷ rows))
      (λ r k e. is_stored-cons r.semantic_release_id s rows (k e)) runs h

abbrev pub Holds : Db → Type 0
Holds = Notices.Holds AreReported

abbrev pub Keeps : {A : Type 0} → Exec Db A → Type 0
Keeps m = Notices.Keeps AreReported m

-- The semantic release is stored, and what was reported still is.
abbrev pub With : ℕ → Db → Type 0
With id db = Holds db × (is_stored (some id) db.semantic_releases ≡ true)

-- The INSERT gives a stored row, or it is refused.
abbrev WithIf : Option ℕ → Db → Type 0
WithIf none db = Holds db
WithIf (some id) db = With id db

insert_semantic-WithIf :
    (taken : Bool) (project : ℕ) (version report : Bytes) (db : Db)
    → Holds db
    → WithIf
        (insert_semantic taken project version report db).0
        (insert_semantic taken project version report db).1
unfolding is_stored
insert_semantic-WithIf true project version report db h = h
insert_semantic-WithIf false project version report db h =
    (AreReported-cons db.runs _ db.semantic_releases h, rw (==_refl db.next_id) refl)

WithIf-Holds : (o : Option ℕ) (db : Db) → WithIf o db → Holds db
WithIf-Holds none db k = k
WithIf-Holds (some id) db k = k.0

pub insert-With :
    (project : ℕ) (version report : Bytes) (db : Db)
    → Holds db
    → Outcome Holds With (insert_semantic_release project version report db)
unfolding insert_semantic_release
insert-With project version report db h =
    bind-Outcome Holds WithIf With (statement put) or_refuse db
      (statement-Outcome Holds WithIf put db (λ o d k. WithIf-Holds o d k) h
        (insert_semantic-WithIf (has_semantic project version db.semantic_releases) project version
          report (past_call db) h))
      given
  where
    put : Db → Option ℕ × Db
    put d =
        insert_semantic (has_semantic project version d.semantic_releases) project version report d

    given : (o : Option ℕ) (d : Db) → WithIf o d → Outcome Holds With (or_refuse o d)
    given none d k = k
    given (some id) d k = k

pub link-With :
    (id release : ℕ) (db : Db)
    → With id db
    → Outcome (With id) (λ _. With id) (link_release id release db)
unfolding link_release
link-With id release db h = statement-Outcome (With id) (λ _. With id) _ db (λ _ d k. k) h h

pub links-With :
    (id : ℕ) (releases : List ℕ) (db : Db)
    → With id db
    → Outcome (With id) (λ _. With id) (link_releases id releases db)
unfolding link_releases
links-With id [] db h = h
links-With id (r ∷ rs) db h =
    bind-Outcome (With id) (λ _. With id) (λ _. With id) (link_release id r)
      (λ _. link_releases id rs) db (link-With id r db h) (λ _ d k. links-With id rs d k)

pub create-With :
    (project : ℕ) (version report : Bytes) (releases : List ℕ) (db : Db)
    → Holds db
    → Outcome Holds With (create_semantic_release project version report releases db)
unfolding create_semantic_release
create-With project version report releases db h =
    transaction-Outcome Holds With (λ d fs k. k) (λ id d fs k. k) (λ id d k. k.0) _ db h
      (bind-Outcome (λ _. Unit {0}) With With (insert_semantic_release project version report)
        (λ id. link_releases id releases >> pure id) (past_call db)
        (Outcome-imp Holds (λ _. Unit {0}) With With _ (λ d k. tt) (λ id d k. k)
          (insert-With project version report (past_call db) h))
        (λ id d k.
          bind-Outcome (λ _. Unit {0}) (λ _. With id) With (link_releases id releases)
            (λ _. pure id) d
            (Outcome-imp (With id) (λ _. Unit {0}) (λ _. With id) (λ _. With id) _ (λ e q. tt)
              (λ _ e q. q) (links-With id releases d k))
            (λ _ e q. q)))

-- The result names a stored semantic release.
abbrev pub Made : AgentResult → Db → Type 0
Made result = With result.semantic_release_id

pub raise_free : {A : Type 0} (o : Option A) → Keeps (required o)
raise_free = Notices.required-Keeps AreReported

pub or_refuse-Keeps : {A : Type 0} (o : Option A) → Keeps (or_refuse o)
or_refuse-Keeps none db h = h
or_refuse-Keeps (some a) db h = h

-- A step that leaves what held, then the rest.
pub then-Outcome :
    {A B : Type 0} (R : B → Db → Type 0) (m : Exec Db A) (f : A → Exec Db B)
    → Keeps m
    → ((a : A) (d : Db) → Holds d → Outcome Holds R (f a d))
    → (db : Db) → Holds db
    → Outcome Holds R ((m >>= f) db)
then-Outcome R m f keeps k db h = bind-Outcome Holds (λ _. Holds) R m f db (keeps db h) k

pub list-Keeps :
    (catalog : Catalog) (scope : Scope) (p : Pagination) (included : Bool) (f : ReleaseFilter)
    → Keeps (list_releases catalog scope p included f)
unfolding list_releases
list-Keeps catalog scope p included f =
    bind-Preserves Holds (Notices.blind AreReported) (query (total_of catalog scope included f)) _
      (query-Preserves Holds (Notices.blind AreReported) _)
      λ count.
        bind-Preserves Holds (Notices.blind AreReported) (or_refuse count) _ (or_refuse-Keeps count)
          λ total.
            bind-Preserves Holds (Notices.blind AreReported)
              (query (λ db. page_of catalog p (selected catalog scope included f db))) _
              (query-Preserves Holds (Notices.blind AreReported) _)
              λ page.
                bind-Preserves Holds (Notices.blind AreReported) (or_refuse page)
                  (λ rows. pure (rows, total)) (or_refuse-Keeps page) (λ rows d h. h)

pub get_project-Keeps : (id : ℕ) → Keeps (get_project id)
unfolding get_project
get_project-Keeps id =
    bind-Preserves Holds (Notices.blind AreReported) (query (λ db. find_project id db.projects))
      required
      (query-Preserves Holds (Notices.blind AreReported) (λ db. find_project id db.projects))
      (Notices.required-Keeps AreReported)

pub non_empty-Keeps : (text : Bytes) → Keeps (non_empty text)
non_empty-Keeps [] db h = h
non_empty-Keeps (c ∷ text) db h = h

pub analyse-Keeps : (f : Db → Result Bytes) → Keeps (λ db. (f db, db))
analyse-Keeps f db h = go (f db)
  where
    go : (r : Result Bytes) → Outcome Holds (λ _. Holds) (r, db)
    go (ok a) = h
    go (err e) = h

pub store_report-Made :
    (setup : Setup) (run : AgentRun) (project : Models.Project) (text : Bytes) (rows : List Row)
    (db : Db)
    → Holds db
    → Outcome Holds Made (store_report setup run project text rows db)
store_report-Made setup run project text rows db h =
    bind-Outcome Holds With Made
      (create_semantic_release run.project_id (semantic_version (target_version run) rows)
        (report_json setup text (parse_report setup.read_report text))
        (matching_releases (target_version run) rows))
      _ db
      (create-With run.project_id (semantic_version (target_version run) rows)
        (report_json setup text (parse_report setup.read_report text))
        (matching_releases (target_version run) rows) db h)
      (λ id e k. k)

pub execute-Made :
    (setup : Setup) (run : AgentRun) (db : Db)
    → Holds db
    → Outcome Holds Made (execute_agent setup run db)
unfolding execute_agent
execute-Made setup run =
    then-Outcome Made (get_project run.project_id) _ (get_project-Keeps run.project_id) λ project.
      then-Outcome Made (list_sources_by_project project.id 100) _
        (Notices.sources-Keeps AreReported project.id 100)
        λ sources.
          then-Outcome Made (λ db. (setup.analyse project sources (target_version run) db, db)) _
            (analyse-Keeps (setup.analyse project sources (target_version run)))
            λ answer. then-Outcome Made (non_empty answer) _ (non_empty-Keeps answer) λ text.
              then-Outcome Made
                (list_releases setup.catalog (of_project run.project_id) first_releases false
                  no_filter)
                _
                (list-Keeps setup.catalog (of_project run.project_id) first_releases false
                  no_filter)
                (λ page d h. store_report-Made setup run project text page.0 d h)
