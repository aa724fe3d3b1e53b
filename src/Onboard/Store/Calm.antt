-- ===== src/Onboard/Store/Calm.antt =====
-- ApplyOnboardScan of internal/api/pgstore.go: its statements write nothing but what they answer.
use changelogue.Prelude.{
  ℕ, ◌≡◌, refl, Bool, true, false, ◌&&◌, Option, none, some, List, [], ◌∷◌, not, if◌then◌else◌,
  ◌++◌, Bytes, is_empty,
}
use changelogue.Exec.{pure, ◌>>=◌}
use changelogue.Models.{Project}
use changelogue.Db.{Db, statement}
use changelogue.Db.Rows.{or_refuse}
use changelogue.Ingestion.Atomic.{calm, IsHonest, pure-IsHonest, statement-IsHonest, bind-IsHonest}
use changelogue.Routing.Store.{find_project}
use changelogue.Onboard.Store.{
  OnboardSelection, OnboardApplyResult, Width, has_name, insert_project, create_named_project,
  watched, insert_known, insert_new, insert_fitting, create_source_once, project_for, note_source,
  apply_selection, apply_all,
}

given-IsHonest : {A : Type 0} (o : Option A) → IsHonest (or_refuse o)
given-IsHonest none db = tt
given-IsHonest (some a) db = refl

create_project-IsHonest : (fits : Width) (name : Bytes) → IsHonest (create_named_project fits name)
unfolding create_named_project
create_project-IsHonest fits name =
    bind-IsHonest (statement put) or_refuse
      (statement-IsHonest put
        (λ db. calm_put (fits 100 name && not (has_name name db.projects)) db))
      given-IsHonest
  where
    put : Db → Option Project × Db
    put d = insert_project (fits 100 name && not (has_name name d.projects)) name d

    calm_put :
        (b : Bool) (db : Db)
        → insert_project b name (calm db)
          ≡ ((insert_project b name db).0, calm (insert_project b name db).1)
    calm_put false db = refl
    calm_put true db = refl

insert_fitting-calm :
    (b : Bool) (project : Option ℕ) (provider repository : Bytes) (db : Db)
    → let x = insert_fitting b project provider repository db in
      insert_fitting b project provider repository (calm db) ≡ (x.0, calm x.1)
unfolding find_project watched
insert_fitting-calm false project provider repository db = refl
insert_fitting-calm true none provider repository db = refl
insert_fitting-calm true (some project) provider repository db =
    fresh (watched provider repository db.sources)
  where
    known :
        (o : Option Project)
        → let x = insert_known o project provider repository db in
          insert_known o project provider repository (calm db) ≡ (x.0, calm x.1)
    known none = refl
    known (some p) = refl

    fresh :
        (b : Bool)
        → let x = insert_new b project provider repository db in
          insert_new b project provider repository (calm db) ≡ (x.0, calm x.1)
    fresh true = refl
    fresh false = known (find_project project db.projects)

create_source-IsHonest :
    (fits : Width) (project : Option ℕ) (provider repository : Bytes)
    → IsHonest (create_source_once fits project provider repository)
unfolding create_source_once
create_source-IsHonest fits project provider repository =
    bind-IsHonest (statement _) or_refuse
      (statement-IsHonest _
        (insert_fitting-calm (fits 50 provider && fits 255 repository) project provider repository))
      given-IsHonest

pub apply_all-IsHonest :
    (fits : Width) (sels : List OnboardSelection) (acc : OnboardApplyResult)
    → IsHonest (apply_all fits sels acc)
unfolding apply_all apply_selection project_for
apply_all-IsHonest fits [] acc = pure-IsHonest acc
apply_all-IsHonest fits (sel ∷ sels) acc =
    bind-IsHonest (apply_selection fits sel acc) (apply_all fits sels)
      (bind-IsHonest (project_for fits sel acc) _ projected λ x.
        bind-IsHonest (create_source_once fits x.1 sel.provider sel.upstream_repo) _
          (create_source-IsHonest fits x.1 sel.provider sel.upstream_repo)
          (λ row. pure-IsHonest (note_source sel x.0 row)))
      (apply_all-IsHonest fits sels)
  where
    choice :
        (b : Bool)
        → IsHonest {A = OnboardApplyResult × Option ℕ} (
            if b
            then pure (acc, sel.project_id)
            else (create_named_project fits sel.new_project_name >>= λ p.
                pure (record acc { created_projects = acc.created_projects ++ p ∷ [] }, some p.id)))
    choice true = pure-IsHonest (acc, sel.project_id)
    choice false =
        bind-IsHonest (create_named_project fits sel.new_project_name) _
          (create_project-IsHonest fits sel.new_project_name) (λ p. pure-IsHonest _)

    projected : IsHonest (project_for fits sel acc)
    projected = choice (is_empty sel.new_project_name)
