-- ===== src/Onboard/Store/Selected.antt =====
-- ApplyOnboardScan of internal/api/pgstore.go: what a selection adds.
use mathlib.Core.Path.{subst}
use mathlib.Core.List.{append-nil}
use changelogue.Prelude.{
  ℕ, ◌+◌, ◌≡◌, refl, sym, ap, ◌∙◌, Bool, true, false, ◌&&◌, Option, none, some, List, [], ◌∷◌, inl,
  inr, not, Bool-cases, ◌++◌, Bytes, is_empty, length, length-append, pushed, same_iff, arith,
}
use changelogue.Exec.{Outcome}
use changelogue.Exec.Rules.{bind-Outcome, Outcome-imp}
use changelogue.Models.{Project, Source}
use changelogue.Db.{Db, past_call, statement}
use changelogue.Db.Rows.{or_refuse}
use changelogue.Db.Rules.{statement-Outcome}
use changelogue.Routing.Store.{find_project}
use changelogue.Onboard.Store.{
  OnboardSelection, OnboardApplyResult, Width, has_name, insert_project, create_named_project,
  watched, insert_known, insert_new, insert_fitting, create_source_once, project_for, skip_text,
  note_source, apply_selection, apply_all,
}
use changelogue.Onboard.Store.Accounts.{Applied, OneEach, then_Applied}

-- What a statement on `sources` leaves for one selection.
abbrev Sourced : Bytes → Bytes → Db → Option Source → Db → Type 0
Sourced provider repository db none d =
    (d.sources ≡ db.sources)
    × (watched provider repository db.sources ≡ true)
    × (d.projects ≡ db.projects)
Sourced provider repository db (some s) d =
    (d.sources ≡ s ∷ db.sources)
    × (watched provider repository db.sources ≡ false)
    × (s.provider ≡ provider)
    × (s.repository ≡ repository)
    × (d.projects ≡ db.projects)

abbrev SourcedIf : Bytes → Bytes → Db → Option (Option Source) → Db → Type 0
SourcedIf provider repository db none d = Unit {0}
SourcedIf provider repository db (some row) d = Sourced provider repository db row d

insert_known-SourcedIf :
    (o : Option Project) (project : ℕ) (provider repository : Bytes) (db : Db)
    → watched provider repository db.sources ≡ false
    → let x = insert_known o project provider repository db in
      SourcedIf provider repository db x.0 x.1
insert_known-SourcedIf none project provider repository db h = tt
insert_known-SourcedIf (some p) project provider repository db h = (refl, h, refl, refl, refl)

insert_new-SourcedIf :
    (b : Bool) (project : ℕ) (provider repository : Bytes) (db : Db)
    → watched provider repository db.sources ≡ b
    → let x = insert_new b project provider repository db in
      SourcedIf provider repository db x.0 x.1
unfolding find_project
insert_new-SourcedIf true project provider repository db h = (refl, h, refl)
insert_new-SourcedIf false project provider repository db h =
    insert_known-SourcedIf (find_project project db.projects) project provider repository db h

insert_fitting-SourcedIf :
    (b : Bool) (project : Option ℕ) (provider repository : Bytes) (db : Db)
    → let x = insert_fitting b project provider repository db in
      SourcedIf provider repository db x.0 x.1
insert_fitting-SourcedIf false project provider repository db = tt
insert_fitting-SourcedIf true none provider repository db = tt
insert_fitting-SourcedIf true (some project) provider repository db =
    insert_new-SourcedIf (watched provider repository db.sources) project provider repository db
      refl

create_source-Sourced :
    (fits : Width) (project : Option ℕ) (provider repository : Bytes) (db : Db)
    → Outcome
        (λ _. Unit {0})
        (Sourced provider repository db)
        (create_source_once fits project provider repository db)
unfolding create_source_once
create_source-Sourced fits project provider repository db =
    bind-Outcome (λ _. Unit {0}) (SourcedIf provider repository db) (Sourced provider repository db)
      (statement put) or_refuse db
      (statement-Outcome (λ _. Unit {0}) (SourcedIf provider repository db) put db (λ r d k. tt) tt
        (insert_fitting-SourcedIf (fits 50 provider && fits 255 repository) project provider
          repository (past_call db)))
      given
  where
    put : Db → Option (Option Source) × Db
    put d = insert_fitting (fits 50 provider && fits 255 repository) project provider repository d

    given :
        (o : Option (Option Source)) (d : Db)
        → SourcedIf provider repository db o d
        → Outcome (λ _. Unit {0}) (Sourced provider repository db) (or_refuse o d)
    given none d k = tt
    given (some row) d k = k

-- What the choice of the project leaves.
abbrev Projected : OnboardApplyResult → Db → OnboardApplyResult × Option ℕ → Db → Type 0
Projected acc db (acc', project) d =
    (acc'.created_sources ≡ acc.created_sources)
    × (acc'.skipped ≡ acc.skipped)
    × (d.sources ≡ db.sources)
    × (new : List Project) × (acc'.created_projects ≡ acc.created_projects ++ new)
    × (d.projects ≡ pushed new db.projects)

abbrev Named : Db → Option Project → Db → Type 0
Named db none d = Unit {0}
Named db (some p) d = (d.sources ≡ db.sources) × (d.projects ≡ p ∷ db.projects)

insert_project-Named :
    (b : Bool) (name : Bytes) (db : Db)
    → Named db (insert_project b name db).0 (insert_project b name db).1
insert_project-Named false name db = tt
insert_project-Named true name db = (refl, refl)

create_project-Named :
    (fits : Width) (name : Bytes) (db : Db)
    → Outcome (λ _. Unit {0}) (λ p d. Named db (some p) d) (create_named_project fits name db)
unfolding create_named_project
create_project-Named fits name db =
    bind-Outcome (λ _. Unit {0}) (Named db) (λ p d. Named db (some p) d) (statement put) or_refuse
      db
      (statement-Outcome (λ _. Unit {0}) (Named db) put db (λ r d k. tt) tt
        (insert_project-Named (fits 100 name && not (has_name name db.projects)) name
          (past_call db)))
      given
  where
    put : Db → Option Project × Db
    put d = insert_project (fits 100 name && not (has_name name d.projects)) name d

    given :
        (o : Option Project) (d : Db)
        → Named db o d
        → Outcome (λ _. Unit {0}) (λ p e. Named db (some p) e) (or_refuse o d)
    given none d k = tt
    given (some row) d k = k

project_for-Projected :
    (fits : Width) (sel : OnboardSelection) (acc : OnboardApplyResult) (db : Db)
    → Outcome (λ _. Unit {0}) (Projected acc db) (project_for fits sel acc db)
unfolding project_for pushed
project_for-Projected fits sel acc db = elim (Bool-cases (is_empty sel.new_project_name)) [
  | inl old ↦ rw (old) (refl, refl, refl, [], sym (append-nil acc.created_projects), refl)
  | inr new ↦ rw (new) (
      bind-Outcome (λ _. Unit {0}) (λ p d. Named db (some p) d) (Projected acc db)
        (create_named_project fits sel.new_project_name) _ db
        (create_project-Named fits sel.new_project_name db)
        λ p d k. (refl, refl, k.0, p ∷ [], refl, k.1))
]

length-snoc {ℓ} : {A : Type ℓ} (xs : List A) (x : A) → length (xs ++ x ∷ []) ≡ length xs + 1
length-snoc xs x = omega (arith, length-append xs (x ∷ []))

selected-Applied :
    (sel : OnboardSelection) (acc acc' : OnboardApplyResult) (project : Option ℕ) (db d e : Db)
    (o : Option Source)
    → Projected acc db (acc', project) d
    → Sourced sel.provider sel.upstream_repo d o e
    → Applied (sel ∷ []) acc db (note_source sel acc' o) e
unfolding pushed watched
selected-Applied sel acc acc' project db d e none (cs, sk, ss, new, cp, sp) (ws, w, wp) = record {
  new_sources = [];
  created_sources = cs ∙ sym (append-nil acc.created_sources);
  stored_sources = ws ∙ ss;
  new_projects = new;
  created_projects = cp;
  stored_projects = wp ∙ sp;
  counted = omega (arith, ap length cs, ap length sk, length-snoc acc'.skipped (skip_text sel));
  are_watched = (ap (watched sel.provider sel.upstream_repo) ws ∙ w, tt);
  are_asked = tt;
  one_each = λ h. subst OneEach (sym (ws ∙ ss)) h;
}
selected-Applied sel acc acc' project db d e (some s) (cs, sk, ss, new, cp, sp)
      (ws, w, prov, repo, wp) =
    record {
      new_sources = s ∷ [];
      created_sources = ap (λ l. l ++ s ∷ []) cs;
      stored_sources = ws ∙ ap (λ l. s ∷ l) ss;
      new_projects = new;
      created_projects = cp;
      stored_projects = wp ∙ sp;
      counted = omega (arith, ap length cs, ap length sk, length-snoc acc'.created_sources s);
      are_watched = (
        ap (watched sel.provider sel.upstream_repo) ws
            ∙ rw
                (
                  (same_iff s.provider sel.provider).1 prov,
                  (same_iff s.repository sel.upstream_repo).1 repo,
                )
                refl,
        tt,
      );
      are_asked = (
        rw
            (
              (same_iff s.provider sel.provider).1 prov,
              (same_iff s.repository sel.upstream_repo).1 repo,
            )
            refl,
        tt,
      );
      one_each = λ h. subst OneEach (sym (ws ∙ ap (λ l. s ∷ l) ss)) (rw (prov, repo, ← ss) w, h);
    }

apply_selection-Applied :
    (fits : Width) (sel : OnboardSelection) (acc : OnboardApplyResult) (db : Db)
    → Outcome (λ _. Unit {0}) (Applied (sel ∷ []) acc db) (apply_selection fits sel acc db)
unfolding apply_selection
apply_selection-Applied fits sel acc db =
    bind-Outcome (λ _. Unit {0}) (Projected acc db) (Applied (sel ∷ []) acc db)
      (project_for fits sel acc) _ db (project_for-Projected fits sel acc db)
      λ x d k.
        bind-Outcome (λ _. Unit {0}) (Sourced sel.provider sel.upstream_repo d)
          (Applied (sel ∷ []) acc db) (create_source_once fits x.1 sel.provider sel.upstream_repo) _
          d (create_source-Sourced fits x.1 sel.provider sel.upstream_repo d)
          λ o e q. selected-Applied sel acc x.0 x.1 db d e o k q

pub apply_all-Applied :
    (fits : Width) (sels : List OnboardSelection) (acc : OnboardApplyResult) (db : Db)
    → Outcome (λ _. Unit {0}) (Applied sels acc db) (apply_all fits sels acc db)
unfolding apply_all pushed
apply_all-Applied fits [] acc db = record {
  new_sources = [];
  created_sources = sym (append-nil acc.created_sources);
  stored_sources = refl;
  new_projects = [];
  created_projects = sym (append-nil acc.created_projects);
  stored_projects = refl;
  counted = omega arith;
  are_watched = tt;
  are_asked = tt;
  one_each = λ h. h;
}
apply_all-Applied fits (sel ∷ sels) acc db =
    bind-Outcome (λ _. Unit {0}) (Applied (sel ∷ []) acc db) (Applied (sel ∷ sels) acc db)
      (apply_selection fits sel acc) (apply_all fits sels) db
      (apply_selection-Applied fits sel acc db)
      λ acc' d k.
        Outcome-imp (λ _. Unit {0}) (λ _. Unit {0}) (Applied sels acc' d)
          (Applied (sel ∷ sels) acc db) (apply_all fits sels acc' d) (λ _ _. tt)
          (λ res e q. then_Applied (sel ∷ []) sels acc acc' res db d e k q)
          (apply_all-Applied fits sels acc' d)
