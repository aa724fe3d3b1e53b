-- ===== src/Onboard/Store/Accounts.antt =====
-- ApplyOnboardScan of internal/api/pgstore.go: what the selections have added, one after another.
use mathlib.Core.Path.{subst}
use mathlib.Core.List.{append_assoc}
use changelogue.Prelude.{
  ◌+◌, ◌≡◌, sym, ap, ◌∙◌, Bool, true, false, ◌&&◌, ◌||◌, List, [], ◌∷◌, ◌++◌, Bytes, length,
  length-append, pushed, pushed-append, All, All-append, same, arith,
}
use changelogue.Text.Cut.{All-imp}
use changelogue.Exec.{Fault}
use changelogue.Models.{Project, Source}
use changelogue.Db.{Db}
use changelogue.Onboard.Store.{OnboardSelection, OnboardApplyResult, watched}

-- No two sources watch one repository of one provider.
abbrev pub OneEach : List Source → Type 0
OneEach [] = Unit
OneEach (s ∷ ss) = (watched s.provider s.repository ss ≡ false) × OneEach ss

-- A selection names the repository.
abbrev pub asked : Source → List OnboardSelection → Bool
asked s [] = false
asked s (sel ∷ sels) =
    (same s.provider sel.provider && same s.repository sel.upstream_repo) || asked s sels

-- What the selections have added to the result `acc` and to the database.
pub record Applied (sels : List OnboardSelection) (acc : OnboardApplyResult) (db : Db)
    (res : OnboardApplyResult) (d : Db) : Type 0 where
  pub new_sources : List Source
  pub created_sources : res.created_sources ≡ acc.created_sources ++ new_sources
  pub stored_sources : d.sources ≡ pushed new_sources db.sources
  pub new_projects : List Project
  pub created_projects : res.created_projects ≡ acc.created_projects ++ new_projects
  pub stored_projects : d.projects ≡ pushed new_projects db.projects
  pub counted :
      length res.created_sources + length res.skipped
      ≡ length acc.created_sources + length acc.skipped + length sels
  pub are_watched :
      All (λ (sel : OnboardSelection). watched sel.provider sel.upstream_repo d.sources ≡ true) sels
  pub are_asked : All (λ (s : Source). asked s sels ≡ true) new_sources
  pub one_each : OneEach db.sources → OneEach d.sources

watched-pushed :
    (provider repository : Bytes) (new old : List Source)
    → watched provider repository old ≡ true
    → watched provider repository (pushed new old) ≡ true
unfolding pushed watched
watched-pushed provider repository [] old h = h
watched-pushed provider repository (s ∷ new) old h =
    watched-pushed provider repository new (s ∷ old) (ground arith)

asked_first :
    (s : Source) (xs ys : List OnboardSelection) → asked s xs ≡ true → asked s (xs ++ ys) ≡ true
asked_first s [] ys h = cc
asked_first s (x ∷ xs) ys h = ground (arith, asked_first s xs ys)

asked_second :
    (s : Source) (xs ys : List OnboardSelection) → asked s ys ≡ true → asked s (xs ++ ys) ≡ true
asked_second s [] ys h = h
asked_second s (x ∷ xs) ys h = ground (arith, asked_second s xs ys)

pub then_Applied :
    (xs ys : List OnboardSelection) (a b c : OnboardApplyResult) (db d e : Db)
    → Applied xs a db b d
    → Applied ys b d c e
    → Applied (xs ++ ys) a db c e
then_Applied xs ys a b c db d e p q = record {
  new_sources = p.new_sources ++ q.new_sources;
  created_sources =
      q.created_sources
      ∙ ap (λ l. l ++ q.new_sources) p.created_sources
      ∙ append_assoc a.created_sources p.new_sources q.new_sources;
  stored_sources =
      q.stored_sources
      ∙ ap (pushed q.new_sources) p.stored_sources
      ∙ sym (pushed-append p.new_sources q.new_sources db.sources);
  new_projects = p.new_projects ++ q.new_projects;
  created_projects =
      q.created_projects
      ∙ ap (λ l. l ++ q.new_projects) p.created_projects
      ∙ append_assoc a.created_projects p.new_projects q.new_projects;
  stored_projects =
      q.stored_projects
      ∙ ap (pushed q.new_projects) p.stored_projects
      ∙ sym (pushed-append p.new_projects q.new_projects db.projects);
  counted = omega (arith, p.counted, q.counted, length-append xs ys);
  are_watched =
      All-append _ xs ys
        (All-imp xs
          (λ sel h.
            subst (λ l. watched sel.provider sel.upstream_repo l ≡ true) (sym q.stored_sources)
              (watched-pushed sel.provider sel.upstream_repo q.new_sources d.sources h))
          p.are_watched)
        q.are_watched;
  are_asked =
      All-append _ p.new_sources q.new_sources
        (All-imp p.new_sources (λ s h. asked_first s xs ys h) p.are_asked)
        (All-imp q.new_sources (λ s h. asked_second s xs ys h) q.are_asked);
  one_each = λ h. q.one_each (p.one_each h);
}

-- The faults to come are no part of it.
pub Applied-faults :
    (sels : List OnboardSelection) (acc res : OnboardApplyResult) (db d : Db) (fs gs : List Fault)
    → Applied sels acc db res d
    → Applied sels acc (record db { faults = fs }) res (record d { faults = gs })
Applied-faults sels acc res db d fs gs k = record {
  new_sources = k.new_sources;
  created_sources = k.created_sources;
  stored_sources = k.stored_sources;
  new_projects = k.new_projects;
  created_projects = k.created_projects;
  stored_projects = k.stored_projects;
  counted = k.counted;
  are_watched = k.are_watched;
  are_asked = k.are_asked;
  one_each = k.one_each;
}
