-- ===== src/Releases.antt =====
-- ListAllReleases, ListReleasesBySource and ListReleasesByProject of internal/api/pgstore.go.
pub mod Wanted
pub mod Paged
use changelogue.Prelude.{
  ℕ, Bool, true, false, ◌&&◌, ◌||◌, not, Option, none, some, List, [], ◌∷◌, Bytes, bytes, leb, ◌==◌,
  if◌then◌else◌, same, length, is_empty,
}
use changelogue.Exec.{Exec, external, pure, raise, ◌>>=◌, ◌>>◌}
use changelogue.Text.{to_lower}
use changelogue.Models.{Project, Source, Release, SemanticRelease, AgentRun, RunStatus, StringMap}
use changelogue.Models
use changelogue.Db.Rows.{equals, or_refuse}
use changelogue.Db.{Db, query}
use changelogue.Pages.{Pagination, window}
use changelogue.Gate.Store.{find_source}
use changelogue.Ingestion.Store.{lookup}
use changelogue.Routing.Rules.{Matcher}
use changelogue.Routing.Store.{find_project, date_of}

pub record ReleaseFilter : Type 0 where
  pub provider : Bytes
  pub urgency : Bytes
  pub date_from : Option ℕ
  pub date_to : Option ℕ

pub data Scope : Type 0 where
  everything : Scope
  of_source of_project : ℕ → Scope

-- A release with the rows that are joined to it.
pub record Row : Type 0 where
  pub release : Release
  pub source : Option Source
  pub project : Option Project

-- What PostgreSQL does with texts: the operator `~` (`none`: the pattern is invalid),
-- `report->>'urgency'`, and ILIKE; and the order that one query puts its rows in, `ORDER BY
-- COALESCE(r.released_at, r.created_at) DESC`, which leaves rows of one date in any order.
pub record Catalog : Type 0 where
  pub matcher : Matcher
  pub urgency : Bytes → Option Bytes
  pub ilike : Bytes → Bytes → Bool
  pub order : List Row → List Row

abbrev pub project_of : Option Source → List Project → Option Project
project_of none projects = none
project_of (some s) projects = find_project s.project_id projects

abbrev pub row_of : Db → Release → Row
row_of db r =
    let source = find_source r.source_id db.sources in
    record { release = r; source = source; project = project_of source db.projects }

abbrev belongs_to : ℕ → Option Source → Bool
belongs_to p none = false
belongs_to p (some s) = s.project_id == p

abbrev is_there {ℓ} : {A : Type ℓ} → Option A → Bool
is_there none = false
is_there (some a) = true

-- The first condition of each query. The inner joins of the third want a project, which the foreign
-- keys give.
abbrev in_scope : Scope → Row → Bool
in_scope everything row = true
in_scope (of_source id) row = row.release.source_id == id
in_scope (of_project id) row = belongs_to id row.source

-- `s.version_filter_include IS NULL OR r.version ~ s.version_filter_include`
abbrev pub included : Matcher → Option Bytes → Bytes → Option Bool
included matcher none version = some true
included matcher (some p) version = matcher p version

abbrev pub negate : Option Bool → Option Bool
negate none = none
negate (some b) = some (not b)

abbrev pub not_excluded : Matcher → Option Bytes → Bytes → Option Bool
not_excluded matcher none version = some true
not_excluded matcher (some p) version = negate (matcher p version)

abbrev pub marked_prerelease : StringMap → Bool
marked_prerelease raw_data = elim (lookup (bytes "prerelease") raw_data) [
  | none ↦ false
  | some text ↦ same text (bytes "true")
]

-- An invalid pattern makes the statement an error.
abbrev pub both : Option Bool → Option Bool → Option Bool
both none b = none
both (some a) none = none
both (some a) (some b) = some (a && b)

-- The three clauses that `includeExcluded` leaves out. Without a source its columns are NULL.
unfoldable pub passes : Matcher → Row → Option Bool
unfolding lookup
passes matcher row = elim row.source [
  | none ↦ some (not (marked_prerelease row.release.raw_data))
  | some s ↦
      both
        (both (included matcher s.version_filter_include row.release.version)
          (not_excluded matcher s.version_filter_exclude row.release.version))
        (some (not (s.exclude_prereleases && marked_prerelease row.release.raw_data)))
]

abbrev pub provider_of : Option Source → Bytes
provider_of none = []
provider_of (some s) = s.provider

abbrev pub not_before : Option ℕ → ℕ → Bool
not_before none date = true
not_before (some from) date = leb from date

abbrev pub not_after : Option ℕ → ℕ → Bool
not_after none date = true
not_after (some to) date = leb date to

-- The filters that both the count and the data query know.
abbrev pub matches_filter : ReleaseFilter → Row → Bool
matches_filter f row =
    (is_empty f.provider || same (provider_of row.source) f.provider)
    && (not_before f.date_from (date_of row.release) && not_after f.date_to (date_of row.release))

abbrev pub links : ℕ → ℕ → List (ℕ × ℕ) → Bool
links semantic release [] = false
links semantic release ((s, r) ∷ rest) =
    (s == semantic && r == release) || links semantic release rest

abbrev describes : Db → ℕ → Release → SemanticRelease → Bool
describes db project r sr =
    sr.project_id == project && (same sr.version r.version || links sr.id r.id db.semantic_sources)

abbrev later_semantic : SemanticRelease → Option SemanticRelease → Option SemanticRelease
later_semantic s none = some s
later_semantic s (some t) = if leb t.created_at s.created_at then some s else some t

-- `ORDER BY sr.created_at DESC LIMIT 1`
unfoldable pub latest_semantic :
    (SemanticRelease → Bool) → List SemanticRelease → Option SemanticRelease
latest_semantic admits [] = none
latest_semantic admits (s ∷ ss) =
    let rest = latest_semantic admits ss in if admits s then later_semantic s rest else rest

abbrev is_active : RunStatus → Bool
is_active RunStatus.pending = true
is_active RunStatus.running = true
is_active RunStatus.waiting = false
is_active RunStatus.completed = false
is_active RunStatus.failed = false

-- `TRIM(LEADING c FROM …)`
unfoldable pub trim_leading : ℕ → Bytes → Bytes
trim_leading c [] = []
trim_leading c (x ∷ xs) = let rest = trim_leading c xs in if x == c then rest else x ∷ xs

abbrev is_run_for : ℕ → Bytes → AgentRun → Bool
is_run_for project version run =
    run.project_id == project
    && ((same run.version version
          || same run.version (to_lower (trim_leading b'v' (trim_leading b'V' version))))
        && is_active run.status)

unfoldable pub any_run : (AgentRun → Bool) → List AgentRun → Bool
any_run admits [] = false
any_run admits (r ∷ rs) = admits r || any_run admits rs

-- `sr_info.urgency`; `none` is NULL.
unfoldable pub urgency_of : Catalog → Db → Row → Option Bytes
unfolding latest_semantic any_run trim_leading
urgency_of catalog db row = elim row.project [
  | none ↦ none
  | some p ↦ elim (latest_semantic (describes db p.id row.release) db.semantic_releases) [
    | some sr ↦ catalog.urgency sr.report
    | none ↦ if any_run (is_run_for p.id row.release.version) db.runs then some [] else none
  ]
]

abbrev pub like : (Bytes → Bytes → Bool) → Option Bytes → Bytes → Bool
like ilike none pattern = false
like ilike (some text) pattern = ilike text pattern

-- The filter that only the data query knows.
unfoldable pub matches_urgency : Catalog → Db → ReleaseFilter → Row → Bool
unfolding urgency_of
matches_urgency catalog db f row =
    is_empty f.urgency || like catalog.ilike (urgency_of catalog db row) f.urgency

abbrev pub and_then : Bool → Option Bool → Option Bool
and_then a none = none
and_then a (some b) = some (a && b)

-- `true` for `includeExcluded`
abbrev passes_if : Bool → Matcher → Row → Option Bool
passes_if true matcher row = some true
passes_if false matcher row = passes matcher row

unfoldable pub counted : Catalog → Scope → Bool → ReleaseFilter → Row → Option Bool
unfolding passes
counted catalog scope include_excluded f row =
    and_then (in_scope scope row && matches_filter f row)
      (passes_if include_excluded catalog.matcher row)

abbrev pub cons_if {ℓ} : {A : Type ℓ} → A → Option Bool → Option (List A) → Option (List A)
cons_if a none rest = none
cons_if a (some b) none = none
cons_if a (some b) (some rest) = some (if b then a ∷ rest else rest)

-- The rows that a WHERE clause admits.
unfoldable pub where_rows {ℓ} : {A : Type ℓ} → (A → Option Bool) → List A → Option (List A)
where_rows admits [] = some []
where_rows admits (a ∷ rest) = cons_if a (admits a) (where_rows admits rest)

unfoldable pub rows_of : Db → List Release → List Row
unfolding find_source find_project
rows_of db [] = []
rows_of db (r ∷ rs) = row_of db r ∷ rows_of db rs

-- `ORDER BY COALESCE(r.released_at, r.created_at) DESC`
abbrev pub size_of : Option (List Row) → Option ℕ
size_of none = none
size_of (some rows) = some (length rows)

abbrev pub page_of : Catalog → Pagination → Option (List Row) → Option (List Row)
page_of catalog p none = none
page_of catalog p (some rows) = window p (catalog.order rows)

unfoldable pub shown : Catalog → Scope → Bool → ReleaseFilter → Db → Row → Option Bool
unfolding counted matches_urgency
shown catalog scope include_excluded f db row =
    and_then (matches_urgency catalog db f row) (counted catalog scope include_excluded f row)

unfoldable pub total_of : Catalog → Scope → Bool → ReleaseFilter → Db → Option ℕ
unfolding where_rows counted rows_of
total_of catalog scope include_excluded f db =
    size_of (where_rows (counted catalog scope include_excluded f) (rows_of db db.releases))

unfoldable pub selected : Catalog → Scope → Bool → ReleaseFilter → Db → Option (List Row)
unfolding where_rows shown rows_of
selected catalog scope include_excluded f db =
    where_rows (shown catalog scope include_excluded f db) (rows_of db db.releases)

-- The two queries of each list: the total, then the page.
unfoldable pub list_releases :
    Catalog → Scope → Pagination → Bool → ReleaseFilter → Exec Db (List Row × ℕ)
unfolding query total_of selected window
list_releases catalog scope p include_excluded f = do
  count ← query (total_of catalog scope include_excluded f)
  total ← or_refuse count
  page ← query (λ db. page_of catalog p (selected catalog scope include_excluded f db))
  rows ← or_refuse page
  pure (rows, total)

-- `models.ReleaseFilter{}`
abbrev pub no_filter : ReleaseFilter
no_filter = record { provider = []; urgency = []; date_from = none; date_to = none }

-- The three lists.
abbrev list_all_releases : Catalog → Pagination → Bool → ReleaseFilter → Exec Db (List Row × ℕ)
list_all_releases catalog p include_excluded f =
    list_releases catalog everything p include_excluded f

abbrev list_releases_by_source :
    Catalog → ℕ → Pagination → Bool → ReleaseFilter → Exec Db (List Row × ℕ)
list_releases_by_source catalog source p include_excluded f =
    list_releases catalog (of_source source) p include_excluded f

abbrev pub list_releases_by_project :
    Catalog → ℕ → Pagination → Bool → ReleaseFilter → Exec Db (List Row × ℕ)
list_releases_by_project catalog project p include_excluded f =
    list_releases catalog (of_project project) p include_excluded f
