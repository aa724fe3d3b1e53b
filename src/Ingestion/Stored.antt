-- ===== src/Ingestion/Stored.antt =====
-- IngestRelease and ProcessResults of internal/ingestion: which versions a source has after them, and
-- in how many rows.
use changelogue.Prelude.{
  ℕ, suc, ◌+◌, ◌≡◌, refl, sym, ap, ◌∙◌, Bool, true, false, ◌||◌, Option, none, some, List, [], ◌∷◌,
  ◌++◌, Bytes, if◌then◌else◌, same, same_iff, ==_refl, Bool-cases, inl, inr, arith,
}
use changelogue.Exec.{Result, ok, continue}
use changelogue.Models.{Release, StringMap, notify_release}
use changelogue.Db.{Db}
use changelogue.Gate.Store.{insert_job}
use changelogue.Ingestion.Atomic.{calm}
use changelogue.Ingestion.Store.{
  IngestionResult, IngestResult, ingest_new, ingest_updated, ingest_skipped, changelog_added,
  is_release, find_release, raw_data, update_release, insert_release, ingest_new_release,
  ingest_release,
}
use changelogue.Ingestion.Jobs.{ingest_of_none, ingest_of_old}
use changelogue.Ingestion.Service.{process_results}
use changelogue.Ingestion.Upstream.{is_in, versions}

-- The source has a row for the version.
unfoldable pub is_stored : ℕ → Bytes → List Release → Bool
is_stored source v [] = false
is_stored source v (r ∷ rs) = is_release source v r || is_stored source v rs

-- How many rows the source has for the version.
unfoldable pub count_rows : ℕ → Bytes → List Release → ℕ
count_rows source v [] = 0
count_rows source v (r ∷ rs) =
    let rest = count_rows source v rs in if is_release source v r then suc rest else rest

-- The rows that a version gets, by whether it has one and whether it is taken up: one or none.
abbrev pub new_rows : Bool → Bool → ℕ
new_rows true taken_up = 0
new_rows false false = 0
new_rows false true = 1

-- A version that is taken up is stored then, in a new row if it had none; no other version, and no other
-- row of this one, is new.
abbrev pub Grew : ℕ → Bytes → List Release → List Release → Bool → Type 0
Grew source v before after taken_up =
    (is_stored source v after ≡ (is_stored source v before || taken_up))
    × (count_rows source v after
        ≡ count_rows source v before + new_rows (is_stored source v before) taken_up)

pub Grew-nothing : (source : ℕ) (v : Bytes) (rows : List Release) → Grew source v rows rows false
Grew-nothing source v rows = elim (Bool-cases (is_stored source v rows)) [
  | inl there ↦ rw (there) (refl, omega arith)
  | inr missing ↦ rw (missing) (refl, omega arith)
]

Grew-then :
    (source : ℕ) (v : Bytes) (before between after : List Release) (a b : Bool)
    → Grew source v before between a
    → Grew source v between after b
    → Grew source v before after (a || b)
Grew-then source v before between after a b (s, n) (t, m) =
    by_tests (is_stored source v before) a s n
  where
    by_tests :
        (had taken : Bool)
        → is_stored source v between ≡ (had || taken)
        → count_rows source v between ≡ count_rows source v before + new_rows had taken
        → (is_stored source v after ≡ (had || (taken || b)))
          × (count_rows source v after ≡ count_rows source v before + new_rows had (taken || b))
    by_tests true taken e k = (t ∙ rw (e) refl, m ∙ rw (e, k) (omega arith))
    by_tests false true e k = (t ∙ rw (e) refl, m ∙ rw (e, k) (omega arith))
    by_tests false false e k = (t ∙ rw (e) refl, m ∙ rw (e, k) (omega arith))

abbrev is_found {ℓ} : {A : Type ℓ} → Option A → Bool
is_found none = false
is_found (some a) = true

is_stored-find :
    (source : ℕ) (v : Bytes) (rs : List Release)
    → is_stored source v rs ≡ is_found (find_release source v rs)
unfolding is_stored find_release
is_stored-find source v [] = refl
is_stored-find source v (r ∷ rs) = ground (arith, is_stored-find source v rs)

is_stored-update :
    (source id : ℕ) (v : Bytes) (raw : StringMap) (at : ℕ) (rs : List Release)
    → is_stored source v (update_release id raw at rs) ≡ is_stored source v rs
unfolding is_stored update_release
is_stored-update source id v raw at [] = refl
is_stored-update source id v raw at (r ∷ rs) =
    ground (arith, is_stored-update source id v raw at rs)

count_rows-update :
    (source id : ℕ) (v : Bytes) (raw : StringMap) (at : ℕ) (rs : List Release)
    → count_rows source v (update_release id raw at rs) ≡ count_rows source v rs
unfolding count_rows update_release
count_rows-update source id v raw at [] = refl
count_rows-update source id v raw at (r ∷ rs) =
    ground (arith, count_rows-update source id v raw at rs)

-- IngestRelease without faults returns, and its source has what it had and the version of the result.
abbrev Ingested : ℕ → IngestionResult → Db → Type 0
Ingested source r db =
    (res : IngestResult) × (d : Db) × (ingest_release source r (calm db) ≡ (ok res, calm d))
    × ((v : Bytes) → Grew source v db.releases d.releases (same r.raw_version v))

module _ (source : ℕ) (r : IngestionResult) (db : Db) where
  new-Ingested : find_release source r.raw_version db.releases ≡ none → Ingested source r db
  unfolding is_stored count_rows ingest_new_release insert_release insert_job
  new-Ingested e = (
    ingest_new,
    (ingest_new_release source r (calm db)).1,
    ingest_of_none source r db e,
    λ v. rw (==_refl source) (elim (Bool-cases (same r.raw_version v)) [
      | inl hit ↦
          let missing : is_stored source v db.releases ≡ false =
            sym (ap (λ x. is_stored source x db.releases) ((same_iff r.raw_version v).0 hit))
            ∙ is_stored-find source r.raw_version db.releases
            ∙ ap is_found e in
          rw (hit, missing) (refl, omega arith)
      | inr miss ↦ rw (miss) (Grew-nothing source v db.releases)
    ]),
  )

  known :
      (old : Release) (v : Bytes)
      → find_release source r.raw_version db.releases ≡ some old
      → Grew source v db.releases db.releases (same r.raw_version v)
  known old v e = elim (Bool-cases (same r.raw_version v)) [
    | inl hit ↦
        let there : is_stored source v db.releases ≡ true =
          sym (ap (λ x. is_stored source x db.releases) ((same_iff r.raw_version v).0 hit))
          ∙ is_stored-find source r.raw_version db.releases
          ∙ ap is_found e in
        rw (there) (refl, omega arith)
    | inr miss ↦ rw (miss) (Grew-nothing source v db.releases)
  ]

  old-Ingested :
      (old : Release)
      → find_release source r.raw_version db.releases ≡ some old
      → Ingested source r db
  old-Ingested old e = (
    if changelog_added old r then ingest_updated else ingest_skipped,
    record db {
      releases = update_release old.id (raw_data r) r.timestamp db.releases;
      jobs =
          db.jobs ++ (if changelog_added old r then notify_release old.id source true ∷ [] else []);
    },
    ingest_of_old source r db old e,
    λ v. (
      is_stored-update source old.id v (raw_data r) r.timestamp db.releases ∙ (known old v e).0,
      count_rows-update source old.id v (raw_data r) r.timestamp db.releases ∙ (known old v e).1,
    ),
  )

  ingest_release-Ingested : Ingested source r db
  ingest_release-Ingested = by_found (find_release source r.raw_version db.releases) refl
    where
      by_found :
          (o : Option Release)
          → find_release source r.raw_version db.releases ≡ o
          → Ingested source r db
      by_found none e = new-Ingested e
      by_found (some old) e = old-Ingested old e

-- ProcessResults without faults.
abbrev pub Processed : ℕ → List IngestionResult → Db → Type 0
Processed source rs db =
    (d : Db) × (process_results source rs (calm db) ≡ (ok tt, calm d))
    × ((v : Bytes) → Grew source v db.releases d.releases (is_in v (versions rs)))

pub process_results-Processed :
    (source : ℕ) (rs : List IngestionResult) (db : Db) → Processed source rs db
unfolding process_results is_in versions
process_results-Processed source [] db = (db, refl, λ v. Grew-nothing source v db.releases)
process_results-Processed source (r ∷ rs) db =
    let (res, d, eq, stored) = ingest_release-Ingested source r db in
    let (e, eq', stored') = process_results-Processed source rs d in
    (
      e,
      ap (λ (x : Result IngestResult × Db). continue x.0 (λ _. process_results source rs) x.1) eq
          ∙ eq',
      λ v.
          Grew-then source v db.releases d.releases e.releases (same r.raw_version v)
            (is_in v (versions rs)) (stored v) (stored' v),
    )
