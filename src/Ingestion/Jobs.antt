-- ===== src/Ingestion/Jobs.antt =====
-- Which jobs an ingested release queues, and that ingesting it again queues none.
use mathlib.Core.List.{append-nil, append_assoc}
use changelogue.Prelude.{
  ℕ, ◌≡◌, refl, Bool, true, false, ◌&&◌, not, Option, none, some, List, [], ◌∷◌, ◌++◌, Bytes, ◌==◌,
  if◌then◌else◌, arith, same, same_refl, ==_refl, is_empty, Bool-cases, inl, inr,
}
use changelogue.Exec.{ok}
use changelogue.Models.{Release, StringMap, Job, notify_release, gate_check}
use changelogue.Db.{Db}
use changelogue.Gate.Store.{insert_job}
use changelogue.Ingestion.Store.{
  IngestionResult, IngestResult, ingest_new, ingest_updated, ingest_skipped, lookup, insert,
  changelog_key, raw_data, find_release, update_release, changelog_added, insert_release,
  set_release, differs, ingest_new_release, ingest_old_release, ingest_found, ingest_release,
}
use changelogue.Ingestion.Atomic.{calm}

lookup-insert_self : (k v : Bytes) (m : StringMap) → lookup k (insert k v m) ≡ some v
unfolding lookup insert
lookup-insert_self k v [] = rw (same_refl k)
lookup-insert_self k v ((j, w) ∷ m) = elim (Bool-cases (same j k)) [
  | inl hit ↦ rw (hit, same_refl k)
  | inr miss ↦ rw (miss, miss) (lookup-insert_self k v m)
]

-- A row with the data of a result has that result's changelog.
not_added_again :
    (old : Release) (r : IngestionResult)
    → old.raw_data ≡ raw_data r
    → changelog_added old r ≡ false
unfolding changelog_added raw_data
not_added_again old r e = rw e (elim (Bool-cases (is_empty r.changelog)) [
  | inl empty ↦ ground (arith, empty)
  | inr full ↦
      rw
        (full, lookup-insert_self changelog_key r.changelog r.metadata, full, same_refl r.changelog)
])

abbrev after_update : ℕ → IngestionResult → Release → Release
after_update id r old =
    if old.id == id
    then record old { raw_data = raw_data r; released_at = some r.timestamp }
    else old

abbrev map_found : (Release → Release) → Option Release → Option Release
map_found f none = none
map_found f (some r) = some (f r)

find_release-update :
    (source : ℕ) (v : Bytes) (id : ℕ) (r : IngestionResult) (rs : List Release)
    → find_release source v (update_release id (raw_data r) r.timestamp rs)
      ≡ map_found (after_update id r) (find_release source v rs)
unfolding find_release update_release
find_release-update source v id r [] = refl
find_release-update source v id r (q ∷ qs) = elim (Bool-cases (q.id == id)) [
  | inl hit ↦ ground (arith, find_release-update source v id r qs)
  | inr miss ↦ ground (arith, find_release-update source v id r qs)
]

-- What IngestRelease does without faults, by what it finds.
module _ (source : ℕ) (r : IngestionResult) (db : Db) where
  pub ingest_of_none :
      find_release source r.raw_version db.releases ≡ none
      → ingest_release source r (calm db)
        ≡ (ok ingest_new, (ingest_new_release source r (calm db)).1)
  unfolding ingest_release ingest_found ingest_new_release insert_release insert_job
  ingest_of_none e = rw e

  pub ingest_of_old :
      (old : Release)
      → find_release source r.raw_version db.releases ≡ some old
      → ingest_release source r (calm db) ≡ (
        ok (if changelog_added old r then ingest_updated else ingest_skipped),
        record (calm db) {
          releases = update_release old.id (raw_data r) r.timestamp db.releases;
          jobs =
              db.jobs
              ++ (if changelog_added old r then notify_release old.id source true ∷ [] else []);
        },
      )
  unfolding ingest_release ingest_found ingest_old_release set_release insert_job
  ingest_of_old old e = rw e (elim (Bool-cases (changelog_added old r)) [
    | inl added ↦ rw added
    | inr kept ↦ rw (kept, append-nil db.jobs)
  ])

  -- The row that the next run finds.
  found_after :
      (o : Option Release)
      → find_release source r.raw_version db.releases ≡ o
      → (now : Release) × (find_release source r.raw_version
            (ingest_release source r (calm db)).1.releases
          ≡ some now)
        × (now.raw_data ≡ raw_data r)
  unfolding find_release insert_release ingest_new_release insert_job
  found_after none e = (
    record {
      id = db.next_id;
      source_id = source;
      version = r.raw_version;
      raw_data = raw_data r;
      released_at = some r.timestamp;
      created_at = db.now;
    },
    rw (ingest_of_none e, ==_refl source, same_refl r.raw_version),
    refl,
  )
  found_after (some old) e = (
    record old { raw_data = raw_data r; released_at = some r.timestamp },
    rw (
      ingest_of_old old e,
      find_release-update source r.raw_version old.id r db.releases,
      e,
      ==_refl old.id,
    ),
    refl,
  )

-- The changelog of a row: the text under its key, the empty text where there is none.
abbrev pub text_or_empty : Option Bytes → Bytes
text_or_empty none = []
text_or_empty (some text) = text

abbrev pub changelog_of : Release → Bytes
changelog_of old = text_or_empty (lookup changelog_key old.raw_data)

-- A changelog is news for a row where it says something, and not what the row has.
abbrev pub is_news : Bytes → Bytes → Bool
is_news old [] = false
is_news old (c ∷ changelog) = not (same old (c ∷ changelog))

changelog_added-is_news :
    (old : Release) (r : IngestionResult)
    → changelog_added old r ≡ is_news (changelog_of old) r.changelog
unfolding changelog_added same
changelog_added-is_news old r = by_texts (lookup changelog_key old.raw_data) r.changelog
  where
    by_texts :
        (o : Option Bytes) (new : Bytes)
        → (not (is_empty new) && differs o new) ≡ is_news (text_or_empty o) new
    by_texts none [] = refl
    by_texts none (c ∷ new) = refl
    by_texts (some old_text) [] = refl
    by_texts (some []) (c ∷ new) = refl
    by_texts (some (d ∷ old_text)) (c ∷ new) = refl

-- What IngestRelease queues, by what it found.
abbrev pub queued_jobs : ℕ → IngestionResult → ℕ → Option Release → List Job
queued_jobs source r fresh none =
    notify_release fresh source false ∷ gate_check source fresh r.raw_version ∷ []
queued_jobs source r fresh (some old) =
    if is_news (changelog_of old) r.changelog then notify_release old.id source true ∷ [] else []

abbrev pub outcome : IngestionResult → Option Release → IngestResult
outcome r none = ingest_new
outcome r (some old) =
    if is_news (changelog_of old) r.changelog then ingest_updated else ingest_skipped

-- Without faults, IngestRelease of a version that its source does not have queues a notification and
-- a gate check for the new row; of one that it has, a notification marked as an update if the
-- result has a changelog that is not empty and not the row's, and nothing otherwise; and it reports
-- which it was.
pub ingest_release_jobs :
    (source : ℕ) (r : IngestionResult) (db : Db)
    → let found = find_release source r.raw_version db.releases in
      let x = ingest_release source r (calm db) in
      (x.0 ≡ ok (outcome r found)) × (x.1.jobs ≡ db.jobs ++ queued_jobs source r db.next_id found)
unfolding ingest_new_release insert_release insert_job
ingest_release_jobs source r db = by_found (find_release source r.raw_version db.releases) refl
  where
    by_found :
        (o : Option Release)
        → find_release source r.raw_version db.releases ≡ o
        → (((ingest_release source r (calm db)).0 ≡ ok (outcome r o))
            × ((ingest_release source r (calm db)).1.jobs
                ≡ db.jobs ++ queued_jobs source r db.next_id o))
    by_found none e = rw (ingest_of_none source r db e) (refl, append_assoc db.jobs _ _)
    by_found (some old) e =
        rw (ingest_of_old source r db old e, changelog_added-is_news old r) (refl, refl)

-- Ingesting the same result once more, without faults, is a skip that queues nothing.
pub ingest_release_again :
    (source : ℕ) (r : IngestionResult) (db : Db)
    → let first = ingest_release source r (calm db) in
      let second = ingest_release source r (calm first.1) in
      (second.0 ≡ ok ingest_skipped) × (second.1.jobs ≡ first.1.jobs)
ingest_release_again source r db =
    let first = ingest_release source r (calm db) in
    let (now, found, data_kept) =
      found_after source r db (find_release source r.raw_version db.releases) refl in
    rw (ingest_of_old source r first.1 now found, not_added_again now r data_kept)
      (refl, append-nil first.1.jobs)
