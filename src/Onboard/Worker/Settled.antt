-- ===== src/Onboard/Worker/Settled.antt =====
-- internal/onboard/worker.go: how a job leaves its scan.
use mathlib.Core.Path.{subst}
use changelogue.Prelude.{
  ℕ, ◌≡◌, ◌⊎◌, inl, inr, refl, sym, ap, ◌∙◌, Bool, true, false, Option, none, some, List, [], ◌∷◌,
  ◌==◌, if◌then◌else◌, Bool-cases, arith,
}
use changelogue.Exec.{Result, ok, err, Error, continue, ◌>>=◌}
use changelogue.Models.{ScanStatus, processing, completed, failed, ScannedDependency, OnboardScan}
use changelogue.Db.{Db, statement, query}
use changelogue.Db.Rows.{required}
use changelogue.Ingestion.Atomic.{calm}
use changelogue.Onboard.Store.{
  find_scan, get_onboard_scan, scan_with, update_scan, update_onboard_scan_status,
}
use changelogue.Onboard.Scanner.{RepoName, parse_repo_url, DependencyFile, fetch_dependency_files}
use changelogue.Onboard.Extractor.{Extractor, extract}
use changelogue.Onboard.Worker.{
  Verdict, done, cancelled, panicked, ScanWorker, with_dependencies, with_extractor, with_files,
  with_repo, mark_failed, mark_empty, notify_scan_complete, work,
}

-- The dependencies are those of the repository: none where it has no dependency file, else what the
-- extractor makes of its files.
abbrev pub Found : ScanWorker → OnboardScan → List ScannedDependency → Type 0
Found w s deps =
    (r : RepoName) × (parse_repo_url s.repo_url ≡ some r)
    × (files : List DependencyFile) × (fetch_dependency_files w.scanner r ≡ ok files)
    × (((files ≡ []) × (deps ≡ []))
        ⊎ ((e : Extractor) × (w.extractor ≡ some e) × (extract e files ≡ some (ok deps))))

-- How a scan stands after its job, by what the queue was told.
abbrev pub SettledBy : ScanWorker → OnboardScan → Result Verdict → OnboardScan → Type 0
SettledBy w s (ok done) t =
    (t.status ≡ completed)
    × (t.error ≡ false)
    × (deps : List ScannedDependency) × (t.results ≡ some deps)
    × Found w s deps
SettledBy w s (ok cancelled) t =
    (t.status ≡ failed) × (t.error ≡ true) × (t.results ≡ none) × (w.extractor ≡ none)
SettledBy w s (ok panicked) t =
    (t.status ≡ processing)
    × (t.error ≡ false)
    × (t.results ≡ none)
    × (r : RepoName) × (parse_repo_url s.repo_url ≡ some r)
    × (f : DependencyFile) × (files : List DependencyFile) × (fetch_dependency_files w.scanner r
        ≡ ok (f ∷ files))
    × (e : Extractor) × (w.extractor ≡ some e)
    × (extract e (f ∷ files) ≡ none)
SettledBy w s (err e) t = (t.status ≡ failed) × (t.error ≡ true) × (t.results ≡ none)

module _ (id : ℕ) (change : OnboardScan → OnboardScan)
    (keeps : (s : OnboardScan) → (change s).id ≡ s.id) where
  find_scan-update :
      (ss : List OnboardScan) (s : OnboardScan)
      → find_scan id ss ≡ some s
      → find_scan id (update_scan id change ss) ≡ some (change s)
  unfolding find_scan update_scan
  find_scan-update [] s e = cc
  find_scan-update (t ∷ ts) s e = elim (Bool-cases (t.id == id)) [
    | inl hit ↦
        let same : t ≡ s = cc (rw (hit) at e) in
        simp (hit, keeps t) (ap (λ (q : OnboardScan). some (change q)) same)
    | inr miss ↦ rw (miss, miss) (find_scan-update ts s (rw (miss) at e))
  ]

  find_scan-other :
      (j : ℕ) (ss : List OnboardScan)
      → (j == id) ≡ false
      → find_scan j (update_scan id change ss) ≡ find_scan j ss
  unfolding find_scan update_scan
  find_scan-other j [] h = refl
  find_scan-other j (t ∷ ts) h = elim (Bool-cases (t.id == id)) [
    | inl hit ↦
        let other : (t.id == j) ≡ false = ground arith in
        simp (hit, keeps t, other) (find_scan-other j ts h)
    | inr miss ↦ rw (miss) (ap (λ o. if t.id == j then some t else o) (find_scan-other j ts h))
  ]

-- What a job changes: its scan, as `change` says, and nothing else.
abbrev pub Settled : ScanWorker → ℕ → OnboardScan → Db → Result Verdict × Db → Type 0
Settled w id s db x =
    (t : OnboardScan) × (find_scan id x.1.scans ≡ some t)
    × (t.repo_url ≡ s.repo_url)
    × SettledBy w s x.0 t
    × ((j : ℕ) → (j == id) ≡ false → find_scan j x.1.scans ≡ find_scan j db.scans)
    × (record x.1 { scans = db.scans } ≡ calm db)

module _ (w : ScanWorker) (id : ℕ) (s : OnboardScan) (db : Db)
    (found : find_scan id db.scans ≡ some s) where
  abbrev begun : Db
  begun = record db {
    scans = update_scan id (scan_with processing none false db.now) db.scans;
    faults = [];
  }

  abbrev ended_as : ScanStatus → Option (List ScannedDependency) → Bool → Db
  ended_as status results error = record begun {
    scans = update_scan id (scan_with status results error db.now) begun.scans;
  }

  ended_as-Settled :
      (status : ScanStatus) (results : Option (List ScannedDependency)) (error : Bool)
      (r : Result Verdict)
      → SettledBy w s r
          (scan_with status results error db.now (scan_with processing none false db.now s))
      → Settled w id s db (r, ended_as status results error)
  ended_as-Settled status results error r h = (
    scan_with status results error db.now (scan_with processing none false db.now s),
    find_scan-update id (scan_with status results error db.now) (λ _. refl) begun.scans _
        (find_scan-update id (scan_with processing none false db.now) (λ _. refl) db.scans s found),
    refl,
    h,
    λ j other.
        find_scan-other id (scan_with status results error db.now) (λ _. refl) j begun.scans other
        ∙ find_scan-other id (scan_with processing none false db.now) (λ _. refl) j db.scans other,
    refl,
  )

  begun-Settled :
      (r : Result Verdict)
      → SettledBy w s r (scan_with processing none false db.now s)
      → Settled w id s db (r, begun)
  begun-Settled r h = (
    scan_with processing none false db.now s,
    find_scan-update id (scan_with processing none false db.now) (λ _. refl) db.scans s found,
    refl,
    h,
    find_scan-begun,
    refl,
  )
    where
      find_scan-begun : (j : ℕ) → (j == id) ≡ false → find_scan j begun.scans ≡ find_scan j db.scans
      find_scan-begun j other =
          find_scan-other id (scan_with processing none false db.now) (λ _. refl) j db.scans other

  deps-Settled :
      (r : RepoName) (f : DependencyFile) (files : List DependencyFile) (e : Extractor)
      (deps : Option (Result (List ScannedDependency)))
      → parse_repo_url s.repo_url ≡ some r
      → fetch_dependency_files w.scanner r ≡ ok (f ∷ files)
      → w.extractor ≡ some e
      → extract e (f ∷ files) ≡ deps
      → Settled w id s db (with_dependencies id deps begun)
  unfolding mark_failed update_onboard_scan_status notify_scan_complete statement
  deps-Settled r f files e none hr hf he hd =
      begun-Settled (ok panicked) (refl, refl, refl, r, hr, f, files, hf, e, he, hd)
  deps-Settled r f files e (some (err c)) hr hf he hd =
      ended_as-Settled failed none true (err c) (refl, refl, refl)
  deps-Settled r f files e (some (ok deps)) hr hf he hd =
      ended_as-Settled completed (some deps) false (ok done)
        (refl, refl, deps, refl, (r, hr, f ∷ files, hf, inr (e, he, hd)))

  extractor-Settled :
      (r : RepoName) (f : DependencyFile) (files : List DependencyFile) (o : Option Extractor)
      → parse_repo_url s.repo_url ≡ some r
      → fetch_dependency_files w.scanner r ≡ ok (f ∷ files)
      → w.extractor ≡ o
      → Settled w id s db (with_extractor id (f ∷ files) o begun)
  unfolding mark_failed update_onboard_scan_status statement
  extractor-Settled r f files none hr hf he =
      ended_as-Settled failed none true (ok cancelled) (refl, refl, refl, he)
  extractor-Settled r f files (some e) hr hf he =
      deps-Settled r f files e (extract e (f ∷ files)) hr hf he refl

  files-Settled :
      (r : RepoName) (files : Result (List DependencyFile))
      → parse_repo_url s.repo_url ≡ some r
      → fetch_dependency_files w.scanner r ≡ files
      → Settled w id s db (with_files w id files begun)
  unfolding mark_failed mark_empty update_onboard_scan_status notify_scan_complete statement
  files-Settled r (err c) hr hf = ended_as-Settled failed none true (err c) (refl, refl, refl)
  files-Settled r (ok []) hr hf =
      ended_as-Settled completed (some []) false (ok done)
        (refl, refl, [], refl, (r, hr, [], hf, inl (refl, refl)))
  files-Settled r (ok (f ∷ files)) hr hf = extractor-Settled r f files w.extractor hr hf refl

  repo-Settled :
      (o : Option RepoName)
      → parse_repo_url s.repo_url ≡ o
      → Settled w id s db (with_repo w id o begun)
  unfolding mark_failed update_onboard_scan_status statement
  repo-Settled none hr = ended_as-Settled failed none true (err Error.external) (refl, refl, refl)
  repo-Settled (some r) hr = files-Settled r (fetch_dependency_files w.scanner r) hr refl

  -- Where no call fails, a job changes nothing but the scan it was queued for, and leaves it as its end
  -- says: where it is done, the scan is completed, and its results are the dependencies that the
  -- extractor makes of the repository's dependency files, none where it has no such file; where it is
  -- cancelled or ends in an error, the scan is failed, and it is cancelled only for want of an
  -- extractor. It panics only where the extractor panics on the repository's files, and then the scan
  -- is left in processing.
  pub work-Settled : Settled w id s db (work w id (calm db))
  unfolding work get_onboard_scan query update_onboard_scan_status statement
  work-Settled =
      subst
        (λ (o : Option OnboardScan).
          let x : Result OnboardScan × Db = required o (calm db) in
          Settled w id s db (
            continue x.0
              (λ scan. update_onboard_scan_status id processing none false >>= λ _.
                with_repo w id (parse_repo_url scan.repo_url))
              x.1))
        (sym found) (repo-Settled (parse_repo_url s.repo_url) refl)
