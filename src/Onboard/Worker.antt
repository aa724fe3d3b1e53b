-- ===== src/Onboard/Worker.antt =====
-- internal/onboard/worker.go: the job that scans a repository.
pub mod Settled
use changelogue.Prelude.{Bool, true, false, Option, none, some, List, [], ◌∷◌, ℕ}
use changelogue.Exec.{Exec, Result, ok, err, Error, external, pure, raise, attempt, ◌>>=◌, ◌>>◌}
use changelogue.Models.{ScannedDependency, OnboardScan, processing, completed, failed}
use changelogue.Db.{Db, statement}
use changelogue.Onboard.Store.{get_onboard_scan, update_onboard_scan_status}
use changelogue.Onboard.Scanner.{
  RepoName, parse_repo_url, Scanner, DependencyFile, fetch_dependency_files,
}
use changelogue.Onboard.Extractor.{Extractor, extract}

-- What the queue is told beside an error: the job is done, it is cancelled for good, or it panicked.
pub data Verdict : Type 0 where
  done cancelled panicked : Verdict

-- ScanWorker; the extractor may be missing.
pub record ScanWorker : Type 0 where
  pub scanner : Scanner
  pub extractor : Option Extractor

-- pg_notify: an error is logged.
unfoldable pub notify_scan_complete : Exec Db (Unit {0})
unfolding statement
notify_scan_complete = do _ ← attempt (statement (λ db. (tt, db))); pure tt

-- The update of a scan that fails is not looked at.
abbrev pub mark : ℕ → Exec Db (Unit {0}) → Exec Db (Unit {0})
mark id update = do _ ← attempt update; pure tt

unfoldable pub mark_failed : ℕ → Exec Db (Unit {0})
unfolding update_onboard_scan_status
mark_failed id = mark id (update_onboard_scan_status id failed none true)

unfoldable pub mark_empty : ℕ → Exec Db (Unit {0})
unfolding update_onboard_scan_status
mark_empty id = mark id (update_onboard_scan_status id completed (some []) false)

abbrev pub with_dependencies : ℕ → Option (Result (List ScannedDependency)) → Exec Db Verdict
with_dependencies id none = pure panicked
with_dependencies id (some (err e)) = mark_failed id >> raise e
with_dependencies id (some (ok deps)) = do
  _ ← update_onboard_scan_status id completed (some deps) false
  _ ← notify_scan_complete
  pure done

abbrev pub with_extractor : ℕ → List DependencyFile → Option Extractor → Exec Db Verdict
with_extractor id files none = mark_failed id >> pure cancelled
with_extractor id files (some e) = with_dependencies id (extract e files)

abbrev pub with_files : ScanWorker → ℕ → Result (List DependencyFile) → Exec Db Verdict
with_files w id (err e) = mark_failed id >> raise e
with_files w id (ok []) = do _ ← mark_empty id; _ ← notify_scan_complete; pure done
with_files w id (ok (f ∷ files)) = with_extractor id (f ∷ files) w.extractor

abbrev pub with_repo : ScanWorker → ℕ → Option RepoName → Exec Db Verdict
with_repo w id none = mark_failed id >> raise external
with_repo w id (some r) = with_files w id (fetch_dependency_files w.scanner r)

unfoldable pub work : ScanWorker → ℕ → Exec Db Verdict
unfolding get_onboard_scan update_onboard_scan_status mark_failed mark_empty notify_scan_complete
work w id = do
  scan ← get_onboard_scan id
  _ ← update_onboard_scan_status id processing none false
  with_repo w id (parse_repo_url scan.repo_url)
