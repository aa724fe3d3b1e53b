-- ===== src/Onboard/Api.antt =====
-- internal/api/onboard.go: the handlers of onboarding.
use changelogue.Prelude.{
  ℕ, Bool, true, false, Option, none, some, List, [], ◌∷◌, ◌++◌, Bytes, if◌then◌else◌, is_empty,
}
use changelogue.Exec.{Exec, Error, not_found, Result, ok, err, pure, attempt, ◌>>=◌}
use changelogue.Models.{OnboardScan}
use changelogue.Db.{Db}
use changelogue.Onboard.Store.{
  create_onboard_scan, get_onboard_scan, active_scan_for_repo, OnboardSelection, OnboardApplyResult,
  Width, apply_onboard_scan,
}
use changelogue.Onboard.Scanner.{RepoName, parse_repo_url}

pub data ScanReply : Type 0 where
  bad_request validation_error missing internal_error : ScanReply
  conflict created found : OnboardScan → ScanReply

-- "<owner>/<repo>"
abbrev pub normalized_url : RepoName → Bytes
normalized_url r = r.owner ++ (b'/' ∷ r.repo)

abbrev pub after_create : Result OnboardScan → ScanReply
after_create (err e) = internal_error
after_create (ok scan) = created scan

abbrev pub unless_active : Bytes → Result (Option OnboardScan) → Exec Db ScanReply
unless_active url (err e) = pure internal_error
unless_active url (ok (some scan)) = pure (conflict scan)
unless_active url (ok none) = do
  answer ← attempt (create_onboard_scan url)
  pure (after_create answer)

abbrev pub scan_repo : Option RepoName → Exec Db ScanReply
scan_repo none = pure validation_error
scan_repo (some r) =
    attempt (active_scan_for_repo (normalized_url r)) >>= unless_active (normalized_url r)

-- Scan; no `repo_url` is a body that does not decode.
unfoldable pub scan : Option Bytes → Exec Db ScanReply
unfolding parse_repo_url active_scan_for_repo create_onboard_scan
scan none = pure bad_request
scan (some repo_url) = scan_repo (parse_repo_url repo_url)

abbrev pub shown : Result OnboardScan → ScanReply
shown (ok scan) = found scan
shown (err not_found) = missing
shown (err Error.db_error) = internal_error
shown (err Error.null_column) = internal_error
shown (err Error.external) = internal_error

-- GetScan
unfoldable pub get_scan : ℕ → Exec Db ScanReply
unfolding get_onboard_scan
get_scan id = do answer ← attempt (get_onboard_scan id); pure (shown answer)

-- Exactly one of the two is set.
abbrev pub names_one : Option ℕ → Bytes → Bool
names_one none name = if is_empty name then false else true
names_one (some id) name = is_empty name

unfoldable pub all_name_one : List OnboardSelection → Bool
all_name_one [] = true
all_name_one (sel ∷ sels) =
    if names_one sel.project_id sel.new_project_name then all_name_one sels else false

pub data ApplyReply : Type 0 where
  undecoded invalid failure : ApplyReply
  applied : OnboardApplyResult → ApplyReply

abbrev pub after_apply : Result OnboardApplyResult → ApplyReply
after_apply (err e) = failure
after_apply (ok res) = applied res

-- Apply
unfoldable pub apply : Width → ℕ → Option (List OnboardSelection) → Exec Db ApplyReply
unfolding apply_onboard_scan all_name_one
apply fits id none = pure undecoded
apply fits id (some sels) =
    if all_name_one sels
    then (do answer ← attempt (apply_onboard_scan fits id sels); pure (after_apply answer))
    else pure invalid
