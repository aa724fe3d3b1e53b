-- ===== src/Samples/Onboarded.antt =====
-- A repository with one dependency file, and the selections that are made from its scan.
use changelogue.Prelude.{◌≡◌, refl, true, none, some, List, [], ◌∷◌, bytes}
use changelogue.Exec.{Outcome, ok, served, unacked}
use changelogue.Models.{ScannedDependency, OnboardScan}
use changelogue.Db.{Db}
use changelogue.Githubauth.{got}
use changelogue.Ingestion.Atomic.{calm, IsAtomic}
use changelogue.Onboard.Store.{
  OnboardSelection, Width, nothing_applied, apply_onboard_scan, new_scan, find_scan,
}
use changelogue.Onboard.Store.Accounts.{Applied}
use changelogue.Onboard.Store.Applied.{apply_onboard_scan-Applied}
use changelogue.Onboard.Scanner.{Scanner, parse_repo_url, fetch_dependency_files}
use changelogue.Onboard.Extractor.{gemini, Extractor, extract}
use changelogue.Onboard.Worker.{ScanWorker, done, panicked, work}
use changelogue.Onboard.Worker.Settled.{Settled, work-Settled}
use changelogue.Samples.Notified.{stored}

abbrev all_fit : Width
all_fit n text = true

abbrev picked : List OnboardSelection
picked =
    record {
      dep_name = bytes "mux";
      upstream_repo = bytes "gorilla/mux";
      provider = bytes "github";
      project_id = none;
      new_project_name = bytes "mux";
    }
    ∷ record {
      dep_name = bytes "mux";
      upstream_repo = bytes "gorilla/mux";
      provider = bytes "github";
      project_id = some 1;
      new_project_name = [];
    }
    ∷ []

abbrev shaky : Db
shaky = record stored { faults = served ∷ served ∷ served ∷ served ∷ unacked ∷ [] }

apply_onboard_scan-Applied_example :
    Outcome
      (λ _. Unit {0})
      (Applied picked nothing_applied shaky)
      (apply_onboard_scan all_fit 40 picked shaky)
    × IsAtomic (apply_onboard_scan all_fit 40 picked) shaky
apply_onboard_scan-Applied_example = apply_onboard_scan-Applied all_fit 40 picked shaky

abbrev github : Scanner
github = record {
  base_url = bytes "https://api.github.com";
  token_for_repo = λ owner repo. got (bytes "t");
  repo_answer = λ token url. some (200, some (bytes "main"));
  tree_answer = λ token url.
      some (200, some (record { path = bytes "src/go.mod"; kind = bytes "blob" } ∷ []));
  file_answer =
      λ token url. some (200, some (record { content = bytes "require mux"; encoding = [] }));
  decode_base64 = λ text. none;
}

abbrev mux : ScannedDependency
mux = record {
  name = bytes "mux";
  version = bytes "v1.8.0";
  ecosystem = bytes "go";
  upstream_repo = bytes "gorilla/mux";
  provider = bytes "github";
}

abbrev model : Extractor
model = record {
  provider = gemini (λ prompt. some (some (bytes "[]" ∷ []) ∷ []));
  read = λ text. some (mux ∷ []);
}

abbrev worker : ScanWorker
worker = record { scanner = github; extractor = some model }

abbrev waiting : OnboardScan
waiting = new_scan 40 (bytes "o/r") 900

abbrev scanned : Db
scanned = record stored { scans = waiting ∷ [] }

work-Settled_example : Settled worker 40 waiting scanned (work worker 40 (calm scanned))
unfolding find_scan
work-Settled_example = work-Settled worker 40 waiting scanned refl

-- A candidate without content.
abbrev blocked : ScanWorker
blocked = record worker {
  extractor = some (record model { provider = gemini (λ prompt. some (none ∷ [])) });
}

work_panics : (work blocked 40 (calm scanned)).0 ≡ ok panicked
unfolding work find_scan parse_repo_url fetch_dependency_files extract
work_panics = refl

work_done : (work worker 40 (calm scanned)).0 ≡ ok done
unfolding work find_scan parse_repo_url fetch_dependency_files extract
work_done = refl

parse_url :
    parse_repo_url (bytes " https://github.com/o/r.git ")
    ≡ some (record { owner = bytes "o"; repo = bytes "r" })
unfolding parse_repo_url
parse_url = refl

-- A trailing slash keeps the suffix on.
parse_url_with_slash :
    parse_repo_url (bytes "https://github.com/o/r.git/")
    ≡ some (record { owner = bytes "o"; repo = bytes "r.git" })
unfolding parse_repo_url
parse_url_with_slash = refl
