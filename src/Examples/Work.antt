-- ===== src/Examples/Work.antt =====
-- The theorems on the worker and on the whole program at concrete inputs.
use patchline.Diff.Hunks.{path_of}
use patchline.Diff.Lines.{split_lines}
use patchline.Prelude.{filter, find, ◌≡◌, refl, none, some, [], ◌∷◌, Text, text}
use patchline.Models.{
  Database, empty, EntryStatus, Occurrence, Remediation, RemediationStatus, pr_open, entry_table,
}
use patchline.Query.{get}
use patchline.Tx.{ok}
use patchline.Env.{Env}
use patchline.Coverage.{can_transition}
use patchline.Coverage.Sound.{IsSound}
use patchline.Languages.{parsed}
use patchline.Derivation.{pending_entries, Derivation, Derived, patterns_of, derive_entry}
use patchline.Derivation.Settled.{verdict, status_after, asked, derive_entry_settles}
use patchline.Diff.Files.{Original}
use patchline.Remediation.Generate.{check_diff, generation, Packages, generated, GenerationResult}
use patchline.Scanning.Execute.{scanned}
use patchline.Worker.{pending_remediations, Outside, run_passes, worker_pass}
use patchline.Worker.Starved.{IsStuck, starved_worker}
use patchline.Auth.{Draws}
use patchline.Auth.Login.{demo_entry}
use patchline.Sync.Installations.{GithubInstallation}
use patchline.System.{here, next, enter_demo, pass}
use patchline.System.Invariant.{Reach-IsSound}
use patchline.Examples.Fixtures.{
  rename_entry, widgets, scanning_row, scanning_db, quiet_env, clean_result,
}

abbrev draft_db : Database
draft_db = record empty { entries = record rename_entry { status = EntryStatus.draft } ∷ [] }

abbrev patterns : Derivation → Derived
patterns d =
    patterns_of
      (record { patterns = text "[]"; engine_run_id = text "run"; language = text "Python" })

draft_found : get 1 draft_db.entries ≡ some (record rename_entry { status = EntryStatus.draft })
unfolding get find
draft_found = refl

derive_entry_settles_example :
    ((derive_entry patterns 1 draft_db).0
      ≡ ok (
          verdict
            (text "python")
            (patterns (asked (record rename_entry { status = EntryStatus.draft }) draft_db))))
    × (get 1 (derive_entry patterns 1 draft_db).1.entries
        ≡ some (record rename_entry {
          status = status_after (
              verdict
                (text "python")
                (patterns (asked (record rename_entry { status = EntryStatus.draft }) draft_db)));
        }))
derive_entry_settles_example =
    derive_entry_settles patterns 1 draft_db (record rename_entry { status = EntryStatus.draft })
      draft_found refl

abbrev diff : Text
diff = text "--- a/m.txt\n+++ b/m.txt\n@@ -1 +1 @@\n-a\n+b\n"

abbrev packages : Packages
packages = record { sha256 = λ s. s; parse = λ s. parsed; unidiff = none; describe = λ e. [] }

abbrev good_result : GenerationResult
good_result = record {
  diff = diff;
  engine_run_id = text "run";
  provenance = none;
  archive = λ path. Original.missing;
}

abbrev outside : Outside
outside = record {
  packages = packages;
  derive = patterns;
  generate = λ g. generated good_result;
  scan = λ c. scanned clean_result;
}

abbrev waiting : Remediation
waiting = record {
  id = 4;
  scan_job_id = some 3;
  repository_id = 7;
  entry_id = 1;
  diff_content = none;
  diff_sha256 = none;
  provenance_json = none;
  engine_run_id = none;
  status = RemediationStatus.generating;
  error_message = none;
  deleted_at = none;
}

abbrev an_occurrence : Occurrence
an_occurrence = record {
  id = 1;
  scan_job_id = 3;
  file_path = text "m.py";
  line_start = 1;
  line_end = 1;
  snippet = text "get_user";
  confidence = none;
}

-- A pull request of the pair is open when a new remediation is asked for.
abbrev open_db : Database
open_db = record scanning_db {
  coverage = record scanning_row { status = pr_open } ∷ [];
  entries = rename_entry ∷ [];
  occurrences = an_occurrence ∷ [];
  remediations = waiting ∷ [];
}

open_db-IsStuck : IsStuck outside open_db
unfolding get find filter pending_entries pending_remediations generation check_diff can_transition
    text split_lines path_of
open_db-IsStuck = record {
  no_drafts = refl;
  id = 4;
  ids = [];
  pending = refl;
  rem = waiting;
  entry = rename_entry;
  repo = widgets;
  found = refl;
  of_entry = refl;
  of_repo = refl;
  occurrence = _;
  others = [];
  has_occurrences = refl;
  result = good_result;
  engine = refl;
  checked = refl;
  refused = refl;
}

starved_worker_example :
    run_passes ((quiet_env, outside) ∷ (quiet_env, outside) ∷ []) open_db ≡ (ok tt, open_db)
starved_worker_example =
    starved_worker ((quiet_env, outside) ∷ (quiet_env, outside) ∷ []) open_db
      (open_db-IsStuck, (open_db-IsStuck, tt))

-- An installation with one repository, as GitHub lists it.
abbrev listed : GithubInstallation
listed = record {
  gh_id = 9;
  account_login = some (text "acme");
  login = none;
  account_type = none;
  type = none;
  repositories = none;
}

-- The demo is entered, which seeds the board, and the worker starts and makes a pass.
abbrev demo_env : Env
demo_env = record quiet_env { environ = λ name. some (text "1") }

abbrev draws : Draws
draws = record { cookie = text "new"; state = text "next"; nonce = text "n0nce" }

abbrev entered : Database
entered = (demo_entry (λ k m. m) demo_env draws (some (listed ∷ [])) empty).1

Reach-IsSound_example : IsSound (worker_pass quiet_env outside entered).1
Reach-IsSound_example = Reach-IsSound (worker_pass quiet_env outside entered).1 (
    next (next here (enter_demo (λ k m. m) demo_env draws (some (listed ∷ []))))
      (pass quiet_env outside))
