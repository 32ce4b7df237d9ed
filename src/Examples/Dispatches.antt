-- ===== src/Examples/Dispatches.antt =====
-- The theorems on dispatch at concrete inputs. The client counts its calls.
use patchline.Diff.Files.{missing}
use patchline.Prelude.{
  ◌≡◌, refl, ℕ, ◌+◌, false, ◌||◌, ◌&&◌, not, ◌==◌, some, none, text, [], find, any, same, is_empty,
  if◌then◌else◌,
}
use patchline.Models.{Status, remediation_table}
use patchline.Query.{get}
use patchline.Tx.{is_ok}
use patchline.Coverage.Board.{status_of, is_allowed}
use patchline.Dispatch.Github.{Answer, answered, raised, other, Github, Tools, Call}
use patchline.Dispatch.Gate.{DispatchContext, confirmation_matches, record_confirmation}
use patchline.Dispatch.Push.{Pushed}
use patchline.Dispatch.Run.{dispatch_remediation, settle_dispatch}
use patchline.Dispatch.Trust.{
  may_dispatch, dispatch_refused, confirmation_matches-record_confirmation,
}
use patchline.Dispatch.Board.{settled_board}
use patchline.Examples.Fixtures.{ready_db, ready_remediation, quiet_env}

abbrev counted : {A : Type 0} → A → Call ℕ A
counted a n = (answered a, n + 1)

abbrev client : Github ℕ
client = record {
  mint_installation_token = λ i. counted (text "token");
  get_repo = λ repo token. counted (some (text "main"));
  get_branch_ref = λ repo branch token. counted (some (text "f00"));
  compare = λ repo base head token. counted [];
  fetch_archive = λ repo branch sha token. counted (λ path. missing);
  create_ref = λ repo ref sha token. counted tt;
  create_blob = λ repo content token. counted none;
  create_tree = λ repo base items token. counted none;
  create_commit = λ repo message tree parents token. counted none;
  update_patchline_ref = λ repo branch sha token. counted tt;
  create_pull_request =
      λ repo head base title body token. counted (record { number = some 9; html_url = none });
}

abbrev tools : Tools
tools = record {
  sha256 = λ s. s;
  base64 = λ s. s;
  day = λ t. text "20260101";
  time = λ t. text "000000";
  load_provenance = λ s. none;
}

unconfirmed : may_dispatch 4 ready_db ≡ false
unfolding get find confirmation_matches any text
unconfirmed = refl

dispatch_refused_example :
    (is_ok (dispatch_remediation client tools quiet_env 4 ready_db 0).0.0 ≡ false)
    × ((dispatch_remediation client tools quiet_env 4 ready_db 0).0.1 ≡ ready_db)
    × ((dispatch_remediation client tools quiet_env 4 ready_db 0).1 ≡ 0)
dispatch_refused_example = dispatch_refused client tools quiet_env 4 ready_db 0 unconfirmed

confirmation_matches-record_confirmation_example :
    confirmation_matches ready_remediation
      (record_confirmation ready_remediation 2 (text "cafe") ready_db).1.confirmations
    ≡ (confirmation_matches ready_remediation ready_db.confirmations
        || (not (is_empty (text "cafe")) && (4 == 4 && same (text "cafe") (text "cafe"))))
confirmation_matches-record_confirmation_example =
    confirmation_matches-record_confirmation ready_remediation ready_remediation 2 (text "cafe")
      ready_db

abbrev context : DispatchContext
context = record {
  entry_id = 1;
  repo_id = 7;
  repo_full_name = text "acme/widgets";
  default_branch = text "main";
  base_name = text "patchline/rename-20260101-cafe";
  diff_sha256 = text "cafe";
  diff_text = [];
  provenance = none;
  entry_title = text "Rename";
  target_contract = text "get_user_by_id";
  existing = [];
  installation_id = none;
}

abbrev failed_call : Answer Pushed
failed_call = raised (other (text "boom"))

remediation_found : get 4 ready_db.remediations ≡ some ready_remediation
unfolding get find
remediation_found = refl

settled_board_example :
    (is_ok (settle_dispatch quiet_env 4 context failed_call ready_db).0
      ≡ is_allowed (status_of ready_db.coverage 1 7) Status.dispatch_failed)
    × ((e r : ℕ)
        → status_of (settle_dispatch quiet_env 4 context failed_call ready_db).1.coverage e r ≡ (
            if is_allowed (status_of ready_db.coverage 1 7) Status.dispatch_failed
              && (1 == e && 7 == r)
            then Status.dispatch_failed
            else status_of ready_db.coverage e r))
settled_board_example =
    settled_board quiet_env 4 context failed_call ready_db {rem = ready_remediation}
      remediation_found
