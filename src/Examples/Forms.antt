-- ===== src/Examples/Forms.antt =====
-- The theorems on the routes and the pages at concrete inputs.
use patchline.Prelude.{
  same, any, if◌then◌else◌, any, sort_by, strip, is_empty, filter, ◌≡◌, ◌+◌, ◌-◌, refl, find, true,
  none, some, List, [], ◌∷◌, Text, text, count_if,
}
use mathlib.Core.Option
use patchline.Models.{Status, repository_table}
use patchline.Query.{get}
use patchline.Tx.{ok}
use patchline.Web.{redirect}
use patchline.Coverage.{is_open_change, same_status}
use patchline.Security.BranchNames.{validate_branch_names}
use patchline.Jobs.Branches.{configured_branches}
use patchline.Actions.{Request, has_token}
use patchline.Actions.Repositories.{
  BranchAnswer, branches_of_form, order_branches, all_exist, configure_branches,
}
use patchline.Actions.Repositories.Order.{leads, Follows}
use patchline.Actions.Repositories.Branches.{or_just, configure_branches_saved}
use patchline.Pages.Home.{count_rows, home_item, row_of, home_item_counts}
use patchline.Examples.Fixtures.{widgets, scanning_db}

abbrev token : Text
token = text "t0ken"

-- The form names the default branch last, and one branch twice.
abbrev a_form : Request
a_form = record {
  state = record { session = none; vendor = none; csrf_token = some token };
  header = some token;
  form = (text "branches", text "dev, v2,dev ,main,") ∷ [];
}

abbrev form_names : List Text
form_names = text "dev" ∷ text "v2" ∷ text "dev" ∷ text "main" ∷ []

abbrev all_there : BranchAnswer
all_there full_name name = some true

names_read : branches_of_form a_form ≡ form_names
unfolding branches_of_form text filter is_empty strip
names_read = refl

names_saved :
    order_branches (text "main") (branches_of_form a_form)
    ≡ text "main" ∷ text "dev" ∷ text "v2" ∷ []
unfolding branches_of_form order_branches text sort_by filter is_empty strip any
names_saved = refl

has_its_token : has_token a_form ≡ true
unfolding has_token text
has_its_token = refl

names_valid : validate_branch_names (branches_of_form a_form) ≡ []
unfolding validate_branch_names branches_of_form text filter
names_valid = refl

widgets_found : get 7 scanning_db.repositories ≡ some widgets
unfolding get find
widgets_found = refl

names_exist : all_exist (all_there widgets.full_name) (branches_of_form a_form) ≡ true
unfolding all_exist branches_of_form text filter is_empty strip
names_exist = refl

configure_branches_saved_example :
    let (answer, after) = configure_branches all_there a_form 7 scanning_db in
    (answer ≡ ok (redirect (text "/repositories?saved=1")))
    × (names : List Text) × (Option.map configured_branches (get 7 after.repositories)
        ≡ some (or_just (text "main") names))
    × ((b : Text)
        → count_if (same b) names ≡ (if any (same b) (branches_of_form a_form) then 1 else 0))
    × (leads (text "main") names ≡ any (same (text "main")) (branches_of_form a_form))
    × Follows (text "main") (branches_of_form a_form) names
configure_branches_saved_example =
    configure_branches_saved all_there a_form 7 scanning_db widgets has_its_token names_valid
      widgets_found refl names_exist

home_item_counts_example :
    let item = home_item scanning_db 2 (count_rows scanning_db.coverage []) widgets in
    (item.open_changes ≡ count_if (row_of 7 is_open_change) scanning_db.coverage)
    × (item.migrated
        ≡ count_if (row_of 7 (λ s. same_status s Status.migrated)) scanning_db.coverage)
    × (item.not_scanned
        ≡ count_if (row_of 7 (λ s. same_status s Status.not_scanned)) scanning_db.coverage
          + (2 - count_if (row_of 7 (λ s. true)) scanning_db.coverage))
home_item_counts_example = home_item_counts scanning_db 2 widgets
