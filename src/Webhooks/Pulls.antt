-- ===== src/Webhooks/Pulls.antt =====
-- What a pull_request webhook does to the row of the pull request.
use patchline.Prelude.{◌≡◌, refl, ◌∙◌, Bool, true, false, Option}
use mathlib.Core.Option
use patchline.Models.{
  Database, PullRequestState, open_pr, merged, pull_request_table, repository_table,
}
use patchline.Tx.{Tx, change}
use patchline.Tx.Respects.{Respects, IsHistory, Respects-change, respects_rules}
use patchline.Env.{Env}
use patchline.Webhooks.Handlers.{PullAction, pull_closed, pull_opened, pull_other}

-- The pull requests are as they were.
KeepsPulls : Database → Database → Type 0
KeepsPulls before after = after.pull_requests ≡ before.pull_requests

KeepsPulls-IsHistory : IsHistory KeepsPulls
unfolding KeepsPulls
KeepsPulls-IsHistory = record { stay = λ db. refl; go_on = λ a b c ab bc. bc ∙ ab }

other_change-KeepsPulls :
    (f : Database → Database)
    → ((db : Database) → (f db).pull_requests ≡ db.pull_requests)
    → Respects KeepsPulls (change f)
unfolding KeepsPulls
other_change-KeepsPulls f h = Respects-change KeepsPulls-IsHistory f h

ruleset pulls_rules = (respects_rules, KeepsPulls-IsHistory, other_change-KeepsPulls)

-- The state that a webhook gives to a pull request.
abbrev pub state_after : PullAction → Bool → PullRequestState → PullRequestState
state_after pull_closed true old = merged
state_after pull_closed false old = PullRequestState.rejected
state_after pull_opened is_merged old = open_pr
state_after pull_other is_merged old = old
