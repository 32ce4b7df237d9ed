-- ===== src/Lib.antt =====
-- Patchline finds the uses of an old API in the repositories of its customers, makes diffs that migrate
-- them, and opens pull requests. A coverage board keeps, for every changelog entry and repository, how far
-- the migration has come. This library models the core of the program in src/patchline/ and proves what
-- keeps the board, the queue of scan jobs, the diffs and the confirmation gate right.
--
-- The parts, and how they interact:
--   * Models, Query, Tx: the rows of models.py; a table is a list of rows, the oldest first, and `Database`
--     holds all tables. `Tx A` is the code inside a `session_scope` of db.py: it takes the session's view
--     and gives a result or an exception, with the view that it left. `session_scope` commits or rolls back.
--   * Env: the clock, the environment variables that config.py reads, random values and the receiver of
--     notifications. One value stands for one transaction: the clock is read once.
--   * ConfigStore, Notifications: core/config_store.py and core/notifications.py, except the latencies.
--   * Coverage: core/coverage.py, the table of transitions and `apply_transition`, the only writer of the
--     board. Coverage/Board and Coverage/Effect say what a reader of the board sees, Coverage/Trail and
--     Coverage/Audit relate the board to its audit log, and Coverage/Sound is the invariant of both.
--   * Jobs: core/jobs.py, how scans are queued (Enqueue), claimed and requeued (Queue).
--   * Scanning: `execute_scan_job` of core/scanning.py, its first transaction (Start), the transactions
--     after the network phase (Finish), and the whole (Execute).
--   * Diff: core/diffapply.py (Hunks, Apply, Files) and core/diffhash.py (Hash).
--   * Dispatch: core/dispatch.py and core/pr_body.py, from the confirmation of a remediation to its pull
--     request: the gate (Gate), the calls to GitHub (Branch, Push) and what is recorded (Run).
--   * Webhooks: core/webhook_handlers.py, the handlers of the three events (Repositories, Handlers) and the
--     one transaction of a delivery (Process). Board and Pulls say what a pull request's webhook does.
--   * Sync: core/pr_sync.py (Pulls) and core/recheck.py (Installations), which ask GitHub for what a
--     webhook may have missed; Board and Recheck say what comes of the answers.
--   * Security, Slugify, Web: core/security.py (signatures, CSRF tokens, Redirect, BranchNames), the CSRF
--     check of webutil.py, core/slugify.py, and what a route answers.
--   * Auth: auth.py, its sessions and its middleware (Middleware), and routes/auth.py (Login). Admission,
--     Freshness, Revocation and Login/SingleUse say who gets in.
--   * Languages, Derivation, Remediation: adapters/languages/, core/derivation.py, and
--     core/remediation_flow.py with the checks of a diff (Validate) and the flow (Generate).
--   * Actions: routes/actions.py, the routes of entries (Entries), of approvals (Approve) and of
--     repositories, connections and jobs (Repositories). Webhooks/Route is routes/webhooks.py.
--   * Worker: worker.py, a pass over the drafts, the waiting remediations and one scan job.
--   * Pages: routes/surfaces.py, the data of the home page (Home), of the coverage pages (Coverage), and of
--     the review page, the patch file and the metrics (Review); routes/health.py (Health). Of cli.py,
--     Cli/VerifyConfig is the check of the configuration, and Cli/RevokeSessions the end of all sessions.
--   * System: all of this together, as the steps that the database can take.
--   * Sound: the invariant of the board for the code of the other parts.
--   * Examples: the theorems at concrete inputs.
--
-- Texts are lists of code points, times are seconds, keys are natural numbers. A status column is a data
-- type of its words. The columns `created_at` and `updated_at` are kept where the code reads them.
--
-- What comes from outside is a parameter: the network phase of a scan gives a `Network`, the GitHub client
-- is a record of calls on a world of any type, and hashing, Base64, the format of dates and JSON are fields
-- of `Tools`. In the same way the engine's answers, the user of an OAuth exchange, HMAC, the package unidiff and
-- the parser of Python are arguments, and random tokens are `Draws`. The text of the exception that a failed patch adds to the message of a dispatch is left out.
-- Text outside ASCII is neither lowered nor taken for white space or for digits. A second commit after a locked database,
-- which `session_scope` tries, is not distinguished from a first one.
--
-- Loops are structural recursion on their lists. The loops with a bound, the delivery attempts and the
-- suffixes of a branch, recur on the attempts left and on the list of suffixes. `show` has fuel: a number
-- has at most as many digits as its successor counts.
--
-- Not modelled: the other pages and the templates, the other commands, the heartbeat and the threads of the worker
-- (a run of it is a list of passes, and a request is one step); the engine adapters and the HTTP client of
-- GitHub, which are calls over a network; the plumbing of SQLAlchemy.
pub mod Actions
pub mod Auth
pub mod Cli
pub mod ConfigStore
pub mod Coverage
pub mod Derivation
pub mod Diff
pub mod Dispatch
pub mod Env
pub mod Examples
pub mod Jobs
pub mod Languages
pub mod Models
pub mod Notifications
pub mod Pages
pub mod Prelude
pub mod Query
pub mod Remediation
pub mod Scanning
pub mod Security
pub mod Slugify
pub mod Sound
pub mod Sync
pub mod System
pub mod Tx
pub mod Web
pub mod Webhooks
pub mod Worker
