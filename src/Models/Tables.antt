-- ===== src/Models/Tables.antt =====
-- The database: a list of rows for each table, oldest first, and what a primary key is.
use patchline.Prelude.{ℕ, List, []}
use patchline.Models.Entities.{Vendor, Session, Installation, Repository, ChangelogEntry, Config}
use patchline.Models.Work.{
  DerivedPattern, ScanJob, Occurrence, FeedbackFlag, Remediation, Confirmation, PullRequest, JobLog,
  WebhookDelivery, CoverageState, Notification,
}

pub record Database : Type 0 where
  pub vendors : List Vendor
  pub sessions : List Session
  pub installations : List Installation
  pub repositories : List Repository
  pub entries : List ChangelogEntry
  pub patterns : List DerivedPattern
  pub jobs : List ScanJob
  pub occurrences : List Occurrence
  pub flags : List FeedbackFlag
  pub remediations : List Remediation
  pub confirmations : List Confirmation
  pub pull_requests : List PullRequest
  pub log : List JobLog
  pub deliveries : List WebhookDelivery
  pub coverage : List CoverageState
  pub notifications : List Notification
  pub config : List Config

abbrev pub empty : Database
empty = record {
  vendors = [];
  sessions = [];
  installations = [];
  repositories = [];
  entries = [];
  patterns = [];
  jobs = [];
  occurrences = [];
  flags = [];
  remediations = [];
  confirmations = [];
  pull_requests = [];
  log = [];
  deliveries = [];
  coverage = [];
  notifications = [];
  config = [];
}

-- A table whose rows have an integer primary key.
pub record Table (A : Type 0) : Type 0 where
  pub id : A → ℕ

instance abbrev pub vendor_table : Table Vendor
vendor_table = record { id = λ r. r.id }

instance abbrev pub session_table : Table Session
session_table = record { id = λ r. r.id }

instance abbrev pub installation_table : Table Installation
installation_table = record { id = λ r. r.id }

instance abbrev pub repository_table : Table Repository
repository_table = record { id = λ r. r.id }

instance abbrev pub entry_table : Table ChangelogEntry
entry_table = record { id = λ r. r.id }

instance abbrev pub job_table : Table ScanJob
job_table = record { id = λ r. r.id }

instance abbrev pub remediation_table : Table Remediation
remediation_table = record { id = λ r. r.id }

instance abbrev pub confirmation_table : Table Confirmation
confirmation_table = record { id = λ r. r.id }

instance abbrev pub pull_request_table : Table PullRequest
pull_request_table = record { id = λ r. r.id }

instance abbrev pub coverage_table : Table CoverageState
coverage_table = record { id = λ r. r.id }

instance abbrev pub log_table : Table JobLog
log_table = record { id = λ r. r.id }

instance abbrev pub notification_table : Table Notification
notification_table = record { id = λ r. r.id }

instance abbrev pub delivery_table : Table WebhookDelivery
delivery_table = record { id = λ r. r.id }

instance abbrev pub pattern_table : Table DerivedPattern
pattern_table = record { id = λ r. r.id }

instance abbrev pub occurrence_table : Table Occurrence
occurrence_table = record { id = λ r. r.id }

instance abbrev pub flag_table : Table FeedbackFlag
flag_table = record { id = λ r. r.id }
