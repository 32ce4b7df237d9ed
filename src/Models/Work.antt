-- ===== src/Models/Work.antt =====
-- models.py: the work that is done and its audit trail.
use patchline.Prelude.{ℕ, Text, Option, Bool}
use patchline.Models.Words.{
  Status, JobStatus, Purpose, RemediationStatus, PullRequestState, DeliveryStatus,
  NotificationStatus, EventType, JobType,
}

pub record DerivedPattern : Type 0 where
  pub id : ℕ
  pub entry_id : ℕ
  pub pattern_json : Text
  pub engine_run_id : Text

pub record ScanJob : Type 0 where
  pub id : ℕ
  pub entry_id : ℕ
  pub repository_id : ℕ
  pub branch : Text
  pub priority : ℕ
  pub next_attempt_at : Option ℕ
  pub status : JobStatus
  pub purpose : Purpose
  pub occurrences_count : ℕ
  pub files_examined : ℕ
  pub scanned_sha : Option Text
  pub claimed_at : Option ℕ
  pub started_at : Option ℕ
  pub completed_at : Option ℕ
  pub error_message : Option Text
  pub created_at : ℕ

pub record Occurrence : Type 0 where
  pub id : ℕ
  pub scan_job_id : ℕ
  pub file_path : Text
  pub line_start : ℕ
  pub line_end : ℕ
  pub snippet : Text
  pub confidence : Option Text

pub record Remediation : Type 0 where
  pub id : ℕ
  pub scan_job_id : Option ℕ
  pub repository_id : ℕ
  pub entry_id : ℕ
  pub diff_content : Option Text
  pub diff_sha256 : Option Text
  pub provenance_json : Option Text
  pub engine_run_id : Option Text
  pub status : RemediationStatus
  pub error_message : Option Text
  pub deleted_at : Option ℕ

pub record Confirmation : Type 0 where
  pub id : ℕ
  pub remediation_id : ℕ
  pub entry_id : ℕ
  pub repository_id : ℕ
  pub vendor_id : ℕ
  pub diff_sha256 : Text

pub record PullRequest : Type 0 where
  pub id : ℕ
  pub remediation_id : ℕ
  pub repository_id : ℕ
  pub entry_id : ℕ
  pub branch_name : Option Text
  pub pr_number : Option ℕ
  pub pr_url : Option Text
  pub state : PullRequestState

pub record JobLog : Type 0 where
  pub id : ℕ
  pub job_type : JobType
  pub entity_id : ℕ
  pub status : Status
  pub detail : Text

pub record WebhookDelivery : Type 0 where
  pub id : ℕ
  pub github_delivery_id : Text
  pub event_type : Text
  pub status : DeliveryStatus
  pub processed_at : Option ℕ

pub record CoverageState : Type 0 where
  pub id : ℕ
  pub entry_id : ℕ
  pub repository_id : ℕ
  pub status : Status
  pub verification_timestamp : Option ℕ
  pub manual_migrated : Bool
  pub last_updated_at : ℕ

pub record FeedbackFlag : Type 0 where
  pub id : ℕ
  pub occurrence_id : ℕ
  pub vendor_id : ℕ
  pub reason : Option Text
  pub created_at : ℕ
  pub deleted_at : Option ℕ

-- The `regression_type` of a payload
pub data Regression : Type 0 where
  reintroduction new_introduction : Regression

-- The dictionary that `build_payload` returns; `payload_json` holds its text.
pub record Payload : Type 0 where
  pub event_type : EventType
  pub delivery_id : Text
  pub timestamp : ℕ
  pub entry_id : Option ℕ
  pub repository_name : Option Text
  pub status : Option Text
  pub instance_id : Text
  pub next_attempt_at : Option ℕ
  pub regression_type : Option Regression

pub record Notification : Type 0 where
  pub id : ℕ
  pub event_type : EventType
  pub payload : Payload
  pub webhook_url : Option Text
  pub status : NotificationStatus
  pub attempts : ℕ
  pub delivery_id : Text
