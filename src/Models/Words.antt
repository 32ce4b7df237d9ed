-- ===== src/Models/Words.antt =====
-- The words that the status columns of models.py hold, as data types.

-- CoverageState.status, the twelve words of STATUSES in core/coverage.py.
pub data Status : Type 0 where
  not_scanned scanning no_hits pattern_detected remediation_pending pr_open : Status
  pr_rejected migrated migration_incomplete scan_failed dispatch_failed skipped_language : Status

-- ScanJob.status
pub data JobStatus : Type 0 where
  queued running done failed skipped_language : JobStatus

-- ScanJob.purpose
pub data Purpose : Type 0 where
  scan manual_rescan verification rescan : Purpose

-- ChangelogEntry.status
pub data EntryStatus : Type 0 where
  draft ready derivation_failed : EntryStatus

-- Remediation.status
pub data RemediationStatus : Type 0 where
  generating ready generation_failed dispatch_failed dispatched : RemediationStatus

-- PullRequest.state
pub data PullRequestState : Type 0 where
  open_pr merged closed rejected dispatch_failed : PullRequestState

-- Installation.connection_state, Repository.connection_state
pub data ConnectionState : Type 0 where
  active suspended removed : ConnectionState

-- WebhookDelivery.status
pub data DeliveryStatus : Type 0 where
  processing succeeded failed : DeliveryStatus

-- Notification.status
pub data NotificationStatus : Type 0 where
  pending sent failed disabled : NotificationStatus

-- EVENT_TYPES of core/notifications.py
pub data EventType : Type 0 where
  scan_complete pr_dispatched pr_merged pr_rejected engine_failure regression_detected : EventType

-- The `job_type` of a JobLog row
pub data JobType : Type 0 where
  coverage scan verification rescan remediation dispatch webhook pr_sync manual : JobType
