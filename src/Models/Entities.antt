-- ===== src/Models/Entities.antt =====
-- models.py: who takes part. The vendor, the installations and repositories, the changelog entries.
use patchline.Prelude.{ℕ, Text, Option, List, Bool}
use patchline.Models.Words.{EntryStatus, ConnectionState}

pub record Vendor : Type 0 where
  pub id : ℕ
  pub github_user_id : ℕ
  pub github_login : Text

pub record Session : Type 0 where
  pub id : ℕ
  pub vendor_id : Option ℕ
  pub cookie_value : Text
  pub created_at : ℕ
  pub last_activity_at : ℕ
  pub expires_at : Option ℕ
  pub revoked_at : Option ℕ
  pub deleted_at : Option ℕ
  pub csrf_token : Option Text
  pub oauth_state : Option Text
  pub is_demo : Bool

pub record Installation : Type 0 where
  pub id : ℕ
  pub github_installation_id : ℕ
  pub account_login : Text
  pub account_type : Text
  pub connection_state : ConnectionState

-- What the JSON text of `scan_branches` decodes to: NULL or text that is no JSON list, or a list.
pub data ScanBranches : Type 0 where
  unset : ScanBranches
  branches : List Text → ScanBranches

pub record Repository : Type 0 where
  pub id : ℕ
  pub installation_id : ℕ
  pub full_name : Text
  pub default_branch : Text
  pub primary_language : Option Text
  pub scan_branches : ScanBranches
  pub connection_state : ConnectionState
  pub last_scan_at : Option ℕ
  pub deleted_at : Option ℕ

pub record ChangelogEntry : Type 0 where
  pub id : ℕ
  pub vendor_id : ℕ
  pub title : Text
  pub slug : Option Text
  pub prior_api_shape : Text
  pub target_contract : Text
  pub language : Text
  pub status : EntryStatus
  pub created_at : ℕ
  pub deleted_at : Option ℕ

pub record Config : Type 0 where
  pub key : Text
  pub value : Text
