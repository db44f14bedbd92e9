-- ===== src/Schema/Identity.antt =====
-- Users, roles, organizations and tokens of backend/prisma/schema.prisma.
use recruit_saas.Common.{ℕ, Bool, Option, String}
use recruit_saas.Schema.Enums.{OrganizationStatus, VerificationTokenPurpose}

pub record User : Type 0 where
  pub id : ℕ
  pub email : String
  pub password_hash : String
  pub full_name : String
  pub email_verified : Bool
  pub is_super_admin : Bool

pub record Role : Type 0 where
  pub id : ℕ
  pub key : String
  pub is_platform_role : Bool

pub record Permission : Type 0 where
  pub id : ℕ
  pub key : String

pub record RolePermission : Type 0 where
  pub role_id : ℕ
  pub permission_id : ℕ

pub record UserOrganizationRole : Type 0 where
  pub id : ℕ
  pub user_id : ℕ
  pub organization_id : ℕ
  pub role_id : ℕ

pub record Organization : Type 0 where
  pub id : ℕ
  pub name : String
  pub status : OrganizationStatus
  pub approved_at : Option ℕ
  pub rejected_reason : Option String

pub record RefreshToken : Type 0 where
  pub id : ℕ
  pub user_id : ℕ
  pub token_hash : String
  pub expires_at : ℕ
  pub revoked_at : Option ℕ

pub record VerificationToken : Type 0 where
  pub id : ℕ
  pub user_id : ℕ
  pub token_hash : String
  pub purpose : VerificationTokenPurpose
  pub expires_at : ℕ
  pub used_at : Option ℕ

-- The type of a notification with its payload: 'application.rejected' and 'interview.scheduled'.
pub data Payload : Type 0 where
  application_rejected : (application_id : ℕ) (reason : Option String) (source : String) → Payload
  interview_notice : (interview_id application_id scheduled_at : ℕ) (mode : String) → Payload

pub record Notification : Type 0 where
  pub id : ℕ
  pub user_id : ℕ
  pub payload : Payload
  pub read_at : Option ℕ

-- `reason` and `source` are the fields of `metadata`.
pub record AuditLog : Type 0 where
  pub actor_id : Option ℕ
  pub organization_id : Option ℕ
  pub action : String
  pub target_type : String
  pub target_id : ℕ
  pub reason : Option String
  pub source : Option String

pub record Invitation : Type 0 where
  pub id : ℕ
  pub organization_id : ℕ
  pub email : String
  pub role_id : ℕ
  pub token_hash : String
  pub expires_at : ℕ
  pub accepted_at : Option ℕ
