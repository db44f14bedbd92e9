-- ===== src/Schema.antt =====
-- The tables of backend/prisma/schema.prisma that the modelled services read and write. Ids are
-- only compared, so they are numbers; a time is a number of milliseconds since the epoch; a
-- nullable column is an Option. The children are the rows by subject.
mod Enums
mod Identity
mod Hiring
mod Pipeline
mod Profiles
mod Onboarding
mod Partners
mod Files
pub use Enums.*
pub use Identity.*
pub use Hiring.*
pub use Pipeline.*
pub use Profiles.*
pub use Onboarding.*
pub use Partners.*
pub use Files.*
use recruit_saas.Common.{List}

-- The contents of the database.
pub record Db : Type 0 where
  pub users : List User
  pub roles : List Role
  pub permissions : List Permission
  pub role_permissions : List RolePermission
  pub user_organization_roles : List UserOrganizationRole
  pub organizations : List Organization
  pub refresh_tokens : List RefreshToken
  pub verification_tokens : List VerificationToken
  pub jobs : List Job
  pub recruitment_stages : List RecruitmentStage
  pub pipeline_templates : List PipelineTemplate
  pub talent_pools : List TalentPool
  pub cvs : List Cv
  pub applications : List Application
  pub stage_histories : List ApplicationStageHistory
  pub interviews : List Interview
  pub panel_members : List InterviewPanelMember
  pub evaluations : List Evaluation
  pub offers : List Offer
  pub notifications : List Notification
  pub audit_logs : List AuditLog
  pub invitations : List Invitation
  pub profiles : List CandidateProfile
  pub educations : List Education
  pub experiences : List Experience
  pub skills : List Skill
  pub checklists : List OnboardingChecklist
  pub tasks : List OnboardingTask
  pub documents : List Document
  pub pool_candidates : List TalentPoolCandidate
  pub universities : List University
  pub partnerships : List UniversityPartnership
  pub plans : List Plan
  pub subscriptions : List Subscription
  pub payments : List Payment
  -- not a table: the directory of the storage service
  pub stored_files : List StoredFile
