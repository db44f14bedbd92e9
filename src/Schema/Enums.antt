-- ===== src/Schema/Enums.antt =====
-- The enums of backend/prisma/schema.prisma, and the comparisons with one value that the services make.
use recruit_saas.Common.{Bool, true, false}

pub data OrganizationStatus : Type 0 where
  pending_approval active rejected suspended : OrganizationStatus

pub data JobStatus : Type 0 where
  draft published closed archived : JobStatus

pub data ApplicationStatus : Type 0 where
  active withdrawn rejected hired : ApplicationStatus

pub data OfferStatus : Type 0 where
  sent accepted declined expired : OfferStatus

pub data InterviewStatus : Type 0 where
  scheduled completed rescheduled cancelled : InterviewStatus

pub data VerificationTokenPurpose : Type 0 where
  email_verification password_reset : VerificationTokenPurpose

pub data EvaluationRecommendation : Type 0 where
  strong_yes positive negative strong_no : EvaluationRecommendation

abbrev pub organization_active : OrganizationStatus → Bool
organization_active OrganizationStatus.active = true
organization_active _ = false

abbrev pub organization_pending : OrganizationStatus → Bool
organization_pending OrganizationStatus.pending_approval = true
organization_pending _ = false

abbrev pub same_organization_status : OrganizationStatus → OrganizationStatus → Bool
same_organization_status OrganizationStatus.pending_approval OrganizationStatus.pending_approval =
    true
same_organization_status OrganizationStatus.active OrganizationStatus.active = true
same_organization_status OrganizationStatus.rejected OrganizationStatus.rejected = true
same_organization_status OrganizationStatus.suspended OrganizationStatus.suspended = true
same_organization_status _ _ = false

abbrev pub job_draft : JobStatus → Bool
job_draft JobStatus.draft = true
job_draft _ = false

abbrev pub job_published : JobStatus → Bool
job_published JobStatus.published = true
job_published _ = false

abbrev pub job_archived : JobStatus → Bool
job_archived JobStatus.archived = true
job_archived _ = false

abbrev pub application_active : ApplicationStatus → Bool
application_active ApplicationStatus.active = true
application_active _ = false

abbrev pub application_hired : ApplicationStatus → Bool
application_hired ApplicationStatus.hired = true
application_hired _ = false

abbrev pub offer_accepted : OfferStatus → Bool
offer_accepted OfferStatus.accepted = true
offer_accepted _ = false

abbrev pub offer_sent : OfferStatus → Bool
offer_sent OfferStatus.sent = true
offer_sent _ = false

abbrev pub interview_scheduled : InterviewStatus → Bool
interview_scheduled InterviewStatus.scheduled = true
interview_scheduled _ = false

abbrev pub same_job_status : JobStatus → JobStatus → Bool
same_job_status JobStatus.draft JobStatus.draft = true
same_job_status JobStatus.published JobStatus.published = true
same_job_status JobStatus.closed JobStatus.closed = true
same_job_status JobStatus.archived JobStatus.archived = true
same_job_status _ _ = false

abbrev pub same_application_status : ApplicationStatus → ApplicationStatus → Bool
same_application_status ApplicationStatus.active ApplicationStatus.active = true
same_application_status ApplicationStatus.withdrawn ApplicationStatus.withdrawn = true
same_application_status ApplicationStatus.rejected ApplicationStatus.rejected = true
same_application_status ApplicationStatus.hired ApplicationStatus.hired = true
same_application_status _ _ = false

abbrev pub same_offer_status : OfferStatus → OfferStatus → Bool
same_offer_status OfferStatus.sent OfferStatus.sent = true
same_offer_status OfferStatus.accepted OfferStatus.accepted = true
same_offer_status OfferStatus.declined OfferStatus.declined = true
same_offer_status OfferStatus.expired OfferStatus.expired = true
same_offer_status _ _ = false

abbrev pub same_purpose : VerificationTokenPurpose → VerificationTokenPurpose → Bool
same_purpose VerificationTokenPurpose.email_verification
      VerificationTokenPurpose.email_verification =
    true
same_purpose VerificationTokenPurpose.password_reset VerificationTokenPurpose.password_reset = true
same_purpose _ _ = false
