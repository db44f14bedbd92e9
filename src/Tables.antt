-- ===== src/Tables.antt =====
-- The client's delegate for each table, with the unique indexes of backend/prisma/schema.prisma and
-- backend/prisma/migrations. Ids are given by the client (cuid) and never clash.
use recruit_saas.Common.{Bool, false, ◌&&◌, ◌==◌, same_text}
use recruit_saas.Schema.{
  Invitation, CandidateProfile, Education, Experience, Skill, OnboardingChecklist, OnboardingTask,
  Document, TalentPoolCandidate, University, UniversityPartnership, Plan, Subscription, Payment,
  Application, ApplicationStageHistory, AuditLog, Cv, Evaluation, Interview, InterviewPanelMember,
  Job, Notification, Offer, Organization, PipelineTemplate, RecruitmentStage, RefreshToken,
  TalentPool, Role, RolePermission, User, UserOrganizationRole, VerificationToken,
  application_active,
}
use recruit_saas.Prisma.{Table}

abbrev no_clash : {R : Type 0} → R → R → Bool
no_clash _ _ = false

abbrev pub user_clash : User → User → Bool
user_clash a b = same_text a.email b.email

abbrev pub user : Table User
user = record {
  rows = λ db. db.users;
  set_rows = λ rows db. record db { users = rows };
  clash = user_clash;
}

abbrev pub role_clash : Role → Role → Bool
role_clash a b = same_text a.key b.key

abbrev pub role : Table Role
role = record {
  rows = λ db. db.roles;
  set_rows = λ rows db. record db { roles = rows };
  clash = role_clash;
}

abbrev pub role_permission_clash : RolePermission → RolePermission → Bool
role_permission_clash a b = a.role_id == b.role_id && a.permission_id == b.permission_id

abbrev pub role_permission : Table RolePermission
role_permission = record {
  rows = λ db. db.role_permissions;
  set_rows = λ rows db. record db { role_permissions = rows };
  clash = role_permission_clash;
}

abbrev pub user_organization_role_clash : UserOrganizationRole → UserOrganizationRole → Bool
user_organization_role_clash a b =
    a.user_id == b.user_id && a.organization_id == b.organization_id && a.role_id == b.role_id

abbrev pub user_organization_role : Table UserOrganizationRole
user_organization_role = record {
  rows = λ db. db.user_organization_roles;
  set_rows = λ rows db. record db { user_organization_roles = rows };
  clash = user_organization_role_clash;
}

abbrev pub organization : Table Organization
organization = record {
  rows = λ db. db.organizations;
  set_rows = λ rows db. record db { organizations = rows };
  clash = no_clash;
}

abbrev pub refresh_token_clash : RefreshToken → RefreshToken → Bool
refresh_token_clash a b = same_text a.token_hash b.token_hash

abbrev pub refresh_token : Table RefreshToken
refresh_token = record {
  rows = λ db. db.refresh_tokens;
  set_rows = λ rows db. record db { refresh_tokens = rows };
  clash = refresh_token_clash;
}

abbrev pub verification_token_clash : VerificationToken → VerificationToken → Bool
verification_token_clash a b = same_text a.token_hash b.token_hash

abbrev pub verification_token : Table VerificationToken
verification_token = record {
  rows = λ db. db.verification_tokens;
  set_rows = λ rows db. record db { verification_tokens = rows };
  clash = verification_token_clash;
}

abbrev pub job : Table Job
job = record {
  rows = λ db. db.jobs;
  set_rows = λ rows db. record db { jobs = rows };
  clash = no_clash;
}

abbrev pub recruitment_stage : Table RecruitmentStage
recruitment_stage = record {
  rows = λ db. db.recruitment_stages;
  set_rows = λ rows db. record db { recruitment_stages = rows };
  clash = no_clash;
}

abbrev pub pipeline_template : Table PipelineTemplate
pipeline_template = record {
  rows = λ db. db.pipeline_templates;
  set_rows = λ rows db. record db { pipeline_templates = rows };
  clash = no_clash;
}

abbrev pub talent_pool : Table TalentPool
talent_pool = record {
  rows = λ db. db.talent_pools;
  set_rows = λ rows db. record db { talent_pools = rows };
  clash = no_clash;
}

abbrev pub cv : Table Cv
cv = record {
  rows = λ db. db.cvs;
  set_rows = λ rows db. record db { cvs = rows };
  clash = no_clash;
}

-- The partial unique index Application_one_active_per_job_candidate.
abbrev pub one_active_per_job_candidate : Application → Application → Bool
one_active_per_job_candidate a b =
    application_active a.status
    && application_active b.status
    && a.job_id == b.job_id
    && a.candidate_id == b.candidate_id

abbrev pub application : Table Application
application = record {
  rows = λ db. db.applications;
  set_rows = λ rows db. record db { applications = rows };
  clash = one_active_per_job_candidate;
}

abbrev pub application_stage_history : Table ApplicationStageHistory
application_stage_history = record {
  rows = λ db. db.stage_histories;
  set_rows = λ rows db. record db { stage_histories = rows };
  clash = no_clash;
}

abbrev pub interview : Table Interview
interview = record {
  rows = λ db. db.interviews;
  set_rows = λ rows db. record db { interviews = rows };
  clash = no_clash;
}

abbrev pub interview_panel_member_clash : InterviewPanelMember → InterviewPanelMember → Bool
interview_panel_member_clash a b =
    a.interview_id == b.interview_id && a.interviewer_id == b.interviewer_id

abbrev pub interview_panel_member : Table InterviewPanelMember
interview_panel_member = record {
  rows = λ db. db.panel_members;
  set_rows = λ rows db. record db { panel_members = rows };
  clash = interview_panel_member_clash;
}

abbrev pub evaluation_clash : Evaluation → Evaluation → Bool
evaluation_clash a b = a.panel_member_id == b.panel_member_id

abbrev pub evaluation : Table Evaluation
evaluation = record {
  rows = λ db. db.evaluations;
  set_rows = λ rows db. record db { evaluations = rows };
  clash = evaluation_clash;
}

abbrev pub offer_clash : Offer → Offer → Bool
offer_clash a b = a.application_id == b.application_id

abbrev pub offer : Table Offer
offer = record {
  rows = λ db. db.offers;
  set_rows = λ rows db. record db { offers = rows };
  clash = offer_clash;
}

abbrev pub notification : Table Notification
notification = record {
  rows = λ db. db.notifications;
  set_rows = λ rows db. record db { notifications = rows };
  clash = no_clash;
}

abbrev pub audit_log : Table AuditLog
audit_log = record {
  rows = λ db. db.audit_logs;
  set_rows = λ rows db. record db { audit_logs = rows };
  clash = no_clash;
}

abbrev pub invitation_clash : Invitation → Invitation → Bool
invitation_clash a b = same_text a.token_hash b.token_hash

abbrev pub invitation : Table Invitation
invitation = record {
  rows = λ db. db.invitations;
  set_rows = λ rows db. record db { invitations = rows };
  clash = invitation_clash;
}

abbrev pub candidate_profile_clash : CandidateProfile → CandidateProfile → Bool
candidate_profile_clash a b = a.user_id == b.user_id

abbrev pub candidate_profile : Table CandidateProfile
candidate_profile = record {
  rows = λ db. db.profiles;
  set_rows = λ rows db. record db { profiles = rows };
  clash = candidate_profile_clash;
}

abbrev pub education : Table Education
education = record {
  rows = λ db. db.educations;
  set_rows = λ rows db. record db { educations = rows };
  clash = no_clash;
}

abbrev pub experience : Table Experience
experience = record {
  rows = λ db. db.experiences;
  set_rows = λ rows db. record db { experiences = rows };
  clash = no_clash;
}

abbrev pub skill : Table Skill
skill = record {
  rows = λ db. db.skills;
  set_rows = λ rows db. record db { skills = rows };
  clash = no_clash;
}

abbrev pub onboarding_checklist_clash : OnboardingChecklist → OnboardingChecklist → Bool
onboarding_checklist_clash a b = a.offer_id == b.offer_id

abbrev pub onboarding_checklist : Table OnboardingChecklist
onboarding_checklist = record {
  rows = λ db. db.checklists;
  set_rows = λ rows db. record db { checklists = rows };
  clash = onboarding_checklist_clash;
}

abbrev pub onboarding_task : Table OnboardingTask
onboarding_task = record {
  rows = λ db. db.tasks;
  set_rows = λ rows db. record db { tasks = rows };
  clash = no_clash;
}

abbrev pub document : Table Document
document = record {
  rows = λ db. db.documents;
  set_rows = λ rows db. record db { documents = rows };
  clash = no_clash;
}

abbrev pub talent_pool_candidate_clash : TalentPoolCandidate → TalentPoolCandidate → Bool
talent_pool_candidate_clash a b =
    a.talent_pool_id == b.talent_pool_id && a.candidate_id == b.candidate_id

abbrev pub talent_pool_candidate : Table TalentPoolCandidate
talent_pool_candidate = record {
  rows = λ db. db.pool_candidates;
  set_rows = λ rows db. record db { pool_candidates = rows };
  clash = talent_pool_candidate_clash;
}

abbrev pub university_clash : University → University → Bool
university_clash a b = same_text a.name b.name

abbrev pub university : Table University
university = record {
  rows = λ db. db.universities;
  set_rows = λ rows db. record db { universities = rows };
  clash = university_clash;
}

abbrev pub university_partnership_clash : UniversityPartnership → UniversityPartnership → Bool
university_partnership_clash a b =
    a.organization_id == b.organization_id && a.university_id == b.university_id

abbrev pub university_partnership : Table UniversityPartnership
university_partnership = record {
  rows = λ db. db.partnerships;
  set_rows = λ rows db. record db { partnerships = rows };
  clash = university_partnership_clash;
}

abbrev pub plan_clash : Plan → Plan → Bool
plan_clash a b = same_text a.key b.key

abbrev pub plan : Table Plan
plan = record {
  rows = λ db. db.plans;
  set_rows = λ rows db. record db { plans = rows };
  clash = plan_clash;
}

abbrev pub subscription_clash : Subscription → Subscription → Bool
subscription_clash a b = a.organization_id == b.organization_id

abbrev pub subscription : Table Subscription
subscription = record {
  rows = λ db. db.subscriptions;
  set_rows = λ rows db. record db { subscriptions = rows };
  clash = subscription_clash;
}

abbrev pub payment_clash : Payment → Payment → Bool
payment_clash a b = same_text a.stripe_event_id b.stripe_event_id

abbrev pub payment : Table Payment
payment = record {
  rows = λ db. db.payments;
  set_rows = λ rows db. record db { payments = rows };
  clash = payment_clash;
}
