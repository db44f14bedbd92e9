-- ===== src/Sample.antt =====
-- A small database for the tests: an active organization with one published job of two stages, one
-- active application at its first stage, and one that was withdrawn.
use recruit_saas.Common.{true, none, some, [], ◌∷◌}
use recruit_saas.Schema.{
  Db, Organization, OrganizationStatus, Job, JobStatus, RecruitmentStage, Cv, Application,
  ApplicationStatus,
}

abbrev pub acme : Organization
acme = record {
  id = 1;
  name = "Acme";
  status = OrganizationStatus.active;
  approved_at = some 5;
  rejected_reason = none;
}

abbrev pub engineer : Job
engineer = record {
  id = 10;
  organization_id = 1;
  title = "Engineer";
  description = "Builds things";
  department = none;
  location = none;
  employment_type = none;
  salary_min = none;
  salary_max = none;
  status = JobStatus.published;
  created_by_id = 7;
  published_at = some 20;
  closed_at = none;
}

abbrev pub applied : RecruitmentStage
applied = record { id = 100; job_id = 10; name = "Applied"; order = 0 }

abbrev pub interviewing : RecruitmentStage
interviewing = record { id = 101; job_id = 10; name = "Interview"; order = 1 }

abbrev pub ada_cv : Cv
ada_cv = record {
  id = 50;
  candidate_id = 5;
  file_key = "k";
  file_name = "ada.pdf";
  is_primary = true;
}

abbrev pub ada_application : Application
ada_application = record {
  id = 1000;
  job_id = 10;
  candidate_id = 5;
  organization_id = 1;
  cv_id = 50;
  stage_id = 100;
  status = ApplicationStatus.active;
  cover_note = none;
  rejected_reason = none;
}

abbrev pub old_application : Application
old_application = record ada_application {
  id = 999;
  candidate_id = 6;
  status = ApplicationStatus.withdrawn;
}

abbrev pub sample : Db
sample = record {
  users = [];
  roles = [];
  permissions = [];
  role_permissions = [];
  user_organization_roles = [];
  organizations = acme ∷ [];
  refresh_tokens = [];
  verification_tokens = [];
  jobs = engineer ∷ [];
  recruitment_stages = applied ∷ interviewing ∷ [];
  pipeline_templates = [];
  talent_pools = [];
  cvs = ada_cv ∷ [];
  applications = ada_application ∷ old_application ∷ [];
  stage_histories = [];
  interviews = [];
  panel_members = [];
  evaluations = [];
  offers = [];
  notifications = [];
  audit_logs = [];
  invitations = [];
  profiles = [];
  educations = [];
  experiences = [];
  skills = [];
  checklists = [];
  tasks = [];
  documents = [];
  pool_candidates = [];
  universities = [];
  partnerships = [];
  plans = [];
  subscriptions = [];
  payments = [];
  stored_files = [];
}
