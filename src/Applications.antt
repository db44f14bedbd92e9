-- ===== src/Applications.antt =====
-- backend/src/applications/applications.service.ts, ApplicationsService. A call answers with the row
-- that the service's toDetail and toOrgDetail project. Ids of new rows are arguments.
pub mod Lookup
pub mod Machine
pub mod History
pub mod Invariant
pub mod Atomic
pub mod Effects
pub mod Creation
pub mod Race
pub mod Reads
mod Tests
use recruit_saas.Common.{
  Bool, true, false, ℕ, ◌+◌, String, Option, none, some, not, ◌||◌, ◌==◌, ◌&&◌,
}
use recruit_saas.Schema.{
  Application, ApplicationStatus, ApplicationStageHistory, AuditLog, Job, RecruitmentStage, Payload,
  application_active, job_published, organization_active,
}
use recruit_saas.Prisma.{
  Prisma, Action, ◌>>=◌, ◌>>◌, return, or_throw, throw_if, unless_lost, not_found, conflict,
  unprocessable, row_missing, on_unique_violation, transaction, find_first, find_first_by,
  create as insert, update,
}
use recruit_saas.Tables.{
  application, job, organization, cv, recruitment_stage, application_stage_history, audit_log,
}
use recruit_saas.Requests.{require_org_id, or_keep_column}
use recruit_saas.Notifications.{notify}

-- CreateApplicationDto
pub record CreateApplication : Type 0 where
  pub job_id : ℕ
  pub cv_id : Option ℕ
  pub cover_note : Option String

-- ScreenApplicationDto and DecideApplicationDto
pub data ScreenDecision : Type 0 where
  pass reject : ScreenDecision

pub data FinalDecision : Type 0 where
  hire reject : FinalDecision

-- The `data` of each row that is created, and of each update.
abbrev pub new_application : ℕ → ℕ → CreateApplication → Job → ℕ → RecruitmentStage → Application
new_application new_id candidate_id dto posted cv_id first_stage = record {
  id = new_id;
  job_id = posted.id;
  candidate_id = candidate_id;
  organization_id = posted.organization_id;
  cv_id = cv_id;
  stage_id = first_stage.id;
  status = ApplicationStatus.active;
  cover_note = dto.cover_note;
  rejected_reason = none;
}

abbrev pub rejection_entry : Application → ℕ → ℕ → Option String → String → AuditLog
rejection_entry found actor_id organization_id reason source = record {
  actor_id = some actor_id;
  organization_id = some organization_id;
  action = "application.rejected";
  target_type = "Application";
  target_id = found.id;
  reason = reason;
  source = some source;
}

abbrev pub rejection_payload : Application → Option String → String → Payload
rejection_payload found reason source = Payload.application_rejected found.id reason source

abbrev pub hire_entry : Application → ℕ → ℕ → AuditLog
hire_entry found actor_id organization_id = record {
  actor_id = some actor_id;
  organization_id = some organization_id;
  action = "application.hired";
  target_type = "Application";
  target_id = found.id;
  reason = none;
  source = none;
}

abbrev pub stage_move :
    Application → RecruitmentStage → RecruitmentStage → ℕ → ApplicationStageHistory
stage_move found stage next_stage actor_id = record {
  application_id = found.id;
  from_stage_id = some stage.id;
  to_stage_id = next_stage.id;
  moved_by_id = actor_id;
}

abbrev pub as_withdrawn : Application → Application
as_withdrawn a = record a { status = ApplicationStatus.withdrawn }

abbrev pub as_rejected : Option String → Application → Application
as_rejected reason a = record a {
  status = ApplicationStatus.rejected;
  rejected_reason = or_keep_column reason a.rejected_reason;
}

abbrev pub as_hired : Application → Application
as_hired a = record a { status = ApplicationStatus.hired }

abbrev pub at_stage : ℕ → Application → Application
at_stage stage_id a = record a { stage_id = stage_id }

-- The writes of a call that the database does not answer: the change of the application, the row that
-- records it, the notification.
pub record Outage : Type 0 where
  pub at_update : Bool
  pub at_record : Bool
  pub at_notification : Bool

abbrev pub calm : Outage
calm = record { at_update = false; at_record = false; at_notification = false }

module _ ⦃p : Prisma⦄ where
  unfoldable pub require_own_application : ℕ → ℕ → Action Application
  require_own_application candidate_id id = do
    found ← find_first application λ a. a.id == id && a.candidate_id == candidate_id
    or_throw not_found found

  unfoldable pub require_job_application : ℕ → ℕ → ℕ → Action Application
  require_job_application organization_id job_id id = do
    found ←
        find_first application
          λ a. a.id == id && a.job_id == job_id && a.organization_id == organization_id
    or_throw not_found found

  -- `include: { stage }`, a required relation.
  pub include_stage : Application → Action RecruitmentStage
  include_stage a = do
    found ← find_first recruitment_stage λ s. s.id == a.stage_id
    or_throw row_missing found

  owned_cv : ℕ → ℕ → Action ℕ
  owned_cv candidate_id cv_id = do
    found ← find_first cv λ c. c.id == cv_id && c.candidate_id == candidate_id
    row ← or_throw unprocessable found
    return row.id

  unfoldable primary_cv : ℕ → Action ℕ
  primary_cv candidate_id = do
    found ← find_first cv λ c. c.candidate_id == candidate_id && c.is_primary
    row ← or_throw unprocessable found
    return row.id

  unfoldable pub resolve_cv_id : ℕ → Option ℕ → Action ℕ
  unfolding owned_cv primary_cv
  resolve_cv_id candidate_id none = primary_cv candidate_id
  resolve_cv_id candidate_id (some cv_id) = owned_cv candidate_id cv_id

  -- The job that an application is for: published, and of an active organization.
  pub open_job : ℕ → Action Job
  open_job job_id = do
    found ← find_first job λ j. j.id == job_id
    posted ← or_throw not_found found
    owner ← find_first organization λ o. o.id == posted.organization_id
    org ← or_throw row_missing owner
    throw_if (not (job_published posted.status) || not (organization_active org.status)) not_found
    return posted

  pub create : ℕ → ℕ → CreateApplication → Action Application
  create new_id candidate_id dto = do
    posted ← open_job dto.job_id
    cv_id ← resolve_cv_id candidate_id dto.cv_id
    first ← find_first_by recruitment_stage (λ s. s.order) λ s. s.job_id == posted.id
    first_stage ← or_throw row_missing first
    on_unique_violation conflict
        (insert application (new_application new_id candidate_id dto posted cv_id first_stage))

  unfoldable pub get_mine : ℕ → ℕ → Action Application
  unfolding require_own_application
  get_mine candidate_id id = require_own_application candidate_id id

  unfoldable pub get_for_job : Option ℕ → ℕ → ℕ → Action Application
  unfolding require_job_application
  get_for_job org_id job_id id = do
    organization_id ← require_org_id org_id
    require_job_application organization_id job_id id

  -- The reads and the test of `withdraw`, and its write: two requests may interleave between them.
  pub withdrawable : ℕ → ℕ → Action Application
  unfolding require_own_application
  withdrawable candidate_id id = do
    found ← require_own_application candidate_id id
    throw_if (not (application_active found.status)) conflict
    return found

  pub mark_withdrawn : Application → Action Application
  mark_withdrawn found = update application (λ a. a.id == found.id) as_withdrawn

  pub withdraw : ℕ → ℕ → Action Application
  unfolding withdrawable mark_withdrawn
  withdraw candidate_id id = do found ← withdrawable candidate_id id; mark_withdrawn found

  -- The transaction of a rejection, with `source` "screening" or "decision".
  reject_in_transaction : Outage → Application → ℕ → ℕ → Option String → String → Action Application
  reject_in_transaction o found actor_id organization_id reason source = transaction do
    updated ←
        unless_lost o.at_update (update application (λ a. a.id == found.id) (as_rejected reason))
    unless_lost o.at_record
        (insert audit_log (rejection_entry found actor_id organization_id reason source))
    return updated

  -- The rejection, then, once it is committed, the notification of the candidate.
  pub reject_and_notify :
      Outage → ℕ → Application → ℕ → ℕ → Option String → String → Action Application
  unfolding reject_in_transaction notify
  reject_and_notify o note_id found actor_id organization_id reason source = do
    detail ← reject_in_transaction o found actor_id organization_id reason source
    unless_lost o.at_notification
        (notify note_id found.candidate_id (rejection_payload found reason source))
    return detail

  pub hire_in_transaction : Outage → Application → ℕ → ℕ → Action Application
  hire_in_transaction o found actor_id organization_id = transaction do
    updated ← unless_lost o.at_update (update application (λ a. a.id == found.id) as_hired)
    unless_lost o.at_record (insert audit_log (hire_entry found actor_id organization_id))
    return updated

  pub advance : Outage → Application → RecruitmentStage → ℕ → ℕ → Action Application
  advance o found stage actor_id job_id = do
    next ← find_first recruitment_stage λ s. s.job_id == job_id && s.order == stage.order + 1
    next_stage ← or_throw unprocessable next
    transaction do
      updated ←
          unless_lost o.at_update
            (update application (λ a. a.id == found.id) (at_stage next_stage.id))
      unless_lost o.at_record
          (insert application_stage_history (stage_move found stage next_stage actor_id))
      return updated

  pub screened :
      Outage
      → ScreenDecision
      → ℕ
      → Application
      → RecruitmentStage
      → ℕ
      → ℕ
      → ℕ
      → Option String
      → Action Application
  screened o ScreenDecision.reject note_id found stage actor_id organization_id job_id reason =
      reject_and_notify o note_id found actor_id organization_id reason "screening"
  screened o ScreenDecision.pass note_id found stage actor_id organization_id job_id reason =
      advance o found stage actor_id job_id

  -- `screen`, while the database may fail at its writes.
  pub screen_during :
      Outage → ℕ → Option ℕ → ℕ → ℕ → ℕ → ScreenDecision → Option String → Action Application
  unfolding require_job_application include_stage
  screen_during o note_id org_id actor_id job_id id decision reason = do
    organization_id ← require_org_id org_id
    found ← require_job_application organization_id job_id id
    stage ← include_stage found
    throw_if (not (application_active found.status)) conflict
    screened o decision note_id found stage actor_id organization_id job_id reason

  pub screen : ℕ → Option ℕ → ℕ → ℕ → ℕ → ScreenDecision → Option String → Action Application
  unfolding screen_during
  screen note_id org_id actor_id job_id id decision reason =
      screen_during calm note_id org_id actor_id job_id id decision reason

  pub decided :
      Outage → FinalDecision → ℕ → Application → ℕ → ℕ → Option String → Action Application
  decided o FinalDecision.hire note_id found actor_id organization_id reason =
      hire_in_transaction o found actor_id organization_id
  decided o FinalDecision.reject note_id found actor_id organization_id reason =
      reject_and_notify o note_id found actor_id organization_id reason "decision"

  -- `decide`, while the database may fail at its writes.
  pub decide_during :
      Outage → ℕ → Option ℕ → ℕ → ℕ → ℕ → FinalDecision → Option String → Action Application
  unfolding require_job_application
  decide_during o note_id org_id actor_id job_id id decision reason = do
    organization_id ← require_org_id org_id
    found ← require_job_application organization_id job_id id
    throw_if (not (application_active found.status)) conflict
    decided o decision note_id found actor_id organization_id reason

  pub decide : ℕ → Option ℕ → ℕ → ℕ → ℕ → FinalDecision → Option String → Action Application
  unfolding decide_during
  decide note_id org_id actor_id job_id id decision reason =
      decide_during calm note_id org_id actor_id job_id id decision reason
