-- ===== src/Interviews.antt =====
-- backend/src/interviews/interviews.service.ts, InterviewsService. The ids of new rows are arguments:
-- for the rows of a list, by their place in it. `now` is the time of the call.
pub mod Panels
pub mod Schedules
pub mod Evaluations
mod Tests
use recruit_saas.Common.{
  ℕ, suc, String, Bool, true, false, Option, none, some, List, [], ◌∷◌, not, ◌==◌, ◌&&◌, ◌||◌, leb,
  ltb, any, map,
}
use recruit_saas.Schema.{
  Db, Application, Interview, InterviewStatus, InterviewPanelMember, Evaluation,
  EvaluationRecommendation, Score, Payload, UserOrganizationRole, application_active,
  interview_scheduled,
}
use recruit_saas.Prisma.{
  Prisma, Action, ◌>>=◌, ◌>>◌, return, or_throw, throw_if, bad_request, forbidden, not_found,
  conflict, unprocessable, on_unique_violation, transaction, related, find_first, find_many, create,
  update,
}
use recruit_saas.Tables.{interview, interview_panel_member, evaluation, user_organization_role}
use recruit_saas.Requests.{require_org_id, Page, Listing, list_page}
use recruit_saas.Notifications.{notify}
use recruit_saas.Applications

-- ScheduleInterviewDto
pub record ScheduleInterview : Type 0 where
  pub scheduled_at : ℕ
  pub mode : String
  pub interviewer_ids : List ℕ

-- RescheduleInterviewDto
pub record RescheduleInterview : Type 0 where
  pub scheduled_at : ℕ
  pub mode : Option String

-- SubmitEvaluationDto
pub record SubmitEvaluation : Type 0 where
  pub scores : List (String × Score)
  pub comment : Option String
  pub recommendation : EvaluationRecommendation

-- The ids of new rows: the interview, its panel and the notifications.
pub record Ids : Type 0 where
  pub interview_id : ℕ
  pub member_id : ℕ → ℕ
  pub note_id : ℕ → ℕ

abbrev pub new_interview : ℕ → ℕ → ℕ → ℕ → String → Interview
new_interview id application_id organization_id scheduled_at mode = record {
  id = id;
  application_id = application_id;
  organization_id = organization_id;
  scheduled_at = scheduled_at;
  mode = mode;
  status = InterviewStatus.scheduled;
  rescheduled_to_id = none;
}

abbrev pub new_member : ℕ → ℕ → ℕ → InterviewPanelMember
new_member id interview_id interviewer_id = record {
  id = id;
  interview_id = interview_id;
  interviewer_id = interviewer_id;
}

abbrev pub as_rescheduled : ℕ → Interview → Interview
as_rescheduled next_id i = record i {
  status = InterviewStatus.rescheduled;
  rescheduled_to_id = some next_id;
}

abbrev pub or_mode : Option String → String → String
or_mode none old = old
or_mode (some mode) old = mode

abbrev pub interview_payload : Interview → Payload
interview_payload i = Payload.interview_notice i.id i.application_id i.scheduled_at i.mode

abbrev pub is_among : List ℕ → ℕ → Bool
is_among ids id = any (λ x. x == id) ids

-- `interviewerIds.filter((id) => !memberIds.has(id))` is not empty.
abbrev pub is_missing : List UserOrganizationRole → ℕ → Bool
is_missing memberships id = not (any (λ m. m.user_id == id) memberships)

abbrev pub invalid_score : Score → Bool
invalid_score (Score.natural n) = ltb n 1 || ltb 5 n
invalid_score Score.negative_or_fraction = true

abbrev pub new_evaluation : ℕ → ℕ → SubmitEvaluation → Evaluation
new_evaluation id panel_member_id dto = record {
  id = id;
  panel_member_id = panel_member_id;
  scores = dto.scores;
  comment = dto.comment;
  recommendation = dto.recommendation;
}

-- `orderBy: { scheduledAt: 'asc' }`
abbrev pub soonest_first : Interview → Interview → Bool
soonest_first x y = leb x.scheduled_at y.scheduled_at

module _ ⦃p : Prisma⦄ where
  pub require_org_members : ℕ → List ℕ → Action (Unit {0})
  require_org_members organization_id interviewer_ids = do
    memberships ←
        find_many user_organization_role
          λ m. m.organization_id == organization_id && is_among interviewer_ids m.user_id
    throw_if (any (is_missing memberships) interviewer_ids) unprocessable

  pub create_panel : (ℕ → ℕ) → ℕ → ℕ → List ℕ → Action (Unit {0})
  create_panel member_id interview_id index [] = return tt
  create_panel member_id interview_id index (interviewer ∷ others) = do
    create interview_panel_member (new_member (member_id index) interview_id interviewer)
    create_panel member_id interview_id (suc index) others

  -- `interview.create` with the rows of its panel, which is one statement.
  pub create_with_panel : (ℕ → ℕ) → Interview → List ℕ → Action Interview
  create_with_panel member_id row interviewer_ids =
      transaction
        do create interview row; create_panel member_id row.id 0 interviewer_ids; return row

  pub notify_all : (ℕ → ℕ) → Payload → ℕ → List ℕ → Action (Unit {0})
  notify_all note_id payload index [] = return tt
  notify_all note_id payload index (interviewer ∷ others) = do
    notify (note_id index) interviewer payload
    notify_all note_id payload (suc index) others

  pub schedule : Ids → Option ℕ → ℕ → ℕ → ScheduleInterview → Action Interview
  schedule ids org_id job_id application_id dto = do
    organization_id ← require_org_id org_id
    application ← Applications.get_for_job (some organization_id) job_id application_id
    throw_if (not (application_active application.status)) conflict
    require_org_members organization_id dto.interviewer_ids
    row ←
        create_with_panel ids.member_id
          (new_interview ids.interview_id application_id organization_id dto.scheduled_at dto.mode)
          dto.interviewer_ids
    notify_all ids.note_id (interview_payload row) 0 dto.interviewer_ids
    return row

  pub replace_interview : Ids → Interview → List ℕ → ℕ → RescheduleInterview → Action Interview
  replace_interview ids existing panel organization_id dto = transaction do
    next ←
        create_with_panel ids.member_id
          (new_interview ids.interview_id existing.application_id organization_id dto.scheduled_at
            (or_mode dto.mode existing.mode))
          panel
    update interview (λ i. i.id == existing.id) (as_rescheduled next.id)
    return next

  pub reschedule : Ids → Option ℕ → ℕ → ℕ → ℕ → RescheduleInterview → Action Interview
  reschedule ids org_id job_id application_id interview_id dto = do
    organization_id ← require_org_id org_id
    Applications.get_for_job (some organization_id) job_id application_id
    found ← find_first interview λ i.
        i.id == interview_id
        && i.application_id == application_id
        && i.organization_id == organization_id
    existing ← or_throw not_found found
    panel ← find_many interview_panel_member λ m. m.interview_id == existing.id
    throw_if (not (interview_scheduled existing.status)) conflict
    replace_interview ids existing (map (λ m. m.interviewer_id) panel) organization_id dto

  pub list_mine : ℕ → Page → Action (Listing Interview)
  list_mine interviewer_id query = do
    db ← related
    list_page interview soonest_first
        (λ i.
          any (λ m. m.interview_id == i.id && m.interviewer_id == interviewer_id) db.panel_members)
        query

  pub list_upcoming_for_org : ℕ → Option ℕ → Page → Action (Listing Interview)
  list_upcoming_for_org now org_id query = do
    organization_id ← require_org_id org_id
    list_page interview soonest_first
        (λ i.
          i.organization_id == organization_id
          && interview_scheduled i.status
          && leb now i.scheduled_at)
        query

  pub submit_evaluation : ℕ → ℕ → ℕ → SubmitEvaluation → Action Evaluation
  submit_evaluation new_id interviewer_id interview_id dto = do
    found ←
        find_first interview_panel_member
          λ m. m.interview_id == interview_id && m.interviewer_id == interviewer_id
    panel_member ← or_throw forbidden found
    throw_if (any (λ s. invalid_score s.1) dto.scores) bad_request
    on_unique_violation conflict (create evaluation (new_evaluation new_id panel_member.id dto))

  pub list_evaluations_for_application : Option ℕ → ℕ → ℕ → Action (List Evaluation)
  list_evaluations_for_application org_id job_id application_id = do
    organization_id ← require_org_id org_id
    Applications.get_for_job (some organization_id) job_id application_id
    db ← related
    find_many evaluation λ e.
        any
          (λ m.
            m.id == e.panel_member_id
            && any
                (λ i.
                  i.id == m.interview_id
                  && i.application_id == application_id
                  && i.organization_id == organization_id)
                db.interviews)
          db.panel_members
