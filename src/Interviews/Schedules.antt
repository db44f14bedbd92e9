-- ===== src/Interviews/Schedules.antt =====
-- `schedule` and `reschedule` of InterviewsService.
use recruit_saas.Common.{
  ℕ, suc, ◌≡◌, refl, ◌⊎◌, inl, inr, true, false, some, List, [], ◌∷◌, ◌==◌, ◌&&◌, arith, any, map,
  Has, All-of_Has, any-Has, Bool-cases, modify,
}
use recruit_saas.Schema.{Db, Application, ApplicationStatus, Interview, interview_scheduled}
use recruit_saas.Prisma.{
  Prisma, Error, ok, err, not_found, conflict, unprocessable, row_missing, Result-cases,
}
use recruit_saas.Prisma.Keys.{find_first-cases, create-free, update-cases}
use recruit_saas.Tables.{interview_panel_member_clash}
use recruit_saas.Applications
use recruit_saas.Applications.{require_job_application}
use recruit_saas.Applications.Effects.{IsHeld, find_for_job}
use recruit_saas.Interviews.{
  ScheduleInterview, RescheduleInterview, Ids, new_interview, new_member, as_rescheduled, or_mode,
  interview_payload, is_missing, require_org_members, create_panel, create_with_panel, schedule,
  replace_interview, reschedule,
}
use recruit_saas.Interviews.Panels.{
  panel_rows, note_rows, AreDistinct, IsFree, create_panel_lem, notify_all_lem, none_missing,
  memberships, member_listed, outsider_unlisted,
}

module _ ⦃p : Prisma⦄ where
  -- An interview of an active application, where every interviewer has a role in the application's
  -- organization: one scheduled interview is added, with a row for each interviewer on its panel,
  -- and each is notified once; nothing else changes. If one interviewer has no role there, the call
  -- is unprocessable and nothing changes. The interviewers are distinct and the interview's id is
  -- new. The ids of applications are distinct.
  pub schedule_lem :
      (ids : Ids) (a : Application) (dto : ScheduleInterview) (db : Db)
      → IsHeld db a
      → a.status ≡ ApplicationStatus.active
      → AreDistinct dto.interviewer_ids
      → IsFree ids.interview_id dto.interviewer_ids db.panel_members
      → ((x : ℕ)
          → Has x dto.interviewer_ids
          → any
              (λ m. m.organization_id == a.organization_id && m.user_id == x)
              db.user_organization_roles
            ≡ false
          → schedule ids (some a.organization_id) a.job_id a.id dto db ≡ (err unprocessable, db))
        × (((x : ℕ)
              → Has x dto.interviewer_ids
              → any
                  (λ m. m.organization_id == a.organization_id && m.user_id == x)
                  db.user_organization_roles
                ≡ true)
            → schedule ids (some a.organization_id) a.job_id a.id dto db ≡ (
              ok (new_interview ids.interview_id a.id a.organization_id dto.scheduled_at dto.mode),
              record db {
                interviews =
                    new_interview ids.interview_id a.id a.organization_id dto.scheduled_at dto.mode
                    ∷ db.interviews;
                panel_members =
                    panel_rows ids.member_id ids.interview_id 0 dto.interviewer_ids
                      db.panel_members;
                notifications =
                    note_rows ids.note_id
                      (interview_payload (
                        new_interview ids.interview_id a.id a.organization_id dto.scheduled_at
                          dto.mode))
                      0
                      dto.interviewer_ids
                      db.notifications;
              },
            ))
  unfolding schedule Applications.get_for_job require_job_application require_org_members
      create_with_panel
  schedule_lem ids a dto db h s distinct free =
      let row = new_interview ids.interview_id a.id a.organization_id dto.scheduled_at dto.mode in
      let ms = memberships db a.organization_id dto.interviewer_ids in
      (
        (λ x has out. ground (
          arith,
          find_for_job a db h,
          any-Has (is_missing ms) x dto.interviewer_ids has
              (ground (arith, outsider_unlisted db a.organization_id dto.interviewer_ids x out)),
        )),
        λ members. ground (
          arith,
          find_for_job a db h,
          none_missing ms dto.interviewer_ids (
              All-of_Has (λ x. any (λ m. m.user_id == x) ms ≡ true) dto.interviewer_ids
                (λ x has.
                  member_listed db a.organization_id dto.interviewer_ids x has (members x has))),
          create-free row db.interviews,
          create_panel_lem ids.member_id ids.interview_id 0 dto.interviewer_ids
              (record db { interviews = row ∷ db.interviews }) distinct free,
          notify_all_lem ids.note_id (interview_payload row) 0 dto.interviewer_ids (record db {
            interviews = row ∷ db.interviews;
            panel_members =
                panel_rows ids.member_id ids.interview_id 0 dto.interviewer_ids db.panel_members;
          }),
        ),
      )

  create_panel-interviews :
      (member_id : ℕ → ℕ) (interview_id index : ℕ) (ids : List ℕ) (db : Db)
      → (create_panel member_id interview_id index ids db).1.interviews ≡ db.interviews
  unfolding create_panel
  create_panel-interviews member_id interview_id index [] db = refl
  create_panel-interviews member_id interview_id index (x ∷ xs) db =
      let row = new_member (member_id index) interview_id x in
      let made = p.create-eq interview_panel_member_clash row db.panel_members in
      elim (Bool-cases (any (interview_panel_member_clash row) db.panel_members)) [
        | inl taken ↦ ground arith
        | inr free ↦ ground (
          arith,
          create_panel-interviews member_id interview_id (suc index) xs
              (record db { panel_members = row ∷ db.panel_members }),
        )
      ]

  replace_interview-cases :
      (ids : Ids) (i : Interview) (panel : List ℕ) (org : ℕ) (dto : RescheduleInterview) (db : Db)
      → ((e : Error) × (replace_interview ids i panel org dto db ≡ (err e, db)))
        ⊎ (((replace_interview ids i panel org dto db).0
              ≡ ok (
                  new_interview ids.interview_id i.application_id org dto.scheduled_at
                    (or_mode dto.mode i.mode)))
            × ((replace_interview ids i panel org dto db).1.interviews
                ≡ modify
                    (λ x. x.id == i.id)
                    (as_rescheduled ids.interview_id)
                    (new_interview ids.interview_id i.application_id org dto.scheduled_at
                        (or_mode dto.mode i.mode)
                      ∷ db.interviews)))
  unfolding replace_interview create_with_panel
  replace_interview-cases ids i panel org dto db =
      let row =
        new_interview ids.interview_id i.application_id org dto.scheduled_at
          (or_mode dto.mode i.mode) in
      let start : Db = record db { interviews = row ∷ db.interviews } in
      let keeps = create_panel-interviews ids.member_id ids.interview_id 0 panel start in
      let made = create-free row db.interviews in
      elim (Result-cases (create_panel ids.member_id ids.interview_id 0 panel start).0) [
        | inr (e, failed) ↦ inl (e, ground arith)
        | inl (_, done) ↦
            elim (update-cases (λ (x : Interview). x.id == i.id) (as_rescheduled ids.interview_id)
              (row ∷ db.interviews)) [
                | inl missing ↦ inl (row_missing, ground arith)
                | inr (r, changed) ↦ inr (ground arith, ground arith)
              ]
      ]

  -- Rescheduling is refused and changes nothing at all; or the interview was SCHEDULED, of the
  -- application and of the organization: then a new SCHEDULED interview is added, and the old one is
  -- kept, marked RESCHEDULED and linked to the new one.
  pub reschedule_sound :
      (ids : Ids) (org job_id application_id interview_id : ℕ) (dto : RescheduleInterview) (db : Db)
      → ((e : Error) × (reschedule ids (some org) job_id application_id interview_id dto db
            ≡ (err e, db)))
        ⊎ ((i : Interview) × Has i db.interviews
            × (i.id ≡ interview_id)
            × (i.application_id ≡ application_id)
            × (i.organization_id ≡ org)
            × (interview_scheduled i.status ≡ true)
            × ((reschedule ids (some org) job_id application_id interview_id dto db).0
                ≡ ok (
                    new_interview ids.interview_id i.application_id org dto.scheduled_at
                      (or_mode dto.mode i.mode)))
            × ((reschedule ids (some org) job_id application_id interview_id dto db).1.interviews
                ≡ modify
                    (λ x. x.id == i.id)
                    (as_rescheduled ids.interview_id)
                    (new_interview ids.interview_id i.application_id org dto.scheduled_at
                        (or_mode dto.mode i.mode)
                      ∷ db.interviews)))
  unfolding reschedule Applications.get_for_job require_job_application
  reschedule_sound ids org job_id application_id interview_id dto db =
      elim (find_first-cases
        (λ a. a.id == application_id && a.job_id == job_id && a.organization_id == org)
        db.applications) [
          | inl (e, _) ↦ inl (not_found, ground arith)
          | inr (a, e, _, _) ↦
              elim (find_first-cases
                (λ i.
                  i.id == interview_id
                  && i.application_id == application_id
                  && i.organization_id == org)
                db.interviews) [
                  | inl (f, _) ↦ inl (not_found, ground arith)
                  | inr (i, f, met, has) ↦ elim (Bool-cases (interview_scheduled i.status)) [
                    | inr n ↦ inl (conflict, ground arith)
                    | inl s ↦
                        elim (replace_interview-cases ids i
                          (map (λ m. m.interviewer_id)
                            (p.find_many (λ m. m.interview_id == i.id) db.panel_members))
                          org dto db) [
                            | inl (x, r) ↦ inl (x, ground arith)
                            | inr (answer, rows) ↦ inr (
                              i,
                              has,
                              ground arith,
                              ground arith,
                              ground arith,
                              s,
                              ground arith,
                              ground arith,
                            )
                          ]
                  ]
                ]
        ]
