-- ===== src/Applications/Effects.antt =====
-- What a successful call of ApplicationsService answers and writes, exactly, and when each is refused.
use recruit_saas.Common.{
  ℕ, ◌+◌, ◌≡◌, ◌≢◌, ◌⊎◌, inl, inr, true, false, Option, some, none, ◌∷◌, arith, ◌==◌, ◌&&◌, any,
  modify, Has, String,
}
use recruit_saas.Schema.{Db, Application, ApplicationStatus, RecruitmentStage, application_active}
use recruit_saas.Prisma.{Prisma, ok, err, not_found, conflict, unprocessable}
use recruit_saas.Prisma.Keys.{
  UniqueBy, find_first-none, find_first-key, find_first-cases, eq_of_key, find_first-only,
  update-key, create-free,
}
use recruit_saas.Notifications.{new_notification}
use recruit_saas.Applications.{
  calm, screen_during, decide_during, ScreenDecision, FinalDecision, withdraw, screen, decide,
  screened, decided, get_for_job, reject_and_notify, hire_in_transaction, advance, as_withdrawn,
  as_rejected, as_hired, at_stage, rejection_entry, rejection_payload, hire_entry, stage_move,
}

-- The table with one row changed.
abbrev pub with_row : Application → (Application → Application) → Db → Db
with_row a f db = record db { applications = modify (λ b. b.id == a.id) f db.applications }

-- The application stands in the table, and its id is no other row's.
pub record IsHeld (db : Db) (a : Application) : Type 0 where
  pub held : Has a db.applications
  pub keyed : UniqueBy (λ (b : Application). b.id) db.applications

module _ ⦃p : Prisma⦄ where
  pub find_for_job :
      (a : Application) (db : Db)
      → IsHeld db a
      → p.find_first
          (λ b. b.id == a.id && b.job_id == a.job_id && b.organization_id == a.organization_id)
          db.applications
        ≡ some a
  find_for_job a db h =
      find_first-key (λ (b : Application). b.id)
        (λ b. b.id == a.id && b.job_id == a.job_id && b.organization_id == a.organization_id) a
        db.applications h.keyed h.held (ground arith) (λ x e. ground arith)

  pub find_own :
      (a : Application) (db : Db)
      → IsHeld db a
      → p.find_first (λ b. b.id == a.id && b.candidate_id == a.candidate_id) db.applications
        ≡ some a
  find_own a db h =
      find_first-key (λ (b : Application). b.id)
        (λ b. b.id == a.id && b.candidate_id == a.candidate_id) a db.applications h.keyed h.held
        (ground arith) (λ x e. ground arith)

  pub update_held :
      (a : Application) (f : Application → Application) (db : Db)
      → IsHeld db a
      → p.update (λ b. b.id == a.id) f db.applications
        ≡ some (f a, modify (λ b. b.id == a.id) f db.applications)
  update_held a f db h = update-key (λ (b : Application). b.id) f a db.applications h.keyed h.held

  -- A candidate withdraws an active application of theirs: its status changes, and nothing else. The
  -- ids of applications are distinct.
  pub withdraw_active :
      (a : Application) (db : Db)
      → IsHeld db a
      → a.status ≡ ApplicationStatus.active
      → withdraw a.candidate_id a.id db ≡ (ok (as_withdrawn a), with_row a as_withdrawn db)
  unfolding withdraw
  withdraw_active a db h s = ground (arith, find_own a db h, update_held a as_withdrawn db h)

  reject_and_notify_lem :
      (note_id : ℕ) (a : Application) (actor_id org : ℕ) (reason : Option String) (source : String)
      (db : Db)
      → IsHeld db a
      → reject_and_notify calm note_id a actor_id org reason source db ≡ (
        ok (as_rejected reason a),
        record (with_row a (as_rejected reason) db) {
          audit_logs = rejection_entry a actor_id org reason source ∷ db.audit_logs;
          notifications =
              new_notification note_id a.candidate_id (rejection_payload a reason source)
              ∷ db.notifications;
        },
      )
  unfolding reject_and_notify
  reject_and_notify_lem note_id a actor_id org reason source db h = ground (
    arith,
    update_held a (as_rejected reason) db h,
    create-free (rejection_entry a actor_id org reason source) db.audit_logs,
    create-free (new_notification note_id a.candidate_id (rejection_payload a reason source))
        db.notifications,
  )

  -- The final decision on an active application of the organization. HIRE sets the status and writes
  -- one audit entry. REJECT sets the status and the reason, writes one audit entry, and notifies the
  -- candidate once. Nothing else changes. The ids of applications are distinct.
  pub decide_active :
      (note_id actor_id : ℕ) (reason : Option String) (a : Application) (db : Db)
      → IsHeld db a
      → a.status ≡ ApplicationStatus.active
      → (decide note_id (some a.organization_id) actor_id a.job_id a.id FinalDecision.hire reason db
          ≡ (
            ok (as_hired a),
            record (with_row a as_hired db) {
              audit_logs = hire_entry a actor_id a.organization_id ∷ db.audit_logs;
            },
          ))
        × (decide note_id
              (some a.organization_id)
              actor_id
              a.job_id
              a.id
              FinalDecision.reject
              reason
              db
            ≡ (
              ok (as_rejected reason a),
              record (with_row a (as_rejected reason) db) {
                audit_logs =
                    rejection_entry a actor_id a.organization_id reason "decision" ∷ db.audit_logs;
                notifications =
                    new_notification note_id a.candidate_id (rejection_payload a reason "decision")
                    ∷ db.notifications;
              },
            ))
  unfolding decide decide_during decided hire_in_transaction
  decide_active note_id actor_id reason a db h s = (
    ground (
      arith,
      find_for_job a db h,
      update_held a as_hired db h,
      create-free (hire_entry a actor_id a.organization_id) db.audit_logs,
    ),
    ground (
      arith,
      find_for_job a db h,
      reject_and_notify_lem note_id a actor_id a.organization_id reason "decision" db h,
    ),
  )

  stage_of :
      (a : Application) (stage : RecruitmentStage) (db : Db)
      → UniqueBy (λ (s : RecruitmentStage). s.id) db.recruitment_stages
      → Has stage db.recruitment_stages
      → stage.id ≡ a.stage_id
      → p.find_first (λ s. s.id == a.stage_id) db.recruitment_stages ≡ some stage
  stage_of a stage db k h e =
      find_first-key (λ (s : RecruitmentStage). s.id) (λ s. s.id == a.stage_id) stage
        db.recruitment_stages k h (ground arith) (λ x q. ground arith)

  -- Screening with PASS moves an active application from its stage to the stage that is next by
  -- order in the same job, if that one is unique, and writes one entry of the history; nothing else
  -- changes. The ids of applications and of stages are distinct.
  pub screen_pass :
      (note_id actor_id : ℕ) (reason : Option String) (a : Application)
      (stage next : RecruitmentStage) (db : Db)
      → IsHeld db a
      → a.status ≡ ApplicationStatus.active
      → UniqueBy (λ (s : RecruitmentStage). s.id) db.recruitment_stages
      → Has stage db.recruitment_stages
      → stage.id ≡ a.stage_id
      → Has next db.recruitment_stages
      → next.job_id ≡ a.job_id
      → next.order ≡ stage.order + 1
      → ((s : RecruitmentStage)
          → Has s db.recruitment_stages
          → (s.job_id == a.job_id && s.order == stage.order + 1) ≡ true
          → s ≡ next)
      → screen note_id (some a.organization_id) actor_id a.job_id a.id ScreenDecision.pass reason db
        ≡ (
          ok (at_stage next.id a),
          record (with_row a (at_stage next.id) db) {
            stage_histories = stage_move a stage next actor_id ∷ db.stage_histories;
          },
        )
  unfolding screen screen_during screened advance
  screen_pass note_id actor_id reason a stage next db h s k hs es hn ej eo only = ground (
    arith,
    find_for_job a db h,
    stage_of a stage db k hs es,
    find_first-only (λ s. s.job_id == a.job_id && s.order == stage.order + 1) next
        db.recruitment_stages hn (ground arith) only,
    update_held a (at_stage next.id) db h,
    create-free (stage_move a stage next actor_id) db.stage_histories,
  )

  -- At the last stage PASS is unprocessable and changes nothing. The ids of applications and of
  -- stages are distinct.
  pub screen_last :
      (note_id actor_id : ℕ) (reason : Option String) (a : Application) (stage : RecruitmentStage)
      (db : Db)
      → IsHeld db a
      → a.status ≡ ApplicationStatus.active
      → UniqueBy (λ (s : RecruitmentStage). s.id) db.recruitment_stages
      → Has stage db.recruitment_stages
      → stage.id ≡ a.stage_id
      → any (λ s. s.job_id == a.job_id && s.order == stage.order + 1) db.recruitment_stages ≡ false
      → screen note_id (some a.organization_id) actor_id a.job_id a.id ScreenDecision.pass reason db
        ≡ (err unprocessable, db)
  unfolding screen screen_during screened advance
  screen_last note_id actor_id reason a stage db h s k hs es last = ground (
    arith,
    find_for_job a db h,
    stage_of a stage db k hs es,
    find_first-none (λ s. s.job_id == a.job_id && s.order == stage.order + 1) db.recruitment_stages
        last,
  )

  -- A withdrawn, rejected or hired application is refused by every call, and nothing changes. The
  -- ids of applications and of stages are distinct, and its stage exists.
  pub closed_conflict :
      (note_id actor_id : ℕ) (reason : Option String) (d : ScreenDecision) (f : FinalDecision)
      (a : Application) (stage : RecruitmentStage) (db : Db)
      → IsHeld db a
      → a.status ≢ ApplicationStatus.active
      → UniqueBy (λ (s : RecruitmentStage). s.id) db.recruitment_stages
      → Has stage db.recruitment_stages
      → stage.id ≡ a.stage_id
      → (withdraw a.candidate_id a.id db ≡ (err conflict, db))
        × (screen note_id (some a.organization_id) actor_id a.job_id a.id d reason db
            ≡ (err conflict, db))
        × (decide note_id (some a.organization_id) actor_id a.job_id a.id f reason db
            ≡ (err conflict, db))
  unfolding withdraw screen screen_during decide decide_during
  closed_conflict note_id actor_id reason d f a stage db h closed k hs es =
      let test : application_active a.status ≡ false = not_active a.status closed in
      (
        ground (arith, find_own a db h),
        ground (arith, find_for_job a db h, stage_of a stage db k hs es),
        ground (arith, find_for_job a db h),
      )
    where
      not_active :
          (s : ApplicationStatus) → s ≢ ApplicationStatus.active → application_active s ≡ false
      not_active s h = ground arith

  -- Staff of another organization get the answer for a missing row, on every call, and nothing
  -- changes: the application's existence is not confirmed. The ids of applications are distinct.
  pub foreign_not_found :
      (note_id actor_id org job_id : ℕ) (reason : Option String) (d : ScreenDecision)
      (f : FinalDecision) (a : Application) (db : Db)
      → IsHeld db a
      → a.organization_id ≢ org
      → (get_for_job (some org) job_id a.id db ≡ (err not_found, db))
        × (screen note_id (some org) actor_id job_id a.id d reason db ≡ (err not_found, db))
        × (decide note_id (some org) actor_id job_id a.id f reason db ≡ (err not_found, db))
  unfolding get_for_job screen screen_during decide decide_during
  foreign_not_found note_id actor_id org job_id reason d f a db h foreign =
      let missing : p.find_first
            (λ b. b.id == a.id && b.job_id == job_id && b.organization_id == org) db.applications
          ≡ none =
        hidden (
          find_first-cases (λ b. b.id == a.id && b.job_id == job_id && b.organization_id == org)
            db.applications) in
      (ground (arith, missing), ground (arith, missing), ground (arith, missing))
    where
      hidden :
          ((p.find_first
                  (λ b. b.id == a.id && b.job_id == job_id && b.organization_id == org)
                  db.applications
                ≡ none)
              × (any
                    (λ b. b.id == a.id && b.job_id == job_id && b.organization_id == org)
                    db.applications
                  ≡ false))
            ⊎ ((r : Application) × (p.find_first
                    (λ b. b.id == a.id && b.job_id == job_id && b.organization_id == org)
                    db.applications
                  ≡ some r)
                × ((r.id == a.id && r.job_id == job_id && r.organization_id == org) ≡ true)
                × Has r db.applications)
          → p.find_first
              (λ b. b.id == a.id && b.job_id == job_id && b.organization_id == org)
              db.applications
            ≡ none
      hidden (inl (e, _)) = e
      hidden (inr (r, e, met, has)) = absurd (
          ground (
            arith,
            eq_of_key (λ (b : Application). b.id) r a db.applications h.keyed has h.held
                (ground arith),
          ))
