-- ===== src/Applications/Atomic.antt =====
-- Failing calls of ApplicationsService: `screen` and `decide`, while the database may fail at any of
-- their writes.
use recruit_saas.Common.{
  ℕ, ◌+◌, ◌≡◌, refl, ◌⊎◌, inl, inr, Option, some, none, String, true, false, Has, modify, ◌∷◌,
  arith, ◌==◌, ◌&&◌, Bool-cases,
}
use recruit_saas.Schema.{Db, Application, ApplicationStatus, RecruitmentStage, application_active}
use recruit_saas.Prisma.{
  Prisma, Result, Error, ok, err, not_found, unavailable, row_missing, conflict, unprocessable,
}
use recruit_saas.Prisma.Keys.{find_first-cases, update-cases, create-free}
use recruit_saas.Applications.{
  Outage, ScreenDecision, FinalDecision, screen_during, decide_during, screened, decided,
  reject_in_transaction, reject_and_notify, hire_in_transaction, advance, as_rejected, as_hired,
  at_stage, stage_move, hire_entry, rejection_entry, rejection_payload,
}
use recruit_saas.Notifications.{new_notification}

-- The rejection of an application has been committed, and no notification was written.
abbrev pub with_rejection : Application → ℕ → ℕ → Option String → String → Db → Db
with_rejection a actor_id org reason source db = record db {
  applications = modify (λ b. b.id == a.id) (as_rejected reason) db.applications;
  audit_logs = rejection_entry a actor_id org reason source ∷ db.audit_logs;
}

-- An action refuses and changes nothing; or it is a rejection and the outage strikes the notification,
-- and the rejection is committed all the same; or it succeeds.
abbrev pub IsClean :
    Outage
    → Type 0
    → Application
    → ℕ
    → ℕ
    → Option String
    → String
    → Db
    → Result Application × Db
    → Type 0
IsClean o rejects a actor_id org reason source db r =
    ((e : Error) × (r ≡ (err e, db)))
    ⊎ ((rejects
          × (o.at_notification ≡ true)
          × (r ≡ (err unavailable, with_rejection a actor_id org reason source db)))
        ⊎ ((x : Application) × (r.0 ≡ ok x)))

-- The same of a call, for an application of the organization that was active.
abbrev pub CallIsClean :
    Outage
    → Type 0
    → Option ℕ
    → ℕ
    → ℕ
    → ℕ
    → Option String
    → String
    → Db
    → Result Application × Db
    → Type 0
CallIsClean o rejects org_id actor_id job_id id reason source db r =
    ((e : Error) × (r ≡ (err e, db)))
    ⊎ ((rejects
          × (o.at_notification ≡ true)
          × ((a : Application) × (org : ℕ) × Has a db.applications
              × (a.id ≡ id)
              × (a.job_id ≡ job_id)
              × (a.organization_id ≡ org)
              × (org_id ≡ some org)
              × (a.status ≡ ApplicationStatus.active)
              × (r ≡ (err unavailable, with_rejection a actor_id org reason source db))))
        ⊎ ((x : Application) × (r.0 ≡ ok x)))

active_of : (s : ApplicationStatus) → application_active s ≡ true → s ≡ ApplicationStatus.active
active_of s e = ground arith

module _ ⦃p : Prisma⦄ (o : Outage) where
  reject_in_transaction-cases :
      (a : Application) (actor_id org : ℕ) (reason : Option String) (source : String) (db : Db)
      → ((e : Error) × (reject_in_transaction o a actor_id org reason source db ≡ (err e, db)))
        ⊎ ((r : Application) × (reject_in_transaction o a actor_id org reason source db
              ≡ (ok r, with_rejection a actor_id org reason source db)))
  unfolding reject_in_transaction
  reject_in_transaction-cases a actor_id org reason source db = elim (Bool-cases o.at_update) [
    | inl lost ↦ inl (unavailable, rw lost refl)
    | inr on ↦ elim (update-cases (λ b. b.id == a.id) (as_rejected reason) db.applications) [
      | inl missing ↦ inl (row_missing, rw (on, missing) refl)
      | inr (r, changed) ↦ elim (Bool-cases o.at_record) [
        | inl lost ↦ inl (unavailable, rw (on, changed, lost) refl)
        | inr off ↦ inr (
          r,
          rw
              (
                on,
                changed,
                off,
                create-free (rejection_entry a actor_id org reason source) db.audit_logs,
              )
              refl,
        )
      ]
    ]
  ]

  reject_and_notify-IsClean :
      (rejects : Type 0)
      → rejects
      → (note_id : ℕ) (a : Application) (actor_id org : ℕ) (reason : Option String)
        (source : String) (db : Db)
      → IsClean o rejects a actor_id org reason source db
          (reject_and_notify o note_id a actor_id org reason source db)
  unfolding reject_and_notify
  reject_and_notify-IsClean rejects chosen note_id a actor_id org reason source db =
      elim (reject_in_transaction-cases a actor_id org reason source db) [
        | inl (x, refused) ↦ inl (x, rw refused refl)
        | inr (r, done) ↦ elim (Bool-cases o.at_notification) [
          | inl lost ↦ inr (inl (chosen, lost, rw (done, lost) refl))
          | inr on ↦
              let noted =
                create-free
                  (new_notification note_id a.candidate_id (rejection_payload a reason source))
                  db.notifications in
              inr (inr (r, rw (done, on, noted) refl))
        ]
      ]

  -- Two writes in one transaction: both or none.
  hire_in_transaction-cases :
      (a : Application) (actor_id org : ℕ) (db : Db)
      → ((e : Error) × (hire_in_transaction o a actor_id org db ≡ (err e, db)))
        ⊎ ((x : Application) × ((hire_in_transaction o a actor_id org db).0 ≡ ok x))
  unfolding hire_in_transaction
  hire_in_transaction-cases a actor_id org db = elim (Bool-cases o.at_update) [
    | inl lost ↦ inl (unavailable, rw lost refl)
    | inr on ↦ elim (update-cases (λ b. b.id == a.id) as_hired db.applications) [
      | inl missing ↦ inl (row_missing, rw (on, missing) refl)
      | inr (r, changed) ↦ elim (Bool-cases o.at_record) [
        | inl lost ↦ inl (unavailable, rw (on, changed, lost) refl)
        | inr off ↦
            inr
              (r, rw (on, changed, off, create-free (hire_entry a actor_id org) db.audit_logs) refl)
      ]
    ]
  ]

  advance-cases :
      (a : Application) (stage : RecruitmentStage) (actor_id job_id : ℕ) (db : Db)
      → ((e : Error) × (advance o a stage actor_id job_id db ≡ (err e, db)))
        ⊎ ((x : Application) × ((advance o a stage actor_id job_id db).0 ≡ ok x))
  unfolding advance
  advance-cases a stage actor_id job_id db =
      elim (find_first-cases
        (λ (s : RecruitmentStage). s.job_id == job_id && s.order == stage.order + 1)
        db.recruitment_stages) [
          | inl (last, _) ↦ inl (unprocessable, rw last refl)
          | inr (next, found, _, _) ↦ elim (Bool-cases o.at_update) [
            | inl lost ↦ inl (unavailable, rw (found, lost) refl)
            | inr on ↦ elim (update-cases (λ b. b.id == a.id) (at_stage next.id) db.applications) [
              | inl missing ↦ inl (row_missing, rw (found, on, missing) refl)
              | inr (r, changed) ↦ elim (Bool-cases o.at_record) [
                | inl lost ↦ inl (unavailable, rw (found, on, changed, lost) refl)
                | inr off ↦ inr (
                  r,
                  rw
                      (
                        found,
                        on,
                        changed,
                        off,
                        create-free (stage_move a stage next actor_id) db.stage_histories,
                      )
                      refl,
                )
              ]
            ]
          ]
        ]

  -- An action that writes in one transaction alone.
  in_transaction :
      (rejects : Type 0) (a : Application) (actor_id org : ℕ) (reason : Option String)
      (source : String) (db : Db) (r : Result Application × Db)
      → ((e : Error) × (r ≡ (err e, db))) ⊎ ((x : Application) × (r.0 ≡ ok x))
      → IsClean o rejects a actor_id org reason source db r
  in_transaction rejects a actor_id org reason source db r (inl failed) = inl failed
  in_transaction rejects a actor_id org reason source db r (inr done) = inr (inr done)

  screened-IsClean :
      (d : ScreenDecision) (note_id : ℕ) (a : Application) (stage : RecruitmentStage)
      (actor_id org job_id : ℕ) (reason : Option String) (db : Db)
      → IsClean o
          (d ≡ ScreenDecision.reject)
          a
          actor_id
          org
          reason
          "screening"
          db
          (screened o d note_id a stage actor_id org job_id reason db)
  unfolding screened
  screened-IsClean ScreenDecision.reject n a s actor_id org job_id reason db =
      reject_and_notify-IsClean (ScreenDecision.reject ≡ ScreenDecision.reject) refl n a actor_id
        org reason "screening" db
  screened-IsClean ScreenDecision.pass n a s actor_id org job_id reason db =
      in_transaction (ScreenDecision.pass ≡ ScreenDecision.reject) a actor_id org reason "screening"
        db _ (advance-cases a s actor_id job_id db)

  decided-IsClean :
      (d : FinalDecision) (note_id : ℕ) (a : Application) (actor_id org : ℕ)
      (reason : Option String) (db : Db)
      → IsClean o
          (d ≡ FinalDecision.reject)
          a
          actor_id
          org
          reason
          "decision"
          db
          (decided o d note_id a actor_id org reason db)
  unfolding decided
  decided-IsClean FinalDecision.hire n a actor_id org reason db =
      in_transaction (FinalDecision.hire ≡ FinalDecision.reject) a actor_id org reason "decision" db
        _ (hire_in_transaction-cases a actor_id org db)
  decided-IsClean FinalDecision.reject n a actor_id org reason db =
      reject_and_notify-IsClean (FinalDecision.reject ≡ FinalDecision.reject) refl n a actor_id org
        reason "decision" db

  called :
      (rejects : Type 0) (a : Application) (org actor_id job_id id : ℕ) (reason : Option String)
      (source : String) (db : Db) (r : Result Application × Db)
      → Has a db.applications
      → (a.id == id && a.job_id == job_id && a.organization_id == org) ≡ true
      → application_active a.status ≡ true
      → IsClean o rejects a actor_id org reason source db r
      → CallIsClean o rejects (some org) actor_id job_id id reason source db r
  called rejects a org actor_id job_id id reason source db r has met active (inl failed) =
      inl failed
  called rejects a org actor_id job_id id reason source db r has met active
        (inr (inl (chosen, lost, left))) =
      inr (
        inl (
          chosen,
          lost,
          (
            a,
            org,
            has,
            ground arith,
            ground arith,
            ground arith,
            refl,
            active_of a.status active,
            left,
          ),
        ))
  called rejects a org actor_id job_id id reason source db r has met active (inr (inr done)) =
      inr (inr done)

  screen_during-clean :
      (note_id : ℕ) (org_id : Option ℕ) (actor_id job_id id : ℕ) (d : ScreenDecision)
      (reason : Option String) (db : Db)
      → CallIsClean o
          (d ≡ ScreenDecision.reject)
          org_id
          actor_id
          job_id
          id
          reason
          "screening"
          db
          (screen_during o note_id org_id actor_id job_id id d reason db)
  unfolding screen_during
  screen_during-clean n none actor_id job_id id d reason db = inl (not_found, refl)
  screen_during-clean n (some org) actor_id job_id id d reason db =
      elim (find_first-cases
        (λ (a : Application). a.id == id && a.job_id == job_id && a.organization_id == org)
        db.applications) [
          | inl (missing, _) ↦ inl (not_found, rw missing refl)
          | inr (a, found, met, has) ↦
              elim (find_first-cases (λ (s : RecruitmentStage). s.id == a.stage_id)
                db.recruitment_stages) [
                  | inl (missing, _) ↦ inl (row_missing, rw (found, missing) refl)
                  | inr (stage, there, _, _) ↦ elim (Bool-cases (application_active a.status)) [
                    | inr closed ↦ inl (conflict, rw (found, there, closed) refl)
                    | inl active ↦
                        rw (found, there, active)
                          (called (d ≡ ScreenDecision.reject) a org actor_id job_id id reason
                            "screening" db _ has met active
                            (screened-IsClean d n a stage actor_id org job_id reason db))
                  ]
                ]
        ]

  decide_during-clean :
      (note_id : ℕ) (org_id : Option ℕ) (actor_id job_id id : ℕ) (d : FinalDecision)
      (reason : Option String) (db : Db)
      → CallIsClean o
          (d ≡ FinalDecision.reject)
          org_id
          actor_id
          job_id
          id
          reason
          "decision"
          db
          (decide_during o note_id org_id actor_id job_id id d reason db)
  unfolding decide_during
  decide_during-clean n none actor_id job_id id d reason db = inl (not_found, refl)
  decide_during-clean n (some org) actor_id job_id id d reason db =
      elim (find_first-cases
        (λ (a : Application). a.id == id && a.job_id == job_id && a.organization_id == org)
        db.applications) [
          | inl (missing, _) ↦ inl (not_found, rw missing refl)
          | inr (a, found, met, has) ↦ elim (Bool-cases (application_active a.status)) [
            | inr closed ↦ inl (conflict, rw (found, closed) refl)
            | inl active ↦
                rw (found, active)
                  (called (d ≡ FinalDecision.reject) a org actor_id job_id id reason "decision" db _
                    has met active (decided-IsClean d n a actor_id org reason db))
          ]
        ]

  -- Whichever of its writes the database fails at, a call of `screen` or `decide` ends in one of three
  -- ways: it throws and the whole database is as it was, so that of the two writes of a transaction
  -- never one alone stays; or it is a rejection, and the failure was that of the notification, which
  -- comes after the commit: then the call throws, though the active application is rejected and the
  -- rejection is in the audit log; or it succeeds.
  pub failure_sound :
      (note_id : ℕ) (org_id : Option ℕ) (actor_id job_id id : ℕ) (reason : Option String) (db : Db)
      → ((d : ScreenDecision)
          → CallIsClean o
              (d ≡ ScreenDecision.reject)
              org_id
              actor_id
              job_id
              id
              reason
              "screening"
              db
              (screen_during o note_id org_id actor_id job_id id d reason db))
        × ((d : FinalDecision)
            → CallIsClean o
                (d ≡ FinalDecision.reject)
                org_id
                actor_id
                job_id
                id
                reason
                "decision"
                db
                (decide_during o note_id org_id actor_id job_id id d reason db))
  failure_sound note_id org_id actor_id job_id id reason db = (
    (λ d. screen_during-clean note_id org_id actor_id job_id id d reason db),
    λ d. decide_during-clean note_id org_id actor_id job_id id d reason db,
  )

-- The database answers until the rejection is committed, and not when the notification is written.
abbrev pub late_outage : Outage
late_outage = record { at_update = false; at_record = false; at_notification = true }
