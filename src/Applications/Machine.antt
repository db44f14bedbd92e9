-- ===== src/Applications/Machine.antt =====
-- The application table as a state machine: what one call of ApplicationsService may do to it, and who
-- may do it.
use recruit_saas.Common.{
  ℕ, ◌≡◌, refl, subst, ◌⊎◌, inl, inr, true, false, Option, none, some, List, ◌∷◌, arith, ◌==◌, ◌&&◌,
  ◌+◌, String, Bool-cases, Option-cases, any, modify, Has,
}
use recruit_saas.Schema.{Db, Application, ApplicationStatus, RecruitmentStage, application_active}
use recruit_saas.Prisma.{Prisma}
use recruit_saas.Prisma.Keys.{find_first-cases, update-cases, create-free}
use recruit_saas.Tables.{one_active_per_job_candidate}
use recruit_saas.Applications.Lookup.{open_job-cases, resolve_cv_id-cases}
use recruit_saas.Applications.{
  calm, screen_during, decide_during, CreateApplication, ScreenDecision, FinalDecision, create,
  withdraw, screen, decide, new_application, reject_and_notify, hire_in_transaction, advance,
  screened, decided, rejection_entry, hire_entry, stage_move, as_withdrawn, as_rejected, as_hired,
  at_stage,
}

-- A candidate by their own id, or staff by the organization of their session.
pub data Actor : Type 0 where
  candidate : ℕ → Actor
  staff : Option ℕ → Actor

abbrev pub Owns : Actor → Application → Type 0
Owns (candidate c) a = a.candidate_id ≡ c
Owns (staff none) a = ⊥
Owns (staff (some o)) a = a.organization_id ≡ o

-- The columns by which an application is found stay, and a closed application is not reopened.
abbrev pub KeepsKeys : (Application → Application) → Type 0
KeepsKeys f =
    (a : Application)
    → ((f a).id ≡ a.id)
      × ((f a).job_id ≡ a.job_id)
      × ((f a).candidate_id ≡ a.candidate_id)
      × ((f a).organization_id ≡ a.organization_id)
      × (application_active (f a).status ≡ true → application_active a.status ≡ true)

pub data Step (who : Actor) (t u : List Application) : Type 0 where
  stay : u ≡ t → Step who t u
  apply :
      (a : Application)
      → Owns who a
      → a.status ≡ ApplicationStatus.active
      → any (one_active_per_job_candidate a) t ≡ false
      → u ≡ a ∷ t
      → Step who t u
  move :
      (a : Application) (f : Application → Application)
      → Owns who a
      → Has a t
      → a.status ≡ ApplicationStatus.active
      → KeepsKeys f
      → u ≡ modify (λ b. b.id == a.id) f t
      → Step who t u

-- A write to the rows of one id, or none.
abbrev pub Writes : Application → List Application → List Application → Type 0
Writes a t u =
    (u ≡ t) ⊎ ((f : Application → Application) × KeepsKeys f × (u ≡ modify (λ b. b.id == a.id) f t))

active_of_test :
    (s : ApplicationStatus) → application_active s ≡ true → s ≡ ApplicationStatus.active
active_of_test s h = ground arith

Step-of_Writes :
    (who : Actor) (a : Application) (t u : List Application)
    → Owns who a
    → Has a t
    → application_active a.status ≡ true
    → Writes a t u
    → Step who t u
Step-of_Writes who a t u o h e (inl same) = stay same
Step-of_Writes who a t u o h e (inr (f, keeps, eq)) =
    move a f o h (active_of_test a.status e) keeps eq

module _ ⦃p : Prisma⦄ where
  -- The update of one row, as `Writes`.
  update-Writes :
      (a : Application) (f : Application → Application) (t u : List Application)
      → KeepsKeys f
      → (p.update (λ b. b.id == a.id) f t ≡ none → u ≡ t)
      → ((r : Application)
          → p.update (λ b. b.id == a.id) f t ≡ some (r, modify (λ b. b.id == a.id) f t)
          → u ≡ modify (λ b. b.id == a.id) f t)
      → Writes a t u
  update-Writes a f t u keeps missing changed = elim (update-cases (λ b. b.id == a.id) f t) [
    | inl e ↦ inl (missing e)
    | inr (r, e) ↦ inr (f, keeps, changed r e)
  ]

  reject_and_notify-Writes :
      (note_id : ℕ) (a : Application) (actor_id org : ℕ) (reason : Option String) (source : String)
      (db : Db)
      → Writes a db.applications
          (reject_and_notify calm note_id a actor_id org reason source db).1.applications
  unfolding reject_and_notify
  reject_and_notify-Writes note_id a actor_id org reason source db =
      update-Writes a (as_rejected reason) db.applications _
        (λ b. (refl, refl, refl, refl, λ h. cc)) (λ e. ground arith)
        (λ r e.
          ground (arith, create-free (rejection_entry a actor_id org reason source) db.audit_logs))

  hire_in_transaction-Writes :
      (a : Application) (actor_id org : ℕ) (db : Db)
      → Writes a db.applications (hire_in_transaction calm a actor_id org db).1.applications
  unfolding hire_in_transaction
  hire_in_transaction-Writes a actor_id org db =
      update-Writes a as_hired db.applications _ (λ b. (refl, refl, refl, refl, λ h. cc))
        (λ e. ground arith)
        (λ r e. ground (arith, create-free (hire_entry a actor_id org) db.audit_logs))

  -- `advance` looks up the next stage before it writes.
  advance-Writes :
      (a : Application) (stage : RecruitmentStage) (actor_id job_id : ℕ) (db : Db)
      → Writes a db.applications (advance calm a stage actor_id job_id db).1.applications
  unfolding advance
  advance-Writes a stage actor_id job_id db =
      elim (find_first-cases (λ s. s.job_id == job_id && s.order == stage.order + 1)
        db.recruitment_stages) [
          | inl (e, _) ↦ inl (ground arith)
          | inr (next, e, _, _) ↦
              update-Writes a (at_stage next.id) db.applications _
                (λ b. (refl, refl, refl, refl, λ h. h)) (λ n. ground arith)
                (λ r s.
                  ground (arith, create-free (stage_move a stage next actor_id) db.stage_histories))
        ]

  screened-Writes :
      (decision : ScreenDecision) (note_id : ℕ) (a : Application) (stage : RecruitmentStage)
      (actor_id org job_id : ℕ) (reason : Option String) (db : Db)
      → Writes a db.applications
          (screened calm decision note_id a stage actor_id org job_id reason db).1.applications
  unfolding screened
  screened-Writes ScreenDecision.reject note_id a stage actor_id org job_id reason db =
      reject_and_notify-Writes note_id a actor_id org reason "screening" db
  screened-Writes ScreenDecision.pass note_id a stage actor_id org job_id reason db =
      advance-Writes a stage actor_id job_id db

  decided-Writes :
      (decision : FinalDecision) (note_id : ℕ) (a : Application) (actor_id org : ℕ)
      (reason : Option String) (db : Db)
      → Writes a db.applications
          (decided calm decision note_id a actor_id org reason db).1.applications
  unfolding decided
  decided-Writes FinalDecision.hire note_id a actor_id org reason db =
      hire_in_transaction-Writes a actor_id org db
  decided-Writes FinalDecision.reject note_id a actor_id org reason db =
      reject_and_notify-Writes note_id a actor_id org reason "decision" db

  pub withdraw-Step :
      (candidate_id id : ℕ) (db : Db)
      → Step (candidate candidate_id) db.applications (withdraw candidate_id id db).1.applications
  unfolding withdraw
  withdraw-Step candidate_id id db =
      elim (find_first-cases (λ a. a.id == id && a.candidate_id == candidate_id) db.applications) [
        | inl (e, _) ↦ stay (ground arith)
        | inr (a, e, mine, has) ↦ elim (Bool-cases (application_active a.status)) [
          | inl act ↦
              Step-of_Writes (candidate candidate_id) a db.applications _ (ground arith) has act (
                update-Writes a as_withdrawn db.applications _
                  (λ b. (refl, refl, refl, refl, λ h. cc)) (λ n. ground arith)
                  (λ r s. ground arith))
          | inr closed ↦ stay (ground arith)
        ]
      ]

  pub screen-Step :
      (note_id : ℕ) (org_id : Option ℕ) (actor_id job_id id : ℕ) (decision : ScreenDecision)
      (reason : Option String) (db : Db)
      → Step
          (staff org_id)
          db.applications
          (screen note_id org_id actor_id job_id id decision reason db).1.applications
  unfolding screen screen_during
  screen-Step note_id none actor_id job_id id decision reason db = stay refl
  screen-Step note_id (some org) actor_id job_id id decision reason db =
      elim (find_first-cases (λ a. a.id == id && a.job_id == job_id && a.organization_id == org)
        db.applications) [
          | inl (e, _) ↦ stay (ground arith)
          | inr (a, e, ours, has) ↦
              elim (find_first-cases (λ s. s.id == a.stage_id) db.recruitment_stages) [
                | inl (n, _) ↦ stay (ground arith)
                | inr (stage, s, _, _) ↦ elim (Bool-cases (application_active a.status)) [
                  | inl act ↦
                      Step-of_Writes (staff (some org)) a db.applications _ (ground arith) has act (
                        subst (Writes a db.applications) (ground arith)
                          (screened-Writes decision note_id a stage actor_id org job_id reason db))
                  | inr closed ↦ stay (ground arith)
                ]
              ]
        ]

  pub decide-Step :
      (note_id : ℕ) (org_id : Option ℕ) (actor_id job_id id : ℕ) (decision : FinalDecision)
      (reason : Option String) (db : Db)
      → Step
          (staff org_id)
          db.applications
          (decide note_id org_id actor_id job_id id decision reason db).1.applications
  unfolding decide decide_during
  decide-Step note_id none actor_id job_id id decision reason db = stay refl
  decide-Step note_id (some org) actor_id job_id id decision reason db =
      elim (find_first-cases (λ a. a.id == id && a.job_id == job_id && a.organization_id == org)
        db.applications) [
          | inl (e, _) ↦ stay (ground arith)
          | inr (a, e, ours, has) ↦ elim (Bool-cases (application_active a.status)) [
            | inl act ↦
                Step-of_Writes (staff (some org)) a db.applications _ (ground arith) has act (
                  subst (Writes a db.applications) (ground arith)
                    (decided-Writes decision note_id a actor_id org reason db))
            | inr closed ↦ stay (ground arith)
          ]
        ]

  -- The insert at the end of `create`: a row that clashes with an active one is refused.
  insert-Step :
      (a : Application) (t u : List Application) (candidate_id : ℕ)
      → a.candidate_id ≡ candidate_id
      → a.status ≡ ApplicationStatus.active
      → (p.create one_active_per_job_candidate a t ≡ none → u ≡ t)
      → (p.create one_active_per_job_candidate a t ≡ some (a ∷ t) → u ≡ a ∷ t)
      → Step (candidate candidate_id) t u
  insert-Step a t u c mine act refused accepted =
      elim (Bool-cases (any (one_active_per_job_candidate a) t)) [
        | inl clash ↦ stay (refused (ground (arith, p.create-eq one_active_per_job_candidate a t)))
        | inr free ↦
            apply a mine act free
              (accepted (ground (arith, p.create-eq one_active_per_job_candidate a t)))
      ]

  pub create-Step :
      (new_id candidate_id : ℕ) (dto : CreateApplication) (db : Db)
      → Step
          (candidate candidate_id)
          db.applications
          (create new_id candidate_id dto db).1.applications
  unfolding create
  create-Step new_id candidate_id dto db = elim (open_job-cases dto.job_id db) [
    | inl (_, e) ↦ stay (ground arith)
    | inr (j, e, _) ↦ elim (resolve_cv_id-cases candidate_id dto.cv_id db) [
      | inl f ↦ stay (ground arith)
      | inr (cv, f, _) ↦
          elim (Option-cases
            (p.find_first_by (λ s. s.order) (λ s. s.job_id == j.id) db.recruitment_stages)) [
              | inl n ↦ stay (ground arith)
              | inr (stage, g) ↦
                  insert-Step (new_application new_id candidate_id dto j cv stage) db.applications _
                    candidate_id refl refl (λ h. ground arith) (λ h. ground arith)
            ]
    ]
  ]
