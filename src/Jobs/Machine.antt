-- ===== src/Jobs/Machine.antt =====
-- The job table as a state machine: what a call of JobsService may do to a job's status.
use recruit_saas.Common.{
  ℕ, ◌≡◌, refl, ap, ◌∙◌, inl, inr, true, false, Option, none, some, List, ◌∷◌, arith, ◌==◌, ◌&&◌,
  modify, Has, Bool-cases,
}
use recruit_saas.Schema.{Db, Job, JobStatus, job_draft, job_published, job_archived}
use recruit_saas.Prisma.{Prisma}
use recruit_saas.Prisma.Keys.{find_first-cases, update-cases, create-free}
use recruit_saas.Jobs.{
  CreateJob, UpdateJob, create, update, publish, close, archive, new_job, with_fields, as_published,
  as_closed, as_archived, exceeds,
}

-- DRAFT to PUBLISHED to CLOSED, and any other status to ARCHIVED.
pub data Moves : JobStatus → JobStatus → Type 0 where
  rest : (s : JobStatus) → Moves s s
  publishes : Moves JobStatus.draft JobStatus.published
  closes : Moves JobStatus.published JobStatus.closed
  archives : (s : JobStatus) → job_archived s ≡ false → Moves s JobStatus.archived

-- The columns that no call changes.
abbrev pub KeepsOwner : (Job → Job) → Type 0
KeepsOwner f =
    (j : Job)
    → ((f j).id ≡ j.id)
      × ((f j).organization_id ≡ j.organization_id)
      × ((f j).created_by_id ≡ j.created_by_id)

pub data JobStep (org_id : Option ℕ) (t u : List Job) : Type 0 where
  stay : u ≡ t → JobStep org_id t u
  add :
      (j : Job)
      → org_id ≡ some j.organization_id
      → j.status ≡ JobStatus.draft
      → u ≡ j ∷ t
      → JobStep org_id t u
  change :
      (j : Job) (f : Job → Job)
      → org_id ≡ some j.organization_id
      → Has j t
      → KeepsOwner f
      → Moves j.status (f j).status
      → u ≡ modify (λ x. x.id == j.id) f t
      → JobStep org_id t u

published_Moves : (s : JobStatus) → job_draft s ≡ true → Moves s JobStatus.published
published_Moves JobStatus.draft e = publishes
published_Moves s e = absurd (ground arith)

closed_Moves : (s : JobStatus) → job_published s ≡ true → Moves s JobStatus.closed
closed_Moves JobStatus.published e = closes
closed_Moves s e = absurd (ground arith)

module _ ⦃p : Prisma⦄ where
  pub create-JobStep :
      (new_id : ℕ) (org_id : Option ℕ) (actor_id : ℕ) (dto : CreateJob) (db : Db)
      → JobStep org_id db.jobs (create new_id org_id actor_id dto db).1.jobs
  unfolding create
  create-JobStep new_id none actor_id dto db = stay refl
  create-JobStep new_id (some org) actor_id dto db =
      elim (Bool-cases (exceeds dto.salary_min dto.salary_max)) [
        | inl bad ↦ stay (ground arith)
        | inr good ↦
            add (new_job new_id org actor_id dto) refl refl
              (ground (arith, create-free (new_job new_id org actor_id dto) db.jobs))
      ]

  -- The update that ends a call, by the id that was asked for.
  changed-JobStep :
      (org id : ℕ) (j : Job) (f : Job → Job) (t u : List Job)
      → ((j.id == id && j.organization_id == org) ≡ true)
      → Has j t
      → KeepsOwner f
      → Moves j.status (f j).status
      → (p.update (λ x. x.id == id) f t ≡ none → u ≡ t)
      → ((r : Job)
          → p.update (λ x. x.id == id) f t ≡ some (r, modify (λ x. x.id == id) f t)
          → u ≡ modify (λ x. x.id == id) f t)
      → JobStep (some org) t u
  changed-JobStep org id j f t u met has keeps moves missing written =
      elim (update-cases (λ x. x.id == id) f t) [
        | inl e ↦ stay (missing e)
        | inr (r, e) ↦
            let same : id ≡ j.id = ground arith in
            change j f (ground arith) has keeps moves
              (written r e ∙ ap (λ n. modify (λ x. x.id == n) f t) same)
      ]

  pub update-JobStep :
      (org_id : Option ℕ) (id : ℕ) (dto : UpdateJob) (db : Db)
      → JobStep org_id db.jobs (update org_id id dto db).1.jobs
  unfolding update
  update-JobStep none id dto db = stay refl
  update-JobStep (some org) id dto db = elim (Bool-cases (exceeds dto.salary_min dto.salary_max)) [
    | inl bad ↦ stay (ground arith)
    | inr good ↦ elim (find_first-cases (λ j. j.id == id && j.organization_id == org) db.jobs) [
      | inl (e, _) ↦ stay (ground arith)
      | inr (j, e, met, has) ↦
          changed-JobStep org id j (with_fields dto) db.jobs _ met has (λ x. (refl, refl, refl))
            (rest j.status) (λ n. ground arith) (λ r w. ground arith)
    ]
  ]

  pub publish-JobStep :
      (now : ℕ) (org_id : Option ℕ) (id : ℕ) (db : Db)
      → JobStep org_id db.jobs (publish now org_id id db).1.jobs
  unfolding publish
  publish-JobStep now none id db = stay refl
  publish-JobStep now (some org) id db =
      elim (find_first-cases (λ j. j.id == id && j.organization_id == org) db.jobs) [
        | inl (e, _) ↦ stay (ground arith)
        | inr (j, e, met, has) ↦ elim (Bool-cases (job_draft j.status)) [
          | inr other ↦ stay (ground arith)
          | inl draft ↦
              elim (Bool-cases (p.count_rows (λ s. s.job_id == id) db.recruitment_stages == 0)) [
                | inl empty ↦ stay (ground arith)
                | inr staged ↦
                    changed-JobStep org id j (as_published now) db.jobs _ met has
                      (λ x. (refl, refl, refl)) (published_Moves j.status draft) (λ n. ground arith)
                      (λ r w. ground arith)
              ]
        ]
      ]

  pub close-JobStep :
      (now : ℕ) (org_id : Option ℕ) (id : ℕ) (db : Db)
      → JobStep org_id db.jobs (close now org_id id db).1.jobs
  unfolding close
  close-JobStep now none id db = stay refl
  close-JobStep now (some org) id db =
      elim (find_first-cases (λ j. j.id == id && j.organization_id == org) db.jobs) [
        | inl (e, _) ↦ stay (ground arith)
        | inr (j, e, met, has) ↦ elim (Bool-cases (job_published j.status)) [
          | inr other ↦ stay (ground arith)
          | inl published ↦
              changed-JobStep org id j (as_closed now) db.jobs _ met has (λ x. (refl, refl, refl))
                (closed_Moves j.status published) (λ n. ground arith) (λ r w. ground arith)
        ]
      ]

  pub archive-JobStep :
      (org_id : Option ℕ) (id : ℕ) (db : Db) → JobStep org_id db.jobs (archive org_id id db).1.jobs
  unfolding archive
  archive-JobStep none id db = stay refl
  archive-JobStep (some org) id db =
      elim (find_first-cases (λ j. j.id == id && j.organization_id == org) db.jobs) [
        | inl (e, _) ↦ stay (ground arith)
        | inr (j, e, met, has) ↦ elim (Bool-cases (job_archived j.status)) [
          | inl archived ↦ stay (ground arith)
          | inr open_job ↦
              changed-JobStep org id j as_archived db.jobs _ met has (λ x. (refl, refl, refl))
                (archives j.status open_job) (λ n. ground arith) (λ r w. ground arith)
        ]
      ]
