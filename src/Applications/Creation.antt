-- ===== src/Applications/Creation.antt =====
-- `create` of ApplicationsService: what an accepted application is, and when one is accepted.
use recruit_saas.Common.{
  ℕ, ◌≤◌, ◌≡◌, ◌⊎◌, inl, inr, true, false, ◌∷◌, arith, ◌==◌, any, All, Has, Bool-cases,
}
use recruit_saas.Schema.{Db, Job, Application, RecruitmentStage}
use recruit_saas.Prisma.{Prisma, Error, ok, err, conflict, unprocessable, row_missing}
use recruit_saas.Prisma.Keys.{find_first_by-cases}
use recruit_saas.Tables.{one_active_per_job_candidate}
use recruit_saas.Applications.{CreateApplication, create, new_application}
use recruit_saas.Applications.Lookup.{IsOpen, IsChosen, open_job-cases, resolve_cv_id-cases}

-- A stage of the job, none of whose stages comes before it.
abbrev pub IsFirst : Db → ℕ → RecruitmentStage → Type 0
IsFirst db job_id s =
    (s.job_id ≡ job_id)
    × Has s db.recruitment_stages
    × All (λ (x : RecruitmentStage). (x.job_id == job_id) ≡ true → s.order ≤ x.order)
        db.recruitment_stages

-- What an accepted application rests on.
pub record Accepted (db : Db) (candidate_id : ℕ) (dto : CreateApplication) (j : Job) (cv_id : ℕ)
    (s : RecruitmentStage) (a : Application) : Type 0 where
  pub posted : IsOpen db dto.job_id j
  pub chosen : IsChosen db candidate_id dto.cv_id cv_id
  pub first : IsFirst db j.id s
  pub only : any (one_active_per_job_candidate a) db.applications ≡ false

module _ ⦃p : Prisma⦄ where
  -- Whatever the request, `create` refuses and leaves the database as it was, or adds exactly one row:
  -- active, for a published job of an active organization, with a CV of the candidate's own (the one
  -- asked for, or the primary one), at the first stage of the job by order, where the candidate had no
  -- active application for that job.
  pub create_sound :
      (new_id candidate_id : ℕ) (dto : CreateApplication) (db : Db)
      → ((e : Error) × (create new_id candidate_id dto db ≡ (err e, db)))
        ⊎ ((j : Job) × (cv_id : ℕ) × (s : RecruitmentStage) × Accepted db candidate_id dto j cv_id s
              (new_application new_id candidate_id dto j cv_id s)
            × (create new_id candidate_id dto db ≡ (
              ok (new_application new_id candidate_id dto j cv_id s),
              record db {
                applications = new_application new_id candidate_id dto j cv_id s ∷ db.applications;
              },
            )))
  unfolding create
  create_sound new_id candidate_id dto db = elim (open_job-cases dto.job_id db) [
    | inl (x, e) ↦ inl (x, ground arith)
    | inr (j, e, posted) ↦ elim (resolve_cv_id-cases candidate_id dto.cv_id db) [
      | inl f ↦ inl (unprocessable, ground arith)
      | inr (cv, f, chosen) ↦
          elim (find_first_by-cases (λ s. s.order) (λ s. s.job_id == j.id) db.recruitment_stages) [
            | inl (g, _) ↦ inl (row_missing, ground arith)
            | inr (s, g, met, has, least) ↦
                elim (Bool-cases (
                  any
                    (one_active_per_job_candidate (new_application new_id candidate_id dto j cv s))
                    db.applications)) [
                      | inl clash ↦ inl (
                        conflict,
                        ground (
                          arith,
                          p.create-eq one_active_per_job_candidate
                              (new_application new_id candidate_id dto j cv s) db.applications,
                        ),
                      )
                      | inr only ↦ inr (
                        j,
                        cv,
                        s,
                        record {
                          posted = posted;
                          chosen = chosen;
                          first = (ground arith, has, least);
                          only = only;
                        },
                        ground (
                          arith,
                          p.create-eq one_active_per_job_candidate
                              (new_application new_id candidate_id dto j cv s) db.applications,
                        ),
                      )
                    ]
          ]
    ]
  ]
