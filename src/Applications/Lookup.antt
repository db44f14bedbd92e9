-- ===== src/Applications/Lookup.antt =====
-- The lookups that `create` makes before it writes: what each finds, and that none of them writes.
use recruit_saas.Common.{
  ℕ, ◌≡◌, refl, ◌⊎◌, inl, inr, true, Option, none, some, arith, ◌==◌, ◌&&◌, Bool-cases, Has,
}
use recruit_saas.Schema.{Db, Job, Organization, Cv, job_published, organization_active}
use recruit_saas.Prisma.{Prisma, not_found, row_missing, Error, ok, err, unprocessable}
use recruit_saas.Prisma.Keys.{find_first-cases}
use recruit_saas.Applications.{open_job, resolve_cv_id}

-- A published job of an active organization.
abbrev pub IsOpen : Db → ℕ → Job → Type 0
IsOpen db job_id j =
    (o : Organization) × Has j db.jobs
    × Has o db.organizations
    × (j.id ≡ job_id)
    × (o.id ≡ j.organization_id)
    × (job_published j.status ≡ true)
    × (organization_active o.status ≡ true)

-- The CV that was asked for, or the primary one; the candidate's own in both cases.
abbrev pub IsChosen : Db → ℕ → Option ℕ → ℕ → Type 0
IsChosen db candidate_id (some cv_id) id =
    (c : Cv) × Has c db.cvs × (c.id ≡ id) × (id ≡ cv_id) × (c.candidate_id ≡ candidate_id)
IsChosen db candidate_id none id =
    (c : Cv) × Has c db.cvs × (c.id ≡ id) × (c.is_primary ≡ true) × (c.candidate_id ≡ candidate_id)

module _ ⦃p : Prisma⦄ where
  pub open_job-cases :
      (job_id : ℕ) (db : Db)
      → ((e : Error) × (open_job job_id db ≡ (err e, db)))
        ⊎ ((j : Job) × (open_job job_id db ≡ (ok j, db)) × IsOpen db job_id j)
  unfolding open_job
  open_job-cases job_id db = elim (find_first-cases (λ j. j.id == job_id) db.jobs) [
    | inl (e, _) ↦ inl (not_found, ground arith)
    | inr (j, e, met, has) ↦
        elim (find_first-cases (λ o. o.id == j.organization_id) db.organizations) [
          | inl (f, _) ↦ inl (row_missing, ground arith)
          | inr (o, f, met', has') ↦
              elim (Bool-cases (job_published j.status && organization_active o.status)) [
                | inl on ↦ inr (
                  j,
                  ground arith,
                  (o, has, has', ground arith, ground arith, ground arith, ground arith),
                )
                | inr off ↦ inl (not_found, ground arith)
              ]
        ]
  ]

  pub resolve_cv_id-cases :
      (candidate_id : ℕ) (cv_id : Option ℕ) (db : Db)
      → (resolve_cv_id candidate_id cv_id db ≡ (err unprocessable, db))
        ⊎ ((id : ℕ) × (resolve_cv_id candidate_id cv_id db ≡ (ok id, db))
            × IsChosen db candidate_id cv_id id)
  unfolding resolve_cv_id
  resolve_cv_id-cases candidate_id (some cv_id) db =
      elim (find_first-cases (λ c. c.id == cv_id && c.candidate_id == candidate_id) db.cvs) [
        | inl (e, _) ↦ inl (ground arith)
        | inr (c, e, met, has) ↦
            inr (c.id, ground arith, (c, has, refl, ground arith, ground arith))
      ]
  resolve_cv_id-cases candidate_id none db =
      elim (find_first-cases (λ c. c.candidate_id == candidate_id && c.is_primary) db.cvs) [
        | inl (e, _) ↦ inl (ground arith)
        | inr (c, e, met, has) ↦
            inr (c.id, ground arith, (c, has, refl, ground arith, ground arith))
      ]
