-- ===== src/Candidates/Shared.antt =====
-- The CVs of candidates as applications use them: `ApplicationsService.getCvSignedUrlForJob`, and what an
-- application without a choice of its own finds after the primary CV has gone.
use recruit_saas.Common.{
  ℕ, ◌≡◌, refl, ap, Option, some, none, true, false, inl, inr, any, reject, Has, ◌==◌, ◌&&◌, arith,
  false_of_not, count-reject, count-some, any-Has,
}
use recruit_saas.Schema.{Db, Cv, Application}
use recruit_saas.Prisma.{Prisma, Action, err, ok, unprocessable, ◌>>=◌}
use recruit_saas.Prisma.Keys.{UniqueBy, find_first-none, find_first-cases}
use recruit_saas.Storage.{Platform, SignedUrl, get_signed_url}
use recruit_saas.Applications.{get_for_job, require_job_application, resolve_cv_id}
use recruit_saas.Candidates.{get_cv_signed_url_by_id, delete_cv, cv_in_use}
use recruit_saas.Candidates.Primary.{OnePrimary, is_primary_of}
use recruit_saas.Candidates.Cvs.{delete_cv_sound}

module _ ⦃p : Prisma⦄ (n : Platform) where
  unfoldable pub get_cv_signed_url_for_job : ℕ → Option ℕ → ℕ → ℕ → Action SignedUrl
  get_cv_signed_url_for_job now org_id job_id id =
      get_for_job org_id job_id id >>= λ a. get_cv_signed_url_by_id n now a.cv_id

  -- An organization gets a link to a CV only through an application to one of its own jobs: whatever link
  -- it gets is that of the CV of an application with this id to this job of this organization.
  pub get_cv_signed_url_for_job_sound :
      (now : ℕ) (org_id : Option ℕ) (job_id id : ℕ) (url : SignedUrl) (db : Db)
      → (get_cv_signed_url_for_job now org_id job_id id db).0 ≡ ok url
      → (org : ℕ) × (a : Application) × (c : Cv) × (org_id ≡ some org)
        × Has a db.applications
        × (a.id ≡ id)
        × (a.job_id ≡ job_id)
        × (a.organization_id ≡ org)
        × Has c db.cvs
        × (c.id ≡ a.cv_id)
        × (url ≡ get_signed_url n now c.file_key)
  unfolding get_cv_signed_url_for_job get_for_job require_job_application get_cv_signed_url_by_id
  get_cv_signed_url_for_job_sound now none job_id id url db got = absurd (ground arith)
  get_cv_signed_url_for_job_sound now (some org) job_id id url db got =
      elim (find_first-cases (λ a. a.id == id && a.job_id == job_id && a.organization_id == org)
        db.applications) [
          | inl (missing, _) ↦ absurd (ground arith)
          | inr (a, found, met, has) ↦ elim (find_first-cases (λ c. c.id == a.cv_id) db.cvs) [
            | inl (missing, _) ↦ absurd (ground arith)
            | inr (c, found', met', has') ↦ (
              org,
              a,
              c,
              refl,
              has,
              ground arith,
              ground arith,
              ground arith,
              has',
              ground arith,
              ground arith,
            )
          ]
        ]

  -- After the deletion of a primary CV no other one takes its place, though others may be there: the next
  -- application of the candidate that names no CV is refused. The candidate had no second primary CV, the
  -- ids of CVs are distinct, and no application was made with the CV.
  pub delete_primary_leaves_none :
      (user_id : ℕ) (row : Cv) (db : Db)
      → UniqueBy (λ (c : Cv). c.id) db.cvs
      → OnePrimary db
      → Has row db.cvs
      → is_primary_of user_id row ≡ true
      → cv_in_use db row ≡ false
      → let after = (delete_cv n user_id row.id db).1 in
        ((delete_cv n user_id row.id db).0 ≡ ok tt)
        × (resolve_cv_id user_id none after ≡ (err unprocessable, after))
  unfolding resolve_cv_id
  delete_primary_leaves_none user_id row db u one has primary free =
      let by_id = λ (c : Cv). c.id == row.id in
      let gone : any (is_primary_of user_id) (reject by_id db.cvs) ≡ false =
        false_of_not (any (is_primary_of user_id) (reject by_id db.cvs)) (λ left.
          let after = count-some (is_primary_of user_id) (reject by_id db.cvs) left in
          let both =
            count-some (λ c. is_primary_of user_id c && by_id c) db.cvs
              (any-Has (λ c. is_primary_of user_id c && by_id c) row db.cvs has (ground arith)) in
          let sum = count-reject (is_primary_of user_id) by_id db.cvs in
          let before = one user_id in absurd (ground (arith, after, both, sum, before))) in
      elim (delete_cv_sound n user_id row.id db u) [
        | inl (_, nothing) ↦ absurd (
            ground (
              arith,
              any-Has (λ c. c.id == row.id && c.candidate_id == user_id) row db.cvs has
                  (ground arith),
              nothing,
            ))
        | inr (row', has', same, own, inl (used, _)) ↦
            let q : cv_in_use db row' ≡ cv_in_use db row =
              ap (λ i. any (λ a. a.cv_id == i) db.applications) same in
            absurd (ground arith)
        | inr (row', has', same, own, inr (_, done)) ↦ rw done (
            rw same
              (refl, rw (find_first-none (is_primary_of user_id) (reject by_id db.cvs) gone) refl))
      ]
