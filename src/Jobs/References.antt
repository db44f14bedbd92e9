-- ===== src/Jobs/References.antt =====
-- What a change of a job's stages keeps: the stage of every application, and that a published job has a
-- stage.
use recruit_saas.Common.{
  ℕ, suc, ◌≡◌, refl, sym, ap, subst, ◌∙◌, inl, inr, true, some, String, List, [], ◌∷◌, arith, ◌==◌,
  any, All, Has, All-Has, All-of_Has, Bool-cases, Option-cases, same_text,
}
use recruit_saas.Schema.{Db, Application, RecruitmentStage}
use recruit_saas.Prisma.{Prisma}
use recruit_saas.Prisma.Keys.{UniqueBy, create-free}
use recruit_saas.Jobs.{set_stages, place_stage, place_stages, new_stage, existing_by_name}
use recruit_saas.Jobs.Stages.{
  References, is_stage_of, place_stages-Grows, set_stages-cases, existing_stages, without_dropped,
  kept_reference,
}

module _ ⦃p : Prisma⦄ where
  -- Whatever names it is given, and whether it succeeds or is refused, a change of the stages of a job
  -- leaves every application of every job in a stage of its own job. The ids of stages are distinct.
  pub set_stages-References :
      (new_id : ℕ → ℕ) (job_id : ℕ) (names : List String) (db : Db)
      → UniqueBy (λ (s : RecruitmentStage). s.id) db.recruitment_stages
      → References db
      → References (set_stages new_id job_id names db).1
  set_stages-References new_id job_id names db k refs =
      elim (set_stages-cases new_id job_id names db) [
        | inl same ↦ rw same refs
        | inr (placed, unused) ↦
            let grown =
              place_stages-Grows new_id job_id (existing_stages job_id db) 0 names
                (without_dropped job_id names db) in
            rw placed (
              subst
                (λ t.
                  All
                    (λ (a : Application).
                      any (is_stage_of a)
                        (place_stages new_id job_id (existing_stages job_id db) 0 names
                          (without_dropped job_id names db)).1.recruitment_stages
                      ≡ true)
                    t)
                (sym grown.same_applications)
                (All-of_Has _ db.applications (λ a ha.
                  grown.none_lost (is_stage_of a) (λ n s. refl)
                    (kept_reference job_id names db k a ha unused
                      (All-Has _ a db.applications refs ha)))))
      ]

  pub existing_by_name-Has :
      (existing : List RecruitmentStage) (name : String) (s : RecruitmentStage)
      → existing_by_name existing name ≡ some s
      → Has s existing × (same_text s.name name ≡ true)
  existing_by_name-Has [] name s e = absurd (ground arith)
  existing_by_name-Has (x ∷ existing) name s e =
      elim (Option-cases (existing_by_name existing name)) [
        | inl n ↦ elim (Bool-cases (same_text x.name name)) [
          | inl t ↦
              let q : x ≡ s = ground arith in
              (inl (sym q), subst (λ (y : RecruitmentStage). same_text y.name name ≡ true) q t)
          | inr f ↦ absurd (ground arith)
        ]
        | inr (y, l) ↦
            let q : y ≡ s = ground arith in
            let (h, t) = existing_by_name-Has existing name s (l ∙ ap some q) in (inr h, t)
      ]

  -- Once the first name is placed the job has a stage.
  pub placed_first :
      (new_id : ℕ → ℕ) (job_id : ℕ) (existing : List RecruitmentStage) (index : ℕ) (name : String)
      (names : List String) (db : Db)
      → ((s : RecruitmentStage)
          → existing_by_name existing name ≡ some s
          → any (λ x. x.job_id == job_id) db.recruitment_stages ≡ true)
      → any
          (λ x. x.job_id == job_id)
          (place_stages new_id job_id existing index (name ∷ names) db).1.recruitment_stages
        ≡ true
  unfolding place_stages place_stage
  placed_first new_id job_id existing index name names db there =
      elim (Option-cases (existing_by_name existing name)) [
        | inl e ↦
            let c =
              create-free (new_stage (new_id index) job_id name index) db.recruitment_stages in
            let u : Db = record db {
              recruitment_stages =
                  new_stage (new_id index) job_id name index ∷ db.recruitment_stages;
            } in
            let grown = place_stages-Grows new_id job_id existing (suc index) names u in
            let more = grown.none_lost (λ x. x.job_id == job_id) (λ n s. refl) (ground arith) in
            ground arith
        | inr (s, e) ↦
            (place_stages-Grows new_id job_id existing index (name ∷ names) db).none_lost
              (λ x. x.job_id == job_id) (λ n s. refl) (there s e)
      ]
