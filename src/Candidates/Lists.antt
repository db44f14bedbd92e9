-- ===== src/Candidates/Lists.antt =====
-- The profile of a candidate and the lists of its parts.
use recruit_saas.Common.{
  ℕ, suc, ◌≡◌, refl, ap, ◌∙◌, ◌⊎◌, inl, inr, String, true, false, List, [], ◌∷◌, ◌==◌, arith, any,
  reject, length, ==_iff, Has, All, any-Has, any-ext, modify-same,
}
use recruit_saas.Schema.{Db, CandidateProfile, Education, Experience, Skill}
use recruit_saas.Prisma.{create_many, Prisma, ok}
use recruit_saas.Prisma.Keys.{find_first-cases, create-free}
use recruit_saas.Tables.{education, experience, skill, candidate_profile_clash}
use recruit_saas.Candidates.{
  EducationItem, ExperienceItem, education_rows, experience_rows, skill_rows, replace_education,
  replace_experience, replace_skills, ensure_profile, empty_profile,
}
use recruit_saas.Candidates.Replaced.{onto, Replaces, Replaces-onto}

module _ ⦃p : Prisma⦄ where
  -- A profile that is missing is created empty; one that is there stays as it is. The call never fails.
  pub ensure_profile_lem :
      (user_id : ℕ) (db : Db)
      → ((any (λ x. x.user_id == user_id) db.profiles ≡ true)
          × ((r : CandidateProfile) × Has r db.profiles
              × (r.user_id ≡ user_id)
              × (ensure_profile user_id db ≡ (ok r, db))))
        ⊎ ((any (λ x. x.user_id == user_id) db.profiles ≡ false)
            × (ensure_profile user_id db ≡ (
              ok (empty_profile user_id),
              record db { profiles = empty_profile user_id ∷ db.profiles },
            )))
  unfolding ensure_profile
  ensure_profile_lem user_id db =
      let own = λ (x : CandidateProfile). x.user_id == user_id in
      elim (find_first-cases own db.profiles) [
        | inl (missing, nothing) ↦
            let free : any (λ (x : CandidateProfile). user_id == x.user_id) db.profiles ≡ false =
              any-ext _ own db.profiles (λ x. ground arith) ∙ nothing in
            inr (
              nothing,
              rw
                  (
                    missing,
                    p.create-eq candidate_profile_clash (empty_profile user_id) db.profiles,
                    free,
                  )
                  refl,
            )
        | inr (r, found, met, has) ↦ inl (
          any-Has own r db.profiles has met,
          (
            r,
            has,
            ground arith,
            rw (found, p.update-eq own (λ x. x) db.profiles, found, modify-same own db.profiles)
                refl,
          ),
        )
      ]

  education_created :
      (rows : List Education) (db : Db)
      → create_many education rows db ≡ (ok tt, record db { educations = onto rows db.educations })
  education_created [] db = refl
  education_created (r ∷ rows) db =
      rw (create-free r db.educations)
        (education_created rows (record db { educations = r ∷ db.educations }))

  education_rows-own :
      (new_id : ℕ → ℕ) (user_id index : ℕ) (items : List EducationItem)
      → All (λ r. (r.candidate_id == user_id) ≡ true) (education_rows new_id user_id index items)
        × (length (education_rows new_id user_id index items) ≡ length items)
  education_rows-own new_id user_id index [] = (tt, refl)
  education_rows-own new_id user_id index (item ∷ items) =
      let (own, size) = education_rows-own new_id user_id (suc index) items in
      (((==_iff user_id user_id).1 refl, own), ap suc size)

  experience_created :
      (rows : List Experience) (db : Db)
      → create_many experience rows db
        ≡ (ok tt, record db { experiences = onto rows db.experiences })
  experience_created [] db = refl
  experience_created (r ∷ rows) db =
      rw (create-free r db.experiences)
        (experience_created rows (record db { experiences = r ∷ db.experiences }))

  experience_rows-own :
      (new_id : ℕ → ℕ) (user_id index : ℕ) (items : List ExperienceItem)
      → All (λ r. (r.candidate_id == user_id) ≡ true) (experience_rows new_id user_id index items)
        × (length (experience_rows new_id user_id index items) ≡ length items)
  experience_rows-own new_id user_id index [] = (tt, refl)
  experience_rows-own new_id user_id index (item ∷ items) =
      let (own, size) = experience_rows-own new_id user_id (suc index) items in
      (((==_iff user_id user_id).1 refl, own), ap suc size)

  skill_created :
      (rows : List Skill) (db : Db)
      → create_many skill rows db ≡ (ok tt, record db { skills = onto rows db.skills })
  skill_created [] db = refl
  skill_created (r ∷ rows) db =
      rw (create-free r db.skills) (skill_created rows (record db { skills = r ∷ db.skills }))

  skill_rows-own :
      (new_id : ℕ → ℕ) (user_id index : ℕ) (names : List String)
      → All (λ r. (r.candidate_id == user_id) ≡ true) (skill_rows new_id user_id index names)
        × (length (skill_rows new_id user_id index names) ≡ length names)
  skill_rows-own new_id user_id index [] = (tt, refl)
  skill_rows-own new_id user_id index (item ∷ names) =
      let (own, size) = skill_rows-own new_id user_id (suc index) names in
      (((==_iff user_id user_id).1 refl, own), ap suc size)

  replace_education_sound :
      (new_id : ℕ → ℕ) (user_id : ℕ) (items : List EducationItem) (db : Db)
      → let after = (replace_education new_id user_id items db).1 in
        (answer : List Education) × ((replace_education new_id user_id items db).0 ≡ ok answer)
        × Replaces
            (λ r. r.candidate_id == user_id)
            (education_rows new_id user_id 0 items)
            db.educations
            after.educations
            answer
  unfolding replace_education
  replace_education_sound new_id user_id items db =
      let own = λ (r : Education). r.candidate_id == user_id in
      let rows = education_rows new_id user_id 0 items in
      let replaced =
        Replaces-onto own rows db.educations
          (p.find_many own (onto rows (reject own db.educations)))
          (education_rows-own new_id user_id 0 items).0
          (p.find_many-Lists own (onto rows (reject own db.educations))) in
      let answer = p.find_many own (onto rows (reject own db.educations)) in
      elim (ensure_profile_lem user_id db) [
        | inl (_, (r, has, mine, ensured)) ↦
            rw
              (
                ensured,
                p.delete_many-eq own db.educations,
                education_created rows (record db { educations = reject own db.educations }),
              )
              (answer, refl, replaced)
        | inr (_, ensured) ↦
            rw
              (
                ensured,
                p.delete_many-eq own db.educations,
                education_created rows (record db {
                  profiles = empty_profile user_id ∷ db.profiles;
                  educations = reject own db.educations;
                }),
              )
              (answer, refl, replaced)
      ]

  replace_experience_sound :
      (new_id : ℕ → ℕ) (user_id : ℕ) (items : List ExperienceItem) (db : Db)
      → let after = (replace_experience new_id user_id items db).1 in
        (answer : List Experience) × ((replace_experience new_id user_id items db).0 ≡ ok answer)
        × Replaces
            (λ r. r.candidate_id == user_id)
            (experience_rows new_id user_id 0 items)
            db.experiences
            after.experiences
            answer
  unfolding replace_experience
  replace_experience_sound new_id user_id items db =
      let own = λ (r : Experience). r.candidate_id == user_id in
      let rows = experience_rows new_id user_id 0 items in
      let replaced =
        Replaces-onto own rows db.experiences
          (p.find_many own (onto rows (reject own db.experiences)))
          (experience_rows-own new_id user_id 0 items).0
          (p.find_many-Lists own (onto rows (reject own db.experiences))) in
      let answer = p.find_many own (onto rows (reject own db.experiences)) in
      elim (ensure_profile_lem user_id db) [
        | inl (_, (r, has, mine, ensured)) ↦
            rw
              (
                ensured,
                p.delete_many-eq own db.experiences,
                experience_created rows (record db { experiences = reject own db.experiences }),
              )
              (answer, refl, replaced)
        | inr (_, ensured) ↦
            rw
              (
                ensured,
                p.delete_many-eq own db.experiences,
                experience_created rows (record db {
                  profiles = empty_profile user_id ∷ db.profiles;
                  experiences = reject own db.experiences;
                }),
              )
              (answer, refl, replaced)
      ]

  replace_skills_sound :
      (new_id : ℕ → ℕ) (user_id : ℕ) (names : List String) (db : Db)
      → let after = (replace_skills new_id user_id names db).1 in
        (answer : List Skill) × ((replace_skills new_id user_id names db).0 ≡ ok answer)
        × Replaces
            (λ r. r.candidate_id == user_id)
            (skill_rows new_id user_id 0 names)
            db.skills
            after.skills
            answer
  unfolding replace_skills
  replace_skills_sound new_id user_id names db =
      let own = λ (r : Skill). r.candidate_id == user_id in
      let rows = skill_rows new_id user_id 0 names in
      let replaced =
        Replaces-onto own rows db.skills (p.find_many own (onto rows (reject own db.skills)))
          (skill_rows-own new_id user_id 0 names).0
          (p.find_many-Lists own (onto rows (reject own db.skills))) in
      let answer = p.find_many own (onto rows (reject own db.skills)) in
      elim (ensure_profile_lem user_id db) [
        | inl (_, (r, has, mine, ensured)) ↦
            rw
              (
                ensured,
                p.delete_many-eq own db.skills,
                skill_created rows (record db { skills = reject own db.skills }),
              )
              (answer, refl, replaced)
        | inr (_, ensured) ↦
            rw
              (
                ensured,
                p.delete_many-eq own db.skills,
                skill_created rows (record db {
                  profiles = empty_profile user_id ∷ db.profiles;
                  skills = reject own db.skills;
                }),
              )
              (answer, refl, replaced)
      ]

  -- `replaceEducation`, `replaceExperience` and `replaceSkills`: each succeeds, afterwards the rows of the
  -- user are the given ones and no others, the rows of the other users are as they were, and the answer
  -- lists the user's rows, one for each item.
  pub replace_lists_sound :
      (new_id : ℕ → ℕ) (user_id : ℕ) (db : Db)
      → ((items : List EducationItem)
          → (answer : List Education) × ((replace_education new_id user_id items db).0 ≡ ok answer)
            × (length answer ≡ length items)
            × Replaces
                (λ r. r.candidate_id == user_id)
                (education_rows new_id user_id 0 items)
                db.educations
                (replace_education new_id user_id items db).1.educations
                answer)
        × ((items : List ExperienceItem)
            → (answer : List Experience) × ((replace_experience new_id user_id items db).0
                ≡ ok answer)
              × (length answer ≡ length items)
              × Replaces
                  (λ r. r.candidate_id == user_id)
                  (experience_rows new_id user_id 0 items)
                  db.experiences
                  (replace_experience new_id user_id items db).1.experiences
                  answer)
        × ((names : List String)
            → (answer : List Skill) × ((replace_skills new_id user_id names db).0 ≡ ok answer)
              × (length answer ≡ length names)
              × Replaces
                  (λ r. r.candidate_id == user_id)
                  (skill_rows new_id user_id 0 names)
                  db.skills
                  (replace_skills new_id user_id names db).1.skills
                  answer)
  replace_lists_sound new_id user_id db = (
    (λ items.
        let (answer, given, replaced) = replace_education_sound new_id user_id items db in
        (answer, given, replaced.1 ∙ (education_rows-own new_id user_id 0 items).1, replaced)),
    (λ items.
        let (answer, given, replaced) = replace_experience_sound new_id user_id items db in
        (answer, given, replaced.1 ∙ (experience_rows-own new_id user_id 0 items).1, replaced)),
    λ names.
        let (answer, given, replaced) = replace_skills_sound new_id user_id names db in
        (answer, given, replaced.1 ∙ (skill_rows-own new_id user_id 0 names).1, replaced),
  )
