-- ===== src/Jobs/Published.antt =====
-- A published job has a stage, so that an application can be placed in one.
use recruit_saas.Common.{
  ℕ, ◌≡◌, refl, sym, subst, ◌≢◌, ◌⊎◌, modify, inl, inr, true, Option, none, some, String, List, [],
  ◌∷◌, map, arith, ◌==◌, ==_iff, ◌&&◌, any, All, All-modify, All-Has, All-of_Has, any_of_count,
  Bool-cases, any-Has, Has-of_any,
}
use recruit_saas.Schema.{
  Db, Job, RecruitmentStage, PipelineTemplate, PipelineStageTemplate, job_draft, job_published,
  job_archived,
}
use recruit_saas.Prisma.{Prisma}
use recruit_saas.Prisma.Keys.{UniqueBy, find_first-cases, update-cases, create-free}
use recruit_saas.Jobs.{
  CreateJob, UpdateJob, create, update, publish, close, archive, set_stages, new_job, with_fields,
  as_published, as_closed, as_archived, exceeds, place_stages, sort_by_order, insert_by_order,
  existing_by_name,
}
use recruit_saas.Jobs.Stages.{
  place_stages-Grows, set_stages-cases, existing_stages, without_dropped, kept_row, dropped_row,
}
use recruit_saas.Jobs.References.{existing_by_name-Has, placed_first}
use recruit_saas.Jobs.Lifecycle.{
  Call, creates, updates, publishes, closes, archives, replaces, applies, serve,
  replace_stages-cases, apply_template-cases,
}

-- A published job has a stage.
abbrev pub IsStaged : List RecruitmentStage → Job → Type 0
IsStaged stages j = job_published j.status ≡ true → any (λ s. s.job_id == j.id) stages ≡ true

abbrev pub AllStaged : Db → Type 0
AllStaged db = All (IsStaged db.recruitment_stages) db.jobs

-- Templates hold a stage, as the validation of their requests wants.
abbrev pub TemplatesStaged : Db → Type 0
TemplatesStaged db = All (λ (t : PipelineTemplate). t.stages ≢ []) db.pipeline_templates

-- The validation of a list of stages: `@ArrayMinSize(1)`.
abbrev pub IsRequest : Call → Type 0
IsRequest (replaces _ _ _ stages) = stages ≢ []
IsRequest _ = Unit

sorted_nonempty :
    (xs : List PipelineStageTemplate) → xs ≢ [] → map (λ s. s.name) (sort_by_order xs) ≢ []
sorted_nonempty [] h = absurd (h refl)
sorted_nonempty (x ∷ xs) h = inserted (sort_by_order xs)
  where
    inserted : (ys : List PipelineStageTemplate) → map (λ s. s.name) (insert_by_order x ys) ≢ []
    inserted [] e = cc
    inserted (y ∷ ys) e = ground arith

module _ ⦃p : Prisma⦄ where
  -- The stage of a name that is found is kept.
  found_stays :
      (job_id : ℕ) (name : String) (names : List String) (db : Db)
      → UniqueBy (λ (s : RecruitmentStage). s.id) db.recruitment_stages
      → (s : RecruitmentStage) → existing_by_name (existing_stages job_id db) name ≡ some s
      → any (λ x. x.job_id == job_id) (without_dropped job_id (name ∷ names) db).recruitment_stages
        ≡ true
  found_stays job_id name names db k s e =
      let (old, same) = existing_by_name-Has (existing_stages job_id db) name s e in
      let (ours, there) =
        All-Has _ s (existing_stages job_id db)
          (p.find_many-Lists (λ y. y.job_id == job_id) db.recruitment_stages).0 old in
      any-Has (λ x. x.job_id == job_id) s
        (without_dropped job_id (name ∷ names) db).recruitment_stages
        (kept_row job_id (name ∷ names) db k s there
          (λ d. absurd (ground (arith, dropped_row job_id (name ∷ names) db k s there d, same))))
        ours

  set_stages-AllStaged :
      (new_id : ℕ → ℕ) (job_id : ℕ) (names : List String) (db : Db)
      → names ≢ []
      → UniqueBy (λ (s : RecruitmentStage). s.id) db.recruitment_stages
      → AllStaged db
      → AllStaged (set_stages new_id job_id names db).1
  set_stages-AllStaged new_id job_id [] db some_name k a = absurd (some_name refl)
  set_stages-AllStaged new_id job_id (name ∷ names) db some_name k a =
      elim (set_stages-cases new_id job_id (name ∷ names) db) [
        | inl same ↦ rw same a
        | inr (placed, _) ↦
            let start = without_dropped job_id (name ∷ names) db in
            let done =
              (place_stages new_id job_id (existing_stages job_id db) 0 (name ∷ names) start).1 in
            let grown =
              place_stages-Grows new_id job_id (existing_stages job_id db) 0 (name ∷ names) start in
            let here =
              placed_first new_id job_id (existing_stages job_id db) 0 name names start
                (found_stays job_id name names db k) in
            rw placed (
              subst (λ t. All (IsStaged done.recruitment_stages) t) (sym grown.same_jobs)
                (All-of_Has _ db.jobs (λ j hj on. elim (Bool-cases (j.id == job_id)) [
                  | inl e ↦
                      subst (λ n. any (λ s. s.job_id == n) done.recruitment_stages ≡ true)
                        (sym ((==_iff j.id job_id).0 e)) here
                  | inr other ↦
                      let (s, h, m) =
                        Has-of_any (λ s. s.job_id == j.id) db.recruitment_stages
                          (All-Has _ j db.jobs a hj on) in
                      grown.none_lost (λ s. s.job_id == j.id) (λ n s. refl)
                        (any-Has (λ s. s.job_id == j.id) s start.recruitment_stages
                          (kept_row job_id (name ∷ names) db k s h (λ d.
                            absurd (ground (arith, dropped_row job_id (name ∷ names) db k s h d))))
                          m)
                ])))
      ]

  -- The one update of a call, at the jobs of an id.
  abbrev Updates : ℕ → (Job → Job) → Db → Db → Type 0
  Updates id f db u = (u ≡ db) ⊎ (u ≡ record db { jobs = modify (λ x. x.id == id) f db.jobs })

  Updates-AllStaged :
      (id : ℕ) (f : Job → Job) (db u : Db)
      → Updates id f db u
      → ((x : Job)
          → (x.id == id) ≡ true
          → IsStaged db.recruitment_stages x
          → IsStaged db.recruitment_stages (f x))
      → AllStaged db
      → AllStaged u
  Updates-AllStaged id f db u (inl e) keeps a = rw e a
  Updates-AllStaged id f db u (inr e) keeps a =
      rw e (All-modify (IsStaged db.recruitment_stages) (λ x. x.id == id) f db.jobs keeps a)

  update-Updates :
      (o : Option ℕ) (id : ℕ) (dto : UpdateJob) (db : Db)
      → Updates id (with_fields dto) db (update o id dto db).1
  unfolding update
  update-Updates none id dto db = inl refl
  update-Updates (some org) id dto db =
      elim (update-cases (λ x. x.id == id) (with_fields dto) db.jobs) [
        | inl e ↦ inl (ground arith)
        | inr (r, e) ↦ elim (Bool-cases (exceeds dto.salary_min dto.salary_max)) [
          | inl bad ↦ inl (ground arith)
          | inr good ↦
              elim (find_first-cases (λ j. j.id == id && j.organization_id == org) db.jobs) [
                | inl (n, _) ↦ inl (ground arith)
                | inr (j, f, _, _) ↦ inr (ground arith)
              ]
        ]
      ]

  publish-Updates :
      (now : ℕ) (o : Option ℕ) (id : ℕ) (db : Db)
      → ((publish now o id db).1 ≡ db)
        ⊎ (((publish now o id db).1
              ≡ record db { jobs = modify (λ x. x.id == id) (as_published now) db.jobs })
            × (any (λ s. s.job_id == id) db.recruitment_stages ≡ true))
  unfolding publish
  publish-Updates now none id db = inl refl
  publish-Updates now (some org) id db =
      elim (update-cases (λ x. x.id == id) (as_published now) db.jobs) [
        | inl e ↦ inl (ground arith)
        | inr (r, e) ↦
            elim (find_first-cases (λ j. j.id == id && j.organization_id == org) db.jobs) [
              | inl (n, _) ↦ inl (ground arith)
              | inr (j, f, _, _) ↦ elim (Bool-cases (job_draft j.status)) [
                | inr other ↦ inl (ground arith)
                | inl draft ↦
                    elim (Bool-cases
                      (p.count_rows (λ s. s.job_id == id) db.recruitment_stages == 0)) [
                        | inl empty ↦ inl (ground arith)
                        | inr staged ↦ inr (
                          ground arith,
                          any_of_count (λ s. s.job_id == id) db.recruitment_stages
                              (λ z. ground (
                                arith,
                                p.count_rows-eq (λ s. s.job_id == id) db.recruitment_stages,
                              )),
                        )
                      ]
              ]
            ]
      ]

  close-Updates :
      (now : ℕ) (o : Option ℕ) (id : ℕ) (db : Db)
      → Updates id (as_closed now) db (close now o id db).1
  unfolding close
  close-Updates now none id db = inl refl
  close-Updates now (some org) id db =
      elim (update-cases (λ x. x.id == id) (as_closed now) db.jobs) [
        | inl e ↦ inl (ground arith)
        | inr (r, e) ↦
            elim (find_first-cases (λ j. j.id == id && j.organization_id == org) db.jobs) [
              | inl (n, _) ↦ inl (ground arith)
              | inr (j, f, _, _) ↦ elim (Bool-cases (job_published j.status)) [
                | inr other ↦ inl (ground arith)
                | inl published ↦ inr (ground arith)
              ]
            ]
      ]

  archive-Updates :
      (o : Option ℕ) (id : ℕ) (db : Db) → Updates id as_archived db (archive o id db).1
  unfolding archive
  archive-Updates none id db = inl refl
  archive-Updates (some org) id db = elim (update-cases (λ x. x.id == id) as_archived db.jobs) [
    | inl e ↦ inl (ground arith)
    | inr (r, e) ↦ elim (find_first-cases (λ j. j.id == id && j.organization_id == org) db.jobs) [
      | inl (n, _) ↦ inl (ground arith)
      | inr (j, f, _, _) ↦ elim (Bool-cases (job_archived j.status)) [
        | inl archived ↦ inl (ground arith)
        | inr other ↦ inr (ground arith)
      ]
    ]
  ]

  create-AllStaged :
      (n : ℕ) (o : Option ℕ) (a : ℕ) (dto : CreateJob) (db : Db)
      → AllStaged db
      → AllStaged (create n o a dto db).1
  unfolding create
  create-AllStaged n none a dto db h = h
  create-AllStaged n (some org) a dto db h =
      elim (Bool-cases (exceeds dto.salary_min dto.salary_max)) [
        | inl bad ↦ subst AllStaged {x = db} {y = (create n (some org) a dto db).1} (ground arith) h
        | inr good ↦
            subst AllStaged {x = record db { jobs = new_job n org a dto ∷ db.jobs }}
              {y = (create n (some org) a dto db).1}
              (ground (arith, create-free (new_job n org a dto) db.jobs)) ((λ on. cc), h)
      ]

  -- Every call keeps that each published job has a stage: publishing tests it, and a change of stages,
  -- whose request names at least one, never takes a job's last stage away. The ids of stages are
  -- distinct, and templates hold a stage.
  pub serve-AllStaged :
      (c : Call) (db : Db)
      → IsRequest c
      → UniqueBy (λ (s : RecruitmentStage). s.id) db.recruitment_stages
      → TemplatesStaged db
      → AllStaged db
      → AllStaged (serve c db)
  unfolding serve
  serve-AllStaged (creates n o a dto) db v k t h = create-AllStaged n o a dto db h
  serve-AllStaged (updates o id dto) db v k t h =
      Updates-AllStaged id (with_fields dto) db _ (update-Updates o id dto db) (λ x _ s. s) h
  serve-AllStaged (publishes now o id) db v k t h = elim (publish-Updates now o id db) [
    | inl e ↦ rw e h
    | inr (e, staged) ↦
        Updates-AllStaged id (as_published now) db (publish now o id db).1 (inr e)
          (λ x same _ _.
            subst (λ n. any (λ s. s.job_id == n) db.recruitment_stages ≡ true)
              (sym ((==_iff x.id id).0 same)) staged)
          h
  ]
  serve-AllStaged (closes now o id) db v k t h =
      Updates-AllStaged id (as_closed now) db _ (close-Updates now o id db) (λ x _ _ on. cc) h
  serve-AllStaged (archives o id) db v k t h =
      Updates-AllStaged id as_archived db _ (archive-Updates o id db) (λ x _ _ on. cc) h
  serve-AllStaged (replaces n o id stages) db v k t h =
      elim (replace_stages-cases n o id stages db) [
        | inl e ↦ rw e h
        | inr e ↦ rw e (set_stages-AllStaged n id stages db v k h)
      ]
  serve-AllStaged (applies n o id template_id) db v k t h =
      elim (apply_template-cases n o id template_id db) [
        | inl e ↦ rw e h
        | inr (template, has, e) ↦ rw e (
            set_stages-AllStaged n id (map (λ s. s.name) (sort_by_order template.stages)) db
              (sorted_nonempty template.stages (All-Has _ template db.pipeline_templates t has)) k
              h)
      ]
