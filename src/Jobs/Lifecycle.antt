-- ===== src/Jobs/Lifecycle.antt =====
-- Every call of JobsService that writes, and what a history of calls keeps.
use recruit_saas.Common.{
  ℕ, ◌≡◌, refl, ap, ◌∙◌, ◌⊎◌, inl, inr, Option, none, some, String, List, map, arith, ◌==◌, ◌&&◌,
  Has,
}
use recruit_saas.Schema.{Db, PipelineTemplate}
use recruit_saas.Prisma.{Prisma}
use recruit_saas.Prisma.Keys.{find_first-cases}
use recruit_saas.Jobs.{
  CreateJob, UpdateJob, create, update, publish, close, archive, replace_stages, apply_template,
  set_stages, sort_by_order,
}
use recruit_saas.PipelineTemplates
use recruit_saas.Jobs.Machine.{
  JobStep, stay, create-JobStep, update-JobStep, publish-JobStep, close-JobStep, archive-JobStep,
}
use recruit_saas.Jobs.Stages.{
  place_stages-Grows, set_stages-cases, existing_stages, without_dropped,
}

pub data Call : Type 0 where
  creates : (new_id : ℕ) (org_id : Option ℕ) (actor_id : ℕ) (dto : CreateJob) → Call
  updates : (org_id : Option ℕ) (id : ℕ) (dto : UpdateJob) → Call
  publishes closes : (now : ℕ) (org_id : Option ℕ) (id : ℕ) → Call
  archives : (org_id : Option ℕ) (id : ℕ) → Call
  replaces : (new_id : ℕ → ℕ) (org_id : Option ℕ) (id : ℕ) (stages : List String) → Call
  applies : (new_id : ℕ → ℕ) (org_id : Option ℕ) (id template_id : ℕ) → Call

abbrev pub caller : Call → Option ℕ
caller (creates _ o _ _) = o
caller (updates o _ _) = o
caller (publishes _ o _) = o
caller (closes _ o _) = o
caller (archives o _) = o
caller (replaces _ o _ _) = o
caller (applies _ o _ _) = o

module _ ⦃p : Prisma⦄ where
  -- The database that the call leaves behind, whether it succeeds or fails.
  unfoldable pub serve : Call → Db → Db
  serve (creates n o a dto) db = (create n o a dto db).1
  serve (updates o id dto) db = (update o id dto db).1
  serve (publishes now o id) db = (publish now o id db).1
  serve (closes now o id) db = (close now o id db).1
  serve (archives o id) db = (archive o id db).1
  serve (replaces n o id stages) db = (replace_stages n o id stages db).1
  serve (applies n o id template_id) db = (apply_template n o id template_id db).1

  set_stages-jobs :
      (new_id : ℕ → ℕ) (job_id : ℕ) (names : List String) (db : Db)
      → (set_stages new_id job_id names db).1.jobs ≡ db.jobs
  set_stages-jobs new_id job_id names db = elim (set_stages-cases new_id job_id names db) [
    | inl e ↦ ap (λ (d : Db). d.jobs) e
    | inr (e, _) ↦
        ap (λ (d : Db). d.jobs) e
        ∙ (place_stages-Grows new_id job_id (existing_stages job_id db) 0 names
            (without_dropped job_id names db)).same_jobs
  ]

  -- A change of stages is not made, or is that of `set_stages`.
  pub replace_stages-cases :
      (new_id : ℕ → ℕ) (org_id : Option ℕ) (id : ℕ) (stages : List String) (db : Db)
      → ((replace_stages new_id org_id id stages db).1 ≡ db)
        ⊎ ((replace_stages new_id org_id id stages db).1 ≡ (set_stages new_id id stages db).1)
  unfolding replace_stages
  replace_stages-cases new_id none id stages db = inl refl
  replace_stages-cases new_id (some org) id stages db =
      elim (find_first-cases (λ j. j.id == id && j.organization_id == org) db.jobs) [
        | inl (e, _) ↦ inl (ground arith)
        | inr (j, e, _, _) ↦ inr (ground arith)
      ]

  -- The template is one of the organization's.
  pub apply_template-cases :
      (new_id : ℕ → ℕ) (org_id : Option ℕ) (id template_id : ℕ) (db : Db)
      → ((apply_template new_id org_id id template_id db).1 ≡ db)
        ⊎ ((t : PipelineTemplate) × Has t db.pipeline_templates
            × ((apply_template new_id org_id id template_id db).1
                ≡ (set_stages new_id id (map (λ s. s.name) (sort_by_order t.stages)) db).1))
  unfolding apply_template PipelineTemplates.get_one
  apply_template-cases new_id none id template_id db = inl refl
  apply_template-cases new_id (some org) id template_id db =
      elim (find_first-cases (λ j. j.id == id && j.organization_id == org) db.jobs) [
        | inl (e, _) ↦ inl (ground arith)
        | inr (j, e, _, _) ↦
            elim (find_first-cases (λ t. t.id == template_id && t.organization_id == org)
              db.pipeline_templates) [
                | inl (f, _) ↦ inl (ground arith)
                | inr (t, f, _, has) ↦ inr (t, has, ground arith)
              ]
      ]

  -- Every call, on every branch, leaves the jobs as they were, adds one draft of the caller's
  -- organization, or changes the rows with the id of one job of that organization: it keeps their owner
  -- and author, and moves the status from DRAFT to PUBLISHED, from PUBLISHED to CLOSED, from one that is
  -- not ARCHIVED to ARCHIVED, or not at all.
  pub serve-JobStep : (c : Call) (db : Db) → JobStep (caller c) db.jobs (serve c db).jobs
  unfolding serve
  serve-JobStep (creates n o a dto) db = create-JobStep n o a dto db
  serve-JobStep (updates o id dto) db = update-JobStep o id dto db
  serve-JobStep (publishes now o id) db = publish-JobStep now o id db
  serve-JobStep (closes now o id) db = close-JobStep now o id db
  serve-JobStep (archives o id) db = archive-JobStep o id db
  serve-JobStep (replaces n o id stages) db = elim (replace_stages-cases n o id stages db) [
    | inl e ↦ stay (ap (λ (d : Db). d.jobs) e)
    | inr e ↦ stay (ap (λ (d : Db). d.jobs) e ∙ set_stages-jobs n id stages db)
  ]
  serve-JobStep (applies n o id template_id) db =
      elim (apply_template-cases n o id template_id db) [
        | inl e ↦ stay (ap (λ (d : Db). d.jobs) e)
        | inr (t, _, e) ↦ stay (
            ap (λ (d : Db). d.jobs) e
            ∙ set_stages-jobs n id (map (λ s. s.name) (sort_by_order t.stages)) db)
      ]
