-- ===== src/Jobs.antt =====
-- backend/src/jobs/jobs.service.ts, JobsService. A call answers with the rows that toDetail and
-- toStageDetail project; toPublicDetail, which hides columns, is modelled. Ids of new rows and the
-- time are arguments. `contains` is the database's case-insensitive search in a text.
pub mod Machine
mod Tests
pub mod Lifecycle
pub mod Published
pub mod Search
pub mod Stages
pub mod References
use recruit_saas.Common.{
  ℕ, suc, String, Bool, true, false, Option, none, some, List, [], ◌∷◌, not, ◌==◌, ◌&&◌, ◌||◌, ltb,
  leb, any, map, same_text, if◌then◌else◌, is_some, length, reject,
}
use recruit_saas.Schema.{
  Job, JobStatus, Organization, RecruitmentStage, PipelineTemplate, PipelineStageTemplate,
  job_draft, job_published, job_archived, same_job_status, organization_active,
}
use recruit_saas.Prisma.{
  Prisma, Action, Error, Result, err, ◌>>=◌, ◌>>◌, return, throw, or_throw, throw_if, bad_request,
  not_found, conflict, unprocessable, row_missing, transaction, related, find_first, find_many,
  find_many_by, count_rows, create as insert, update as write, delete_many,
}
use recruit_saas.Tables.{job, organization, recruitment_stage, application}
use recruit_saas.Requests.{
  require_org_id, or_keep, or_keep_column, Page, Listing, any_order, list_page,
}
use recruit_saas.PipelineTemplates

-- CreateJobDto
pub record CreateJob : Type 0 where
  pub title : String
  pub description : String
  pub department : Option String
  pub location : Option String
  pub employment_type : Option String
  pub salary_min : Option ℕ
  pub salary_max : Option ℕ

-- UpdateJobDto
pub record UpdateJob : Type 0 where
  pub title : Option String
  pub description : Option String
  pub department : Option String
  pub location : Option String
  pub employment_type : Option String
  pub salary_min : Option ℕ
  pub salary_max : Option ℕ

-- The filters of PublicJobSearchQueryDto. An empty `organizationId`, which is no filter, is `none`.
pub record PublicJobSearch : Type 0 where
  pub keyword : Option String
  pub location : Option String
  pub employment_type : Option String
  pub organization_id : Option ℕ
  pub page : Page

abbrev pub exceeds : Option ℕ → Option ℕ → Bool
exceeds (some low) (some high) = ltb high low
exceeds none _ = false
exceeds (some _) none = false

abbrev pub validate_salary_range : Option ℕ → Option ℕ → Action (Unit {0})
validate_salary_range low high = throw_if (exceeds low high) bad_request

abbrev pub new_job : ℕ → ℕ → ℕ → CreateJob → Job
new_job new_id organization_id actor_id dto = record {
  id = new_id;
  organization_id = organization_id;
  title = dto.title;
  description = dto.description;
  department = dto.department;
  location = dto.location;
  employment_type = dto.employment_type;
  salary_min = dto.salary_min;
  salary_max = dto.salary_max;
  status = JobStatus.draft;
  created_by_id = actor_id;
  published_at = none;
  closed_at = none;
}

abbrev pub with_fields : UpdateJob → Job → Job
with_fields dto j = record j {
  title = or_keep dto.title j.title;
  description = or_keep dto.description j.description;
  department = or_keep_column dto.department j.department;
  location = or_keep_column dto.location j.location;
  employment_type = or_keep_column dto.employment_type j.employment_type;
  salary_min = or_keep_column dto.salary_min j.salary_min;
  salary_max = or_keep_column dto.salary_max j.salary_max;
}

abbrev pub as_published : ℕ → Job → Job
as_published now j = record j { status = JobStatus.published; published_at = some now }

abbrev pub as_closed : ℕ → Job → Job
as_closed now j = record j { status = JobStatus.closed; closed_at = some now }

abbrev pub as_archived : Job → Job
as_archived j = record j { status = JobStatus.archived }

-- What a candidate sees of a job: neither its status nor who made it.
pub record PublicJob : Type 0 where
  pub id : ℕ
  pub title : String
  pub description : String
  pub department : Option String
  pub location : Option String
  pub employment_type : Option String
  pub salary_min : Option ℕ
  pub salary_max : Option ℕ
  pub published_at : Option ℕ
  pub organization_id : ℕ
  pub organization_name : String

abbrev pub to_public_detail : Job → Organization → PublicJob
to_public_detail j o = record {
  id = j.id;
  title = j.title;
  description = j.description;
  department = j.department;
  location = j.location;
  employment_type = j.employment_type;
  salary_min = j.salary_min;
  salary_max = j.salary_max;
  published_at = j.published_at;
  organization_id = o.id;
  organization_name = o.name;
}

-- The conditions of a query that names a field only where the request has it.
abbrev pub if_given {ℓ} : {A : Type ℓ} → (A → Bool) → Option A → Bool
if_given test none = true
if_given test (some v) = test v

-- A text that is empty is no condition.
abbrev pub if_given_text : (String → Bool) → Option String → Bool
if_given_text test none = true
if_given_text test (some text) = if same_text text "" then true else test text

-- `orderBy: { publishedAt: 'desc' }`, where the database has NULL before the times.
abbrev pub not_before : Option ℕ → Option ℕ → Bool
not_before none time = true
not_before (some a) none = false
not_before (some a) (some b) = leb b a

abbrev pub newest_first : Job → Job → Bool
newest_first x y = not_before x.published_at y.published_at

abbrev pub of_active_organization : List Organization → Job → Bool
of_active_organization organizations j =
    any (λ o. o.id == j.organization_id && organization_active o.status) organizations

module _ (contains : String → String → Bool) where
  abbrev pub in_column : String → Option String → Bool
  in_column text none = false
  in_column text (some value) = contains value text

  abbrev pub same_column : Option String → String → Bool
  same_column none text = false
  same_column (some value) text = same_text value text

  -- The `where` of `search`.
  abbrev pub search_where : PublicJobSearch → List Organization → Job → Bool
  search_where query organizations j =
      job_published j.status
      && of_active_organization organizations j
      && if_given_text (λ k. contains j.title k || contains j.description k) query.keyword
      && if_given_text (λ l. in_column l j.location) query.location
      && if_given_text (same_column j.employment_type) query.employment_type
      && if_given (λ o. j.organization_id == o) query.organization_id

-- `new Map(existing.map((s) => [s.name, s])).get(name)`: the last stage of the name.
abbrev pub existing_by_name : List RecruitmentStage → String → Option RecruitmentStage
existing_by_name [] name = none
existing_by_name (s ∷ existing) name =
    let later = existing_by_name existing name in
    if is_some later then later else if same_text s.name name then some s else none

abbrev pub keeps_name : List String → RecruitmentStage → Bool
keeps_name names s = any (same_text s.name) names

abbrev pub has_id_of : List RecruitmentStage → ℕ → Bool
has_id_of stages id = any (λ s. s.id == id) stages

abbrev pub new_stage : ℕ → ℕ → String → ℕ → RecruitmentStage
new_stage new_id job_id name index = record {
  id = new_id;
  job_id = job_id;
  name = name;
  order = index;
}

abbrev pub at_order : ℕ → RecruitmentStage → RecruitmentStage
at_order index s = record s { order = index }

-- `[...stages].sort((a, b) => a.order - b.order)`, which keeps the order of equal ones.
abbrev pub insert_by_order :
    PipelineStageTemplate → List PipelineStageTemplate → List PipelineStageTemplate
insert_by_order x [] = x ∷ []
insert_by_order x (y ∷ ys) = if leb x.order y.order then x ∷ y ∷ ys else y ∷ insert_by_order x ys

abbrev pub sort_by_order : List PipelineStageTemplate → List PipelineStageTemplate
sort_by_order [] = []
sort_by_order (x ∷ xs) = insert_by_order x (sort_by_order xs)

-- `catch` of a NotFoundException, which is thrown anew as `e`.
abbrev renamed : {A : Type 0} → Error → Result A → Result A
renamed e (err not_found) = err e
renamed e r = r

abbrev pub on_not_found : {A : Type 0} → Error → Action A → Action A
on_not_found e m db = let (r, db') = m db in (renamed e r, db')

module _ ⦃p : Prisma⦄ where
  unfoldable pub require_job : ℕ → ℕ → Action Job
  require_job id organization_id = do
    found ← find_first job λ j. j.id == id && j.organization_id == organization_id
    or_throw not_found found

  pub create : ℕ → Option ℕ → ℕ → CreateJob → Action Job
  create new_id org_id actor_id dto = do
    organization_id ← require_org_id org_id
    validate_salary_range dto.salary_min dto.salary_max
    insert job (new_job new_id organization_id actor_id dto)

  pub list : Option ℕ → Option JobStatus → Page → Action (Listing Job)
  list org_id status query = do
    organization_id ← require_org_id org_id
    list_page job any_order
        (λ j. j.organization_id == organization_id && if_given (same_job_status j.status) status)
        query

  pub get_one : Option ℕ → ℕ → Action Job
  unfolding require_job
  get_one org_id id = do organization_id ← require_org_id org_id; require_job id organization_id

  pub update : Option ℕ → ℕ → UpdateJob → Action Job
  unfolding require_job
  update org_id id dto = do
    organization_id ← require_org_id org_id
    validate_salary_range dto.salary_min dto.salary_max
    require_job id organization_id
    write job (λ j. j.id == id) (with_fields dto)

  pub search : (String → String → Bool) → PublicJobSearch → Action (Listing Job)
  search contains query = do
    db ← related
    list_page job newest_first (search_where contains query db.organizations) query.page

  unfoldable pub get_public_one : ℕ → Action PublicJob
  get_public_one id = do
    db ← related
    found ←
        find_first job
          λ j. j.id == id && job_published j.status && of_active_organization db.organizations j
    posted ← or_throw not_found found
    owner ← find_first organization λ o. o.id == posted.organization_id
    org ← or_throw row_missing owner
    return (to_public_detail posted org)

  pub list_stages : Option ℕ → ℕ → Action (List RecruitmentStage)
  unfolding require_job
  list_stages org_id job_id = do
    organization_id ← require_org_id org_id
    require_job job_id organization_id
    find_many_by recruitment_stage (λ s. s.order) λ s. s.job_id == job_id

  -- The removal of the stages whose names are dropped.
  pub remove_stages : ℕ → List RecruitmentStage → Action (Unit {0})
  remove_stages job_id [] = return tt
  remove_stages job_id (s ∷ to_remove) = do
    still_in_use ←
        find_first application λ a. a.job_id == job_id && has_id_of (s ∷ to_remove) a.stage_id
    throw_if (is_some still_in_use) conflict
    delete_many recruitment_stage λ x. has_id_of (s ∷ to_remove) x.id
    return tt

  -- One name of the new list: the stage of that name is moved, or a stage is created.
  pub place_stage : ℕ → ℕ → String → ℕ → Option RecruitmentStage → Action RecruitmentStage
  place_stage new_id job_id name index (some found) =
      write recruitment_stage (λ s. s.id == found.id) (at_order index)
  place_stage new_id job_id name index none =
      insert recruitment_stage (new_stage new_id job_id name index)

  pub place_stages : (ℕ → ℕ) → ℕ → List RecruitmentStage → ℕ → List String → Action (Unit {0})
  place_stages new_id job_id existing index [] = return tt
  place_stages new_id job_id existing index (name ∷ names) =
      place_stage (new_id index) job_id name index (existing_by_name existing name)
      >> place_stages new_id job_id existing (suc index) names

  -- `new_id` gives the id of the stage that is created at an index. The queries of `Promise.all` run
  -- one after another on the transaction's connection.
  pub set_stages : (ℕ → ℕ) → ℕ → List String → Action (List RecruitmentStage)
  set_stages new_id job_id stage_names = transaction do
    existing ← find_many recruitment_stage λ s. s.job_id == job_id
    remove_stages job_id (reject (keeps_name stage_names) existing)
    place_stages new_id job_id existing 0 stage_names
    find_many_by recruitment_stage (λ s. s.order) λ s. s.job_id == job_id

  pub replace_stages : (ℕ → ℕ) → Option ℕ → ℕ → List String → Action (List RecruitmentStage)
  unfolding require_job
  replace_stages new_id org_id job_id stages = do
    organization_id ← require_org_id org_id
    require_job job_id organization_id
    set_stages new_id job_id stages

  -- The names of the template's stages; a template of another organization is as unprocessable as one
  -- that does not exist.
  template_names : Option ℕ → ℕ → Action (List String)
  template_names org_id template_id = do
    template ← on_not_found unprocessable (PipelineTemplates.get_one org_id template_id)
    return (map (λ s. s.name) (sort_by_order template.stages))

  pub apply_template : (ℕ → ℕ) → Option ℕ → ℕ → ℕ → Action (List RecruitmentStage)
  unfolding require_job template_names
  apply_template new_id org_id job_id template_id = do
    organization_id ← require_org_id org_id
    require_job job_id organization_id
    stage_names ← template_names org_id template_id
    set_stages new_id job_id stage_names

  pub publish : ℕ → Option ℕ → ℕ → Action Job
  unfolding require_job
  publish now org_id id = do
    organization_id ← require_org_id org_id
    found ← require_job id organization_id
    throw_if (not (job_draft found.status)) conflict
    stage_count ← count_rows recruitment_stage λ s. s.job_id == id
    throw_if (stage_count == 0) unprocessable
    write job (λ j. j.id == id) (as_published now)

  pub close : ℕ → Option ℕ → ℕ → Action Job
  unfolding require_job
  close now org_id id = do
    organization_id ← require_org_id org_id
    found ← require_job id organization_id
    throw_if (not (job_published found.status)) conflict
    write job (λ j. j.id == id) (as_closed now)

  pub archive : Option ℕ → ℕ → Action (Unit {0})
  unfolding require_job
  archive org_id id = do
    organization_id ← require_org_id org_id
    found ← require_job id organization_id
    throw_if (job_archived found.status) conflict
    write job (λ j. j.id == id) as_archived
    return tt
