-- ===== src/Onboarding.antt =====
-- backend/src/onboarding/onboarding.service.ts, OnboardingService. `now` is the time of the call; the ids
-- of new rows and the random part of a key are arguments: for the tasks of a checklist, the ids by place.
pub mod Checklists
pub mod Documents
mod Tests
use recruit_saas.Common.{
  ℕ, suc, ◌*◌, String, Bool, true, false, Option, none, some, List, [], ◌∷◌, not, ◌==◌, ◌&&◌, ltb,
}
use recruit_saas.Schema.{OnboardingChecklist, OnboardingTask, Document, offer_accepted}
use recruit_saas.Prisma.{
  Prisma, Action, ◌>>=◌, ◌>>◌, return, throw, or_throw, throw_if, bad_request, not_found, conflict,
  on_unique_violation, transaction, find_first, find_many, create, create_many, update,
}
use recruit_saas.Tables.{onboarding_checklist, onboarding_task, document}
use recruit_saas.Requests.{require_org_id}
use recruit_saas.Storage.{Platform, upload}
use recruit_saas.Candidates.{File}
use recruit_saas.Offers

-- CreateChecklistTaskDto and AddTaskDto
pub record AddTask : Type 0 where
  pub name : String
  pub required : Option Bool

-- The answer of `toDetail`.
pub record TaskDetail : Type 0 where
  pub task : OnboardingTask
  pub documents : List Document

pub record ChecklistDetail : Type 0 where
  pub checklist : OnboardingChecklist
  pub tasks : List TaskDetail

abbrev pub max_document_size_bytes : ℕ
max_document_size_bytes = 5 * 1024 * 1024

-- `required ?? true`
abbrev pub required_or_default : Option Bool → Bool
required_or_default none = true
required_or_default (some b) = b

abbrev pub new_checklist : ℕ → ℕ → OnboardingChecklist
new_checklist id offer_id = record { id = id; offer_id = offer_id }

abbrev pub new_task : ℕ → ℕ → AddTask → OnboardingTask
new_task id checklist_id dto = record {
  id = id;
  checklist_id = checklist_id;
  name = dto.name;
  required = required_or_default dto.required;
  completed_at = none;
}

abbrev pub task_rows : (ℕ → ℕ) → ℕ → ℕ → List AddTask → List OnboardingTask
task_rows new_id checklist_id index [] = []
task_rows new_id checklist_id index (dto ∷ tasks) =
    new_task (new_id index) checklist_id dto ∷ task_rows new_id checklist_id (suc index) tasks

abbrev pub as_completed : ℕ → OnboardingTask → OnboardingTask
as_completed now t = record t { completed_at = some now }

abbrev pub of_task : ℕ → Document → Bool
of_task task_id d = elim d.task_id [ none ↦ false | some id ↦ id == task_id ]

abbrev pub new_document : ℕ → ℕ → ℕ → String → String → Document
new_document id task_id candidate_id key name = record {
  id = id;
  task_id = some task_id;
  uploaded_by_id = candidate_id;
  file_key = key;
  file_name = name;
}

module _ ⦃p : Prisma⦄ where
  -- The documents of the tasks, as `checklistInclude` adds them.
  abbrev pub include_documents : List OnboardingTask → Action (List TaskDetail)
  include_documents [] = return []
  include_documents (t ∷ tasks) = do
    documents ← find_many document (of_task t.id)
    rest ← include_documents tasks
    return (record { task = t; documents = documents } ∷ rest)

  abbrev pub to_detail : OnboardingChecklist → Action ChecklistDetail
  to_detail c = do
    tasks ← find_many onboarding_task λ t. t.checklist_id == c.id
    details ← include_documents tasks
    return (record { checklist = c; tasks = details })

  abbrev pub require_checklist : ℕ → Action OnboardingChecklist
  require_checklist offer_id = do
    found ← find_first onboarding_checklist λ c. c.offer_id == offer_id
    or_throw not_found found

  -- The nested `create`: the checklist and its tasks are written together or not at all.
  abbrev pub create_with_tasks : ℕ → (ℕ → ℕ) → ℕ → List AddTask → Action OnboardingChecklist
  create_with_tasks new_id new_task_id offer_id tasks = transaction do
    checklist ← create onboarding_checklist (new_checklist new_id offer_id)
    create_many onboarding_task (task_rows new_task_id new_id 0 tasks)
    return checklist

  pub create_checklist : ℕ → (ℕ → ℕ) → ℕ → Option ℕ → ℕ → ℕ → List AddTask → Action ChecklistDetail
  create_checklist new_id new_task_id now org_id job_id application_id tasks = do
    organization_id ← require_org_id org_id
    current ← Offers.get_for_job now (some organization_id) job_id application_id
    throw_if (not (offer_accepted current.status)) conflict
    checklist ← on_unique_violation conflict (create_with_tasks new_id new_task_id current.id tasks)
    to_detail checklist

  unfoldable pub get_for_job : ℕ → Option ℕ → ℕ → ℕ → Action ChecklistDetail
  get_for_job now org_id job_id application_id = do
    organization_id ← require_org_id org_id
    current ← Offers.get_for_job now (some organization_id) job_id application_id
    checklist ← require_checklist current.id
    to_detail checklist

  pub add_task : ℕ → ℕ → Option ℕ → ℕ → ℕ → AddTask → Action ChecklistDetail
  add_task new_id now org_id job_id application_id dto = do
    organization_id ← require_org_id org_id
    current ← Offers.get_for_job now (some organization_id) job_id application_id
    checklist ← require_checklist current.id
    create onboarding_task (new_task new_id checklist.id dto)
    get_for_job now org_id job_id application_id

  abbrev pub require_task : ℕ → ℕ → Action OnboardingTask
  require_task task_id checklist_id = do
    found ← find_first onboarding_task λ t. t.id == task_id && t.checklist_id == checklist_id
    or_throw not_found found

  pub complete_task : ℕ → Option ℕ → ℕ → ℕ → ℕ → Action ChecklistDetail
  complete_task now org_id job_id application_id task_id = do
    organization_id ← require_org_id org_id
    current ← Offers.get_for_job now (some organization_id) job_id application_id
    checklist ← require_checklist current.id
    task ← require_task task_id checklist.id
    update onboarding_task (λ t. t.id == task.id) (as_completed now)
    get_for_job now org_id job_id application_id

  pub get_mine : ℕ → ℕ → ℕ → Action ChecklistDetail
  get_mine now candidate_id application_id = do
    current ← Offers.get_mine now candidate_id application_id
    checklist ← require_checklist current.id
    to_detail checklist

module _ ⦃p : Prisma⦄ (n : Platform) where
  -- The checks of an uploaded document: its size, and no others.
  abbrev pub accepted_document : Option File → Action File
  accepted_document none = throw bad_request
  accepted_document (some file) =
      throw_if (ltb max_document_size_bytes file.size) bad_request >> return file

  pub upload_document : ℕ → String → ℕ → ℕ → ℕ → ℕ → Option File → Action Document
  upload_document new_id random_hex now candidate_id application_id task_id given = do
    file ← accepted_document given
    current ← Offers.get_mine now candidate_id application_id
    checklist ← require_checklist current.id
    task ← require_task task_id checklist.id
    key ← upload n random_hex file.buffer file.original_name
    create document (new_document new_id task.id candidate_id key file.original_name)
