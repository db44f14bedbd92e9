-- ===== src/PipelineTemplates.antt =====
-- backend/src/pipeline-templates/pipeline-templates.service.ts, PipelineTemplatesService. The stages of a
-- template are listed in its row, in the order of their column `order`.
use recruit_saas.Common.{ℕ, suc, String, Option, none, some, List, [], ◌∷◌, ◌==◌, ◌&&◌}
use recruit_saas.Schema.{PipelineTemplate, PipelineStageTemplate}
use recruit_saas.Prisma.{
  Prisma, Action, ◌>>=◌, ◌>>◌, return, or_throw, not_found, find_first, create as insert,
  update as write, delete_many,
}
use recruit_saas.Tables.{pipeline_template}
use recruit_saas.Requests.{require_org_id, or_keep, Page, Listing, any_order, list_page}

-- CreatePipelineTemplateDto and UpdatePipelineTemplateDto
pub record CreatePipelineTemplate : Type 0 where
  pub name : String
  pub stages : List String

pub record UpdatePipelineTemplate : Type 0 where
  pub name : Option String
  pub stages : Option (List String)

-- `stages.map((name, index) => ({ name, order: index }))`
abbrev pub indexed_from : ℕ → List String → List PipelineStageTemplate
indexed_from index [] = []
indexed_from index (name ∷ names) =
    record { name = name; order = index } ∷ indexed_from (suc index) names

abbrev replaced : Option (List String) → List PipelineStageTemplate → List PipelineStageTemplate
replaced none old = old
replaced (some names) old = indexed_from 0 names

module _ ⦃p : Prisma⦄ where
  pub create : ℕ → Option ℕ → CreatePipelineTemplate → Action PipelineTemplate
  create new_id org_id dto = do
    organization_id ← require_org_id org_id
    insert pipeline_template (record {
      id = new_id;
      organization_id = organization_id;
      name = dto.name;
      stages = indexed_from 0 dto.stages;
    })

  pub list : Option ℕ → Page → Action (Listing PipelineTemplate)
  list org_id query = do
    organization_id ← require_org_id org_id
    list_page pipeline_template any_order (λ t. t.organization_id == organization_id) query

  -- `findWithStages`, and the test of its answer.
  require_template : ℕ → ℕ → Action PipelineTemplate
  require_template id organization_id = do
    found ← find_first pipeline_template λ t. t.id == id && t.organization_id == organization_id
    or_throw not_found found

  unfoldable pub get_one : Option ℕ → ℕ → Action PipelineTemplate
  unfolding require_template
  get_one org_id id = do
    organization_id ← require_org_id org_id
    require_template id organization_id

  pub update : Option ℕ → ℕ → UpdatePipelineTemplate → Action PipelineTemplate
  unfolding require_template
  update org_id id dto = do
    organization_id ← require_org_id org_id
    require_template id organization_id
    write pipeline_template (λ t. t.id == id)
        λ t. record t { name = or_keep dto.name t.name; stages = replaced dto.stages t.stages }

  pub remove : Option ℕ → ℕ → Action (Unit {0})
  unfolding require_template
  remove org_id id = do
    organization_id ← require_org_id org_id
    require_template id organization_id
    delete_many pipeline_template λ t. t.id == id
    return tt
