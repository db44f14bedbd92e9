-- ===== src/Schema/Pipeline.antt =====
-- Jobs and their pipelines in backend/prisma/schema.prisma. A template holds its stages, which no other
-- table refers to.
use recruit_saas.Common.{ℕ, Option, String, List}
use recruit_saas.Schema.Enums.{JobStatus}

pub record Job : Type 0 where
  pub id : ℕ
  pub organization_id : ℕ
  pub title : String
  pub description : String
  pub department : Option String
  pub location : Option String
  pub employment_type : Option String
  pub salary_min : Option ℕ
  pub salary_max : Option ℕ
  pub status : JobStatus
  pub created_by_id : ℕ
  pub published_at : Option ℕ
  pub closed_at : Option ℕ

pub record RecruitmentStage : Type 0 where
  pub id : ℕ
  pub job_id : ℕ
  pub name : String
  pub order : ℕ

pub record PipelineStageTemplate : Type 0 where
  pub name : String
  pub order : ℕ

pub record PipelineTemplate : Type 0 where
  pub id : ℕ
  pub organization_id : ℕ
  pub name : String
  pub stages : List PipelineStageTemplate

pub record TalentPool : Type 0 where
  pub id : ℕ
  pub organization_id : ℕ
  pub name : String
