-- ===== src/Schema/Onboarding.antt =====
-- Onboarding, documents and the members of talent pools in backend/prisma/schema.prisma.
use recruit_saas.Common.{ℕ, Bool, Option, String}

pub record OnboardingChecklist : Type 0 where
  pub id : ℕ
  pub offer_id : ℕ

pub record OnboardingTask : Type 0 where
  pub id : ℕ
  pub checklist_id : ℕ
  pub name : String
  pub required : Bool
  pub completed_at : Option ℕ

pub record Document : Type 0 where
  pub id : ℕ
  pub task_id : Option ℕ
  pub uploaded_by_id : ℕ
  pub file_key : String
  pub file_name : String

pub record TalentPoolCandidate : Type 0 where
  pub talent_pool_id : ℕ
  pub candidate_id : ℕ
