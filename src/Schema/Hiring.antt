-- ===== src/Schema/Hiring.antt =====
-- Applications, interviews, evaluations and offers of backend/prisma/schema.prisma.
use recruit_saas.Common.{ℕ, Bool, Option, String, List}
use recruit_saas.Schema.Enums.{
  ApplicationStatus, OfferStatus, InterviewStatus, EvaluationRecommendation,
}

pub record Cv : Type 0 where
  pub id : ℕ
  pub candidate_id : ℕ
  pub file_key : String
  pub file_name : String
  pub is_primary : Bool

pub record Application : Type 0 where
  pub id : ℕ
  pub job_id : ℕ
  pub candidate_id : ℕ
  pub organization_id : ℕ
  pub cv_id : ℕ
  pub stage_id : ℕ
  pub status : ApplicationStatus
  pub cover_note : Option String
  pub rejected_reason : Option String

pub record ApplicationStageHistory : Type 0 where
  pub application_id : ℕ
  pub from_stage_id : Option ℕ
  pub to_stage_id : ℕ
  pub moved_by_id : ℕ

pub record Interview : Type 0 where
  pub id : ℕ
  pub application_id : ℕ
  pub organization_id : ℕ
  pub scheduled_at : ℕ
  pub mode : String
  pub status : InterviewStatus
  pub rescheduled_to_id : Option ℕ

pub record InterviewPanelMember : Type 0 where
  pub id : ℕ
  pub interview_id : ℕ
  pub interviewer_id : ℕ

-- A value of the scores object: a JavaScript number is a natural number, or a negative number or
-- a fraction.
pub data Score : Type 0 where
  natural : ℕ → Score
  negative_or_fraction : Score

pub record Evaluation : Type 0 where
  pub id : ℕ
  pub panel_member_id : ℕ
  pub scores : List (String × Score)
  pub comment : Option String
  pub recommendation : EvaluationRecommendation

pub record Offer : Type 0 where
  pub id : ℕ
  pub application_id : ℕ
  pub organization_id : ℕ
  pub title : String
  pub compensation : Option String
  pub start_date : Option ℕ
  pub expires_at : ℕ
  pub status : OfferStatus
  pub responded_at : Option ℕ
