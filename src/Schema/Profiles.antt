-- ===== src/Schema/Profiles.antt =====
-- The profile of a candidate and its lists in backend/prisma/schema.prisma.
use recruit_saas.Common.{ℕ, Option, String}

pub record CandidateProfile : Type 0 where
  pub user_id : ℕ
  pub headline : Option String
  pub location : Option String
  pub phone : Option String

pub record Education : Type 0 where
  pub id : ℕ
  pub candidate_id : ℕ
  pub institution : String
  pub degree : Option String
  pub start_year : Option ℕ
  pub end_year : Option ℕ

pub record Experience : Type 0 where
  pub id : ℕ
  pub candidate_id : ℕ
  pub company : String
  pub title : String
  pub start_date : Option ℕ
  pub end_date : Option ℕ
  pub description : Option String

pub record Skill : Type 0 where
  pub id : ℕ
  pub candidate_id : ℕ
  pub name : String
