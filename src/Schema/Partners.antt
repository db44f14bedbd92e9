-- ===== src/Schema/Partners.antt =====
-- Universities, plans, subscriptions and payments of backend/prisma/schema.prisma.
use recruit_saas.Common.{ℕ, Option, String}

pub record University : Type 0 where
  pub id : ℕ
  pub name : String

pub record UniversityPartnership : Type 0 where
  pub id : ℕ
  pub organization_id : ℕ
  pub university_id : ℕ

pub record Plan : Type 0 where
  pub id : ℕ
  pub key : String
  pub name : String
  pub max_active_jobs : Option ℕ
  pub max_seats : Option ℕ
  pub price_cents : ℕ

pub record Subscription : Type 0 where
  pub id : ℕ
  pub organization_id : ℕ
  pub plan_id : ℕ
  pub status : String
  pub current_period_end : Option ℕ

pub record Payment : Type 0 where
  pub id : ℕ
  pub subscription_id : ℕ
  pub stripe_event_id : String
  pub amount_cents : ℕ
  pub status : String
