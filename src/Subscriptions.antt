-- ===== src/Subscriptions.antt =====
-- backend/src/subscriptions/subscriptions.service.ts, SubscriptionsService. Ids of new rows and the id of
-- the stubbed Stripe event are arguments.
pub mod Plans
mod Tests
use recruit_saas.Common.{
  ℕ, String, Option, none, some, List, [], Bool, true, false, ◌==◌, ltb, same_text,
}
use recruit_saas.Schema.{Plan, Subscription, Payment}
use recruit_saas.Prisma.{
  Prisma, Action, ◌>>=◌, ◌>>◌, return, or_throw, row_missing, find_first, find_many, find_many_by,
  create, upsert,
}
use recruit_saas.Tables.{plan, subscription, payment}
use recruit_saas.Requests.{require_org_id}

-- The answer of `toDetail`: every part is empty where no plan was chosen.
pub record SubscriptionDetail : Type 0 where
  pub subscription : Option Subscription
  pub plan : Option Plan
  pub payments : List Payment

abbrev pub new_subscription : ℕ → ℕ → ℕ → Subscription
new_subscription id organization_id plan_id = record {
  id = id;
  organization_id = organization_id;
  plan_id = plan_id;
  status = "ACTIVE";
  current_period_end = none;
}

abbrev pub with_plan : ℕ → Subscription → Subscription
with_plan plan_id s = record s { plan_id = plan_id; status = "ACTIVE" }

abbrev pub new_payment : ℕ → ℕ → String → ℕ → Payment
new_payment id subscription_id event_id amount = record {
  id = id;
  subscription_id = subscription_id;
  stripe_event_id = event_id;
  amount_cents = amount;
  status = "SUCCEEDED";
}

abbrev pub no_subscription : SubscriptionDetail
no_subscription = record { subscription = none; plan = none; payments = [] }

module _ ⦃p : Prisma⦄ where
  pub list_plans : Action (List Plan)
  list_plans = find_many_by plan (λ x. x.price_cents) λ _. true

  -- `subscriptionInclude`, of a subscription that is there.
  abbrev pub subscription_detail : Subscription → Action SubscriptionDetail
  subscription_detail s = do
    found ← find_first plan λ x. x.id == s.plan_id
    chosen ← or_throw row_missing found
    payments ← find_many payment λ x. x.subscription_id == s.id
    return (record { subscription = some s; plan = some chosen; payments = payments })

  abbrev pub to_detail : Option Subscription → Action SubscriptionDetail
  to_detail none = return no_subscription
  to_detail (some s) = subscription_detail s

  pub get_mine : Option ℕ → Action SubscriptionDetail
  get_mine org_id = do
    organization_id ← require_org_id org_id
    found ← find_first subscription λ s. s.organization_id == organization_id
    to_detail found

  -- `if (plan.priceCents > 0)`
  abbrev pub charge_if : Bool → Payment → Action (Unit {0})
  charge_if true row = create payment row >> return tt
  charge_if false row = return tt

  pub select_plan : ℕ → ℕ → String → Option ℕ → String → Action SubscriptionDetail
  select_plan new_id payment_id event_id org_id plan_key = do
    organization_id ← require_org_id org_id
    found ← find_first plan λ x. same_text x.key plan_key
    chosen ← or_throw row_missing found
    current ←
        upsert subscription (new_subscription new_id organization_id chosen.id)
          (λ s. s.organization_id == organization_id) (with_plan chosen.id)
    charge_if (ltb 0 chosen.price_cents)
        (new_payment payment_id current.id event_id chosen.price_cents)
    again ← find_first subscription λ s. s.id == current.id
    detail ← or_throw row_missing again
    subscription_detail detail
