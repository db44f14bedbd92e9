-- ===== src/Subscriptions/Plans.antt =====
-- The choice of a plan: one subscription for an organization, and a payment for a plan with a price.
use recruit_saas.Common.{
  ℕ, ◌≡◌, refl, ◌∙◌, inl, inr, Bool, true, false, String, some, List, ◌∷◌, ◌==◌, ==_iff, arith, any,
  any-ext, any-Has, modify, ltb, Has, All, if◌then◌else◌, same_text, eq_iff,
}
use recruit_saas.Schema.{Db, Plan, Subscription, Payment}
use recruit_saas.Prisma.{Prisma, ok}
use recruit_saas.Prisma.Keys.{
  UniqueBy, UniqueBy-modify, Has-modify, find_first-cases, find_first-key, find_first-only,
}
use recruit_saas.Tables.{subscription_clash, payment_clash}
use recruit_saas.Subscriptions.{
  SubscriptionDetail, new_subscription, with_plan, new_payment, charge_if, select_plan,
}

-- What the database holds after a choice: the subscription is the organization's, for the plan, and there
-- is one payment more, of the price, if there is a price.
pub record IsChosen (before after : Db) (org payment_id : ℕ) (event_id : String) (chosen : Plan)
    (s : Subscription) : Type 0 where
  pub of_organization : s.organization_id ≡ org
  pub of_plan : s.plan_id ≡ chosen.id
  pub held : Has s after.subscriptions
  pub charged : after.payments ≡ (
      if ltb 0 chosen.price_cents
      then new_payment payment_id s.id event_id chosen.price_cents ∷ before.payments
      else before.payments)

abbrev with_subscriptions : List Subscription → Db → Db
with_subscriptions rows db = record db { subscriptions = rows }

abbrev charged_payments : Bool → Payment → List Payment → List Payment
charged_payments paid row t = if paid then row ∷ t else t

module _ ⦃p : Prisma⦄ where
  charge_if_lem :
      (paid : Bool) (row : Payment) (db : Db)
      → any (λ x. same_text row.stripe_event_id x.stripe_event_id) db.payments ≡ false
      → charge_if paid row db
        ≡ (ok tt, record db { payments = charged_payments paid row db.payments })
  charge_if_lem true row db fresh = rw (p.create-eq payment_clash row db.payments, fresh) refl
  charge_if_lem false row db fresh = refl

  -- The rows of the organization before and after: it keeps its one subscription, or gets one.
  abbrev pub upserted_subscriptions : ℕ → ℕ → Plan → Db → List Subscription
  upserted_subscriptions new_id org chosen db =
      if any (λ s. s.organization_id == org) db.subscriptions
      then modify (λ s. s.organization_id == org) (with_plan chosen.id) db.subscriptions
      else new_subscription new_id org chosen.id ∷ db.subscriptions

  -- Choosing a plan that exists succeeds: the answer shows the organization's subscription and the plan,
  -- the subscription is changed in place where the organization has one and added where it has none, and
  -- a payment of the price is recorded exactly when the plan has a price. Nothing else changes. The ids
  -- of plans and of subscriptions are distinct, no other plan has the key, and the new ids of the
  -- subscription and of the payment's event are not in use.
  pub select_plan_sound :
      (new_id payment_id : ℕ) (event_id : String) (org : ℕ) (chosen : Plan) (db : Db)
      → UniqueBy (λ (x : Plan). x.id) db.plans
      → UniqueBy (λ (s : Subscription). s.id) db.subscriptions
      → All (λ (s : Subscription). s.id ≡ new_id → ⊥) db.subscriptions
      → any (λ x. same_text event_id x.stripe_event_id) db.payments ≡ false
      → Has chosen db.plans
      → ((x : Plan) → Has x db.plans → same_text x.key chosen.key ≡ true → x ≡ chosen)
      → let after = (select_plan new_id payment_id event_id (some org) chosen.key db).1 in
        (s : Subscription) × (d : SubscriptionDetail) × (((select_plan new_id payment_id event_id
              (some org)
              chosen.key
              db).0
            ≡ ok d)
          × (d.subscription ≡ some s)
          × (d.plan ≡ some chosen)
          × IsChosen db after org payment_id event_id chosen s
          × (after ≡ record db {
            subscriptions = upserted_subscriptions new_id org chosen db;
            payments = after.payments;
          }))
  unfolding select_plan
  select_plan_sound new_id payment_id event_id org chosen db plans subscriptions fresh unpaid listed
        only =
      let own = λ (s : Subscription). s.organization_id == org in
      let change = with_plan chosen.id in
      let found =
        find_first-only (λ (x : Plan). same_text x.key chosen.key) chosen db.plans listed
          ((eq_iff chosen.key chosen.key).1 refl) only in
      let again =
        find_first-key (λ (x : Plan). x.id) (λ x. x.id == chosen.id) chosen db.plans plans listed
          ((==_iff chosen.id chosen.id).1 refl) (λ x. (==_iff x.id chosen.id).0) in
      elim (find_first-cases own db.subscriptions) [
        | inl (missing, nothing) ↦
            let s = new_subscription new_id org chosen.id in
            let rows = s ∷ db.subscriptions in
            let free : any (subscription_clash s) db.subscriptions ≡ false =
              any-ext _ own db.subscriptions (λ x. ground arith) ∙ nothing in
            let charge =
              charge_if_lem (ltb 0 chosen.price_cents)
                (new_payment payment_id new_id event_id chosen.price_cents)
                (with_subscriptions rows db) unpaid in
            let shown =
              find_first-key (λ (x : Subscription). x.id) (λ x. x.id == new_id) s rows
                (fresh, subscriptions) (inl refl) ((==_iff new_id new_id).1 refl)
                (λ x. (==_iff x.id new_id).0) in
            (
              s,
              record {
                subscription = some s;
                plan = some chosen;
                payments =
                    p.find_many (λ x. x.subscription_id == new_id)
                      (charged_payments (ltb 0 chosen.price_cents)
                        (new_payment payment_id new_id event_id chosen.price_cents) db.payments);
              },
              rw
                  (
                    found,
                    missing,
                    p.create-eq subscription_clash s db.subscriptions,
                    free,
                    charge,
                    shown,
                    again,
                    nothing,
                  )
                  (
                    refl,
                    refl,
                    refl,
                    record {
                      of_organization = refl;
                      of_plan = refl;
                      held = inl refl;
                      charged = refl;
                    },
                    refl,
                  ),
            )
        | inr (s0, there, met, has) ↦
            let s = change s0 in
            let rows = modify own change db.subscriptions in
            let updated = p.update-eq own change db.subscriptions in
            let charge =
              charge_if_lem (ltb 0 chosen.price_cents)
                (new_payment payment_id s.id event_id chosen.price_cents)
                (with_subscriptions rows db) unpaid in
            let in_rows = Has-modify own change s0 db.subscriptions has met in
            let shown =
              find_first-key (λ (x : Subscription). x.id) (λ x. x.id == s.id) s rows
                (UniqueBy-modify (λ x. x.id) own change (λ x. refl) db.subscriptions subscriptions)
                in_rows ((==_iff s.id s.id).1 refl) (λ x. (==_iff x.id s.id).0) in
            let some_own = any-Has own s0 db.subscriptions has met in
            (
              s,
              record {
                subscription = some s;
                plan = some chosen;
                payments =
                    p.find_many (λ x. x.subscription_id == s.id)
                      (charged_payments (ltb 0 chosen.price_cents)
                        (new_payment payment_id s.id event_id chosen.price_cents) db.payments);
              },
              rw (found, there, updated, there, charge, shown, again, some_own)
                  (
                    refl,
                    refl,
                    refl,
                    record {
                      of_organization = ground arith;
                      of_plan = refl;
                      held = in_rows;
                      charged = refl;
                    },
                    refl,
                  ),
            )
      ]
