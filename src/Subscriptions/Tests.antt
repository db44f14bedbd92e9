-- ===== src/Subscriptions/Tests.antt =====
-- Instances of the theorems about subscriptions.
use recruit_saas.Common.{◌≡◌, refl, inl, inr, some, [], ◌∷◌, Has, same_text, true}
use recruit_saas.Schema.{Db, Plan, Subscription}
use recruit_saas.Prisma.{ok}
use recruit_saas.Memory.{in_memory}
use recruit_saas.Sample.{sample}
use recruit_saas.Subscriptions.{SubscriptionDetail, select_plan}
use recruit_saas.Subscriptions.Plans.{IsChosen, upserted_subscriptions, select_plan_sound}

abbrev starter : Plan
starter = record {
  id = 2;
  key = "STARTER";
  name = "Starter";
  max_active_jobs = some 5;
  max_seats = some 3;
  price_cents = 4900;
}

abbrev planned : Db
planned = record sample { plans = starter ∷ [] }

only_starter : (x : Plan) → Has x planned.plans → same_text x.key "STARTER" ≡ true → x ≡ starter
only_starter x (inl e) same = e
only_starter x (inr nowhere) same = absurd nowhere

select_plan_sound_example :
    let after = (select_plan 80 81 "stub_1" (some 1) "STARTER" planned).1 in
    (s : Subscription) × (d : SubscriptionDetail) × (((select_plan 80 81 "stub_1"
          (some 1)
          "STARTER"
          planned).0
        ≡ ok d)
      × (d.subscription ≡ some s)
      × (d.plan ≡ some starter)
      × IsChosen planned after 1 81 "stub_1" starter s
      × (after ≡ record planned {
        subscriptions = upserted_subscriptions 80 1 starter planned;
        payments = after.payments;
      }))
select_plan_sound_example =
    select_plan_sound 80 81 "stub_1" 1 starter planned (tt, tt) tt tt refl (inl refl) only_starter
