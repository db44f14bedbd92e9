-- ===== src/Offers/Tests.antt =====
-- Instances of the theorems about OffersService on the sample database.
use recruit_saas.Common.{◌<◌, ◌≤◌, ◌≡◌, ◌⊎◌, none, some, false, [], ◌∷◌, any, ◌==◌, Has}
use recruit_saas.Schema.{Db, Application, ApplicationStatus, Offer, OfferStatus}
use recruit_saas.Prisma.{Error, ok, err, conflict}
use recruit_saas.Memory.{in_memory}
use recruit_saas.Sample.{sample, ada_application}
use recruit_saas.Applications.{as_hired}
use recruit_saas.Offers.{
  CreateOffer, OfferDecision, new_offer, as_answered, as_expired, create_offer, respond,
}
use recruit_saas.Offers.Lifecycle.{IsOffered, with_offer, create_offer_sound, respond_sound}

abbrev terms : CreateOffer
terms = record { title = "Engineer"; compensation = none; start_date = none; expires_at = 90 }

abbrev made : Offer
made = new_offer 3 1000 1 terms

abbrev offered_sample : Db
offered_sample = record sample { applications = as_hired ada_application ∷ []; offers = made ∷ [] }

abbrev hired_sample : Db
hired_sample = record offered_sample { offers = [] }

create_offer_sound_example :
    ((e : Error) × (create_offer 3 40 (some 1) 10 1000 terms hired_sample ≡ (err e, hired_sample)))
    ⊎ ((a : Application) × Has a hired_sample.applications
        × (a.id ≡ 1000)
        × (a.job_id ≡ 10)
        × (a.organization_id ≡ 1)
        × (a.status ≡ ApplicationStatus.hired)
        × (40 < 90)
        × (any (λ o. 1000 == o.application_id) hired_sample.offers ≡ false)
        × (create_offer 3 40 (some 1) 10 1000 terms hired_sample ≡ (ok made, offered_sample)))
create_offer_sound_example = create_offer_sound 3 40 1 10 1000 terms hired_sample

respond_sound_example :
    ((e : Error) × (respond 50 5 1000 OfferDecision.accept offered_sample
        ≡ (err e, offered_sample)))
    ⊎ ((o : Offer) × IsOffered offered_sample 5 1000 o
        × (o.status ≡ OfferStatus.sent)
        × (((o.expires_at < 50)
              × (respond 50 5 1000 OfferDecision.accept offered_sample
                  ≡ (err conflict, with_offer o as_expired offered_sample)))
            ⊎ ((50 ≤ o.expires_at)
                × (respond 50 5 1000 OfferDecision.accept offered_sample ≡ (
                  ok (as_answered 50 OfferDecision.accept o),
                  with_offer o (as_answered 50 OfferDecision.accept) offered_sample,
                )))))
respond_sound_example = respond_sound 50 5 1000 OfferDecision.accept offered_sample (tt, tt)
