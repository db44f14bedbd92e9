-- ===== src/Offers/Lifecycle.antt =====
-- What calls of OffersService answer and write.
use recruit_saas.Common.{
  ℕ, ◌≤◌, ◌<◌, ◌≡◌, refl, ◌⊎◌, inl, inr, true, false, some, ◌∷◌, ◌==◌, ◌&&◌, leb, ltb, arith,
  ==_iff, any, any-Has, modify, Has, Bool-cases,
}
use recruit_saas.Schema.{
  Db, Application, Offer, ApplicationStatus, OfferStatus, application_hired, offer_sent,
}
use recruit_saas.Prisma.{Prisma, Error, ok, err, not_found, bad_request, conflict}
use recruit_saas.Prisma.Keys.{
  UniqueBy, UniqueBy-modify, Has-modify, find_first-cases, find_first-key, update-key,
}
use recruit_saas.Tables.{offer_clash}
use recruit_saas.Applications
use recruit_saas.Applications.{require_own_application, require_job_application}
use recruit_saas.Offers.{
  CreateOffer, OfferDecision, new_offer, answered, as_answered, as_expired, is_overdue,
  create_offer, expire_if, expire_if_needed, require_offer_for_application, get_mine, respond,
}

-- The table with one offer changed.
abbrev pub with_offer : Offer → (Offer → Offer) → Db → Db
with_offer o f db = record db { offers = modify (λ x. x.id == o.id) f db.offers }

-- An offer that a candidate may see: of an application of theirs.
pub record IsOffered (db : Db) (candidate_id application_id : ℕ) (o : Offer) : Type 0 where
  pub held : Has o db.offers
  pub of_application : o.application_id ≡ application_id
  pub own :
      (a : Application) × Has a db.applications
      × (a.id ≡ application_id)
      × (a.candidate_id ≡ candidate_id)

hired_of : (s : ApplicationStatus) → application_hired s ≡ true → s ≡ ApplicationStatus.hired
hired_of s e = ground arith

sent_of : (s : OfferStatus) → offer_sent s ≡ true → s ≡ OfferStatus.sent
sent_of s e = ground arith

closed_of : (d : OfferDecision) → offer_sent (answered d) ≡ false
closed_of OfferDecision.accept = refl
closed_of OfferDecision.decline = refl

module _ ⦃p : Prisma⦄ where
  -- Making an offer is refused and changes nothing; or the application is a hired one of the
  -- organization, the job is the one named, the window ends in the future, and no offer was made for
  -- the application before: then one SENT offer is added, and nothing else changes.
  pub create_offer_sound :
      (id now org job_id application_id : ℕ) (dto : CreateOffer) (db : Db)
      → ((e : Error) × (create_offer id now (some org) job_id application_id dto db ≡ (err e, db)))
        ⊎ ((a : Application) × Has a db.applications
            × (a.id ≡ application_id)
            × (a.job_id ≡ job_id)
            × (a.organization_id ≡ org)
            × (a.status ≡ ApplicationStatus.hired)
            × (now < dto.expires_at)
            × (any (λ o. application_id == o.application_id) db.offers ≡ false)
            × (create_offer id now (some org) job_id application_id dto db ≡ (
              ok (new_offer id application_id org dto),
              record db { offers = new_offer id application_id org dto ∷ db.offers },
            )))
  unfolding create_offer Applications.get_for_job require_job_application
  create_offer_sound id now org job_id application_id dto db =
      elim (find_first-cases
        (λ a. a.id == application_id && a.job_id == job_id && a.organization_id == org)
        db.applications) [
          | inl (e, _) ↦ inl (not_found, ground arith)
          | inr (a, e, met, has) ↦ elim (Bool-cases (application_hired a.status)) [
            | inr n ↦ inl (conflict, ground arith)
            | inl h ↦ elim (Bool-cases (leb dto.expires_at now)) [
              | inl late ↦ inl (bad_request, ground arith)
              | inr early ↦
                  elim (Bool-cases
                    (any (offer_clash (new_offer id application_id org dto)) db.offers)) [
                      | inl taken ↦ inl (
                        conflict,
                        ground (
                          arith,
                          p.create-eq offer_clash (new_offer id application_id org dto) db.offers,
                        ),
                      )
                      | inr free ↦ inr (
                        a,
                        has,
                        ground arith,
                        ground arith,
                        ground arith,
                        hired_of a.status h,
                        ground arith,
                        free,
                        ground (
                          arith,
                          p.create-eq offer_clash (new_offer id application_id org dto) db.offers,
                        ),
                      )
                    ]
            ]
          ]
        ]

  update_offer :
      (o : Offer) (f : Offer → Offer) (db : Db)
      → UniqueBy (λ (x : Offer). x.id) db.offers
      → Has o db.offers
      → p.update (λ x. x.id == o.id) f db.offers
        ≡ some (f o, modify (λ x. x.id == o.id) f db.offers)
  update_offer o f db u h = update-key (λ (x : Offer). x.id) f o db.offers u h

  -- An answer to an offer is refused and changes nothing; or the offer had been SENT and is past its
  -- window: it becomes EXPIRED, and the answer is refused; or it had been SENT, the window is open
  -- and it is for an application of the candidate: it becomes ACCEPTED or DECLINED, as asked, with
  -- the time of the answer, and nothing else changes. The ids of offers are distinct.
  pub respond_sound :
      (now candidate_id application_id : ℕ) (decision : OfferDecision) (db : Db)
      → UniqueBy (λ (o : Offer). o.id) db.offers
      → ((e : Error) × (respond now candidate_id application_id decision db ≡ (err e, db)))
        ⊎ ((o : Offer) × IsOffered db candidate_id application_id o
            × (o.status ≡ OfferStatus.sent)
            × (((o.expires_at < now)
                  × (respond now candidate_id application_id decision db
                      ≡ (err conflict, with_offer o as_expired db)))
                ⊎ ((now ≤ o.expires_at)
                    × (respond now candidate_id application_id decision db ≡ (
                      ok (as_answered now decision o),
                      with_offer o (as_answered now decision) db,
                    )))))
  unfolding respond Applications.get_mine require_own_application require_offer_for_application
      expire_if_needed expire_if
  respond_sound now candidate_id application_id decision db keyed =
      elim (find_first-cases (λ a. a.id == application_id && a.candidate_id == candidate_id)
        db.applications) [
          | inl (e, _) ↦ inl (not_found, ground arith)
          | inr (a, e, met, has) ↦
              elim (find_first-cases (λ o. o.application_id == application_id && true) db.offers) [
                | inl (f, _) ↦ inl (not_found, ground arith)
                | inr (o, f, ofa, hold) ↦ elim (Bool-cases (offer_sent o.status)) [
                  | inr n ↦ inl (conflict, ground arith)
                  | inl s ↦
                      let offered : IsOffered db candidate_id application_id o = record {
                        held = hold;
                        of_application = ground arith;
                        own = (a, has, ground arith, ground arith);
                      } in
                      inr (
                        o,
                        offered,
                        sent_of o.status s,
                        elim (Bool-cases (ltb o.expires_at now)) [
                          | inl late ↦ inl (
                            ground arith,
                            ground (arith, update_offer o as_expired db keyed hold),
                          )
                          | inr early ↦ inr (
                            ground arith,
                            ground (arith, update_offer o (as_answered now decision) db keyed hold),
                          )
                        ],
                      )
                ]
              ]
        ]

  -- An offer that is no longer SENT is answered by a conflict, and nothing changes.
  respond_closed :
      (now candidate_id application_id : ℕ) (decision : OfferDecision) (o : Offer) (db : Db)
      → UniqueBy (λ (x : Offer). x.application_id) db.offers
      → IsOffered db candidate_id application_id o
      → offer_sent o.status ≡ false
      → respond now candidate_id application_id decision db ≡ (err conflict, db)
  unfolding respond Applications.get_mine require_own_application require_offer_for_application
      expire_if_needed expire_if
  respond_closed now candidate_id application_id decision o db one offered closed =
      elim (find_first-cases (λ a. a.id == application_id && a.candidate_id == candidate_id)
        db.applications) [
          | inl (e, none_met) ↦
              let (a, has, id, mine) = offered.own in
              absurd (
                ground (
                  arith,
                  any-Has (λ a. a.id == application_id && a.candidate_id == candidate_id) a
                      db.applications has (ground arith),
                ))
          | inr (a, e, met, has) ↦ ground (
            arith,
            find_first-key (λ (x : Offer). x.application_id)
                (λ x. x.application_id == application_id && true) o db.offers one offered.held
                (ground arith) (λ x h. ground arith),
          )
        ]

  -- Every application has one offer at most. Once an offer was accepted or declined, every later
  -- answer to it is refused and changes nothing. The ids of offers are distinct.
  pub respond_once :
      (now later candidate_id application_id : ℕ) (decision again : OfferDecision) (o : Offer)
      (db db' : Db)
      → UniqueBy (λ (x : Offer). x.id) db.offers
      → UniqueBy (λ (x : Offer). x.application_id) db.offers
      → respond now candidate_id application_id decision db ≡ (ok o, db')
      → respond later candidate_id application_id again db' ≡ (err conflict, db')
  respond_once now later candidate_id application_id decision again o db db' keyed one accepted =
      elim (respond_sound now candidate_id application_id decision db keyed) [
        | inl (e, refused) ↦ absurd (ground arith)
        | inr (x, offered, sent, inl (late, e)) ↦ absurd (ground arith)
        | inr (x, offered, sent, inr (early, e)) ↦
            let same : db' ≡ with_offer x (as_answered now decision) db = ground arith in
            let offered' : IsOffered (with_offer x (as_answered now decision) db) candidate_id
                application_id (as_answered now decision x) =
              record {
                held =
                    Has-modify (λ (y : Offer). y.id == x.id) (as_answered now decision) x db.offers
                      offered.held ((==_iff x.id x.id).1 refl);
                of_application = offered.of_application;
                own = offered.own;
              } in
            rw same (
              respond_closed later candidate_id application_id again (as_answered now decision x)
                (with_offer x (as_answered now decision) db)
                (UniqueBy-modify (λ (y : Offer). y.application_id) (λ y. y.id == x.id)
                  (as_answered now decision) (λ y. refl) db.offers one)
                offered' (closed_of decision))
      ]

  -- No candidate reads an offer as SENT once its window has ended.
  pub get_mine_current :
      (now candidate_id application_id : ℕ) (o : Offer) (db : Db)
      → (get_mine now candidate_id application_id db).0 ≡ ok o
      → is_overdue now o ≡ false
  unfolding get_mine Applications.get_mine require_own_application require_offer_for_application
      expire_if_needed expire_if
  get_mine_current now candidate_id application_id o db read =
      elim (find_first-cases (λ a. a.id == application_id && a.candidate_id == candidate_id)
        db.applications) [
          | inl (e, _) ↦ absurd (ground arith)
          | inr (a, e, met, has) ↦
              elim (find_first-cases (λ o. o.application_id == application_id && true) db.offers) [
                | inl (f, _) ↦ absurd (ground arith)
                | inr (x, f, ofa, hold) ↦ elim (Bool-cases (is_overdue now x)) [
                  | inr fresh ↦ let same : o ≡ x = ground arith in rw same fresh
                  | inl late ↦ elim (find_first-cases (λ (y : Offer). y.id == x.id) db.offers) [
                    | inl (g, _) ↦ absurd (
                        ground
                          (arith, p.update-eq (λ (y : Offer). y.id == x.id) as_expired db.offers))
                    | inr (y, g, same_id, _) ↦
                        let same : o ≡ as_expired y =
                          ground (
                            arith,
                            p.update-eq (λ (y : Offer). y.id == x.id) as_expired db.offers,
                          ) in
                        rw same refl
                  ]
                ]
              ]
        ]
