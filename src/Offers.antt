-- ===== src/Offers.antt =====
-- backend/src/offers/offers.service.ts, OffersService. `now` is the time of the call, and the id of a
-- new row is an argument.
pub mod Lifecycle
mod Tests
use recruit_saas.Common.{
  ℕ, String, Bool, true, false, Option, none, some, List, [], ◌∷◌, not, ◌==◌, ◌&&◌, leb, ltb,
}
use recruit_saas.Schema.{
  Db, Application, Offer, OfferStatus, application_hired, offer_sent, same_offer_status,
}
use recruit_saas.Prisma.{
  Prisma, Action, ◌>>=◌, ◌>>◌, return, or_throw, throw_if, bad_request, not_found, conflict,
  on_unique_violation, find_first, create, update,
}
use recruit_saas.Tables.{offer}
use recruit_saas.Requests.{require_org_id, Page, Listing, any_order, list_page}
use recruit_saas.Applications

-- CreateOfferDto
pub record CreateOffer : Type 0 where
  pub title : String
  pub compensation : Option String
  pub start_date : Option ℕ
  pub expires_at : ℕ

-- RespondOfferDto
pub data OfferDecision : Type 0 where
  accept decline : OfferDecision

abbrev pub new_offer : ℕ → ℕ → ℕ → CreateOffer → Offer
new_offer id application_id organization_id dto = record {
  id = id;
  application_id = application_id;
  organization_id = organization_id;
  title = dto.title;
  compensation = dto.compensation;
  start_date = dto.start_date;
  expires_at = dto.expires_at;
  status = OfferStatus.sent;
  responded_at = none;
}

abbrev pub answered : OfferDecision → OfferStatus
answered OfferDecision.accept = OfferStatus.accepted
answered OfferDecision.decline = OfferStatus.declined

abbrev pub as_answered : ℕ → OfferDecision → Offer → Offer
as_answered now decision o = record o { status = answered decision; responded_at = some now }

abbrev pub as_expired : Offer → Offer
as_expired o = record o { status = OfferStatus.expired }

-- A SENT offer past its window.
abbrev pub is_overdue : ℕ → Offer → Bool
is_overdue now o = offer_sent o.status && ltb o.expires_at now

-- The conditions of queries that a missing value leaves out.
abbrev pub of_organization : Option ℕ → Offer → Bool
of_organization none o = true
of_organization (some org) o = o.organization_id == org

abbrev pub of_status : Option OfferStatus → Offer → Bool
of_status none o = true
of_status (some s) o = same_offer_status o.status s

module _ ⦃p : Prisma⦄ where
  pub create_offer : ℕ → ℕ → Option ℕ → ℕ → ℕ → CreateOffer → Action Offer
  create_offer id now org_id job_id application_id dto = do
    organization_id ← require_org_id org_id
    application ← Applications.get_for_job (some organization_id) job_id application_id
    throw_if (not (application_hired application.status)) conflict
    throw_if (leb dto.expires_at now) bad_request
    on_unique_violation conflict (create offer (new_offer id application_id organization_id dto))

  unfoldable pub expire_if : Bool → Offer → Action Offer
  expire_if true o = update offer (λ x. x.id == o.id) as_expired
  expire_if false o = return o

  unfoldable pub expire_if_needed : ℕ → Offer → Action Offer
  unfolding expire_if
  expire_if_needed now o = expire_if (is_overdue now o) o

  unfoldable pub require_offer_for_application : ℕ → Option ℕ → Action Offer
  require_offer_for_application application_id organization_id = do
    found ←
        find_first offer
          λ o. o.application_id == application_id && of_organization organization_id o
    or_throw not_found found

  -- The rows of a page, one after the other.
  unfoldable pub expire_all : ℕ → List Offer → Action (List Offer)
  expire_all now [] = return []
  expire_all now (o ∷ offers) = do
    current ← expire_if_needed now o
    others ← expire_all now offers
    return (current ∷ others)

  pub list_for_org : ℕ → Option ℕ → Option OfferStatus → Page → Action (Listing Offer)
  list_for_org now org_id status query = do
    organization_id ← require_org_id org_id
    found ←
        list_page offer any_order (λ o. o.organization_id == organization_id && of_status status o)
          query
    current ← expire_all now found.rows
    return (record { rows = current; total = found.total })

  unfoldable pub get_for_job : ℕ → Option ℕ → ℕ → ℕ → Action Offer
  get_for_job now org_id job_id application_id = do
    organization_id ← require_org_id org_id
    Applications.get_for_job (some organization_id) job_id application_id
    found ← require_offer_for_application application_id (some organization_id)
    expire_if_needed now found

  unfoldable pub get_mine : ℕ → ℕ → ℕ → Action Offer
  get_mine now candidate_id application_id = do
    Applications.get_mine candidate_id application_id
    found ← require_offer_for_application application_id none
    expire_if_needed now found

  unfoldable pub respond : ℕ → ℕ → ℕ → OfferDecision → Action Offer
  respond now candidate_id application_id decision = do
    Applications.get_mine candidate_id application_id
    found ← require_offer_for_application application_id none
    current ← expire_if_needed now found
    throw_if (not (offer_sent current.status)) conflict
    update offer (λ o. o.id == current.id) (as_answered now decision)
