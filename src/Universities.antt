-- ===== src/Universities.antt =====
-- backend/src/universities/universities.service.ts, UniversitiesService. Ids of new rows are arguments; the
-- orders by name and by start are left open, as the client's order of rows is.
pub mod Partnerships
use recruit_saas.Common.{ℕ, String, Option, List, [], ◌∷◌, Bool, true, ◌==◌, ◌&&◌}
use recruit_saas.Schema.{University, UniversityPartnership}
use recruit_saas.Prisma.{
  Prisma, Action, ◌>>=◌, ◌>>◌, return, or_throw, throw_if, not_found, conflict, unprocessable,
  row_missing, on_unique_violation, find_first, find_many, create as insert, delete_many,
}
use recruit_saas.Tables.{university, university_partnership}
use recruit_saas.Requests.{require_org_id}

pub record PartnershipDetail : Type 0 where
  pub id : ℕ
  pub university : University

module _ ⦃p : Prisma⦄ where
  pub list : Action (List University)
  list = find_many university λ _. true

  pub create : ℕ → String → Action University
  create new_id name =
      on_unique_violation conflict (insert university (record { id = new_id; name = name }))

  -- A partnership with its university, a required relation.
  abbrev pub to_partnership_detail : UniversityPartnership → Action PartnershipDetail
  to_partnership_detail x = do
    found ← find_first university λ u. u.id == x.university_id
    u ← or_throw row_missing found
    return (record { id = x.id; university = u })

  abbrev pub partnership_details : List UniversityPartnership → Action (List PartnershipDetail)
  partnership_details [] = return []
  partnership_details (x ∷ xs) = do
    detail ← to_partnership_detail x
    rest ← partnership_details xs
    return (detail ∷ rest)

  pub list_partnerships : Option ℕ → Action (List PartnershipDetail)
  list_partnerships org_id = do
    organization_id ← require_org_id org_id
    found ← find_many university_partnership λ x. x.organization_id == organization_id
    partnership_details found

  pub create_partnership : ℕ → Option ℕ → ℕ → Action PartnershipDetail
  create_partnership new_id org_id university_id = do
    organization_id ← require_org_id org_id
    found ← find_first university λ u. u.id == university_id
    or_throw unprocessable found
    row ← on_unique_violation conflict (
        insert university_partnership (record {
          id = new_id;
          organization_id = organization_id;
          university_id = university_id;
        }))
    to_partnership_detail row

  pub remove_partnership : Option ℕ → ℕ → Action (Unit {0})
  remove_partnership org_id university_id = do
    organization_id ← require_org_id org_id
    deleted ←
        delete_many university_partnership
          λ x. x.organization_id == organization_id && x.university_id == university_id
    throw_if (deleted == 0) not_found
