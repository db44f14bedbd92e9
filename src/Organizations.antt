-- ===== src/Organizations.antt =====
-- backend/src/organizations/organizations.service.ts, OrganizationsService. The time of a call, the
-- drawn token, its lifetime and the ids of new rows are arguments, as in Auth.
pub mod Approval
pub mod Members
pub mod Race
pub mod Invitations
mod Tests
use recruit_saas.Common.{
  ℕ, ◌+◌, String, Bool, true, false, Option, none, some, List, [], ◌∷◌, not, ◌==◌, ◌&&◌, ◌||◌, leb,
  ltb, any, map, ◌++◌, is_empty, is_some, same_text, if◌then◌else◌, length,
}
use recruit_saas.Schema.{
  Db, User, Role, Organization, OrganizationStatus, UserOrganizationRole, Invitation, AuditLog,
  organization_active, organization_pending, same_organization_status,
}
use recruit_saas.Prisma.{
  Prisma, Action, ◌>>=◌, ◌>>◌, return, throw, or_throw, throw_if, bad_request, not_found, conflict,
  row_missing, transaction, related, find_first, find_many, count_rows, create, update, update_many,
  delete, delete_many,
}
use recruit_saas.Tables.{user, role, organization, user_organization_role, invitation, audit_log}
use recruit_saas.Requests.{Page, Listing, any_order, list_page}
use recruit_saas.Auth.{Crypto, Draw, Register, create_user_account, role_key, role_keys}

-- RegisterOrganizationDto
pub record RegisterOrganization : Type 0 where
  pub organization_name : String
  pub owner : Register

-- CreateInvitationDto
pub record CreateInvitation : Type 0 where
  pub email : String
  pub role_key : String

-- AcceptInvitationDto
pub record AcceptInvitation : Type 0 where
  pub full_name : Option String
  pub password : Option String

-- A row of the answer of `listMembers`.
pub record Member : Type 0 where
  pub id : ℕ
  pub full_name : String
  pub email : String
  pub roles : List String

abbrev pub new_organization : ℕ → String → Organization
new_organization id name = record {
  id = id;
  name = name;
  status = OrganizationStatus.pending_approval;
  approved_at = none;
  rejected_reason = none;
}

abbrev pub new_membership : ℕ → ℕ → ℕ → ℕ → UserOrganizationRole
new_membership id user_id organization_id role_id = record {
  id = id;
  user_id = user_id;
  organization_id = organization_id;
  role_id = role_id;
}

abbrev pub new_invitation : Crypto → Draw → ℕ → String → ℕ → Invitation
new_invitation c d organization_id email role_id = record {
  id = d.row_id;
  organization_id = organization_id;
  email = email;
  role_id = role_id;
  token_hash = c.hash_opaque_token d.token;
  expires_at = d.now + d.ttl;
  accepted_at = none;
}

abbrev pub as_approved : ℕ → Organization → Organization
as_approved now o = record o { status = OrganizationStatus.active; approved_at = some now }

abbrev pub as_rejected : String → Organization → Organization
as_rejected reason o = record o {
  status = OrganizationStatus.rejected;
  rejected_reason = some reason;
}

abbrev pub as_accepted : ℕ → Invitation → Invitation
as_accepted now i = record i { accepted_at = some now }

abbrev pub approval_entry : ℕ → ℕ → AuditLog
approval_entry id actor_id = record {
  actor_id = some actor_id;
  organization_id = some id;
  action = "organization.approved";
  target_type = "Organization";
  target_id = id;
  reason = none;
  source = none;
}

abbrev pub org_rejection_entry : ℕ → ℕ → String → AuditLog
org_rejection_entry id actor_id reason = record {
  actor_id = some actor_id;
  organization_id = some id;
  action = "organization.rejected";
  target_type = "Organization";
  target_id = id;
  reason = some reason;
  source = none;
}

-- NON_INVITABLE_ROLE_KEYS, and platform roles.
abbrev pub non_invitable : Role → Bool
non_invitable r = r.is_platform_role || same_text r.key "CANDIDATE" || same_text r.key "SUPER_ADMIN"

-- The three columns of the unique key of a membership.
abbrev pub is_membership : ℕ → ℕ → ℕ → UserOrganizationRole → Bool
is_membership user_id organization_id role_id m =
    m.user_id == user_id && m.organization_id == organization_id && m.role_id == role_id

-- Pending: not accepted, and not expired.
abbrev pub is_pending : ℕ → ℕ → Invitation → Bool
is_pending now organization_id i =
    i.organization_id == organization_id && not (is_some i.accepted_at) && ltb now i.expires_at

abbrev pub is_owner : List Role → UserOrganizationRole → Bool
is_owner roles m = same_text (role_key roles m.role_id) "COMPANY_OWNER"

abbrev pub of_org_status : Option OrganizationStatus → Organization → Bool
of_org_status none o = true
of_org_status (some s) o = same_organization_status o.status s

-- One turn of the loop of `listMembers`, over the map from users to members in the order of insertion.
abbrev pub add_role : User → String → List Member → List Member
add_role u key [] =
    record { id = u.id; full_name = u.full_name; email = u.email; roles = key ∷ [] } ∷ []
add_role u key (m ∷ members) =
    if m.id == u.id
    then record m { roles = m.roles ++ (key ∷ []) } ∷ members
    else m ∷ add_role u key members

module _ ⦃p : Prisma⦄ (c : Crypto) where
  -- The body of the transaction.
  pub register_steps : Draw → ℕ → ℕ → RegisterOrganization → Action (Organization × User)
  register_steps d organization_id membership_id dto = do
    owner ← create_user_account c d dto.owner false
    org ← create organization (new_organization organization_id dto.organization_name)
    found ← find_first role λ r. same_text r.key "COMPANY_OWNER"
    owner_role ← or_throw row_missing found
    create user_organization_role (new_membership membership_id owner.id org.id owner_role.id)
    return (org, owner)

  pub register_organization : Draw → ℕ → ℕ → RegisterOrganization → Action (Organization × User)
  register_organization d organization_id membership_id dto =
      transaction (register_steps d organization_id membership_id dto)

module _ ⦃p : Prisma⦄ where
  pub require_pending_organization : ℕ → Action Organization
  require_pending_organization id = do
    found ← find_first organization λ o. o.id == id
    org ← or_throw not_found found
    throw_if (not (organization_pending org.status)) conflict
    return org

  pub approve : ℕ → ℕ → ℕ → Action Organization
  approve now id actor_id = transaction do
    require_pending_organization id
    updated ← update organization (λ o. o.id == id) (as_approved now)
    create audit_log (approval_entry id actor_id)
    return updated

  pub reject_org : ℕ → ℕ → String → Action Organization
  reject_org id actor_id reason = transaction do
    require_pending_organization id
    updated ← update organization (λ o. o.id == id) (as_rejected reason)
    create audit_log (org_rejection_entry id actor_id reason)
    return updated

  pub list_organizations : Option OrganizationStatus → Page → Action (Listing Organization)
  list_organizations status query = list_page organization any_order (of_org_status status) query

  pub require_own_organization : Option ℕ → Action Organization
  require_own_organization none = throw not_found
  require_own_organization (some org_id) = do
    found ← find_first organization λ o. o.id == org_id
    or_throw not_found found

  pub get_own_organization : Option ℕ → Action Organization
  get_own_organization org_id = require_own_organization org_id

  -- The loop of `listMembers`; the relations of a row are required ones.
  pub collect : List UserOrganizationRole → List Member → Action (List Member)
  collect [] members = return members
  collect (m ∷ memberships) members = do
    db ← related
    found ← find_first user λ u. u.id == m.user_id
    u ← or_throw row_missing found
    collect memberships (add_role u (role_key db.roles m.role_id) members)

  pub list_members : Option ℕ → Action (List Member)
  list_members org_id = do
    org ← require_own_organization org_id
    memberships ← find_many user_organization_role λ m. m.organization_id == org.id
    collect memberships []

  pub update_own : Option ℕ → String → Action Organization
  update_own org_id name = do
    org ← require_own_organization org_id
    throw_if (not (organization_active org.status)) conflict
    update organization (λ o. o.id == org.id) λ o. record o { name = name }

  pub refuse_role_held : Option User → ℕ → ℕ → Action (Unit {0})
  refuse_role_held none organization_id role_id = return tt
  refuse_role_held (some u) organization_id role_id = do
    already_has_role ←
        find_first user_organization_role (is_membership u.id organization_id role_id)
    throw_if (is_some already_has_role) conflict

  pub list_pending_invitations : ℕ → Option ℕ → Action (List Invitation)
  list_pending_invitations now org_id = do
    org ← require_own_organization org_id
    find_many invitation (is_pending now org.id)

  pub cancel_invitation : ℕ → Option ℕ → ℕ → Action (Unit {0})
  cancel_invitation now org_id invitation_id = do
    org ← require_own_organization org_id
    found ← find_first invitation λ i. i.id == invitation_id && is_pending now org.id i
    row ← or_throw not_found found
    delete invitation (λ _ _. false) (λ i. i.id == row.id)
    return tt

  -- The test of the last owner, where the member is one.
  pub keep_an_owner : Bool → ℕ → Action (Unit {0})
  keep_an_owner false organization_id = return tt
  keep_an_owner true organization_id = do
    db ← related
    owner_count ←
        count_rows user_organization_role
          λ m. m.organization_id == organization_id && is_owner db.roles m
    throw_if (leb owner_count 1) conflict

  -- The checks of `removeMember`, before it deletes: two requests may interleave between them.
  pub removable_member : Option ℕ → ℕ → ℕ → Action Organization
  removable_member org_id actor_id target_user_id = do
    org ← require_own_organization org_id
    throw_if (target_user_id == actor_id) conflict
    db ← related
    memberships ←
        find_many user_organization_role
          λ m. m.organization_id == org.id && m.user_id == target_user_id
    throw_if (is_empty memberships) not_found
    keep_an_owner (any (is_owner db.roles) memberships) org.id
    return org

  pub delete_memberships : ℕ → ℕ → Action (Unit {0})
  delete_memberships organization_id target_user_id = do
    delete_many user_organization_role
        λ m. m.organization_id == organization_id && m.user_id == target_user_id
    return tt

  pub remove_member : Option ℕ → ℕ → ℕ → Action (Unit {0})
  remove_member org_id actor_id target_user_id = do
    org ← removable_member org_id actor_id target_user_id
    delete_memberships org.id target_user_id

module _ ⦃p : Prisma⦄ (c : Crypto) where
  pub invite_staff : Draw → Option ℕ → CreateInvitation → Action Invitation
  invite_staff d org_id dto = do
    org ← require_own_organization org_id
    throw_if (not (organization_active org.status)) conflict
    found ← find_first role λ r. same_text r.key dto.role_key
    invited ← or_throw bad_request found
    throw_if (non_invitable invited) bad_request
    existing_user ← find_first user λ u. same_text u.email dto.email
    refuse_role_held existing_user org.id invited.id
    pending ←
        find_first invitation
          λ i. is_pending d.now org.id i && same_text i.email dto.email && i.role_id == invited.id
    throw_if (is_some pending) conflict
    create invitation (new_invitation c d org.id dto.email invited.id)

  -- The invitation that a raw token names, before it is claimed.
  pub valid_invitation : ℕ → String → Action Invitation
  valid_invitation now raw_token = do
    found ← find_first invitation λ i. same_text i.token_hash (c.hash_opaque_token raw_token)
    row ← or_throw bad_request found
    throw_if (is_some row.accepted_at || ltb row.expires_at now) bad_request
    return row

  -- The guarded update, which accepts only once.
  pub claim_invitation : ℕ → Invitation → Action (Unit {0})
  claim_invitation now row = do
    count ←
        update_many invitation (λ i. i.id == row.id && not (is_some i.accepted_at))
          (as_accepted now)
    throw_if (count == 0) bad_request

  -- `!dto.fullName || !dto.password`, where an empty text counts as missing.
  pub invited_account : Draw → String → Option String → Option String → Action User
  invited_account d email none password = throw bad_request
  invited_account d email (some full_name) none = throw bad_request
  invited_account d email (some full_name) (some password) = do
    throw_if (same_text full_name "" || same_text password "") bad_request
    create_user_account c d (record { email = email; password = password; full_name = full_name })
        true

  pub user_of_invitation : Draw → Invitation → AcceptInvitation → Option User → Action User
  user_of_invitation d row dto (some u) = return u
  user_of_invitation d row dto none = invited_account d row.email dto.full_name dto.password

  pub add_membership : ℕ → ℕ → Invitation → Option UserOrganizationRole → Action (Unit {0})
  add_membership membership_id user_id row (some already) = return tt
  add_membership membership_id user_id row none = do
    create user_organization_role
        (new_membership membership_id user_id row.organization_id row.role_id)
    return tt

  pub join : Draw → ℕ → Invitation → AcceptInvitation → Action Role
  join d membership_id row dto = transaction do
    claim_invitation d.now row
    found ← find_first role λ r. r.id == row.role_id
    granted ← or_throw row_missing found
    existing ← find_first user λ u. same_text u.email row.email
    u ← user_of_invitation d row dto existing
    already_member ←
        find_first user_organization_role (is_membership u.id row.organization_id row.role_id)
    add_membership membership_id u.id row already_member
    return granted

  pub accept_invitation : Draw → ℕ → String → AcceptInvitation → Action Role
  accept_invitation d membership_id raw_token dto = do
    row ← valid_invitation d.now raw_token
    join d membership_id row dto
