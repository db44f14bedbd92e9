-- ===== src/Auth.antt =====
-- backend/src/auth/auth.service.ts, AuthService. bcrypt, SHA-256, the random tokens and the signing of
-- access tokens are not part of the repository: `Crypto` is what the service relies on. The time, the
-- lifetimes of tokens, the ids of new rows and the drawn random tokens are arguments.
mod Tests
pub mod SingleUse
pub mod Resets
pub mod Sessions
use recruit_saas.Common.{
  ℕ, suc, ◌+◌, ◌≡◌, String, Bool, true, false, Option, none, some, List, [], ◌∷◌, not, ◌==◌, ◌&&◌,
  ◌||◌, ltb, map, filter, is_empty, same_text, if◌then◌else◌, is_some,
}
use recruit_saas.Schema.{
  Db, User, Role, UserOrganizationRole, RefreshToken, VerificationToken, VerificationTokenPurpose,
  same_purpose,
}
use recruit_saas.Prisma.{
  Prisma, Action, ◌>>=◌, ◌>>◌, return, throw, or_throw, throw_if, bad_request, unauthorized,
  not_found, conflict, row_missing, on_unique_violation, related, find_first, find_many, create,
  update, update_many,
}
use recruit_saas.Tables.{user, user_organization_role, refresh_token, verification_token}

-- bcrypt, and SHA-256 of an opaque token.
pub record Crypto : Type 0 where
  pub hash_password : String → String
  pub compare_password : String → String → Bool
  pub hash_opaque_token : String → String

-- AccessTokenPayload, less the two fields for display.
pub record AccessTokenPayload : Type 0 where
  pub sub : ℕ
  pub org_id : Option ℕ
  pub roles : List String
  pub is_super_admin : Bool

-- The access token, as the payload that is signed, and the refresh token.
pub record TokenPair : Type 0 where
  pub access_token : AccessTokenPayload
  pub refresh_token_text : String

-- What a request draws: ids of new rows, and a random token.
pub record Draw : Type 0 where
  pub now : ℕ
  pub user_id : ℕ
  pub row_id : ℕ
  pub token : String
  pub ttl : ℕ

-- RegisterDto
pub record Register : Type 0 where
  pub email : String
  pub password : String
  pub full_name : String

abbrev pub new_user : Crypto → ℕ → Register → Bool → User
new_user c id dto verified = record {
  id = id;
  email = dto.email;
  password_hash = c.hash_password dto.password;
  full_name = dto.full_name;
  email_verified = verified;
  is_super_admin = false;
}

abbrev pub new_verification_token : Crypto → Draw → ℕ → VerificationTokenPurpose → VerificationToken
new_verification_token c d user_id purpose = record {
  id = d.row_id;
  user_id = user_id;
  token_hash = c.hash_opaque_token d.token;
  purpose = purpose;
  expires_at = d.now + d.ttl;
  used_at = none;
}

abbrev pub new_refresh_token : Crypto → Draw → ℕ → RefreshToken
new_refresh_token c d user_id = record {
  id = d.row_id;
  user_id = user_id;
  token_hash = c.hash_opaque_token d.token;
  expires_at = d.now + d.ttl;
  revoked_at = none;
}

abbrev pub as_used : ℕ → VerificationToken → VerificationToken
as_used now t = record t { used_at = some now }

abbrev pub as_revoked : ℕ → RefreshToken → RefreshToken
as_revoked now t = record t { revoked_at = some now }

abbrev pub is_live_for_user : ℕ → RefreshToken → Bool
is_live_for_user user_id t = t.user_id == user_id && not (is_some t.revoked_at)

-- `new Set(ids)`, in the order of first insertion.
abbrev pub distinct : List ℕ → List ℕ
distinct [] = []
distinct (x ∷ xs) = x ∷ filter (λ y. not (y == x)) (distinct xs)

-- The organizations and the keys of roles of membership rows.
abbrev pub organization_ids : List UserOrganizationRole → List ℕ
organization_ids = map λ m. m.organization_id

-- `m.role.key`, through the required relation.
abbrev pub role_key : List Role → ℕ → String
role_key [] id = ""
role_key (r ∷ roles) id = if r.id == id then r.key else role_key roles id

abbrev pub role_keys : List Role → List UserOrganizationRole → List String
role_keys roles = map λ m. role_key roles m.role_id

-- The organization and roles that a token is scoped to.
pub record OrgContext : Type 0 where
  pub org_id : Option ℕ
  pub roles : List String

abbrev no_context : OrgContext
no_context = record { org_id = none; roles = [] }

-- `orgIds.length !== 1`
abbrev pub default_context : List Role → List UserOrganizationRole → List ℕ → OrgContext
default_context roles memberships [] = no_context
default_context roles memberships (org ∷ []) = record {
  org_id = some org;
  roles = role_keys roles (filter (λ m. m.organization_id == org) memberships);
}
default_context roles memberships (_ ∷ _ ∷ _) = no_context

abbrev pub payload_for : User → OrgContext → AccessTokenPayload
payload_for u context = record {
  sub = u.id;
  org_id = context.org_id;
  roles = context.roles;
  is_super_admin = u.is_super_admin;
}

module _ ⦃p : Prisma⦄ (c : Crypto) where
  -- The verification token of a new account, unless the address is verified already.
  unfoldable pub issue_verification : Draw → User → Bool → Action User
  issue_verification d u true = return u
  issue_verification d u false = do
    create verification_token
        (new_verification_token c d u.id VerificationTokenPurpose.email_verification)
    return u

  pub create_user_account : Draw → Register → Bool → Action User
  unfolding issue_verification
  create_user_account d dto email_pre_verified = do
    u ← on_unique_violation conflict (create user (new_user c d.user_id dto email_pre_verified))
    issue_verification d u email_pre_verified

  pub register : Draw → Register → Action User
  register d dto = create_user_account d dto false

  -- The token that `claimToken` looks for, before it is claimed.
  pub valid_token : ℕ → String → VerificationTokenPurpose → Action VerificationToken
  valid_token now raw_token purpose = do
    found ←
        find_first verification_token λ t. same_text t.token_hash (c.hash_opaque_token raw_token)
    token ← or_throw bad_request found
    throw_if
        (not (same_purpose token.purpose purpose)
          || is_some token.used_at
          || ltb token.expires_at now)
        bad_request
    return token

  -- The guarded update, which marks the token used only if no other request has.
  pub take_token : ℕ → VerificationToken → Action VerificationToken
  take_token now token = do
    count ←
        update_many verification_token (λ t. t.id == token.id && not (is_some t.used_at))
          (as_used now)
    throw_if (count == 0) bad_request
    return token

  pub claim_token : ℕ → String → VerificationTokenPurpose → Action VerificationToken
  claim_token now raw_token purpose = do
    token ← valid_token now raw_token purpose
    take_token now token

  pub verify_email : ℕ → String → Action User
  verify_email now raw_token = do
    token ← claim_token now raw_token VerificationTokenPurpose.email_verification
    update user (λ u. u.id == token.user_id) λ u. record u { email_verified = true }

  issue_reset : Draw → Option User → Action (Unit {0})
  issue_reset d none = return tt
  issue_reset d (some u) = do
    create verification_token
        (new_verification_token c d u.id VerificationTokenPurpose.password_reset)
    return tt

  pub forgot_password : Draw → String → Action (Unit {0})
  forgot_password d email = do
    found ← find_first user λ u. same_text u.email email
    issue_reset d found

  pub reset_password : ℕ → String → String → Action (Unit {0})
  reset_password now raw_token new_password = do
    token ← claim_token now raw_token VerificationTokenPurpose.password_reset
    update user (λ u. u.id == token.user_id)
        λ u. record u { password_hash = c.hash_password new_password }
    update_many refresh_token (is_live_for_user token.user_id) (as_revoked now)
    return tt

  unfoldable pub resolve_default_org_context : ℕ → Action OrgContext
  resolve_default_org_context user_id = do
    db ← related
    memberships ← find_many user_organization_role λ m. m.user_id == user_id
    return (default_context db.roles memberships (distinct (organization_ids memberships)))

  unfoldable pub issue_for : Draw → User → OrgContext → Action TokenPair
  issue_for d u context = do
    create refresh_token (new_refresh_token c d u.id)
    return (record { access_token = payload_for u context; refresh_token_text = d.token })

  -- `issueTokenPair` with no `orgContext`.
  unfoldable pub issue_token_pair : Draw → User → Action TokenPair
  unfolding resolve_default_org_context issue_for
  issue_token_pair d u = do context ← resolve_default_org_context u.id; issue_for d u context

  pub login : Draw → String → String → Action TokenPair
  login d email password = do
    found ← find_first user λ u. same_text u.email email
    u ← or_throw unauthorized found
    throw_if (not (c.compare_password password u.password_hash)) unauthorized
    issue_token_pair d u

  -- The token that `claimRefreshToken` looks for, before it is rotated.
  unfoldable pub valid_refresh_token : ℕ → String → Action RefreshToken
  valid_refresh_token now raw_token = do
    found ← find_first refresh_token λ t. same_text t.token_hash (c.hash_opaque_token raw_token)
    token ← or_throw unauthorized found
    throw_if (is_some token.revoked_at || ltb token.expires_at now) unauthorized
    return token

  -- The guarded update, which revokes the token only if no other request has.
  unfoldable pub rotate : ℕ → RefreshToken → Action (Unit {0})
  rotate now token = do
    count ←
        update_many refresh_token (λ t. t.id == token.id && not (is_some t.revoked_at))
          (as_revoked now)
    throw_if (count == 0) unauthorized

  unfoldable pub claim_refresh_token : ℕ → String → Action User
  claim_refresh_token now raw_token = do
    token ← valid_refresh_token now raw_token
    owner ← find_first user λ u. u.id == token.user_id
    u ← or_throw row_missing owner
    rotate now token
    return u

  pub refresh : Draw → String → Action TokenPair
  refresh d raw_token = do u ← claim_refresh_token d.now raw_token; issue_token_pair d u

  pub switch_org : Draw → String → ℕ → Action TokenPair
  switch_org d raw_refresh_token organization_id = do
    u ← claim_refresh_token d.now raw_refresh_token
    db ← related
    memberships ←
        find_many user_organization_role
          λ m. m.user_id == u.id && m.organization_id == organization_id
    throw_if (is_empty memberships) not_found
    issue_for d u (record { org_id = some organization_id; roles = role_keys db.roles memberships })

  pub logout : ℕ → Option String → Action (Unit {0})
  logout now none = return tt
  logout now (some raw_token) = do
    update_many refresh_token
        (λ t. same_text t.token_hash (c.hash_opaque_token raw_token) && not (is_some t.revoked_at))
        (as_revoked now)
    return tt
