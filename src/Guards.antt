-- ===== src/Guards.antt =====
-- backend/src/auth/guards: JwtAuthGuard, PermissionsGuard and TenantGuard, in the order in which
-- backend/src/app.module.ts registers them. `verify` is the signature check of access tokens of
-- @nestjs/jwt; a request comes with its authorization header split at the spaces.
pub mod Access
mod Tests
use recruit_saas.Common.{
  ℕ, ◌==◌, String, Bool, true, false, Option, none, some, List, [], ◌∷◌, ◌++◌, not, ◌&&◌, ◌||◌, any,
  same_text, if◌then◌else◌, is_some,
}
use recruit_saas.Schema.{Db, Job, PipelineTemplate, TalentPool, Role, RolePermission, Permission}
use recruit_saas.Prisma.{
  Prisma, Action, ◌>>=◌, ◌>>◌, return, throw, or_throw, throw_if, unauthorized, forbidden,
  not_found, related, find_first, find_many,
}
use recruit_saas.Tables.{
  user, job, pipeline_template, talent_pool, user_organization_role, role_permission,
}
use recruit_saas.Auth.{AccessTokenPayload, role_keys}

-- RequiredPermission
pub record RequiredPermission : Type 0 where
  pub permission : String
  pub re_verify : Bool

-- The models that `@RequireTenant()` names.
pub data TenantModel : Type 0 where
  job_model pipeline_template_model talent_pool_model : TenantModel

-- RequireTenantOptions: the model, and the parameter of the path that holds the id.
pub record RequireTenantOptions : Type 0 where
  pub model : TenantModel
  pub param : Option String

abbrev pub param_name : Option String → String
param_name none = "id"
param_name (some name) = name

-- The decorators of a route, on its handler or its class.
pub record Route : Type 0 where
  pub is_public : Bool
  pub required_permission : Option RequiredPermission
  pub require_tenant : Option RequireTenantOptions
  pub org_scoped : Bool

pub record Request : Type 0 where
  pub authorization : Option (List String)
  pub params : String → Option ℕ
  pub user : Option AccessTokenPayload

abbrev pub extract_bearer_token : Option (List String) → Option String
extract_bearer_token none = none
extract_bearer_token (some []) = none
extract_bearer_token (some (kind ∷ [])) = none
extract_bearer_token (some (kind ∷ token ∷ _)) =
    if same_text kind "Bearer" then some token else none

-- `!token`
abbrev pub present : Option String → Option String
present none = none
present (some token) = if same_text token "" then none else some token

-- `isSuperAdmin` and `roles`
pub record Standing : Type 0 where
  pub is_super_admin : Bool
  pub roles : List String

abbrev pub claimed : AccessTokenPayload → Standing
claimed user = record { is_super_admin = user.is_super_admin; roles = user.roles }

abbrev pub has_tenant_scope : Route → Bool
has_tenant_scope route = is_some route.require_tenant || route.org_scoped

abbrev pub granted_keys : Route → Standing → List String
granted_keys route standing =
    standing.roles
    ++ ((if standing.is_super_admin then "SUPER_ADMIN" ∷ [] else [])
        ++ (if has_tenant_scope route then [] else "CANDIDATE" ∷ []))

-- The condition of the grant that is looked for: the role's key is one of the keys, and the permission's
-- key is the required one.
abbrev pub role_key_in : List String → Role → Bool
role_key_in keys r = any (λ k. same_text r.key k) keys

abbrev pub is_grant : Db → List String → String → RolePermission → Bool
is_grant db keys permission g =
    any (λ r. r.id == g.role_id && role_key_in keys r) db.roles
    && any (λ q. q.id == g.permission_id && same_text q.key permission) db.permissions

abbrev pub owner_of : {R : Type 0} → (R → ℕ) → Option R → Option ℕ
owner_of organization_id none = none
owner_of organization_id (some r) = some (organization_id r)

abbrev pub is_own_org : Option ℕ → ℕ → Bool
is_own_org none org = false
is_own_org (some own) org = org == own

module _ ⦃p : Prisma⦄ (verify : String → Option AccessTokenPayload) where
  pub authenticate : Route → Request → Action Request
  authenticate route request = if route.is_public then return request else do
    token ← or_throw unauthorized (present (extract_bearer_token request.authorization))
    payload ← or_throw unauthorized (verify token)
    return (record request { user = some payload })

module _ ⦃p : Prisma⦄ where
  memberships_of : Bool → ℕ → Option ℕ → Action Standing
  memberships_of super_admin user_id none =
      return (record { is_super_admin = super_admin; roles = [] })
  memberships_of super_admin user_id (some org) = do
    db ← related
    memberships ←
        find_many user_organization_role λ m. m.user_id == user_id && m.organization_id == org
    return (record { is_super_admin = super_admin; roles = role_keys db.roles memberships })

  pub re_verify_from_database : AccessTokenPayload → Action Standing
  unfolding memberships_of
  re_verify_from_database payload = do
    found ← find_first user λ u. u.id == payload.sub
    fresh_user ← or_throw unauthorized found
    memberships_of fresh_user.is_super_admin payload.sub payload.org_id

  unfoldable pub require_grant : Route → String → Standing → Action (Unit {0})
  require_grant route permission standing = do
    db ← related
    grant ← find_first role_permission (is_grant db (granted_keys route standing) permission)
    throw_if (not (is_some grant)) forbidden

  unfoldable pub standing_of : Bool → AccessTokenPayload → Action Standing
  standing_of true payload = re_verify_from_database payload
  standing_of false payload = return (claimed payload)

  unfoldable pub authorize_required :
      Route → Option RequiredPermission → Request → Action (Unit {0})
  unfolding standing_of
  authorize_required route none request = return tt
  authorize_required route (some required) request = do
    payload ← or_throw unauthorized request.user
    standing ← standing_of required.re_verify payload
    require_grant route required.permission standing

  -- PermissionsGuard.canActivate
  unfoldable pub authorize : Route → Request → Action (Unit {0})
  unfolding authorize_required
  authorize route request = authorize_required route route.required_permission request

  -- `delegate.findUnique`, which selects the organization.
  pub find_owner : TenantModel → ℕ → Action (Option ℕ)
  find_owner job_model id = do
    found ← find_first job λ j. j.id == id
    return (owner_of (λ j. j.organization_id) found)
  find_owner pipeline_template_model id = do
    found ← find_first pipeline_template λ t. t.id == id
    return (owner_of (λ t. t.organization_id) found)
  find_owner talent_pool_model id = do
    found ← find_first talent_pool λ t. t.id == id
    return (owner_of (λ t. t.organization_id) found)

  scope_to_tenant : Option RequireTenantOptions → Request → Action (Unit {0})
  scope_to_tenant none request = return tt
  scope_to_tenant (some options) request = do
    payload ← or_throw unauthorized request.user
    resource_id ← or_throw not_found (request.params (param_name options.param))
    found ← find_owner options.model resource_id
    owner ← or_throw not_found found
    throw_if (not (is_own_org payload.org_id owner)) not_found

  -- TenantGuard.canActivate
  pub check_tenant : Route → Request → Action (Unit {0})
  unfolding scope_to_tenant
  check_tenant route request = scope_to_tenant route.require_tenant request

module _ ⦃p : Prisma⦄ (verify : String → Option AccessTokenPayload) where
  -- The three guards before a handler.
  pub guarded : Route → Request → Action Request
  guarded route request = do
    known ← authenticate verify route request
    authorize route known
    check_tenant route known
    return known
