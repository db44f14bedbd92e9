-- ===== src/Guards/Tests.antt =====
-- Instances of the theorems about the guards.
use recruit_saas.Common.{◌≡◌, refl, none, some, true, false, [], ◌∷◌}
use recruit_saas.Schema.{Db, User, Role, RolePermission}
use recruit_saas.Prisma.{ok}
use recruit_saas.Memory.{in_memory}
use recruit_saas.Sample.{sample}
use recruit_saas.Auth.{AccessTokenPayload}
use recruit_saas.Guards.{
  RequiredPermission, TenantModel, RequireTenantOptions, Route, Request, check_tenant,
}
use recruit_saas.Guards.Access.{check_tenant_lem}

abbrev payload : AccessTokenPayload
payload = record { sub = 5; org_id = some 1; roles = "RECRUITER" ∷ []; is_super_admin = false }

abbrev options : RequireTenantOptions
options = record { model = TenantModel.job_model; param = none }

abbrev reads : RequiredPermission
reads = record { permission = "job:read"; re_verify = false }

abbrev route : Route
route = record {
  is_public = false;
  required_permission = some reads;
  require_tenant = some options;
  org_scoped = false;
}

abbrev request : Request
request = record { authorization = none; params = λ name. some 10; user = some payload }

abbrev recruiter : Role
recruiter = record { id = 8; key = "RECRUITER"; is_platform_role = false }

abbrev granted : RolePermission
granted = record { role_id = 8; permission_id = 4 }

abbrev ada : User
ada = record {
  id = 5;
  email = "ada@example.org";
  password_hash = "secret";
  full_name = "Ada";
  email_verified = true;
  is_super_admin = false;
}

abbrev db : Db
db = record sample {
  users = ada ∷ [];
  roles = recruiter ∷ [];
  permissions = record { id = 4; key = "job:read" } ∷ [];
  role_permissions = granted ∷ [];
}

check_tenant_lem_example : check_tenant route request db ≡ (ok tt, db)
check_tenant_lem_example =
    (check_tenant_lem route request options payload 10 db refl refl refl).1 1 refl refl
