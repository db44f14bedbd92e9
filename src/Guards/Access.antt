-- ===== src/Guards/Access.antt =====
-- Which requests the guards of backend/src/auth/guards let through to a handler.
use recruit_saas.Common.{
  count-none, ℕ, ◌≡◌, refl, sym, ap, subst, ◌⊎◌, inl, inr, ◌==◌, String, Bool, true, false, Option,
  none, some, List, [], ◌∷◌, ◌++◌, ◌&&◌, any, arith, same_text, eq_iff, Has, filter, map,
  Bool-cases, not-Has, Has-of_any, length,
}
use recruit_saas.Schema.{
  Db, User, Role, RolePermission, UserOrganizationRole, Job, PipelineTemplate, TalentPool,
}
use recruit_saas.Prisma.{Prisma, ok, err, unauthorized, forbidden, not_found}
use recruit_saas.Prisma.Keys.{find_first-cases, find_first-none, find_first-key, UniqueBy}
use recruit_saas.Auth.{AccessTokenPayload}
use recruit_saas.Guards.{
  RequiredPermission, TenantModel, RequireTenantOptions, Route, Request, claimed, has_tenant_scope,
  granted_keys, role_key_in, is_grant, is_own_org, extract_bearer_token, present, find_owner,
  owner_of, param_name, authenticate, require_grant, standing_of, memberships_of,
  re_verify_from_database, authorize_required, authorize, scope_to_tenant, check_tenant, guarded,
}

-- The organizations of the rows of a model that have an id.
abbrev pub owners : TenantModel → ℕ → Db → List ℕ
owners TenantModel.job_model id db =
    map (λ j. j.organization_id) (filter (λ (j : Job). j.id == id) db.jobs)
owners TenantModel.pipeline_template_model id db =
    map (λ t. t.organization_id)
      (filter (λ (t : PipelineTemplate). t.id == id) db.pipeline_templates)
owners TenantModel.talent_pool_model id db =
    map (λ t. t.organization_id) (filter (λ (t : TalentPool). t.id == id) db.talent_pools)

module _ {R : Type 0} (c : R → Bool) (org : R → ℕ) where
  owners-none : (t : List R) → any c t ≡ false → map org (filter c t) ≡ []
  owners-none [] e = refl
  owners-none (x ∷ t) e = ground (arith, owners-none t)

  owners-Has : (r : R) (t : List R) → Has r t → c r ≡ true → Has (org r) (map org (filter c t))
  owners-Has r [] h e = absurd h
  owners-Has r (x ∷ t) (inl q) e = let met : c x ≡ true = rw (sym q) e in rw met (inl (ap org q))
  owners-Has r (x ∷ t) (inr h) e = elim (Bool-cases (c x)) [
    | inl g ↦ rw g (inr (owners-Has r t h e))
    | inr g ↦ rw g (owners-Has r t h e)
  ]

-- What the guard gets of a token, if it can.
abbrev verified : (String → Option AccessTokenPayload) → Option String → Option AccessTokenPayload
verified verify none = none
verified verify (some token) = verify token

module _ (c : String → Bool) where
  any-append : (xs : List String) → any c (xs ++ ([] ++ [])) ≡ any c xs
  any-append [] = refl
  any-append (x ∷ xs) = ground (arith, any-append xs)

no_role : (t : List Role) (id : ℕ) → any (λ r. r.id == id && role_key_in [] r) t ≡ false
no_role [] id = refl
no_role (r ∷ t) id = ground (arith, no_role t id)

no_grant :
    (db : Db) (permission : String) (t : List RolePermission)
    → any (is_grant db [] permission) t ≡ false
no_grant db permission [] = refl
no_grant db permission (g ∷ t) =
    ground (arith, no_role db.roles g.role_id, no_grant db permission t)

module _ ⦃p : Prisma⦄ where
  owner_found :
      {R : Type 0} (c : R → Bool) (org : R → ℕ) (t : List R)
      → ((owner_of org (p.find_first c t) ≡ none) × (map org (filter c t) ≡ []))
        ⊎ ((o : ℕ) × (owner_of org (p.find_first c t) ≡ some o) × Has o (map org (filter c t)))
  owner_found c org t = elim (find_first-cases c t) [
    | inl (e, none_met) ↦ inl (ap (owner_of org) e, owners-none c org t none_met)
    | inr (r, e, met, has) ↦ inr (org r, ap (owner_of org) e, owners-Has c org r t has met)
  ]

  find_owner-cases :
      (model : TenantModel) (id : ℕ) (db : Db)
      → ((find_owner model id db ≡ (ok none, db)) × (owners model id db ≡ []))
        ⊎ ((o : ℕ) × (find_owner model id db ≡ (ok (some o), db)) × Has o (owners model id db))
  unfolding find_owner
  find_owner-cases TenantModel.job_model id db =
      elim (owner_found (λ (j : Job). j.id == id) (λ j. j.organization_id) db.jobs) [
        | inl (e, n) ↦ inl (ground arith, n)
        | inr (o, e, h) ↦ inr (o, ground arith, h)
      ]
  find_owner-cases TenantModel.pipeline_template_model id db =
      elim (owner_found (λ (j : PipelineTemplate). j.id == id) (λ j. j.organization_id)
        db.pipeline_templates) [
          | inl (e, n) ↦ inl (ground arith, n)
          | inr (o, e, h) ↦ inr (o, ground arith, h)
        ]
  find_owner-cases TenantModel.talent_pool_model id db =
      elim (owner_found (λ (j : TalentPool). j.id == id) (λ j. j.organization_id) db.talent_pools) [
        | inl (e, n) ↦ inl (ground arith, n)
        | inr (o, e, h) ↦ inr (o, ground arith, h)
      ]

  -- A tenant-scoped route lets a known caller through exactly where the resource is of the
  -- organization of the caller's session; a resource that does not exist and one of another
  -- organization get the same answer. Nothing changes. One row at most has the id.
  pub check_tenant_lem :
      (route : Route) (request : Request) (options : RequireTenantOptions)
      (payload : AccessTokenPayload) (id : ℕ) (db : Db)
      → route.require_tenant ≡ some options
      → request.user ≡ some payload
      → request.params (param_name options.param) ≡ some id
      → (any (is_own_org payload.org_id) (owners options.model id db) ≡ false
          → check_tenant route request db ≡ (err not_found, db))
        × ((own : ℕ)
            → owners options.model id db ≡ own ∷ []
            → payload.org_id ≡ some own
            → check_tenant route request db ≡ (ok tt, db))
  unfolding check_tenant scope_to_tenant
  check_tenant_lem route request options payload id db er eu ep =
      elim (find_owner-cases options.model id db) [
        | inl (e, n) ↦ ((λ f. ground arith), λ own o q. absurd (ground arith))
        | inr (o, e, h) ↦ (
          (λ f.
              ground
                (arith, not-Has (is_own_org payload.org_id) o (owners options.model id db) f h)),
          λ own l q.
              let same : o ≡ own = only o own (owners options.model id db) l h in ground arith,
        )
      ]
    where
      only : (o own : ℕ) (l : List ℕ) → l ≡ own ∷ [] → Has o l → o ≡ own
      only o own l e h = elim (subst (Has o) e h) [ inl q ↦ q | inr k ↦ absurd k ]

  -- A route that is not public refuses a request without a bearer token that verifies, whatever the
  -- route asks for, and nothing changes.
  pub unauthenticated_refused :
      (verify : String → Option AccessTokenPayload) (route : Route) (request : Request) (db : Db)
      → route.is_public ≡ false
      → ((token : String) (rest : List String)
          → request.authorization ≡ some ("Bearer" ∷ token ∷ rest)
          → verify token ≡ none)
      → guarded verify route request db ≡ (err unauthorized, db)
  unfolding guarded authenticate
  unauthenticated_refused verify route request db closed bad =
      ground (arith, refused request.authorization bad)
    where
      refused_text :
          (kind token : String) (rest : List String)
          → (same_text kind "Bearer" ≡ true) ⊎ (same_text kind "Bearer" ≡ false)
          → ((t : String) (r : List String)
              → some (kind ∷ token ∷ rest) ≡ some ("Bearer" ∷ t ∷ r)
              → verify t ≡ none)
          → verified verify (present (extract_bearer_token (some (kind ∷ token ∷ rest)))) ≡ none
      refused_text kind token rest (inr other) bad = ground arith
      refused_text kind token rest (inl same) bad =
          let known : verify token ≡ none =
            bad token rest (ap (λ k. some (k ∷ token ∷ rest)) ((eq_iff kind "Bearer").0 same)) in
          elim (Bool-cases (same_text token "")) [ inl e ↦ ground arith | inr e ↦ ground arith ]

      refused :
          (a : Option (List String))
          → ((token : String) (rest : List String)
              → a ≡ some ("Bearer" ∷ token ∷ rest)
              → verify token ≡ none)
          → verified verify (present (extract_bearer_token a)) ≡ none
      refused none bad = refl
      refused (some []) bad = refl
      refused (some (kind ∷ [])) bad = refl
      refused (some (kind ∷ token ∷ rest)) bad =
          refused_text kind token rest (Bool-cases (same_text kind "Bearer")) bad

  grant_needs_role :
      (db : Db) (keys : List String) (permission : String) (g : RolePermission)
      → is_grant db keys permission g ≡ true
      → (r : Role) × Has r db.roles × (r.id ≡ g.role_id) × (role_key_in keys r ≡ true)
  grant_needs_role db keys permission g e =
      let (r, h, m) =
        Has-of_any (λ (r : Role). r.id == g.role_id && role_key_in keys r) db.roles
          (ground arith) in
      (r, h, ground arith, ground arith)

  -- On a route of an organization, a caller who is no super admin passes the check of permissions only
  -- by a grant to one of the roles in their token: being a candidate, as everyone is, gives nothing.
  pub scoped_needs_role :
      (route : Route) (request : Request) (required : RequiredPermission)
      (payload : AccessTokenPayload) (db : Db)
      → has_tenant_scope route ≡ true
      → route.required_permission ≡ some required
      → required.re_verify ≡ false
      → request.user ≡ some payload
      → payload.is_super_admin ≡ false
      → (authorize route request db).0 ≡ ok tt
      → (g : RolePermission) × (r : Role) × Has g db.role_permissions
        × Has r db.roles
        × (r.id ≡ g.role_id)
        × (any (λ k. same_text r.key k) payload.roles ≡ true)
  unfolding authorize authorize_required standing_of require_grant
  scoped_needs_role route request required payload db scoped er ev eu es passed =
      elim (find_first-cases
        (is_grant db (granted_keys route (claimed payload)) required.permission)
        db.role_permissions) [
          | inl (e, _) ↦ absurd (ground arith)
          | inr (g, e, met, has) ↦
              let (r, h, id, k) =
                grant_needs_role db (granted_keys route (claimed payload)) required.permission g
                  met in
              (g, r, has, h, id, ground (arith, any-append (λ k. same_text r.key k) payload.roles))
        ]

  -- Where a route asks for the roles to be verified again, what the token claims is not looked at: a
  -- caller who by the database is no super admin and has no role in the organization of the session
  -- is refused on a route of an organization. The ids of users are distinct.
  pub stale_claims_refused :
      (route : Route) (request : Request) (required : RequiredPermission)
      (payload : AccessTokenPayload) (u : User) (org : ℕ) (db : Db)
      → has_tenant_scope route ≡ true
      → route.required_permission ≡ some required
      → required.re_verify ≡ true
      → request.user ≡ some payload
      → payload.org_id ≡ some org
      → UniqueBy (λ (u : User). u.id) db.users
      → Has u db.users
      → u.id ≡ payload.sub
      → u.is_super_admin ≡ false
      → any (λ m. m.user_id == u.id && m.organization_id == org) db.user_organization_roles ≡ false
      → authorize route request db ≡ (err forbidden, db)
  unfolding authorize authorize_required standing_of re_verify_from_database memberships_of
      require_grant
  stale_claims_refused route request required payload u org db scoped er ev eu eo keyed held id es
        foreign =
      let mine = λ (m : UserOrganizationRole). m.user_id == u.id && m.organization_id == org in
      let (_, _, size) = p.find_many-Lists mine db.user_organization_roles in
      let none_listed : p.find_many mine db.user_organization_roles ≡ [] =
        nil_of_length (p.find_many mine db.user_organization_roles)
          (ground (arith, count-none mine (λ m. m) db.user_organization_roles foreign)) in
      ground (
        arith,
        find_first-key (λ (v : User). v.id) (λ v. v.id == u.id) u db.users keyed held (ground arith)
            (λ x e. ground arith),
        none_listed,
        find_first-none (is_grant db [] required.permission) db.role_permissions
            (no_grant db required.permission db.role_permissions),
      )
    where
      nil_of_length : {R : Type 0} (xs : List R) → length xs ≡ 0 → xs ≡ []
      nil_of_length [] e = refl
      nil_of_length (x ∷ xs) e = absurd (omega arith)
