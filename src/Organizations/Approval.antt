-- ===== src/Organizations/Approval.antt =====
-- `registerOrganization`, `approve` and `reject` of OrganizationsService.
use recruit_saas.Common.{
  ℕ, ◌≡◌, ◌⊎◌, inl, inr, true, false, String, some, ◌∷◌, arith, ◌==◌, any, modify, Has, Bool-cases,
  same_text,
}
use recruit_saas.Schema.{Db, Role, Organization, VerificationTokenPurpose, organization_pending}
use recruit_saas.Prisma.{Prisma, Error, ok, err, conflict, unique_violation, row_missing}
use recruit_saas.Prisma.Keys.{UniqueBy, find_first-key, find_first-cases, update-key, create-free}
use recruit_saas.Tables.{user_organization_role_clash}
use recruit_saas.Auth.{Crypto, Draw, new_user, new_verification_token}
use recruit_saas.Auth.Sessions.{create_account-cases}
use recruit_saas.Organizations.{
  RegisterOrganization, new_organization, new_membership, as_approved, as_rejected, approval_entry,
  org_rejection_entry, register_steps, register_organization, require_pending_organization, approve,
  reject_org,
}

-- The table with one organization changed.
abbrev pub with_organization : ℕ → (Organization → Organization) → Db → Db
with_organization id f db = record db {
  organizations = modify (λ o. o.id == id) f db.organizations;
}

module _ ⦃p : Prisma⦄ where
  pub find_organization :
      (o : Organization) (db : Db)
      → UniqueBy (λ (x : Organization). x.id) db.organizations
      → Has o db.organizations
      → p.find_first (λ x. x.id == o.id) db.organizations ≡ some o
  find_organization o db k h =
      find_first-key (λ (x : Organization). x.id) (λ x. x.id == o.id) o db.organizations k h
        (ground arith) (λ x e. ground arith)

  -- An organization is decided on once. While it is pending, approval makes it ACTIVE with the time, and
  -- rejection makes it REJECTED with the reason, each with one audit entry and no other change. In any
  -- other status both are a conflict and nothing changes. The ids of organizations are distinct.
  pub approval_lem :
      (now actor_id : ℕ) (reason : String) (o : Organization) (db : Db)
      → UniqueBy (λ (x : Organization). x.id) db.organizations
      → Has o db.organizations
      → (organization_pending o.status ≡ true
          → (approve now o.id actor_id db ≡ (
            ok (as_approved now o),
            record (with_organization o.id (as_approved now) db) {
              audit_logs = approval_entry o.id actor_id ∷ db.audit_logs;
            },
          ))
            × (reject_org o.id actor_id reason db ≡ (
              ok (as_rejected reason o),
              record (with_organization o.id (as_rejected reason) db) {
                audit_logs = org_rejection_entry o.id actor_id reason ∷ db.audit_logs;
              },
            )))
        × (organization_pending o.status ≡ false
            → (approve now o.id actor_id db ≡ (err conflict, db))
              × (reject_org o.id actor_id reason db ≡ (err conflict, db)))
  unfolding approve reject_org require_pending_organization
  approval_lem now actor_id reason o db k h =
      let found = find_organization o db k h in
      (
        (λ pending. (
          ground (
            arith,
            found,
            update-key (λ (x : Organization). x.id) (as_approved now) o db.organizations k h,
            create-free (approval_entry o.id actor_id) db.audit_logs,
          ),
          ground (
            arith,
            found,
            update-key (λ (x : Organization). x.id) (as_rejected reason) o db.organizations k h,
            create-free (org_rejection_entry o.id actor_id reason) db.audit_logs,
          ),
        )),
        λ settled. (ground (arith, found), ground (arith, found)),
      )

module _ ⦃p : Prisma⦄ (c : Crypto) where
  -- Registering an organization fails and leaves the whole database as it was; or it makes, together, a
  -- pending organization, an unverified owner whose address was free, and a membership of the owner in
  -- it with the role COMPANY_OWNER: never an organization without its owner.
  pub register_organization_sound :
      (d : Draw) (organization_id membership_id : ℕ) (dto : RegisterOrganization) (db : Db)
      → ((e : Error) × (register_organization c d organization_id membership_id dto db
            ≡ (err e, db)))
        ⊎ ((r : Role) × Has r db.roles
            × (same_text r.key "COMPANY_OWNER" ≡ true)
            × (any (λ u. same_text dto.owner.email u.email) db.users ≡ false)
            × (register_organization c d organization_id membership_id dto db ≡ (
              ok (
                new_organization organization_id dto.organization_name,
                new_user c d.user_id dto.owner false,
              ),
              record db {
                users = new_user c d.user_id dto.owner false ∷ db.users;
                verification_tokens =
                    new_verification_token c d d.user_id VerificationTokenPurpose.email_verification
                    ∷ db.verification_tokens;
                organizations =
                    new_organization organization_id dto.organization_name ∷ db.organizations;
                user_organization_roles =
                    new_membership membership_id d.user_id organization_id r.id
                    ∷ db.user_organization_roles;
              },
            )))
  unfolding register_organization register_steps
  register_organization_sound d organization_id membership_id dto db =
      elim (create_account-cases c d dto.owner db) [
        | inl (e, failed) ↦ inl (e, ground arith)
        | inr (free, made) ↦
            elim (find_first-cases (λ (r : Role). same_text r.key "COMPANY_OWNER") db.roles) [
              | inl (n, _) ↦ inl (
                row_missing,
                ground (
                  arith,
                  create-free (new_organization organization_id dto.organization_name)
                      db.organizations,
                ),
              )
              | inr (r, f, met, has) ↦
                  let m = new_membership membership_id d.user_id organization_id r.id in
                  elim (Bool-cases
                    (any (user_organization_role_clash m) db.user_organization_roles)) [
                      | inl clash ↦ inl (
                        unique_violation,
                        ground (
                          arith,
                          create-free (new_organization organization_id dto.organization_name)
                              db.organizations,
                          p.create-eq user_organization_role_clash m db.user_organization_roles,
                        ),
                      )
                      | inr fresh ↦ inr (
                        r,
                        has,
                        met,
                        free,
                        ground (
                          arith,
                          create-free (new_organization organization_id dto.organization_name)
                              db.organizations,
                          p.create-eq user_organization_role_clash m db.user_organization_roles,
                        ),
                      )
                    ]
            ]
      ]
