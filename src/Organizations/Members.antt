-- ===== src/Organizations/Members.antt =====
-- `removeMember` of OrganizationsService.
use recruit_saas.Common.{
  ℕ, ◌≤◌, ◌≡◌, ◌≢◌, ◌⊎◌, inl, inr, Bool, true, false, some, List, [], ◌∷◌, ◌==◌, ◌&&◌, leb, arith,
  any, count, reject, is_empty, count-reject, count-apart, Has, Bool-cases, Has-of_any, All,
  All-Has, any-Has, false_of_not,
}
use recruit_saas.Schema.{Db, Organization, UserOrganizationRole}
use recruit_saas.Prisma.{Prisma, Error, ok, err, conflict, not_found}
use recruit_saas.Prisma.Keys.{UniqueBy}
use recruit_saas.Organizations.Approval.{find_organization}
use recruit_saas.Organizations.{
  is_owner, require_own_organization, keep_an_owner, removable_member, delete_memberships,
  remove_member,
}

-- A membership of the organization with the role COMPANY_OWNER.
abbrev pub owns_org : Db → ℕ → UserOrganizationRole → Bool
owns_org db org m = m.organization_id == org && is_owner db.roles m

-- A membership of the user in the organization.
abbrev pub is_of : ℕ → ℕ → UserOrganizationRole → Bool
is_of org user_id m = m.organization_id == org && m.user_id == user_id

module _ ⦃p : Prisma⦄ where
  -- The memberships that `removeMember` reads.
  abbrev pub held_by : Db → ℕ → ℕ → List UserOrganizationRole
  held_by db org user_id = p.find_many (is_of org user_id) db.user_organization_roles

  held_by-some :
      (db : Db) (org user_id : ℕ)
      → is_empty (held_by db org user_id) ≡ false
      → any (is_of org user_id) db.user_organization_roles ≡ true
  held_by-some db org user_id e =
      nonempty (held_by db org user_id)
        (p.find_many-Lists (is_of org user_id) db.user_organization_roles).0 e
    where
      nonempty :
          (ms : List UserOrganizationRole)
          → All (λ m. (is_of org user_id m ≡ true) × Has m db.user_organization_roles) ms
          → is_empty ms ≡ false
          → any (is_of org user_id) db.user_organization_roles ≡ true
      nonempty [] a n = absurd (ground arith)
      nonempty (m ∷ ms) a n = any-Has (is_of org user_id) m db.user_organization_roles a.0.1 a.0.0

  no_owner_row :
      (db : Db) (org user_id : ℕ)
      → any (is_owner db.roles) (held_by db org user_id) ≡ false
      → any (λ m. owns_org db org m && is_of org user_id m) db.user_organization_roles ≡ false
  no_owner_row db org user_id e =
      false_of_not (any (λ m. owns_org db org m && is_of org user_id m) db.user_organization_roles)
        (λ some_row.
          let (m, has, met) =
            Has-of_any (λ m. owns_org db org m && is_of org user_id m) db.user_organization_roles
              some_row in
          let listed : Has m (held_by db org user_id) =
            All-Has _ m db.user_organization_roles
              (p.find_many-Lists (is_of org user_id) db.user_organization_roles).1 has
              (ground arith) in
          absurd (ground (arith, any-Has (is_owner db.roles) m (held_by db org user_id) listed)))

  -- What the checks of `removeMember` let through: a member who is not the caller, and whose memberships
  -- may go without the organization losing its last owner.
  removable_member-cases :
      (actor_id target : ℕ) (o : Organization) (db : Db)
      → UniqueBy (λ (x : Organization). x.id) db.organizations
      → Has o db.organizations
      → ((e : Error) × (removable_member (some o.id) actor_id target db ≡ (err e, db)))
        ⊎ ((target ≢ actor_id)
            × (any (is_of o.id target) db.user_organization_roles ≡ true)
            × ((any (λ m. owns_org db o.id m && is_of o.id target m) db.user_organization_roles
                  ≡ false)
                ⊎ (2 ≤ count (owns_org db o.id) db.user_organization_roles))
            × (removable_member (some o.id) actor_id target db ≡ (ok o, db)))
  unfolding removable_member require_own_organization keep_an_owner
  removable_member-cases actor_id target o db k h =
      let found = find_organization o db k h in
      elim (Bool-cases (target == actor_id)) [
        | inl same ↦ inl (conflict, ground (arith, found))
        | inr other ↦ elim (Bool-cases (is_empty (held_by db o.id target))) [
          | inl none_held ↦ inl (not_found, ground (arith, found))
          | inr held ↦ elim (Bool-cases (any (is_owner db.roles) (held_by db o.id target))) [
            | inr plain ↦ inr (
              (λ q. ground arith),
              held_by-some db o.id target held,
              inl (no_owner_row db o.id target plain),
              ground (arith, found),
            )
            | inl owner ↦
                elim (Bool-cases
                  (leb (p.count_rows (owns_org db o.id) db.user_organization_roles) 1)) [
                    | inl last ↦ inl (conflict, ground (arith, found))
                    | inr more ↦ inr (
                      (λ q. ground arith),
                      held_by-some db o.id target held,
                      inr (
                          ground
                            (arith, p.count_rows-eq (owns_org db o.id) db.user_organization_roles)),
                      ground (arith, found),
                    )
                  ]
          ]
        ]
      ]

  -- Removing a member is refused and changes nothing; or the member is not the caller, all their
  -- memberships in the organization go and nothing else changes, and an organization that had an owner
  -- keeps one. The ids of organizations are distinct, and the member holds the role of owner once at
  -- most.
  pub remove_member_sound :
      (actor_id target : ℕ) (o : Organization) (db : Db)
      → UniqueBy (λ (x : Organization). x.id) db.organizations
      → Has o db.organizations
      → count (λ m. owns_org db o.id m && is_of o.id target m) db.user_organization_roles ≤ 1
      → ((e : Error) × (remove_member (some o.id) actor_id target db ≡ (err e, db)))
        ⊎ ((target ≢ actor_id)
            × (any (is_of o.id target) db.user_organization_roles ≡ true)
            × (remove_member (some o.id) actor_id target db ≡ (
              ok tt,
              record db {
                user_organization_roles = reject (is_of o.id target) db.user_organization_roles;
              },
            ))
            × (1 ≤ count (owns_org db o.id) db.user_organization_roles
                → 1
                  ≤ count
                      (owns_org db o.id)
                      (reject (is_of o.id target) db.user_organization_roles)))
  unfolding remove_member delete_memberships
  remove_member_sound actor_id target o db k h once =
      elim (removable_member-cases actor_id target o db k h) [
        | inl (e, refused) ↦ inl (e, ground arith)
        | inr (other, member, owners, passed) ↦ inr (
          other,
          member,
          ground (arith, p.delete_many-eq (is_of o.id target) db.user_organization_roles),
          λ had. elim owners [
            | inl plain ↦
                let kept =
                  count-apart (owns_org db o.id) (is_of o.id target) db.user_organization_roles
                    plain in
                omega arith
            | inr two ↦
                let kept =
                  count-reject (owns_org db o.id) (is_of o.id target) db.user_organization_roles in
                omega arith
          ],
        )
      ]
