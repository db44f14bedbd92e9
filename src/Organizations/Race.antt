-- ===== src/Organizations/Race.antt =====
-- `removeMember` of OrganizationsService beside a second request.
use recruit_saas.Common.{ℕ, Bool, some, ◌&&◌, any}
use recruit_saas.Schema.{Db}
use recruit_saas.Prisma.{Prisma, Action, ◌>>◌}
use recruit_saas.Organizations.{removable_member, delete_memberships}
use recruit_saas.Organizations.Members.{owns_org, is_of}

-- The user has a membership of the organization with the role COMPANY_OWNER.
abbrev pub owned_by : Db → ℕ → ℕ → Bool
owned_by db org user_id =
    any (λ m. owns_org db org m && is_of org user_id m) db.user_organization_roles

module _ ⦃p : Prisma⦄ where
  -- Two requests, each of which has passed its checks when the other does: then both delete.
  pub interleaved_removals : ℕ → ℕ → ℕ → Action (Unit {0})
  interleaved_removals org first_owner second_owner =
      removable_member (some org) first_owner second_owner
      >> removable_member (some org) second_owner first_owner
      >> delete_memberships org second_owner
      >> delete_memberships org first_owner
