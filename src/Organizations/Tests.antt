-- ===== src/Organizations/Tests.antt =====
-- Instances of the theorems about OrganizationsService, where every text is its own hash.
use recruit_saas.Common.{
  ◌≡◌, ◌≢◌, ◌≤◌, ◌⊎◌, ◌==◌, ◌&&◌, not, refl, inl, none, some, true, false, [], ◌∷◌, arith, any,
  count, modify, reject, Has, is_some, same_text,
}
use recruit_saas.Schema.{Db, Role, User, UserOrganizationRole, Invitation}
use recruit_saas.Prisma.{Error, ok, err}
use recruit_saas.Memory.{in_memory}
use recruit_saas.Sample.{sample, acme}
use recruit_saas.Auth.{Crypto, Draw}
use recruit_saas.Organizations.{
  AcceptInvitation, remove_member, accept_invitation, as_accepted, is_membership,
}
use recruit_saas.Organizations.Members.{owns_org, is_of, remove_member_sound}
use recruit_saas.Organizations.Invitations.{IsOpenInvitation, accept_invitation_sound}

abbrev plain : Crypto
plain = record {
  hash_password = λ s. s;
  compare_password = λ s h. same_text s h;
  hash_opaque_token = λ s. s;
}

abbrev draw : Draw
draw = record { now = 50; user_id = 8; row_id = 9; token = "t"; ttl = 10 }

abbrev owner_role : Role
owner_role = record { id = 1; key = "COMPANY_OWNER"; is_platform_role = false }

abbrev recruiter_role : Role
recruiter_role = record { id = 2; key = "RECRUITER"; is_platform_role = false }

-- Two owners of the organization, the users 7 and 6.
abbrev first_owner : UserOrganizationRole
first_owner = record { id = 20; user_id = 7; organization_id = 1; role_id = 1 }

abbrev second_owner : UserOrganizationRole
second_owner = record { id = 21; user_id = 6; organization_id = 1; role_id = 1 }

abbrev pending : Invitation
pending = record {
  id = 30;
  organization_id = 1;
  email = "eve@x";
  role_id = 2;
  token_hash = "secret";
  expires_at = 60;
  accepted_at = none;
}

abbrev staffed : Db
staffed = record sample {
  roles = owner_role ∷ recruiter_role ∷ [];
  user_organization_roles = first_owner ∷ second_owner ∷ [];
  invitations = pending ∷ [];
}

remove_member_sound_example :
    ((e : Error) × (remove_member (some 1) 7 6 staffed ≡ (err e, staffed)))
    ⊎ ((second_owner.user_id ≢ first_owner.user_id)
        × (any (is_of 1 6) staffed.user_organization_roles ≡ true)
        × (remove_member (some 1) 7 6 staffed ≡ (
          ok tt,
          record staffed {
            user_organization_roles = reject (is_of 1 6) staffed.user_organization_roles;
          },
        ))
        × (1 ≤ count (owns_org staffed 1) staffed.user_organization_roles
            → 1 ≤ count (owns_org staffed 1) (reject (is_of 1 6) staffed.user_organization_roles)))
remove_member_sound_example = remove_member_sound 7 6 acme staffed (tt, tt) (inl refl) (omega arith)

abbrev eve : AcceptInvitation
eve = record { full_name = some "Eve"; password = some "pw" }

accept_invitation_sound_example :
    ((e : Error) × (accept_invitation plain draw 22 "secret" eve staffed ≡ (err e, staffed)))
    ⊎ ((i : Invitation) × (r : Role) × (u : User) × IsOpenInvitation plain staffed 50 "secret" i
        × Has r staffed.roles
        × (r.id ≡ i.role_id)
        × ((accept_invitation plain draw 22 "secret" eve staffed).0 ≡ ok r)
        × ((accept_invitation plain draw 22 "secret" eve staffed).1.invitations
            ≡ modify
                (λ x. x.id == i.id && not (is_some x.accepted_at))
                (as_accepted 50)
                staffed.invitations)
        × Has u (accept_invitation plain draw 22 "secret" eve staffed).1.users
        × (same_text u.email i.email ≡ true)
        × (any
              (is_membership u.id i.organization_id i.role_id)
              (accept_invitation plain draw 22 "secret" eve staffed).1.user_organization_roles
            ≡ true))
accept_invitation_sound_example = accept_invitation_sound plain draw 22 "secret" eve staffed
