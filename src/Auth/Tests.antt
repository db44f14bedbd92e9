-- ===== src/Auth/Tests.antt =====
-- Instances of the theorems about AuthService, where every text is its own hash.
use recruit_saas.Common.{
  ◌≡◌, ◌⊎◌, refl, inl, inr, none, true, false, [], ◌∷◌, arith, any, modify, Has, ◌==◌, same_text,
}
use recruit_saas.Schema.{
  Db, User, RefreshToken, VerificationToken, VerificationTokenPurpose, UserOrganizationRole, Role,
}
use recruit_saas.Prisma.{ok, err, unauthorized, not_found, bad_request, row_missing}
use recruit_saas.Memory.{in_memory}
use recruit_saas.Sample.{sample}
use recruit_saas.Auth.{
  Crypto, Draw, as_used, as_revoked, is_live_for_user, switch_org, rotate, claim_refresh_token,
  valid_refresh_token, reset_password,
}
use recruit_saas.Auth.SingleUse.{is_unused, rotate_once}
use recruit_saas.Auth.Resets.{IsValid, reset_password_revokes}
use recruit_saas.Auth.Sessions.{switch_org_foreign}

abbrev plain : Crypto
plain = record {
  hash_password = λ s. s;
  compare_password = λ s h. same_text s h;
  hash_opaque_token = λ s. s;
}

abbrev ada : User
ada = record {
  id = 5;
  email = "ada@example.org";
  password_hash = "secret";
  full_name = "Ada";
  email_verified = true;
  is_super_admin = false;
}

abbrev session : RefreshToken
session = record { id = 1; user_id = 5; token_hash = "r"; expires_at = 90; revoked_at = none }

abbrev reset : VerificationToken
reset = record {
  id = 2;
  user_id = 5;
  token_hash = "v";
  purpose = VerificationTokenPurpose.password_reset;
  expires_at = 90;
  used_at = none;
}

abbrev recruiter : Role
recruiter = record { id = 8; key = "RECRUITER"; is_platform_role = false }

abbrev membership : UserOrganizationRole
membership = record { id = 9; user_id = 5; organization_id = 1; role_id = 8 }

abbrev known : Db
known = record sample {
  users = ada ∷ [];
  roles = recruiter ∷ [];
  user_organization_roles = membership ∷ [];
  refresh_tokens = session ∷ [];
  verification_tokens = reset ∷ [];
}

abbrev revoked : Db
revoked = record known { refresh_tokens = as_revoked 40 session ∷ [] }

abbrev draw : Draw
draw = record { now = 40; user_id = 6; row_id = 3; token = "n"; ttl = 10 }

claiming : claim_refresh_token plain 40 "r" known ≡ (ok ada, revoked)
unfolding claim_refresh_token valid_refresh_token rotate
claiming = refl

rotate_once_example :
    rotate plain 50 session (rotate plain 40 session known).1
    ≡ (err unauthorized, (rotate plain 40 session known).1)
rotate_once_example = rotate_once plain 40 50 session known

reset_password_revokes_example :
    (reset_password plain 40 "v" "new" known ≡ (err bad_request, known))
    ⊎ ((t : VerificationToken) × IsValid plain known 40 "v" VerificationTokenPurpose.password_reset
          t
        × (((reset_password plain 40 "v" "new" known).0 ≡ err row_missing)
            ⊎ ((reset_password plain 40 "v" "new" known ≡ (
              ok tt,
              record known {
                verification_tokens =
                    modify (is_unused t.id) (as_used 40) known.verification_tokens;
                users =
                    modify
                      (λ u. u.id == t.user_id)
                      (λ u. record u { password_hash = "new" })
                      known.users;
                refresh_tokens =
                    modify (is_live_for_user t.user_id) (as_revoked 40) known.refresh_tokens;
              },
            ))
                × (any
                      (is_live_for_user t.user_id)
                      (reset_password plain 40 "v" "new" known).1.refresh_tokens
                    ≡ false))))
reset_password_revokes_example = reset_password_revokes plain 40 "v" "new" known

one_hash :
    (t s : RefreshToken)
    → Has t known.refresh_tokens
    → Has s known.refresh_tokens
    → same_text t.token_hash "r" ≡ true
    → same_text s.token_hash "r" ≡ true
    → t.id ≡ s.id
one_hash t s (inl e) (inl f) _ _ = ground arith
one_hash t s (inl e) (inr k) _ _ = elim k [ ]
one_hash t s (inr k) _ _ _ = elim k [ ]

switch_org_foreign_example :
    (switch_org plain draw "r" 2 known ≡ (err not_found, revoked))
    × (claim_refresh_token plain 50 "r" revoked ≡ (err unauthorized, revoked))
switch_org_foreign_example =
    switch_org_foreign plain draw 50 "r" 2 ada known revoked one_hash claiming refl
