-- ===== src/Auth/Resets.antt =====
-- `claimToken` and `resetPassword` of backend/src/auth/auth.service.ts.
use recruit_saas.Common.{
  any-modify-none, count-some, ℕ, ◌≡◌, refl, ◌⊎◌, inl, inr, true, false, Option, none, some, String,
  not, ◌==◌, ◌||◌, ltb, arith, same_text, is_some, any, modify, Has, Bool-cases, any-Has,
}
use recruit_saas.Schema.{Db, User, VerificationToken, VerificationTokenPurpose, same_purpose}
use recruit_saas.Prisma.{Prisma, ok, err, bad_request, row_missing}
use recruit_saas.Prisma.Keys.{find_first-cases, update-cases}
use recruit_saas.Auth.{
  Crypto, as_used, as_revoked, is_live_for_user, valid_token, take_token, claim_token,
  reset_password,
}
use recruit_saas.Auth.SingleUse.{is_unused}

module _ ⦃p : Prisma⦄ (c : Crypto) where
  -- What `claimToken` asks of the row it finds.
  pub record IsValid (db : Db) (now : ℕ) (raw : String) (purpose : VerificationTokenPurpose)
      (t : VerificationToken) : Type 0 where
    pub held : Has t db.verification_tokens
    pub matches : same_text t.token_hash (c.hash_opaque_token raw) ≡ true
    pub of_purpose : same_purpose t.purpose purpose ≡ true
    pub unused : t.used_at ≡ none
    pub unexpired : ltb t.expires_at now ≡ false

  unused_of : (o : Option ℕ) → is_some o ≡ false → o ≡ none
  unused_of none e = refl
  unused_of (some n) e = absurd (ground arith)

  -- A claim is refused and changes nothing, or it marks a valid token used.
  pub claim_token_lem :
      (now : ℕ) (raw : String) (purpose : VerificationTokenPurpose) (db : Db)
      → (claim_token c now raw purpose db ≡ (err bad_request, db))
        ⊎ ((t : VerificationToken) × IsValid db now raw purpose t
            × (claim_token c now raw purpose db ≡ (
              ok t,
              record db {
                verification_tokens = modify (is_unused t.id) (as_used now) db.verification_tokens;
              },
            )))
  unfolding claim_token valid_token take_token
  claim_token_lem now raw purpose db =
      elim (find_first-cases (λ t. same_text t.token_hash (c.hash_opaque_token raw))
        db.verification_tokens) [
          | inl (e, _) ↦ inl (ground arith)
          | inr (t, e, met, has) ↦
              elim (Bool-cases (
                not (same_purpose t.purpose purpose)
                || is_some t.used_at
                || ltb t.expires_at now)) [
                  | inl bad ↦ inl (ground arith)
                  | inr good ↦
                      let some_unused : any (is_unused t.id) db.verification_tokens ≡ true =
                        any-Has (is_unused t.id) t db.verification_tokens has (ground arith) in
                      inr (
                        t,
                        record {
                          held = has;
                          matches = met;
                          of_purpose = ground arith;
                          unused = unused_of t.used_at (ground arith);
                          unexpired = ground arith;
                        },
                        ground (
                          arith,
                          p.update_many-eq (is_unused t.id) (as_used now) db.verification_tokens,
                          count-some (is_unused t.id) db.verification_tokens some_unused,
                        ),
                      )
                ]
        ]

  -- Resetting a password either refuses the token and changes nothing; or finds no user for a valid
  -- token; or marks the token used, sets the user's password hash, and revokes every live refresh token
  -- of that user, so that none is live afterwards, while nothing else changes.
  pub reset_password_revokes :
      (now : ℕ) (raw new_password : String) (db : Db)
      → (reset_password c now raw new_password db ≡ (err bad_request, db))
        ⊎ ((t : VerificationToken) × IsValid db now raw VerificationTokenPurpose.password_reset t
            × (((reset_password c now raw new_password db).0 ≡ err row_missing)
                ⊎ ((reset_password c now raw new_password db ≡ (
                  ok tt,
                  record db {
                    verification_tokens =
                        modify (is_unused t.id) (as_used now) db.verification_tokens;
                    users =
                        modify
                          (λ u. u.id == t.user_id)
                          (λ u. record u { password_hash = c.hash_password new_password })
                          db.users;
                    refresh_tokens =
                        modify (is_live_for_user t.user_id) (as_revoked now) db.refresh_tokens;
                  },
                ))
                    × (any
                          (is_live_for_user t.user_id)
                          (reset_password c now raw new_password db).1.refresh_tokens
                        ≡ false))))
  unfolding reset_password
  reset_password_revokes now raw new_password db =
      elim (claim_token_lem now raw VerificationTokenPurpose.password_reset db) [
        | inl e ↦ inl (ground arith)
        | inr (t, valid, e) ↦ inr (
          t,
          valid,
          elim (update-cases (λ (u : User). u.id == t.user_id)
              (λ u. record u { password_hash = c.hash_password new_password }) db.users) [
                | inl n ↦ inl (ground arith)
                | inr (u, s) ↦
                    let effect =
                      p.update_many-eq (is_live_for_user t.user_id) (as_revoked now)
                        db.refresh_tokens in
                    inr (
                      ground (arith, effect),
                      ground (
                        arith,
                        effect,
                        any-modify-none (is_live_for_user t.user_id) (as_revoked now)
                            db.refresh_tokens (λ r. ground arith),
                      ),
                    )
              ],
        )
      ]
