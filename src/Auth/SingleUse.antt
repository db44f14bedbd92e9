-- ===== src/Auth/SingleUse.antt =====
-- Verification tokens and refresh tokens are used once: the guarded updates of `claimToken` and
-- `claimRefreshToken` in backend/src/auth/auth.service.ts, and `logout`.
use recruit_saas.Common.{
  modify-none, count-none, any-modify-none, count-some, ℕ, ◌≡◌, refl, ◌⊎◌, inl, inr, Bool, true,
  false, some, String, List, [], ◌∷◌, not, ◌==◌, ◌&&◌, ◌||◌, ltb, arith, same_text, is_some, any,
  modify, Has, Bool-cases, any-Has, not-Has,
}
use recruit_saas.Schema.{Db, User, RefreshToken, VerificationToken}
use recruit_saas.Prisma.{Prisma, Error, ok, err, bad_request, unauthorized, row_missing}
use recruit_saas.Prisma.Keys.{find_first-cases}
use recruit_saas.Auth.{
  Crypto, as_used, as_revoked, take_token, valid_refresh_token, rotate, claim_refresh_token, logout,
}

-- The test of a row that the guarded updates of a token, and of all tokens of one hash, make.
abbrev pub is_unrevoked : ℕ → RefreshToken → Bool
is_unrevoked id t = t.id == id && not (is_some t.revoked_at)

abbrev pub is_unused : ℕ → VerificationToken → Bool
is_unused id t = t.id == id && not (is_some t.used_at)

abbrev pub is_live_hash : String → RefreshToken → Bool
is_live_hash hash t = same_text t.token_hash hash && not (is_some t.revoked_at)

module _ ⦃p : Prisma⦄ (c : Crypto) where
  -- Of two requests that both passed the checks of `claimRefreshToken` with the same token, in
  -- whatever state of the database, the one that rotates it second is refused and changes nothing.
  pub rotate_once :
      (now later : ℕ) (t : RefreshToken) (db : Db)
      → rotate c later t (rotate c now t db).1 ≡ (err unauthorized, (rotate c now t db).1)
  unfolding rotate
  rotate_once now later t db =
      let spent : any (is_unrevoked t.id)
            (modify (is_unrevoked t.id) (as_revoked now) db.refresh_tokens)
          ≡ false =
        any-modify-none (is_unrevoked t.id) (as_revoked now) db.refresh_tokens
          (λ r. ground arith) in
      ground (
        arith,
        p.update_many-eq (is_unrevoked t.id) (as_revoked now) db.refresh_tokens,
        p.update_many-eq (is_unrevoked t.id) (as_revoked later)
            (modify (is_unrevoked t.id) (as_revoked now) db.refresh_tokens),
        modify-none (is_unrevoked t.id) (as_revoked later)
            (modify (is_unrevoked t.id) (as_revoked now) db.refresh_tokens) spent,
        count-none (is_unrevoked t.id) (as_revoked later)
            (modify (is_unrevoked t.id) (as_revoked now) db.refresh_tokens) spent,
      )

  -- Of two requests that both passed the checks of `claimToken` with the same verification token, the
  -- one that marks it used second is refused and changes nothing.
  pub take_token_once :
      (now later : ℕ) (t : VerificationToken) (db : Db)
      → take_token c later t (take_token c now t db).1
        ≡ (err bad_request, (take_token c now t db).1)
  unfolding take_token
  take_token_once now later t db =
      let spent : any (is_unused t.id)
            (modify (is_unused t.id) (as_used now) db.verification_tokens)
          ≡ false =
        any-modify-none (is_unused t.id) (as_used now) db.verification_tokens (λ r. ground arith) in
      ground (
        arith,
        p.update_many-eq (is_unused t.id) (as_used now) db.verification_tokens,
        p.update_many-eq (is_unused t.id) (as_used later)
            (modify (is_unused t.id) (as_used now) db.verification_tokens),
        modify-none (is_unused t.id) (as_used later)
            (modify (is_unused t.id) (as_used now) db.verification_tokens) spent,
        count-none (is_unused t.id) (as_used later)
            (modify (is_unused t.id) (as_used now) db.verification_tokens) spent,
      )

  -- A refresh token of which no row is live is refused, and nothing changes.
  pub spent_refused :
      (now : ℕ) (raw : String) (db : Db)
      → any (is_live_hash (c.hash_opaque_token raw)) db.refresh_tokens ≡ false
      → claim_refresh_token c now raw db ≡ (err unauthorized, db)
  unfolding claim_refresh_token valid_refresh_token
  spent_refused now raw db spent =
      elim (find_first-cases (λ t. same_text t.token_hash (c.hash_opaque_token raw))
        db.refresh_tokens) [
          | inl (e, _) ↦ ground arith
          | inr (t, e, met, has) ↦
              let dead : is_live_hash (c.hash_opaque_token raw) t ≡ false =
                not-Has (is_live_hash (c.hash_opaque_token raw)) t db.refresh_tokens spent has in
              let revoked : is_some t.revoked_at ≡ true = ground arith in ground arith
        ]

  -- Logging out succeeds whatever the token, and the token cannot be used afterwards, neither to
  -- refresh nor to switch organizations: the claim that both start with is refused.
  pub logout_revokes :
      (now later : ℕ) (raw : String) (db : Db)
      → (logout c now (some raw) db ≡ (
        ok tt,
        record db {
          refresh_tokens =
              modify (is_live_hash (c.hash_opaque_token raw)) (as_revoked now) db.refresh_tokens;
        },
      ))
        × (claim_refresh_token c later raw (logout c now (some raw) db).1
            ≡ (err unauthorized, (logout c now (some raw) db).1))
  unfolding logout
  logout_revokes now later raw db =
      let hash = c.hash_opaque_token raw in
      let effect = p.update_many-eq (is_live_hash hash) (as_revoked now) db.refresh_tokens in
      (
        ground (arith, effect),
        spent_refused later raw (logout c now (some raw) db).1 (
            ground (
              arith,
              effect,
              any-modify-none (is_live_hash hash) (as_revoked now) db.refresh_tokens
                  (λ r. ground arith),
            )),
      )

  -- What `claimRefreshToken` asks of the row it finds and of the row's owner.
  pub record IsLive (db : Db) (now : ℕ) (raw : String) (t : RefreshToken) (u : User) : Type 0 where
    pub held : Has t db.refresh_tokens
    pub matches : same_text t.token_hash (c.hash_opaque_token raw) ≡ true
    pub unrevoked : is_some t.revoked_at ≡ false
    pub unexpired : ltb t.expires_at now ≡ false
    pub owner_held : Has u db.users
    pub owned : u.id ≡ t.user_id

  -- A claim of a refresh token is refused and changes nothing, or it revokes the row of a live token.
  pub claim_refresh_token_lem :
      (now : ℕ) (raw : String) (db : Db)
      → ((e : Error) × (claim_refresh_token c now raw db ≡ (err e, db)))
        ⊎ ((t : RefreshToken) × (u : User) × IsLive db now raw t u
            × (claim_refresh_token c now raw db ≡ (
              ok u,
              record db {
                refresh_tokens = modify (is_unrevoked t.id) (as_revoked now) db.refresh_tokens;
              },
            )))
  unfolding claim_refresh_token valid_refresh_token rotate
  claim_refresh_token_lem now raw db =
      elim (find_first-cases (λ t. same_text t.token_hash (c.hash_opaque_token raw))
        db.refresh_tokens) [
          | inl (e, _) ↦ inl (unauthorized, ground arith)
          | inr (t, e, met, has) ↦
              elim (Bool-cases (is_some t.revoked_at || ltb t.expires_at now)) [
                | inl bad ↦ inl (unauthorized, ground arith)
                | inr good ↦ elim (find_first-cases (λ u. u.id == t.user_id) db.users) [
                  | inl (n, _) ↦ inl (row_missing, ground arith)
                  | inr (u, f, own, user_has) ↦
                      let some_live : any (is_unrevoked t.id) db.refresh_tokens ≡ true =
                        any-Has (is_unrevoked t.id) t db.refresh_tokens has (ground arith) in
                      inr (
                        t,
                        u,
                        record {
                          held = has;
                          matches = met;
                          unrevoked = ground arith;
                          unexpired = ground arith;
                          owner_held = user_has;
                          owned = ground arith;
                        },
                        ground (
                          arith,
                          p.update_many-eq (is_unrevoked t.id) (as_revoked now) db.refresh_tokens,
                          count-some (is_unrevoked t.id) db.refresh_tokens some_live,
                        ),
                      )
                ]
              ]
        ]

  all_spent :
      (now : ℕ) (raw : String) (id : ℕ) (rows : List RefreshToken)
      → ((s : RefreshToken)
          → Has s rows
          → same_text s.token_hash (c.hash_opaque_token raw) ≡ true
          → s.id ≡ id)
      → any
          (is_live_hash (c.hash_opaque_token raw))
          (modify (is_unrevoked id) (as_revoked now) rows)
        ≡ false
  all_spent now raw id [] same = refl
  all_spent now raw id (x ∷ rows) same =
      elim (Bool-cases (same_text x.token_hash (c.hash_opaque_token raw))) [
        | inl e ↦
            ground
              (arith, same x (inl refl) e, all_spent now raw id rows (λ s h m. same s (inr h) m))
        | inr e ↦ ground (arith, all_spent now raw id rows (λ s h m. same s (inr h) m))
      ]

  -- Where the hash of a token is unique in its table, a refresh token that was claimed is refused from
  -- then on.
  pub claim_refresh_token_once :
      (now later : ℕ) (raw : String) (u : User) (db db' : Db)
      → ((t s : RefreshToken)
          → Has t db.refresh_tokens
          → Has s db.refresh_tokens
          → same_text t.token_hash (c.hash_opaque_token raw) ≡ true
          → same_text s.token_hash (c.hash_opaque_token raw) ≡ true
          → t.id ≡ s.id)
      → claim_refresh_token c now raw db ≡ (ok u, db')
      → claim_refresh_token c later raw db' ≡ (err unauthorized, db')
  claim_refresh_token_once now later raw u db db' unique claimed =
      elim (claim_refresh_token_lem now raw db) [
        | inl (e, refused) ↦ absurd (ground arith)
        | inr (t, v, live, e) ↦ spent_refused later raw db' (
            ground (
              arith,
              all_spent now raw t.id db.refresh_tokens
                  (λ s h m. unique s t h live.held m live.matches),
            ))
      ]
