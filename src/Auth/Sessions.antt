-- ===== src/Auth/Sessions.antt =====
-- `createUserAccount`, `login`, `switchOrg` and the default organization of a session in
-- backend/src/auth/auth.service.ts.
use recruit_saas.Common.{
  ◌⊎◌, inl, inr, count-none, ℕ, ◌≡◌, refl, sym, inl, inr, Bool, true, false, some, String, List, [],
  ◌∷◌, ◌==◌, ◌&&◌, not, arith, filter, same_text, any, All, Has, Bool-cases, is_empty, All-of_Has,
  All-Has, length,
}
use recruit_saas.Schema.{
  Db, User, Role, UserOrganizationRole, RefreshToken, VerificationTokenPurpose,
}
use recruit_saas.Prisma.{
  Error, unique_violation, Prisma, ok, err, unauthorized, conflict, not_found,
}
use recruit_saas.Prisma.Keys.{find_first-cases}
use recruit_saas.Tables.{user_clash, refresh_token_clash, verification_token_clash}
use recruit_saas.Auth.{
  Crypto, Draw, Register, TokenPair, new_user, new_refresh_token, new_verification_token, distinct,
  organization_ids, default_context, create_user_account, issue_verification, issue_for,
  issue_token_pair, resolve_default_org_context, login, switch_org, claim_refresh_token,
}
use recruit_saas.Auth.SingleUse.{claim_refresh_token_once}

module _ {R : Type 0} where
  filter-Has : (c : R → Bool) (r : R) (t : List R) → Has r t → c r ≡ true → Has r (filter c t)
  filter-Has c r [] h e = h
  filter-Has c r (x ∷ xs) (inl q) e = rw (moved q) (inl q)
    where
      moved : r ≡ x → c x ≡ true
      moved k = rw (sym k) e
  filter-Has c r (x ∷ xs) (inr h) e = elim (Bool-cases (c x)) [
    | inl g ↦ rw g (inr (filter-Has c r xs h e))
    | inr g ↦ rw g (filter-Has c r xs h e)
  ]

-- Every id of the list is among the distinct ones.
distinct-Has : (y : ℕ) (xs : List ℕ) → Has y xs → Has y (distinct xs)
distinct-Has y [] h = h
distinct-Has y (x ∷ xs) (inl q) = inl q
distinct-Has y (x ∷ xs) (inr h) = elim (Bool-cases (y == x)) [
  | inl e ↦ inl (ground arith)
  | inr n ↦
      inr (filter-Has (λ z. not (z == x)) y (distinct xs) (distinct-Has y xs h) (ground arith))
]

organization_ids-Has :
    (m : UserOrganizationRole) (ms : List UserOrganizationRole)
    → Has m ms
    → Has m.organization_id (organization_ids ms)
organization_ids-Has m [] h = h
organization_ids-Has m (x ∷ ms) (inl q) = inl (ground arith)
organization_ids-Has m (x ∷ ms) (inr h) = inr (organization_ids-Has m ms h)

sole_of_distinct :
    (roles : List Role) (ms : List UserOrganizationRole) (ids : List ℕ) (o : ℕ)
    → (default_context roles ms ids).org_id ≡ some o
    → (y : ℕ) → Has y ids
    → y ≡ o
sole_of_distinct roles ms [] o e y h = absurd h
sole_of_distinct roles ms (x ∷ []) o e y (inl q) = ground arith
sole_of_distinct roles ms (x ∷ []) o e y (inr h) = absurd h
sole_of_distinct roles ms (x ∷ z ∷ ids) o e y h = absurd (ground arith)

empty_of_length : {R : Type 0} (xs : List R) → length xs ≡ 0 → is_empty xs ≡ true
empty_of_length [] e = refl
empty_of_length (x ∷ xs) e = absurd (omega arith)

module _ ⦃p : Prisma⦄ (c : Crypto) where
  -- An address that is taken is refused, and nothing changes. For one that is free, the new user is
  -- no super admin, its password is stored by its hash only, and it is unverified, with a token by
  -- which to verify it, unless the address was verified before. The hash of the drawn token is new.
  pub create_user_account_lem :
      (d : Draw) (dto : Register) (verified : Bool) (db : Db)
      → any
          (verification_token_clash
            (new_verification_token c d d.user_id VerificationTokenPurpose.email_verification))
          db.verification_tokens
        ≡ false
      → (any (λ u. same_text dto.email u.email) db.users ≡ true
          → create_user_account c d dto verified db ≡ (err conflict, db))
        × (any (λ u. same_text dto.email u.email) db.users ≡ false
            → (create_user_account c d dto false db ≡ (
              ok (new_user c d.user_id dto false),
              record db {
                users = new_user c d.user_id dto false ∷ db.users;
                verification_tokens =
                    new_verification_token c d d.user_id VerificationTokenPurpose.email_verification
                    ∷ db.verification_tokens;
              },
            ))
              × (create_user_account c d dto true db ≡ (
                ok (new_user c d.user_id dto true),
                record db { users = new_user c d.user_id dto true ∷ db.users },
              )))
  unfolding create_user_account issue_verification
  create_user_account_lem d dto verified db fresh = (
    (λ taken. ground (arith, p.create-eq user_clash (new_user c d.user_id dto verified) db.users)),
    λ free. (
      ground (
        arith,
        p.create-eq user_clash (new_user c d.user_id dto false) db.users,
        p.create-eq verification_token_clash
            (new_verification_token c d d.user_id VerificationTokenPurpose.email_verification)
            db.verification_tokens,
      ),
      ground (arith, p.create-eq user_clash (new_user c d.user_id dto true) db.users),
    ),
  )

  -- The account of an address that is free is made; for one that is taken the answer is an error.
  pub create_account-cases :
      (d : Draw) (dto : Register) (db : Db)
      → ((e : Error) × ((create_user_account c d dto false db).0 ≡ err e))
        ⊎ ((any (λ u. same_text dto.email u.email) db.users ≡ false)
            × (create_user_account c d dto false db ≡ (
              ok (new_user c d.user_id dto false),
              record db {
                users = new_user c d.user_id dto false ∷ db.users;
                verification_tokens =
                    new_verification_token c d d.user_id VerificationTokenPurpose.email_verification
                    ∷ db.verification_tokens;
              },
            )))
  unfolding create_user_account issue_verification
  create_account-cases d dto db =
      let u = new_user c d.user_id dto false in
      let v = new_verification_token c d d.user_id VerificationTokenPurpose.email_verification in
      elim (Bool-cases (any (user_clash u) db.users)) [
        | inl taken ↦ inl (conflict, ground (arith, p.create-eq user_clash u db.users))
        | inr free ↦ elim (Bool-cases (any (verification_token_clash v) db.verification_tokens)) [
          | inl old ↦ inl (
            unique_violation,
            ground (
              arith,
              p.create-eq user_clash u db.users,
              p.create-eq verification_token_clash v db.verification_tokens,
            ),
          )
          | inr fresh ↦ inr (
            free,
            ground (
              arith,
              p.create-eq user_clash u db.users,
              p.create-eq verification_token_clash v db.verification_tokens,
            ),
          )
        ]
      ]

  pub create_verified_account-cases :
      (d : Draw) (dto : Register) (db : Db)
      → ((e : Error) × ((create_user_account c d dto true db).0 ≡ err e))
        ⊎ (create_user_account c d dto true db ≡ (
          ok (new_user c d.user_id dto true),
          record db { users = new_user c d.user_id dto true ∷ db.users },
        ))
  unfolding create_user_account issue_verification
  create_verified_account-cases d dto db =
      let u = new_user c d.user_id dto true in
      elim (Bool-cases (any (user_clash u) db.users)) [
        | inl taken ↦ inl (conflict, ground (arith, p.create-eq user_clash u db.users))
        | inr free ↦ inr (ground (arith, p.create-eq user_clash u db.users))
      ]

  -- An unknown address and a wrong password get the same answer, and nothing changes: the answer does
  -- not tell whether the account exists.
  pub login_refused :
      (d : Draw) (email password : String) (db : Db)
      → ((u : User)
          → Has u db.users
          → same_text u.email email ≡ true
          → c.compare_password password u.password_hash ≡ false)
      → login c d email password db ≡ (err unauthorized, db)
  unfolding login
  login_refused d email password db wrong =
      elim (find_first-cases (λ u. same_text u.email email) db.users) [
        | inl (e, _) ↦ ground arith
        | inr (u, e, met, has) ↦ ground (arith, wrong u has met)
      ]

  -- A new session is scoped to an organization only if the user has a role in no other one.
  pub session_org_sole :
      (d : Draw) (u : User) (pair : TokenPair) (org : ℕ) (db : Db)
      → (issue_token_pair c d u db).0 ≡ ok pair
      → pair.access_token.org_id ≡ some org
      → All
          (λ (m : UserOrganizationRole). m.user_id ≡ u.id → m.organization_id ≡ org)
          db.user_organization_roles
  unfolding issue_token_pair issue_for resolve_default_org_context
  session_org_sole d u pair org db issued scoped =
      let ms = p.find_many (λ m. m.user_id == u.id) db.user_organization_roles in
      let (_, listed, _) = p.find_many-Lists (λ m. m.user_id == u.id) db.user_organization_roles in
      let created =
        p.create-eq refresh_token_clash (new_refresh_token c d u.id) db.refresh_tokens in
      let context : (default_context db.roles ms (distinct (organization_ids ms))).org_id
          ≡ some org =
        elim (Bool-cases
          (any (refresh_token_clash (new_refresh_token c d u.id)) db.refresh_tokens)) [
            | inl e ↦ absurd (ground (arith, created))
            | inr e ↦ ground (arith, created)
          ] in
      All-of_Has (λ (m : UserOrganizationRole). m.user_id ≡ u.id → m.organization_id ≡ org)
        db.user_organization_roles
        (λ m has own.
          sole_of_distinct db.roles ms (distinct (organization_ids ms)) org context
            m.organization_id
            (distinct-Has m.organization_id (organization_ids ms) (
              organization_ids-Has m ms (
                All-Has (λ (m : UserOrganizationRole). (m.user_id == u.id) ≡ true → Has m ms) m
                  db.user_organization_roles listed has (ground arith)))))

  -- A switch to an organization in which the user has no role is answered as for one that does not
  -- exist; but the refresh token was spent before that was found out, and is refused from then on.
  -- The hash of a refresh token is unique.
  pub switch_org_foreign :
      (d : Draw) (later : ℕ) (raw : String) (org : ℕ) (u : User) (db db' : Db)
      → ((t s : RefreshToken)
          → Has t db.refresh_tokens
          → Has s db.refresh_tokens
          → same_text t.token_hash (c.hash_opaque_token raw) ≡ true
          → same_text s.token_hash (c.hash_opaque_token raw) ≡ true
          → t.id ≡ s.id)
      → claim_refresh_token c d.now raw db ≡ (ok u, db')
      → any (λ m. m.user_id == u.id && m.organization_id == org) db'.user_organization_roles ≡ false
      → (switch_org c d raw org db ≡ (err not_found, db'))
        × (claim_refresh_token c later raw db' ≡ (err unauthorized, db'))
  unfolding switch_org
  switch_org_foreign d later raw org u db db' unique claimed foreign =
      let mine = λ (m : UserOrganizationRole). m.user_id == u.id && m.organization_id == org in
      let (_, _, size) = p.find_many-Lists mine db'.user_organization_roles in
      let empty : is_empty (p.find_many mine db'.user_organization_roles) ≡ true =
        empty_of_length (p.find_many mine db'.user_organization_roles)
          (ground (arith, count-none mine (λ m. m) db'.user_organization_roles foreign)) in
      (ground arith, claim_refresh_token_once c d.now later raw u db db' unique claimed)
