-- ===== src/Organizations/Invitations.antt =====
-- `inviteStaff` and `acceptInvitation` of OrganizationsService.
use recruit_saas.Common.{
  ℕ, ◌≡◌, refl, sym, ap, subst, ◌∙◌, ◌⊎◌, inl, inr, true, false, Option, some, none, String, List,
  ◌∷◌, not, ◌==◌, ◌&&◌, ◌||◌, ltb, arith, any, modify, Has, Bool-cases, any-Has, is_some, same_text,
  count-some, eq_iff,
}
use recruit_saas.Schema.{Db, User, Role, Organization, Invitation, organization_active}
use recruit_saas.Prisma.{
  Prisma, Error, ok, err, bad_request, conflict, unique_violation, row_missing, Result-cases,
}
use recruit_saas.Prisma.Keys.{UniqueBy, find_first-cases, update_many-spent}
use recruit_saas.Tables.{invitation_clash, user_organization_role_clash}
use recruit_saas.Auth.{Crypto, Draw, Register, new_user}
use recruit_saas.Auth.Sessions.{create_verified_account-cases}
use recruit_saas.Organizations.Approval.{find_organization}
use recruit_saas.Organizations.{
  CreateInvitation, AcceptInvitation, new_invitation, new_membership, as_accepted, non_invitable,
  is_membership, is_pending, require_own_organization, refuse_role_held, invite_staff,
  valid_invitation, claim_invitation, invited_account, user_of_invitation, add_membership, join,
  accept_invitation,
}

-- What `acceptInvitation` asks of the row it finds.
pub record IsOpenInvitation (c : Crypto) (db : Db) (now : ℕ) (raw : String) (i : Invitation)
    : Type 0 where
  pub held : Has i db.invitations
  pub matches : same_text i.token_hash (c.hash_opaque_token raw) ≡ true
  pub unaccepted : is_some i.accepted_at ≡ false
  pub unexpired : ltb i.expires_at now ≡ false

module _ ⦃p : Prisma⦄ (c : Crypto) where
  -- Of two requests that both passed the checks with the same invitation, the one that claims it second
  -- is refused and changes nothing.
  pub claim_invitation_once :
      (now later : ℕ) (i : Invitation) (db : Db)
      → claim_invitation c later i (claim_invitation c now i db).1
        ≡ (err bad_request, (claim_invitation c now i db).1)
  unfolding claim_invitation
  claim_invitation_once now later i db = ground (
    arith,
    update_many-spent (λ (x : Invitation). x.id == i.id && not (is_some x.accepted_at))
        (as_accepted now) (as_accepted later) db.invitations (λ r. ground arith),
  )

  refuse_role_held-reads :
      (u : Option User) (org role_id : ℕ) (db : Db)
      → (refuse_role_held u org role_id db ≡ (err conflict, db))
        ⊎ (refuse_role_held u org role_id db ≡ (ok tt, db))
  unfolding refuse_role_held
  refuse_role_held-reads none org role_id db = inr refl
  refuse_role_held-reads (some u) org role_id db =
      elim (Bool-cases
        (is_some (p.find_first (is_membership u.id org role_id) db.user_organization_roles))) [
          | inl e ↦ inl (ground arith)
          | inr e ↦ inr (ground arith)
        ]

  -- An invitation is refused and nothing changes; or the organization is active, the role is one that
  -- can be given, no invitation of the address for that role is pending, and one invitation is added
  -- which holds the hash of the drawn token. The ids of organizations are distinct.
  pub invite_staff_sound :
      (d : Draw) (dto : CreateInvitation) (o : Organization) (db : Db)
      → UniqueBy (λ (x : Organization). x.id) db.organizations
      → Has o db.organizations
      → ((e : Error) × (invite_staff c d (some o.id) dto db ≡ (err e, db)))
        ⊎ ((r : Role) × Has r db.roles
            × (same_text r.key dto.role_key ≡ true)
            × (non_invitable r ≡ false)
            × (organization_active o.status ≡ true)
            × (any
                  (λ i. is_pending d.now o.id i && same_text i.email dto.email && i.role_id == r.id)
                  db.invitations
                ≡ false)
            × (invite_staff c d (some o.id) dto db ≡ (
              ok (new_invitation c d o.id dto.email r.id),
              record db { invitations = new_invitation c d o.id dto.email r.id ∷ db.invitations },
            )))
  unfolding invite_staff require_own_organization
  invite_staff_sound d dto o db k h =
      let found = find_organization o db k h in
      elim (Bool-cases (organization_active o.status)) [
        | inr idle ↦ inl (conflict, ground (arith, found))
        | inl on ↦ elim (find_first-cases (λ (r : Role). same_text r.key dto.role_key) db.roles) [
          | inl (e, _) ↦ inl (bad_request, ground (arith, found))
          | inr (r, e, met, has) ↦ elim (Bool-cases (non_invitable r)) [
            | inl no_one ↦ inl (bad_request, ground (arith, found))
            | inr given ↦
                let existing = p.find_first (λ (u : User). same_text u.email dto.email) db.users in
                let same = λ (i : Invitation).
                  is_pending d.now o.id i && same_text i.email dto.email && i.role_id == r.id in
                let new = new_invitation c d o.id dto.email r.id in
                elim (refuse_role_held-reads existing o.id r.id db) [
                  | inl has_role ↦ inl (conflict, ground (arith, found))
                  | inr free ↦ elim (find_first-cases same db.invitations) [
                    | inr (i, f, _, _) ↦ inl (conflict, ground (arith, found))
                    | inl (f, none_pending) ↦
                        elim (Bool-cases (any (invitation_clash new) db.invitations)) [
                          | inl clash ↦ inl (
                            unique_violation,
                            ground (arith, found, p.create-eq invitation_clash new db.invitations),
                          )
                          | inr fresh ↦ inr (
                            r,
                            has,
                            met,
                            given,
                            on,
                            none_pending,
                            ground (arith, found, p.create-eq invitation_clash new db.invitations),
                          )
                        ]
                  ]
                ]
          ]
        ]
      ]

  valid_invitation-cases :
      (now : ℕ) (raw : String) (db : Db)
      → (valid_invitation c now raw db ≡ (err bad_request, db))
        ⊎ ((i : Invitation) × IsOpenInvitation c db now raw i
            × (valid_invitation c now raw db ≡ (ok i, db)))
  unfolding valid_invitation
  valid_invitation-cases now raw db =
      elim (find_first-cases (λ (i : Invitation). same_text i.token_hash (c.hash_opaque_token raw))
        db.invitations) [
          | inl (e, _) ↦ inl (ground arith)
          | inr (i, e, met, has) ↦
              elim (Bool-cases (is_some i.accepted_at || ltb i.expires_at now)) [
                | inl bad ↦ inl (ground arith)
                | inr good ↦ inr (
                  i,
                  record {
                    held = has;
                    matches = met;
                    unaccepted = ground arith;
                    unexpired = ground arith;
                  },
                  ground arith,
                )
              ]
        ]

  -- Whatever it found, the step that adds the membership leaves one in the table, and writes no other.
  add_membership-Has :
      (membership_id user_id : ℕ) (i : Invitation) (db : Db)
      → let done =
          add_membership c membership_id user_id i
            (p.find_first
              (is_membership user_id i.organization_id i.role_id)
              db.user_organization_roles)
            db in
        done.0 ≡ ok tt
        → (any (is_membership user_id i.organization_id i.role_id) done.1.user_organization_roles
            ≡ true)
          × (done.1.users ≡ db.users)
          × (done.1.invitations ≡ db.invitations)
  unfolding add_membership
  add_membership-Has membership_id user_id i db done =
      let m = new_membership membership_id user_id i.organization_id i.role_id in
      elim (find_first-cases (is_membership user_id i.organization_id i.role_id)
        db.user_organization_roles) [
          | inr (x, e, met, has) ↦ (
            ground (
              arith,
              any-Has (is_membership user_id i.organization_id i.role_id) x
                  db.user_organization_roles has met,
            ),
            ground arith,
            ground arith,
          )
          | inl (e, _) ↦
              elim (Bool-cases (any (user_organization_role_clash m) db.user_organization_roles)) [
                | inl clash ↦ absurd (
                    ground (
                      arith,
                      p.create-eq user_organization_role_clash m db.user_organization_roles,
                    ))
                | inr fresh ↦
                    let made =
                      p.create-eq user_organization_role_clash m db.user_organization_roles in
                    (ground (arith, made), ground (arith, made), ground (arith, made))
              ]
        ]

  invited_account-cases :
      (d : Draw) (email : String) (name password : Option String) (db : Db)
      → ((e : Error) × ((invited_account c d email name password db).0 ≡ err e))
        ⊎ ((u : User) × (same_text u.email email ≡ true)
            × (invited_account c d email name password db
                ≡ (ok u, record db { users = u ∷ db.users })))
  unfolding invited_account
  invited_account-cases d email none password db = inl (bad_request, refl)
  invited_account-cases d email (some name) none db = inl (bad_request, refl)
  invited_account-cases d email (some name) (some password) db =
      let dto : Register = record { email = email; password = password; full_name = name } in
      elim (Bool-cases (same_text name "" || same_text password "")) [
        | inl empty ↦ inl (bad_request, ground arith)
        | inr given ↦ elim (create_verified_account-cases c d dto db) [
          | inl (e, failed) ↦ inl (e, ground arith)
          | inr made ↦
              inr (new_user c d.user_id dto true, (eq_iff email email).1 refl, ground arith)
        ]
      ]

  -- The user of the invitation is found, or made.
  user_of_invitation-cases :
      (d : Draw) (i : Invitation) (dto : AcceptInvitation) (db : Db)
      → ((e : Error) × ((user_of_invitation c d i dto
              (p.find_first (λ u. same_text u.email i.email) db.users)
              db).0
            ≡ err e))
        ⊎ ((u : User) × (users : List User) × Has u users
            × (same_text u.email i.email ≡ true)
            × (user_of_invitation c d i dto
                  (p.find_first (λ u. same_text u.email i.email) db.users)
                  db
                ≡ (ok u, record db { users = users })))
  unfolding user_of_invitation
  user_of_invitation-cases d i dto db =
      elim (find_first-cases (λ (u : User). same_text u.email i.email) db.users) [
        | inr (u, e, met, has) ↦ inr (u, db.users, has, met, ground arith)
        | inl (e, _) ↦ elim (invited_account-cases d i.email dto.full_name dto.password db) [
          | inl (x, failed) ↦ inl (x, ground arith)
          | inr (u, met, made) ↦ inr (u, u ∷ db.users, inl refl, met, ground arith)
        ]
      ]

  claim_invitation-open :
      (now : ℕ) (raw : String) (i : Invitation) (db : Db)
      → IsOpenInvitation c db now raw i
      → claim_invitation c now i db ≡ (
        ok tt,
        record db {
          invitations =
              modify
                (λ x. x.id == i.id && not (is_some x.accepted_at))
                (as_accepted now)
                db.invitations;
        },
      )
  unfolding claim_invitation
  claim_invitation-open now raw i db opened =
      let guard = λ (x : Invitation). x.id == i.id && not (is_some x.accepted_at) in
      let here = opened.unaccepted in
      ground (
        arith,
        p.update_many-eq guard (as_accepted now) db.invitations,
        count-some guard db.invitations (any-Has guard i db.invitations opened.held (ground arith)),
      )

  join_lem :
      (d : Draw) (membership_id : ℕ) (i : Invitation) (dto : AcceptInvitation) (r : Role) (u : User)
      (db db1 db2 db3 : Db)
      → claim_invitation c d.now i db ≡ (ok tt, db1)
      → p.find_first (λ x. x.id == i.role_id) db1.roles ≡ some r
      → user_of_invitation c d i dto (p.find_first (λ u. same_text u.email i.email) db1.users) db1
        ≡ (ok u, db2)
      → add_membership c membership_id u.id i
          (p.find_first
            (is_membership u.id i.organization_id i.role_id)
            db2.user_organization_roles)
          db2
        ≡ (ok tt, db3)
      → join c d membership_id i dto db ≡ (ok r, db3)
  unfolding join
  join_lem d membership_id i dto r u db db1 db2 db3 claimed role_found made added =
      rw (claimed, role_found, made, added) refl

  -- Accepting an invitation is refused and nothing changes at all, also the claim; or the token is that of
  -- an open invitation, which is marked accepted, and a user with the invited address stands in the
  -- table and holds the invited role in the organization.
  pub accept_invitation_sound :
      (d : Draw) (membership_id : ℕ) (raw : String) (dto : AcceptInvitation) (db : Db)
      → ((e : Error) × (accept_invitation c d membership_id raw dto db ≡ (err e, db)))
        ⊎ ((i : Invitation) × (r : Role) × (u : User) × IsOpenInvitation c db d.now raw i
            × Has r db.roles
            × (r.id ≡ i.role_id)
            × ((accept_invitation c d membership_id raw dto db).0 ≡ ok r)
            × ((accept_invitation c d membership_id raw dto db).1.invitations
                ≡ modify
                    (λ x. x.id == i.id && not (is_some x.accepted_at))
                    (as_accepted d.now)
                    db.invitations)
            × Has u (accept_invitation c d membership_id raw dto db).1.users
            × (same_text u.email i.email ≡ true)
            × (any
                  (is_membership u.id i.organization_id i.role_id)
                  (accept_invitation c d membership_id raw dto db).1.user_organization_roles
                ≡ true))
  unfolding accept_invitation join
  accept_invitation_sound d membership_id raw dto db = elim (valid_invitation-cases d.now raw db) [
    | inl refused ↦ inl (bad_request, ground arith)
    | inr (i, opened, valid) ↦
        let claimed = claim_invitation-open d.now raw i db opened in
        let db1 : Db = record db {
          invitations =
              modify (λ x. x.id == i.id && not (is_some x.accepted_at)) (as_accepted d.now)
                db.invitations;
        } in
        elim (find_first-cases (λ (r : Role). r.id == i.role_id) db.roles) [
          | inl (e, _) ↦ inl (row_missing, ground arith)
          | inr (r, e, met, has) ↦ elim (user_of_invitation-cases d i dto db1) [
            | inl (x, failed) ↦ inl (x, ground arith)
            | inr (u, users, there, same, made) ↦
                let db2 : Db = record db1 { users = users } in
                let added =
                  add_membership c membership_id u.id i
                    (p.find_first (is_membership u.id i.organization_id i.role_id)
                      db2.user_organization_roles)
                    db2 in
                elim (Result-cases added.0) [
                  | inr (x, clash) ↦ inl (x, ground arith)
                  | inl (_, done) ↦
                      let (member, same_users, same_invitations) =
                        add_membership-Has membership_id u.id i db2 done in
                      let joined : join c d membership_id i dto db ≡ (ok r, added.1) =
                        join_lem d membership_id i dto r u db db1 db2 added.1 claimed e made
                          (ap (λ x. (x, added.1)) done) in
                      let answer : accept_invitation c d membership_id raw dto db
                          ≡ (ok r, added.1) =
                        rw (valid, joined) refl in
                      let after : (accept_invitation c d membership_id raw dto db).1 ≡ added.1 =
                        ap (λ x. x.1) answer in
                      inr (
                        i,
                        r,
                        u,
                        opened,
                        has,
                        ground arith,
                        ap (λ x. x.0) answer,
                        ap (λ (x : Db). x.invitations) after ∙ same_invitations,
                        subst (λ (x : Db). Has u x.users) (sym after)
                            (subst (Has u) (sym same_users) there),
                        same,
                        ap
                              (λ (x : Db).
                                any (is_membership u.id i.organization_id i.role_id)
                                  x.user_organization_roles)
                              after
                            ∙ member,
                      )
                ]
          ]
        ]
  ]
