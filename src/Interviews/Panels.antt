-- ===== src/Interviews/Panels.antt =====
-- What `schedule` and `reschedule` of InterviewsService write for the panel, and what they read of its
-- members.
use recruit_saas.Common.{
  ℕ, suc, ◌≡◌, refl, true, false, List, [], ◌∷◌, ◌==◌, ◌&&◌, arith, any, All, Has, All-Has,
  Has-of_any, not-Has, any-Has, false_of_not,
}
use recruit_saas.Schema.{Db, InterviewPanelMember, Notification, Payload, UserOrganizationRole}
use recruit_saas.Prisma.{Prisma, ok}
use recruit_saas.Prisma.Keys.{create-free}
use recruit_saas.Tables.{interview_panel_member_clash}
use recruit_saas.Notifications.{notify, new_notification}
use recruit_saas.Interviews.{new_member, is_among, is_missing, create_panel, notify_all}

-- The rows of a panel, the last that was added first, on top of the rows before.
abbrev pub panel_rows :
    (ℕ → ℕ) → ℕ → ℕ → List ℕ → List InterviewPanelMember → List InterviewPanelMember
panel_rows member_id interview_id index [] rows = rows
panel_rows member_id interview_id index (x ∷ xs) rows =
    panel_rows member_id interview_id (suc index) xs
      (new_member (member_id index) interview_id x ∷ rows)

abbrev pub note_rows : (ℕ → ℕ) → Payload → ℕ → List ℕ → List Notification → List Notification
note_rows note_id payload index [] rows = rows
note_rows note_id payload index (x ∷ xs) rows =
    note_rows note_id payload (suc index) xs (new_notification (note_id index) x payload ∷ rows)

-- `@ArrayUnique()`
abbrev pub AreDistinct : List ℕ → Type 0
AreDistinct [] = Unit
AreDistinct (x ∷ xs) = All (λ y. y ≡ x → ⊥) xs × AreDistinct xs

-- No row puts one of the interviewers on the panel of the interview.
abbrev pub IsFree : ℕ → List ℕ → List InterviewPanelMember → Type 0
IsFree interview_id ids rows =
    All (λ y. any (λ m. interview_id == m.interview_id && y == m.interviewer_id) rows ≡ false) ids

IsFree-after :
    (interview_id id x : ℕ) (xs : List ℕ) (rows : List InterviewPanelMember)
    → All (λ y. y ≡ x → ⊥) xs
    → IsFree interview_id xs rows
    → IsFree interview_id xs (new_member id interview_id x ∷ rows)
IsFree-after interview_id id x [] rows d f = tt
IsFree-after interview_id id x (y ∷ xs) rows d f =
    (ground (arith, d.0, f.0), IsFree-after interview_id id x xs rows d.1 f.1)

module _ ⦃p : Prisma⦄ where
  pub create_panel_lem :
      (member_id : ℕ → ℕ) (interview_id index : ℕ) (ids : List ℕ) (db : Db)
      → AreDistinct ids
      → IsFree interview_id ids db.panel_members
      → create_panel member_id interview_id index ids db ≡ (
        ok tt,
        record db { panel_members = panel_rows member_id interview_id index ids db.panel_members },
      )
  unfolding create_panel
  create_panel_lem member_id interview_id index [] db d f = refl
  create_panel_lem member_id interview_id index (x ∷ xs) db d f = ground (
    arith,
    p.create-eq interview_panel_member_clash (new_member (member_id index) interview_id x)
        db.panel_members,
    f.0,
    create_panel_lem member_id interview_id (suc index) xs
        (record db {
          panel_members = new_member (member_id index) interview_id x ∷ db.panel_members;
        })
        d.1 (IsFree-after interview_id (member_id index) x xs db.panel_members d.0 f.1),
  )

  pub notify_all_lem :
      (note_id : ℕ → ℕ) (payload : Payload) (index : ℕ) (ids : List ℕ) (db : Db)
      → notify_all note_id payload index ids db ≡ (
        ok tt,
        record db { notifications = note_rows note_id payload index ids db.notifications },
      )
  unfolding notify_all notify
  notify_all_lem note_id payload index [] db = refl
  notify_all_lem note_id payload index (x ∷ xs) db = ground (
    arith,
    create-free (new_notification (note_id index) x payload) db.notifications,
    notify_all_lem note_id payload (suc index) xs (record db {
      notifications = new_notification (note_id index) x payload ∷ db.notifications;
    }),
  )

  pub none_missing :
      (ms : List UserOrganizationRole) (ids : List ℕ)
      → All (λ x. any (λ m. m.user_id == x) ms ≡ true) ids
      → any (is_missing ms) ids ≡ false
  none_missing ms [] a = refl
  none_missing ms (x ∷ xs) a = ground (arith, none_missing ms xs a.1, a.0)

  -- The memberships that `requireOrgMembers` reads.
  abbrev pub memberships : Db → ℕ → List ℕ → List UserOrganizationRole
  memberships db org ids =
      p.find_many (λ m. m.organization_id == org && is_among ids m.user_id)
        db.user_organization_roles

  pub member_listed :
      (db : Db) (org : ℕ) (ids : List ℕ) (x : ℕ)
      → Has x ids
      → any (λ m. m.organization_id == org && m.user_id == x) db.user_organization_roles ≡ true
      → any (λ m. m.user_id == x) (memberships db org ids) ≡ true
  member_listed db org ids x h e =
      let (m, has, met) =
        Has-of_any (λ m. m.organization_id == org && m.user_id == x) db.user_organization_roles e in
      let among : is_among ids m.user_id ≡ true =
        any-Has (λ y. y == m.user_id) x ids h (ground arith) in
      any-Has (λ m. m.user_id == x) m (memberships db org ids)
        (All-Has _ m db.user_organization_roles
          (p.find_many-Lists (λ m. m.organization_id == org && is_among ids m.user_id)
            db.user_organization_roles).1
          has (ground arith))
        (ground arith)

  pub outsider_unlisted :
      (db : Db) (org : ℕ) (ids : List ℕ) (x : ℕ)
      → any (λ m. m.organization_id == org && m.user_id == x) db.user_organization_roles ≡ false
      → any (λ m. m.user_id == x) (memberships db org ids) ≡ false
  outsider_unlisted db org ids x e =
      false_of_not (any (λ m. m.user_id == x) (memberships db org ids)) (λ listed.
        let (m, has, met) = Has-of_any (λ m. m.user_id == x) (memberships db org ids) listed in
        let (cond, there) =
          All-Has _ m (memberships db org ids)
            (p.find_many-Lists (λ m. m.organization_id == org && is_among ids m.user_id)
              db.user_organization_roles).0
            has in
        absurd (
          ground (
            arith,
            not-Has (λ m. m.organization_id == org && m.user_id == x) m db.user_organization_roles e
                there,
          )))
