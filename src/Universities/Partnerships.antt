-- ===== src/Universities/Partnerships.antt =====
-- Partnerships of organizations with universities: one for each pair.
use recruit_saas.Common.{
  ℕ, ◌≡◌, refl, ◌⊎◌, inl, inr, Bool, true, false, some, List, ◌∷◌, ◌==◌, ◌&&◌, arith, any, any-ext,
  reject, Has, Bool-cases, count-none, count-some, reject-none, any-reject,
}
use recruit_saas.Schema.{Db, University, UniversityPartnership}
use recruit_saas.Prisma.{Prisma, ok, err, not_found, conflict, unprocessable}
use recruit_saas.Prisma.Keys.{find_first-cases}
use recruit_saas.Tables.{university_partnership_clash}
use recruit_saas.Universities.{create_partnership, remove_partnership}

abbrev pub is_partnership : ℕ → ℕ → UniversityPartnership → Bool
is_partnership org university_id x = x.organization_id == org && x.university_id == university_id

abbrev pub with_partnerships : List UniversityPartnership → Db → Db
with_partnerships rows db = record db { partnerships = rows }

module _ ⦃p : Prisma⦄ where
  -- A partnership is refused and nothing changes: the university does not exist, or the organization is a
  -- partner already. Otherwise it is added, nothing else changes, and the answer shows the university.
  pub create_partnership_sound :
      (new_id org university_id : ℕ) (db : Db)
      → ((create_partnership new_id (some org) university_id db ≡ (err unprocessable, db))
          × (any (λ u. u.id == university_id) db.universities ≡ false))
        ⊎ (((create_partnership new_id (some org) university_id db ≡ (err conflict, db))
              × (any (is_partnership org university_id) db.partnerships ≡ true))
            ⊎ ((u : University) × Has u db.universities
                × (u.id ≡ university_id)
                × (any (is_partnership org university_id) db.partnerships ≡ false)
                × (create_partnership new_id (some org) university_id db ≡ (
                  ok (record { id = new_id; university = u }),
                  with_partnerships
                      (record { id = new_id; organization_id = org; university_id = university_id }
                        ∷ db.partnerships)
                      db,
                ))))
  unfolding create_partnership
  create_partnership_sound new_id org university_id db =
      let row : UniversityPartnership = record {
        id = new_id;
        organization_id = org;
        university_id = university_id;
      } in
      let written = p.create-eq university_partnership_clash row db.partnerships in
      let same : any (university_partnership_clash row) db.partnerships
          ≡ any (is_partnership org university_id) db.partnerships =
        any-ext _ _ db.partnerships (λ x. ground arith) in
      elim (find_first-cases (λ (u : University). u.id == university_id) db.universities) [
        | inl (missing, nothing) ↦ inl (rw missing refl, nothing)
        | inr (u, found, met, has) ↦
            elim (Bool-cases (any (is_partnership org university_id) db.partnerships)) [
              | inl taken ↦ inr (inl (rw (found, written, same, taken) refl, taken))
              | inr free ↦
                  inr
                    (inr (u, has, ground arith, free, rw (found, written, same, free, found) refl))
            ]
      ]

  remove_partnership_missing :
      (org university_id : ℕ) (db : Db)
      → any (is_partnership org university_id) db.partnerships ≡ false
      → remove_partnership (some org) university_id db ≡ (err not_found, db)
  unfolding remove_partnership
  remove_partnership_missing org university_id db out =
      let c = is_partnership org university_id in
      rw
        (
          p.delete_many-eq c db.partnerships,
          count-none c (λ x. x) db.partnerships out,
          reject-none c db.partnerships out,
        )
        refl

  -- Ending a partnership that there is not is not found and changes nothing. Otherwise it is gone, and
  -- nothing else changes: afterwards it can be made again, and until then it is not found.
  pub remove_partnership_sound :
      (org university_id : ℕ) (db : Db)
      → ((remove_partnership (some org) university_id db ≡ (err not_found, db))
          × (any (is_partnership org university_id) db.partnerships ≡ false))
        ⊎ ((any (is_partnership org university_id) db.partnerships ≡ true)
            × let after =
                with_partnerships (reject (is_partnership org university_id) db.partnerships) db in
              ((remove_partnership (some org) university_id db ≡ (ok tt, after))
                × (remove_partnership (some org) university_id after ≡ (err not_found, after))))
  unfolding remove_partnership
  remove_partnership_sound org university_id db =
      let c = is_partnership org university_id in
      elim (Bool-cases (any c db.partnerships)) [
        | inr out ↦ inl (remove_partnership_missing org university_id db out, out)
        | inl there ↦
            let some_rows = count-some c db.partnerships there in
            inr (
              there,
              (
                rw (p.delete_many-eq c db.partnerships, some_rows) refl,
                remove_partnership_missing org university_id
                    (with_partnerships (reject c db.partnerships) db)
                    (any-reject c db.partnerships),
              ),
            )
      ]
