-- ===== src/Candidates/Cvs.antt =====
-- The CVs of a candidate: what is taken, what may go, and that at most one of them is the primary one.
use recruit_saas.Common.{
  ℕ, ◌≤◌, ◌≡◌, refl, subst, ◌⊎◌, inl, inr, String, Bool, true, false, some, none, Option, ◌∷◌, ◌==◌,
  ◌&&◌, ◌||◌, ltb, arith, any, count, reject, Has, Bool-cases, same_text, eq_iff, ==_iff,
  count-reject, count_both-le,
}
use recruit_saas.Schema.{Db, Cv}
use recruit_saas.Prisma.{Prisma, ok, err, bad_request, not_found, foreign_key_violation}
use recruit_saas.Prisma.Keys.{UniqueBy, find_first-key, create-free}
use recruit_saas.Storage.{Platform, upload, discard, stored, new_key}
use recruit_saas.Candidates.Signature.{detect_cv_file_kind}
use recruit_saas.Candidates.{
  File, set_primary_cv, delete_cv, accepted_file, upload_cv, is_unknown, max_cv_size_bytes,
  cv_in_use, new_cv,
}
use recruit_saas.Candidates.Lists.{ensure_profile_lem}
use recruit_saas.Candidates.Primary.{
  OnePrimary, is_primary_of, set_primary_cv_sound, require_own_cv-cases,
}

module _ ⦃p : Prisma⦄ (n : Platform) where
  -- Why a file is not taken: there is none, it is too large, or it is of no known kind.
  abbrev pub is_refused : Option File → Bool
  is_refused none = true
  is_refused (some file) =
      ltb max_cv_size_bytes file.size || is_unknown (detect_cv_file_kind file.buffer)

  accepted_file-cases :
      (given : Option File) (db : Db)
      → ((is_refused given ≡ true) × (accepted_file n given db ≡ (err bad_request, db)))
        ⊎ ((file : File) × (given ≡ some file)
            × (is_refused given ≡ false)
            × (accepted_file n given db ≡ (ok file, db)))
  unfolding accepted_file
  accepted_file-cases none db = inl (refl, refl)
  accepted_file-cases (some file) db = elim (Bool-cases (ltb max_cv_size_bytes file.size)) [
    | inl large ↦ inl (ground arith, ground arith)
    | inr fits ↦ elim (Bool-cases (is_unknown (detect_cv_file_kind file.buffer))) [
      | inl unknown ↦ inl (ground arith, ground arith)
      | inr known ↦ inr (file, refl, ground arith, ground arith)
    ]
  ]

  -- `uploadCv` of a file that is missing, larger than five megabytes, or neither PDF, DOC nor DOCX is
  -- refused, and nothing changes. Any other file is taken: the CV is the answer and the only one that is
  -- added, it is primary exactly when it is the first of the candidate, and its file is stored.
  pub upload_cv_sound :
      (new_id : ℕ) (random_hex : String) (user_id : ℕ) (given : Option File) (db : Db)
      → let after = (upload_cv n new_id random_hex user_id given db).1 in
        ((is_refused given ≡ true)
          × (upload_cv n new_id random_hex user_id given db ≡ (err bad_request, db)))
        ⊎ ((file : File) × (given ≡ some file)
            × (is_refused given ≡ false)
            × let row =
                new_cv new_id user_id
                  (new_key n random_hex file.original_name)
                  file.original_name
                  (count (λ c. c.candidate_id == user_id) db.cvs == 0) in
              ((upload_cv n new_id random_hex user_id given db).0 ≡ ok row)
              × (after.cvs ≡ row ∷ db.cvs)
              × (stored row.file_key after.stored_files
                  ≡ some (record { key = row.file_key; bytes = file.buffer }))
              × (any (λ x. x.user_id == user_id) after.profiles ≡ true))
  unfolding upload_cv upload
  upload_cv_sound new_id random_hex user_id given db = elim (accepted_file-cases given db) [
    | inl (why, refused) ↦ inl (why, ground arith)
    | inr (file, same, fine, accepted) ↦
        let own = λ (c : Cv). c.candidate_id == user_id in
        let key = new_key n random_hex file.original_name in
        let row = new_cv new_id user_id key file.original_name (count own db.cvs == 0) in
        let added : p.create (λ _ _. false) row db.cvs ≡ some (row ∷ db.cvs) =
          create-free row db.cvs in
        let held : same_text key key ≡ true = (eq_iff key key).1 refl in
        inr (
          file,
          same,
          fine,
          elim (ensure_profile_lem user_id db) [
            | inl (there, (r, has, mine, ensured)) ↦
                rw (accepted, ensured, p.count_rows-eq own db.cvs, added, held)
                  (refl, refl, refl, there)
            | inr (missing, ensured) ↦
                rw (accepted, ensured, p.count_rows-eq own db.cvs, added, held)
                  (refl, refl, refl, ground arith)
          ],
        )
  ]

  -- `deleteCv`: another's CV, or none, is not found; a CV that an application was made with is refused by
  -- the database; in both cases nothing changes. Otherwise the CV and its file are gone, and nothing else
  -- changes. The ids of CVs are distinct.
  pub delete_cv_sound :
      (user_id cv_id : ℕ) (db : Db)
      → UniqueBy (λ (c : Cv). c.id) db.cvs
      → ((delete_cv n user_id cv_id db ≡ (err not_found, db))
          × (any (λ c. c.id == cv_id && c.candidate_id == user_id) db.cvs ≡ false))
        ⊎ ((row : Cv) × Has row db.cvs
            × (row.id ≡ cv_id)
            × (row.candidate_id ≡ user_id)
            × (((cv_in_use db row ≡ true)
                  × (delete_cv n user_id cv_id db ≡ (err foreign_key_violation, db)))
                ⊎ ((cv_in_use db row ≡ false)
                    × (delete_cv n user_id cv_id db ≡ (
                      ok tt,
                      record db {
                        cvs = reject (λ c. c.id == row.id) db.cvs;
                        stored_files = reject (λ f. same_text f.key row.file_key) db.stored_files;
                      },
                    )))))
  unfolding delete_cv discard
  delete_cv_sound user_id cv_id db u = elim (require_own_cv-cases user_id cv_id db) [
    | inl (refused, nothing) ↦ inl (ground arith, nothing)
    | inr (row, passed, has, same, own) ↦
        let by_id = λ (c : Cv). c.id == row.id in
        let found =
          find_first-key (λ (c : Cv). c.id) by_id row db.cvs u has ((==_iff row.id row.id).1 refl)
            (λ x. (==_iff x.id row.id).0) in
        inr (
          row,
          has,
          same,
          own,
          elim (Bool-cases (cv_in_use db row)) [
            | inl used ↦ inl (used, rw (passed, found, used) refl)
            | inr free ↦ inr (free, rw (passed, found, free, p.delete_many-eq by_id db.cvs) refl)
          ],
        )
  ]

  -- A new CV that is primary exactly when it is the first of its candidate.
  first_upload_one :
      (user_id other new_id : ℕ) (key name : String) (db : Db)
      → OnePrimary db
      → count (is_primary_of other) (
          new_cv new_id user_id key name (count (λ c. c.candidate_id == user_id) db.cvs == 0)
          ∷ db.cvs)
        ≤ 1
  first_upload_one user_id other new_id key name db one =
      let own = λ (c : Cv). c.candidate_id == user_id in
      elim (Bool-cases (count own db.cvs == 0)) [
        | inl first ↦ elim (Bool-cases (user_id == other)) [
          | inl same ↦
              let q : user_id ≡ other = ground arith in
              let fewer : count (is_primary_of other) db.cvs ≤ count own db.cvs =
                subst (λ u. count (is_primary_of u) db.cvs ≤ count own db.cvs) q
                  (count_both-le own (λ c. c.is_primary) db.cvs) in
              ground (arith, fewer)
          | inr apart ↦ ground (arith, one other)
        ]
        | inr later ↦ ground (arith, one other)
      ]

  -- No call gives a candidate a second primary CV: not the upload of a CV, not the choice of the primary
  -- one, not the deletion of one, for any arguments. The ids of CVs are distinct.
  pub OnePrimary-kept :
      (user_id : ℕ) (db : Db)
      → UniqueBy (λ (c : Cv). c.id) db.cvs
      → OnePrimary db
      → ((new_id : ℕ) (random_hex : String) (given : Option File)
          → OnePrimary (upload_cv n new_id random_hex user_id given db).1)
        × ((cv_id : ℕ) → OnePrimary (set_primary_cv user_id cv_id db).1)
        × ((cv_id : ℕ) → OnePrimary (delete_cv n user_id cv_id db).1)
  OnePrimary-kept user_id db u one = (
    (λ new_id random_hex given other. elim (upload_cv_sound new_id random_hex user_id given db) [
      | inl (_, refused) ↦ rw refused (one other)
      | inr (file, _, _, (_, cvs, _, _)) ↦ rw cvs (
          first_upload_one user_id other new_id (new_key n random_hex file.original_name)
            file.original_name db one)
    ]),
    (λ cv_id other. elim (set_primary_cv_sound user_id cv_id db u) [
      | inl (refused, _) ↦ rw refused (one other)
      | inr (row, _, _, _, done, own, others) ↦ rw done (elim (Bool-cases (other == user_id)) [
        | inl same ↦ let q : other ≡ user_id = ground arith in rw q (rw own (omega arith))
        | inr apart ↦ rw (others other (λ q. ground arith)) (one other)
      ])
    ]),
    (λ cv_id other. elim (delete_cv_sound user_id cv_id db u) [
      | inl (refused, _) ↦ rw refused (one other)
      | inr (row, _, _, _, inl (_, refused)) ↦ rw refused (one other)
      | inr (row, _, _, _, inr (_, done)) ↦ rw done (
          let fewer = count-reject (is_primary_of other) (λ c. c.id == row.id) db.cvs in
          let before = one other in omega arith)
    ]),
  )
