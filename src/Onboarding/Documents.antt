-- ===== src/Onboarding/Documents.antt =====
-- Documents that candidates upload for the tasks of their checklist.
use recruit_saas.Common.{
  ℕ, ◌≤◌, ◌≡◌, refl, sym, ◌∙◌, ◌⊎◌, inl, inr, String, true, Option, none, some, List, ltb, arith,
  Bool-cases, ◌==◌, ◌&&◌, same_text, eq_iff,
}
use recruit_saas.Schema.{Db, Document, OnboardingTask, OnboardingChecklist}
use recruit_saas.Prisma.{Prisma, Result, Error, ok, err, bad_request, not_found, Result-cases}
use recruit_saas.Prisma.Keys.{create-free, find_first-cases}
use recruit_saas.Storage.{Platform, upload, stored, new_key}
use recruit_saas.Candidates.{File}
use recruit_saas.Offers
use recruit_saas.Onboarding.{upload_document, new_document, max_document_size_bytes}

module _ ⦃p : Prisma⦄ (n : Platform) where
  -- A document is refused, and no document and no file is written; or it has at most five megabytes: then
  -- the answer is the document, for the task, the only one that is added, and its file is stored.
  pub upload_document_sound :
      (new_id : ℕ) (random_hex : String) (now candidate_id application_id task_id : ℕ)
      (given : Option File) (db : Db)
      → let after =
          (upload_document n new_id random_hex now candidate_id application_id task_id given
            db).1 in
        let answer =
          (upload_document n new_id random_hex now candidate_id application_id task_id given
            db).0 in
        ((e : Error) × (answer ≡ err e))
        ⊎ ((file : File) × (given ≡ some file)
            × (file.size ≤ max_document_size_bytes)
            × let d =
                new_document new_id task_id candidate_id
                  (new_key n random_hex file.original_name)
                  file.original_name in
              ((answer ≡ ok d)
                × (stored d.file_key after.stored_files
                    ≡ some (record { key = d.file_key; bytes = file.buffer }))))
  unfolding upload_document upload
  upload_document_sound new_id random_hex now candidate_id application_id task_id none db =
      inl (bad_request, refl)
  upload_document_sound new_id random_hex now candidate_id application_id task_id (some file) db =
      elim (Bool-cases (ltb max_document_size_bytes file.size)) [
        | inl large ↦ inl (bad_request, rw large refl)
        | inr fits ↦ elim (Result-cases (Offers.get_mine now candidate_id application_id db).0) [
          | inr (e, refused) ↦ inl (e, rw (fits, refused) refl)
          | inl (o, offered) ↦
              let db' = (Offers.get_mine now candidate_id application_id db).1 in
              elim (find_first-cases (λ (c : OnboardingChecklist). c.offer_id == o.id)
                db'.checklists) [
                  | inl (missing, _) ↦ inl (not_found, rw (fits, offered, missing) refl)
                  | inr (c, found, _, _) ↦
                      elim (find_first-cases
                        (λ (t : OnboardingTask). t.id == task_id && t.checklist_id == c.id)
                        db'.tasks) [
                          | inl (missing, _) ↦
                              inl (not_found, rw (fits, offered, found, missing) refl)
                          | inr (t, found', met, _) ↦
                              let key = new_key n random_hex file.original_name in
                              let d =
                                new_document new_id t.id candidate_id key file.original_name in
                              let here : t.id ≡ task_id = ground arith in
                              let held : same_text key key ≡ true = (eq_iff key key).1 refl in
                              inr (
                                file,
                                refl,
                                ground arith,
                                rw
                                    (
                                      fits,
                                      offered,
                                      found,
                                      found',
                                      create-free d db'.documents,
                                      held,
                                      here,
                                    )
                                    (refl, refl),
                              )
                        ]
                ]
        ]
      ]

  answer_of_any_bytes :
      (new_id : ℕ) (random_hex : String) (now candidate_id application_id task_id : ℕ) (file : File)
      (db : Db)
      → (r : Result Document) × ((buffer : List ℕ)
          → (upload_document n new_id random_hex now candidate_id application_id task_id
              (some (record file { buffer = buffer }))
              db).0
            ≡ r)
  unfolding upload_document upload
  answer_of_any_bytes new_id random_hex now candidate_id application_id task_id file db =
      elim (Bool-cases (ltb max_document_size_bytes file.size)) [
        | inl large ↦ (err bad_request, λ buffer. rw large refl)
        | inr fits ↦ elim (Result-cases (Offers.get_mine now candidate_id application_id db).0) [
          | inr (e, refused) ↦ (err e, λ buffer. rw (fits, refused) refl)
          | inl (o, offered) ↦
              let db' = (Offers.get_mine now candidate_id application_id db).1 in
              elim (find_first-cases (λ (c : OnboardingChecklist). c.offer_id == o.id)
                db'.checklists) [
                  | inl (missing, _) ↦ (err not_found, λ buffer. rw (fits, offered, missing) refl)
                  | inr (c, found, _, _) ↦
                      elim (find_first-cases
                        (λ (t : OnboardingTask). t.id == task_id && t.checklist_id == c.id)
                        db'.tasks) [
                          | inl (missing, _) ↦
                              (err not_found, λ buffer. rw (fits, offered, found, missing) refl)
                          | inr (t, found', _, _) ↦
                              let d =
                                new_document new_id t.id candidate_id
                                  (new_key n random_hex file.original_name) file.original_name in
                              (
                                ok d,
                                λ buffer.
                                    rw (fits, offered, found, found', create-free d db'.documents)
                                      refl,
                              )
                        ]
                ]
        ]
      ]

  -- The bytes of a document are not looked at: where one is taken, the same file with any other bytes is
  -- taken in the same way.
  pub upload_document_unchecked :
      (new_id : ℕ) (random_hex : String) (now candidate_id application_id task_id : ℕ) (file : File)
      (buffer : List ℕ) (d : Document) (db : Db)
      → (upload_document n new_id random_hex now candidate_id application_id task_id
          (some file)
          db).0
        ≡ ok d
      → (upload_document n new_id random_hex now candidate_id application_id task_id
          (some (record file { buffer = buffer }))
          db).0
        ≡ ok d
  upload_document_unchecked new_id random_hex now candidate_id application_id task_id file buffer d
        db taken =
      let (r, same) =
        answer_of_any_bytes new_id random_hex now candidate_id application_id task_id file db in
      same buffer ∙ sym (same file.buffer) ∙ taken
