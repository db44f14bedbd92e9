-- ===== src/Onboarding/Checklists.antt =====
-- Onboarding checklists: who may start one, and that there is one for an offer.
use recruit_saas.Common.{
  ℕ, ◌≡◌, refl, ◌⊎◌, inl, inr, false, some, List, [], ◌∷◌, ◌==◌, ◌&&◌, arith, any, any-ext, Has,
  Bool-cases,
}
use recruit_saas.Schema.{
  Db, Application, Offer, OfferStatus, OnboardingChecklist, OnboardingTask, offer_accepted,
}
use recruit_saas.Prisma.{Prisma, Error, ok, err, not_found, conflict, create_many}
use recruit_saas.Prisma.Keys.{UniqueBy, find_first-cases, update-key, create-free}
use recruit_saas.Tables.{onboarding_task, onboarding_checklist_clash}
use recruit_saas.Applications
use recruit_saas.Applications.{require_job_application}
use recruit_saas.Offers
use recruit_saas.Offers.{
  require_offer_for_application, expire_if, expire_if_needed, is_overdue, as_expired,
}
use recruit_saas.Offers.Lifecycle.{with_offer}
use recruit_saas.Candidates.Replaced.{onto}
use recruit_saas.Onboarding.{
  AddTask, TaskDetail, ChecklistDetail, new_checklist, of_task, task_rows, to_detail,
  include_documents, create_checklist,
}

-- An offer for the application to this job, of the organization.
pub record IsOfferFor (db : Db) (org job_id application_id : ℕ) (o : Offer) : Type 0 where
  pub held : Has o db.offers
  pub of_application : o.application_id ≡ application_id
  pub of_organization : o.organization_id ≡ org
  pub applied :
      (a : Application) × Has a db.applications
      × (a.id ≡ application_id)
      × (a.job_id ≡ job_id)
      × (a.organization_id ≡ org)

module _ ⦃p : Prisma⦄ where
  -- What the offer service answers for a job: not found; the offer; or the offer of a closed window,
  -- which it has marked EXPIRED.
  pub get_offer-cases :
      (now org job_id application_id : ℕ) (db : Db)
      → UniqueBy (λ (o : Offer). o.id) db.offers
      → (Offers.get_for_job now (some org) job_id application_id db ≡ (err not_found, db))
        ⊎ ((o : Offer) × IsOfferFor db org job_id application_id o
            × ((Offers.get_for_job now (some org) job_id application_id db ≡ (ok o, db))
                ⊎ (Offers.get_for_job now (some org) job_id application_id db
                    ≡ (ok (as_expired o), with_offer o as_expired db))))
  unfolding Offers.get_for_job Applications.get_for_job require_job_application
      require_offer_for_application expire_if_needed expire_if
  get_offer-cases now org job_id application_id db u =
      elim (find_first-cases
        (λ a. a.id == application_id && a.job_id == job_id && a.organization_id == org)
        db.applications) [
          | inl (missing, _) ↦ inl (ground arith)
          | inr (a, found, met, has) ↦
              elim (find_first-cases
                (λ (o : Offer). o.application_id == application_id && o.organization_id == org)
                db.offers) [
                  | inl (missing, _) ↦ inl (ground arith)
                  | inr (o, found', met', has') ↦
                      let offered : IsOfferFor db org job_id application_id o = record {
                        held = has';
                        of_application = ground arith;
                        of_organization = ground arith;
                        applied = (a, has, ground arith, ground arith, ground arith);
                      } in
                      elim (Bool-cases (is_overdue now o)) [
                        | inl late ↦
                            let changed =
                              update-key (λ (x : Offer). x.id) as_expired o db.offers u has' in
                            inr (o, offered, inr (ground (arith, changed)))
                        | inr open_still ↦ inr (o, offered, inl (ground arith))
                      ]
                ]
        ]

  include_documents-ok :
      (tasks : List OnboardingTask) (db : Db)
      → (details : List TaskDetail) × (include_documents tasks db ≡ (ok details, db))
  include_documents-ok [] db = ([], refl)
  include_documents-ok (t ∷ tasks) db =
      let (rest, e) = include_documents-ok tasks db in
      (record { task = t; documents = p.find_many (of_task t.id) db.documents } ∷ rest, rw e refl)

  -- Showing a checklist never fails and changes nothing.
  pub to_detail-ok :
      (c : OnboardingChecklist) (db : Db)
      → (d : ChecklistDetail) × (to_detail c db ≡ (ok d, db)) × (d.checklist ≡ c)
  to_detail-ok c db =
      let (details, e) =
        include_documents-ok (p.find_many (λ t. t.checklist_id == c.id) db.tasks) db in
      (record { checklist = c; tasks = details }, rw e refl, refl)

  tasks_created :
      (rows : List OnboardingTask) (db : Db)
      → create_many onboarding_task rows db ≡ (ok tt, record db { tasks = onto rows db.tasks })
  tasks_created [] db = refl
  tasks_created (r ∷ rows) db =
      rw (create-free r db.tasks) (tasks_created rows (record db { tasks = r ∷ db.tasks }))

  -- Starting the onboarding is refused, and no checklist and no task is written; or the offer of this
  -- application is the organization's, it was accepted, and it had no checklist: then the checklist and
  -- the tasks that were asked for are added, nothing else changes, and the answer shows the checklist.
  -- The ids of offers are distinct.
  pub create_checklist_sound :
      (new_id : ℕ) (new_task_id : ℕ → ℕ) (now org job_id application_id : ℕ) (tasks : List AddTask)
      (db : Db)
      → UniqueBy (λ (o : Offer). o.id) db.offers
      → let after =
          (create_checklist new_id new_task_id now (some org) job_id application_id tasks db).1 in
        let answer =
          (create_checklist new_id new_task_id now (some org) job_id application_id tasks db).0 in
        ((e : Error) × ((answer ≡ err e)
            × (after.checklists ≡ db.checklists)
            × (after.tasks ≡ db.tasks)))
        ⊎ ((o : Offer) × IsOfferFor db org job_id application_id o
            × (o.status ≡ OfferStatus.accepted)
            × (any (λ c. c.offer_id == o.id) db.checklists ≡ false)
            × ((after ≡ record db {
              checklists = new_checklist new_id o.id ∷ db.checklists;
              tasks = onto (task_rows new_task_id new_id 0 tasks) db.tasks;
            })
                × ((d : ChecklistDetail) × (answer ≡ ok d)
                    × (d.checklist ≡ new_checklist new_id o.id))))
  unfolding create_checklist
  create_checklist_sound new_id new_task_id now org job_id application_id tasks db u =
      elim (get_offer-cases now org job_id application_id db u) [
        | inl refused ↦ inl (not_found, rw refused (refl, refl, refl))
        | inr (o, offered, inr expired) ↦ inl (conflict, rw expired (refl, refl, refl))
        | inr (o, offered, inl found) ↦ elim (Bool-cases (offer_accepted o.status)) [
          | inr waiting ↦ inl (conflict, rw (found, waiting) (refl, refl, refl))
          | inl accepted ↦
              let row = new_checklist new_id o.id in
              let written = p.create-eq onboarding_checklist_clash row db.checklists in
              let same : any (onboarding_checklist_clash row) db.checklists
                  ≡ any (λ c. c.offer_id == o.id) db.checklists =
                any-ext _ _ db.checklists (λ c. ground arith) in
              elim (Bool-cases (any (λ c. c.offer_id == o.id) db.checklists)) [
                | inl taken ↦
                    inl (conflict, rw (found, accepted, written, same, taken) (refl, refl, refl))
                | inr free ↦
                    let rows = task_rows new_task_id new_id 0 tasks in
                    let before : Db = record db { checklists = row ∷ db.checklists } in
                    let after : Db = record before { tasks = onto rows db.tasks } in
                    let (d, shown, of_row) = to_detail-ok row after in
                    let s : o.status ≡ OfferStatus.accepted = ground arith in
                    inr (
                      o,
                      offered,
                      s,
                      free,
                      rw (found, accepted, written, same, free, tasks_created rows before, shown)
                          (refl, (d, refl, of_row)),
                    )
              ]
        ]
      ]
