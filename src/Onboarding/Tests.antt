-- ===== src/Onboarding/Tests.antt =====
-- Instances of the theorems about onboarding.
use recruit_saas.Common.{◌≡◌, ◌⊎◌, ◌+◌, ◌==◌, refl, append_text, none, some, false, [], ◌∷◌, any}
use recruit_saas.Schema.{Db, Offer, OfferStatus, Document}
use recruit_saas.Prisma.{Error, ok, err}
use recruit_saas.Memory.{in_memory}
use recruit_saas.Sample.{sample, ada_application}
use recruit_saas.Storage.{Platform, upload, new_key}
use recruit_saas.Applications
use recruit_saas.Applications.{as_hired, require_own_application}
use recruit_saas.Offers
use recruit_saas.Offers.{require_offer_for_application, expire_if_needed, expire_if}
use recruit_saas.Candidates.{File}
use recruit_saas.Candidates.Replaced.{onto}
use recruit_saas.Onboarding.{
  AddTask, ChecklistDetail, new_checklist, task_rows, new_document, create_checklist,
  upload_document,
}
use recruit_saas.Onboarding.Checklists.{IsOfferFor, create_checklist_sound}
use recruit_saas.Onboarding.Documents.{upload_document_unchecked}

abbrev plain_platform : Platform
plain_platform = record {
  hmac = λ s. append_text "mac:" s;
  digits = λ n. "7";
  extname = λ name. ".exe";
}

abbrev accepted_offer : Offer
accepted_offer = record {
  id = 3;
  application_id = 1000;
  organization_id = 1;
  title = "Engineer";
  compensation = none;
  start_date = none;
  expires_at = 90;
  status = OfferStatus.accepted;
  responded_at = some 50;
}

abbrev accepted_sample : Db
accepted_sample = record sample {
  applications = as_hired ada_application ∷ [];
  offers = accepted_offer ∷ [];
}

abbrev id_proof : AddTask
id_proof = record { name = "Submit ID proof"; required = none }

create_checklist_sound_example :
    let after =
      (create_checklist 40 (λ n. n + 41) 60 (some 1) 10 1000 (id_proof ∷ []) accepted_sample).1 in
    let answer =
      (create_checklist 40 (λ n. n + 41) 60 (some 1) 10 1000 (id_proof ∷ []) accepted_sample).0 in
    ((e : Error) × ((answer ≡ err e) × (after.checklists ≡ []) × (after.tasks ≡ [])))
    ⊎ ((o : Offer) × IsOfferFor accepted_sample 1 10 1000 o
        × (o.status ≡ OfferStatus.accepted)
        × (any (λ c. c.offer_id == o.id) accepted_sample.checklists ≡ false)
        × ((after ≡ record accepted_sample {
          checklists = new_checklist 40 o.id ∷ [];
          tasks = onto (task_rows (λ n. n + 41) 40 0 (id_proof ∷ [])) [];
        })
            × ((d : ChecklistDetail) × (answer ≡ ok d) × (d.checklist ≡ new_checklist 40 o.id))))
create_checklist_sound_example =
    create_checklist_sound 40 (λ n. n + 41) 60 1 10 1000 (id_proof ∷ []) accepted_sample (tt, tt)

abbrev onboarded : Db
onboarded = record accepted_sample {
  checklists = new_checklist 40 3 ∷ [];
  tasks = task_rows (λ n. n + 41) 40 0 (id_proof ∷ []);
}

abbrev scan : File
scan = record { original_name = "scan.exe"; size = 2; buffer = 1 ∷ 2 ∷ [] }

abbrev scanned : Document
scanned = new_document 45 41 5 (new_key plain_platform "00" "scan.exe") "scan.exe"

taken : (upload_document plain_platform 45 "00" 60 5 1000 41 (some scan) onboarded).0 ≡ ok scanned
unfolding upload_document upload Offers.get_mine Applications.get_mine require_own_application
    require_offer_for_application expire_if_needed expire_if
taken = refl

upload_document_unchecked_example :
    (upload_document plain_platform 45 "00" 60 5 1000 41
      (some (record scan { buffer = 0x4d ∷ 0x5a ∷ [] }))
      onboarded).0
    ≡ ok scanned
upload_document_unchecked_example =
    upload_document_unchecked plain_platform 45 "00" 60 5 1000 41 scan (0x4d ∷ 0x5a ∷ []) scanned
      onboarded taken
