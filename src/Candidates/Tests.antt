-- ===== src/Candidates/Tests.antt =====
-- Instances of the theorems about candidates and their CVs.
use recruit_saas.Common.{
  take, ℕ, ◌≡◌, ◌⊎◌, ◌+◌, ◌==◌, refl, inl, String, append_text, none, some, Option, true, false,
  List, [], ◌∷◌, arith, any, count, length, Has,
}
use recruit_saas.Schema.{Db, Cv, Application, Education, Experience, Skill}
use recruit_saas.Prisma.{ok, err, unprocessable, bad_request}
use recruit_saas.Memory.{in_memory}
use recruit_saas.Sample.{sample, ada_cv}
use recruit_saas.Storage.{Platform, get_signed_url, stored, new_key}
use recruit_saas.Applications.{resolve_cv_id, get_for_job, require_job_application}
use recruit_saas.Candidates.{
  File, EducationItem, ExperienceItem, upload_cv, set_primary_cv, delete_cv, new_cv,
  replace_education, replace_experience, replace_skills, education_rows, experience_rows,
  skill_rows, get_cv_signed_url_by_id,
}
use recruit_saas.Candidates.Replaced.{Replaces}
use recruit_saas.Candidates.Lists.{replace_lists_sound}
use recruit_saas.Candidates.Signature.{
  CvFileKind, Begins, Within, detect_cv_file_kind, detect_cv_file_kind_lem, pdf_signature,
  doc_signature, zip_signature, word_text,
}
use recruit_saas.Candidates.Primary.{OnePrimary}
use recruit_saas.Candidates.Cvs.{is_refused, upload_cv_sound, OnePrimary-kept}
use recruit_saas.Candidates.Shared.{
  get_cv_signed_url_for_job, get_cv_signed_url_for_job_sound, delete_primary_leaves_none,
}

abbrev plain_platform : Platform
plain_platform = record {
  hmac = λ s. append_text "mac:" s;
  digits = λ n. "7";
  extname = λ name. ".pdf";
}

-- `%PDF-1`
abbrev pdf_bytes : List ℕ
pdf_bytes = b'%' ∷ b'P' ∷ b'D' ∷ b'F' ∷ b'-' ∷ b'1' ∷ []

abbrev pdf_file : File
pdf_file = record { original_name = "ada.pdf"; size = 6; buffer = pdf_bytes }

abbrev new_row : Cv
new_row = new_cv 51 5 (new_key plain_platform "00" "ada.pdf") "ada.pdf" false

detect_cv_file_kind_lem_example :
    ((detect_cv_file_kind pdf_bytes ≡ some CvFileKind.pdf → Begins pdf_signature pdf_bytes)
      × (Begins pdf_signature pdf_bytes → detect_cv_file_kind pdf_bytes ≡ some CvFileKind.pdf))
    × ((detect_cv_file_kind pdf_bytes ≡ some CvFileKind.doc → Begins doc_signature pdf_bytes)
        × (Begins doc_signature pdf_bytes → detect_cv_file_kind pdf_bytes ≡ some CvFileKind.doc))
    × ((detect_cv_file_kind pdf_bytes ≡ some CvFileKind.docx
          → Begins zip_signature pdf_bytes × Within word_text (take 4096 pdf_bytes))
        × (Begins zip_signature pdf_bytes × Within word_text (take 4096 pdf_bytes)
            → detect_cv_file_kind pdf_bytes ≡ some CvFileKind.docx))
detect_cv_file_kind_lem_example = detect_cv_file_kind_lem pdf_bytes

upload_cv_sound_example :
    let after = (upload_cv plain_platform 51 "00" 5 (some pdf_file) sample).1 in
    ((is_refused plain_platform (some pdf_file) ≡ true)
      × (upload_cv plain_platform 51 "00" 5 (some pdf_file) sample ≡ (err bad_request, sample)))
    ⊎ ((file : File) × (some pdf_file ≡ some file)
        × (is_refused plain_platform (some pdf_file) ≡ false)
        × let row =
            new_cv 51 5
              (new_key plain_platform "00" file.original_name)
              file.original_name
              (count (λ c. c.candidate_id == 5) sample.cvs == 0) in
          ((upload_cv plain_platform 51 "00" 5 (some pdf_file) sample).0 ≡ ok row)
          × (after.cvs ≡ row ∷ sample.cvs)
          × (stored row.file_key after.stored_files
              ≡ some (record { key = row.file_key; bytes = file.buffer }))
          × (any (λ x. x.user_id == 5) after.profiles ≡ true))
upload_cv_sound_example = upload_cv_sound plain_platform 51 "00" 5 (some pdf_file) sample

sample-OnePrimary : OnePrimary sample
sample-OnePrimary user_id = ground arith

OnePrimary-kept_example :
    ((new_id : ℕ) (random_hex : String) (given : Option File)
      → OnePrimary (upload_cv plain_platform new_id random_hex 5 given sample).1)
    × ((cv_id : ℕ) → OnePrimary (set_primary_cv 5 cv_id sample).1)
    × ((cv_id : ℕ) → OnePrimary (delete_cv plain_platform 5 cv_id sample).1)
OnePrimary-kept_example = OnePrimary-kept plain_platform 5 sample (tt, tt) sample-OnePrimary

-- Two CVs, of which no application was made with the primary one.
abbrev second_cv : Cv
second_cv = record ada_cv { id = 51; file_key = "k2"; is_primary = false }

abbrev idle : Db
idle = record sample { cvs = ada_cv ∷ second_cv ∷ []; applications = [] }

idle-OnePrimary : OnePrimary idle
idle-OnePrimary user_id = ground arith

delete_primary_leaves_none_example :
    let after = (delete_cv plain_platform 5 50 idle).1 in
    ((delete_cv plain_platform 5 50 idle).0 ≡ ok tt)
    × (resolve_cv_id 5 none after ≡ (err unprocessable, after))
delete_primary_leaves_none_example =
    delete_primary_leaves_none plain_platform 5 ada_cv idle (((λ e. ground arith), tt), (tt, tt))
      idle-OnePrimary (inl refl) refl refl

linked :
    (get_cv_signed_url_for_job plain_platform 100 (some 1) 10 1000 sample).0
    ≡ ok (get_signed_url plain_platform 100 "k")
unfolding get_cv_signed_url_for_job get_for_job require_job_application get_cv_signed_url_by_id
linked = refl

get_cv_signed_url_for_job_sound_example :
    (org : ℕ) × (a : Application) × (c : Cv) × (some 1 ≡ some org)
    × Has a sample.applications
    × (a.id ≡ 1000)
    × (a.job_id ≡ 10)
    × (a.organization_id ≡ org)
    × Has c sample.cvs
    × (c.id ≡ a.cv_id)
    × (get_signed_url plain_platform 100 "k" ≡ get_signed_url plain_platform 100 c.file_key)
get_cv_signed_url_for_job_sound_example =
    get_cv_signed_url_for_job_sound plain_platform 100 (some 1) 10 1000
      (get_signed_url plain_platform 100 "k") sample linked

replace_lists_sound_example :
    ((items : List EducationItem)
      → (answer : List Education) × ((replace_education (λ n. n + 70) 5 items sample).0 ≡ ok answer)
        × (length answer ≡ length items)
        × Replaces
            (λ r. r.candidate_id == 5)
            (education_rows (λ n. n + 70) 5 0 items)
            []
            (replace_education (λ n. n + 70) 5 items sample).1.educations
            answer)
    × ((items : List ExperienceItem)
        → (answer : List Experience) × ((replace_experience (λ n. n + 70) 5 items sample).0
            ≡ ok answer)
          × (length answer ≡ length items)
          × Replaces
              (λ r. r.candidate_id == 5)
              (experience_rows (λ n. n + 70) 5 0 items)
              []
              (replace_experience (λ n. n + 70) 5 items sample).1.experiences
              answer)
    × ((names : List String)
        → (answer : List Skill) × ((replace_skills (λ n. n + 70) 5 names sample).0 ≡ ok answer)
          × (length answer ≡ length names)
          × Replaces
              (λ r. r.candidate_id == 5)
              (skill_rows (λ n. n + 70) 5 0 names)
              []
              (replace_skills (λ n. n + 70) 5 names sample).1.skills
              answer)
replace_lists_sound_example = replace_lists_sound (λ n. n + 70) 5 sample
