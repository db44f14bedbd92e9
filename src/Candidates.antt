-- ===== src/Candidates.antt =====
-- backend/src/candidates/candidates.service.ts, CandidatesService, and the recognition of CV files in
-- backend/src/candidates/cv-file-signature.util.ts. Ids of new rows and the random part of a key are
-- arguments: for the rows of a list, by their place in it.
pub mod Signature
pub mod Primary
pub mod Cvs
pub mod Shared
pub mod Replaced
pub mod Lists
mod Tests
use recruit_saas.Common.{
  ℕ, zero, suc, ◌+◌, ◌*◌, String, Bool, true, false, Option, none, some, List, [], ◌∷◌, not, ◌==◌,
  ◌&&◌, ◌||◌, leb, ltb, any, is_empty, length, if◌then◌else◌,
}
use recruit_saas.Schema.{Db, Cv, CandidateProfile, Education, Experience, Skill, Application}
use recruit_saas.Prisma.{
  Prisma, Action, ◌>>=◌, ◌>>◌, return, throw, or_throw, throw_if, bad_request, not_found,
  transaction, find_first, find_many, count_rows, create, update, update_many, delete, delete_many,
  upsert, create_many,
}
use recruit_saas.Tables.{cv, candidate_profile, education, experience, skill}
use recruit_saas.Requests.{or_keep_column}
use recruit_saas.Storage.{Platform, SignedUrl, upload, get_signed_url, discard}
use recruit_saas.Candidates.Signature.{detect_cv_file_kind, CvFileKind}

-- UpdateCandidateProfileDto
pub record UpdateCandidateProfile : Type 0 where
  pub headline : Option String
  pub location : Option String
  pub phone : Option String

-- An item of ReplaceEducationDto.
pub record EducationItem : Type 0 where
  pub institution : String
  pub degree : Option String
  pub start_year : Option ℕ
  pub end_year : Option ℕ

-- An item of ReplaceExperienceDto.
pub record ExperienceItem : Type 0 where
  pub company : String
  pub title : String
  pub start_date : Option ℕ
  pub end_date : Option ℕ
  pub description : Option String

-- Express.Multer.File
pub record File : Type 0 where
  pub original_name : String
  pub size : ℕ
  pub buffer : List ℕ

-- The answer of `getMine`: the profile, if there is one, with its lists.
pub record Profile : Type 0 where
  pub profile : Option CandidateProfile
  pub education : List Education
  pub experience : List Experience
  pub skills : List Skill
  pub cvs : List Cv

abbrev pub max_cv_size_bytes : ℕ
max_cv_size_bytes = 5 * 1024 * 1024

abbrev pub empty_profile : ℕ → CandidateProfile
empty_profile user_id = record { user_id = user_id; headline = none; location = none; phone = none }

abbrev pub new_profile : ℕ → UpdateCandidateProfile → CandidateProfile
new_profile user_id dto = record {
  user_id = user_id;
  headline = dto.headline;
  location = dto.location;
  phone = dto.phone;
}

abbrev pub with_profile_fields : UpdateCandidateProfile → CandidateProfile → CandidateProfile
with_profile_fields dto r = record r {
  headline = or_keep_column dto.headline r.headline;
  location = or_keep_column dto.location r.location;
  phone = or_keep_column dto.phone r.phone;
}

abbrev pub education_rows : (ℕ → ℕ) → ℕ → ℕ → List EducationItem → List Education
education_rows new_id user_id index [] = []
education_rows new_id user_id index (item ∷ items) =
    record {
      id = new_id index;
      candidate_id = user_id;
      institution = item.institution;
      degree = item.degree;
      start_year = item.start_year;
      end_year = item.end_year;
    }
    ∷ education_rows new_id user_id (suc index) items

abbrev pub experience_rows : (ℕ → ℕ) → ℕ → ℕ → List ExperienceItem → List Experience
experience_rows new_id user_id index [] = []
experience_rows new_id user_id index (item ∷ items) =
    record {
      id = new_id index;
      candidate_id = user_id;
      company = item.company;
      title = item.title;
      start_date = item.start_date;
      end_date = item.end_date;
      description = item.description;
    }
    ∷ experience_rows new_id user_id (suc index) items

abbrev pub skill_rows : (ℕ → ℕ) → ℕ → ℕ → List String → List Skill
skill_rows new_id user_id index [] = []
skill_rows new_id user_id index (name ∷ names) =
    record { id = new_id index; candidate_id = user_id; name = name }
    ∷ skill_rows new_id user_id (suc index) names

abbrev pub new_cv : ℕ → ℕ → String → String → Bool → Cv
new_cv id user_id key name primary = record {
  id = id;
  candidate_id = user_id;
  file_key = key;
  file_name = name;
  is_primary = primary;
}

-- Applications refer to the CV that they were made with.
abbrev pub cv_in_use : Db → Cv → Bool
cv_in_use db c = any (λ a. a.cv_id == c.id) db.applications

module _ ⦃p : Prisma⦄ where
  pub ensure_profile : ℕ → Action CandidateProfile
  ensure_profile user_id =
      upsert candidate_profile (empty_profile user_id) (λ r. r.user_id == user_id) (λ r. r)

  pub get_profile : ℕ → Action Profile
  get_profile user_id = do
    profile ← find_first candidate_profile λ r. r.user_id == user_id
    education ← find_many education λ e. e.candidate_id == user_id
    experience ← find_many experience λ e. e.candidate_id == user_id
    skills ← find_many skill λ s. s.candidate_id == user_id
    cvs ← find_many cv λ c. c.candidate_id == user_id
    return (record {
      profile = profile;
      education = education;
      experience = experience;
      skills = skills;
      cvs = cvs;
    })

  pub update_profile : ℕ → UpdateCandidateProfile → Action Profile
  update_profile user_id dto = do
    upsert candidate_profile (new_profile user_id dto) (λ r. r.user_id == user_id)
        (with_profile_fields dto)
    get_profile user_id

  pub replace_education : (ℕ → ℕ) → ℕ → List EducationItem → Action (List Education)
  replace_education new_id user_id items = do
    ensure_profile user_id
    transaction do
      delete_many education λ e. e.candidate_id == user_id
      create_many education (education_rows new_id user_id 0 items)
      find_many education λ e. e.candidate_id == user_id

  pub replace_experience : (ℕ → ℕ) → ℕ → List ExperienceItem → Action (List Experience)
  replace_experience new_id user_id items = do
    ensure_profile user_id
    transaction do
      delete_many experience λ e. e.candidate_id == user_id
      create_many experience (experience_rows new_id user_id 0 items)
      find_many experience λ e. e.candidate_id == user_id

  pub replace_skills : (ℕ → ℕ) → ℕ → List String → Action (List Skill)
  replace_skills new_id user_id names = do
    ensure_profile user_id
    transaction do
      delete_many skill λ s. s.candidate_id == user_id
      create_many skill (skill_rows new_id user_id 0 names)
      find_many skill λ s. s.candidate_id == user_id

  pub require_own_cv : ℕ → ℕ → Action Cv
  require_own_cv user_id cv_id = do
    found ← find_first cv λ c. c.id == cv_id && c.candidate_id == user_id
    or_throw not_found found

  pub set_primary_cv : ℕ → ℕ → Action Cv
  set_primary_cv user_id cv_id = do
    row ← require_own_cv user_id cv_id
    transaction do
      update_many cv (λ c. c.candidate_id == user_id && not (c.id == cv_id))
          (λ c. record c { is_primary = false })
      update cv (λ c. c.id == row.id) (λ c. record c { is_primary = true })

-- `!detectCvFileKind(buffer)`
abbrev pub is_unknown : Option CvFileKind → Bool
is_unknown none = true
is_unknown (some _) = false

module _ ⦃p : Prisma⦄ (n : Platform) where
  -- The checks of an uploaded file, before anything is written.
  pub accepted_file : Option File → Action File
  accepted_file none = throw bad_request
  accepted_file (some file) = do
    throw_if (ltb max_cv_size_bytes file.size) bad_request
    throw_if (is_unknown (detect_cv_file_kind file.buffer)) bad_request
    return file

  pub upload_cv : ℕ → String → ℕ → Option File → Action Cv
  upload_cv new_id random_hex user_id given = do
    file ← accepted_file given
    ensure_profile user_id
    key ← upload n random_hex file.buffer file.original_name
    existing_count ← count_rows cv λ c. c.candidate_id == user_id
    create cv (new_cv new_id user_id key file.original_name (existing_count == 0))

  pub delete_cv : ℕ → ℕ → Action (Unit {0})
  delete_cv user_id cv_id = do
    row ← require_own_cv user_id cv_id
    delete cv cv_in_use (λ c. c.id == row.id)
    discard n row.file_key

  pub get_cv_signed_url : ℕ → ℕ → ℕ → Action SignedUrl
  get_cv_signed_url now user_id cv_id = do
    row ← require_own_cv user_id cv_id
    return (get_signed_url n now row.file_key)

  unfoldable pub get_cv_signed_url_by_id : ℕ → ℕ → Action SignedUrl
  get_cv_signed_url_by_id now cv_id = do
    found ← find_first cv λ c. c.id == cv_id
    row ← or_throw not_found found
    return (get_signed_url n now row.file_key)
