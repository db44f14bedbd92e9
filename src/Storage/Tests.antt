-- ===== src/Storage/Tests.antt =====
-- Instances of the theorems about the storage service.
use recruit_saas.Common.{
  ℕ, ◌≡◌, ◌≢◌, ◌≤◌, ◌<◌, refl, String, append_text, some, true, [], ◌∷◌, arith, eq_iff,
}
use recruit_saas.Schema.{Db, StoredFile}
use recruit_saas.Prisma.{ok, err, not_found}
use recruit_saas.Sample.{sample}
use recruit_saas.Storage.{
  Platform, SignedUrl, get_signed_url, download, upload, sign, verify, stored, storage_key_pattern,
}
use recruit_saas.Storage.Links.{link_window, upload_roundtrip, download_sound}

-- Functions in the place of those of Node.js.
abbrev plain_platform : Platform
plain_platform = record {
  hmac = λ s. append_text "mac:" s;
  digits = λ n. "7";
  extname = λ name. ".pdf";
}

abbrev hex : String
hex = "0123456789abcdef0123456789abcdef"

abbrev cv_key : String
cv_key = "0123456789abcdef0123456789abcdef.pdf"

abbrev cv_file : StoredFile
cv_file = record { key = cv_key; bytes = 1 ∷ 2 ∷ [] }

abbrev with_cv : Db
with_cv = record sample { stored_files = cv_file ∷ [] }

abbrev link : SignedUrl
link = get_signed_url plain_platform 100 cv_key

sign-filled : sign plain_platform cv_key 900_100 ≢ ""
sign-filled e = absurd (ground (arith, (eq_iff (sign plain_platform cv_key 900_100) "").1 e))

link_window_example :
    (900_100 ≤ 900_100
      → download plain_platform 900_100 cv_key (some link.expires) link.signature with_cv
        ≡ (ok (1 ∷ 2 ∷ []), with_cv))
    × (900_100 < 900_100
        → download plain_platform 900_100 cv_key (some link.expires) link.signature with_cv
          ≡ (err not_found, with_cv))
link_window_example = link_window plain_platform 100 900_100 cv_file with_cv refl sign-filled refl

upload_roundtrip_example :
    ((upload plain_platform hex (1 ∷ 2 ∷ []) "ada.pdf" sample).0 ≡ ok cv_key)
    × (download plain_platform 200 cv_key
          (some link.expires)
          link.signature
          (upload plain_platform hex (1 ∷ 2 ∷ []) "ada.pdf" sample).1
        ≡ (ok (1 ∷ 2 ∷ []), (upload plain_platform hex (1 ∷ 2 ∷ []) "ada.pdf" sample).1))
unfolding get_signed_url
upload_roundtrip_example =
    upload_roundtrip plain_platform 100 200 hex "ada.pdf" (1 ∷ 2 ∷ []) sample refl sign-filled
      (omega arith)

opened :
    (download plain_platform 200 cv_key (some link.expires) link.signature with_cv).0
    ≡ ok (1 ∷ 2 ∷ [])
unfolding download get_signed_url verify
opened = refl

download_sound_example :
    (e : ℕ) × (f : StoredFile) × (some link.expires ≡ some e)
    × (200 ≤ e)
    × (sign plain_platform cv_key e ≡ link.signature)
    × (storage_key_pattern cv_key ≡ true)
    × (stored cv_key with_cv.stored_files ≡ some f)
    × (1 ∷ 2 ∷ [] ≡ f.bytes)
download_sound_example =
    download_sound plain_platform 200 cv_key (some link.expires) link.signature (1 ∷ 2 ∷ []) with_cv
      opened
