-- ===== src/Storage/Links.antt =====
-- Signed links of the storage service: what `getSignedUrl` gives opens the file until it expires, and
-- nothing else does.
use recruit_saas.Common.{
  ℕ, ◌+◌, ◌≤◌, ◌<◌, ◌≡◌, refl, inl, inr, String, true, false, Option, some, none, List, not, ◌||◌,
  ltb, arith, same_text, Bool-cases, Option-cases, eq_iff, ◌≢◌, false_of_not,
}
use recruit_saas.Schema.{Db, StoredFile}
use recruit_saas.Prisma.{ok, err, not_found}
use recruit_saas.Storage.{
  Platform, storage_key_pattern, stored, new_key, upload, sign, get_signed_url, verify, download,
  file_or_missing,
}

module _ (n : Platform) where
  -- A link opens the file of its key, for fifteen minutes after it was made; afterwards it is refused as
  -- for a file that does not exist. The key has the form that uploads make, and the HMAC is not empty.
  pub link_window :
      (now later : ℕ) (f : StoredFile) (db : Db)
      → storage_key_pattern f.key ≡ true
      → sign n f.key (now + 900_000) ≢ ""
      → stored f.key db.stored_files ≡ some f
      → (later ≤ now + 900_000
          → download n later f.key
              (some (get_signed_url n now f.key).expires)
              (get_signed_url n now f.key).signature
              db
            ≡ (ok f.bytes, db))
        × (now + 900_000 < later
            → download n later f.key
                (some (get_signed_url n now f.key).expires)
                (get_signed_url n now f.key).signature
                db
              ≡ (err not_found, db))
  unfolding download file_or_missing get_signed_url verify
  link_window now later f db pattern filled there =
      let s = sign n f.key (now + 900_000) in
      let given : same_text s "" ≡ false =
        false_of_not (same_text s "") (λ e. filled ((eq_iff s "").0 e)) in
      let same : same_text s s ≡ true = (eq_iff s s).1 refl in
      (
        (λ early.
            let test : ltb (now + 900_000) later ≡ false = ground arith in
            rw (pattern, given, test, same, there) refl),
        λ late.
            let test : ltb (now + 900_000) later ≡ true = ground arith in
            rw (pattern, given, test) refl,
      )

  -- What was uploaded is what the link of its key opens, byte for byte, for fifteen minutes. The key that
  -- was drawn, with the extension of the name, has the form that links accept, and the HMAC is not
  -- empty.
  pub upload_roundtrip :
      (now later : ℕ) (random_hex name : String) (buffer : List ℕ) (db : Db)
      → storage_key_pattern (new_key n random_hex name) ≡ true
      → sign n (new_key n random_hex name) (now + 900_000) ≢ ""
      → later ≤ now + 900_000
      → let link = get_signed_url n now (new_key n random_hex name) in
        let after = (upload n random_hex buffer name db).1 in
        ((upload n random_hex buffer name db).0 ≡ ok link.key)
        × (download n later link.key (some link.expires) link.signature after ≡ (ok buffer, after))
  unfolding upload get_signed_url
  upload_roundtrip now later random_hex name buffer db pattern filled early =
      let key = new_key n random_hex name in
      let f : StoredFile = record { key = key; bytes = buffer } in
      let after = (upload n random_hex buffer name db).1 in
      let there : stored key after.stored_files ≡ some f = rw ((eq_iff key key).1 refl) refl in
      (refl, (link_window now later f after pattern filled there).0 early)

  -- Whoever gets a file has shown a key of the right form with a signature that the service made for this
  -- key and this time, the time is not over, and the bytes are those that are stored under the key.
  pub download_sound :
      (now : ℕ) (key : String) (expires : Option ℕ) (signature : String) (bytes : List ℕ) (db : Db)
      → (download n now key expires signature db).0 ≡ ok bytes
      → (e : ℕ) × (f : StoredFile) × (expires ≡ some e)
        × (now ≤ e)
        × (sign n key e ≡ signature)
        × (storage_key_pattern key ≡ true)
        × (stored key db.stored_files ≡ some f)
        × (bytes ≡ f.bytes)
  unfolding download file_or_missing verify
  download_sound now key none signature bytes db got =
      elim (Bool-cases (not (storage_key_pattern key) || same_text signature "")) [
        | inl bad ↦ absurd (ground arith)
        | inr good ↦ absurd (ground arith)
      ]
  download_sound now key (some e) signature bytes db got =
      elim (Bool-cases (storage_key_pattern key)) [
        | inr bad ↦ absurd (ground arith)
        | inl pattern ↦ elim (Bool-cases (same_text signature "")) [
          | inl empty ↦ absurd (ground arith)
          | inr filled ↦ elim (Bool-cases (ltb e now)) [
            | inl late ↦ absurd (ground arith)
            | inr early ↦ elim (Bool-cases (same_text (sign n key e) signature)) [
              | inr forged ↦ absurd (ground arith)
              | inl signed ↦ elim (Option-cases (stored key db.stored_files)) [
                | inl missing ↦ absurd (ground arith)
                | inr (f, there) ↦ (
                  e,
                  f,
                  refl,
                  ground arith,
                  (eq_iff (sign n key e) signature).0 signed,
                  pattern,
                  there,
                  ground arith,
                )
              ]
            ]
          ]
        ]
      ]
