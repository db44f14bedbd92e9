-- ===== src/Storage.antt =====
-- backend/src/storage: StorageService, its implementation LocalStorageService, and StorageController.
-- The HMAC of a text under the secret, the digits of a number, the extension of a file name and the
-- random part of a key come from Node.js and are parameters.
pub mod Links
mod Tests
use Prim.Native.Char.{code}
use recruit_saas.Common.{
  take, drop, ℕ, zero, suc, ◌+◌, ◌*◌, String, append_text, Bool, true, false, Option, none, some,
  List, [], ◌∷◌, not, ◌==◌, ◌&&◌, ◌||◌, leb, ltb, same_text, length, reject, if◌then◌else◌,
}
use recruit_saas.Schema.{Db, StoredFile}
use recruit_saas.Prisma.{Action, ok, ◌>>=◌, ◌>>◌, return, throw, throw_if, not_found, related}

-- What the service takes from node:crypto, node:path and the language.
pub record Platform : Type 0 where
  pub hmac : String → String
  pub digits : ℕ → String
  pub extname : String → String

-- The code points of a text.
abbrev pub codes : String → List ℕ
codes String.[] = []
codes (String.◌∷◌ c s) = code c ∷ codes s

-- `slice(0, n)`
abbrev pub cut : ℕ → String → String
cut zero s = String.[]
cut (suc n) String.[] = String.[]
cut (suc n) (String.◌∷◌ c s) = String.◌∷◌ c (cut n s)

abbrev pub every : (ℕ → Bool) → List ℕ → Bool
every p [] = true
every p (x ∷ xs) = p x && every p xs

abbrev pub is_between : ℕ → ℕ → ℕ → Bool
is_between low high c = leb low c && leb c high

-- [a-f0-9]
abbrev pub is_hex : ℕ → Bool
is_hex c = is_between b'a' b'f' c || is_between b'0' b'9' c

-- [a-zA-Z0-9]
abbrev pub is_alphanumeric : ℕ → Bool
is_alphanumeric c = is_between b'a' b'z' c || is_between b'A' b'Z' c || is_between b'0' b'9' c

-- (\.[a-zA-Z0-9]{1,10})?$
abbrev pub is_extension : List ℕ → Bool
is_extension [] = true
is_extension (c ∷ rest) = c == b'.' && is_between 1 10 (length rest) && every is_alphanumeric rest

-- STORAGE_KEY_PATTERN
abbrev pub storage_key_pattern : String → Bool
storage_key_pattern key =
    length (take 32 (codes key)) == 32
    && every is_hex (take 32 (codes key))
    && is_extension (drop 32 (codes key))

abbrev pub default_ttl_seconds : ℕ
default_ttl_seconds = 15 * 60

-- SignedUrl, with the parts of its query.
pub record SignedUrl : Type 0 where
  pub key : String
  pub expires : ℕ
  pub signature : String

-- The file of a key; writing replaces it.
abbrev pub stored : String → List StoredFile → Option StoredFile
stored key [] = none
stored key (f ∷ files) = if same_text f.key key then some f else stored key files

abbrev pub with_files : List StoredFile → Db → Db
with_files files db = record db { stored_files = files }

abbrev put_file : StoredFile → Action (Unit {0})
put_file f db = (ok tt, with_files (f ∷ reject (λ x. same_text x.key f.key) db.stored_files) db)

-- `rm` with `force`: a missing file is no error.
abbrev remove_file : String → Action (Unit {0})
remove_file key db = (ok tt, with_files (reject (λ x. same_text x.key key) db.stored_files) db)

module _ (n : Platform) where
  -- `${randomBytes(16).toString('hex')}${ext}`, where the extension is cut at ten characters.
  abbrev pub new_key : String → String → String
  new_key random_hex file_name = append_text random_hex (cut 10 (n.extname file_name))

  unfoldable pub upload : String → List ℕ → String → Action String
  upload random_hex buffer file_name = do
    put_file (record { key = new_key random_hex file_name; bytes = buffer })
    return (new_key random_hex file_name)

  abbrev pub sign : String → ℕ → String
  sign key expires = n.hmac (append_text key (append_text "." (n.digits expires)))

  pub get_signed_url : ℕ → String → SignedUrl
  get_signed_url now key =
      let expires = now + default_ttl_seconds * 1000 in
      record { key = key; expires = expires; signature = sign key expires }

  -- `delete`
  unfoldable pub discard : String → Action (Unit {0})
  discard key = remove_file key

  -- `expires` is `none` where the query is no finite number.
  pub verify : ℕ → String → Option ℕ → String → Bool
  verify now key none signature = false
  verify now key (some expires) signature =
      if storage_key_pattern key
      then (if ltb expires now then false else same_text (sign key expires) signature)
      else false

  file_or_missing : Option StoredFile → Action (List ℕ)
  file_or_missing none = throw not_found
  file_or_missing (some f) = return f.bytes

  -- StorageController.download, with the two parts of the query, where they are given.
  pub download : ℕ → String → Option ℕ → String → Action (List ℕ)
  unfolding file_or_missing
  download now key expires signature = do
    throw_if
        (not (storage_key_pattern key)
          || same_text signature ""
          || not (verify now key expires signature))
        not_found
    db ← related
    file_or_missing (stored key db.stored_files)
