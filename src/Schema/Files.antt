-- ===== src/Schema/Files.antt =====
-- The files of the storage directory, of backend/src/storage/local-storage.service.ts.
use recruit_saas.Common.{ℕ, String, List}

-- A file by its key, with its bytes.
pub record StoredFile : Type 0 where
  pub key : String
  pub bytes : List ℕ
