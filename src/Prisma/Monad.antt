-- ===== src/Prisma/Monad.antt =====
-- A service call: a computation on the database that ends in a result or an exception. What was
-- written before an exception stays written, but in a transaction.
use recruit_saas.Common.{
  ℕ, ◌≡◌, refl, ◌⊎◌, inl, inr, Bool, true, false, Option, none, some, List, [], ◌∷◌, if◌then◌else◌,
}
use recruit_saas.Schema.{Db}
use recruit_saas.Prisma.Delegate.{Prisma}

-- The exceptions: those of @nestjs/common by their status, and two of the client's by their code.
pub data Error : Type 0 where
  bad_request unauthorized forbidden not_found conflict unprocessable : Error
  -- P2002, a unique constraint is violated
  unique_violation : Error
  -- P2025, the row does not exist
  row_missing : Error
  -- P2003, a row of another table refers to the row
  foreign_key_violation : Error
  -- the database does not answer
  unavailable : Error

pub data Result (A : Type 0) : Type 0 where
  ok : A → Result A
  err : Error → Result A

pub Result-cases :
    {A : Type 0} (r : Result A) → ((a : A) × (r ≡ ok a)) ⊎ ((e : Error) × (r ≡ err e))
Result-cases (ok a) = inl (a, refl)
Result-cases (err e) = inr (e, refl)

abbrev pub Action : Type 0 → Type 0
Action A = Db → Result A × Db

abbrev pub continue : {A B : Type 0} → Result A → Db → (A → Action B) → Result B × Db
continue (ok a) db f = f a db
continue (err e) db f = (err e, db)

infixl 5 ◌>>=◌ ◌>>◌
abbrev pub ◌>>=◌ : {A B : Type 0} → Action A → (A → Action B) → Action B
◌>>=◌ m f db = let (r, db') = m db in continue r db' f

abbrev pub ◌>>◌ : {A B : Type 0} → Action A → Action B → Action B
m >> k = m >>= λ _. k

module _ {A : Type 0} where
  abbrev pub return : A → Action A
  return a db = (ok a, db)

  abbrev pub throw : Error → Action A
  throw e db = (err e, db)

  abbrev pub or_throw : Error → Option A → Action A
  or_throw e none = throw e
  or_throw e (some a) = return a

  -- `try { m } catch` of a unique violation, which is thrown anew as `e`.
  abbrev rethrown : Error → Result A → Result A
  rethrown e (err unique_violation) = err e
  rethrown e r = r

  abbrev pub on_unique_violation : Error → Action A → Action A
  on_unique_violation e m db = let (r, db') = m db in (rethrown e r, db')

  abbrev pub committed : Result A → Db → Db → Result A × Db
  committed (ok a) before after = (ok a, after)
  committed (err e) before after = (err e, before)

  -- `$transaction`: an exception takes back what was written.
  abbrev pub transaction : Action A → Action A
  transaction m db = let (r, db') = m db in committed r db db'

-- A write that an outage of the database may strike: then it throws, and nothing is written.
abbrev pub unless_lost : {A : Type 0} → Bool → Action A → Action A
unless_lost true m = throw unavailable
unless_lost false m = m

abbrev pub throw_if : Bool → Error → Action (Unit {0})
throw_if b e db = (if b then err e else ok tt, db)

-- The tables that the condition of one query reads through its relations.
abbrev pub related : Action Db
related db = (ok db, db)

-- A table of the database, as the client's delegate for it.
pub record Table (R : Type 0) : Type 0 where
  pub rows : Db → List R
  pub set_rows : List R → Db → Db
  -- the unique indexes of the table
  pub clash : R → R → Bool

module _ ⦃p : Prisma⦄ {R : Type 0} (t : Table R) where
  abbrev pub find_first : (R → Bool) → Action (Option R)
  find_first c db = (ok (p.find_first c (t.rows db)), db)

  abbrev pub find_first_by : (R → ℕ) → (R → Bool) → Action (Option R)
  find_first_by key c db = (ok (p.find_first_by key c (t.rows db)), db)

  abbrev pub find_many : (R → Bool) → Action (List R)
  find_many c db = (ok (p.find_many c (t.rows db)), db)

  abbrev pub find_many_by : (R → ℕ) → (R → Bool) → Action (List R)
  find_many_by key c db = (ok (p.find_many_by key c (t.rows db)), db)

  abbrev pub find_page : (R → R → Bool) → (R → Bool) → ℕ → ℕ → Action (List R)
  find_page precedes c skip size db = (ok (p.find_page precedes c skip size (t.rows db)), db)

  abbrev pub count_rows : (R → Bool) → Action ℕ
  count_rows c db = (ok (p.count_rows c (t.rows db)), db)

  abbrev created : R → Db → Option (List R) → Result R × Db
  created r db none = (err unique_violation, db)
  created r db (some rows) = (ok r, t.set_rows rows db)

  abbrev pub create : R → Action R
  create r db = created r db (p.create t.clash r (t.rows db))

  abbrev changed : Db → Option (R × List R) → Result R × Db
  changed db none = (err row_missing, db)
  changed db (some (r, rows)) = (ok r, t.set_rows rows db)

  abbrev pub update : (R → Bool) → (R → R) → Action R
  update c f db = changed db (p.update c f (t.rows db))

  abbrev pub update_many : (R → Bool) → (R → R) → Action ℕ
  update_many c f db = let (n, rows) = p.update_many c f (t.rows db) in (ok n, t.set_rows rows db)

  abbrev pub delete_many : (R → Bool) → Action ℕ
  delete_many c db = let (n, rows) = p.delete_many c (t.rows db) in (ok n, t.set_rows rows db)

  -- `delete` by a unique key. A row that others refer to stays.
  abbrev pub delete : (Db → R → Bool) → (R → Bool) → Action R
  delete is_referenced c = find_first c >>= or_throw row_missing >>= λ r. related >>= λ db.
      throw_if (is_referenced db r) foreign_key_violation >> delete_many c >> return r

  abbrev upserted : R → (R → Bool) → (R → R) → Option R → Action R
  upserted new c f none = create new
  upserted new c f (some r) = update c f

  -- `upsert` by a unique key.
  abbrev pub upsert : R → (R → Bool) → (R → R) → Action R
  upsert new c f = find_first c >>= upserted new c f

  -- `createMany`: the rows of a list.
  abbrev pub create_many : List R → Action (Unit {0})
  create_many [] = return tt
  create_many (r ∷ rows) = create r >> create_many rows
