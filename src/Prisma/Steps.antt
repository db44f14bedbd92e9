-- ===== src/Prisma/Steps.antt =====
-- What holds between the database before a call and after it, through the steps of the call.
use recruit_saas.Schema.{Db}
use recruit_saas.Prisma.Monad.{Action, Result, ok, err, ◌>>=◌, continue, committed, transaction}

-- A relation of databases that every call may keep: reflexive and transitive.
pub record Order (G : Db → Db → Type 0) : Type 0 where
  pub stays : (db : Db) → G db db
  pub chains : (a b c : Db) → G a b → G b c → G a c

module _ {G : Db → Db → Type 0} (order : Order G) where
  continue-keeps :
      {A B : Type 0} (r : Result A) (k : A → Action B) (db db' : Db)
      → G db db'
      → ((a : A) (u : Db) → G u (k a u).1)
      → G db (continue r db' k).1
  continue-keeps (ok a) k db db' h step = order.chains db db' (k a db').1 h (step a db')
  continue-keeps (err e) k db db' h step = h

  pub >>=-keeps :
      {A B : Type 0} (m : Action A) (k : A → Action B) (db : Db)
      → G db (m db).1
      → ((a : A) (u : Db) → G u (k a u).1)
      → G db ((m >>= k) db).1
  >>=-keeps m k db h step = continue-keeps (m db).0 k db (m db).1 h step

  committed-keeps :
      {A : Type 0} (r : Result A) (db db' : Db) → G db db' → G db (committed r db db').1
  committed-keeps (ok a) db db' h = h
  committed-keeps (err e) db db' h = order.stays db

  pub transaction-keeps :
      {A : Type 0} (m : Action A) (db : Db) → G db (m db).1 → G db (transaction m db).1
  transaction-keeps m db h = committed-keeps (m db).0 db (m db).1 h
