-- ===== src/Requests.antt =====
-- What the services share: the organization of the session, the pages of a list, and optional fields of
-- a request.
pub mod Pages
use recruit_saas.Common.{ℕ, ◌*◌, ◌-◌, Option, none, some, Bool, true, List}
use recruit_saas.Prisma.{
  Prisma, Action, ◌>>=◌, Table, return, throw, not_found, find_page, count_rows,
}

-- `requireOrgId`, of every service that an organization's staff call.
abbrev pub require_org_id : Option ℕ → Action ℕ
require_org_id none = throw not_found
require_org_id (some org_id) = return org_id

-- An optional field of an update: the client leaves a column alone where the value is undefined.
abbrev pub or_keep {ℓ} : {A : Type ℓ} → Option A → A → A
or_keep none old = old
or_keep (some new) old = new

abbrev pub or_keep_column {ℓ} : {A : Type ℓ} → Option A → Option A → Option A
or_keep_column none old = old
or_keep_column (some new) old = some new

-- `page` and `pageSize` of a list request.
pub record Page : Type 0 where
  pub page : ℕ
  pub page_size : ℕ

-- The order of a list by a column that the model leaves out: any.
abbrev pub any_order {ℓ} : {A : Type ℓ} → A → A → Bool
any_order x y = true

-- A page of rows, and `total` of `meta`.
pub record Listing (R : Type 0) : Type 0 where
  pub rows : List R
  pub total : ℕ

module _ ⦃p : Prisma⦄ {R : Type 0} where
  -- The pair of queries that every paged list makes, with its `orderBy`.
  unfoldable pub list_page : Table R → (R → R → Bool) → (R → Bool) → Page → Action (Listing R)
  list_page t precedes where_clause query = do
    found ← find_page t precedes where_clause ((query.page - 1) * query.page_size) query.page_size
    total ← count_rows t where_clause
    return (record { rows = found; total = total })
