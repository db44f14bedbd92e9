-- ===== src/Prisma/Delegate.antt =====
-- The queries of one table as the client documents them. Which row findFirst answers with, and in which
-- order findMany lists the rows, is left open.
use recruit_saas.Common.{
  ℕ, ◌≤◌, ◌≡◌, Bool, true, false, Option, none, some, List, [], ◌∷◌, if◌then◌else◌, length, any,
  modify, reject, count, All, Has, take, drop, ◌⊎◌,
}

abbrev pub Finds : {R : Type 0} → (R → Bool) → List R → Option R → Type 0
Finds p t none = any p t ≡ false
Finds p t (some r) = (p r ≡ true) × Has r t

-- The answer under `orderBy: { key: 'asc' }`.
abbrev pub FindsLeast : {R : Type 0} → (R → ℕ) → (R → Bool) → List R → Option R → Type 0
FindsLeast key p t none = any p t ≡ false
FindsLeast key p t (some r) = (p r ≡ true) × Has r t × All (λ x. p x ≡ true → key r ≤ key x) t

-- The rows that meet the condition, each of them in the answer, and as many.
abbrev pub Lists : {R : Type 0} → (R → Bool) → List R → List R → Type 0
Lists p t rows =
    All (λ r. (p r ≡ true) × Has r t) rows
    × All (λ r. p r ≡ true → Has r rows) t
    × (length rows ≡ count p t)

abbrev pub Ascending : {R : Type 0} → (R → ℕ) → List R → Type 0
Ascending key [] = Unit
Ascending key (x ∷ xs) = All (λ y. key x ≤ key y) xs × Ascending key xs

-- A total order, in which different rows may stand at the same place.
abbrev pub IsOrder : {R : Type 0} → (R → R → Bool) → Type 0
IsOrder {R} precedes =
    ((x y : R) → (precedes x y ≡ true) ⊎ (precedes y x ≡ true))
    × ((x y z : R) → precedes x y ≡ true → precedes y z ≡ true → precedes x z ≡ true)

abbrev pub Sorted : {R : Type 0} → (R → R → Bool) → List R → Type 0
Sorted precedes [] = Unit
Sorted precedes (x ∷ xs) = All (λ y. precedes x y ≡ true) xs × Sorted precedes xs

-- A window of the answer in some order that `orderBy` allows. Rows at the same place may stand in
-- another order in the next query.
abbrev pub PageOf : {R : Type 0} → (R → R → Bool) → (R → Bool) → ℕ → ℕ → List R → List R → Type 0
PageOf {R} precedes p skip size t rows =
    (all : List R) × Lists p t all × Sorted precedes all × (rows ≡ take size (drop skip all))

-- The row that a found row becomes, with the table that it is updated in.
abbrev pub updated : {R : Type 0} → (R → Bool) → (R → R) → List R → Option R → Option (R × List R)
updated p f t none = none
updated p f t (some r) = some (f r, modify p f t)

pub record Prisma : Type 1 where
  -- findFirst, and findUnique where the condition is a unique key
  pub find_first : {R : Type 0} → (R → Bool) → List R → Option R
  pub find_first_by : {R : Type 0} → (R → ℕ) → (R → Bool) → List R → Option R
  pub find_many : {R : Type 0} → (R → Bool) → List R → List R
  -- the answer under `orderBy: { key: 'asc' }`
  pub find_many_by : {R : Type 0} → (R → ℕ) → (R → Bool) → List R → List R
  -- the answer under an `orderBy`, with `skip` and `take`
  pub find_page : {R : Type 0} → (R → R → Bool) → (R → Bool) → ℕ → ℕ → List R → List R
  pub count_rows : {R : Type 0} → (R → Bool) → List R → ℕ
  -- create: `none` where a row of the table clashes with the new one in a unique index
  pub create : {R : Type 0} → (R → R → Bool) → R → List R → Option (List R)
  -- update by a unique key: `none` where no row has it
  pub update : {R : Type 0} → (R → Bool) → (R → R) → List R → Option (R × List R)
  -- updateMany and deleteMany, with the number of rows that met the condition
  pub update_many : {R : Type 0} → (R → Bool) → (R → R) → List R → ℕ × List R
  pub delete_many : {R : Type 0} → (R → Bool) → List R → ℕ × List R
  pub find_first-Finds : {R : Type 0} (p : R → Bool) (t : List R) → Finds p t (find_first p t)
  pub find_first_by-FindsLeast :
      {R : Type 0} (key : R → ℕ) (p : R → Bool) (t : List R)
      → FindsLeast key p t (find_first_by key p t)
  pub find_many-Lists : {R : Type 0} (p : R → Bool) (t : List R) → Lists p t (find_many p t)
  pub find_many_by-Lists :
      {R : Type 0} (key : R → ℕ) (p : R → Bool) (t : List R) → Lists p t (find_many_by key p t)
  pub find_many_by-Ascending :
      {R : Type 0} (key : R → ℕ) (p : R → Bool) (t : List R) → Ascending key (find_many_by key p t)
  pub find_page-PageOf :
      {R : Type 0} (precedes : R → R → Bool) (p : R → Bool) (skip size : ℕ) (t : List R)
      → IsOrder precedes
      → PageOf precedes p skip size t (find_page precedes p skip size t)
  pub count_rows-eq : {R : Type 0} (p : R → Bool) (t : List R) → count_rows p t ≡ count p t
  pub create-eq :
      {R : Type 0} (clash : R → R → Bool) (r : R) (t : List R)
      → create clash r t ≡ (if any (clash r) t then none else some (r ∷ t))
  pub update-eq :
      {R : Type 0} (p : R → Bool) (f : R → R) (t : List R)
      → update p f t ≡ updated p f t (find_first p t)
  pub update_many-eq :
      {R : Type 0} (p : R → Bool) (f : R → R) (t : List R)
      → update_many p f t ≡ (count p t, modify p f t)
  pub delete_many-eq :
      {R : Type 0} (p : R → Bool) (t : List R) → delete_many p t ≡ (count p t, reject p t)
