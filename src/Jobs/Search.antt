-- ===== src/Jobs/Search.antt =====
-- The public search of jobs, and the public page of one job.
use recruit_saas.Common.{
  ℕ, ◌≤◌, ◌≡◌, refl, subst, ◌↔◌, ◌⊎◌, inl, inr, Bool, true, false, Option, none, some, String,
  arith, leb, ◌==◌, ◌&&◌, ◌||◌, All, Has, All-weaken, any-Has, length, count, Has-of_any, same_text,
  Bool-cases,
}
use recruit_saas.Schema.{Db, Job, Organization, job_published, organization_active}
use recruit_saas.Prisma.{Prisma, IsOrder, Sorted, ok}
use recruit_saas.Tables.{job}
use recruit_saas.Requests.{Listing}
use recruit_saas.Requests.Pages.{list_page_lem}
use recruit_saas.Jobs.{
  PublicJobSearch, search, search_where, of_active_organization, if_given, if_given_text, in_column,
  same_column, newest_first, not_before,
}

-- A published job in the table, of an organization in the table that is active.
abbrev pub IsPublic : Db → Job → Type 0
IsPublic db j =
    Has j db.jobs
    × (job_published j.status ≡ true)
    × ((o : Organization) × Has o db.organizations
        × (o.id ≡ j.organization_id)
        × (organization_active o.status ≡ true))

newest_first-IsOrder : IsOrder newest_first
newest_first-IsOrder = (
  (λ x y. total x.published_at y.published_at),
  λ x y z. trans x.published_at y.published_at z.published_at,
)
  where
    total : (a b : Option ℕ) → (not_before a b ≡ true) ⊎ (not_before b a ≡ true)
    total none b = inl refl
    total (some a) none = inr refl
    total (some a) (some b) = elim (Bool-cases (leb b a)) [
      | inl e ↦ inl e
      | inr e ↦ inr (ground arith)
    ]

    trans :
        (a b c : Option ℕ) → not_before a b ≡ true → not_before b c ≡ true → not_before a c ≡ true
    trans none b c h k = refl
    trans (some a) none c h k = absurd (ground arith)
    trans (some a) (some b) none h k = absurd (ground arith)
    trans (some a) (some b) (some c) h k = ground arith

-- A text filter of the request that is given, and not empty.
abbrev pub Given : Option String → (String → Type 0) → Type 0
Given filter P = (text : String) → filter ≡ some text → same_text text "" ≡ false → P text

-- The filters that are given, as the search promises them.
abbrev pub Meets : (String → String → Bool) → PublicJobSearch → Job → Type 0
Meets contains query j =
    Given query.keyword (λ k. (contains j.title k ≡ true) ⊎ (contains j.description k ≡ true))
    × Given query.location
        (λ l. (place : String) × (j.location ≡ some place) × (contains place l ≡ true))
    × Given query.employment_type
        (λ e. (type : String) × (j.employment_type ≡ some type) × (same_text type e ≡ true))
    × ((o : ℕ) → query.organization_id ≡ some o → j.organization_id ≡ o)

-- A test under the filter, and what it stands for.
given_iff :
    (test : String → Bool) (P : String → Type 0)
    → ((text : String) → (test text ≡ true) ↔ P text)
    → (filter : Option String) → (if_given_text test filter ≡ true) ↔ Given filter P
given_iff test P iff none = ((λ h text e n. absurd (ground arith)), λ h. refl)
given_iff test P iff (some text) = elim (Bool-cases (same_text text "")) [
  | inl e ↦ ((λ h text' q n. absurd (ground arith)), λ h. ground arith)
  | inr e ↦ (
    (λ h text' q n.
        let same : text ≡ text' = ground arith in subst P same ((iff text).0 (ground arith))),
    λ h. let met = (iff text).1 (h text refl e) in ground arith,
  )
]

module _ (contains : String → String → Bool) (j : Job) where
  keyword_iff :
      (k : String)
      → ((contains j.title k || contains j.description k) ≡ true)
        ↔ ((contains j.title k ≡ true) ⊎ (contains j.description k ≡ true))
  keyword_iff k = (
    (λ h. elim (Bool-cases (contains j.title k)) [ inl e ↦ inl e | inr e ↦ inr (ground arith) ]),
    λ h. elim h [ inl e ↦ ground arith | inr e ↦ ground arith ],
  )

column_iff :
    (test : String → String → Bool) (under : Option String → String → Bool)
    → ((l : String) → under none l ≡ false)
    → ((v l : String) → under (some v) l ≡ test v l)
    → (column : Option String) (l : String)
    → (under column l ≡ true) ↔ ((v : String) × (column ≡ some v) × (test v l ≡ true))
column_iff test under n s none l =
    ((λ h. absurd (ground (arith, n l))), λ (v, e, h). absurd (ground arith))
column_iff test under n s (some v) l = (
  (λ h. (v, refl, ground (arith, s v l))),
  λ (v', e, h). let same : v ≡ v' = ground arith in ground (arith, s v l),
)

id_iff :
    (j : Job) (filter : Option ℕ)
    → (if_given (λ o. j.organization_id == o) filter ≡ true)
      ↔ ((o : ℕ) → filter ≡ some o → j.organization_id ≡ o)
id_iff j none = ((λ h o e. absurd (ground arith)), λ h. refl)
id_iff j (some o) = (
  (λ h o' e. let same : o ≡ o' = ground arith in ground arith),
  λ h. let met = h o refl in ground arith,
)

IsPublic-of :
    (db : Db) (j : Job)
    → Has j db.jobs
    → (job_published j.status && of_active_organization db.organizations j) ≡ true
    → IsPublic db j
IsPublic-of db j has e =
    let (o, there, met) =
      Has-of_any (λ o. o.id == j.organization_id && organization_active o.status) db.organizations
        (ground arith) in
    (has, ground arith, (o, there, ground arith, ground arith))

module _ (contains : String → String → Bool) (query : PublicJobSearch) (db : Db) (j : Job) where
  filters_iff :
      ((if_given_text (λ k. contains j.title k || contains j.description k) query.keyword
          && if_given_text (λ l. in_column contains l j.location) query.location
          && if_given_text (same_column contains j.employment_type) query.employment_type
          && if_given (λ o. j.organization_id == o) query.organization_id)
        ≡ true)
      ↔ Meets contains query j
  filters_iff =
      let keyword = given_iff _ _ (keyword_iff contains j) query.keyword in
      let location =
        given_iff _ _
          (column_iff (λ v l. contains v l) (λ c l. in_column contains l c) (λ l. refl)
            (λ v l. refl) j.location)
          query.location in
      let employment =
        given_iff _ _
          (column_iff same_text (same_column contains) (λ l. refl) (λ v l. refl) j.employment_type)
          query.employment_type in
      let organization = id_iff j query.organization_id in
      (
        (λ h. (
          keyword.0 (ground arith),
          location.0 (ground arith),
          employment.0 (ground arith),
          organization.0 (ground arith),
        )),
        λ (k, l, e, o). ground (arith, keyword.1 k, location.1 l, employment.1 e, organization.1 o),
      )

  -- The condition of the query finds the public jobs that meet the filters.
  search_where_iff :
      Has j db.jobs
      → (search_where contains query db.organizations j ≡ true)
        ↔ (IsPublic db j × Meets contains query j)
  search_where_iff has = (
    (λ h. (IsPublic-of db j has (ground arith), filters_iff.0 (ground arith))),
    λ ((_, published, (o, there, same, active)), meets).
        let filters = filters_iff.1 meets in
        let of_active =
          any-Has (λ o. o.id == j.organization_id && organization_active o.status) o
            db.organizations there (ground arith) in
        ground arith,
  )

module _ ⦃p : Prisma⦄ where
  -- The search answers always, and changes nothing. Every job on a page is a published one of an active
  -- organization and meets each filter that the request has with a text that is not empty; the jobs of a
  -- page are in the order of their publication, the newest first; a page has at most `pageSize` jobs; and
  -- `total` counts the jobs under the condition of the query, which are all the public jobs of the table
  -- that meet the filters.
  pub search_sound :
      (contains : String → String → Bool) (query : PublicJobSearch) (db : Db)
      → (found : Listing Job) × (search contains query db ≡ (ok found, db))
        × All (λ j. IsPublic db j × Meets contains query j) found.rows
        × Sorted newest_first found.rows
        × (length found.rows ≤ query.page.page_size)
        × (found.total ≡ count (search_where contains query db.organizations) db.jobs)
        × ((j : Job)
            → Has j db.jobs
            → (search_where contains query db.organizations j ≡ true)
              ↔ (IsPublic db j × Meets contains query j))
  unfolding search
  search_sound contains query db =
      let c = search_where contains query db.organizations in
      let (found, answer, (rows, sorted, size, total)) =
        list_page_lem job newest_first newest_first-IsOrder c query.page db in
      (
        found,
        answer,
        All-weaken (λ j. (c j ≡ true) × Has j db.jobs) (λ j. IsPublic db j × Meets contains query j)
            found.rows (λ j k. (search_where_iff contains query db j k.1).0 k.0) rows,
        sorted,
        size,
        total,
        search_where_iff contains query db,
      )
