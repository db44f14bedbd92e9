-- ===== src/Requests/Pages.antt =====
-- The pages of a list: `skip: (page - 1) * pageSize, take: pageSize` beside a count, in every paged list
-- of the services. Each page is a query of its own: rows at the same place of the order may move
-- between two of them.
use recruit_saas.Common.{
  ℕ, zero, suc, ◌*◌, ◌-◌, ◌≤◌, ◌≡◌, refl, subst, sym, inl, Bool, true, List, [], ◌∷◌, arith, length,
  count, take, drop, All, Has,
}
use recruit_saas.Schema.{Db}
use recruit_saas.Prisma.{Prisma, Table, PageOf, IsOrder, Sorted, ok}
use recruit_saas.Requests.{Page, Listing, any_order, list_page}

pub any_order-IsOrder : {A : Type 0} → IsOrder (any_order {A = A})
any_order-IsOrder = ((λ x y. inl refl), λ x y z h k. refl)

module _ {A : Type 0} where
  module _ (P : A → Type 0) where
    All-take : (n : ℕ) (xs : List A) → All P xs → All P (take n xs)
    All-take zero xs a = tt
    All-take (suc n) [] a = tt
    All-take (suc n) (x ∷ xs) a = (a.0, All-take n xs a.1)

    All-drop : (n : ℕ) (xs : List A) → All P xs → All P (drop n xs)
    All-drop zero xs a = a
    All-drop (suc n) [] a = tt
    All-drop (suc n) (x ∷ xs) a = All-drop n xs a.1

  length-take : (n : ℕ) (xs : List A) → length (take n xs) ≤ n
  length-take zero xs = omega arith
  length-take (suc n) [] = omega arith
  length-take (suc n) (x ∷ xs) = let h = length-take n xs in omega arith

  module _ (precedes : A → A → Bool) where
    Sorted-take : (n : ℕ) (xs : List A) → Sorted precedes xs → Sorted precedes (take n xs)
    Sorted-take zero xs s = tt
    Sorted-take (suc n) [] s = tt
    Sorted-take (suc n) (x ∷ xs) s =
        (All-take (λ y. precedes x y ≡ true) n xs s.0, Sorted-take n xs s.1)

    Sorted-drop : (n : ℕ) (xs : List A) → Sorted precedes xs → Sorted precedes (drop n xs)
    Sorted-drop zero xs s = s
    Sorted-drop (suc n) [] s = tt
    Sorted-drop (suc n) (x ∷ xs) s = Sorted-drop n xs s.1

-- What a page of a condition's rows holds: rows that meet it, in order, and no more than asked for.
abbrev pub IsPage :
    {R : Type 0} → Table R → (R → R → Bool) → (R → Bool) → Page → Db → Listing R → Type 0
IsPage t precedes c query db found =
    All (λ r. (c r ≡ true) × Has r (t.rows db)) found.rows
    × Sorted precedes found.rows
    × (length found.rows ≤ query.page_size)
    × (found.total ≡ count c (t.rows db))

module _ ⦃p : Prisma⦄ {R : Type 0} where
  page_rows :
      (precedes : R → R → Bool) (c : R → Bool) (skip size : ℕ) (t rows : List R)
      → PageOf precedes c skip size t rows
      → All (λ r. (c r ≡ true) × Has r t) rows × Sorted precedes rows × (length rows ≤ size)
  page_rows precedes c skip size t rows (all, listed, sorted, e) =
      subst
        (λ (rows : List R).
          All (λ r. (c r ≡ true) × Has r t) rows × Sorted precedes rows × (length rows ≤ size))
        (sym e)
        (
          All-take (λ r. (c r ≡ true) × Has r t) size (drop skip all)
              (All-drop (λ r. (c r ≡ true) × Has r t) skip all listed.0),
          Sorted-take precedes size (drop skip all) (Sorted-drop precedes skip all sorted),
          length-take size (drop skip all),
        )

  pub list_page_lem :
      (t : Table R) (precedes : R → R → Bool)
      → IsOrder precedes
      → (c : R → Bool) (query : Page) (db : Db)
      → (found : Listing R) × (list_page t precedes c query db ≡ (ok found, db))
        × IsPage t precedes c query db found
  unfolding list_page
  list_page_lem t precedes order c query db =
      let skip = (query.page - 1) * query.page_size in
      let rows = p.find_page precedes c skip query.page_size (t.rows db) in
      let (met, sorted, size) =
        page_rows precedes c skip query.page_size (t.rows db) rows
          (p.find_page-PageOf precedes c skip query.page_size (t.rows db) order) in
      (
        record { rows = rows; total = p.count_rows c (t.rows db) },
        refl,
        (met, sorted, size, p.count_rows-eq c (t.rows db)),
      )
