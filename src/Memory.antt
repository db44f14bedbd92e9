-- ===== src/Memory.antt =====
-- A client over lists that meets the laws of `Prisma`: the assumptions can hold, and tests can run.
use recruit_saas.Common.{
  ℕ, ◌≤◌, ◌≡◌, refl, ap, subst, ◌∙◌, ◌⊎◌, suc, length, Bool, true, false, inl, inr, Option, none,
  some, List, [], ◌∷◌, arith, leb, if◌then◌else◌, any, filter, modify, reject, count, All, Has,
  All-weaken, Bool-cases, take, drop,
}
use recruit_saas.Prisma.{Prisma, Finds, FindsLeast, Lists, Ascending, updated, IsOrder, Sorted}

le_trans : (a b c : ℕ) → a ≤ b → b ≤ c → a ≤ c
le_trans a b c h k = omega arith

module _ {R : Type 0} where
  abbrev pub first : (R → Bool) → List R → Option R
  first p [] = none
  first p (x ∷ xs) = if p x then some x else first p xs

  abbrev pub smaller : (R → ℕ) → R → Option R → Option R
  smaller key x none = some x
  smaller key x (some y) = if leb (key x) (key y) then some x else some y

  abbrev pub first_by : (R → ℕ) → (R → Bool) → List R → Option R
  first_by key p [] = none
  first_by key p (x ∷ xs) = let rest = first_by key p xs in if p x then smaller key x rest else rest

  pub first-Finds : (p : R → Bool) (t : List R) → Finds p t (first p t)
  first-Finds p [] = refl
  first-Finds p (x ∷ xs) = elim (Bool-cases (p x)) [
    | inl e ↦ rw e (e, inl refl)
    | inr e ↦ rw e (skip e (first p xs) (first-Finds p xs))
  ]
    where
      skip : p x ≡ false → (o : Option R) → Finds p xs o → Finds p (x ∷ xs) o
      skip e none f = ground arith
      skip e (some r) f = (f.0, inr f.1)

  All-of_none :
      (key : R → ℕ) (p : R → Bool) (n : ℕ) (t : List R)
      → any p t ≡ false
      → All (λ x. p x ≡ true → n ≤ key x) t
  All-of_none key p n [] e = tt
  All-of_none key p n (x ∷ xs) e =
      ((λ h. absurd (ground arith)), All-of_none key p n xs (ground arith))

  module _ (key : R → ℕ) (p : R → Bool) (x : R) (xs : List R) where
    least_skip : p x ≡ false → (o : Option R) → FindsLeast key p xs o → FindsLeast key p (x ∷ xs) o
    least_skip e none f = ground arith
    least_skip e (some r) (met, has, least) = (met, inr has, ((λ h. absurd (ground arith)), least))

    least_take :
        p x ≡ true
        → (o : Option R) → FindsLeast key p xs o
        → FindsLeast key p (x ∷ xs) (smaller key x o)
    least_take e none f = (e, inl refl, ((λ h. omega arith), All-of_none key p (key x) xs f))
    least_take e (some r) (met, has, least) = elim (Bool-cases (leb (key x) (key r))) [
      | inl l ↦ rw l (
        e,
        inl refl,
        (
          (λ h. omega arith),
          All-weaken _ _ xs (λ y h q. le_trans (key x) (key r) (key y) (ground arith) (h q)) least,
        ),
      )
      | inr g ↦ rw g (met, inr has, ((λ h. ground arith), least))
    ]

  pub first_by-FindsLeast :
      (key : R → ℕ) (p : R → Bool) (t : List R) → FindsLeast key p t (first_by key p t)
  first_by-FindsLeast key p [] = refl
  first_by-FindsLeast key p (x ∷ xs) = elim (Bool-cases (p x)) [
    | inl e ↦ rw e (least_take key p x xs e (first_by key p xs) (first_by-FindsLeast key p xs))
    | inr e ↦ rw e (least_skip key p x xs e (first_by key p xs) (first_by-FindsLeast key p xs))
  ]

module _ {R : Type 0} where
  pub filter-Lists : (p : R → Bool) (t : List R) → Lists p t (filter p t)
  filter-Lists p [] = (tt, tt, refl)
  filter-Lists p (x ∷ xs) =
      let (sound, complete, size) = filter-Lists p xs in
      elim (Bool-cases (p x)) [
        | inl e ↦ subst (Lists p (x ∷ xs)) {x = x ∷ filter p xs} (ground arith) (
          ((e, inl refl), All-weaken _ _ (filter p xs) (λ r h. (h.0, inr h.1)) sound),
          ((λ _. inl refl), All-weaken _ _ xs (λ r h q. inr (h q)) complete),
          ground arith,
        )
        | inr e ↦ subst (Lists p (x ∷ xs)) {x = filter p xs} (ground arith) (
          All-weaken _ _ (filter p xs) (λ r h. (h.0, inr h.1)) sound,
          ((λ q. absurd (ground arith)), complete),
          ground arith,
        )
      ]

  abbrev pub insert : (R → R → Bool) → R → List R → List R
  insert before x [] = x ∷ []
  insert before x (y ∷ ys) = if before x y then x ∷ y ∷ ys else y ∷ insert before x ys

  abbrev pub sort : (R → R → Bool) → List R → List R
  sort before [] = []
  sort before (x ∷ xs) = insert before x (sort before xs)

  module _ (before : R → R → Bool) where
    All-insert : (P : R → Type 0) (x : R) (t : List R) → P x → All P t → All P (insert before x t)
    All-insert P x [] h a = (h, tt)
    All-insert P x (y ∷ ys) h a = elim (Bool-cases (before x y)) [
      | inl e ↦ rw e (h, a)
      | inr e ↦ rw e (a.0, All-insert P x ys h a.1)
    ]

    All-sort : (P : R → Type 0) (t : List R) → All P t → All P (sort before t)
    All-sort P [] a = tt
    All-sort P (x ∷ xs) a = All-insert P x (sort before xs) a.0 (All-sort P xs a.1)

    Has-insert : (r x : R) (t : List R) → (r ≡ x) ⊎ Has r t → Has r (insert before x t)
    Has-insert r x [] h = h
    Has-insert r x (y ∷ ys) h = elim (Bool-cases (before x y)) [
      | inl e ↦ rw e h
      | inr e ↦ rw e (elim h [
        | inl q ↦ inr (Has-insert r x ys (inl q))
        | inr (inl q) ↦ inl q
        | inr (inr k) ↦ inr (Has-insert r x ys (inr k))
      ])
    ]

    Has-sort : (r : R) (t : List R) → Has r t → Has r (sort before t)
    Has-sort r [] h = h
    Has-sort r (x ∷ xs) (inl q) = Has-insert r x (sort before xs) (inl q)
    Has-sort r (x ∷ xs) (inr h) = Has-insert r x (sort before xs) (inr (Has-sort r xs h))

    length-insert : (x : R) (t : List R) → length (insert before x t) ≡ suc (length t)
    length-insert x [] = refl
    length-insert x (y ∷ ys) = ground (arith, length-insert x ys)

    length-sort : (t : List R) → length (sort before t) ≡ length t
    length-sort [] = refl
    length-sort (x ∷ xs) = length-insert x (sort before xs) ∙ ap suc (length-sort xs)

    Sorted-insert :
        IsOrder before → (x : R) (t : List R) → Sorted before t → Sorted before (insert before x t)
    Sorted-insert o x [] a = (tt, tt)
    Sorted-insert o x (y ∷ ys) a = elim (Bool-cases (before x y)) [
      | inl e ↦ rw e ((e, All-weaken _ _ ys (λ z h. o.1 x y z e h) a.0), a)
      | inr e ↦
          let e' : before y x ≡ true = elim (o.0 y x) [
            | inl h ↦ h
            | inr h ↦ absurd (ground arith)
          ] in
          rw e (All-insert (λ z. before y z ≡ true) x ys e' a.0, Sorted-insert o x ys a.1)
    ]

    pub Sorted-sort : IsOrder before → (t : List R) → Sorted before (sort before t)
    Sorted-sort o [] = tt
    Sorted-sort o (x ∷ xs) = Sorted-insert o x (sort before xs) (Sorted-sort o xs)

    pub sort-Lists : (p : R → Bool) (t : List R) → Lists p t (sort before (filter p t))
    sort-Lists p t =
        let (sound, complete, size) = filter-Lists p t in
        (
          All-sort _ (filter p t) sound,
          All-weaken _ _ t (λ r h q. Has-sort r (filter p t) (h q)) complete,
          length-sort (filter p t),
        )

-- Under `orderBy: { key: 'asc' }`.
abbrev pub by_key : {R : Type 0} → (R → ℕ) → R → R → Bool
by_key key x y = leb (key x) (key y)

pub by_key-IsOrder : {R : Type 0} (key : R → ℕ) → IsOrder (by_key key)
by_key-IsOrder {R = R} key = (total, λ x y z h k. ground arith)
  where
    total : (x y : R) → (by_key key x y ≡ true) ⊎ (by_key key y x ≡ true)
    total x y = elim (Bool-cases (leb (key x) (key y))) [
      | inl e ↦ inl e
      | inr e ↦ inr (ground arith)
    ]

pub Ascending-of_Sorted :
    {R : Type 0} (key : R → ℕ) (t : List R) → Sorted (by_key key) t → Ascending key t
Ascending-of_Sorted key [] s = tt
Ascending-of_Sorted key (x ∷ xs) s =
    (All-weaken _ _ xs (λ y h. ground arith) s.0, Ascending-of_Sorted key xs s.1)

instance abbrev pub in_memory : Prisma
in_memory = record {
  find_first = first;
  find_first_by = first_by;
  find_many = filter;
  find_many_by = λ key p t. sort (by_key key) (filter p t);
  find_page = λ before p skip size t. take size (drop skip (sort before (filter p t)));
  count_rows = count;
  create = λ clash r t. if any (clash r) t then none else some (r ∷ t);
  update = λ p f t. updated p f t (first p t);
  update_many = λ p f t. (count p t, modify p f t);
  delete_many = λ p t. (count p t, reject p t);
  find_first-Finds = first-Finds;
  find_first_by-FindsLeast = first_by-FindsLeast;
  find_many-Lists = filter-Lists;
  find_many_by-Lists = λ key p t. sort-Lists (by_key key) p t;
  find_many_by-Ascending = λ key p t.
      Ascending-of_Sorted key (sort (by_key key) (filter p t))
        (Sorted-sort (by_key key) (by_key-IsOrder key) (filter p t));
  find_page-PageOf = λ before p skip size t o.
      (sort before (filter p t), sort-Lists before p t, Sorted-sort before o (filter p t), refl);
  count_rows-eq = λ p t. refl;
  create-eq = λ clash r t. refl;
  update-eq = λ p f t. refl;
  update_many-eq = λ p f t. refl;
  delete_many-eq = λ p t. refl;
}
