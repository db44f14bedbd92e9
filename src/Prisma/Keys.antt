-- ===== src/Prisma/Keys.antt =====
-- Rows found by a key that no two rows of the table share.
use recruit_saas.Common.{
  any-modify-none, modify-none, count-none, ℕ, ◌≤◌, ◌≡◌, refl, sym, ap, subst, ◌∙◌, ◌⊎◌, inl, inr,
  Bool, true, false, none, some, List, [], ◌∷◌, arith, ◌==◌, ==_iff, Option-cases, Bool-cases, any,
  modify, All, Has, All-Has, any-Has, not-Has,
}
use recruit_saas.Prisma.Delegate.{Prisma, Finds, FindsLeast, updated}

module _ {R : Type 0} (key : R → ℕ) where
  -- No two rows of the table have the same key.
  abbrev pub UniqueBy : List R → Type 0
  UniqueBy [] = Unit
  UniqueBy (x ∷ xs) = All (λ y. key y ≡ key x → ⊥) xs × UniqueBy xs

module _ {R : Type 0} (key : R → ℕ) where
  pub eq_of_key :
      (r s : R) (t : List R) → UniqueBy key t → Has r t → Has s t → key r ≡ key s → r ≡ s
  eq_of_key r s [] u h k e = absurd h
  eq_of_key r s (x ∷ xs) u (inl p) (inl q) e = p ∙ sym q
  eq_of_key r s (x ∷ xs) u (inl p) (inr k) e =
      absurd (All-Has (λ y. key y ≡ key x → ⊥) s xs u.0 k (rw (← p) (sym e)))
  eq_of_key r s (x ∷ xs) u (inr h) (inl q) e =
      absurd (All-Has (λ y. key y ≡ key x → ⊥) r xs u.0 h (rw (← q) e))
  eq_of_key r s (x ∷ xs) u (inr h) (inr k) e = eq_of_key r s xs u.1 h k e

-- Tables in which rows have changed, but not their keys.
module _ {R : Type 0} (key : R → ℕ) (c : R → Bool) (f : R → R)
    (keeps : (r : R) → key (f r) ≡ key r) where
  All-key-modify :
      (n : ℕ) (t : List R) → All (λ y. key y ≡ n → ⊥) t → All (λ y. key y ≡ n → ⊥) (modify c f t)
  All-key-modify n [] a = tt
  All-key-modify n (x ∷ t) a = elim (Bool-cases (c x)) [
    | inl e ↦ rw e ((λ q. a.0 (sym (keeps x) ∙ q)), All-key-modify n t a.1)
    | inr e ↦ rw e (a.0, All-key-modify n t a.1)
  ]

  pub UniqueBy-modify : (t : List R) → UniqueBy key t → UniqueBy key (modify c f t)
  UniqueBy-modify [] u = tt
  UniqueBy-modify (x ∷ t) u = elim (Bool-cases (c x)) [
    | inl e ↦ rw e (rw (keeps x) (All-key-modify (key x) t u.0), UniqueBy-modify t u.1)
    | inr e ↦ rw e (All-key-modify (key x) t u.0, UniqueBy-modify t u.1)
  ]

module _ {R : Type 0} (c : R → Bool) where
  pub Has-modify :
      (f : R → R) (r : R) (t : List R) → Has r t → c r ≡ true → Has (f r) (modify c f t)
  Has-modify f r [] h e = absurd h
  Has-modify f r (x ∷ t) (inl q) e = inl (ground arith)
  Has-modify f r (x ∷ t) (inr h) e = inr (Has-modify f r t h e)

  -- A row that does not meet the condition stays.
  pub Has-unmodified :
      (f : R → R) (r : R) (t : List R) → Has r t → c r ≡ false → Has r (modify c f t)
  Has-unmodified f r [] h e = absurd h
  Has-unmodified f r (x ∷ t) (inl q) e = inl (ground arith)
  Has-unmodified f r (x ∷ t) (inr h) e = inr (Has-unmodified f r t h e)

  -- The second of two changes of the same rows, where the first does not show in it.
  pub modify-modify :
      (f g h : R → R) (t : List R)
      → ((r : R) → c (f r) ≡ c r)
      → ((r : R) → g (f r) ≡ h r)
      → modify c g (modify c f t) ≡ modify c h t
  modify-modify f g h [] same after = refl
  modify-modify f g h (x ∷ t) same after =
      ground (arith, same x, after x, modify-modify f g h t same after)

module _ ⦃p : Prisma⦄ {R : Type 0} where
  -- No row meets the condition.
  pub find_first-none : (c : R → Bool) (t : List R) → any c t ≡ false → p.find_first c t ≡ none
  find_first-none c t e = elim (Option-cases (p.find_first c t)) [
    | inl h ↦ h
    | inr (r, h) ↦ absurd (
        ground (
          arith,
          not-Has c r t e (subst (Finds c t) h (p.find_first-Finds c t)).1,
          (subst (Finds c t) h (p.find_first-Finds c t)).0,
        ))
  ]

  -- What a search tells of the table.
  pub find_first-cases :
      (c : R → Bool) (t : List R)
      → ((p.find_first c t ≡ none) × (any c t ≡ false))
        ⊎ ((r : R) × (p.find_first c t ≡ some r) × (c r ≡ true) × Has r t)
  find_first-cases c t = elim (Option-cases (p.find_first c t)) [
    | inl e ↦ inl (e, subst (Finds c t) e (p.find_first-Finds c t))
    | inr (r, e) ↦
        let (met, has) = subst (Finds c t) e (p.find_first-Finds c t) in inr (r, e, met, has)
  ]

  -- One row meets the condition, and all that meet it share its key.
  pub find_first-key :
      (key : R → ℕ) (c : R → Bool) (r : R) (t : List R)
      → UniqueBy key t
      → Has r t
      → c r ≡ true
      → ((x : R) → c x ≡ true → key x ≡ key r)
      → p.find_first c t ≡ some r
  find_first-key key c r t u h e same = elim (Option-cases (p.find_first c t)) [
    | inl n ↦
        absurd (ground (arith, any-Has c r t h e, subst (Finds c t) n (p.find_first-Finds c t)))
    | inr (x, f) ↦
        let (cx, hx) = subst (Finds c t) f (p.find_first-Finds c t) in
        f ∙ ap some (eq_of_key key x r t u hx h (same x cx))
  ]

  -- An update by the key of a row changes that row.
  pub update-key :
      (key : R → ℕ) (f : R → R) (r : R) (t : List R)
      → UniqueBy key t
      → Has r t
      → p.update (λ x. key x == key r) f t ≡ some (f r, modify (λ x. key x == key r) f t)
  update-key key f r t u h =
      p.update-eq (λ x. key x == key r) f t
      ∙ ap (updated (λ x. key x == key r) f t) (
          find_first-key key (λ x. key x == key r) r t u h ((==_iff (key r) (key r)).1 refl)
            (λ x. (==_iff (key x) (key r)).0))

  -- An update fails and changes nothing, or changes exactly the rows of the condition.
  pub update-cases :
      (c : R → Bool) (f : R → R) (t : List R)
      → (p.update c f t ≡ none) ⊎ ((r : R) × (p.update c f t ≡ some (r, modify c f t)))
  update-cases c f t = elim (Option-cases (p.find_first c t)) [
    | inl e ↦ inl (p.update-eq c f t ∙ ap (updated c f t) e)
    | inr (r, e) ↦ inr (f r, p.update-eq c f t ∙ ap (updated c f t) e)
  ]

  -- A table with no unique index takes every row.
  pub create-free : (r : R) (t : List R) → p.create (λ _ _. false) r t ≡ some (r ∷ t)
  create-free r t = p.create-eq (λ _ _. false) r t ∙ ground (arith, any-never t)
    where
      any-never : (xs : List R) → any (λ _. false) xs ≡ false
      any-never [] = refl
      any-never (x ∷ xs) = any-never xs

  -- One row of the table meets the condition.
  pub find_first-only :
      (c : R → Bool) (r : R) (t : List R)
      → Has r t
      → c r ≡ true
      → ((x : R) → Has x t → c x ≡ true → x ≡ r)
      → p.find_first c t ≡ some r
  find_first-only c r t h e only = elim (find_first-cases c t) [
    | inl (_, none_met) ↦ absurd (ground (arith, any-Has c r t h e))
    | inr (x, f, cx, hx) ↦ f ∙ ap some (only x hx cx)
  ]

  pub find_first_by-cases :
      (key : R → ℕ) (c : R → Bool) (t : List R)
      → ((p.find_first_by key c t ≡ none) × (any c t ≡ false))
        ⊎ ((r : R) × (p.find_first_by key c t ≡ some r)
            × (c r ≡ true)
            × Has r t
            × All (λ x. c x ≡ true → key r ≤ key x) t)
  find_first_by-cases key c t = elim (Option-cases (p.find_first_by key c t)) [
    | inl e ↦ inl (e, subst (FindsLeast key c t) e (p.find_first_by-FindsLeast key c t))
    | inr (r, e) ↦
        let (met, has, least) = subst (FindsLeast key c t) e (p.find_first_by-FindsLeast key c t) in
        inr (r, e, met, has, least)
  ]

  -- A guarded update, after which no row meets its condition, changes nothing when it runs again.
  pub update_many-spent :
      (c : R → Bool) (f g : R → R) (t : List R)
      → ((r : R) → c (f r) ≡ false)
      → p.update_many c g (p.update_many c f t).1 ≡ (0, (p.update_many c f t).1)
  update_many-spent c f g t spent =
      let gone = any-modify-none c f t spent in
      ground (
        arith,
        p.update_many-eq c f t,
        p.update_many-eq c g (modify c f t),
        modify-none c g (modify c f t) gone,
        count-none c g (modify c f t) gone,
      )
