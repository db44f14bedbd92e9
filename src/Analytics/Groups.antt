-- ===== src/Analytics/Groups.antt =====
-- The groups of `groupBy`: their counts add up, and the count of a value is that of its rows.
use recruit_saas.Common.{
  ℕ, ◌+◌, ◌≡◌, refl, sym, ap, subst, ◌∙◌, ◌↔◌, ◌⊎◌, inl, inr, List, [], ◌∷◌, Bool, true, false,
  none, some, not, ◌&&◌, count, All, Has, All-Has, arith, Bool-cases, false_of_not, count-ext,
  All-of_Has,
}
use recruit_saas.Analytics.{Groups, count_of}

abbrev pub sum : {K : Type 0} → List (K × ℕ) → ℕ
sum [] = 0
sum (g ∷ groups) = g.1 + sum groups

module _ {R : Type 0} (c q : R → Bool) where
  count-split :
      (t : List R) → count c t ≡ count (λ r. c r && q r) t + count (λ r. c r && not (q r)) t
  count-split [] = omega arith
  count-split (x ∷ t) = elim (Bool-cases (c x)) [
    | inl e ↦ elim (Bool-cases (q x)) [
      | inl f ↦ ground (arith, count-split t)
      | inr f ↦ ground (arith, count-split t)
    ]
    | inr e ↦ ground (arith, count-split t)
  ]

count-never : {R : Type 0} (c : R → Bool) (t : List R) → All (λ r. c r ≡ true → ⊥) t → count c t ≡ 0
count-never c [] a = refl
count-never c (x ∷ t) a =
    let off : c x ≡ false = false_of_not (c x) a.0 in ground (arith, count-never c t a.1)

module _ {K : Type 0} (same : K → K → Bool) where
  pub count_of-cases :
      (k : K) (groups : List (K × ℕ))
      → ((count_of same k groups ≡ none) × All (λ g. same k g.0 ≡ false) groups)
        ⊎ ((g : K × ℕ) × Has g groups × (same k g.0 ≡ true) × (count_of same k groups ≡ some g.1))
  count_of-cases k [] = inl (refl, tt)
  count_of-cases k (g ∷ groups) = elim (Bool-cases (same k g.0)) [
    | inl here ↦ inr (g, inl refl, here, ground arith)
    | inr e ↦ elim (count_of-cases k groups) [
      | inl (nothing, a) ↦ inl (ground arith, (e, a))
      | inr (h, has, here, found) ↦ inr (h, inr has, here, ground arith)
    ]
  ]

module _ {R K : Type 0} (same : K → K → Bool) (key : R → K)
    (same_iff : (a b : K) → (same a b ≡ true) ↔ (a ≡ b)) where
  same-false : (g h : K) (r : R) → same g h ≡ false → same h (key r) ≡ true → same g (key r) ≡ false
  same-false g h r apart e = subst (λ k. same g k ≡ false) ((same_iff h (key r)).0 e) apart

  -- The rows outside of the first group, in the other groups.
  Groups-tail :
      (c : R → Bool) (t : List R) (g : K × ℕ) (groups : List (K × ℕ))
      → Groups same key c t (g ∷ groups)
      → Groups same key (λ r. c r && not (same g.0 (key r))) t groups
  Groups-tail c t g groups (apart, counts, covers) = (
    apart.1,
    All-of_Has (λ h. h.1 ≡ count (λ r. (c r && not (same g.0 (key r))) && same h.0 (key r)) t)
        groups
        (λ h has.
          All-Has _ h groups counts.1 has
          ∙ count-ext (λ r. c r && same h.0 (key r))
              (λ r. (c r && not (same g.0 (key r))) && same h.0 (key r)) t
              (λ r. elim (Bool-cases (same h.0 (key r))) [
                | inl e ↦
                    let off =
                      same-false g.0 h.0 r
                        (All-Has (λ x. same g.0 x.0 ≡ false) h groups apart.0 has) e in
                    ground arith
                | inr e ↦ ground arith
              ])),
    All-of_Has
        (λ r.
          c r && not (same g.0 (key r)) ≡ true
          → (x : K × ℕ) × Has x groups × (same x.0 (key r) ≡ true))
        t
        (λ r has e.
          let (x, held, here) = All-Has _ r t covers has (ground arith) in
          elim held [
            | inl first ↦
                let q : same g.0 (key r) ≡ true =
                  subst (λ (y : K × ℕ). same y.0 (key r) ≡ true) first here in
                absurd (ground arith)
            | inr later ↦ (x, later, here)
          ]),
  )

  -- The counts of the groups add up to the number of the rows.
  pub sum-Groups :
      (c : R → Bool) (t : List R) (groups : List (K × ℕ))
      → Groups same key c t groups
      → sum groups ≡ count c t
  sum-Groups c t [] (apart, counts, covers) = sym (
      count-never c t (
        All-of_Has (λ r. c r ≡ true → ⊥) t
          (λ r h e. let (g, nowhere, _) = All-Has _ r t covers h e in nowhere)))
  sum-Groups c t (g ∷ groups) all_groups =
      let (_, counts, _) = all_groups in
      let rest =
        sum-Groups (λ r. c r && not (same g.0 (key r))) t groups
          (Groups-tail c t g groups all_groups) in
      let split = count-split c (λ r. same g.0 (key r)) t in ground (arith, counts.0)

  -- A value without a group has no rows.
  pub count_of-Groups :
      (c : R → Bool) (t : List R) (groups : List (K × ℕ)) (k : K)
      → Groups same key c t groups
      → ((count_of same k groups ≡ none) × (count (λ r. c r && same k (key r)) t ≡ 0))
        ⊎ (count_of same k groups ≡ some (count (λ r. c r && same k (key r)) t))
  count_of-Groups c t groups k (apart, counts, covers) = elim (count_of-cases same k groups) [
    | inl (nothing, a) ↦ inl (
      nothing,
      count-never (λ r. c r && same k (key r)) t
          (All-of_Has (λ r. c r && same k (key r) ≡ true → ⊥) t
            (λ r has e.
              let (g, held, here) = All-Has _ r t covers has (ground arith) in
              let off = All-Has (λ g. same k g.0 ≡ false) g groups a held in
              let none_here = same-false k g.0 r off here in absurd (ground arith))),
    )
    | inr (g, has, here, found) ↦ inr (
        let size = All-Has _ g groups counts has in
        found
        ∙ ap some
            (size ∙ ap (λ x. count (λ r. c r && same x (key r)) t) (sym ((same_iff k g.0).0 here))))
  ]
