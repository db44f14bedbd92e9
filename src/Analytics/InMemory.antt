-- ===== src/Analytics/InMemory.antt =====
-- A `groupBy` over lists that meets the law of `Grouping`.
use recruit_saas.Common.{
  ℕ, ◌≡◌, refl, sym, subst, ◌↔◌, inl, inr, Bool, true, false, List, [], ◌∷◌, ◌&&◌, arith, any,
  count, All, Has, Bool-cases, if◌then◌else◌, Has-of_any, All-weaken,
}
use recruit_saas.Analytics.{Grouping, Groups, Apart}

module _ {R K : Type 0} (same : K → K → Bool) (key : R → K) (c : R → Bool) where
  -- The values among the rows, each once.
  abbrev pub distinct_keys : List R → List K
  distinct_keys [] = []
  distinct_keys (x ∷ t) =
      let rest = distinct_keys t in
      if c x then (if any (same (key x)) rest then rest else key x ∷ rest) else rest

  abbrev pub counted : List R → List K → List (K × ℕ)
  counted t [] = []
  counted t (k ∷ keys) = (k, count (λ r. c r && same k (key r)) t) ∷ counted t keys

  abbrev ApartKeys : List K → Type 0
  ApartKeys [] = Unit
  ApartKeys (k ∷ keys) = All (λ j. same k j ≡ false) keys × ApartKeys keys

  none_same : (k : K) (keys : List K) → any (same k) keys ≡ false → All (λ j. same k j ≡ false) keys
  none_same k [] e = tt
  none_same k (j ∷ keys) e = (ground arith, none_same k keys (ground arith))

  distinct_keys-ApartKeys : (t : List R) → ApartKeys (distinct_keys t)
  distinct_keys-ApartKeys [] = tt
  distinct_keys-ApartKeys (x ∷ t) = elim (Bool-cases (c x)) [
    | inr out ↦ rw out (distinct_keys-ApartKeys t)
    | inl inside ↦ elim (Bool-cases (any (same (key x)) (distinct_keys t))) [
      | inl known ↦ rw (inside, known) (distinct_keys-ApartKeys t)
      | inr new ↦
          rw (inside, new) (none_same (key x) (distinct_keys t) new, distinct_keys-ApartKeys t)
    ]
  ]

  counted-Apart : (t : List R) (keys : List K) → ApartKeys keys → Apart same (counted t keys)
  counted-Apart t [] a = tt
  counted-Apart t (k ∷ keys) a = (heads k keys a.0, counted-Apart t keys a.1)
    where
      heads :
          (k : K) (keys : List K)
          → All (λ j. same k j ≡ false) keys
          → All (λ h. same k h.0 ≡ false) (counted t keys)
      heads k [] b = tt
      heads k (j ∷ keys) b = (b.0, heads k keys b.1)

  counted-counts :
      (t : List R) (keys : List K)
      → All (λ g. g.1 ≡ count (λ r. c r && same g.0 (key r)) t) (counted t keys)
  counted-counts t [] = tt
  counted-counts t (k ∷ keys) = (refl, counted-counts t keys)

  Has-counted :
      (t : List R) (k : K) (keys : List K)
      → Has k keys
      → Has (k, count (λ r. c r && same k (key r)) t) (counted t keys)
  Has-counted t k [] h = h
  Has-counted t k (j ∷ keys) (inl q) = inl (rw q refl)
  Has-counted t k (j ∷ keys) (inr h) = inr (Has-counted t k keys h)

  -- Each row of the condition has its value among the keys.
  abbrev Covers : List K → List R → Type 0
  Covers keys t = All (λ r. c r ≡ true → (k : K) × Has k keys × (same k (key r) ≡ true)) t

  module _ (same_iff : (a b : K) → (same a b ≡ true) ↔ (a ≡ b)) where
    flip : (a b : K) → same a b ≡ true → same b a ≡ true
    flip a b e = (same_iff b a).1 (sym ((same_iff a b).0 e))

    distinct_keys-cover : (t : List R) → Covers (distinct_keys t) t
    distinct_keys-cover [] = tt
    distinct_keys-cover (x ∷ t) = elim (Bool-cases (c x)) [
      | inr out ↦
          subst (λ keys. Covers keys (x ∷ t)) {x = distinct_keys t} (ground arith)
            ((λ e. absurd (ground arith)), distinct_keys-cover t)
      | inl inside ↦ elim (Bool-cases (any (same (key x)) (distinct_keys t))) [
        | inl known ↦
            let (k, has, e) = Has-of_any (same (key x)) (distinct_keys t) known in
            subst (λ keys. Covers keys (x ∷ t)) {x = distinct_keys t} (ground arith)
              ((λ _. (k, has, flip (key x) k e)), distinct_keys-cover t)
        | inr new ↦
            subst (λ keys. Covers keys (x ∷ t)) {x = key x ∷ distinct_keys t} (ground arith)
              (
                (λ _. (key x, inl refl, (same_iff (key x) (key x)).1 refl)),
                All-weaken _ _ t (λ r f e. let (k, has, q) = f e in (k, inr has, q))
                    (distinct_keys-cover t),
              )
      ]
    ]

    pub counted-Groups : (t : List R) → Groups same key c t (counted t (distinct_keys t))
    counted-Groups t = (
      counted-Apart t (distinct_keys t) (distinct_keys-ApartKeys t),
      counted-counts t (distinct_keys t),
      All-weaken _ _ t
          (λ r f e.
            let (k, has, q) = f e in
            ((k, count (λ x. c x && same k (key x)) t), Has-counted t k (distinct_keys t) has, q))
          (distinct_keys-cover t),
    )

abbrev pub grouping : Grouping
grouping = record {
  group_by = λ same key c t. counted same key c t (distinct_keys same key c t);
  group_by-Groups = λ same key c t same_iff. counted-Groups same key c same_iff t;
}
