-- ===== src/Common/Facts.antt =====
-- Facts on rows and conditions.
use mathlib.Core.Path.{◌≡◌, refl, sym}
use mathlib.Core.Logic.{◌⊎◌, inl, inr}
use Prim.Native.Nat.{◌+◌, ◌≤◌}
use mathlib.Core.Bool.{Bool, true, false, ◌&&◌}
use mathlib.Core.List.{List, [], ◌∷◌}
use native.Mathlib.Omega.{arith}
use recruit_saas.Common.Tests.{◌==◌, Bool-cases}
use recruit_saas.Common.Rows.{any, count, modify, reject, All, Has}

module _ {R : Type 0} where
  pub All-weaken : (P Q : R → Type 0) (t : List R) → ((x : R) → P x → Q x) → All P t → All Q t
  All-weaken P Q [] f a = tt
  All-weaken P Q (x ∷ xs) f a = (f x a.0, All-weaken P Q xs f a.1)

  pub All-Has {κ} : (P : R → Type κ) (r : R) (t : List R) → All P t → Has r t → P r
  All-Has P r [] a h = absurd h
  All-Has P r (x ∷ xs) a (inl e) = rw e a.0
  All-Has P r (x ∷ xs) a (inr h) = All-Has P r xs a.1 h

  pub All-of_Has : (P : R → Type 0) (t : List R) → ((x : R) → Has x t → P x) → All P t
  All-of_Has P [] f = tt
  All-of_Has P (x ∷ xs) f = (f x (inl refl), All-of_Has P xs (λ y h. f y (inr h)))

  pub any-Has : (c : R → Bool) (r : R) (t : List R) → Has r t → c r ≡ true → any c t ≡ true
  any-Has c r [] h e = absurd h
  any-Has c r (x ∷ xs) (inl p) e = ground arith
  any-Has c r (x ∷ xs) (inr h) e = ground (arith, any-Has c r xs h e)

  pub not-Has : (c : R → Bool) (r : R) (t : List R) → any c t ≡ false → Has r t → c r ≡ false
  not-Has c r [] e h = absurd h
  not-Has c r (x ∷ xs) e (inl p) = ground arith
  not-Has c r (x ∷ xs) e (inr h) = ground (arith, not-Has c r xs)

  -- The row that a true test tells of.
  pub Has-of_any : (c : R → Bool) (t : List R) → any c t ≡ true → (r : R) × Has r t × (c r ≡ true)
  Has-of_any c [] e = absurd (ground arith)
  Has-of_any c (x ∷ xs) e = elim (Bool-cases (c x)) [
    | inl h ↦ (x, inl refl, h)
    | inr n ↦ let (r, h, m) = Has-of_any c xs (ground arith) in (r, inr h, m)
  ]

  pub Has-reject : (c : R → Bool) (r : R) (t : List R) → Has r t → c r ≡ false → Has r (reject c t)
  Has-reject c r [] h e = h
  Has-reject c r (x ∷ xs) (inl q) e = rw (moved_test q) (inl q)
    where
      moved_test : r ≡ x → c x ≡ false
      moved_test k = rw (sym k) e
  Has-reject c r (x ∷ xs) (inr h) e = elim (Bool-cases (c x)) [
    | inl g ↦ rw g (Has-reject c r xs h e)
    | inr g ↦ rw g (inr (Has-reject c r xs h e))
  ]

  reject_cons-Has :
      (c : R → Bool) (r x : R) (xs : List R)
      → (Has r (reject c xs) → Has r xs × (c r ≡ false))
      → (c x ≡ true) ⊎ (c x ≡ false)
      → Has r (reject c (x ∷ xs))
      → Has r (x ∷ xs) × (c r ≡ false)
  reject_cons-Has c r x xs rest (inl g) h = let (k, e) = rest (rw g at h) in (inr k, e)
  reject_cons-Has c r x xs rest (inr g) h = kept (rw g at h)
    where
      kept : Has r (x ∷ reject c xs) → Has r (x ∷ xs) × (c r ≡ false)
      kept (inl q) = (inl q, rw q g)
      kept (inr k) = let (m, e) = rest k in (inr m, e)

  -- A rejected list holds no row of the condition, and only rows of the list.
  pub reject-Has :
      (c : R → Bool) (r : R) (t : List R) → Has r (reject c t) → Has r t × (c r ≡ false)
  reject-Has c r [] h = absurd h
  reject-Has c r (x ∷ xs) h = reject_cons-Has c r x xs (reject-Has c r xs) (Bool-cases (c x)) h

  pub any-modify :
      (q c : R → Bool) (f : R → R) (t : List R)
      → ((r : R) → q (f r) ≡ q r)
      → any q t ≡ true
      → any q (modify c f t) ≡ true
  any-modify q c f [] same e = e
  any-modify q c f (x ∷ xs) same e = elim (Bool-cases (q x)) [
    | inl h ↦ ground (arith, same x)
    | inr n ↦ ground (arith, any-modify q c f xs same (ground arith))
  ]

  pub All-modify :
      (P : R → Type 0) (c : R → Bool) (f : R → R) (t : List R)
      → ((x : R) → c x ≡ true → P x → P (f x))
      → All P t
      → All P (modify c f t)
  All-modify P c f [] change a = tt
  All-modify P c f (x ∷ xs) change a = elim (Bool-cases (c x)) [
    | inl e ↦ (rw e (change x e a.0), All-modify P c f xs change a.1)
    | inr e ↦ (rw e a.0, All-modify P c f xs change a.1)
  ]

  pub any_of_count : (c : R → Bool) (t : List R) → (count c t ≡ 0 → ⊥) → any c t ≡ true
  any_of_count c [] h = absurd (h refl)
  any_of_count c (x ∷ xs) h = elim (Bool-cases (c x)) [
    | inl e ↦ ground arith
    | inr e ↦ ground (arith, any_of_count c xs (λ n. h (ground arith)))
  ]

module _ {R : Type 0} (c : R → Bool) (f : R → R) where
  pub modify-none : (t : List R) → any c t ≡ false → modify c f t ≡ t
  modify-none [] e = refl
  modify-none (x ∷ t) e = ground (arith, modify-none t)

  pub count-none : (t : List R) → any c t ≡ false → count c t ≡ 0
  count-none [] e = refl
  count-none (x ∷ t) e = ground (arith, count-none t)

  -- A change after which no row meets the condition.
  pub any-modify-none : (t : List R) → ((r : R) → c (f r) ≡ false) → any c (modify c f t) ≡ false
  any-modify-none [] spent = refl
  any-modify-none (x ∷ t) spent = elim (Bool-cases (c x)) [
    | inl e ↦ ground (arith, spent x, any-modify-none t spent)
    | inr e ↦ ground (arith, any-modify-none t spent)
  ]

module _ {R : Type 0} where
  pub count-some : (q : R → Bool) (rows : List R) → any q rows ≡ true → (count q rows == 0) ≡ false
  count-some q [] h = absurd (ground arith)
  count-some q (x ∷ rows) h = elim (Bool-cases (q x)) [
    | inl e ↦ ground arith
    | inr e ↦ ground (arith, count-some q rows (ground arith))
  ]

module _ {R : Type 0} where
  pub any-ext : (c d : R → Bool) (t : List R) → ((r : R) → c r ≡ d r) → any c t ≡ any d t
  any-ext c d [] same = refl
  any-ext c d (x ∷ t) same = ground (arith, same x, any-ext c d t same)

  pub count-ext : (c d : R → Bool) (t : List R) → ((r : R) → c r ≡ d r) → count c t ≡ count d t
  count-ext c d [] same = refl
  count-ext c d (x ∷ t) same = elim (Bool-cases (d x)) [
    | inl e ↦ ground (arith, same x, count-ext c d t same)
    | inr e ↦ ground (arith, same x, count-ext c d t same)
  ]

  pub modify-same : (c : R → Bool) (t : List R) → modify c (λ x. x) t ≡ t
  modify-same c [] = refl
  modify-same c (x ∷ t) = elim (Bool-cases (c x)) [
    | inl e ↦ ground (arith, modify-same c t)
    | inr e ↦ ground (arith, modify-same c t)
  ]

module _ {R : Type 0} (c q : R → Bool) where
  -- The rows of a condition that stay when those of another go.
  pub count-reject : (t : List R) → count c (reject q t) + count (λ r. c r && q r) t ≡ count c t
  count-reject [] = omega arith
  count-reject (x ∷ t) = elim (Bool-cases (q x)) [
    | inl e ↦ elim (Bool-cases (c x)) [
      | inl f ↦ ground (arith, count-reject t)
      | inr f ↦ ground (arith, count-reject t)
    ]
    | inr e ↦ elim (Bool-cases (c x)) [
      | inl f ↦ ground (arith, count-reject t)
      | inr f ↦ ground (arith, count-reject t)
    ]
  ]

  pub count-apart :
      (t : List R) → any (λ r. c r && q r) t ≡ false → count c (reject q t) ≡ count c t
  count-apart [] e = refl
  count-apart (x ∷ t) e = elim (Bool-cases (q x)) [
    | inl f ↦ ground (arith, count-apart t)
    | inr f ↦ ground (arith, count-apart t)
  ]

module _ {R : Type 0} (c q : R → Bool) where
  pub count_both-le : (t : List R) → count (λ r. c r && q r) t ≤ count c t
  count_both-le [] = omega arith
  count_both-le (x ∷ t) = elim (Bool-cases (c x)) [
    | inl e ↦ elim (Bool-cases (q x)) [
      | inl f ↦ ground (arith, count_both-le t)
      | inr f ↦ ground (arith, count_both-le t)
    ]
    | inr e ↦ ground (arith, count_both-le t)
  ]

module _ {R : Type 0} where
  pub reject-none : (c : R → Bool) (t : List R) → any c t ≡ false → reject c t ≡ t
  reject-none c [] e = refl
  reject-none c (x ∷ t) e = ground (arith, reject-none c t)

  pub any-reject : (c : R → Bool) (t : List R) → any c (reject c t) ≡ false
  any-reject c [] = refl
  any-reject c (x ∷ t) = elim (Bool-cases (c x)) [
    | inl e ↦ ground (arith, any-reject c t)
    | inr e ↦ ground (arith, any-reject c t)
  ]

  one_met : (c q : R → Bool) (t : List R) → any (λ r. c r && q r) t ≡ true → 1 ≤ count c t
  one_met c q [] e = absurd (ground arith)
  one_met c q (x ∷ t) e = elim (Bool-cases (c x)) [
    | inl f ↦ ground arith
    | inr f ↦ ground (arith, one_met c q t)
  ]

  -- Two conditions that no row meets together, each met beside c.
  pub two_met :
      (c a b : R → Bool) (t : List R)
      → ((r : R) → a r ≡ true → b r ≡ true → ⊥)
      → any (λ r. c r && a r) t ≡ true
      → any (λ r. c r && b r) t ≡ true
      → 2 ≤ count c t
  two_met c a b [] apart e f = absurd (ground arith)
  two_met c a b (x ∷ t) apart e f = elim (Bool-cases (c x)) [
    | inr n ↦ ground (arith, two_met c a b t apart)
    | inl y ↦ elim (Bool-cases (a x)) [
      | inl first ↦ elim (Bool-cases (b x)) [
        | inl second ↦ absurd (apart x first second)
        | inr second ↦ ground (arith, one_met c b t)
      ]
      | inr second ↦ ground (arith, one_met c a t)
    ]
  ]
