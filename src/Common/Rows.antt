-- ===== src/Common/Rows.antt =====
-- Lists of rows under Boolean conditions.
use Prim.Native.Nat.{ℕ, zero, suc}
use mathlib.Core.Path.{◌≡◌}
use mathlib.Core.Logic.{◌⊎◌}
use mathlib.Core.Bool.{Bool, true, false, ◌||◌}
use mathlib.Core.List.{List, [], ◌∷◌}
use recruit_saas.Common.Tests.{if◌then◌else◌}

module _ {ℓ} {R : Type ℓ} where
  abbrev pub length : List R → ℕ
  length [] = 0
  length (x ∷ xs) = suc (length xs)

  abbrev pub is_empty : List R → Bool
  is_empty [] = true
  is_empty (_ ∷ _) = false

  abbrev pub any : (R → Bool) → List R → Bool
  any p [] = false
  any p (x ∷ xs) = p x || any p xs

  abbrev pub filter : (R → Bool) → List R → List R
  filter p [] = []
  filter p (x ∷ xs) = if p x then x ∷ filter p xs else filter p xs

  -- The rows that meet the condition, changed; the others as they were.
  abbrev pub modify : (R → Bool) → (R → R) → List R → List R
  modify p f [] = []
  modify p f (x ∷ xs) = (if p x then f x else x) ∷ modify p f xs

  abbrev pub reject : (R → Bool) → List R → List R
  reject p [] = []
  reject p (x ∷ xs) = if p x then reject p xs else x ∷ reject p xs

  abbrev pub count : (R → Bool) → List R → ℕ
  count p xs = length (filter p xs)

  abbrev pub All {κ} : (R → Type κ) → List R → Type κ
  All P [] = Unit
  All P (x ∷ xs) = P x × All P xs

module _ {R : Type 0} where
  -- The row stands in the list.
  abbrev pub Has : R → List R → Type 0
  Has r [] = ⊥
  Has r (x ∷ xs) = (r ≡ x) ⊎ Has r xs

module _ {ℓ} {A : Type ℓ} where
  abbrev pub take : ℕ → List A → List A
  take zero xs = []
  take (suc n) [] = []
  take (suc n) (x ∷ xs) = x ∷ take n xs

  abbrev pub drop : ℕ → List A → List A
  drop zero xs = xs
  drop (suc n) [] = []
  drop (suc n) (x ∷ xs) = drop n xs
