-- ===== src/Candidates/Replaced.antt =====
-- What it is that the rows of one owner in a table are replaced.
use recruit_saas.Common.{
  ◌+◌, ◌≡◌, refl, ◌↔◌, ◌⊎◌, inl, inr, Bool, true, false, List, [], ◌∷◌, arith, count, reject,
  length, Has, Has-reject, reject-Has, All, Bool-cases,
}
use recruit_saas.Prisma.{Lists}

-- The rows put in front of the table, one by one.
abbrev pub onto : {R : Type 0} → List R → List R → List R
onto [] t = t
onto (r ∷ rows) t = onto rows (r ∷ t)

module _ {R : Type 0} where
  Has-onto : (x : R) (rows t : List R) → Has x (onto rows t) ↔ (Has x rows ⊎ Has x t)
  Has-onto x [] t = ((λ h. inr h), λ h. elim h [ inl a ↦ absurd a | inr b ↦ b ])
  Has-onto x (r ∷ rows) t =
      let (there, back) = Has-onto x rows (r ∷ t) in
      (
        (λ h. elim (there h) [
          | inl a ↦ inl (inr a)
          | inr (inl b) ↦ inl (inl b)
          | inr (inr b) ↦ inr b
        ]),
        λ h. elim h [
          | inl (inl a) ↦ back (inr (inl a))
          | inl (inr a) ↦ back (inl a)
          | inr b ↦ back (inr (inr b))
        ],
      )

  count-onto :
      (c : R → Bool) (rows t : List R)
      → All (λ r. c r ≡ true) rows
      → count c (onto rows t) ≡ length rows + count c t
  count-onto c [] t a = ground arith
  count-onto c (r ∷ rows) t a = ground (arith, a.0, count-onto c rows (r ∷ t) a.1)

  count-reject_self : (c : R → Bool) (t : List R) → count c (reject c t) ≡ 0
  count-reject_self c [] = refl
  count-reject_self c (x ∷ t) = elim (Bool-cases (c x)) [
    | inl e ↦ ground (arith, count-reject_self c t)
    | inr e ↦ ground (arith, count-reject_self c t)
  ]

-- The rows of one owner are replaced: those that meet the condition are now the given ones, the others
-- are as they were, and the answer lists the owner's.
abbrev pub Replaces : {R : Type 0} → (R → Bool) → List R → List R → List R → List R → Type 0
Replaces own rows before after answer =
    Lists own after answer
    × (length answer ≡ length rows)
    × ((x : _) → Has x after ↔ (Has x rows ⊎ (Has x before × (own x ≡ false))))

pub Replaces-onto :
    {R : Type 0} (own : R → Bool) (rows before answer : List R)
    → All (λ r. own r ≡ true) rows
    → Lists own (onto rows (reject own before)) answer
    → Replaces own rows before (onto rows (reject own before)) answer
Replaces-onto own rows before answer mine lists =
    let size = count-onto own rows (reject own before) mine in
    let none_left = count-reject_self own before in
    (
      lists,
      let (_, _, n) = lists in ground (arith, n),
      λ x.
          let (there, back) = Has-onto x rows (reject own before) in
          (
            (λ h. elim (there h) [ inl a ↦ inl a | inr b ↦ inr (reject-Has own x before b) ]),
            λ h. elim h [
              | inl a ↦ back (inl a)
              | inr (b, e) ↦ back (inr (Has-reject own x before b e))
            ],
          ),
    )
