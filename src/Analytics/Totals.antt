-- ===== src/Analytics/Totals.antt =====
-- What the analytics answer with, against a direct count of the rows.
use recruit_saas.Common.{
  ℕ, ◌+◌, ◌≡◌, refl, sym, ap, subst, ◌∙◌, ◌↔◌, inl, inr, List, [], ◌∷◌, Bool, true, false, Option,
  none, some, ◌&&◌, count, All, Has, All-Has, arith, Bool-cases, All-of_Has,
}
use recruit_saas.Analytics.Groups.{sum, sum-Groups, count_of-Groups, count_of-cases}
use recruit_saas.Analytics.{
  Groups, Apart, Counts, set_count, count_of, zeros, tally, to_counts_by_key,
}

-- The total is the number of the rows that meet the condition, and each of the values has the number of
-- its rows among them.
abbrev pub Tallies :
    {R K : Type 0} → (K → K → Bool) → (R → K) → (R → Bool) → List R → List K → Counts K → Type 0
Tallies same key c t all_statuses counts =
    (counts.total ≡ count c t)
    × All (λ k. count_of same k counts.by_status ≡ some (count (λ r. c r && same k (key r)) t))
        all_statuses

abbrev or_else : Option ℕ → Option ℕ → Option ℕ
or_else none o = o
or_else (some n) o = some n

module _ {K : Type 0} (same : K → K → Bool)
    (same_iff : (a b : K) → (same a b ≡ true) ↔ (a ≡ b)) where
  total-tally :
      (groups : List (K × ℕ)) (counts : Counts K)
      → (tally same groups counts).total ≡ counts.total + sum groups
  total-tally [] counts = omega arith
  total-tally (g ∷ groups) counts =
      let rest = total-tally groups (record {
        total = counts.total + g.1;
        by_status = set_count same g.0 g.1 counts.by_status;
      }) in
      ground (arith, rest)

  count_of-set_count-here :
      (k j : K) (n : ℕ) (entries : List (K × ℕ))
      → same k j ≡ true
      → count_of same k (set_count same j n entries) ≡ some n
  count_of-set_count-here k j n [] e = ground arith
  count_of-set_count-here k j n (x ∷ entries) e =
      let rest = count_of-set_count-here k j n entries e in
      let q : same k x.0 ≡ same j x.0 = ap (λ y. same y x.0) ((same_iff k j).0 e) in
      elim (Bool-cases (same j x.0)) [ inl here ↦ ground arith | inr there ↦ ground (arith, rest) ]

  count_of-set_count-there :
      (k j : K) (n : ℕ) (entries : List (K × ℕ))
      → same k j ≡ false
      → count_of same k (set_count same j n entries) ≡ count_of same k entries
  count_of-set_count-there k j n [] e = ground arith
  count_of-set_count-there k j n (x ∷ entries) e =
      let rest = count_of-set_count-there k j n entries e in
      elim (Bool-cases (same j x.0)) [
        | inl here ↦
            let q : same k x.0 ≡ same k j = ap (same k) (sym ((same_iff j x.0).0 here)) in
            ground arith
        | inr there ↦ ground (arith, rest)
      ]

  -- After the loop a value has the number of its group, or, without a group, the number of before.
  count_of-tally :
      (k : K) (groups : List (K × ℕ)) (counts : Counts K)
      → Apart same groups
      → count_of same k (tally same groups counts).by_status
        ≡ or_else (count_of same k groups) (count_of same k counts.by_status)
  count_of-tally k [] counts apart = refl
  count_of-tally k (g ∷ groups) counts apart =
      let next : Counts K = record {
        total = counts.total + g.1;
        by_status = set_count same g.0 g.1 counts.by_status;
      } in
      let rest = count_of-tally k groups next apart.1 in
      elim (Bool-cases (same k g.0)) [
        | inl here ↦ elim (count_of-cases same k groups) [
          | inl (nothing, _) ↦
              let put = count_of-set_count-here k g.0 g.1 counts.by_status here in
              rest ∙ rw (nothing, here, put) refl
          | inr (h, has, again, _) ↦
              let off = All-Has (λ x. same g.0 x.0 ≡ false) h groups apart.0 has in
              absurd
                (ground (arith, subst (λ x. same x h.0 ≡ true) ((same_iff k g.0).0 here) again))
        ]
        | inr there ↦
            let kept = count_of-set_count-there k g.0 g.1 counts.by_status there in
            rest ∙ rw (there, kept) refl
      ]

  count_of-zeros : (k : K) (keys : List K) → Has k keys → count_of same k (zeros keys) ≡ some 0
  count_of-zeros k [] h = absurd h
  count_of-zeros k (x ∷ keys) (inl q) = let e : same k x ≡ true = (same_iff k x).1 q in ground arith
  count_of-zeros k (x ∷ keys) (inr h) =
      let rest = count_of-zeros k keys h in
      elim (Bool-cases (same k x)) [ inl e ↦ ground arith | inr e ↦ ground (arith, rest) ]

  pub to_counts_by_key-Tallies :
      {R : Type 0} (key : R → K) (c : R → Bool) (t : List R) (groups : List (K × ℕ))
      (all_statuses : List K)
      → Groups same key c t groups
      → Tallies same key c t all_statuses (to_counts_by_key same groups all_statuses)
  to_counts_by_key-Tallies key c t groups all_statuses all_groups =
      let start : Counts K = record { total = 0; by_status = zeros all_statuses } in
      let (apart, _, _) = all_groups in
      (
        (let total = total-tally groups start in
            let rows = sum-Groups same key same_iff c t groups all_groups in omega arith),
        All-of_Has
            (λ k.
              count_of same k (tally same groups start).by_status
              ≡ some (count (λ r. c r && same k (key r)) t))
            all_statuses
            (λ k has.
              count_of-tally k groups start apart
              ∙ elim (count_of-Groups same key same_iff c t groups k all_groups) [
                | inl (nothing, zero_rows) ↦
                    rw (nothing, zero_rows) (count_of-zeros k all_statuses has)
                | inr found ↦ rw found refl
              ]),
      )
