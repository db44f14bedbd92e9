-- ===== src/Candidates/Primary.antt =====
-- The primary CV of a candidate, and `setPrimaryCv`.
use recruit_saas.Common.{
  ℕ, ◌≤◌, ◌≡◌, refl, sym, ap, ◌∙◌, ◌≢◌, ◌⊎◌, inl, inr, Bool, true, false, List, [], ◌∷◌, not, ◌==◌,
  ◌&&◌, arith, any, count, modify, Has, Bool-cases, All, All-Has, All-of_Has, false_of_not,
}
use recruit_saas.Schema.{Db, Cv}
use recruit_saas.Prisma.{Prisma, ok, err, not_found}
use recruit_saas.Prisma.Keys.{
  UniqueBy, UniqueBy-modify, Has-unmodified, update-key, eq_of_key, find_first-cases,
}
use recruit_saas.Candidates.{require_own_cv, set_primary_cv}

abbrev pub is_primary_of : ℕ → Cv → Bool
is_primary_of user_id c = c.candidate_id == user_id && c.is_primary

-- No candidate has two primary CVs.
abbrev pub OnePrimary : Db → Type 0
OnePrimary db = (user_id : ℕ) → count (is_primary_of user_id) db.cvs ≤ 1

-- The CVs of the user but this one, as `setPrimaryCv` changes them.
abbrev demoted : ℕ → ℕ → List Cv → List Cv
demoted user_id cv_id =
    modify (λ c. c.candidate_id == user_id && not (c.id == cv_id))
      (λ c. record c { is_primary = false })

abbrev promoted : ℕ → List Cv → List Cv
promoted cv_id = modify (λ c. c.id == cv_id) (λ c. record c { is_primary = true })

-- The table after `setPrimaryCv`.
abbrev pub with_primary : ℕ → ℕ → List Cv → List Cv
with_primary user_id cv_id t = promoted cv_id (demoted user_id cv_id t)

-- Where no row has the id, all rows of the user are demoted and no other user is touched.
count-with_primary-absent :
    (user_id cv_id : ℕ) (t : List Cv)
    → All (λ c. c.id ≡ cv_id → ⊥) t
    → count (is_primary_of user_id) (with_primary user_id cv_id t) ≡ 0
count-with_primary-absent user_id cv_id [] a = refl
count-with_primary-absent user_id cv_id (c ∷ t) a =
    let other : (c.id == cv_id) ≡ false = false_of_not (c.id == cv_id) (λ e. a.0 (ground arith)) in
    elim (Bool-cases (c.candidate_id == user_id)) [
      | inl own ↦ ground (arith, count-with_primary-absent user_id cv_id t a.1)
      | inr foreign ↦ ground (arith, count-with_primary-absent user_id cv_id t a.1)
    ]

-- The row with the id is the user's one primary CV afterwards.
count-with_primary-own :
    (user_id : ℕ) (row : Cv) (t : List Cv)
    → UniqueBy (λ (c : Cv). c.id) t
    → Has row t
    → row.candidate_id ≡ user_id
    → count (is_primary_of user_id) (with_primary user_id row.id t) ≡ 1
count-with_primary-own user_id row [] u h own = absurd h
count-with_primary-own user_id row (c ∷ t) u (inl same) own =
    let rest = count-with_primary-absent user_id row.id t (rw same u.0) in
    let here : c.id ≡ row.id = ap (λ x. x.id) (sym same) in
    let mine : c.candidate_id ≡ user_id = ap (λ x. x.candidate_id) (sym same) ∙ own in
    ground (arith, rest)
count-with_primary-own user_id row (c ∷ t) u (inr h) own =
    let apart : (c.id == row.id) ≡ false =
      false_of_not (c.id == row.id) (λ e. All-Has _ row t u.0 h (ground arith)) in
    let rest = count-with_primary-own user_id row t u.1 h own in
    elim (Bool-cases (c.candidate_id == user_id)) [
      | inl mine ↦ ground (arith, rest)
      | inr foreign ↦ ground (arith, rest)
    ]

-- The CVs of the others are as they were.
count-with_primary-other :
    (user_id other cv_id : ℕ) (t : List Cv)
    → (other ≡ user_id → ⊥)
    → All (λ c. c.id ≡ cv_id → c.candidate_id ≡ user_id) t
    → count (is_primary_of other) (with_primary user_id cv_id t) ≡ count (is_primary_of other) t
count-with_primary-other user_id other cv_id [] apart a = refl
count-with_primary-other user_id other cv_id (c ∷ t) apart a =
    let rest = count-with_primary-other user_id other cv_id t apart a.1 in
    elim (Bool-cases (c.id == cv_id)) [
      | inl here ↦ let own = a.0 (ground arith) in ground (arith, rest)
      | inr elsewhere ↦ elim (Bool-cases (c.candidate_id == user_id)) [
        | inl mine ↦ ground (arith, rest)
        | inr foreign ↦ ground (arith, rest)
      ]
    ]

module _ ⦃p : Prisma⦄ where
  pub require_own_cv-cases :
      (user_id cv_id : ℕ) (db : Db)
      → ((require_own_cv user_id cv_id db ≡ (err not_found, db))
          × (any (λ c. c.id == cv_id && c.candidate_id == user_id) db.cvs ≡ false))
        ⊎ ((row : Cv) × (require_own_cv user_id cv_id db ≡ (ok row, db))
            × Has row db.cvs
            × (row.id ≡ cv_id)
            × (row.candidate_id ≡ user_id))
  unfolding require_own_cv
  require_own_cv-cases user_id cv_id db =
      elim (find_first-cases (λ c. c.id == cv_id && c.candidate_id == user_id) db.cvs) [
        | inl (missing, nothing) ↦ inl (ground arith, nothing)
        | inr (row, found, met, has) ↦ inr (row, ground arith, has, ground arith, ground arith)
      ]

  -- `setPrimaryCv`: another's CV, or none, is not found and nothing changes. Otherwise the answer is the
  -- CV, which is now the one primary CV of the user; the primary CVs of the others are as many as before,
  -- and nothing but the CVs changes. The ids of CVs are distinct.
  pub set_primary_cv_sound :
      (user_id cv_id : ℕ) (db : Db)
      → UniqueBy (λ (c : Cv). c.id) db.cvs
      → ((set_primary_cv user_id cv_id db ≡ (err not_found, db))
          × (any (λ c. c.id == cv_id && c.candidate_id == user_id) db.cvs ≡ false))
        ⊎ ((row : Cv) × Has row db.cvs
            × (row.id ≡ cv_id)
            × (row.candidate_id ≡ user_id)
            × (set_primary_cv user_id cv_id db ≡ (
              ok (record row { is_primary = true }),
              record db { cvs = with_primary user_id cv_id db.cvs },
            ))
            × (count (is_primary_of user_id) (with_primary user_id cv_id db.cvs) ≡ 1)
            × ((other : ℕ)
                → other ≢ user_id
                → count (is_primary_of other) (with_primary user_id cv_id db.cvs)
                  ≡ count (is_primary_of other) db.cvs))
  unfolding set_primary_cv
  set_primary_cv_sound user_id cv_id db u = elim (require_own_cv-cases user_id cv_id db) [
    | inl (refused, nothing) ↦ inl (ground arith, nothing)
    | inr (row, passed, has, same, own) ↦
        let others = λ (c : Cv). c.candidate_id == user_id && not (c.id == cv_id) in
        let demote = λ (c : Cv). record c { is_primary = false } in
        let kept : Has row (demoted user_id cv_id db.cvs) =
          Has-unmodified others demote row db.cvs has (ground arith) in
        let changed =
          update-key (λ c. c.id) (λ c. record c { is_primary = true }) row
            (demoted user_id cv_id db.cvs)
            (UniqueBy-modify (λ c. c.id) others demote (λ r. refl) db.cvs u) kept in
        inr (
          row,
          has,
          same,
          own,
          rw (passed, p.update_many-eq others demote db.cvs, changed, same) refl,
          rw (← same) (count-with_primary-own user_id row db.cvs u has own),
          λ other apart. count-with_primary-other user_id other cv_id db.cvs apart (
              All-of_Has (λ c. c.id ≡ cv_id → c.candidate_id ≡ user_id) db.cvs
                (λ c h e.
                  ap (λ x. x.candidate_id)
                    (eq_of_key (λ x. x.id) c row db.cvs u h has (e ∙ sym same))
                  ∙ own)),
        )
  ]
