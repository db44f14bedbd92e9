-- ===== src/TalentPools/Members.antt =====
-- The candidates of talent pools: who may be added, and what goes when one is removed.
use recruit_saas.Common.{
  ℕ, ◌≡◌, refl, Bool, ◌⊎◌, inl, inr, true, false, some, List, ◌∷◌, ◌==◌, ◌&&◌, arith, any, any-ext,
  any-Has, reject, Has, Bool-cases, count-none, reject-none, count-some,
}
use recruit_saas.Schema.{Db, Application, TalentPool, TalentPoolCandidate}
use recruit_saas.Prisma.{Prisma, Error, ok, err, not_found, conflict, unprocessable}
use recruit_saas.Prisma.Keys.{find_first-cases}
use recruit_saas.Tables.{talent_pool_candidate_clash}
use recruit_saas.TalentPools.{PoolDetail, to_detail, get_one, add_candidate, remove_candidate}

-- The candidate is in the pool.
abbrev pub is_member : ℕ → ℕ → TalentPoolCandidate → Bool
is_member id candidate_id m = m.talent_pool_id == id && m.candidate_id == candidate_id

abbrev pub with_members : List TalentPoolCandidate → Db → Db
with_members members db = record db { pool_candidates = members }

module _ ⦃p : Prisma⦄ where
  get_one-ok :
      (org id : ℕ) (db : Db)
      → any (λ t. t.id == id && t.organization_id == org) db.talent_pools ≡ true
      → (d : PoolDetail) × (get_one (some org) id db ≡ (ok d, db))
  unfolding get_one
  get_one-ok org id db there =
      elim (find_first-cases (λ t. t.id == id && t.organization_id == org) db.talent_pools) [
        | inl (_, nothing) ↦ absurd (ground arith)
        | inr (t, found, _, _) ↦
            let members = p.find_many (λ m. m.talent_pool_id == t.id) db.pool_candidates in
            let users = p.find_many (λ u. any (λ m. m.candidate_id == u.id) members) db.users in
            (to_detail t members users, rw found refl)
      ]

  -- Adding a candidate is refused and changes nothing; or the pool is the organization's, the candidate
  -- has applied to it and is not in the pool: then the candidate is added to the pool, nothing else
  -- changes, and the answer is the pool as `getOne` shows it.
  pub add_candidate_sound :
      (org id candidate_id : ℕ) (db : Db)
      → ((e : Error) × (add_candidate (some org) id candidate_id db ≡ (err e, db)))
        ⊎ ((a : Application) × Has a db.applications
            × (a.candidate_id ≡ candidate_id)
            × (a.organization_id ≡ org)
            × (any (λ t. t.id == id && t.organization_id == org) db.talent_pools ≡ true)
            × (any (is_member id candidate_id) db.pool_candidates ≡ false)
            × let after =
                with_members
                  (record { talent_pool_id = id; candidate_id = candidate_id } ∷ db.pool_candidates)
                  db in
              ((d : PoolDetail) × (add_candidate (some org) id candidate_id db ≡ (ok d, after))
                × (get_one (some org) id after ≡ (ok d, after))))
  unfolding add_candidate
  add_candidate_sound org id candidate_id db =
      let row : TalentPoolCandidate = record { talent_pool_id = id; candidate_id = candidate_id } in
      let written = p.create-eq talent_pool_candidate_clash row db.pool_candidates in
      let same : any (talent_pool_candidate_clash row) db.pool_candidates
          ≡ any (is_member id candidate_id) db.pool_candidates =
        any-ext _ _ db.pool_candidates (λ m. ground arith) in
      elim (find_first-cases (λ (t : TalentPool). t.id == id && t.organization_id == org)
        db.talent_pools) [
          | inl (missing, _) ↦ inl (not_found, rw missing refl)
          | inr (t, found, met, has) ↦
              elim (find_first-cases
                (λ (a : Application). a.candidate_id == candidate_id && a.organization_id == org)
                db.applications) [
                  | inl (missing, _) ↦ inl (unprocessable, rw (found, missing) refl)
                  | inr (a, applied, of_both, held) ↦
                      elim (Bool-cases (any (is_member id candidate_id) db.pool_candidates)) [
                        | inl taken ↦ inl (conflict, rw (found, applied, written, same, taken) refl)
                        | inr free ↦
                            let there =
                              any-Has (λ (t : TalentPool). t.id == id && t.organization_id == org) t
                                db.talent_pools has met in
                            let after = with_members (row ∷ db.pool_candidates) db in
                            let (d, shown) = get_one-ok org id after there in
                            inr (
                              a,
                              held,
                              ground arith,
                              ground arith,
                              there,
                              free,
                              (d, rw (found, applied, written, same, free) shown, shown),
                            )
                      ]
                ]
        ]

  -- Removing a candidate is refused and changes nothing; or the pool is the organization's and the
  -- candidate was in it: then the candidate is out of this pool, nothing else changes, and the answer is
  -- the pool as `getOne` shows it.
  pub remove_candidate_sound :
      (org id candidate_id : ℕ) (db : Db)
      → ((e : Error) × (remove_candidate (some org) id candidate_id db ≡ (err e, db)))
        ⊎ ((any (λ t. t.id == id && t.organization_id == org) db.talent_pools ≡ true)
            × (any (is_member id candidate_id) db.pool_candidates ≡ true)
            × let after = with_members (reject (is_member id candidate_id) db.pool_candidates) db in
              ((d : PoolDetail) × (remove_candidate (some org) id candidate_id db ≡ (ok d, after))
                × (get_one (some org) id after ≡ (ok d, after))))
  unfolding remove_candidate
  remove_candidate_sound org id candidate_id db =
      let gone = p.delete_many-eq (is_member id candidate_id) db.pool_candidates in
      elim (find_first-cases (λ (t : TalentPool). t.id == id && t.organization_id == org)
        db.talent_pools) [
          | inl (missing, _) ↦ inl (not_found, rw missing refl)
          | inr (t, found, met, has) ↦
              elim (Bool-cases (any (is_member id candidate_id) db.pool_candidates)) [
                | inr out ↦
                    let zero_rows =
                      count-none (is_member id candidate_id) (λ m. m) db.pool_candidates out in
                    inl (
                      not_found,
                      rw
                          (
                            found,
                            gone,
                            zero_rows,
                            reject-none (is_member id candidate_id) db.pool_candidates out,
                          )
                          refl,
                    )
                | inl in_pool ↦
                    let some_rows =
                      count-some (is_member id candidate_id) db.pool_candidates in_pool in
                    let there =
                      any-Has (λ (t : TalentPool). t.id == id && t.organization_id == org) t
                        db.talent_pools has met in
                    let after =
                      with_members (reject (is_member id candidate_id) db.pool_candidates) db in
                    let (d, shown) = get_one-ok org id after there in
                    inr (there, in_pool, (d, rw (found, gone, some_rows) shown, shown))
              ]
        ]
