-- ===== src/Jobs/Stages.antt =====
-- `setStages` and what refers to a stage: an application by its `stageId`.
use recruit_saas.Common.{
  ℕ, suc, ◌≡◌, refl, ap, subst, ◌∙◌, ◌⊎◌, inl, inr, Bool, true, false, Option, none, some, String,
  List, [], ◌∷◌, arith, ◌==◌, ==_iff, ◌&&◌, any, reject, All, Has, All-Has, any-Has, not-Has,
  Has-of_any, Has-reject, reject-Has, false_of_not, any-modify,
}
use recruit_saas.Schema.{Db, Application, RecruitmentStage}
use recruit_saas.Prisma.{Prisma, ok, err, conflict, Result-cases}
use recruit_saas.Prisma.Keys.{UniqueBy, eq_of_key, find_first-cases, update-cases, create-free}
use recruit_saas.Prisma.Steps.{Order, >>=-keeps}
use recruit_saas.Jobs.{
  set_stages, remove_stages, place_stage, place_stages, existing_by_name, keeps_name, has_id_of,
  new_stage, at_order,
}

-- The stage that the application is in.
abbrev pub is_stage_of : Application → RecruitmentStage → Bool
is_stage_of a s = s.id == a.stage_id && s.job_id == a.job_id

-- Every application is in a stage of its own job.
abbrev pub References : Db → Type 0
References db =
    All (λ (a : Application). any (is_stage_of a) db.recruitment_stages ≡ true) db.applications

-- A condition on a stage's id and job.
abbrev Neutral : (RecruitmentStage → Bool) → Type 0
Neutral q = (n : ℕ) (s : RecruitmentStage) → q (at_order n s) ≡ q s

-- Stages move and are added, and none is lost.
pub record Grows (db db' : Db) : Type 0 where
  pub same_applications : db'.applications ≡ db.applications
  pub same_jobs : db'.jobs ≡ db.jobs
  pub none_lost :
      (q : RecruitmentStage → Bool)
      → Neutral q
      → any q db.recruitment_stages ≡ true
      → any q db'.recruitment_stages ≡ true

Grows-Order : Order Grows
Grows-Order = record {
  stays = λ db. record { same_applications = refl; same_jobs = refl; none_lost = λ q n h. h };
  chains = λ a b c g h. record {
    same_applications = h.same_applications ∙ g.same_applications;
    same_jobs = h.same_jobs ∙ g.same_jobs;
    none_lost = λ q n k. h.none_lost q n (g.none_lost q n k);
  };
}

module _ ⦃p : Prisma⦄ where
  place_stage-Grows :
      (new_id job_id : ℕ) (name : String) (index : ℕ) (found : Option RecruitmentStage) (db : Db)
      → Grows db (place_stage new_id job_id name index found db).1
  unfolding place_stage
  place_stage-Grows new_id job_id name index none db =
      let e = create-free (new_stage new_id job_id name index) db.recruitment_stages in
      record {
        same_applications = ground arith;
        same_jobs = ground arith;
        none_lost = λ q n h. ground arith;
      }
  place_stage-Grows new_id job_id name index (some s) db =
      elim (update-cases (λ x. x.id == s.id) (at_order index) db.recruitment_stages) [
        | inl e ↦ record {
          same_applications = ground arith;
          same_jobs = ground arith;
          none_lost = λ q n h. ground arith;
        }
        | inr (r, e) ↦ record {
          same_applications = ground arith;
          same_jobs = ground arith;
          none_lost = λ q n h. ground (
            arith,
            any-modify q (λ x. x.id == s.id) (at_order index) db.recruitment_stages (n index) h,
          );
        }
      ]

  pub place_stages-Grows :
      (new_id : ℕ → ℕ) (job_id : ℕ) (existing : List RecruitmentStage) (index : ℕ)
      (names : List String) (db : Db)
      → Grows db (place_stages new_id job_id existing index names db).1
  unfolding place_stages
  place_stages-Grows new_id job_id existing index [] db = Grows-Order.stays db
  place_stages-Grows new_id job_id existing index (name ∷ names) db =
      >>=-keeps Grows-Order
        (place_stage (new_id index) job_id name index (existing_by_name existing name))
        (λ _. place_stages new_id job_id existing (suc index) names) db
        (place_stage-Grows (new_id index) job_id name index (existing_by_name existing name) db)
        (λ _ u. place_stages-Grows new_id job_id existing (suc index) names u)

  reject_nothing : (t : List RecruitmentStage) → reject (λ x. has_id_of [] x.id) t ≡ t
  reject_nothing [] = refl
  reject_nothing (x ∷ t) = ap (◌∷◌ x) (reject_nothing t)

  any_nothing :
      (job_id : ℕ) (t : List Application)
      → any (λ a. a.job_id == job_id && has_id_of [] a.stage_id) t ≡ false
  any_nothing job_id [] = refl
  any_nothing job_id (x ∷ t) = ground (arith, any_nothing job_id t)

  -- The removal is refused and writes nothing, or no application of the job is in a removed stage.
  pub remove_stages-cases :
      (job_id : ℕ) (removed : List RecruitmentStage) (db : Db)
      → (remove_stages job_id removed db ≡ (err conflict, db))
        ⊎ ((remove_stages job_id removed db ≡ (
          ok tt,
          record db {
            recruitment_stages = reject (λ x. has_id_of removed x.id) db.recruitment_stages;
          },
        ))
            × (any (λ a. a.job_id == job_id && has_id_of removed a.stage_id) db.applications
                ≡ false))
  unfolding remove_stages
  remove_stages-cases job_id [] db =
      inr (ground (arith, reject_nothing db.recruitment_stages), any_nothing job_id db.applications)
  remove_stages-cases job_id (s ∷ removed) db =
      elim (find_first-cases (λ a. a.job_id == job_id && has_id_of (s ∷ removed) a.stage_id)
        db.applications) [
          | inl (e, unused) ↦ inr (
            ground
                (arith, p.delete_many-eq (λ x. has_id_of (s ∷ removed) x.id) db.recruitment_stages),
            unused,
          )
          | inr (a, e, _, _) ↦ inl (ground arith)
        ]

  -- The stages of the job, and those whose names the new list drops.
  abbrev pub existing_stages : ℕ → Db → List RecruitmentStage
  existing_stages job_id db = p.find_many (λ s. s.job_id == job_id) db.recruitment_stages

  abbrev pub dropped : ℕ → List String → Db → List RecruitmentStage
  dropped job_id names db = reject (keeps_name names) (existing_stages job_id db)

  abbrev pub without_dropped : ℕ → List String → Db → Db
  without_dropped job_id names db = record db {
    recruitment_stages =
        reject (λ x. has_id_of (dropped job_id names db) x.id) db.recruitment_stages;
  }

  -- A change of the stages leaves the database as it was, or drops stages that no application of the job
  -- is in, and then places the names.
  pub set_stages-cases :
      (new_id : ℕ → ℕ) (job_id : ℕ) (names : List String) (db : Db)
      → ((set_stages new_id job_id names db).1 ≡ db)
        ⊎ (((set_stages new_id job_id names db).1
              ≡ (place_stages new_id job_id
                  (existing_stages job_id db)
                  0
                  names
                  (without_dropped job_id names db)).1)
            × (any
                  (λ a. a.job_id == job_id && has_id_of (dropped job_id names db) a.stage_id)
                  db.applications
                ≡ false))
  unfolding set_stages
  set_stages-cases new_id job_id names db =
      elim (remove_stages-cases job_id (dropped job_id names db) db) [
        | inl e ↦ inl (ground arith)
        | inr (e, unused) ↦
            elim (Result-cases
              (place_stages new_id job_id (existing_stages job_id db) 0 names
                (without_dropped job_id names db)).0) [
                  | inl (a, placed) ↦ inr (ground arith, unused)
                  | inr (x, failed) ↦ inl (ground arith)
                ]
      ]

  module _ (job_id : ℕ) (names : List String) (db : Db)
      (k : UniqueBy (λ (s : RecruitmentStage). s.id) db.recruitment_stages) where
    -- A row whose id is dropped is a stage of the job whose name the new list does not have.
    pub dropped_row :
        (s : RecruitmentStage)
        → Has s db.recruitment_stages
        → has_id_of (dropped job_id names db) s.id ≡ true
        → ((s.job_id == job_id) ≡ true) × (keeps_name names s ≡ false)
    dropped_row s h e =
        let (x, hx, same) = Has-of_any (λ x. x.id == s.id) (dropped job_id names db) e in
        let (old, gone) = reject-Has (keeps_name names) x (existing_stages job_id db) hx in
        let (ours, there) =
          All-Has _ x (existing_stages job_id db)
            (p.find_many-Lists (λ y. y.job_id == job_id) db.recruitment_stages).0 old in
        let q : x ≡ s =
          eq_of_key (λ (y : RecruitmentStage). y.id) x s db.recruitment_stages k there h
            ((==_iff x.id s.id).0 same) in
        (
          subst (λ (y : RecruitmentStage). (y.job_id == job_id) ≡ true) q ours,
          subst (λ (y : RecruitmentStage). keeps_name names y ≡ false) q gone,
        )

    pub kept_row :
        (s : RecruitmentStage)
        → Has s db.recruitment_stages
        → (has_id_of (dropped job_id names db) s.id ≡ true → ⊥)
        → Has s (without_dropped job_id names db).recruitment_stages
    kept_row s h kept =
        Has-reject (λ x. has_id_of (dropped job_id names db) x.id) s db.recruitment_stages h
          (false_of_not (has_id_of (dropped job_id names db) s.id) kept)

    -- The stage of an application is kept.
    pub kept_reference :
        (a : Application)
        → Has a db.applications
        → any
            (λ b. b.job_id == job_id && has_id_of (dropped job_id names db) b.stage_id)
            db.applications
          ≡ false
        → any (is_stage_of a) db.recruitment_stages ≡ true
        → any (is_stage_of a) (without_dropped job_id names db).recruitment_stages ≡ true
    kept_reference a ha unused e =
        let (s, h, is) = Has-of_any (is_stage_of a) db.recruitment_stages e in
        let free : (a.job_id == job_id && has_id_of (dropped job_id names db) a.stage_id) ≡ false =
          not-Has (λ b. b.job_id == job_id && has_id_of (dropped job_id names db) b.stage_id) a
            db.applications unused ha in
        let eid : s.id ≡ a.stage_id = ground arith in
        let ejob : s.job_id ≡ a.job_id = ground arith in
        any-Has (is_stage_of a) s (without_dropped job_id names db).recruitment_stages
          (kept_row s h (λ d.
            absurd
              (ground (arith, dropped_row s h d, ap (has_id_of (dropped job_id names db)) eid))))
          is
