-- ===== src/Applications/Reads.antt =====
-- The lists of ApplicationsService, and the history of an application's stages.
use recruit_saas.Common.{
  ℕ, ◌≡◌, Bool, true, Option, none, some, List, [], ◌∷◌, map, ◌==◌, ◌&&◌, ◌||◌, false, any,
}
use recruit_saas.Schema.{
  Db, Application, ApplicationStatus, ApplicationStageHistory, RecruitmentStage, User,
  same_application_status,
}
use recruit_saas.Prisma.{Prisma, Action, ◌>>=◌, ◌>>◌, return, find_many, ok}
use recruit_saas.Tables.{application, application_stage_history, recruitment_stage, user}
use recruit_saas.Requests.{require_org_id, Page, Listing, any_order, list_page}
use recruit_saas.Requests.Pages.{IsPage, any_order-IsOrder, list_page_lem}
use recruit_saas.Applications.{require_job_application}

abbrev pub of_status : Option ApplicationStatus → Application → Bool
of_status none a = true
of_status (some s) a = same_application_status a.status s

-- A row of the answer of `getStageHistoryForJob`: the stages and the actor, where they still exist.
pub record StageMove : Type 0 where
  pub from_stage : Option RecruitmentStage
  pub to_stage : Option RecruitmentStage
  pub moved_by : Option User

-- `new Map(rows.map((r) => [r.id, r])).get(id)`; ids are unique.
abbrev by_id : {R : Type 0} → (R → ℕ) → List R → ℕ → Option R
by_id key [] id = none
by_id key (r ∷ rows) id = elim (key r == id) [ true ↦ some r | false ↦ by_id key rows id ]

abbrev by_nullable_id : List RecruitmentStage → Option ℕ → Option RecruitmentStage
by_nullable_id stages none = none
by_nullable_id stages (some id) = by_id (λ s. s.id) stages id

abbrev names_stage : Option ℕ → ℕ → Bool
names_stage none id = false
names_stage (some from) id = from == id

abbrev move_of : List RecruitmentStage → List User → ApplicationStageHistory → StageMove
move_of stages actors entry = record {
  from_stage = by_nullable_id stages entry.from_stage_id;
  to_stage = by_id (λ s. s.id) stages entry.to_stage_id;
  moved_by = by_id (λ u. u.id) actors entry.moved_by_id;
}

module _ ⦃p : Prisma⦄ where
  pub list_mine : ℕ → Option ApplicationStatus → Page → Action (Listing Application)
  list_mine candidate_id status query =
      list_page application any_order (λ a. a.candidate_id == candidate_id && of_status status a)
        query

  pub list_for_job : Option ℕ → ℕ → Option ApplicationStatus → Page → Action (Listing Application)
  list_for_job org_id job_id status query = do
    organization_id ← require_org_id org_id
    list_page application any_order
        (λ a. a.job_id == job_id && a.organization_id == organization_id && of_status status a)
        query

  pub list_for_org : Option ℕ → Option ApplicationStatus → Page → Action (Listing Application)
  list_for_org org_id status query = do
    organization_id ← require_org_id org_id
    list_page application any_order
        (λ a. a.organization_id == organization_id && of_status status a) query

  pub get_stage_history_for_job : Option ℕ → ℕ → ℕ → Action (List StageMove)
  get_stage_history_for_job org_id job_id id = do
    organization_id ← require_org_id org_id
    require_job_application organization_id job_id id
    history ← find_many application_stage_history λ h. h.application_id == id
    stages ←
        find_many recruitment_stage
          λ s. any (λ h. names_stage h.from_stage_id s.id || h.to_stage_id == s.id) history
    actors ← find_many user λ u. any (λ h. h.moved_by_id == u.id) history
    return (map (move_of stages actors) history)

  -- The three lists answer always and change nothing. On every page a candidate finds only their own
  -- applications, staff only those of the organization of their session, and of the job, if one is
  -- named; no page is longer than was asked for, and `total` counts all rows of the list.
  pub lists_scoped :
      (candidate_id org job_id : ℕ) (status : Option ApplicationStatus) (query : Page) (db : Db)
      → ((found : Listing Application) × (list_mine candidate_id status query db ≡ (ok found, db))
          × IsPage application any_order
              (λ a. a.candidate_id == candidate_id && of_status status a)
              query
              db
              found)
        × ((found : Listing Application) × (list_for_job (some org) job_id status query db
              ≡ (ok found, db))
            × IsPage application any_order
                (λ a. a.job_id == job_id && a.organization_id == org && of_status status a)
                query
                db
                found)
        × ((found : Listing Application) × (list_for_org (some org) status query db
              ≡ (ok found, db))
            × IsPage application any_order
                (λ a. a.organization_id == org && of_status status a)
                query
                db
                found)
  unfolding list_mine list_for_job list_for_org
  lists_scoped candidate_id org job_id status query db = (
    list_page_lem application any_order any_order-IsOrder
        (λ a. a.candidate_id == candidate_id && of_status status a) query db,
    list_page_lem application any_order any_order-IsOrder
        (λ a. a.job_id == job_id && a.organization_id == org && of_status status a) query db,
    list_page_lem application any_order any_order-IsOrder
        (λ a. a.organization_id == org && of_status status a) query db,
  )
