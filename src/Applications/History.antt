-- ===== src/Applications/History.antt =====
-- Every call of ApplicationsService that writes, and the states that a history of calls reaches.
use recruit_saas.Common.{ℕ, ◌≡◌, Option, String}
use recruit_saas.Schema.{Db, Application}
use recruit_saas.Prisma.{Prisma, Action}
use recruit_saas.Prisma.Keys.{UniqueBy}
use recruit_saas.Applications.{
  CreateApplication, ScreenDecision, FinalDecision, create, withdraw, screen, decide,
}
use recruit_saas.Applications.Machine.{
  Actor, candidate, staff, Step, create-Step, withdraw-Step, screen-Step, decide-Step,
}

pub data Call : Type 0 where
  creates : (new_id candidate_id : ℕ) (dto : CreateApplication) → Call
  withdraws : (candidate_id id : ℕ) → Call
  screens :
      (note_id : ℕ) (org_id : Option ℕ) (actor_id job_id id : ℕ) (decision : ScreenDecision)
      (reason : Option String)
      → Call
  decides :
      (note_id : ℕ) (org_id : Option ℕ) (actor_id job_id id : ℕ) (decision : FinalDecision)
      (reason : Option String)
      → Call

-- Who makes the call: a candidate, or staff in the organization of their session.
abbrev pub actor : Call → Actor
actor (creates _ c _) = candidate c
actor (withdraws c _) = candidate c
actor (screens _ o _ _ _ _ _) = staff o
actor (decides _ o _ _ _ _ _) = staff o

module _ ⦃p : Prisma⦄ where
  unfoldable pub respond : Call → Action Application
  respond (creates new_id c dto) = create new_id c dto
  respond (withdraws c id) = withdraw c id
  respond (screens n o a j id d r) = screen n o a j id d r
  respond (decides n o a j id d r) = decide n o a j id d r

  -- The database that the call leaves behind, whether it succeeds or fails.
  unfoldable pub serve : Call → Db → Db
  unfolding respond
  serve c db = (respond c db).1

  -- Every call, on every branch, is one step of the abstract machine of applications: it leaves the
  -- table as it was, adds one active application of the caller that clashes with no active one, or
  -- changes the rows with the id of one active application that the caller owns.
  pub serve-Step : (c : Call) (db : Db) → Step (actor c) db.applications (serve c db).applications
  unfolding serve
  serve-Step (creates new_id c dto) db = create-Step new_id c dto db
  serve-Step (withdraws c id) db = withdraw-Step c id db
  serve-Step (screens n o a j id d r) db = screen-Step n o a j id d r db
  serve-Step (decides n o a j id d r) db = decide-Step n o a j id d r db

  -- The states that calls lead to from `db`. The primary key holds in each state.
  pub data History (db : Db) : Db → Type 0 where
    here : History db db
    after :
        {u v : Db}
        → History db u
        → (c : Call) → v ≡ serve c u
        → UniqueBy (λ (a : Application). a.id) v.applications
        → History db v
