-- ===== src/TalentPools.antt =====
-- backend/src/talent-pools/talent-pools.service.ts, TalentPoolsService. The id of a new row is an argument.
-- The order of pools by name is left open, as the client's order of rows is.
pub mod Members
mod Tests
use recruit_saas.Common.{
  ℕ, String, Bool, true, false, Option, none, some, List, [], ◌∷◌, ◌++◌, ◌==◌, ◌&&◌, any,
  if◌then◌else◌,
}
use recruit_saas.Schema.{User, TalentPool, TalentPoolCandidate}
use recruit_saas.Prisma.{
  Prisma, Action, ◌>>=◌, ◌>>◌, return, or_throw, throw_if, not_found, conflict, unprocessable,
  on_unique_violation, find_first, find_many, create as insert, delete_many,
}
use recruit_saas.Tables.{talent_pool, talent_pool_candidate, application, user}
use recruit_saas.Requests.{require_org_id}

-- A member in the answer of `toDetail`: the user is missing where none has the id.
pub record PoolMember : Type 0 where
  pub id : ℕ
  pub user : Option User

pub record PoolDetail : Type 0 where
  pub id : ℕ
  pub name : String
  pub candidates : List PoolMember

-- A pool with its candidates, as `include` adds them.
pub record PoolWithCandidates : Type 0 where
  pub pool : TalentPool
  pub candidates : List TalentPoolCandidate

-- `get` of the map from ids to users: of two entries with the same id the later one counts.
abbrev pub user_by_id : ℕ → List User → Option User
user_by_id id [] = none
user_by_id id (u ∷ users) = elim (user_by_id id users) [
  | none ↦ if u.id == id then some u else none
  | some later ↦ some later
]

abbrev pub members_detail : List User → List TalentPoolCandidate → List PoolMember
members_detail users [] = []
members_detail users (m ∷ members) =
    record { id = m.candidate_id; user = user_by_id m.candidate_id users }
    ∷ members_detail users members

abbrev pub to_detail : TalentPool → List TalentPoolCandidate → List User → PoolDetail
to_detail pool members users = record {
  id = pool.id;
  name = pool.name;
  candidates = members_detail users members;
}

abbrev pub details : List PoolWithCandidates → List User → List PoolDetail
details [] users = []
details (w ∷ pools) users = to_detail w.pool w.candidates users ∷ details pools users

abbrev pub all_members : List PoolWithCandidates → List TalentPoolCandidate
all_members [] = []
all_members (w ∷ pools) = w.candidates ++ all_members pools

module _ ⦃p : Prisma⦄ where
  -- `include: { candidates: true }`
  abbrev pub include_candidates : List TalentPool → Action (List PoolWithCandidates)
  include_candidates [] = return []
  include_candidates (t ∷ pools) = do
    members ← find_many talent_pool_candidate λ m. m.talent_pool_id == t.id
    rest ← include_candidates pools
    return (record { pool = t; candidates = members } ∷ rest)

  -- `where: { id: { in: candidateIds } }`; with no ids the answer is empty, too.
  abbrev pub load_candidates : List TalentPoolCandidate → Action (List User)
  load_candidates members = find_many user λ u. any (λ m. m.candidate_id == u.id) members

  abbrev pub require_pool : ℕ → ℕ → Action PoolWithCandidates
  require_pool organization_id id = do
    found ← find_first talent_pool λ t. t.id == id && t.organization_id == organization_id
    pool ← or_throw not_found found
    members ← find_many talent_pool_candidate λ m. m.talent_pool_id == pool.id
    return (record { pool = pool; candidates = members })

  pub create : ℕ → Option ℕ → String → Action PoolDetail
  create new_id org_id name = do
    organization_id ← require_org_id org_id
    pool ←
        insert talent_pool (record { id = new_id; organization_id = organization_id; name = name })
    return (to_detail pool [] [])

  pub list : Option ℕ → Action (List PoolDetail)
  list org_id = do
    organization_id ← require_org_id org_id
    found ← find_many talent_pool λ t. t.organization_id == organization_id
    pools ← include_candidates found
    users ← load_candidates (all_members pools)
    return (details pools users)

  unfoldable pub get_one : Option ℕ → ℕ → Action PoolDetail
  get_one org_id id = do
    organization_id ← require_org_id org_id
    w ← require_pool organization_id id
    users ← load_candidates w.candidates
    return (to_detail w.pool w.candidates users)

  pub add_candidate : Option ℕ → ℕ → ℕ → Action PoolDetail
  add_candidate org_id id candidate_id = do
    organization_id ← require_org_id org_id
    require_pool organization_id id
    has_applied ←
        find_first application
          λ a. a.candidate_id == candidate_id && a.organization_id == organization_id
    or_throw unprocessable has_applied
    on_unique_violation conflict
        (insert talent_pool_candidate (record { talent_pool_id = id; candidate_id = candidate_id }))
    get_one org_id id

  pub remove_candidate : Option ℕ → ℕ → ℕ → Action PoolDetail
  remove_candidate org_id id candidate_id = do
    organization_id ← require_org_id org_id
    require_pool organization_id id
    deleted ←
        delete_many talent_pool_candidate
          λ m. m.talent_pool_id == id && m.candidate_id == candidate_id
    throw_if (deleted == 0) not_found
    get_one org_id id
