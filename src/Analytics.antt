-- ===== src/Analytics.antt =====
-- backend/src/analytics/analytics.service.ts, AnalyticsService. The client's groupBy is the interface
-- `Grouping`, with its documented effect as a law.
pub mod Groups
pub mod Totals
pub mod Answers
mod InMemory
mod Tests
use recruit_saas.Common.{
  ℕ, ◌+◌, ◌<◌, ◌≡◌, ◌↔◌, String, Option, none, some, List, [], ◌∷◌, Bool, true, false, ◌==◌, ◌&&◌,
  same_text, count, All, Has, if◌then◌else◌,
}
use recruit_saas.Schema.{
  Plan, OrganizationStatus, JobStatus, ApplicationStatus, OfferStatus, InterviewStatus,
  same_organization_status, same_job_status, same_application_status, same_offer_status,
}
use recruit_saas.Prisma.{Prisma, Action, ok, ◌>>=◌, return, find_many, Table}
use recruit_saas.Tables.{organization, job, application, interview, offer, subscription, plan}
use recruit_saas.Requests.{require_org_id}

-- No two entries of the list are of one group.
abbrev pub Apart : {K : Type 0} → (K → K → Bool) → List (K × ℕ) → Type 0
Apart same [] = Unit
Apart same (g ∷ groups) = All (λ h. same g.0 h.0 ≡ false) groups × Apart same groups

-- One entry for each value among the rows of the condition, with the number of its rows.
abbrev pub Groups :
    {R K : Type 0} → (K → K → Bool) → (R → K) → (R → Bool) → List R → List (K × ℕ) → Type 0
Groups same key c t groups =
    Apart same groups
    × All (λ g. g.1 ≡ count (λ r. c r && same g.0 (key r)) t) groups
    × All (λ r. c r ≡ true → (g : _) × Has g groups × (same g.0 (key r) ≡ true)) t

-- `groupBy` of the client: by a column whose values are compared by `same`.
pub record Grouping : Type 1 where
  pub group_by : {R K : Type 0} → (K → K → Bool) → (R → K) → (R → Bool) → List R → List (K × ℕ)
  pub group_by-Groups :
      {R K : Type 0} (same : K → K → Bool) (key : R → K) (c : R → Bool) (t : List R)
      → ((a b : K) → (same a b ≡ true) ↔ (a ≡ b))
      → Groups same key c t (group_by same key c t)

-- `byStatus[status] = count`
abbrev pub set_count : {K : Type 0} → (K → K → Bool) → K → ℕ → List (K × ℕ) → List (K × ℕ)
set_count same k n [] = (k, n) ∷ []
set_count same k n (e ∷ entries) =
    let rest = set_count same k n entries in if same k e.0 then (e.0, n) ∷ entries else e ∷ rest

abbrev pub count_of : {K : Type 0} → (K → K → Bool) → K → List (K × ℕ) → Option ℕ
count_of same k [] = none
count_of same k (e ∷ entries) =
    let rest = count_of same k entries in if same k e.0 then some e.1 else rest

-- `Object.fromEntries(allStatuses.map((status) => [status, 0]))`
abbrev pub zeros : {K : Type 0} → List K → List (K × ℕ)
zeros [] = []
zeros (k ∷ keys) = (k, 0) ∷ zeros keys

pub record Counts (K : Type 0) : Type 0 where
  pub total : ℕ
  pub by_status : List (K × ℕ)

-- The loop of `toCountsByKey` over the groups.
abbrev pub tally : {K : Type 0} → (K → K → Bool) → List (K × ℕ) → Counts K → Counts K
tally same [] counts = counts
tally same (g ∷ groups) counts =
    tally same groups
      (record { total = counts.total + g.1; by_status = set_count same g.0 g.1 counts.by_status })

abbrev pub to_counts_by_key : {K : Type 0} → (K → K → Bool) → List (K × ℕ) → List K → Counts K
to_counts_by_key same grouped all_statuses =
    tally same grouped (record { total = 0; by_status = zeros all_statuses })

abbrev pub organization_statuses : List OrganizationStatus
organization_statuses =
    OrganizationStatus.pending_approval ∷ OrganizationStatus.active ∷ OrganizationStatus.rejected
    ∷ OrganizationStatus.suspended ∷ []

abbrev pub job_statuses : List JobStatus
job_statuses = JobStatus.draft ∷ JobStatus.published ∷ JobStatus.closed ∷ JobStatus.archived ∷ []

abbrev pub application_statuses : List ApplicationStatus
application_statuses =
    ApplicationStatus.active ∷ ApplicationStatus.withdrawn ∷ ApplicationStatus.rejected
    ∷ ApplicationStatus.hired ∷ []

-- INTERVIEW_STATUSES
abbrev pub interview_statuses : List InterviewStatus
interview_statuses =
    InterviewStatus.scheduled ∷ InterviewStatus.completed ∷ InterviewStatus.rescheduled
    ∷ InterviewStatus.cancelled ∷ []

abbrev pub offer_statuses : List OfferStatus
offer_statuses =
    OfferStatus.sent ∷ OfferStatus.accepted ∷ OfferStatus.declined ∷ OfferStatus.expired ∷ []

abbrev pub same_interview_status : InterviewStatus → InterviewStatus → Bool
same_interview_status InterviewStatus.scheduled InterviewStatus.scheduled = true
same_interview_status InterviewStatus.completed InterviewStatus.completed = true
same_interview_status InterviewStatus.rescheduled InterviewStatus.rescheduled = true
same_interview_status InterviewStatus.cancelled InterviewStatus.cancelled = true
same_interview_status _ _ = false

pub record OrgAnalytics : Type 0 where
  pub jobs : Counts JobStatus
  pub applications : Counts ApplicationStatus
  pub interviews : Counts InterviewStatus
  pub offers : Counts OfferStatus

pub record PlatformAnalytics : Type 0 where
  pub organizations : Counts OrganizationStatus
  pub jobs : Counts JobStatus
  pub applications : Counts ApplicationStatus
  pub subscriptions : Counts String

-- `planKeyById.get(planId)`: of two plans with the same id the later one counts.
abbrev pub plan_key_by_id : ℕ → List Plan → Option String
plan_key_by_id id [] = none
plan_key_by_id id (x ∷ plans) = elim (plan_key_by_id id plans) [
  | none ↦ if x.id == id then some x.key else none
  | some later ↦ some later
]

-- `Object.fromEntries(plans.map((plan) => [plan.key, 0]))`
abbrev pub plan_zeros : List Plan → List (String × ℕ) → List (String × ℕ)
plan_zeros [] entries = entries
plan_zeros (x ∷ plans) entries = plan_zeros plans (set_count same_text x.key 0 entries)

-- A group whose plan is not known, or whose key is empty, counts in the total only.
abbrev pub set_if_known : Option String → ℕ → List (String × ℕ) → List (String × ℕ)
set_if_known none n entries = entries
set_if_known (some key) n entries =
    if same_text key "" then entries else set_count same_text key n entries

abbrev pub tally_plans : List Plan → List (ℕ × ℕ) → Counts String → Counts String
tally_plans plans [] counts = counts
tally_plans plans (g ∷ groups) counts = tally_plans plans groups (record {
  total = counts.total + g.1;
  by_status = set_if_known (plan_key_by_id g.0 plans) g.1 counts.by_status;
})

-- `where: { organizationId }`, where the organization is given.
abbrev pub in_scope : Option ℕ → ℕ → Bool
in_scope none id = true
in_scope (some org) id = id == org

module _ ⦃p : Prisma⦄ (g : Grouping) where
  -- A query of groups.
  abbrev pub grouped :
      {R K : Type 0} → Table R → (K → K → Bool) → (R → K) → (R → Bool) → Action (List (K × ℕ))
  grouped t same key c db = (ok (g.group_by same key c (t.rows db)), db)

  pub jobs_by_status : Option ℕ → Action (Counts JobStatus)
  jobs_by_status org = do
    groups ← grouped job same_job_status (λ j. j.status) λ j. in_scope org j.organization_id
    return (to_counts_by_key same_job_status groups job_statuses)

  pub applications_by_status : Option ℕ → Action (Counts ApplicationStatus)
  applications_by_status org = do
    groups ←
        grouped application same_application_status (λ a. a.status)
          λ a. in_scope org a.organization_id
    return (to_counts_by_key same_application_status groups application_statuses)

  pub interviews_by_status : Option ℕ → Action (Counts InterviewStatus)
  interviews_by_status org = do
    groups ←
        grouped interview same_interview_status (λ i. i.status) λ i. in_scope org i.organization_id
    return (to_counts_by_key same_interview_status groups interview_statuses)

  pub offers_by_status : Option ℕ → Action (Counts OfferStatus)
  offers_by_status org = do
    groups ← grouped offer same_offer_status (λ o. o.status) λ o. in_scope org o.organization_id
    return (to_counts_by_key same_offer_status groups offer_statuses)

  pub organizations_by_status : Action (Counts OrganizationStatus)
  organizations_by_status = do
    groups ← grouped organization same_organization_status (λ o. o.status) λ _. true
    return (to_counts_by_key same_organization_status groups organization_statuses)

  pub subscriptions_by_plan : Action (Counts String)
  subscriptions_by_plan = do
    groups ← grouped subscription ◌==◌ (λ s. s.plan_id) λ _. true
    plans ← find_many plan λ _. true
    return (tally_plans plans groups (record { total = 0; by_status = plan_zeros plans [] }))

  pub get_org_analytics : Option ℕ → Action OrgAnalytics
  get_org_analytics org_id = do
    organization_id ← require_org_id org_id
    jobs ← jobs_by_status (some organization_id)
    applications ← applications_by_status (some organization_id)
    interviews ← interviews_by_status (some organization_id)
    offers ← offers_by_status (some organization_id)
    return (record {
      jobs = jobs;
      applications = applications;
      interviews = interviews;
      offers = offers;
    })

  pub get_platform_analytics : Action PlatformAnalytics
  get_platform_analytics = do
    organizations ← organizations_by_status
    jobs ← jobs_by_status none
    applications ← applications_by_status none
    subscriptions ← subscriptions_by_plan
    return (record {
      organizations = organizations;
      jobs = jobs;
      applications = applications;
      subscriptions = subscriptions;
    })
