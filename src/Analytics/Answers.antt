-- ===== src/Analytics/Answers.antt =====
-- What `getOrgAnalytics` and `getPlatformAnalytics` answer, against a direct count of the rows.
use recruit_saas.Common.{
  ℕ, ◌+◌, ◌≡◌, refl, ◌↔◌, List, [], ◌∷◌, true, none, some, ◌==◌, ==_iff, count, arith, String,
}
use recruit_saas.Schema.{
  Db, Plan, Subscription, OrganizationStatus, JobStatus, ApplicationStatus, OfferStatus,
  InterviewStatus, same_organization_status, same_job_status, same_application_status,
  same_offer_status,
}
use recruit_saas.Prisma.{Prisma, ok, err, not_found}
use recruit_saas.Analytics.Groups.{sum, sum-Groups}
use recruit_saas.Analytics.Totals.{Tallies, to_counts_by_key-Tallies}
use recruit_saas.Analytics.{
  Grouping, Counts, tally_plans, set_if_known, plan_key_by_id, plan_zeros, organization_statuses,
  job_statuses, application_statuses, interview_statuses, offer_statuses, same_interview_status,
  OrgAnalytics, PlatformAnalytics, get_org_analytics, get_platform_analytics, jobs_by_status,
  applications_by_status, interviews_by_status, offers_by_status, organizations_by_status,
  subscriptions_by_plan,
}

same_job_status_iff : (a b : JobStatus) → (same_job_status a b ≡ true) ↔ (a ≡ b)
same_job_status_iff a b = ground arith

same_application_status_iff :
    (a b : ApplicationStatus) → (same_application_status a b ≡ true) ↔ (a ≡ b)
same_application_status_iff a b = ground arith

same_interview_status_iff : (a b : InterviewStatus) → (same_interview_status a b ≡ true) ↔ (a ≡ b)
same_interview_status_iff a b = ground arith

same_offer_status_iff : (a b : OfferStatus) → (same_offer_status a b ≡ true) ↔ (a ≡ b)
same_offer_status_iff a b = ground arith

same_organization_status_iff :
    (a b : OrganizationStatus) → (same_organization_status a b ≡ true) ↔ (a ≡ b)
same_organization_status_iff a b = ground arith

total-tally_plans :
    (plans : List Plan) (groups : List (ℕ × ℕ)) (counts : Counts String)
    → (tally_plans plans groups counts).total ≡ counts.total + sum groups
total-tally_plans plans [] counts = omega arith
total-tally_plans plans (g ∷ groups) counts =
    let rest = total-tally_plans plans groups (record {
      total = counts.total + g.1;
      by_status = set_if_known (plan_key_by_id g.0 plans) g.1 counts.by_status;
    }) in
    ground (arith, rest)

module _ ⦃p : Prisma⦄ (g : Grouping) where
  -- `getOrgAnalytics` answers, for jobs, applications, interviews and offers, with the number of the
  -- organization's rows and with the number of those in each status, and changes nothing; without an
  -- organization in the session it is not found.
  pub get_org_analytics_lem :
      (org : ℕ) (db : Db)
      → (get_org_analytics g none db ≡ (err not_found, db))
        × ((a : OrgAnalytics) × (get_org_analytics g (some org) db ≡ (ok a, db))
            × Tallies same_job_status
                (λ j. j.status)
                (λ j. j.organization_id == org)
                db.jobs
                job_statuses
                a.jobs
            × Tallies same_application_status
                (λ x. x.status)
                (λ x. x.organization_id == org)
                db.applications
                application_statuses
                a.applications
            × Tallies same_interview_status
                (λ i. i.status)
                (λ i. i.organization_id == org)
                db.interviews
                interview_statuses
                a.interviews
            × Tallies same_offer_status
                (λ o. o.status)
                (λ o. o.organization_id == org)
                db.offers
                offer_statuses
                a.offers)
  unfolding get_org_analytics jobs_by_status applications_by_status interviews_by_status
      offers_by_status
  get_org_analytics_lem org db =
      let in_org = λ (id : ℕ). id == org in
      (
        refl,
        (
          _,
          refl,
          to_counts_by_key-Tallies same_job_status same_job_status_iff (λ j. j.status)
              (λ j. j.organization_id == org) db.jobs _ job_statuses
              (g.group_by-Groups same_job_status (λ j. j.status) (λ j. j.organization_id == org)
                db.jobs same_job_status_iff),
          to_counts_by_key-Tallies same_application_status same_application_status_iff
              (λ x. x.status) (λ x. x.organization_id == org) db.applications _ application_statuses
              (g.group_by-Groups same_application_status (λ x. x.status)
                (λ x. x.organization_id == org) db.applications same_application_status_iff),
          to_counts_by_key-Tallies same_interview_status same_interview_status_iff (λ i. i.status)
              (λ i. i.organization_id == org) db.interviews _ interview_statuses
              (g.group_by-Groups same_interview_status (λ i. i.status)
                (λ i. i.organization_id == org) db.interviews same_interview_status_iff),
          to_counts_by_key-Tallies same_offer_status same_offer_status_iff (λ o. o.status)
              (λ o. o.organization_id == org) db.offers _ offer_statuses
              (g.group_by-Groups same_offer_status (λ o. o.status) (λ o. o.organization_id == org)
                db.offers same_offer_status_iff),
        ),
      )

  -- `getPlatformAnalytics` answers, for organizations, jobs and applications of the whole platform, with
  -- the number of all rows and with the number of those in each status, and with the number of all
  -- subscriptions; it changes nothing.
  pub get_platform_analytics_lem :
      (db : Db)
      → (a : PlatformAnalytics) × (get_platform_analytics g db ≡ (ok a, db))
        × Tallies same_organization_status
            (λ o. o.status)
            (λ _. true)
            db.organizations
            organization_statuses
            a.organizations
        × Tallies same_job_status (λ j. j.status) (λ _. true) db.jobs job_statuses a.jobs
        × Tallies same_application_status
            (λ x. x.status)
            (λ _. true)
            db.applications
            application_statuses
            a.applications
        × (a.subscriptions.total ≡ count (λ _. true) db.subscriptions)
  unfolding get_platform_analytics jobs_by_status applications_by_status organizations_by_status
      subscriptions_by_plan
  get_platform_analytics_lem db =
      let plans = p.find_many (λ (x : Plan). true) db.plans in
      let groups = g.group_by ◌==◌ (λ (s : Subscription). s.plan_id) (λ _. true) db.subscriptions in
      let total =
        total-tally_plans plans groups (record { total = 0; by_status = plan_zeros plans [] }) in
      let rows =
        sum-Groups ◌==◌ (λ (s : Subscription). s.plan_id) ==_iff (λ _. true) db.subscriptions groups
          (g.group_by-Groups ◌==◌ (λ (s : Subscription). s.plan_id) (λ _. true) db.subscriptions
            ==_iff) in
      (
        _,
        refl,
        to_counts_by_key-Tallies same_organization_status same_organization_status_iff
            (λ o. o.status) (λ _. true) db.organizations _ organization_statuses
            (g.group_by-Groups same_organization_status (λ o. o.status) (λ _. true) db.organizations
              same_organization_status_iff),
        to_counts_by_key-Tallies same_job_status same_job_status_iff (λ j. j.status) (λ _. true)
            db.jobs _ job_statuses
            (g.group_by-Groups same_job_status (λ j. j.status) (λ _. true) db.jobs
              same_job_status_iff),
        to_counts_by_key-Tallies same_application_status same_application_status_iff (λ x. x.status)
            (λ _. true) db.applications _ application_statuses
            (g.group_by-Groups same_application_status (λ x. x.status) (λ _. true) db.applications
              same_application_status_iff),
        omega arith,
      )
