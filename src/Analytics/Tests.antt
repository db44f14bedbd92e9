-- ===== src/Analytics/Tests.antt =====
-- Instances of the theorems about analytics.
use recruit_saas.Common.{◌≡◌, ◌==◌, some, none}
use recruit_saas.Schema.{same_job_status, same_application_status, same_offer_status}
use recruit_saas.Prisma.{ok, err, not_found}
use recruit_saas.Memory.{in_memory}
use recruit_saas.Sample.{sample}
use recruit_saas.Analytics.{
  OrgAnalytics, get_org_analytics, job_statuses, application_statuses, interview_statuses,
  offer_statuses, same_interview_status,
}
use recruit_saas.Analytics.Totals.{Tallies}
use recruit_saas.Analytics.Answers.{get_org_analytics_lem}
use recruit_saas.Analytics.InMemory.{grouping}

get_org_analytics_lem_example :
    (get_org_analytics grouping none sample ≡ (err not_found, sample))
    × ((a : OrgAnalytics) × (get_org_analytics grouping (some 1) sample ≡ (ok a, sample))
        × Tallies same_job_status
            (λ j. j.status)
            (λ j. j.organization_id == 1)
            sample.jobs
            job_statuses
            a.jobs
        × Tallies same_application_status
            (λ x. x.status)
            (λ x. x.organization_id == 1)
            sample.applications
            application_statuses
            a.applications
        × Tallies same_interview_status
            (λ i. i.status)
            (λ i. i.organization_id == 1)
            sample.interviews
            interview_statuses
            a.interviews
        × Tallies same_offer_status
            (λ o. o.status)
            (λ o. o.organization_id == 1)
            sample.offers
            offer_statuses
            a.offers)
get_org_analytics_lem_example = get_org_analytics_lem grouping 1 sample
