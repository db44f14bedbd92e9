-- ===== src/Lib.antt =====
-- Recruit SaaS: the core of the NestJS backend (backend/src) of a recruiting platform for many
-- organizations, and the requests that its frontend makes.
--
-- The program. Organizations post jobs with an ordered list of stages; candidates apply to published
-- jobs; staff move an application through the stages, schedule interviews, decide, and make an offer,
-- which the candidate answers. A service per subject keeps no state of its own: all state is in one
-- database, which the services share through the Prisma client. A request passes three guards (access
-- token, permission, tenant) and then makes one service call. Services call each other: offers and
-- interviews look an application up through ApplicationsService, jobs read templates through
-- PipelineTemplatesService, and NotificationsService writes for several.
--
-- How it is modelled. Schema is backend/prisma/schema.prisma: a row is a record, a table a list of rows,
-- and `Db` all tables. A service call is an `Action` (Prisma/Monad): it takes the database to a
-- result, or the exception that was thrown, and the database left behind; `transaction` takes back
-- what a failing call wrote. Function names are those of the source in snake case, and an operation
-- of a service is one function with its guards, reads and writes in the order of the source.
--   Common            lists of rows, Boolean tests, and lemmas on them
--   Schema            backend/prisma/schema.prisma
--   Prisma            the client's interface and laws, the monad of calls, lemmas on keys
--   Memory, Sample    an instance of the client over lists, and a small database, for the tests
--   Tables            the unique indexes (schema.prisma and backend/prisma/migrations)
--   Requests          what the services share: session organization, pages, optional fields; Pages
--                     the pages of a list
--   Notifications     backend/src/notifications/notifications.service.ts
--   PipelineTemplates backend/src/pipeline-templates/pipeline-templates.service.ts
--   Applications      backend/src/applications/applications.service.ts; Machine is the abstract machine
--                     of applications, History and Invariant what any history of calls keeps, Atomic
--                     calls whose writes the database fails at, Effects and Creation exact
--                     effects, Race an interleaving, Reads the lists
--   Jobs              backend/src/jobs/jobs.service.ts; Machine and Lifecycle the machine of job
--                     statuses, Stages, References and Published the changes of stages,
--                     Search the public search
--   Auth              backend/src/auth/auth.service.ts; SingleUse and Resets the tokens,
--                     Sessions the rest
--   Guards            backend/src/auth/guards and their order in backend/src/app.module.ts
--   Organizations     backend/src/organizations/organizations.service.ts; Approval the registration and
--                     its approval, Members the removal of members, Race two removals at the same time,
--                     Invitations the invitations
--   Candidates        backend/src/candidates/candidates.service.ts; Signature is
--                     backend/src/candidates/cv-file-signature.util.ts, Primary and Cvs the CVs, Lists
--                     and Replaced the lists of a profile, Shared the CVs as applications use them
--   Storage           backend/src/storage; Links the signed links
--   Offers            backend/src/offers/offers.service.ts
--   Onboarding        backend/src/onboarding/onboarding.service.ts; Checklists and Documents
--   Interviews        backend/src/interviews/interviews.service.ts
--   TalentPools       backend/src/talent-pools/talent-pools.service.ts
--   Universities      backend/src/universities/universities.service.ts
--   Subscriptions     backend/src/subscriptions/subscriptions.service.ts
--   Analytics         backend/src/analytics/analytics.service.ts; Groups, Totals and Answers against a
--                     direct count, InMemory a client's groupBy for the tests
--   AuditLogs         backend/src/audit-log/audit-log.service.ts
--   ApiClient         frontend/lib/api.ts; Requests what one call sends and answers, Flights calls at the same time
--
-- What is a parameter. The Prisma client and the database are the record `Prisma` of queries and
-- their documented laws, where the row that findFirst answers and the order of findMany are left
-- open, and a page (`find_page`) is a window of the answer in some order that `orderBy` allows, in
-- each query anew. The hashes of passwords and tokens are `Crypto`, the check of a signed access
-- token is `verify`, and the database's search in a text is `contains`. The client's groupBy is
-- `Grouping`; what storage takes from Node.js, such as the HMAC of a text, is `Platform`; the
-- network of the browser is `answer`. The time of a call, ids of new rows and random tokens are
-- arguments of the call.
--
-- What is simplified. Ids are numbers, since the code only compares them, and no id is empty. A
-- time is a number of milliseconds. An exception is its status; messages and logs are left out. A
-- call answers with the row that the source projects to its response. Columns that no modelled code
-- reads, such as createdAt, are left out, and a list in the order of such a column is a page in any
-- order. The directory of stored files is one more list of the database. Calls run one after the
-- other, but in the theorems on interleavings, where a call is split between its reads and its
-- guarded or unguarded write. The database answers every query, but in `screen_during` and
-- `decide_during`, where an `Outage` says which writes it fails at; `screen` and `decide` are these
-- without one. No definition uses fuel: every loop goes through a list.
--
-- What is not modelled. The health check, which is input and output; controllers and modules, which
-- pass a request on; the pages and components of the frontend; the seed data.
pub mod Common
pub mod Schema
pub mod Prisma
pub mod Memory
pub mod Tables
pub mod Sample
pub mod Requests
pub mod Notifications
pub mod PipelineTemplates
pub mod Applications
pub mod Jobs
pub mod Auth
pub mod Guards
pub mod Storage
pub mod Organizations
pub mod Candidates
pub mod Offers
pub mod Onboarding
pub mod Interviews
pub mod TalentPools
pub mod Universities
pub mod Subscriptions
pub mod Analytics
pub mod AuditLogs
pub mod ApiClient
