-- ===== src/AuditLogs.antt =====
-- backend/src/audit-log/audit-log.service.ts, AuditLogService. The order of the entries by time is left
-- open, as the client's order of rows is.
use recruit_saas.Common.{
  ℕ, Option, none, some, List, [], ◌∷◌, Bool, true, false, ◌==◌, any, if◌then◌else◌,
}
use recruit_saas.Schema.{AuditLog, User, Organization}
use recruit_saas.Prisma.{Prisma, Action, ◌>>=◌, return, find_many, transaction}
use recruit_saas.Tables.{audit_log, user, organization}
use recruit_saas.Requests.{Page, Listing, any_order, list_page}
use recruit_saas.TalentPools.{user_by_id}

-- An entry of the answer, with its actor and its organization.
pub record Entry : Type 0 where
  pub entry : AuditLog
  pub actor : Option User
  pub organization : Option Organization

abbrev pub organization_by_id : ℕ → List Organization → Option Organization
organization_by_id id [] = none
organization_by_id id (o ∷ organizations) = elim (organization_by_id id organizations) [
  | none ↦ if o.id == id then some o else none
  | some later ↦ some later
]

-- `entry.actorId ? (actorById.get(entry.actorId) ?? null) : null`
abbrev pub actor_of : List User → AuditLog → Option User
actor_of actors e = elim e.actor_id [ none ↦ none | some id ↦ user_by_id id actors ]

abbrev pub organization_of : List Organization → AuditLog → Option Organization
organization_of organizations e = elim e.organization_id [
  | none ↦ none
  | some id ↦ organization_by_id id organizations
]

abbrev pub names : Option ℕ → ℕ → Bool
names none id = false
names (some named) id = named == id

abbrev pub resolved : List User → List Organization → List AuditLog → List Entry
resolved actors organizations [] = []
resolved actors organizations (e ∷ entries) =
    record { entry = e; actor = actor_of actors e; organization = organization_of organizations e }
    ∷ resolved actors organizations entries

module _ ⦃p : Prisma⦄ where
  pub list : Page → Action (Listing Entry)
  list query = do
    found ← transaction (list_page audit_log any_order (λ _. true) query)
    actors ← find_many user λ u. any (λ e. names e.actor_id u.id) found.rows
    organizations ← find_many organization λ o. any (λ e. names e.organization_id o.id) found.rows
    return (record { rows = resolved actors organizations found.rows; total = found.total })
