-- ===== src/Applications/Race.antt =====
-- Two requests on one application: `withdraw` tests the status before it writes, and its write does not
-- test it again.
use recruit_saas.Common.{ℕ, ◌≡◌, refl, Option, some, String, ◌∷◌, arith, ◌==◌, ==_iff}
use recruit_saas.Schema.{Db, Application, ApplicationStatus}
use recruit_saas.Prisma.{Prisma, Action, ◌>>=◌, ◌>>◌, ok}
use recruit_saas.Applications.{
  FinalDecision, withdrawable, mark_withdrawn, decide, as_hired, as_withdrawn, hire_entry,
}
use recruit_saas.Prisma.Keys.{UniqueBy-modify, Has-modify, modify-modify}
use recruit_saas.Applications.Effects.{IsHeld, with_row, find_own, update_held, decide_active}

module _ ⦃p : Prisma⦄ where
  -- The request to withdraw has tested the status when the request to hire comes and runs to its end;
  -- then the first request goes on.
  pub interleaved : ℕ → ℕ → Option String → Application → Action Application
  interleaved note_id actor_id reason a = do
    found ← withdrawable a.candidate_id a.id
    decide note_id (some a.organization_id) actor_id a.job_id a.id FinalDecision.hire reason
    mark_withdrawn found

  -- Whenever the application is active, both requests succeed: the candidate's row ends withdrawn
  -- while the audit log records that it was hired, and neither request is told of a conflict. The
  -- ids of applications are distinct.
  pub interleaved_loses_hire :
      (note_id actor_id : ℕ) (reason : Option String) (a : Application) (db : Db)
      → IsHeld db a
      → a.status ≡ ApplicationStatus.active
      → interleaved note_id actor_id reason a db ≡ (
        ok (as_withdrawn a),
        record (with_row a as_withdrawn db) {
          audit_logs = hire_entry a actor_id a.organization_id ∷ db.audit_logs;
        },
      )
  unfolding interleaved withdrawable mark_withdrawn
  interleaved_loses_hire note_id actor_id reason a db h s =
      let hired : IsHeld (with_row a as_hired db) (as_hired a) = record {
        held =
            Has-modify (λ (b : Application). b.id == a.id) as_hired a db.applications h.held
              ((==_iff a.id a.id).1 refl);
        keyed =
            UniqueBy-modify (λ (b : Application). b.id) (λ b. b.id == a.id) as_hired (λ b. refl)
              db.applications h.keyed;
      } in
      ground (
        arith,
        find_own a db h,
        (decide_active note_id actor_id reason a db h s).0,
        update_held (as_hired a) as_withdrawn (with_row a as_hired db) hired,
        modify-modify (λ (b : Application). b.id == a.id) as_hired as_withdrawn as_withdrawn
            db.applications (λ b. refl) (λ b. refl),
      )
