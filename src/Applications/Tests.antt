-- ===== src/Applications/Tests.antt =====
-- Runs of the application calls on the sample database, and instances of the theorems about them.
use recruit_saas.Common.{
  ℕ, ◌≡◌, refl, inl, inr, none, some, [], ◌∷◌, true, false, arith, ◌↔◌, Has, ◌⊎◌,
}
use recruit_saas.Schema.{Db, Job, RecruitmentStage}
use recruit_saas.Prisma.{Error, ok, err}
use recruit_saas.Memory.{in_memory}
use recruit_saas.Sample.{sample, ada_application, old_application}
use recruit_saas.Applications.{
  Outage, ScreenDecision, screen_during, decide_during, CreateApplication, FinalDecision, create,
  decide, require_job_application, decided, hire_in_transaction, new_application, as_withdrawn,
  as_hired, hire_entry,
}
use recruit_saas.Applications.Machine.{staff, Step}
use recruit_saas.Applications.History.{
  Call, withdraws, decides, serve, serve-Step, History, here, after, respond,
}
use recruit_saas.Applications.Invariant.{OneActive, serve-foreign, History-OneActive, History-final}
use recruit_saas.Applications.Atomic.{CallIsClean, failure_sound}
use recruit_saas.Applications.Effects.{IsHeld, with_row, decide_active}
use recruit_saas.Applications.Creation.{Accepted, create_sound}
use recruit_saas.Applications.Race.{interleaved, interleaved_loses_hire}

abbrev request : CreateApplication
request = record { job_id = 10; cv_id = none; cover_note = some "Hello" }

abbrev hires : Call
hires = decides 1 (some 1) 7 10 1000 FinalDecision.hire none

ada-IsHeld : IsHeld sample ada_application
ada-IsHeld = record { held = inl refl; keyed = omega arith }

serve-Step_example : Step (staff (some 1)) sample.applications (serve hires sample).applications
serve-Step_example = serve-Step hires sample

-- The database answers at the update of the status, and not after it.
abbrev unlogged : Outage
unlogged = record { at_update = false; at_record = true; at_notification = true }

failure_sound_example :
    ((d : ScreenDecision)
      → CallIsClean unlogged
          (d ≡ ScreenDecision.reject)
          (some 1)
          7
          10
          1000
          none
          "screening"
          sample
          (screen_during unlogged 1 (some 1) 7 10 1000 d none sample))
    × ((d : FinalDecision)
        → CallIsClean unlogged
            (d ≡ FinalDecision.reject)
            (some 1)
            7
            10
            1000
            none
            "decision"
            sample
            (decide_during unlogged 1 (some 1) 7 10 1000 d none sample))
failure_sound_example = failure_sound unlogged 1 (some 1) 7 10 1000 none sample

serve-foreign_example :
    Has ada_application sample.applications
    ↔ Has ada_application (serve (withdraws 6 1000) sample).applications
serve-foreign_example =
    serve-foreign (withdraws 6 1000) sample ada_application (omega arith) (λ e. omega arith)

abbrev hired_sample : Db
hired_sample = record sample {
  applications = as_hired ada_application ∷ old_application ∷ [];
  audit_logs = hire_entry ada_application 7 1 ∷ [];
}

hiring : History sample hired_sample
unfolding serve respond decide decide_during require_job_application decided hire_in_transaction
hiring = after here hires refl (omega arith)

History-OneActive_example : OneActive hired_sample.applications
History-OneActive_example = History-OneActive (refl, (refl, tt)) hiring

History-final_example : Has old_application hired_sample.applications
History-final_example =
    History-final old_application (omega arith) (inr (inl refl)) (λ e. cc) hiring

decide_active_example :
    decide 1 (some 1) 7 10 1000 FinalDecision.hire none sample
    ≡ (ok (as_hired ada_application), hired_sample)
decide_active_example = (decide_active 1 7 none ada_application sample ada-IsHeld refl).0

create_sound_example :
    ((e : Error) × (create 1001 5 request sample ≡ (err e, sample)))
    ⊎ ((j : Job) × (cv_id : ℕ) × (s : RecruitmentStage) × Accepted sample 5 request j cv_id s
          (new_application 1001 5 request j cv_id s)
        × (create 1001 5 request sample ≡ (
          ok (new_application 1001 5 request j cv_id s),
          record sample {
            applications = new_application 1001 5 request j cv_id s ∷ sample.applications;
          },
        )))
create_sound_example = create_sound 1001 5 request sample

interleaved_loses_hire_example : interleaved 1 7 none ada_application sample ≡ (
  ok (as_withdrawn ada_application),
  record (with_row ada_application as_withdrawn sample) {
    audit_logs = hire_entry ada_application 7 1 ∷ [];
  },
)
interleaved_loses_hire_example =
    interleaved_loses_hire 1 7 none ada_application sample ada-IsHeld refl
