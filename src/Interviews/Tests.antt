-- ===== src/Interviews/Tests.antt =====
-- Instances of the theorems about InterviewsService on the sample database.
use recruit_saas.Common.{
  ◌+◌, ◌≡◌, ◌⊎◌, refl, inl, inr, none, some, String, false, [], ◌∷◌, arith, any, All, Has, ◌==◌,
}
use recruit_saas.Schema.{Db, Interview, InterviewPanelMember, EvaluationRecommendation, Score}
use recruit_saas.Prisma.{Error, ok, err, unprocessable}
use recruit_saas.Memory.{in_memory}
use recruit_saas.Sample.{sample, ada_application}
use recruit_saas.Applications.Effects.{IsHeld}
use recruit_saas.Interviews.{
  ScheduleInterview, SubmitEvaluation, Ids, new_interview, new_member, new_evaluation, schedule,
  submit_evaluation,
}
use recruit_saas.Interviews.Schedules.{schedule_lem}
use recruit_saas.Interviews.Evaluations.{InRange, submit_evaluation_sound}

abbrev ids : Ids
ids = record { interview_id = 60; member_id = λ n. 70 + n; note_id = λ n. 80 + n }

abbrev slot : ScheduleInterview
slot = record { scheduled_at = 30; mode = "VIDEO"; interviewer_ids = 7 ∷ 8 ∷ [] }

abbrev booked : Interview
booked = new_interview 61 1000 1 30 "VIDEO"

abbrev panel : InterviewPanelMember
panel = new_member 71 61 7

abbrev planned : Db
planned = record sample {
  user_organization_roles = record { id = 9; user_id = 7; organization_id = 1; role_id = 8 } ∷ [];
  interviews = booked ∷ [];
  panel_members = panel ∷ [];
}

planned-IsHeld : IsHeld planned ada_application
planned-IsHeld = record { held = inl refl; keyed = omega arith }

schedule_lem_example : schedule ids (some 1) 10 1000 slot planned ≡ (err unprocessable, planned)
schedule_lem_example =
    (schedule_lem ids ada_application slot planned planned-IsHeld refl
        (((λ e. omega arith), tt), (tt, tt)) (refl, (refl, tt))).0
      8 (inr (inl refl)) refl

abbrev verdict : SubmitEvaluation
verdict = record {
  scores = ("Depth", Score.natural 4) ∷ [];
  comment = none;
  recommendation = EvaluationRecommendation.positive;
}

submit_evaluation_sound_example :
    ((e : Error) × (submit_evaluation 90 7 61 verdict planned ≡ (err e, planned)))
    ⊎ ((m : InterviewPanelMember) × Has m planned.panel_members
        × (m.interview_id ≡ 61)
        × (m.interviewer_id ≡ 7)
        × All (λ (s : String × Score). InRange s.1) verdict.scores
        × (any (λ e. m.id == e.panel_member_id) planned.evaluations ≡ false)
        × (submit_evaluation 90 7 61 verdict planned ≡ (
          ok (new_evaluation 90 m.id verdict),
          record planned { evaluations = new_evaluation 90 m.id verdict ∷ [] },
        )))
submit_evaluation_sound_example = submit_evaluation_sound 90 7 61 verdict planned
