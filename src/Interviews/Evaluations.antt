-- ===== src/Interviews/Evaluations.antt =====
-- `submitEvaluation` of InterviewsService.
use recruit_saas.Common.{
  ℕ, ◌≤◌, ◌≡◌, ◌⊎◌, inl, inr, false, String, List, [], ◌∷◌, ◌==◌, ◌&&◌, arith, any, All, Has,
  Bool-cases,
}
use recruit_saas.Schema.{Db, Score, InterviewPanelMember}
use recruit_saas.Prisma.{Prisma, Error, ok, err, forbidden, bad_request, conflict}
use recruit_saas.Prisma.Keys.{find_first-cases}
use recruit_saas.Tables.{evaluation_clash}
use recruit_saas.Interviews.{SubmitEvaluation, invalid_score, new_evaluation, submit_evaluation}

-- An integer between 1 and 5.
abbrev pub InRange : Score → Type 0
InRange (Score.natural n) = (1 ≤ n) × (n ≤ 5)
InRange Score.negative_or_fraction = ⊥

InRange-of : (s : Score) → invalid_score s ≡ false → InRange s
InRange-of (Score.natural n) e = (ground arith, ground arith)
InRange-of Score.negative_or_fraction e = ground arith

All-InRange :
    (scores : List (String × Score))
    → any (λ s. invalid_score s.1) scores ≡ false
    → All (λ (s : String × Score). InRange s.1) scores
All-InRange [] e = tt
All-InRange (s ∷ scores) e = (InRange-of s.1 (ground arith), All-InRange scores (ground arith))

module _ ⦃p : Prisma⦄ where
  -- An evaluation is refused and changes nothing; or its author is assigned to the interview, every
  -- score is an integer from 1 to 5, the assignment had no evaluation yet, and one evaluation of that
  -- assignment is added, while nothing else changes.
  pub submit_evaluation_sound :
      (new_id interviewer_id interview_id : ℕ) (dto : SubmitEvaluation) (db : Db)
      → ((e : Error) × (submit_evaluation new_id interviewer_id interview_id dto db ≡ (err e, db)))
        ⊎ ((m : InterviewPanelMember) × Has m db.panel_members
            × (m.interview_id ≡ interview_id)
            × (m.interviewer_id ≡ interviewer_id)
            × All (λ (s : String × Score). InRange s.1) dto.scores
            × (any (λ e. m.id == e.panel_member_id) db.evaluations ≡ false)
            × (submit_evaluation new_id interviewer_id interview_id dto db ≡ (
              ok (new_evaluation new_id m.id dto),
              record db { evaluations = new_evaluation new_id m.id dto ∷ db.evaluations },
            )))
  unfolding submit_evaluation
  submit_evaluation_sound new_id interviewer_id interview_id dto db =
      elim (find_first-cases
        (λ m. m.interview_id == interview_id && m.interviewer_id == interviewer_id)
        db.panel_members) [
          | inl (e, _) ↦ inl (forbidden, ground arith)
          | inr (m, e, met, has) ↦ elim (Bool-cases (any (λ s. invalid_score s.1) dto.scores)) [
            | inl bad ↦ inl (bad_request, ground arith)
            | inr good ↦
                elim (Bool-cases
                  (any (evaluation_clash (new_evaluation new_id m.id dto)) db.evaluations)) [
                    | inl taken ↦ inl (
                      conflict,
                      ground (
                        arith,
                        p.create-eq evaluation_clash (new_evaluation new_id m.id dto)
                            db.evaluations,
                      ),
                    )
                    | inr free ↦ inr (
                      m,
                      has,
                      ground arith,
                      ground arith,
                      All-InRange dto.scores good,
                      free,
                      ground (
                        arith,
                        p.create-eq evaluation_clash (new_evaluation new_id m.id dto)
                            db.evaluations,
                      ),
                    )
                  ]
          ]
        ]
