-- ===== src/Practice/Evaluate.antt =====
-- `_evaluate` and the records of an answer (backend/app/services/practice.py).
use interview_trainer.Prelude.{
  ℕ, Bool, true, false, not, ◌&&◌, List, [], ◌∷◌, Option, none, some, String, if◌then◌else◌, map,
  keep, all, any, contains, string_eq,
}
use interview_trainer.Prelude.Int.{ℤ}
use interview_trainer.Exceptions.{Error, invalid_input, Result, ok, err}
use interview_trainer.Enums.{has_options}
use interview_trainer.Float.{Float}
use interview_trainer.Rating.{
  score_correct, score_partial, score_wrong, score_from_quality, quality_from_score,
}
use interview_trainer.Models.{Question, QuestionOption}

pub record AnswerSubmission : Type 0 where
  pub submission_id : ℕ
  pub question_id : ℕ
  pub specialization_id : String
  pub selected_options : List String
  pub free_text : Option String
  pub self_assessment : Option ℤ
  pub answered_at : Option ℕ

unfoldable pub known_codes : Question → List String
known_codes question = map (λ (o : QuestionOption). o.code) question.options

unfoldable pub correct_codes : Question → List String
unfolding keep
correct_codes question =
    map (λ (o : QuestionOption). o.code) (keep (λ o. o.is_correct) question.options)

-- `xs <= ys` of the sets of two lists
unfoldable pub subset : List String → List String → Bool
unfolding all contains
subset xs ys = all (contains ys) xs

unfoldable pub is_empty {ℓ} : {A : Type ℓ} → List A → Bool
is_empty [] = true
is_empty (_ ∷ _) = false

module _ (fl : Float) where
  open fl use {F}

  -- the score of a set of selected codes against the set of the correct ones
  unfoldable pub choice_score : List String → List String → F
  unfolding subset any
  choice_score selected correct =
      if subset selected correct && subset correct selected
      then score_correct fl
      else if any (contains correct) selected && subset selected correct
      then score_partial fl
      else score_wrong fl

  unfoldable pub evaluate : Question → AnswerSubmission → Result Error (F × ℤ)
  unfolding has_options is_empty known_codes correct_codes subset choice_score
  evaluate question submission =
      if has_options question.type
      then (if is_empty submission.selected_options
          then err invalid_input
          else if not (subset submission.selected_options (known_codes question))
          then err invalid_input
          else let score = choice_score submission.selected_options (correct_codes question) in
            ok (score, quality_from_score fl score))
      else elim submission.self_assessment [
        | none ↦ err invalid_input
        | some quality ↦ ok (score_from_quality fl quality, quality)
      ]
