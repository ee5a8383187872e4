-- ===== src/Practice/Batch.antt =====
-- `submit_batch` (backend/app/services/practice.py) and `upload_answers` with its summary
-- (backend/app/api/v1/sync.py).
use interview_trainer.Prelude.{
  ℕ, Bool, true, false, not, ◌&&◌, List, [], ◌∷◌, Option, none, some, ltb, sort_by, keep, length,
}
use interview_trainer.Exceptions.{Error, not_found, conflict, invalid_input, Result, ok, err}
use interview_trainer.Float.{Float}
use interview_trainer.Models.{User}
use interview_trainer.Session.{Action, pure, commit, ◌>>=◌, ◌>>◌}
use interview_trainer.Practice.Evaluate.{AnswerSubmission}
use interview_trainer.Practice.Submit.{Request, AnswerResult, submit_answer}

-- `except (InvalidInputError, NotFoundError, ConflictError)`
unfoldable pub caught : Error → Bool
caught invalid_input = true
caught not_found = true
caught conflict = true
caught _ = false

-- `item.answered_at or datetime.now(UTC)`
abbrev pub answer_time : ℕ → Option ℕ → ℕ
answer_time now none = now
answer_time now (some t) = t

unfoldable pub in_order : ℕ → List AnswerSubmission → List AnswerSubmission
unfolding sort_by
in_order now = sort_by (λ a b. ltb (answer_time now a.answered_at) (answer_time now b.answered_at))

module _ (fl : Float) where
  pub record BatchItemResult : Type 0 where
    pub submission_id : ℕ
    pub accepted : Bool
    pub result : Option (AnswerResult fl)
    pub error : Option Error

  -- the `try` around one answer
  unfoldable pub settle :
      AnswerSubmission → Result Error (AnswerResult fl) → Result Error BatchItemResult
  unfolding caught
  settle submission (ok result) = ok (record {
    submission_id = submission.submission_id;
    accepted = true;
    result = some result;
    error = none;
  })
  settle submission (err e) = elim (caught e) [
    | true ↦ ok (record {
      submission_id = submission.submission_id;
      accepted = false;
      result = none;
      error = some e;
    })
    | false ↦ err e
  ]

  unfoldable pub submit_item : Request → User → AnswerSubmission → Action fl BatchItemResult
  unfolding settle
  submit_item request user submission s =
      let (r, s') = submit_answer fl request user submission s in (settle submission r, s')

  unfoldable pub submit_all :
      Request → User → List AnswerSubmission → Action fl (List BatchItemResult)
  unfolding ◌>>=◌ submit_item
  submit_all request user [] = pure []
  submit_all request user (submission ∷ rest) = do
    result ← submit_item request user submission
    results ← submit_all request user rest
    pure (result ∷ results)

  unfoldable pub submit_batch :
      Request → User → List AnswerSubmission → Action fl (List BatchItemResult)
  unfolding submit_all in_order
  submit_batch request user submissions = submit_all request user (in_order request.now submissions)

  -- `upload_answers`: the batch, then `session.commit()`
  unfoldable pub upload_answers :
      Request → User → List AnswerSubmission → Action fl (List BatchItemResult)
  unfolding submit_batch
  upload_answers request user submissions = do
    results ← submit_batch request user submissions
    commit
    pure results

  -- `item.result.is_duplicate if item.result else False`
  unfoldable pub is_duplicate : BatchItemResult → Bool
  is_duplicate item = elim item.result [ none ↦ false | some r ↦ r.is_duplicate ]

  -- the counts of `_to_response`: accepted, duplicates, rejected
  unfoldable pub summary : List BatchItemResult → ℕ × ℕ × ℕ
  unfolding keep is_duplicate
  summary results = (
    length (keep (λ i. i.accepted && not (is_duplicate i)) results),
    length (keep is_duplicate results),
    length (keep (λ i. not i.accepted) results),
  )
