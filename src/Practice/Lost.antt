-- ===== src/Practice/Lost.antt =====
-- A conflict inside a batch (`submit_batch`, backend/app/services/practice.py;
-- `upload_answers`, backend/app/api/v1/sync.py).
use interview_trainer.Prelude.{◌≡◌, true, false, arith, [], ◌∷◌, none, some, ltb, sort_by}
use interview_trainer.Exceptions.{Error, ok, err, conflict}
use interview_trainer.Float.{Float}
use interview_trainer.Models.{User}
use interview_trainer.Session.{Session}
use interview_trainer.Practice.Evaluate.{AnswerSubmission}
use interview_trainer.Practice.Submit.{
  Request, AnswerResult, submit_answer, replay, new_answer, store_answer, flush_answer, load_rating,
}
use interview_trainer.Practice.Batch.{
  BatchItemResult, caught, settle, submit_item, submit_all, submit_batch, upload_answers, in_order,
  answer_time,
}
use interview_trainer.Practice.Failures.{submit_answer_conflict}

module _ {fl : Float} where
  abbrev pub accepted_item : AnswerSubmission → AnswerResult fl → BatchItemResult fl
  accepted_item submission r = record {
    submission_id = submission.submission_id;
    accepted = true;
    result = some r;
    error = none;
  }

  abbrev pub rejected_item : AnswerSubmission → Error → BatchItemResult fl
  rejected_item submission e = record {
    submission_id = submission.submission_id;
    accepted = false;
    result = none;
    error = some e;
  }

  -- Whatever becomes of an answer, what is committed does not change: a request commits at its
  -- end.
  pub committed-submit_answer :
      (request : Request) (user : User) (submission : AnswerSubmission) (s : Session fl)
      → (submit_answer fl request user submission s).1.committed ≡ s.committed
  unfolding submit_answer replay new_answer store_answer flush_answer load_rating
  committed-submit_answer request user submission s = ground arith

  -- If the first of two answers is accepted and the second, which is not the earlier one,
  -- conflicts, the batch reports the first as accepted, and after `upload_answers` what is
  -- committed is what was committed before: the first answer is lost.
  pub upload_answers_loses :
      (request : Request) (user : User) (first second : AnswerSubmission) (s : Session fl)
      (r : AnswerResult fl)
      → ltb (answer_time request.now second.answered_at) (answer_time request.now first.answered_at)
        ≡ false
      → (submit_answer fl request user first s).0 ≡ ok r
      → (submit_answer fl request user second (submit_answer fl request user first s).1).0
        ≡ err conflict
      → (upload_answers fl request user (first ∷ second ∷ []) s).0
          ≡ ok (accepted_item first r ∷ rejected_item second conflict ∷ [])
        × ((upload_answers fl request user (first ∷ second ∷ []) s).1.committed ≡ s.committed)
  unfolding upload_answers submit_batch submit_all submit_item settle caught in_order sort_by
  upload_answers_loses request user first second s r order good clash =
      let s1 = (submit_answer fl request user first s).1 in
      let back = submit_answer_conflict request user second s1 clash in
      let kept = committed-submit_answer request user first s in ground (arith, back, kept)
