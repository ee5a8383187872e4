-- ===== src/Practice/Outcome.antt =====
-- The course of `store_answer`, laid out for proofs (backend/app/services/practice.py).
use interview_trainer.Prelude.{
  ℕ, ◌≡◌, false, Bool, ◌&&◌, if◌then◌else◌, arith, Option, none, some, Option-cases, inl, inr,
}
use interview_trainer.Prelude.Int.{ℤ}
use interview_trainer.Exceptions.{
  Error, Result, ok, err, value_error, integrity_error, Result-cases,
}
use interview_trainer.Float.{Float}
use interview_trainer.Scheduler.{ReviewSnapshot, review}
use interview_trainer.Rating.{EloUpdate, apply_elo}
use interview_trainer.Models.{Database, Question, User, UserAnswer, UserTopicRating}
use interview_trainer.Session.{Session}
use interview_trainer.Practice.Lookups.{
  resolve_answered_at, get_or_create_rating, review_snapshot, find_profile, find_question,
}
use interview_trainer.Practice.Evaluate.{AnswerSubmission, evaluate}
use interview_trainer.Practice.Submit.{
  Request, AnswerResult, answer_row, measured, record_answer, flush_failure, flush_answer,
  is_unrated, load_rating, store_answer, new_answer,
}

module _ (fl : Float) (request : Request) (user : User) (submission : AnswerSubmission)
    (question : Question) (score : fl.F) (quality : ℤ) (s : Session fl) where
  abbrev pub rating_row : UserTopicRating fl
  rating_row =
      (get_or_create_rating user.id submission.specialization_id question.topic_code s.current).0

  -- the database with the rating's row
  abbrev pub rated_db : Database fl
  rated_db =
      (get_or_create_rating user.id submission.specialization_id question.topic_code s.current).1

  abbrev pub elo_of : EloUpdate fl
  elo_of = apply_elo fl rating_row.rating question.difficulty_rating score rating_row.answers_count

  abbrev pub answered_at : ℕ
  answered_at = resolve_answered_at request.now submission.answered_at

  abbrev pub stored_row : UserAnswer fl
  stored_row = answer_row fl request user submission question score quality elo_of answered_at

  abbrev pub result_of : ℕ → AnswerResult fl
  result_of due_at = record {
    question = measured fl elo_of question;
    score = score;
    quality = quality;
    rating_before = elo_of.user_rating_before;
    rating_after = elo_of.user_rating_after;
    difficulty_before = elo_of.question_rating_before;
    difficulty_after = elo_of.question_rating_after;
    next_review_at = due_at;
    is_duplicate = false;
  }

  abbrev pub stored_db : ReviewSnapshot fl → ℕ → Database fl
  stored_db scheduled due_at =
      record_answer fl request.now stored_row elo_of scheduled due_at rated_db

  -- The row of the rating is to be added, and was added by another transaction meanwhile.
  abbrev pub rating_lost : Bool
  rating_lost =
      is_unrated fl user.id submission.specialization_id question.topic_code s.current
      && request.raced_rating submission.submission_id

  abbrev pub with_due : ReviewSnapshot fl → Option ℕ → Result Error (AnswerResult fl) × Session fl
  with_due scheduled none = (err value_error, record s { current = rated_db })
  with_due scheduled (some due_at) =
      flush_answer fl request submission (result_of due_at) scheduled
        (record s { current = stored_db scheduled due_at })

  abbrev pub with_schedule :
      Result Error (ReviewSnapshot fl) → Result Error (AnswerResult fl) × Session fl
  with_schedule (err e) = (err e, record s { current = rated_db })
  with_schedule (ok scheduled) = with_due scheduled scheduled.due_at

  pub store_answer_lem : store_answer fl request user submission question score quality s ≡ (
      if rating_lost
      then (err integrity_error, record s { current = s.committed })
      else with_schedule
          (review fl (review_snapshot user.id question.id rated_db) quality answered_at))
  unfolding store_answer load_rating
  store_answer_lem = ground arith

  -- An answer that is stored was scheduled, and the database took it.
  pub store_answer-ok :
      (r : AnswerResult fl)
      → (store_answer fl request user submission question score quality s).0 ≡ ok r
      → (scheduled : ReviewSnapshot fl) × (due_at : ℕ) × (review fl
            (review_snapshot user.id question.id rated_db)
            quality
            answered_at
          ≡ ok scheduled)
        × (scheduled.due_at ≡ some due_at)
        × (flush_failure fl request submission (result_of due_at) scheduled ≡ none)
        × (store_answer fl request user submission question score quality s
            ≡ (ok (result_of due_at), record s { current = stored_db scheduled due_at }))
  unfolding flush_answer
  store_answer-ok r h =
      let snapshot = review_snapshot user.id question.id rated_db in
      elim (Result-cases (review fl snapshot quality answered_at)) [
        | inr (e, failed) ↦ absurd (ground (arith, store_answer_lem))
        | inl (scheduled, made) ↦ elim (Option-cases scheduled.due_at) [
          | inl absent ↦ absurd (ground (arith, store_answer_lem))
          | inr (due_at, due) ↦
              elim (Option-cases
                (flush_failure fl request submission (result_of due_at) scheduled)) [
                  | inr (e, failed) ↦ absurd (ground (arith, store_answer_lem))
                  | inl free ↦
                      (scheduled, due_at, made, due, free, ground (arith, store_answer_lem))
                ]
        ]
      ]

-- A new answer that is accepted has a profile and a question, and was evaluated.
pub new_answer-ok :
    (fl : Float) (request : Request) (user : User) (submission : AnswerSubmission) (s : Session fl)
    (r : AnswerResult fl)
    → (new_answer fl request user submission s).0 ≡ ok r
    → (question : Question) × (score : fl.F) × (quality : ℤ) × (find_question submission.question_id
          s.current
        ≡ some question)
      × (evaluate fl question submission ≡ ok (score, quality))
      × (new_answer fl request user submission s
          ≡ store_answer fl request user submission question score quality s)
unfolding new_answer
new_answer-ok fl request user submission s r h =
    elim (Option-cases (find_profile user.id submission.specialization_id s.current)) [
      | inl absent ↦ absurd (ground arith)
      | inr (profile, found) ↦
          elim (Option-cases (find_question submission.question_id s.current)) [
            | inl absent ↦ absurd (ground arith)
            | inr (question, asked) ↦ elim (Result-cases (evaluate fl question submission)) [
              | inr (e, failed) ↦ absurd (ground arith)
              | inl ((score, quality), scored) ↦
                  (question, score, quality, asked, scored, ground arith)
            ]
          ]
    ]
