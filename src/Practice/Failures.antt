-- ===== src/Practice/Failures.antt =====
-- What a refused answer leaves behind (`submit_answer`, backend/app/services/practice.py).
use interview_trainer.Prelude.{
  ℕ, ◌≡◌, true, arith, List, String, Option-cases, Bool-cases, some, inl, inr, ◌⊎◌,
}
use interview_trainer.Prelude.Int.{ℤ}
use interview_trainer.Exceptions.{
  Error, Result, err, conflict, value_error, overflow_error, integrity_error, database_error,
  not_found, invalid_input, Result-cases,
}
use interview_trainer.Float.{Float}
use interview_trainer.Scheduler.{ReviewSnapshot, review}
use interview_trainer.Models.{Database, Question, User, UserAnswer, UserTopicRating}
use interview_trainer.Session.{Session}
use interview_trainer.Practice.Lookups.{
  review_snapshot, find_profile, find_question, find_submission, get_or_create_rating,
}
use interview_trainer.Practice.Evaluate.{AnswerSubmission, evaluate}
use interview_trainer.Practice.Submit.{
  Request, AnswerResult, flush_failure, flush_answer, store_answer, new_answer, submit_answer,
  replay,
}
use interview_trainer.Practice.Outcome.{
  rated_db, rating_lost, result_of, answered_at, store_answer_lem,
}
use interview_trainer.Practice.Replay.{submit_answer_new, submit_answer_old}

-- Python's own errors
abbrev pub IsPythonError : Error → Type 0
IsPythonError e = (e ≡ value_error) ⊎ (e ≡ overflow_error)

review-err :
    (fl : Float) (state : ReviewSnapshot fl) (quality : ℤ) (now : ℕ) (e : Error)
    → review fl state quality now ≡ err e
    → IsPythonError e
unfolding review
review-err fl state quality now e h = ground arith

evaluate-err :
    (fl : Float) (q : Question) (submission : AnswerSubmission) (e : Error)
    → evaluate fl q submission ≡ err e
    → e ≡ invalid_input
unfolding evaluate
evaluate-err fl q submission e h = ground arith

module _ {fl : Float} where
  -- A flush fails in one of two ways: with a conflict, if a key was invalid.
  flush_failure-error :
      (request : Request) (submission : AnswerSubmission) (r : AnswerResult fl)
      (scheduled : ReviewSnapshot fl) (e : Error)
      → flush_failure fl request submission r scheduled ≡ some e
      → (e ≡ database_error) ⊎ (e ≡ conflict) × (request.raced submission.submission_id ≡ true)
  unfolding flush_failure
  flush_failure-error request submission r scheduled e h =
      elim (Bool-cases (request.raced submission.submission_id)) [
        | inl taken ↦ ground arith
        | inr free ↦ ground arith
      ]

  get_or_create_rating-rows :
      (user : ℕ) (specialization topic : String) (db : Database fl)
      → (rows : List (UserTopicRating fl)) × ((get_or_create_rating user specialization topic db).1
          ≡ record db { user_topic_ratings = rows })
  unfolding get_or_create_rating
  get_or_create_rating-rows user specialization topic db =
      ((get_or_create_rating user specialization topic db).1.user_topic_ratings, ground arith)

  -- How the action that takes an answer, and failed with `e` in `s`, went:
  --   what it needs is not there, or the answer is invalid: nothing changed;
  --   the scheduler raised: nothing is written but, at most, the row of the rating;
  --   a flush failed, by a rating's row that was added meanwhile, by a key of the answer that is
  --   invalid, or otherwise: the transaction was rolled back.
  abbrev pub Failed :
      Request
      → AnswerSubmission
      → Error
      → Session fl
      → Result Error (AnswerResult fl) × Session fl
      → Type 0
  Failed request submission e s outcome =
      ((e ≡ not_found) ⊎ (e ≡ invalid_input)) × (outcome ≡ (err e, s))
      ⊎ IsPythonError e
        × ((rows : List (UserTopicRating fl)) × (outcome
              ≡ (err e, record s { current = record s.current { user_topic_ratings = rows } })))
      ⊎ ((e ≡ integrity_error) × (request.raced_rating submission.submission_id ≡ true)
          ⊎ (e ≡ database_error)
          ⊎ (e ≡ conflict) × (request.raced submission.submission_id ≡ true))
        × (outcome ≡ (err e, record s { current = s.committed }))

  store_answer-Failed :
      (request : Request) (user : User) (submission : AnswerSubmission) (question : Question)
      (score : fl.F) (quality : ℤ) (s : Session fl) (e : Error)
      → (store_answer fl request user submission question score quality s).0 ≡ err e
      → Failed request submission e s
          (store_answer fl request user submission question score quality s)
  unfolding flush_answer
  store_answer-Failed request user submission question score quality s e h =
      let run = store_answer_lem fl request user submission question score quality s in
      let db = rated_db fl request user submission question score quality s in
      let snapshot = review_snapshot user.id question.id db in
      let at = answered_at fl request user submission question score quality s in
      let (rows, same) =
        get_or_create_rating-rows user.id submission.specialization_id question.topic_code
          s.current in
      elim (Bool-cases (rating_lost fl request user submission question score quality s)) [
        | inl lost ↦ inr (inr (inl (ground (arith, run), ground arith), ground (arith, run)))
        | inr kept ↦ elim (Result-cases (review fl snapshot quality at)) [
          | inr (e', failed) ↦
              let own : e ≡ e' = ground (arith, run) in
              inr (
                inl (
                  rw own (review-err fl snapshot quality at e' failed),
                  (rows, ground (arith, run, same)),
                ))
          | inl (scheduled, made) ↦ elim (Option-cases scheduled.due_at) [
            | inl absent ↦ inr (inl (inl (ground (arith, run)), (rows, ground (arith, run, same))))
            | inr (due_at, due) ↦
                let r = result_of fl request user submission question score quality s due_at in
                elim (Option-cases (flush_failure fl request submission r scheduled)) [
                  | inl free ↦ absurd (ground (arith, run))
                  | inr (e', failed) ↦
                      let own : e ≡ e' = ground (arith, run) in
                      inr (
                        inr (
                          rw own
                              (inr (flush_failure-error request submission r scheduled e' failed)),
                          ground (arith, run),
                        ))
                ]
          ]
        ]
      ]

  new_answer-Failed :
      (request : Request) (user : User) (submission : AnswerSubmission) (s : Session fl) (e : Error)
      → (new_answer fl request user submission s).0 ≡ err e
      → Failed request submission e s (new_answer fl request user submission s)
  unfolding new_answer
  new_answer-Failed request user submission s e h =
      elim (Option-cases (find_profile user.id submission.specialization_id s.current)) [
        | inl absent ↦ inl (inl (ground arith), ground arith)
        | inr (profile, found) ↦
            elim (Option-cases (find_question submission.question_id s.current)) [
              | inl absent ↦ inl (inl (ground arith), ground arith)
              | inr (question, asked) ↦ elim (Result-cases (evaluate fl question submission)) [
                | inr (e', failed) ↦
                    let invalid = evaluate-err fl question submission e' failed in
                    inl (inr (ground arith), ground arith)
                | inl ((score, quality), scored) ↦
                    let same : new_answer fl request user submission s
                        ≡ store_answer fl request user submission question score quality s =
                      ground arith in
                    rw same (
                      store_answer-Failed request user submission question score quality s e
                        (rw same at h))
              ]
            ]
      ]

  replay-Failed :
      (answer : UserAnswer fl) (s : Session fl) (e : Error)
      → (replay fl answer s).0 ≡ err e
      → (e ≡ not_found) × (replay fl answer s ≡ (err e, s))
  unfolding replay
  replay-Failed answer s e h = (ground arith, ground arith)

  -- An answer that is refused with `e`, whatever the request, the submission and the session:
  --   `e` is a NotFoundError or an InvalidInputError, and nothing changes;
  --   or it is a ValueError or an OverflowError of the scheduler, and of all tables only the one of
  --   the topic ratings may have changed, nothing being committed;
  --   or a flush failed and the transaction is rolled back to what was committed: with an
  --   IntegrityError, only if another transaction added the rating's row; with a ConflictError, only
  --   if one took the submission id or another key of the answer became invalid; or with another
  --   error of the database.
  pub submit_answer-Failed :
      (request : Request) (user : User) (submission : AnswerSubmission) (s : Session fl) (e : Error)
      → (submit_answer fl request user submission s).0 ≡ err e
      → Failed request submission e s (submit_answer fl request user submission s)
  submit_answer-Failed request user submission s e h =
      elim (Option-cases (find_submission user.id submission.submission_id s.current)) [
        | inl absent ↦
            let first = submit_answer_new request user submission s absent in
            rw first (new_answer-Failed request user submission s e (rw first at h))
        | inr (answer, found) ↦
            let first = submit_answer_old request user submission answer s found in
            let (missing, same) = replay-Failed answer s e (rw first at h) in
            rw first (inl (inl missing, same))
      ]

  -- After a conflict the session holds what was committed, and no more.
  pub submit_answer_conflict :
      (request : Request) (user : User) (submission : AnswerSubmission) (s : Session fl)
      → (submit_answer fl request user submission s).0 ≡ err conflict
      → submit_answer fl request user submission s
        ≡ (err conflict, record s { current = s.committed })
  submit_answer_conflict request user submission s h =
      elim (submit_answer-Failed request user submission s conflict h) [
        | inl (refused, same) ↦ absurd (ground arith)
        | inr rest ↦ elim rest [
          | inl (raised, written) ↦ absurd (ground arith)
          | inr (clash, back) ↦ back
        ]
      ]
