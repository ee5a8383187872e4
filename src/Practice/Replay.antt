-- ===== src/Practice/Replay.antt =====
-- Sending the same answer again (`submit_answer`, `_replay`, backend/app/services/practice.py).
use interview_trainer.Prelude.{
  ℕ, ◌≡◌, refl, sym, ◌∙◌, ap, true, arith, none, some, Option-cases, inl, inr, ==_iff, ◌==◌, nat_eq,
  find-test,
}
use interview_trainer.Prelude.Int.{ℤ}
use interview_trainer.Exceptions.{Error, Result, ok, ok-injective}
use interview_trainer.Float.{Float}
use interview_trainer.Scheduler.{ReviewSnapshot}
use interview_trainer.Models.{Database, Question, ReviewState, User, UserAnswer}
use interview_trainer.Session.{Session}
use interview_trainer.Practice.Lookups.{find_submission, find_question, find_review, review_row}
use interview_trainer.Practice.Evaluate.{AnswerSubmission}
use interview_trainer.Practice.Submit.{
  Request, AnswerResult, new_answer, submit_answer, replay, measured,
}
use interview_trainer.Practice.Writes.{
  find_submission-record_answer, find_question-record_answer, find_review-record_answer,
  user_answers-get_or_create_rating, questions-get_or_create_rating,
}
use interview_trainer.Practice.Outcome.{
  rated_db, elo_of, stored_row, stored_db, result_of, store_answer-ok, new_answer-ok,
}

module _ {fl : Float} where
  -- What a database keeps of an accepted answer: its row, the question, and the review.
  pub record IsReceipt (user : User) (submission : AnswerSubmission) (r : AnswerResult fl)
      (db : Database fl) : Type 0 where
    pub answer : UserAnswer fl
    pub question : Question
    pub state : ReviewState fl
    pub answered : find_submission user.id submission.submission_id db ≡ some answer
    pub asked : find_question answer.question_id db ≡ some question
    pub reviewed : find_review answer.user_id answer.question_id db ≡ some state
    pub same_question : r.question ≡ question
    pub due : r.next_review_at ≡ state.due_at
    pub score : r.score ≡ answer.score
    pub quality : r.quality ≡ answer.quality
    pub rating_before : r.rating_before ≡ answer.rating_before
    pub rating_after : r.rating_after ≡ answer.rating_after
    pub difficulty_before : r.difficulty_before ≡ answer.difficulty_before
    pub difficulty_after : r.difficulty_after ≡ answer.difficulty_after

  id-find_question :
      (id : ℕ) (db : Database fl) (q : Question) → find_question id db ≡ some q → q.id ≡ id
  unfolding find_question
  id-find_question id db q h = (==_iff q.id id).0 (find-test (λ x. x.id == id) db.questions q h)

  -- From a receipt, the same submission id is answered by what was stored, and nothing changes.
  submit_answer-IsReceipt :
      (request : Request) (user : User) (submission again : AnswerSubmission) (r : AnswerResult fl)
      (s : Session fl)
      → again.submission_id ≡ submission.submission_id
      → IsReceipt user submission r s.current
      → submit_answer fl request user again s ≡ (ok (record r { is_duplicate = true }), s)
  unfolding submit_answer
  submit_answer-IsReceipt request user submission again r s same receipt = ground arith

  module _ (request : Request) (user : User) (submission : AnswerSubmission) (question : Question)
      (score : fl.F) (quality : ℤ) (s : Session fl) where
    abbrev row : UserAnswer fl
    row = stored_row fl request user submission question score quality s

    stored-IsReceipt :
        (scheduled : ReviewSnapshot fl) (due_at : ℕ)
        → find_submission user.id submission.submission_id s.current ≡ none
        → find_question question.id s.current ≡ some question
        → IsReceipt user submission
            (result_of fl request user submission question score quality s due_at)
            (stored_db fl request user submission question score quality s scheduled due_at)
    unfolding find_submission find_question
    stored-IsReceipt scheduled due_at absent asked =
        let elo = elo_of fl request user submission question score quality s in
        let db = rated_db fl request user submission question score quality s in
        let answers =
          user_answers-get_or_create_rating user.id submission.specialization_id question.topic_code
            s.current in
        let questions =
          questions-get_or_create_rating user.id submission.specialization_id question.topic_code
            s.current in
        record {
          answer = row;
          question = measured fl elo question;
          state = review_row user.id question.id request.now scheduled due_at;
          answered =
              find_submission-record_answer request.now row elo scheduled due_at db
                (rw answers absent);
          asked =
              find_question-record_answer request.now row elo scheduled due_at db question
                (rw questions asked);
          reviewed = find_review-record_answer request.now row elo scheduled due_at db;
          same_question = refl;
          due = refl;
          score = refl;
          quality = refl;
          rating_before = refl;
          rating_after = refl;
          difficulty_before = refl;
          difficulty_after = refl;
        }

  new-IsReceipt :
      (request : Request) (user : User) (submission : AnswerSubmission) (s : Session fl)
      (r : AnswerResult fl)
      → find_submission user.id submission.submission_id s.current ≡ none
      → (new_answer fl request user submission s).0 ≡ ok r
      → IsReceipt user submission r (new_answer fl request user submission s).1.current
  new-IsReceipt request user submission s r absent h =
      let (question, score, quality, asked, scored, same) =
        new_answer-ok fl request user submission s r h in
      let (scheduled, due_at, made, due, free, stored) =
        store_answer-ok fl request user submission question score quality s r (rw same at h) in
      let named : question.id ≡ submission.question_id =
        id-find_question submission.question_id s.current question asked in
      let receipt =
        stored-IsReceipt request user submission question score quality s scheduled due_at absent
          (rw named asked) in
      let whole = same ∙ stored in
      let result = result_of fl request user submission question score quality s due_at in
      let e : ok r ≡ ok result =
        sym h ∙ ap (λ (p : Result Error (AnswerResult fl) × Session fl). p.0) whole in
      let same_result : r ≡ result = ok-injective r result e in rw (whole, same_result) receipt

  pub submit_answer_new :
      (request : Request) (user : User) (submission : AnswerSubmission) (s : Session fl)
      → find_submission user.id submission.submission_id s.current ≡ none
      → submit_answer fl request user submission s ≡ new_answer fl request user submission s
  unfolding submit_answer new_answer
  submit_answer_new request user submission s absent = rw (absent, submit_answer)

  pub submit_answer_old :
      (request : Request) (user : User) (submission : AnswerSubmission) (answer : UserAnswer fl)
      (s : Session fl)
      → find_submission user.id submission.submission_id s.current ≡ some answer
      → submit_answer fl request user submission s ≡ replay fl answer s
  unfolding submit_answer replay
  submit_answer_old request user submission answer s found = rw (found, submit_answer)

  -- A replay is marked as a duplicate and leaves the session as it is.
  pub replay_lem :
      (answer : UserAnswer fl) (s : Session fl) (r : AnswerResult fl)
      → (replay fl answer s).0 ≡ ok r
      → replay fl answer s ≡ (ok (record r { is_duplicate = true }), s)
  unfolding replay
  replay_lem answer s r h = ground arith

  -- Once an answer is accepted, a submission with its id by the same user, whatever it holds and
  -- whenever it comes, returns in the session that the first one left the result of the first,
  -- marked as a duplicate, and changes nothing: no rating moves twice.
  pub submit_answer_again :
      (request later : Request) (user : User) (submission again : AnswerSubmission) (s : Session fl)
      (r : AnswerResult fl)
      → again.submission_id ≡ submission.submission_id
      → (submit_answer fl request user submission s).0 ≡ ok r
      → let s' = (submit_answer fl request user submission s).1 in
        submit_answer fl later user again s' ≡ (ok (record r { is_duplicate = true }), s')
  submit_answer_again request later user submission again s r same h =
      elim (Option-cases (find_submission user.id submission.submission_id s.current)) [
        | inl absent ↦
            let first = submit_answer_new request user submission s absent in
            let receipt = new-IsReceipt request user submission s r absent (rw first at h) in
            rw first (
              submit_answer-IsReceipt later user submission again r
                (new_answer fl request user submission s).1 same receipt)
        | inr (answer, found) ↦
            let first = submit_answer_old request user submission answer s found in
            let done = replay_lem answer s r (rw first at h) in
            rw (first, done) (submit_answer_old later user again answer s (rw same found) ∙ done)
      ]
