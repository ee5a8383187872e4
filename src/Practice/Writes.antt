-- ===== src/Practice/Writes.antt =====
-- What the writes of an accepted answer leave in the tables
-- (`submit_answer` and its helpers, backend/app/services/practice.py).
use interview_trainer.Prelude.{
  ℕ, ◌≡◌, refl, sym, ◌∙◌, true, Bool, arith, none, some, String, find, Option-cases, inl, inr,
  ==_self, ◌==◌, nat_eq, string_eq, find-append_none, find-test,
}
use interview_trainer.Float.{Float}
use interview_trainer.Scheduler.{ReviewSnapshot}
use interview_trainer.Rating.{EloUpdate}
use interview_trainer.Models.{Database, Question, ReviewState, UserAnswer}
use interview_trainer.Session.Laws.{find-update}
use interview_trainer.Practice.Lookups.{
  get_or_create_rating, find_submission, is_submission, find_question, find_review, is_review,
  review_row, save_review_state,
}
use interview_trainer.Practice.Submit.{record_answer, count_answer, measured}

module _ {fl : Float} where
  is_review_row :
      (user question now due_at : ℕ) (snapshot : ReviewSnapshot fl)
      → is_review user question (review_row user question now snapshot due_at) ≡ true
  unfolding is_review
  is_review_row user question now due_at snapshot = ground (arith, ==_self user, ==_self question)

  pub find_review-save_review_state :
      (user question now due_at : ℕ) (snapshot : ReviewSnapshot fl) (db : Database fl)
      → find_review user question (save_review_state user question now snapshot due_at db)
        ≡ some (review_row user question now snapshot due_at)
  unfolding save_review_state
  find_review-save_review_state user question now due_at snapshot db =
      let row = review_row user question now snapshot due_at in
      let p : ReviewState fl → Bool = is_review user question in
      let same = is_review_row user question now due_at snapshot in
      elim (Option-cases (find p db.review_states)) [
        | inl absent ↦
            rw (absent, save_review_state) (find-append_none p db.review_states row absent same)
        | inr (old, present) ↦
            rw (present, save_review_state)
              (find-update p p (λ _. row) db.review_states (λ x h. same ∙ sym h) old present
                ∙ rw (find-test p db.review_states old present))
      ]

  module _ (now : ℕ) (answer : UserAnswer fl) (elo : EloUpdate fl) (scheduled : ReviewSnapshot fl)
      (due_at : ℕ) (db : Database fl) where
    pub find_submission-record_answer :
        find_submission answer.user_id answer.submission_id db ≡ none
        → find_submission answer.user_id answer.submission_id
            (record_answer fl now answer elo scheduled due_at db)
          ≡ some answer
    unfolding record_answer find_submission
    find_submission-record_answer absent =
        find-append_none (is_submission answer.user_id answer.submission_id) db.user_answers answer
          absent (ground (arith, ==_self answer.user_id, ==_self answer.submission_id))

    pub find_question-record_answer :
        (q : Question)
        → find_question answer.question_id db ≡ some q
        → find_question answer.question_id (record_answer fl now answer elo scheduled due_at db)
          ≡ some (measured fl elo q)
    unfolding record_answer find_question
    find_question-record_answer q found =
        let p : Question → Bool = λ x. x.id == answer.question_id in
        find-update p p (measured fl elo) db.questions (λ x h. refl) q found
        ∙ rw (find-test p db.questions q found)

    pub find_review-record_answer :
        find_review answer.user_id answer.question_id
          (record_answer fl now answer elo scheduled due_at db)
        ≡ some (review_row answer.user_id answer.question_id now scheduled due_at)
    unfolding record_answer
    find_review-record_answer =
        find_review-save_review_state answer.user_id answer.question_id now due_at scheduled
          (count_answer fl answer elo db)

  -- A rating's row that is created leaves the other tables alone.
  pub user_answers-get_or_create_rating :
      (user : ℕ) (specialization topic : String) (db : Database fl)
      → (get_or_create_rating user specialization topic db).1.user_answers ≡ db.user_answers
  unfolding get_or_create_rating
  user_answers-get_or_create_rating user specialization topic db = ground arith

  pub questions-get_or_create_rating :
      (user : ℕ) (specialization topic : String) (db : Database fl)
      → (get_or_create_rating user specialization topic db).1.questions ≡ db.questions
  unfolding get_or_create_rating
  questions-get_or_create_rating user specialization topic db = ground arith
