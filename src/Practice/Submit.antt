-- ===== src/Practice/Submit.antt =====
-- `submit_answer` and `_replay` (backend/app/services/practice.py).
use interview_trainer.Prelude.{
  ℕ, ◌+◌, Bool, true, false, [], ◌∷◌, ◌++◌, Option, none, some, String, if◌then◌else◌, ◌==◌, nat_eq,
  not, ◌&&◌, ◌||◌,
}
use interview_trainer.Prelude.Int.{ℤ, pos, negsuc, leb_ℤ}
use interview_trainer.Exceptions.{
  Error, not_found, conflict, value_error, integrity_error, database_error, require,
}
use interview_trainer.Float.{Float}
use interview_trainer.Scheduler.{ReviewSnapshot, review}
use interview_trainer.Rating.{EloUpdate, apply_elo, grade_from_rating}
use interview_trainer.Models.{
  Database, Question, ReviewState, User, UserAnswer, UserSpecialization, UserTopicRating,
}
use interview_trainer.Session.{
  Action, update, pure, raise, lift, query, write, rollback, ◌>>=◌, ◌>>◌,
}
use interview_trainer.Practice.Lookups.{
  resolve_answered_at, is_profile, find_profile, find_question, find_submission, is_rating,
  find_rating, get_or_create_rating, find_review, review_snapshot, save_review_state,
}
use interview_trainer.Practice.Evaluate.{AnswerSubmission, evaluate}

-- What a request takes from outside: the moment; a fresh uuid for the answer to each submission;
-- which submission ids another transaction has taken since this one read the answers, or for which
-- another key of the answer has become invalid; for which of them another transaction has added the
-- rating's row since this one looked for it; which of them the database refuses for a reason that
-- the model has not (a text with a NUL, a lost connection); and whether a flush that breaks a key
-- and has a value out of range meets the key first, which depends on the order of SQLAlchemy.
pub record Request : Type 0 where
  pub now : ℕ
  pub uuid4 : ℕ → ℕ
  pub raced : ℕ → Bool
  pub raced_rating : ℕ → Bool
  pub refused : ℕ → Bool
  pub key_first : Bool

-- the range of a column of type `SmallInteger`
unfoldable pub fits_smallint : ℤ → Bool
fits_smallint z = leb_ℤ (negsuc 32767) z && leb_ℤ z (pos 32767)

module _ (fl : Float) where
  open fl use {F, sub}

  pub record AnswerResult : Type 0 where
    pub question : Question
    pub score : F
    pub quality : ℤ
    pub rating_before : F
    pub rating_after : F
    pub difficulty_before : ℤ
    pub difficulty_after : ℤ
    pub next_review_at : ℕ
    pub is_duplicate : Bool

  unfoldable pub rating_delta : AnswerResult → F
  rating_delta r = sub r.rating_after r.rating_before

  unfoldable pub grade : AnswerResult → ℕ
  grade r = grade_from_rating fl r.rating_after

  -- `state.due_at if state else answer.answered_at`
  unfoldable pub due_or : ℕ → Option (ReviewState fl) → ℕ
  due_or answered_at none = answered_at
  due_or answered_at (some state) = state.due_at

  -- `_replay`
  unfoldable pub replay : UserAnswer fl → Action fl AnswerResult
  unfolding ◌>>=◌ find_question find_review due_or
  replay answer = do
    row ← query (find_question answer.question_id)
    question ← lift (require row not_found)
    state ← query (find_review answer.user_id answer.question_id)
    pure (record {
      question = question;
      score = answer.score;
      quality = answer.quality;
      rating_before = answer.rating_before;
      rating_after = answer.rating_after;
      difficulty_before = answer.difficulty_before;
      difficulty_after = answer.difficulty_after;
      next_review_at = due_or answer.answered_at state;
      is_duplicate = true;
    })

  abbrev pub rated : EloUpdate fl → UserTopicRating fl → UserTopicRating fl
  rated elo r = record r { rating = elo.user_rating_after; answers_count = r.answers_count + 1 }

  abbrev pub measured : EloUpdate fl → Question → Question
  measured elo q = record q { difficulty_rating = elo.question_rating_after }

  abbrev pub counted : UserSpecialization → UserSpecialization
  counted p = record p { answers_count = p.answers_count + 1 }

  -- The row of an answer, and the counts and ratings that it moves.
  unfoldable pub count_answer : UserAnswer fl → EloUpdate fl → Database fl → Database fl
  unfolding update is_profile is_rating
  count_answer answer elo db = record db {
    user_answers = db.user_answers ++ answer ∷ [];
    user_topic_ratings =
        update (is_rating answer.user_id answer.specialization_id answer.topic_code) (rated elo)
          db.user_topic_ratings;
    questions = update (λ q. q.id == answer.question_id) (measured elo) db.questions;
    user_specializations =
        update (is_profile answer.user_id answer.specialization_id) counted db.user_specializations;
  }

  -- The writes of `submit_answer` for an answer, in the source's order.
  unfoldable pub record_answer :
      ℕ → UserAnswer fl → EloUpdate fl → ReviewSnapshot fl → ℕ → Database fl → Database fl
  unfolding save_review_state count_answer
  record_answer now answer elo scheduled due_at db =
      save_review_state answer.user_id answer.question_id now scheduled due_at
        (count_answer answer elo db)

  unfoldable pub is_unrated : ℕ → String → String → Database fl → Bool
  unfolding find_rating
  is_unrated user specialization topic db = elim (find_rating user specialization topic db) [
    | none ↦ true
    | some _ ↦ false
  ]

  unfoldable pub read_rating : ℕ → String → String → Action fl (UserTopicRating fl)
  unfolding ◌>>=◌ get_or_create_rating
  read_rating user specialization topic = do
    row ← query (λ db. (get_or_create_rating user specialization topic db).0)
    write (λ db. (get_or_create_rating user specialization topic db).1)
    pure row

  -- `_get_or_create_rating`, which flushes the row that it adds; no one catches the IntegrityError
  -- of this flush, which ends the transaction
  unfoldable pub load_rating : Request → ℕ → ℕ → String → String → Action fl (UserTopicRating fl)
  unfolding ◌>>=◌ read_rating is_unrated
  load_rating request submission user specialization topic = do
    unrated ← query (is_unrated user specialization topic)
    elim (unrated && request.raced_rating submission) [
      | true ↦ do rollback; raise integrity_error
      | false ↦ read_rating user specialization topic
    ]

  -- the new `UserAnswer`
  abbrev pub answer_row :
      Request → User → AnswerSubmission → Question → F → ℤ → EloUpdate fl → ℕ → UserAnswer fl
  answer_row request user submission question score quality elo answered_at = record {
    id = request.uuid4 submission.submission_id;
    user_id = user.id;
    question_id = question.id;
    specialization_id = submission.specialization_id;
    topic_code = question.topic_code;
    submission_id = submission.submission_id;
    selected_options = submission.selected_options;
    free_text = submission.free_text;
    score = score;
    quality = quality;
    rating_before = elo.user_rating_before;
    rating_after = elo.user_rating_after;
    difficulty_before = elo.question_rating_before;
    difficulty_after = elo.question_rating_after;
    answered_at = answered_at;
  }

  -- The values of the `SmallInteger` columns that the answer writes.
  unfoldable pub fits_columns : AnswerResult → ReviewSnapshot fl → Bool
  unfolding fits_smallint
  fits_columns result scheduled =
      fits_smallint result.difficulty_after
      && (fits_smallint (pos scheduled.repetitions) && fits_smallint (pos scheduled.interval_days))

  -- How the last flush fails: an IntegrityError is turned into a conflict, any other error of the
  -- database passes.
  unfoldable pub flush_failure :
      Request → AnswerSubmission → AnswerResult → ReviewSnapshot fl → Option Error
  unfolding fits_columns
  flush_failure request submission result scheduled =
      let accepted =
        fits_columns result scheduled && not (request.refused submission.submission_id) in
      if request.raced submission.submission_id && (accepted || request.key_first)
      then some conflict
      else if accepted
      then none
      else some database_error

  -- The last flush. When it fails, the transaction is rolled back.
  unfoldable pub flush_answer :
      Request → AnswerSubmission → AnswerResult → ReviewSnapshot fl → Action fl AnswerResult
  unfolding ◌>>=◌ flush_failure
  flush_answer request submission result scheduled =
      elim (flush_failure request submission result scheduled) [
        | none ↦ pure result
        | some e ↦ do rollback; raise e
      ]

  -- `submit_answer` for a question and the score and quality of the answer
  unfoldable pub store_answer :
      Request → User → AnswerSubmission → Question → F → ℤ → Action fl AnswerResult
  unfolding ◌>>=◌ load_rating review_snapshot record_answer flush_answer
  store_answer request user submission question score quality = do
    topic_rating ←
        load_rating request submission.submission_id user.id submission.specialization_id
          question.topic_code
    let elo =
        apply_elo fl topic_rating.rating question.difficulty_rating score topic_rating.answers_count
    let answered_at = resolve_answered_at request.now submission.answered_at
    snapshot ← query (review_snapshot user.id question.id)
    scheduled ← lift (review fl snapshot quality answered_at)
    due_at ← lift (require scheduled.due_at value_error)
    let answer = answer_row request user submission question score quality elo answered_at
    write (record_answer request.now answer elo scheduled due_at)
    flush_answer request submission
        (record {
          question = measured elo question;
          score = score;
          quality = quality;
          rating_before = elo.user_rating_before;
          rating_after = elo.user_rating_after;
          difficulty_before = elo.question_rating_before;
          difficulty_after = elo.question_rating_after;
          next_review_at = due_at;
          is_duplicate = false;
        })
        scheduled

  unfoldable pub new_answer : Request → User → AnswerSubmission → Action fl AnswerResult
  unfolding ◌>>=◌ find_profile find_question store_answer
  new_answer request user submission = do
    found ← query (find_profile user.id submission.specialization_id)
    profile ← lift (require found not_found)
    row ← query (find_question submission.question_id)
    question ← lift (require row not_found)
    (score, quality) ← lift (evaluate fl question submission)
    store_answer request user submission question score quality

  unfoldable pub submit_answer : Request → User → AnswerSubmission → Action fl AnswerResult
  unfolding ◌>>=◌ find_submission replay new_answer
  submit_answer request user submission = do
    existing ← query (find_submission user.id submission.submission_id)
    elim existing [ some answer ↦ replay answer | none ↦ new_answer request user submission ]
