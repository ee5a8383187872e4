-- ===== src/Practice/Lookups.antt =====
-- The helpers of `PracticeService` that read and write single rows
-- (backend/app/services/practice.py, from `_require_profile` on).
use interview_trainer.Prelude.{
  ℕ, ◌-◌, Bool, ◌&&◌, List, [], ◌∷◌, ◌++◌, Option, none, some, String, ltb, if◌then◌else◌, ◌==◌,
  nat_eq, string_eq, find, keep, map, any,
}
use interview_trainer.Float.{Float}
use interview_trainer.Scheduler.{ReviewSnapshot, new_snapshot, days}
use interview_trainer.Rating.{start_rating}
use interview_trainer.Models.{
  Database, Question, ReviewState, Topic, Subtopic, TopicWeight, UserAnswer, UserSpecialization,
  UserTopicRating,
}
use interview_trainer.Session.{update}

-- `MAX_BACKDATING`
abbrev pub max_backdating : ℕ
max_backdating = days 30

-- A time without a zone is read as UTC, as all times are here.
unfoldable pub resolve_answered_at : ℕ → Option ℕ → ℕ
resolve_answered_at now none = now
resolve_answered_at now (some claimed) =
    if ltb now claimed
    then now
    else let earliest = now - max_backdating in if ltb claimed earliest then earliest else claimed

-- `feed_grade`
unfoldable pub feed_grade : UserSpecialization → ℕ
feed_grade profile = profile.target_grade

unfoldable pub is_profile : ℕ → String → UserSpecialization → Bool
is_profile user specialization p = p.user_id == user && p.specialization_id == specialization

module _ {fl : Float} where
  open fl use {F}

  unfoldable pub find_profile : ℕ → String → Database fl → Option UserSpecialization
  unfolding is_profile find
  find_profile user specialization db =
      find (is_profile user specialization) db.user_specializations

  unfoldable pub find_question : ℕ → Database fl → Option Question
  unfolding find
  find_question question db = find (λ q. q.id == question) db.questions

  unfoldable pub is_submission : ℕ → ℕ → UserAnswer fl → Bool
  is_submission user submission a = a.user_id == user && a.submission_id == submission

  unfoldable pub find_submission : ℕ → ℕ → Database fl → Option (UserAnswer fl)
  unfolding is_submission find
  find_submission user submission db = find (is_submission user submission) db.user_answers

  unfoldable pub is_rating : ℕ → String → String → UserTopicRating fl → Bool
  is_rating user specialization topic r =
      r.user_id == user && (r.specialization_id == specialization && r.topic_code == topic)

  unfoldable pub find_rating : ℕ → String → String → Database fl → Option (UserTopicRating fl)
  unfolding is_rating find
  find_rating user specialization topic db =
      find (is_rating user specialization topic) db.user_topic_ratings

  abbrev pub new_rating : ℕ → String → String → UserTopicRating fl
  new_rating user specialization topic = record {
    user_id = user;
    specialization_id = specialization;
    topic_code = topic;
    rating = start_rating fl;
    answers_count = 0;
  }

  -- `_get_or_create_rating`: the row, and the database that has it
  unfoldable pub get_or_create_rating :
      ℕ → String → String → Database fl → UserTopicRating fl × Database fl
  unfolding find_rating
  get_or_create_rating user specialization topic db =
      elim (find_rating user specialization topic db) [
        | some row ↦ (row, db)
        | none ↦
            let created = new_rating user specialization topic in
            (created, record db { user_topic_ratings = db.user_topic_ratings ++ created ∷ [] })
      ]

  unfoldable pub is_review : ℕ → ℕ → ReviewState fl → Bool
  is_review user question r = r.user_id == user && r.question_id == question

  unfoldable pub find_review : ℕ → ℕ → Database fl → Option (ReviewState fl)
  unfolding is_review find
  find_review user question db = find (is_review user question) db.review_states

  unfoldable pub review_snapshot : ℕ → ℕ → Database fl → ReviewSnapshot fl
  unfolding find_review
  review_snapshot user question db = elim (find_review user question db) [
    | none ↦ new_snapshot fl
    | some state ↦ record {
      easiness_factor = state.easiness_factor;
      repetitions = state.repetitions;
      interval_days = state.interval_days;
      due_at = some state.due_at;
    }
  ]

  abbrev pub review_row : ℕ → ℕ → ℕ → ReviewSnapshot fl → ℕ → ReviewState fl
  review_row user question now snapshot due_at = record {
    user_id = user;
    question_id = question;
    easiness_factor = snapshot.easiness_factor;
    repetitions = snapshot.repetitions;
    interval_days = snapshot.interval_days;
    due_at = due_at;
    last_reviewed_at = now;
  }

  -- `_save_review_state`, for a snapshot that is due at `due_at`; whether the columns hold its values
  -- is seen at the flush
  unfoldable pub save_review_state : ℕ → ℕ → ℕ → ReviewSnapshot fl → ℕ → Database fl → Database fl
  unfolding find_review update
  save_review_state user question now snapshot due_at db =
      let row = review_row user question now snapshot due_at in
      record db {
        review_states = elim (find_review user question db) [
          | none ↦ db.review_states ++ row ∷ []
          | some _ ↦ update (is_review user question) (λ _. row) db.review_states
        ];
      }

  -- the join of topics with their weights for a grade
  unfoldable pub join_weights : ℕ → List (TopicWeight fl) → List Topic → List (String × F)
  unfolding keep
  join_weights grade weights [] = []
  join_weights grade weights (t ∷ ts) =
      map (λ (w : TopicWeight fl). (t.code, w.weight))
        (keep (λ w. w.topic_id == t.id && w.grade == grade) weights)
      ++ join_weights grade weights ts

  -- `{code: weight …}` of the topics of a specialization that have a weight for the grade
  unfoldable pub topic_weights : String → ℕ → Database fl → List (String × F)
  unfolding join_weights
  topic_weights specialization grade db =
      join_weights grade db.topic_weights
        (keep (λ t. t.specialization_id == specialization) db.topics)

  -- `{code: title …}`
  unfoldable pub topic_titles : String → Database fl → List (String × String)
  unfolding keep
  topic_titles specialization db =
      map (λ (t : Topic). (t.code, t.title))
        (keep (λ t. t.specialization_id == specialization) db.topics)

  unfoldable pub subtopic_titles : String → Database fl → List (String × String)
  unfolding keep any
  subtopic_titles specialization db =
      map (λ (s : Subtopic). (s.code, s.title))
        (keep
          (λ s.
            any (λ (t : Topic). t.id == s.topic_id && t.specialization_id == specialization)
              db.topics)
          db.subtopics)

  -- `{code: rating …}`
  unfoldable pub topic_ratings : ℕ → String → Database fl → List (String × F)
  unfolding keep
  topic_ratings user specialization db =
      map (λ (r : UserTopicRating fl). (r.topic_code, r.rating))
        (keep (λ r. r.user_id == user && r.specialization_id == specialization)
          db.user_topic_ratings)
