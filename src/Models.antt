-- ===== src/Models.antt =====
-- backend/app/db/models: the tables. A record is a row, with the columns that the services read or
-- write; `Database` holds the rows of each table in the order of their insertion. A uuid and an
-- autoincremented key are numbers, a `datetime` a number of microseconds, a `date` one of days.
use interview_trainer.Prelude.{ℕ, ◌+◌, ◌*◌, Bool, List, Option, String}
use interview_trainer.Prelude.Int.{ℤ}
use interview_trainer.Float.{Float}
use interview_trainer.Enums.{QuestionType, QuestionSource, ReportStatus}

pub record User : Type 0 where
  pub id : ℕ
  pub email : String
  pub password_hash : String
  pub is_active : Bool
  pub is_premium : Bool

pub record UserSpecialization : Type 0 where
  pub user_id : ℕ
  pub specialization_id : String
  pub self_assessed_grade : ℕ
  pub target_grade : ℕ
  pub is_primary : Bool
  pub answers_count : ℕ

pub record Profession : Type 0 where
  pub id : String
  pub title : String
  pub sort_order : ℕ

pub record Specialization : Type 0 where
  pub id : String
  pub profession_id : String
  pub title : String
  pub is_active : Bool
  pub sort_order : ℕ

pub record Topic : Type 0 where
  pub id : ℕ
  pub specialization_id : String
  pub code : String
  pub title : String
  pub sort_order : ℕ

pub record Subtopic : Type 0 where
  pub id : ℕ
  pub topic_id : ℕ
  pub code : String
  pub title : String
  pub sort_order : ℕ

pub record QuestionOption : Type 0 where
  pub question_id : ℕ
  pub code : String
  pub text : String
  pub is_correct : Bool
  pub sort_order : ℕ

-- `specializations` are the ids linked by the table `question_specializations`, and `options` the
-- rows of `question_options` in their order: both are loaded with the question.
pub record Question : Type 0 where
  pub id : ℕ
  pub slug : String
  pub topic_code : String
  pub subtopic_code : Option String
  pub min_grade : ℕ
  pub peak_grade : ℕ
  pub max_grade : ℕ
  pub difficulty_rating : ℤ
  pub frequency : ℕ
  pub type : QuestionType
  pub title : String
  pub answer_short : String
  pub answer_detailed : String
  pub common_mistakes : List String
  pub follow_ups : List String
  pub company_tags : List String
  pub is_verified : Bool
  pub source : QuestionSource
  pub specializations : List String
  pub options : List QuestionOption
  pub updated_at : ℕ

abbrev pub difficulty_base : ℕ
difficulty_base = 1000

abbrev pub difficulty_per_grade : ℕ
difficulty_per_grade = 130

unfoldable pub difficulty_from_peak_grade : ℕ → ℕ
difficulty_from_peak_grade peak_grade = difficulty_base + peak_grade * difficulty_per_grade

pub record StudyPlanDay : Type 0 where
  pub day_index : ℕ
  pub day : ℕ
  pub topic_codes : List String
  pub new_questions : ℕ
  pub review_only : Bool

pub record StudyPlan : Type 0 where
  pub id : ℕ
  pub user_id : ℕ
  pub specialization_id : String
  pub interview_date : ℕ
  pub target_grade : ℕ
  pub daily_capacity : ℕ
  pub is_active : Bool
  pub created_at : ℕ
  pub days : List StudyPlanDay

pub record QuestionReport : Type 0 where
  pub id : ℕ
  pub user_id : ℕ
  pub specialization_id : String
  pub topic_code : Option String
  pub title : String
  pub title_fingerprint : String
  pub details : Option String
  pub company : Option String
  pub asked_grade : Option ℕ
  pub status : ReportStatus
  pub created_at : ℕ

module _ (fl : Float) where
  open fl use {F}

  pub record TopicWeight : Type 0 where
    pub topic_id : ℕ
    pub grade : ℕ
    pub weight : F

  pub record UserTopicRating : Type 0 where
    pub user_id : ℕ
    pub specialization_id : String
    pub topic_code : String
    pub rating : F
    pub answers_count : ℕ

  pub record UserAnswer : Type 0 where
    pub id : ℕ
    pub user_id : ℕ
    pub question_id : ℕ
    pub specialization_id : String
    pub topic_code : String
    pub submission_id : ℕ
    pub selected_options : List String
    pub free_text : Option String
    pub score : F
    pub quality : ℤ
    pub rating_before : F
    pub rating_after : F
    pub difficulty_before : ℤ
    pub difficulty_after : ℤ
    pub answered_at : ℕ

  pub record ReviewState : Type 0 where
    pub user_id : ℕ
    pub question_id : ℕ
    pub easiness_factor : F
    pub repetitions : ℕ
    pub interval_days : ℕ
    pub due_at : ℕ
    pub last_reviewed_at : ℕ

  pub record Database : Type 0 where
    pub users : List User
    pub user_specializations : List UserSpecialization
    pub user_topic_ratings : List UserTopicRating
    pub user_answers : List UserAnswer
    pub review_states : List ReviewState
    pub questions : List Question
    pub professions : List Profession
    pub specializations : List Specialization
    pub topics : List Topic
    pub subtopics : List Subtopic
    pub topic_weights : List TopicWeight
    pub study_plans : List StudyPlan
    pub question_reports : List QuestionReport
