-- ===== src/Sample.antt =====
-- A small database at which the theorems are applied.
use interview_trainer.Prelude.{ℕ, Bool, true, false, ◌==◌, nat_eq, [], ◌∷◌, none, String}
use interview_trainer.Prelude.Int.{pos}
use interview_trainer.Float.Fixed.{fixed}
use interview_trainer.Enums.{single_choice, seed}
use interview_trainer.Models.{
  Database, Question, QuestionOption, Specialization, Topic, TopicWeight, User, UserSpecialization,
}
use interview_trainer.Session.{Session}
use interview_trainer.Practice.Evaluate.{AnswerSubmission}
use interview_trainer.Practice.Submit.{Request}

abbrev pub ann : User
ann = record {
  id = 1;
  email = "ann@example.org";
  password_hash = "";
  is_active = true;
  is_premium = true;
}

abbrev pub ann_python : UserSpecialization
ann_python = record {
  user_id = 1;
  specialization_id = "python";
  self_assessed_grade = 2;
  target_grade = 3;
  is_primary = true;
  answers_count = 0;
}

abbrev pub option : String → Bool → ℕ → QuestionOption
option code is_correct order = record {
  question_id = 7;
  code = code;
  text = "";
  is_correct = is_correct;
  sort_order = order;
}

abbrev pub gil : Question
gil = record {
  id = 7;
  slug = "gil";
  topic_code = "core";
  subtopic_code = none;
  min_grade = 1;
  peak_grade = 3;
  max_grade = 5;
  difficulty_rating = pos 1390;
  frequency = 4;
  type = single_choice;
  title = "What is the GIL?";
  answer_short = "";
  answer_detailed = "";
  common_mistakes = [];
  follow_ups = [];
  company_tags = [];
  is_verified = true;
  source = seed;
  specializations = "python" ∷ [];
  options = option "a" true 0 ∷ option "b" false 1 ∷ [];
  updated_at = 0;
}

abbrev pub python : Specialization
python = record {
  id = "python";
  profession_id = "backend";
  title = "Python";
  is_active = true;
  sort_order = 0;
}

abbrev pub core : Topic
core = record {
  id = 3;
  specialization_id = "python";
  code = "core";
  title = "Core";
  sort_order = 0;
}

abbrev pub core_weight : TopicWeight fixed
core_weight = record { topic_id = 3; grade = 3; weight = pos 100 }

abbrev pub sample_db : Database fixed
sample_db = record {
  users = ann ∷ [];
  user_specializations = ann_python ∷ [];
  user_topic_ratings = [];
  user_answers = [];
  review_states = [];
  questions = gil ∷ [];
  professions = [];
  specializations = python ∷ [];
  topics = core ∷ [];
  subtopics = [];
  topic_weights = core_weight ∷ [];
  study_plans = [];
  question_reports = [];
}

abbrev pub sample_session : Session fixed
sample_session = record { committed = sample_db; current = sample_db }

-- Another transaction takes submission id 12.
abbrev pub sample_request : Request
sample_request = record {
  now = 9000000000000;
  uuid4 = λ n. n;
  raced = λ n. n == 12;
  raced_rating = λ n. false;
  refused = λ n. false;
  key_first = true;
}

abbrev pub answer : ℕ → String → AnswerSubmission
answer id code = record {
  submission_id = id;
  question_id = 7;
  specialization_id = "python";
  selected_options = code ∷ [];
  free_text = none;
  self_assessment = none;
  answered_at = none;
}
