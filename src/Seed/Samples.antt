-- ===== src/Seed/Samples.antt =====
-- The checks of the files at concrete inputs.
use interview_trainer.Prelude.{◌≡◌, refl, [], ◌∷◌, none, String, string_eq, true, false}
use interview_trainer.Float.Fixed.{fixed}
use interview_trainer.Enums.{single_choice, seed}
use interview_trainer.Exceptions.{ok}
use interview_trainer.Seed.{
  reject_duplicates, sorted, known_specializations, ProfessionIn, TaxonomyFile,
}
use interview_trainer.Seed.Unique.{reject_duplicates-known_specializations}
use interview_trainer.Seed.Questions.{QuestionIn, Library, check_question}
use interview_trainer.Seed.Accepted.{IsAccepted, check_question-IsAccepted}

abbrev profession : String → ProfessionIn
profession id = record {
  id = id;
  title = id;
  specializations = record { id = "python"; title = "Python"; is_active = false } ∷ [];
}

-- Two professions declare the same specialization.
abbrev repeated : TaxonomyFile fixed
repeated = record {
  version = 1;
  professions = profession "backend" ∷ profession "data" ∷ [];
  topics = [];
}

reject_duplicates-known_specializations_example :
    reject_duplicates (sorted (known_specializations fixed repeated)) ≡ ok tt
reject_duplicates-known_specializations_example =
    reject_duplicates-known_specializations fixed repeated

abbrev library : Library
library = record { has_heading = λ level text. false; uuid5 = λ slug. 7 }

abbrev gil_in : QuestionIn
gil_in = record {
  slug = "gil";
  specializations = "python" ∷ [];
  topic = "core";
  subtopic = none;
  min_grade = "junior";
  peak_grade = "middle";
  max_grade = "senior";
  frequency = 4;
  type = single_choice;
  title = "What is the GIL?";
  options =
      record { code = "a"; text = "A lock"; is_correct = true }
      ∷ record { code = "b"; text = "A list"; is_correct = false }
      ∷ [];
  answer_short = "A lock";
  answer_detailed = "A lock";
  common_mistakes = [];
  follow_ups = [];
  company_tags = [];
  source = seed;
  difficulty_rating = none;
}

gil_in_passes : check_question library gil_in ≡ ok tt
unfolding check_question
gil_in_passes = refl

check_question-IsAccepted_example : IsAccepted gil_in
check_question-IsAccepted_example = check_question-IsAccepted library gil_in gil_in_passes
