-- ===== src/Questions/Samples.antt =====
-- Questions of a file at concrete inputs.
use interview_trainer.Prelude.{
  ℕ, ◌≡◌, ◌↔◌, refl, Bool, true, false, List, [], ◌∷◌, none, some, String, string_eq, nat_eq, ◌==◌,
  all, contains, distinct, if◌then◌else◌,
}
use interview_trainer.Prelude.Int.{pos}
use interview_trainer.Float.Fixed.{fixed}
use interview_trainer.Enums.{single_choice, crowdsourced, seed}
use interview_trainer.Exceptions.{ok, err}
use interview_trainer.Models.{Database, Question, QuestionOption}
use interview_trainer.Seed.Questions.{OptionIn, QuestionIn, Library}
use interview_trainer.Rows.{missing_specializations}
use interview_trainer.Rows.Content.{Holds}
use interview_trainer.TaxonomyRows.{enumerate}
use interview_trainer.Questions.{sync_links, sync_questions, known_ids}
use interview_trainer.QuestionRows.{
  QuestionSyncReport, new_question_report, apply_fields, blank_question, sync_options,
}
use interview_trainer.Questions.Equality.{source_eq}
use interview_trainer.Questions.Stored.{verified_ids, not_seed}
use interview_trainer.Questions.Kept.{sync_questions-kept}
use interview_trainer.Questions.Fields.{apply_fields_again}
use interview_trainer.Questions.Links.{SameOption, sync_options_again, sync_links_lem}
use interview_trainer.Sample.{gil, sample_db}

abbrev library : Library
library = record {
  has_heading = λ level text. true;
  uuid5 = λ slug. if slug == "gil" then 7 else 8;
}

abbrev choice : String → Bool → OptionIn
choice code is_correct = record { code = code; text = "text"; is_correct = is_correct }

abbrev gil_in : QuestionIn
gil_in = record {
  slug = "gil";
  specializations = "python" ∷ [];
  topic = "core";
  subtopic = none;
  min_grade = "junior";
  peak_grade = "middle";
  max_grade = "senior";
  frequency = 4;
  type = single_choice;
  title = "What does the GIL lock?";
  options = choice "b" true ∷ choice "c" false ∷ [];
  answer_short = "";
  answer_detailed = "";
  common_mistakes = [];
  follow_ups = [];
  company_tags = [];
  source = seed;
  difficulty_rating = some (pos 0);
}

-- A question of a user, beside the seeded one.
abbrev asked : Question
asked = record gil { id = 9; slug = "asked"; source = crowdsourced; is_verified = false }

abbrev bank : Database fixed
bank = record sample_db { questions = asked ∷ gil ∷ [] }

abbrev loaded : Database fixed × QuestionSyncReport
loaded = elim (sync_questions fixed library 5 (gil_in ∷ []) bank) [
  | ok t ↦ t
  | err _ ↦ (bank, new_question_report)
]

bank_loads : sync_questions fixed library 5 (gil_in ∷ []) bank ≡ ok (loaded.0, loaded.1)
unfolding sync_questions interview_trainer.Questions.Equality.same_option
    interview_trainer.TaxonomyRows.enumerate_from
bank_loads = refl

sync_questions-kept_example :
    (contains (verified_ids loaded.0.questions) 7 ≡ true
      → contains (verified_ids bank.questions) 7 ≡ true)
    × (all (λ (q : QuestionIn). q.source == seed) (gil_in ∷ []) ≡ true
        → not_seed loaded.0.questions ≡ not_seed bank.questions)
sync_questions-kept_example =
    sync_questions-kept fixed library 5 (gil_in ∷ []) bank loaded.0 loaded.1 7 bank_loads

apply_fields_again_example :
    ((apply_fields 6 false gil_in
        (1, 3, 5)
        (apply_fields 5 true gil_in (1, 3, 5) (blank_question 7 5 gil_in)).0).1
      ≡ true)
    ↔ (gil_in.difficulty_rating ≡ some (pos 0))
apply_fields_again_example = apply_fields_again 5 6 7 gil_in (1, 3, 5)

sync_options_again_example :
    (options : List QuestionOption) × (after : QuestionSyncReport) × (sync_options gil_in gil
        new_question_report
      ≡ ok (record gil { options = options }, after))
    × Holds
        (λ (_ : QuestionOption). true)
        (λ o. o.code)
        (λ (i : OptionIn × ℕ). i.0.code)
        SameOption
        (enumerate gil_in.options)
        options
    × (sync_options gil_in (record gil { options = options }) new_question_report
        ≡ ok (record gil { options = options }, new_question_report))
unfolding distinct
sync_options_again_example =
    sync_options_again gil_in gil new_question_report new_question_report refl refl

sync_links_lem_example :
    (all (contains (known_ids fixed library bank)) gil_in.specializations ≡ true
      → (row' : Question) × (report' : QuestionSyncReport) × (sync_links fixed library gil_in gil
            bank new_question_report
          ≡ ok (row', report'))
        × ((s : String) → contains row'.specializations s ≡ contains gil_in.specializations s))
    × ((s : String)
        → contains gil_in.specializations s ≡ true
        → contains (known_ids fixed library bank) s ≡ false
        → contains gil.specializations s ≡ false
        → sync_links fixed library gil_in gil bank new_question_report
          ≡ err missing_specializations)
sync_links_lem_example = sync_links_lem fixed library gil_in gil bank new_question_report
