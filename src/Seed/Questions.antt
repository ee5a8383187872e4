-- ===== src/Seed/Questions.antt =====
-- backend/app/seed/question_schema.py: the files content/questions/*.yaml and their checks, and the
-- index of the taxonomy against which the references are checked. `re.search` for the heading of a
-- level and `uuid5` are parameters.
use interview_trainer.Prelude.{
  ℕ, Bool, true, false, not, ◌&&◌, List, [], ◌∷◌, Option, none, some, String, if◌then◌else◌, ◌==◌,
  string_eq, nat_eq, keep, contains, map, lookup, length, leb, ltb,
}
use interview_trainer.Prelude.Int.{ℤ}
use interview_trainer.Exceptions.{Result, ok, ensure, require, ◌>>=◌, ◌>>◌}
use interview_trainer.Enums.{
  QuestionType, QuestionSource, single_choice, multi_choice, open_answer, has_options,
}
use interview_trainer.Grades.{grade_values}
use interview_trainer.Float.{Float}
use interview_trainer.Seed.{
  Invalid, unknown_specialization, unknown_grade, grade_order, options_not_allowed, too_few_options,
  wrong_correct, missing_levels, unknown_topic, unknown_subtopic, key_error, check_each,
  reject_duplicates, is_empty, to_set, SubtopicIn, TopicIn, TaxonomyFile,
}

pub record OptionIn : Type 0 where
  pub code : String
  pub text : String
  pub is_correct : Bool

pub record QuestionIn : Type 0 where
  pub slug : String
  pub specializations : List String
  pub topic : String
  pub subtopic : Option String
  pub min_grade : String
  pub peak_grade : String
  pub max_grade : String
  pub frequency : ℕ
  pub type : QuestionType
  pub title : String
  pub options : List OptionIn
  pub answer_short : String
  pub answer_detailed : String
  pub common_mistakes : List String
  pub follow_ups : List String
  pub company_tags : List String
  pub source : QuestionSource
  pub difficulty_rating : Option ℤ

-- The code outside the repository: whether the text has a heading for the level, and `uuid5`.
pub record Library : Type 0 where
  pub has_heading : String → String → Bool
  pub uuid5 : String → ℕ

abbrev pub level_headings : List (String × String)
level_headings = ("Junior", "junior") ∷ ("Middle", "middle") ∷ ("Senior", "senior") ∷ []

-- `GRADE_VALUES[code]`
unfoldable pub value_of : String → Result Invalid ℕ
unfolding lookup
value_of code = require (lookup code grade_values) key_error

unfoldable pub grades : QuestionIn → Result Invalid (ℕ × ℕ × ℕ)
unfolding value_of
grades q = value_of q.min_grade >>= λ (low : ℕ). value_of q.peak_grade >>= λ (peak : ℕ).
    value_of q.max_grade >>= λ (high : ℕ). ok (low, peak, high)

abbrev pub is_grade_code : String → Bool
is_grade_code code = contains (map (λ e. e.0) grade_values) code

unfoldable pub check_grades : QuestionIn → Result Invalid (Unit {0})
unfolding grades check_each contains
check_grades q =
    check_each (λ code. ensure (is_grade_code code) unknown_grade)
      (q.min_grade ∷ q.peak_grade ∷ q.max_grade ∷ [])
    >> (grades q >>= λ (g : ℕ × ℕ × ℕ). ensure (leb g.0 g.1 && leb g.1 g.2) grade_order)

-- `sum(option.is_correct for option in self.options)`
abbrev pub correct_count : List OptionIn → ℕ
correct_count options = length (keep (λ (o : OptionIn). o.is_correct) options)

abbrev pub option_codes : List OptionIn → List String
option_codes options = map (λ (o : OptionIn). o.code) options

abbrev pub is_right_count : QuestionType → ℕ → Bool
is_right_count single_choice correct = correct == 1
is_right_count multi_choice correct = leb 2 correct
is_right_count _ correct = true

unfoldable pub check_options : QuestionIn → Result Invalid (Unit {0})
unfolding has_options reject_duplicates keep
check_options q =
    if has_options q.type
    then ensure (leb 2 (length q.options)) too_few_options
      >> reject_duplicates (option_codes q.options)
      >> ensure (is_right_count q.type (correct_count q.options)) wrong_correct
    else ensure (is_empty q.options) options_not_allowed

-- the levels that the question covers
unfoldable pub expected_levels : ℕ → ℕ → List (String × String) → Result Invalid (List String)
unfolding value_of
expected_levels low high [] = ok []
expected_levels low high ((heading, code) ∷ rest) = value_of code >>= λ (v : ℕ).
    expected_levels low high rest >>= λ (levels : List String).
    ok (if leb low v && leb v high then heading ∷ levels else levels)

abbrev pub is_open : QuestionType → Bool
is_open open_answer = true
is_open _ = false

module _ (lib : Library) where
  open lib use {has_heading, uuid5}

  unfoldable pub question_id : String → ℕ
  question_id slug = uuid5 slug

  unfoldable pub check_answer : QuestionIn → Result Invalid (Unit {0})
  unfolding grades expected_levels keep
  check_answer q =
      if is_open q.type
      then (grades q >>= λ (g : ℕ × ℕ × ℕ).
          expected_levels g.0 g.2 level_headings >>= λ (expected : List String).
          if ltb (length expected) 2
          then ok tt
          else ensure
              (is_empty (keep (λ level. not (has_heading level q.answer_detailed)) expected))
              missing_levels)
      else ok tt

  -- `check_everything`
  unfoldable pub check_question : QuestionIn → Result Invalid (Unit {0})
  unfolding check_grades check_options check_answer reject_duplicates
  check_question q =
      check_grades q >> check_options q >> check_answer q >> reject_duplicates q.specializations

  pub record QuestionFile : Type 0 where
    pub version : ℕ
    pub questions : List QuestionIn

  unfoldable pub check_questions : QuestionFile → Result Invalid (Unit {0})
  unfolding check_each check_question reject_duplicates
  check_questions file =
      check_each check_question file.questions
      >> reject_duplicates (map (λ (q : QuestionIn). q.slug) file.questions)

-- `TaxonomyIndex`: specialization, topic, codes of the subtopics
abbrev pub TaxonomyIndex : Type 0
TaxonomyIndex = List (String × List (String × List String))

module _ (fl : Float) where
  unfoldable pub from_taxonomy : TaxonomyFile fl → TaxonomyIndex
  unfolding to_set
  from_taxonomy taxonomy =
      map
        (λ (e : String × List (TopicIn fl)). (
          e.0,
          map (λ (t : TopicIn fl). (t.code, to_set (map (λ (s : SubtopicIn). s.code) t.subtopics)))
              e.1,
        ))
        taxonomy.topics

-- the body of the inner loop of `TaxonomyIndex.check`
unfoldable pub check_reference : TaxonomyIndex → QuestionIn → String → Result Invalid (Unit {0})
unfolding lookup contains
check_reference index q specialization =
    require (lookup specialization index) unknown_specialization
    >>= λ (topics : List (String × List String)).
        require (lookup q.topic topics) unknown_topic >>= λ (subtopics : List String).
        elim q.subtopic [
          | none ↦ ok tt
          | some code ↦ ensure (contains subtopics code) unknown_subtopic
        ]

unfoldable pub check_index : TaxonomyIndex → List QuestionIn → Result Invalid (Unit {0})
unfolding check_each check_reference
check_index index questions =
    check_each (λ (q : QuestionIn). check_each (check_reference index q) q.specializations)
      questions
