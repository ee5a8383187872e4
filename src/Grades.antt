-- ===== src/Grades.antt =====
-- backend/app/core/grades.py: the scale of grades 0 to 6 and their codes.
pub mod Laws
mod Samples
use interview_trainer.Prelude.{
  ℕ, String, Bool, ◌&&◌, List, [], ◌∷◌, Option, none, some, map, lookup, nat_eq, string_eq,
}
use interview_trainer.Prelude.Int.{ℤ, pos, leb_ℤ}
use interview_trainer.Exceptions.{Error, value_error, Result, require}

abbrev pub grade_intern : ℕ
grade_intern = 0

abbrev pub grade_junior : ℕ
grade_junior = 1

abbrev pub grade_junior_plus : ℕ
grade_junior_plus = 2

abbrev pub grade_middle : ℕ
grade_middle = 3

abbrev pub grade_middle_plus : ℕ
grade_middle_plus = 4

abbrev pub grade_senior : ℕ
grade_senior = 5

abbrev pub grade_lead : ℕ
grade_lead = 6

abbrev pub min_grade : ℕ
min_grade = grade_intern

abbrev pub max_grade : ℕ
max_grade = grade_lead

abbrev pub grade_codes : List (ℕ × String)
grade_codes =
    (grade_intern, "intern")
    ∷ (grade_junior, "junior")
    ∷ (grade_junior_plus, "junior_plus")
    ∷ (grade_middle, "middle")
    ∷ (grade_middle_plus, "middle_plus")
    ∷ (grade_senior, "senior")
    ∷ (grade_lead, "lead")
    ∷ []

-- `{code: grade for grade, code in GRADE_CODES.items()}`
abbrev pub grade_values : List (String × ℕ)
grade_values = map (λ e. (e.1, e.0)) grade_codes

abbrev pub all_grades : List ℕ
all_grades = map (λ e. e.0) grade_codes

unfoldable pub grade_from_code : String → Result Error ℕ
unfolding lookup
grade_from_code code = require (lookup code grade_values) value_error

unfoldable pub code_from_grade : ℕ → Result Error String
unfolding lookup
code_from_grade grade = require (lookup grade grade_codes) value_error

unfoldable pub is_valid_grade : ℤ → Bool
is_valid_grade grade = leb_ℤ (pos min_grade) grade && leb_ℤ grade (pos max_grade)
