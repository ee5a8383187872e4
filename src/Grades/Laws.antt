-- ===== src/Grades/Laws.antt =====
-- The codes and the scale of backend/app/core/grades.py translate into one another.
use interview_trainer.Prelude.{ℕ, ◌≡◌, String, true, false, arith, eq_iff}
use interview_trainer.Prelude.Int.{pos}
use interview_trainer.Exceptions.{ok, err, value_error, ◌>>=◌}
use interview_trainer.Grades.{grade_from_code, code_from_grade, is_valid_grade}

-- A number of the scale has a code, from which the number is read back.
grade_from_code-code_from_grade :
    (grade : ℕ)
    → is_valid_grade (pos grade) ≡ true
    → (code_from_grade grade >>= grade_from_code) ≡ ok grade
unfolding is_valid_grade grade_from_code code_from_grade
grade_from_code-code_from_grade grade h = ground arith

-- A number outside the scale has no code.
pub code_from_grade_invalid :
    (grade : ℕ) → is_valid_grade (pos grade) ≡ false → code_from_grade grade ≡ err value_error
unfolding is_valid_grade code_from_grade
code_from_grade_invalid grade h = ground arith

-- A code that is accepted stands for a number from 0 to 6 whose code it is.
pub code_from_grade-grade_from_code :
    (code : String) (grade : ℕ)
    → grade_from_code code ≡ ok grade
    → (code_from_grade grade ≡ ok code) × (is_valid_grade (pos grade) ≡ true)
unfolding is_valid_grade grade_from_code code_from_grade
code_from_grade-grade_from_code code grade h = ground (
  arith,
  eq_iff "intern" code,
  eq_iff "junior" code,
  eq_iff "junior_plus" code,
  eq_iff "middle" code,
  eq_iff "middle_plus" code,
  eq_iff "senior" code,
  eq_iff "lead" code,
)
