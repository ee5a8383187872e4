-- ===== src/Grades/Samples.antt =====
-- Grades at concrete inputs.
use interview_trainer.Prelude.{◌≡◌, refl}
use interview_trainer.Exceptions.{err, value_error}
use interview_trainer.Grades.{grade_from_code}

grade_from_code_unknown : grade_from_code "principal" ≡ err value_error
unfolding grade_from_code
grade_from_code_unknown = refl
