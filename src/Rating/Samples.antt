-- ===== src/Rating/Samples.antt =====
-- Ratings at concrete inputs.
use interview_trainer.Prelude.{arith, ◌≡◌, ◌≤◌, refl, true, List, [], ◌∷◌, String}
use interview_trainer.Prelude.Int.{ℤ, pos, ◌≤ℤ◌}
use interview_trainer.Float.Fixed.{fixed, fixed_laws}
use interview_trainer.Rating.{apply_elo, grade_from_rating, score_correct}
use interview_trainer.Rating.Laws.{
  grade_from_rating-le_lead, grade_from_rating_mono, apply_elo_correct,
}

grade_from_rating_middle : grade_from_rating fixed (pos 131000) ≡ 3
unfolding grade_from_rating
grade_from_rating_middle = refl

grade_from_rating-le_lead_example : grade_from_rating fixed (pos 250000) ≤ 6
grade_from_rating-le_lead_example = grade_from_rating-le_lead fixed (pos 250000)

grade_from_rating_mono_example :
    grade_from_rating fixed (pos 120000) ≤ grade_from_rating fixed (pos 131000)
grade_from_rating_mono_example =
    grade_from_rating_mono fixed fixed_laws (pos 120000) (pos 131000) refl

apply_elo_correct_example :
    let u = apply_elo fixed (pos 120000) (pos 1390) (score_correct fixed) 3 in
    (fixed.le (pos 120000) u.user_rating_after ≡ true) × (u.question_rating_after ≤ℤ pos 1390)
apply_elo_correct_example =
    apply_elo_correct fixed fixed_laws (pos 120000) (pos 1390) 3 (omega arith)

abbrev some_weights : List (String × ℤ)
some_weights = ("db", pos 30) ∷ []
