-- ===== src/Scheduler/Samples.antt =====
-- The scheduler at concrete inputs.
use interview_trainer.Prelude.{
  ℕ, ◌≡◌, ◌⊎◌, ◌≤◌, ◌+◌, ◌*◌, refl, arith, List, [], ◌∷◌, some, all, nat_eq,
}
use interview_trainer.Prelude.Int.{ℤ, pos, ◌+ℤ◌, ◌-ℤ◌}
use interview_trainer.Exceptions.{ok, err, overflow_error}
use interview_trainer.Float.Fixed.{fixed, fixed_laws, fixed_round, fixed_mul, of_int}
use interview_trainer.Scheduler.{
  ReviewSnapshot, review, review_all, next_interval, next_easiness_factor, days,
}
use interview_trainer.Scheduler.Laws.{IsScheduled, review_failure, review-IsScheduled}
use interview_trainer.Scheduler.Streaks.{IsTooLate, review_all_passed}

-- a question that was answered twice
abbrev known : ReviewSnapshot fixed
known = record { easiness_factor = pos 250; repetitions = 2; interval_days = 6; due_at = some 0 }

-- after one more answer of quality 4 at time 0
abbrev better : ReviewSnapshot fixed
better = record {
  easiness_factor = pos 250;
  repetitions = 3;
  interval_days = 15;
  due_at = some (15 * 86400000000);
}

-- after an answer of quality 2
abbrev worse : ReviewSnapshot fixed
worse = record {
  easiness_factor = pos 218;
  repetitions = 0;
  interval_days = 1;
  due_at = some 86400000000;
}

review-better : review fixed known (pos 4) 0 ≡ ok better
unfolding review next_interval next_easiness_factor ◌+ℤ◌ fixed_round ◌-ℤ◌ fixed_mul of_int
review-better = refl

review-worse : review fixed known (pos 2) 0 ≡ ok worse
unfolding review next_interval next_easiness_factor ◌+ℤ◌ ◌-ℤ◌ fixed_mul of_int
review-worse = refl

review_failure_example :
    (worse.repetitions ≡ 0) × (worse.interval_days ≡ 1) × (worse.due_at ≡ some (0 + days 1))
review_failure_example = review_failure fixed known worse (pos 2) 0 review-worse refl

review-IsScheduled_example :
    IsScheduled fixed better × (better.due_at ≡ some (0 + days better.interval_days))
review-IsScheduled_example =
    review-IsScheduled fixed fixed_laws known better (pos 4) 0 review-better

abbrev two_answers : List (ℤ × ℕ)
two_answers = (pos 4, 0) ∷ (pos 5, 1296000000000) ∷ []

review_all_passed_example :
    ((final : ReviewSnapshot fixed) × (review_all fixed two_answers known ≡ ok final)
      × (final.repetitions ≡ 2 + 2)
      × (6 ≤ final.interval_days))
    ⊎ (review_all fixed two_answers known ≡ err overflow_error) × IsTooLate fixed two_answers known
unfolding all
review_all_passed_example =
    review_all_passed fixed fixed_laws two_answers known refl (omega arith) (omega arith)
