-- ===== src/Planner/Days.antt =====
-- The days of a plan (`plan_days` of backend/app/services/planner.py).
use interview_trainer.Prelude.{
  ℕ, zero, suc, ◌+◌, ◌-◌, ◌≤◌, ◌<◌, ◌≡◌, refl, some, arith, List, length, get_elem?, ap, ◌∙◌, ◌↔◌,
}
use interview_trainer.Exceptions.{ok, err}
use interview_trainer.Planner.{not_in_future, too_long, plan_error, days_from, plan_days}

length-days_from : (start total : ℕ) → length (days_from start total) ≡ total
unfolding days_from
length-days_from start zero = refl
length-days_from start (suc total) = ap suc (length-days_from (start + 1) total)

pub get_elem?-days_from :
    (start total i : ℕ) → i < total → get_elem? (days_from start total) i ≡ some (start + i)
unfolding days_from
get_elem?-days_from start zero i h = elim h [ ]
get_elem?-days_from start (suc total) zero h = ap some (omega arith)
get_elem?-days_from start (suc total) (suc i) h =
    get_elem?-days_from (start + 1) total i (omega arith) ∙ ap some (omega arith)

-- For an interview one to thirty days ahead the plan has one day for each day from today to the
-- day before the interview, in order.
pub plan_days_lem :
    (today interview_date i : ℕ)
    → today < interview_date
    → interview_date ≤ today + 30
    → i < interview_date - today
    → (days : List ℕ) × (plan_days today interview_date ≡ ok days)
      × (length days ≡ interview_date - today)
      × (get_elem? days i ≡ some (today + i))
unfolding plan_days
plan_days_lem today interview_date i h k l = (
  days_from today (interview_date - today),
  ground arith,
  length-days_from today (interview_date - today),
  get_elem?-days_from today (interview_date - today) i l,
)

-- An interview today or earlier is refused, one more than thirty days ahead is refused for its
-- distance, and no other is refused.
plan_days_refused :
    (today interview_date : ℕ)
    → ((plan_days today interview_date ≡ err (plan_error not_in_future)) ↔ (interview_date ≤ today))
      × ((plan_days today interview_date ≡ err (plan_error too_long))
          ↔ (today + 30 < interview_date))
unfolding plan_days
plan_days_refused today interview_date =
    ((λ h. ground arith, λ h. ground arith), (λ h. ground arith, λ h. ground arith))
