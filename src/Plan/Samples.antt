-- ===== src/Plan/Samples.antt =====
-- The plan service at concrete inputs.
use interview_trainer.Prelude.{
  if◌then◌else◌, ℕ, ◌≡◌, ◌≤◌, ◌-◌, ◌↔◌, refl, arith, Bool, true, false, not, ◌&&◌, List, [], ◌∷◌,
  Option, none, some, all, keep, length, ◌==◌, nat_eq,
}
use interview_trainer.Exceptions.{ok, err, premium_required, not_found}
use interview_trainer.Float.Fixed.{fixed}
use interview_trainer.Models.{StudyPlan, StudyPlanDay}
use interview_trainer.Session.{Session}
use interview_trainer.Plan.{TodayPlan, create, today, active_plan, is_active_plan, current_day}
use interview_trainer.Plan.Active.{create-active_plan, create-err}
use interview_trainer.Plan.Today.{is_eligible, due_count, least, today_lem}
use interview_trainer.Sample.{ann, gil, sample_session}

abbrev first_day : StudyPlanDay
first_day = record {
  day_index = 0;
  day = 100;
  topic_codes = "core" ∷ [];
  new_questions = 10;
  review_only = false;
}

abbrev last_day : StudyPlanDay
last_day = record {
  day_index = 1;
  day = 101;
  topic_codes = [];
  new_questions = 0;
  review_only = true;
}

abbrev two_days : StudyPlan
two_days = record {
  id = 5;
  user_id = 1;
  specialization_id = "python";
  interview_date = 102;
  target_grade = 3;
  daily_capacity = 10;
  is_active = true;
  created_at = 500;
  days = first_day ∷ last_day ∷ [];
}

create-two_days : (create fixed 500 5 ann "python" 102 10 (some 100) sample_session).0 ≡ ok two_days
unfolding create interview_trainer.Planner.ranked interview_trainer.Planner.distribute
    interview_trainer.Planner.study_plan interview_trainer.Prelude.contains
create-two_days = refl

create-active_plan_example :
    let db = (create fixed 500 5 ann "python" 102 10 (some 100) sample_session).1.current in
    (keep (is_active_plan 1 "python") db.study_plans ≡ two_days ∷ [])
    × (active_plan fixed 1 "python" db ≡ some two_days)
create-active_plan_example =
    create-active_plan 500 5 ann "python" 102 10 (some 100) sample_session two_days create-two_days

create_unknown : (create fixed 500 5 ann "go" 102 10 (some 100) sample_session).0 ≡ err not_found
unfolding create
create_unknown = refl

create-err_example :
    ((create fixed 500 5 ann "go" 102 10 (some 100) sample_session).1 ≡ sample_session)
    × ((not_found ≡ premium_required) ↔ (true ≡ false))
create-err_example =
    create-err 500 5 ann "go" 102 10 (some 100) sample_session not_found create_unknown

abbrev planned : Session fixed
planned = record sample_session {
  current = record sample_session.current { study_plans = two_days ∷ [] };
}

abbrev first_today : TodayPlan
first_today = record {
  plan = two_days;
  day = first_day;
  due_reviews = 0;
  new_questions = gil ∷ [];
  completed_today = 0;
  topic_titles = ("core", "Core") ∷ [];
  subtopic_titles = [];
}

today_first : (today fixed 8640000000900 ann "python" (some 100) planned).0 ≡ ok first_today
unfolding today
today_first = refl

today_lem_example :
    ((today fixed 8640000000900 ann "python" (some 100) planned).1 ≡ planned)
    × (active_plan fixed 1 "python" planned.current ≡ some two_days)
    × (first_day.day ≡ current_day 8640000000900 (some 100))
    × (0
        ≡ due_count 8640000000900 1 "python" planned.current.questions
            planned.current.review_states)
    × (all (is_eligible 1 "python" two_days first_day planned.current.user_answers) (gil ∷ [])
        ≡ true)
    × (length first_today.new_questions ≡ (
        if first_day.review_only
        then 0
        else least (first_day.new_questions - 0) (
            length (
              keep
                (is_eligible 1 "python" two_days first_day planned.current.user_answers)
                planned.current.questions))))
today_lem_example = today_lem 8640000000900 ann "python" (some 100) planned first_today today_first
