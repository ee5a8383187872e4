-- ===== src/Plan.antt =====
-- backend/app/services/plan.py: creating a preparation plan, and what to do today. `now` is the
-- moment of the request; the rows of `study_plan_days` are kept in their plan.
pub mod Active
pub mod Today
mod Samples
use Prim.Native.String.{compare}
use text.Mathlib.Text.{is_lt}
use interview_trainer.Prelude.{
  ℕ, ◌+◌, ◌-◌, ◌*◌, ◌/◌, Bool, true, false, not, ◌&&◌, ◌||◌, List, [], ◌∷◌, ◌++◌, Option, none,
  some, String, if◌then◌else◌, ◌==◌, nat_eq, string_eq, find, keep, any, contains, length, take,
  map, ltb, leb, sort_by, first,
}
use interview_trainer.Prelude.Int.{ℤ, pos, ◌-ℤ◌}
use interview_trainer.Exceptions.{
  Error, Result, ok, err, not_found, invalid_input, premium_required, value_error, ensure, require,
}
use interview_trainer.Float.{Float}
use interview_trainer.Rating.{get_or, start_rating}
use interview_trainer.Scheduler.{days}
use interview_trainer.Planner.{
  DayPlan, Failure, TopicPriority, plan_error, index_error, out_of_fuel, plan_days, build_plan,
}
use interview_trainer.Models.{
  Database, Question, ReviewState, StudyPlan, StudyPlanDay, User, UserAnswer, UserSpecialization,
}
use interview_trainer.Session.{Action, update, pure, lift, query, write, ◌>>=◌, ◌>>◌}
use interview_trainer.Practice.Lookups.{
  find_profile, topic_weights, topic_ratings, topic_titles, subtopic_titles,
}
use interview_trainer.Practice.Feed.{is_linked, in_grade_range, is_answered}

-- `except PlanError`; an IndexError, or a loop without end, would be no domain error
unfoldable pub plan_failure : {A : Type 0} → Result Failure A → Result Error A
plan_failure (ok a) = ok a
plan_failure (err (plan_error _)) = err invalid_input
plan_failure (err index_error) = err value_error
plan_failure (err out_of_fuel) = err value_error

-- `today or datetime.now(UTC).date()`
unfoldable pub current_day : ℕ → Option ℕ → ℕ
current_day now none = now / days 1
current_day now (some day) = day

-- what `_deactivate_previous` and `_active_plan` select
unfoldable pub is_active_plan : ℕ → String → StudyPlan → Bool
is_active_plan user specialization p =
    p.user_id == user && (p.specialization_id == specialization && p.is_active)

abbrev pub inactive : StudyPlan → StudyPlan
inactive p = record p { is_active = false }

unfoldable pub deactivate_previous : ℕ → String → List StudyPlan → List StudyPlan
unfolding update is_active_plan
deactivate_previous user specialization = update (is_active_plan user specialization) inactive

abbrev pub plan_day : DayPlan → StudyPlanDay
plan_day item = record {
  day_index = item.day_index;
  day = item.day;
  topic_codes = item.topics;
  new_questions = item.new_questions;
  review_only = item.review_only;
}

abbrev pub new_plan : ℕ → ℕ → ℕ → String → ℕ → ℕ → ℕ → List DayPlan → StudyPlan
new_plan id now user specialization interview_date target_grade daily_capacity schedule = record {
  id = id;
  user_id = user;
  specialization_id = specialization;
  interview_date = interview_date;
  target_grade = target_grade;
  daily_capacity = daily_capacity;
  is_active = true;
  created_at = now;
  days = map plan_day schedule;
}

-- `_day_for`
unfoldable pub day_for : StudyPlan → ℕ → Result Error StudyPlanDay
unfolding find
day_for plan day = require (find (λ d. d.day == day) plan.days) not_found

-- `ORDER BY frequency DESC, slug`
unfoldable pub more_frequent : Question → Question → Bool
more_frequent a b =
    if a.frequency == b.frequency
    then is_lt (compare a.slug b.slug)
    else ltb b.frequency a.frequency

pub record TodayPlan : Type 0 where
  pub plan : StudyPlan
  pub day : StudyPlanDay
  pub due_reviews : ℕ
  pub new_questions : List Question
  pub completed_today : ℕ
  pub topic_titles : List (String × String)
  pub subtopic_titles : List (String × String)

unfoldable pub total_target : TodayPlan → ℕ
total_target t = t.due_reviews + length t.new_questions

unfoldable pub days_left : TodayPlan → ℤ
days_left t = pos t.plan.interview_date -ℤ pos t.day.day

module _ (fl : Float) where
  -- `_topic_priorities`
  unfoldable pub topic_priorities : ℕ → String → ℕ → Database fl → List (TopicPriority fl)
  unfolding topic_weights topic_ratings get_or
  topic_priorities user specialization target_grade db =
      let ratings = topic_ratings user specialization db in
      map
        (λ row. record {
          topic_code = row.0;
          weight = row.1;
          rating = get_or (start_rating fl) row.0 ratings;
        })
        (topic_weights specialization target_grade db)

  -- the `try` of `create`
  unfoldable pub schedule_of : ℕ → ℕ → List (TopicPriority fl) → ℕ → Result Error (List DayPlan)
  unfolding plan_failure plan_days build_plan
  schedule_of day interview_date priorities daily_capacity = elim (plan_days day interview_date) [
    | err failure ↦ plan_failure (err failure)
    | ok days ↦ plan_failure (build_plan fl priorities days daily_capacity)
  ]

  abbrev pub with_plan : ℕ → String → StudyPlan → Database fl → Database fl
  with_plan user specialization plan db = record db {
    study_plans = deactivate_previous user specialization db.study_plans ++ plan ∷ [];
  }

  unfoldable pub create : ℕ → ℕ → User → String → ℕ → ℕ → Option ℕ → Action fl StudyPlan
  unfolding ◌>>=◌ find_profile topic_priorities schedule_of current_day deactivate_previous
  create now id user specialization interview_date daily_capacity today = do
    lift (ensure user.is_premium premium_required)
    found ← query (find_profile user.id specialization)
    profile ← lift (require found not_found)
    let day = current_day now today
    priorities ← query (topic_priorities user.id specialization profile.target_grade)
    schedule ← lift (schedule_of day interview_date priorities daily_capacity)
    let plan =
        new_plan id now user.id specialization interview_date profile.target_grade daily_capacity
          schedule
    write (with_plan user.id specialization plan)
    pure plan

  -- `_active_plan`: the latest
  unfoldable pub active_plan : ℕ → String → Database fl → Option StudyPlan
  unfolding keep is_active_plan sort_by
  active_plan user specialization db = first (
      sort_by (λ a b. ltb b.created_at a.created_at)
        (keep (is_active_plan user specialization) db.study_plans))

  -- `_count_due_reviews`
  unfoldable pub is_due_review : ℕ → ℕ → String → Database fl → ReviewState fl → Bool
  unfolding any is_linked
  is_due_review now user specialization db r =
      r.user_id == user
      && (leb r.due_at now
          && any (λ (q : Question). q.id == r.question_id && is_linked specialization q)
              db.questions)

  unfoldable pub count_due_reviews : ℕ → ℕ → String → Database fl → ℕ
  unfolding keep is_due_review
  count_due_reviews now user specialization db =
      length (keep (is_due_review now user specialization db) db.review_states)

  -- `_count_answers_on`: from the midnight of the day on
  unfoldable pub count_answers_on : ℕ → String → ℕ → Database fl → ℕ
  unfolding keep
  count_answers_on user specialization day db = length (
      keep
        (λ (a : UserAnswer fl).
          a.user_id == user
          && (a.specialization_id == specialization && leb (days day) a.answered_at))
        db.user_answers)

  -- the condition of `_pick_new_questions`
  abbrev pub is_new_for : ℕ → String → StudyPlan → StudyPlanDay → Database fl → Question → Bool
  is_new_for user specialization plan day db q =
      is_linked specialization q
      && (contains day.topic_codes q.topic_code
          && (in_grade_range plan.target_grade q && not (is_answered fl user db.user_answers q)))

  unfoldable pub pick_new_questions :
      ℕ → String → StudyPlan → StudyPlanDay → ℕ → Database fl → List Question
  unfolding keep contains is_linked in_grade_range is_answered sort_by more_frequent
  pick_new_questions user specialization plan day limit db =
      take limit
        (sort_by more_frequent (keep (is_new_for user specialization plan day db) db.questions))

  unfoldable pub today : ℕ → User → String → Option ℕ → Action fl TodayPlan
  unfolding ◌>>=◌ active_plan current_day day_for count_due_reviews count_answers_on
      pick_new_questions topic_titles subtopic_titles
  today now user specialization date = do
    lift (ensure user.is_premium premium_required)
    found ← query (active_plan user.id specialization)
    plan ← lift (require found not_found)
    day ← lift (day_for plan (current_day now date))
    due_reviews ← query (count_due_reviews now user.id specialization)
    completed ← query (count_answers_on user.id specialization (current_day now date))
    let capacity_left = day.new_questions - due_reviews
    new_questions ← query (λ db.
        if day.review_only || capacity_left == 0
        then []
        else pick_new_questions user.id specialization plan day capacity_left db)
    topics ← query (topic_titles specialization)
    subtopics ← query (subtopic_titles specialization)
    pure (record {
      plan = plan;
      day = day;
      due_reviews = due_reviews;
      new_questions = new_questions;
      completed_today = completed;
      topic_titles = topics;
      subtopic_titles = subtopics;
    })
